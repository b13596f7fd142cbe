-- ===== src/Daemon/Inquiry.antt =====
-- The loop of an inquiry in c/provider/daemon.c, against the specification.
use mini_service_discover.Base.{
  ℕ, zero, suc, ◌+◌, ◌<◌, ◌≡◌, refl, ap, ◌∙◌, inl, inr, Bool, true, false, ◌≢◌, some, [], ◌∷◌, map,
  if◌then◌else◌, length, All, arith, drop, Bool-cases,
}
use mini_service_discover.Base.Outcome.{Returns, returns, then-Returns, weaken-Returns}
use mini_service_discover.CString.{Str}
use mini_service_discover.Memory.{Ptr, null, ServiceInfo}
use mini_service_discover.Memory.Laws.{not_null, load_info-done}
use mini_service_discover.ServiceList.{list_get}
use mini_service_discover.ServiceList.Registry.{Registry, text_eq}
use mini_service_discover.ServiceList.Get.{named_at, PointsTo}
use mini_service_discover.ServiceList.Stores.{Stores, list_get-Stores}
use mini_service_discover.Protocol.Cjson.{Cjson}
use mini_service_discover.Protocol.Build.{get_inquiry_result_pkt}
use mini_service_discover.Udp.Send.{IsHealthy}
use mini_service_discover.Daemon.{Daemon, inquiry_loop}
use mini_service_discover.Daemon.Spec.{found, named_prefix, Built, Replied}
use mini_service_discover.Daemon.Replies.{after_sending, send_pkt-done, Replied-none, Replied-cons}

abbrev pub is_empty : Registry → Bool
is_empty [] = true
is_empty (i ∷ r) = false

named_at-drop : (svc : Str) (i : ℕ) (r : Registry) → named_at svc i r ≡ named_at svc 0 (drop i r)
unfolding named_at
named_at-drop svc zero r = refl
named_at-drop svc (suc i) [] = refl
named_at-drop svc (suc i) (x ∷ r) = named_at-drop svc i r

drop-suc :
    (i : ℕ) (r : Registry) (x : ServiceInfo) (q : Registry) → drop i r ≡ x ∷ q → drop (suc i) r ≡ q
drop-suc zero r x q h = ap (λ t. drop 1 t) h
drop-suc (suc i) [] x q h = cc
drop-suc (suc i) (y ∷ r) x q h = drop-suc i r x q h

if_same : (b : Bool) → (if b then true else true) ≡ true
if_same true = refl
if_same false = refl

module _ (signed : Bool) (c : Cjson) (svc : Str) (info : Ptr) (s : ServiceInfo) (r : Registry) where
  -- The loop at an index, with `q` the rest of the registry.
  pub record Asked (d : Daemon) (q : Registry) (was : Bool) (t : Bool × Daemon) : Type 0 where
    pub got : t.0 ≡ (if is_empty (named_prefix svc q) then was else true)
    pub replied : Replied signed c d.socket (map found (named_prefix svc q)) t.1.socket
    pub list : t.1.list ≡ d.list
    pub memory : t.1.memory ≡ d.memory

  abbrev pub Request : Daemon → Type 0
  Request d = (info ≢ null) × (d.memory.infos info ≡ some s) × (s.service_name ≡ some svc)

  -- `list_get` at the index: the first service of the rest, if it has the name.
  asks :
      (d : Daemon) (i : ℕ) (q : Registry)
      → Stores d.memory.brk d.memory d.list r
      → Request d
      → drop i r ≡ q
      → Returns
          (λ p. PointsTo d.memory p (named_at svc 0 q))
          (list_get d.list s.service_name i d.memory)
  asks d i q st at rest =
      let same : named_at svc i r ≡ named_at svc 0 q =
        named_at-drop svc i r ∙ ap (named_at svc 0) rest in
      simp (at.2, ← same) (list_get-Stores d.memory.brk d.memory d.list r svc i st (omega arith))

  -- No service is left, or the next has another name: the loop ends.
  Asked-none :
      (d : Daemon) (q : Registry) (was : Bool)
      → named_prefix svc q ≡ []
      → IsHealthy d.socket
      → Asked d q was (was, d)
  Asked-none d q was e healthy = record {
    got = rw e;
    replied = rw e (Replied-none signed c d.socket healthy);
    list = refl;
    memory = refl;
  }

  -- A service was found and sent, and the loop went on.
  Asked-more :
      (d : Daemon) (x : ServiceInfo) (q : Registry) (was : Bool)
      → text_eq x.service_name svc ≡ true
      → (b : Built (get_inquiry_result_pkt signed c x)) (t : Bool × Daemon)
      → Asked (after_sending d b.pkt) q true t
      → Asked d (x ∷ q) was t
  unfolding named_prefix
  Asked-more d x q was hit b t later = record {
    got = rw hit (later.got ∙ if_same (is_empty (named_prefix svc q)));
    replied = rw hit (
        Replied-cons signed c d.socket t.1.socket (found x) (map found (named_prefix svc q)) b
          later.replied);
    list = later.list;
    memory = later.memory;
  }

  pub inquiry_loop-Asked :
      (k i : ℕ) (was : Bool) (d : Daemon) (q : Registry)
      → Stores d.memory.brk d.memory d.list r
      → Request d
      → drop i r ≡ q
      → All (λ j. Built (get_inquiry_result_pkt signed c j)) q
      → length q < k
      → IsHealthy d.socket
      → Returns (Asked d q was) (inquiry_loop signed c k info i was d)
  unfolding inquiry_loop named_prefix named_at
  inquiry_loop-Asked zero i was d q st at rest builds fuel healthy = absurd (omega arith)
  inquiry_loop-Asked (suc k) i was d [] st at rest builds fuel healthy =
      rw (load_info-done d.memory at.0 at.1) (
        then-Returns (asks d i [] st at rest)
          λ p nil. rw nil (returns (Asked-none d [] was refl healthy)))
  inquiry_loop-Asked (suc k) i was d (x ∷ q) st at rest builds fuel healthy =
      let b = builds.0 in
      rw (load_info-done d.memory at.0 at.1) (
        then-Returns (asks d i (x ∷ q) st at rest) λ p points.
          elim (Bool-cases (text_eq x.service_name svc)) [
            | inl hit ↦
                let (ne, holds) = rw hit at points in
                rw
                  (
                    not_null ne,
                    load_info-done d.memory ne holds,
                    b.built,
                    send_pkt-done d b.pkt b.whole b.some_bytes healthy,
                  )
                  (weaken-Returns
                    (inquiry_loop-Asked k (i + 1) true (after_sending d b.pkt) q st at
                      (ap (λ n. drop n r) {x = i + 1} {y = suc i} (omega arith)
                        ∙ drop-suc i r x q rest)
                      builds.1 (omega arith) healthy)
                    (Asked-more d x q was hit b))
            | inr miss ↦
                let nil = rw miss at points in
                rw nil (returns (Asked-none d (x ∷ q) was (rw miss) healthy))
          ])
