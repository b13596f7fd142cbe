-- ===== src/Daemon/Handlers.antt =====
-- The handlers of c/provider/daemon.c for the two requests that change the list.
use mini_service_discover.Base.{
  ℕ, ◌+◌, ◌≤◌, ◌<◌, ◌≡◌, refl, ap, ◌∙◌, inl, inr, Bool, ◌≢◌, Option, none, some, List, [], ◌∷◌,
  if◌then◌else◌, All, All-append, arith, Bool-cases,
}
use mini_service_discover.Base.Outcome.{◌>>=◌, Returns, returns, then-Returns}
use mini_service_discover.CString.{Str}
use mini_service_discover.Memory.{Ptr, null, ServiceInfo, Memory, put_info}
use mini_service_discover.Memory.Laws.{load_info-done, free_service_info-done, update-ne}
use mini_service_discover.ServiceList.{ServiceList}
use mini_service_discover.ServiceList.Registry.{Registry, IsDistinct, contains, erase, register}
use mini_service_discover.ServiceList.Registry.Laws.{
  HasNames, erase-All, register-IsDistinct, erase-IsDistinct,
}
use mini_service_discover.ServiceList.Stores.{
  Stores, Stores-frame, list_add-Stores, list_remove-Stores,
}
use mini_service_discover.Protocol.Cjson.{Cjson}
use mini_service_discover.Protocol.Build.{get_inquiry_result_pkt}
use mini_service_discover.Udp.{Socket}
use mini_service_discover.Udp.Send.{IsHealthy}
use mini_service_discover.Daemon.{
  Daemon, send_pkt, handle_register, unregister_answer, handle_unregister,
}
use mini_service_discover.Daemon.Spec.{
  Reply, succeeded, not_found, Built, reply_pkt, Serves, Replied,
}
use mini_service_discover.Daemon.Replies.{send_pkt-done, Replied-one}

-- The two answers without a service can be built.
pub record CanAnswer (signed : Bool) (c : Cjson) : Type 0 where
  pub success : Built (reply_pkt signed c succeeded)
  pub failure : Built (reply_pkt signed c not_found)

module _ (signed : Bool) (c : Cjson) (can : CanAnswer signed c) where
  -- The daemon after a request: the registry and the replies are those of the specification.
  pub record Served (s : Socket) (r : Registry) (replies : List Reply) (d : Daemon) : Type 0 where
    pub serves : Serves signed c d r
    pub replied : Replied signed c s replies d.socket

  -- The daemon `d`, with the request's info `i` in memory behind the objects of the list.
  pub record Holds (b : ℕ) (d : Daemon) (r : Registry) (info : Ptr) (i : ServiceInfo)
      (dev svc : Str) : Type 0 where
    pub stores : Stores b d.memory d.list r
    pub distinct : IsDistinct r
    pub answers : All (λ j. Built (get_inquiry_result_pkt signed c j)) r
    pub healthy : IsHealthy d.socket
    pub behind : b ≤ info
    pub below : info < d.memory.brk
    pub not_nil : info ≢ null
    pub holds : d.memory.infos info ≡ some i
    pub names : HasNames dev svc i

  -- The end of a handler: one answer is built and sent.
  answered :
      (q : Reply) (a : Built (reply_pkt signed c q)) (d : Daemon) (r : Registry)
      → Serves signed c d r
      → Returns (Served d.socket r (q ∷ [])) (reply_pkt signed c q >>= λ pkt. send_pkt pkt d)
  answered q a d r serves =
      rw (a.built, send_pkt-done d a.pkt a.whole a.some_bytes serves.healthy)
        (returns (record {
          serves = record {
            stores = serves.stores;
            distinct = serves.distinct;
            answers = serves.answers;
            healthy = serves.healthy;
          };
          replied = Replied-one signed c d.socket q a serves.healthy;
        }))

  pub handle_register-Served :
      (b : ℕ) (d : Daemon) (r : Registry) (info : Ptr) (i : ServiceInfo) (dev svc : Str)
      → Holds b d r info i dev svc
      → Built (get_inquiry_result_pkt signed c i)
      → Returns
          (Served d.socket (register dev svc i r) (succeeded ∷ []))
          (handle_register signed c info d)
  unfolding handle_register register
  handle_register-Served b d r info i dev svc h build =
      then-Returns
        (list_add-Stores b d.memory d.list r dev svc info i h.stores h.behind h.below h.holds
          h.names)
        λ t (stores, infos, brk).
          let d' : Daemon = record { list = t.0; memory = t.1; socket = d.socket } in
          answered succeeded can.success d' (register dev svc i r) (record {
            stores =
                Stores-frame (d.memory.brk + 1) t.1.brk t.1 t.1 t.0 (register dev svc i r) stores
                  (omega arith) (λ a lt. refl) (λ a lt. refl);
            distinct = register-IsDistinct dev svc i r h.names h.distinct;
            answers =
                All-append (λ j. Built (get_inquiry_result_pkt signed c j)) (erase dev svc r)
                  (i ∷ [])
                  (erase-All (λ j. Built (get_inquiry_result_pkt signed c j)) dev svc r h.answers)
                  (build, tt);
            healthy = h.healthy;
          })

  -- Freeing the request's info does not touch the list.
  pub freed-Stores :
      (b : ℕ) (m : Memory) (l : ServiceList) (q : Registry) (info : Ptr)
      → Stores b m l q
      → b ≤ info
      → info < m.brk
      → Stores m.brk (put_info info none m) l q
  freed-Stores b m l q info st behind below =
      Stores-frame b m.brk m (put_info info none m) l q st (omega arith) (λ a lt. refl)
        λ a lt. update-ne m.infos none (omega arith)

  pub handle_unregister-Served :
      (b : ℕ) (d : Daemon) (r : Registry) (info : Ptr) (i : ServiceInfo) (dev svc : Str)
      → Holds b d r info i dev svc
      → Returns
          (Served d.socket
            (erase dev svc r)
            ((if contains dev svc r then succeeded else not_found) ∷ []))
          (handle_unregister signed c info d)
  unfolding handle_unregister unregister_answer
  handle_unregister-Served b d r info i dev svc h = rw (load_info-done d.memory h.not_nil h.holds) (
      simp (h.names.0, h.names.1)
        (then-Returns
          (list_remove-Stores b d.memory d.list r dev svc h.stores (omega (arith, h.below)))
          λ t (coded, stores, infos, brk).
            let held = ap (λ (f : Ptr → Option ServiceInfo). f info) infos ∙ h.holds in
            let m : Memory = put_info info none t.2 in
            let d' : Daemon = record { list = t.1; memory = m; socket = d.socket } in
            let serves : Serves signed c d' (erase dev svc r) = record {
              stores =
                  freed-Stores b t.2 t.1 (erase dev svc r) info stores h.behind
                    (omega (arith, h.below));
              distinct = erase-IsDistinct dev svc r h.distinct;
              answers =
                  erase-All (λ j. Built (get_inquiry_result_pkt signed c j)) dev svc r h.answers;
              healthy = h.healthy;
            } in
            rw (free_service_info-done t.2 h.not_nil held, coded)
              (elim (Bool-cases (contains dev svc r)) [
                | inl there ↦ rw there (answered succeeded can.success d' (erase dev svc r) serves)
                | inr gone ↦ rw gone (answered not_found can.failure d' (erase dev svc r) serves)
              ])))
