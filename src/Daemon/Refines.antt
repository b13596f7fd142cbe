-- ===== src/Daemon/Refines.antt =====
-- The handler of a packet in c/provider/daemon.c, against the specification.
use mini_service_discover.Base.{
  ℕ, suc, ◌+◌, ◌<◌, ◌≡◌, refl, ap, ◌∙◌, Bool, true, false, some, List, [], ◌∷◌, map, if◌then◌else◌,
  arith,
}
use mini_service_discover.Base.Outcome.{done, ◌>>=◌, Returns, returns, then-Returns}
use mini_service_discover.CString.{Str}
use mini_service_discover.Memory.{Ptr, ServiceInfo, Memory, new_info, free_service_info, put_info}
use mini_service_discover.Memory.Laws.{free_service_info-done, update-ne, update_self}
use mini_service_discover.ServiceList.Registry.{Registry}
use mini_service_discover.ServiceList.Registry.Laws.{HasNames}
use mini_service_discover.ServiceList.Stores.{Stores, Stores-frame, Stores-length}
use mini_service_discover.Protocol.{
  Action, register_service, unregister_service, inquiry, Packet, decode_action,
}
use mini_service_discover.Protocol.Cjson.{Cjson}
use mini_service_discover.Protocol.Build.{get_inquiry_result_pkt, get_result_pkt}
use mini_service_discover.Protocol.Decode.{get_service_info}
use mini_service_discover.Daemon.{
  Daemon, send_pkt, is_request, handle_inquiry, dispatch, service_no_found, handle_info, handle_pkt,
}
use mini_service_discover.Daemon.Spec.{
  Reply, not_found, found, named_prefix, inquiry_replies, step, Built, Serves, Replied,
}
use mini_service_discover.Daemon.Replies.{after_sending, send_pkt-done, Replied-one, Replied-append}
use mini_service_discover.Daemon.Inquiry.{Asked, inquiry_loop-Asked}
use mini_service_discover.Daemon.Handlers.{
  CanAnswer, Served, Holds, handle_register-Served, freed-Stores, handle_unregister-Served,
}

module _ (signed : Bool) (c : Cjson) (can : CanAnswer signed c) where
  module _ (b : ℕ) (d : Daemon) (r : Registry) (info : Ptr) (i : ServiceInfo) (dev svc : Str)
      (h : Holds signed c can b d r info i dev svc) where
    -- The end of an inquiry, with the list and the memory as they were.
    finish_inquiry :
        (e : Daemon) (replies : List Reply)
        → e.list ≡ d.list
        → e.memory ≡ d.memory
        → Replied signed c d.socket replies e.socket
        → Returns
            (Served signed c can d.socket r replies)
            (do memory ← free_service_info info e.memory; done (record e { memory = memory }))
    finish_inquiry e replies same same' replied =
        let held : e.memory.infos info ≡ some i =
          ap (λ (m : Memory). m.infos info) same' ∙ h.holds in
        let st : Stores b e.memory e.list r = rw (same, same') h.stores in
        let below : info < e.memory.brk =
          omega (arith, h.below, ap (λ (m : Memory). m.brk) same') in
        rw (free_service_info-done e.memory h.not_nil held) (
          returns (record {
            serves = record {
              stores = freed-Stores signed c can b e.memory e.list r info st h.behind below;
              distinct = h.distinct;
              answers = h.answers;
              healthy = replied.healthy;
            };
            replied = replied;
          }))

    handle_inquiry-Served :
        Returns
          (Served signed c can d.socket r (inquiry_replies (named_prefix svc r)))
          (handle_inquiry signed c info d)
    unfolding handle_inquiry
    handle_inquiry-Served =
        let st =
          Stores-frame b d.memory.brk d.memory d.memory d.list r h.stores
            (omega (arith, h.behind, h.below)) (λ a lt. refl) (λ a lt. refl) in
        then-Returns
          (inquiry_loop-Asked signed c svc info i r (suc d.memory.brk) 0 false d r st
            (h.not_nil, h.holds, h.names.1) refl h.answers (omega (arith, Stores-length st))
            h.healthy)
          λ t asked. after_loop t asked (named_prefix svc r) refl
      where
        after_loop :
            (t : Bool × Daemon)
            → Asked signed c svc info i r d r false t
            → (q : Registry) → named_prefix svc r ≡ q
            → Returns (Served signed c can d.socket r (inquiry_replies q)) (do
              e ←
                  (if t.0 then done t.1 else (do
                    pkt ← get_result_pkt signed c false service_no_found
                    send_pkt pkt t.1))
              memory ← free_service_info info e.memory
              done (record e { memory = memory }))
        after_loop t asked [] e =
            let no : t.0 ≡ false = rw e at asked.got in
            let silent : Replied signed c d.socket [] t.1.socket = rw e at asked.replied in
            let nf = can.failure in
            rw (no, nf.built, send_pkt-done t.1 nf.pkt nf.whole nf.some_bytes silent.healthy)
              (finish_inquiry (after_sending t.1 nf.pkt) (not_found ∷ []) asked.list asked.memory (
                Replied-append signed c d.socket t.1.socket _ [] (not_found ∷ []) silent
                  (Replied-one signed c t.1.socket not_found nf silent.healthy)))
        after_loop t asked (x ∷ q) e =
            let got : t.0 ≡ true = rw e at asked.got in
            rw got (
              finish_inquiry t.1 (map found (x ∷ q)) asked.list asked.memory
                (rw e at asked.replied))

  -- The specification asks for an answer packet of a service that is registered.
  abbrev pub CanServe : Action → ServiceInfo → Type 0
  CanServe register_service i = Built (get_inquiry_result_pkt signed c i)
  CanServe _ i = Unit

  dispatch-Served :
      (type : Action) (b : ℕ) (d : Daemon) (r : Registry) (info : Ptr) (i : ServiceInfo)
      (dev svc : Str)
      → is_request type ≡ true
      → CanServe type i
      → Holds signed c can b d r info i dev svc
      → Returns
          (Served signed c can d.socket (step type dev svc i r).0 (step type dev svc i r).1)
          (dispatch signed c type info d)
  unfolding dispatch step is_request
  dispatch-Served register_service b d r info i dev svc t k h =
      handle_register-Served signed c can b d r info i dev svc h k
  dispatch-Served unregister_service b d r info i dev svc t k h =
      handle_unregister-Served signed c can b d r info i dev svc h
  dispatch-Served inquiry b d r info i dev svc t k h = handle_inquiry-Served b d r info i dev svc h
  dispatch-Served _ b d r info i dev svc t k h = cc

  -- If the two answers without a service can be built, then a request that can be decoded and
  -- parsed, with both names (and, to register, with a service whose answer packet can be built), is
  -- served as the specification says by a daemon that holds the registry `r`: it returns, it holds
  -- the registry of `step`, and the packets sent to the last sender are the replies of `step`.
  pub handle_pkt-step :
      (pkt : Packet) (type : Action) (d : Daemon) (r : Registry) (i : ServiceInfo) (dev svc : Str)
      → decode_action pkt ≡ done type
      → is_request type ≡ true
      → get_service_info c pkt ≡ done (some i)
      → HasNames dev svc i
      → CanServe type i
      → Serves signed c d r
      → Returns
          (Served signed c can d.socket (step type dev svc i r).0 (step type dev svc i r).1)
          (handle_pkt signed c pkt d)
  unfolding handle_pkt handle_info new_info
  handle_pkt-step pkt type d r i dev svc told request parsed names k s =
      let brk = d.memory.brk in
      let m : Memory = put_info brk (some i) (record d.memory { brk = brk + 1 }) in
      let st = s.stores in
      rw (told, request, parsed)
        (dispatch-Served type brk (record d { memory = m }) r brk i dev svc request k
          (record {
            stores =
                Stores-frame brk brk d.memory m d.list r st (omega arith) (λ a lt. refl)
                  λ a lt. update-ne d.memory.infos (some i) (omega arith);
            distinct = s.distinct;
            answers = s.answers;
            healthy = s.healthy;
            behind = omega arith;
            below = omega arith;
            not_nil = omega (arith, Stores-length st);
            holds = update_self d.memory.infos brk (some i);
            names = names;
          }))
