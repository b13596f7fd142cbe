-- ===== src/Daemon/Clients.antt =====
-- Clients and the daemon together: the packets that c/provider/comm/protocal.c builds for a client,
-- served by c/provider/daemon.c.
use mini_service_discover.Base.{
  ℕ, ◌^◌, ◌<◌, ◌≡◌, refl, ap, ◌∙◌, sym, subst, Bool, true, false, Option, some, List, [], ◌∷◌, ◌++◌,
  arith, take_all,
}
use mini_service_discover.Base.Outcome.{
  Outcome, done, Returns, weaken-Returns, Returns-value, Returns-done,
}
use mini_service_discover.CString.{Str, codes}
use mini_service_discover.CString.Laws.{str_eq_refl, IsCString-of_all}
use mini_service_discover.Memory.{ServiceInfo}
use mini_service_discover.ServiceList.Registry.{erase, register}
use mini_service_discover.ServiceList.Registry.Laws.{HasNames}
use mini_service_discover.Protocol.{
  Action, register_service, inquiry, action_succ, Packet, decode_action,
}
use mini_service_discover.Protocol.Cjson.{Cjson, Laws}
use mini_service_discover.Protocol.Build.{service_tree, get_register_pkt, get_inquiry_pkt}
use mini_service_discover.Protocol.RoundTrip.{IsField, IsWhole, CanSend, Carries, service}
use mini_service_discover.Protocol.Packets.{
  get_register_pkt-Carries, get_inquiry_result_pkt-Carries, get_inquiry_pkt-Carries,
}
use mini_service_discover.Protocol.Reasons.{reason_tree, get_result_pkt-reported}
use mini_service_discover.Udp.{Addr, Datagram, datagram, Socket}
use mini_service_discover.Udp.Send.{IsHealthy}
use mini_service_discover.Daemon.{Daemon, is_request, Ending, waiting, stopped, daemon_loop}
use mini_service_discover.Daemon.Spec.{succeeded, found, step, named_prefix, Built}
use mini_service_discover.Daemon.Handlers.{CanAnswer}
use mini_service_discover.Daemon.Refines.{CanServe}
use mini_service_discover.Daemon.Messages.{
  Message, request, received, run_replies, AreDatagrams, Waits,
}
use mini_service_discover.Daemon.Run.{daemon_loop-Waits}
use mini_service_discover.Daemon.Understood.{Understood}

-- A whole packet that was built.
pub Built-of_IsWhole :
    (m : Outcome Packet) (P : Packet → Type 0)
    → ((pkt : Packet) → P pkt → IsWhole pkt)
    → Returns P m
    → Built m
Built-of_IsWhole m P whole r =
    let (pkt, e, p) = Returns-value r in
    let w = whole pkt p in
    record { pkt = pkt; built = e; whole = w.len ∙ sym w.size; some_bytes = omega (arith, w.size) }

-- The receive buffer of the daemon holds such a packet as it was built.
pub received-IsWhole : (pkt : Packet) → IsWhole pkt → received pkt.bytes ≡ pkt
received-IsWhole pkt w =
    ap (λ (bytes : List ℕ). record { bytes = bytes; len = 1024 })
      (take_all 1024 pkt.bytes (omega (arith, w.size)))
    ∙ ap (λ (len : ℕ). record { bytes = pkt.bytes; len = len }) (sym w.len)

module _ (signed : Bool) (c : Cjson) (laws : Laws c) where
  -- The texts of the two answers without a service fit.
  pub CanAnswer-of_CanSend :
      CanSend signed c (reason_tree c (codes ""))
      → CanSend signed c (reason_tree c (codes "service no found"))
      → CanAnswer signed c
  CanAnswer-of_CanSend can_yes can_no = record {
    success =
        Built-of_IsWhole _ _ (λ pkt p. p.0)
          (get_result_pkt-reported signed c laws true (codes "")
            (record { c_string = tt; short = omega arith }) can_yes);
    failure =
        Built-of_IsWhole _ _ (λ pkt p. p.0)
          (get_result_pkt-reported signed c laws false (codes "service no found")
            (record {
              c_string = IsCString-of_all (codes "service no found") refl;
              short = omega arith;
            })
            can_no);
  }

  -- What a client sends is understood.
  pub Understood-of_Carries :
      (can : CanAnswer signed c) (from : Addr) (type : Action) (dev svc : Str) (i : ServiceInfo)
      (pkt : Packet)
      → Carries c type i pkt
      → is_request type ≡ true
      → HasNames dev svc i
      → CanServe signed c can type i
      → Understood signed c can (request from pkt.bytes type i dev svc)
  Understood-of_Carries can from type dev svc i pkt (whole, told, parsed) is names serve =
      let e = received-IsWhole pkt whole in
      (omega (arith, whole.size), rw e told, is, rw e parsed, names, serve)

  -- Two clients: one registers a service, the other asks for its name.
  module _ (d n i x : Str) (port : ℕ) where
    abbrev svc : ServiceInfo
    svc = service d n i x port

    abbrev asked : ServiceInfo
    asked = service (codes "") n (codes "") (codes "") 0

    abbrev two_messages : Addr → Addr → Packet → Packet → List Message
    two_messages a b p q =
        request a p.bytes register_service svc d n
        ∷ request b q.bytes inquiry asked (codes "") n
        ∷ []

    two_replies :
        (a b : Addr) (p q : Packet)
        → run_replies (two_messages a b p q) [] ≡ (a, succeeded) ∷ (b, found svc) ∷ []
    unfolding run_replies step register erase named_prefix
    two_replies a b p q = rw (str_eq_refl n)

    -- The first client is told that its service is registered, the other is sent the service.
    pub record BothServed (a b : Addr) (o : Option Ending) : Type 0 where
      pub daemon : Daemon
      pub waits : o ≡ some (waiting daemon)
      pub answer : Packet
      pub result : Packet
      pub sent : daemon.socket.sent ≡ (a, answer.bytes) ∷ (b, result.bytes) ∷ []
      pub registered : decode_action answer ≡ done action_succ
      pub found_it : Carries c action_succ svc result

    module _ (fields : IsField d × IsField n × IsField i × IsField x) (small : port < 2 ^ 16)
        (can_yes : CanSend signed c (reason_tree c (codes "")))
        (can_no : CanSend signed c (reason_tree c (codes "service no found")))
        (can_service : CanSend signed c (service_tree c d n i x port))
        (can_ask : CanSend signed c (service_tree c (codes "") n (codes "") (codes "") 0)) where
      both_served :
          (a b : Addr) (s : Socket)
          → s.sent ≡ []
          → (e : Daemon) (log : List Datagram) → e.socket.sent ≡ s.sent ++ log
          → AreDatagrams signed c ((a, succeeded) ∷ (b, found svc) ∷ []) log
          → BothServed a b (some (waiting e))
      both_served a b s none_yet e (y ∷ z ∷ []) sent
            ((to, u, u_built, us), ((to', v, v_built, vs), t)) =
          let result =
            Returns-done
              (get_result_pkt-reported signed c laws true (codes "")
                (record { c_string = tt; short = omega arith }) can_yes)
              u_built in
          let carried =
            Returns-done
              (get_inquiry_result_pkt-Carries signed c laws d n i x port fields small can_service)
              v_built in
          record {
            daemon = e;
            waits = refl;
            answer = u;
            result = v;
            sent =
                sent
                ∙ ap (λ (l : List Datagram). l ++ y ∷ z ∷ []) none_yet
                ∙ rw (← to, ← us, ← to', ← vs) refl;
            registered = result.1;
            found_it = carried;
          }
      both_served a b s none_yet e [] sent are = absurd are
      both_served a b s none_yet e (y ∷ []) sent are = absurd are.1
      both_served a b s none_yet e (y ∷ z ∷ w ∷ log) sent are = absurd are.1.1

      -- A service that one client registers is found by another. Of the packets that
      -- `get_register_pkt` and `get_inquiry_pkt` build for them (strings below 100 bytes, port
      -- below 2 ^ 16, texts that fit and have one checksum for both sides, for each of the packets
      -- and answers), the daemon, on a healthy socket where just these two arrive, answers the
      -- first with success and the second with that service, each to its sender, and then waits.
      pub register-inquiry :
          (a b : Addr) (p q : Packet) (s : Socket)
          → get_register_pkt signed c (some d) (some n) (some i) port (some x) ≡ done p
          → get_inquiry_pkt signed c (some n) ≡ done q
          → IsHealthy s
          → s.sent ≡ []
          → s.arrivals ≡ datagram a p.bytes ∷ datagram b q.bytes ∷ []
          → Returns (BothServed a b) (daemon_loop signed c (some s))
      unfolding is_request
      register-inquiry a b p q s built asks healthy none_yet are =
          let can = CanAnswer-of_CanSend can_yes can_no in
          let told =
            Returns-done
              (get_register_pkt-Carries signed c laws d n i x port fields small can_service)
              built in
          let told' =
            Returns-done (get_inquiry_pkt-Carries signed c laws n fields.1 can_ask) asks in
          let answer =
            Built-of_IsWhole _ _ (λ pkt t. t.0)
              (get_inquiry_result_pkt-Carries signed c laws d n i x port fields small
                can_service) in
          weaken-Returns
            (daemon_loop-Waits signed c can (two_messages a b p q) s
              (
                Understood-of_Carries can a register_service d n svc p told refl (refl, refl)
                    answer,
                (
                  Understood-of_Carries can b inquiry (codes "") n asked q told' refl (refl, refl)
                      tt,
                  tt,
                ),
              )
              healthy are)
            λ o (e, same, ran). finish o e same ran
        where
          finish :
              (o : Option Ending) (e : Ending)
              → o ≡ some e
              → Waits signed c s [] (two_messages a b p q) e
              → BothServed a b o
          finish o (waiting f) same ran =
              subst (λ (o : Option Ending). BothServed a b o) (sym same)
                (both_served a b s none_yet f ran.log ran.sent
                  (subst (λ r. AreDatagrams signed c r ran.log) (two_replies a b p q) ran.are))
          finish o (stopped f) same ran = absurd ran
