-- ===== src/Register/Heard.antt =====
-- The daemon's answer to a request of register_service or unregister_service, as `check_result` of
-- c/provider/server.c hears it.
use mini_service_discover.Base.{
  ◌≡◌, refl, ap, sym, ◌∙◌, Bool, true, false, ◌||◌, if◌then◌else◌, Option, none, List, [], ◌∷◌,
  ◌++◌, map, All, length, drop, drop-append, arith,
}
use mini_service_discover.Base.Outcome.{done, Returns-done}
use mini_service_discover.CString.{CharPtr, codes}
use mini_service_discover.Protocol.{Action, action_succ, action_fail, Packet, decode_action}
use mini_service_discover.Protocol.Cjson.{Cjson, Laws}
use mini_service_discover.Protocol.Decode.{get_result}
use mini_service_discover.Protocol.RoundTrip.{IsField-of_all, CanSend, IsWhole}
use mini_service_discover.Protocol.Reasons.{reason_tree, get_result_pkt-reported}
use mini_service_discover.Udp.{Addr, Arrival, receive_error, Socket}
use mini_service_discover.Daemon.Spec.{Reply, succeeded, not_found, ArePackets, Replied}
use mini_service_discover.Daemon.Clients.{received-IsWhole}
use mini_service_discover.Client.Exchange.{delivered, packets_from, delivered-packets}
use mini_service_discover.Register.Verdict.{Verdict, arrival, is_success, any_success, IsVerdict}

-- The packets as `check_result` takes them, with a success among them or not.
pub record HeardVerdict (c : Cjson) (from : Addr) (any : Bool) (packets : List Packet)
    : Type 0 where
  pub verdicts : List Verdict
  pub holds : All (IsVerdict c) verdicts
  pub arrive : map arrival verdicts ≡ packets_from from packets
  pub success : any_success verdicts ≡ any

module _ (c : Cjson) (from : Addr) where
  one_verdict :
      (p : Packet) (type : Action) (reason : Option CharPtr)
      → IsWhole p
      → decode_action p ≡ done type
      → get_result c p ≡ done reason
      → HeardVerdict c from (is_success type || false) (p ∷ [])
  unfolding any_success
  one_verdict p type reason whole told result =
      let e = received-IsWhole p whole in
      record {
        verdicts = record { from = from; bytes = p.bytes; type = type } ∷ [];
        holds = (
          record {
            large = omega (arith, whole.size);
            told = rw e told;
            reason = reason;
            result = rw e result;
          },
          tt,
        );
        arrive = refl;
        success = refl;
      }

  module _ (signed : Bool) (laws : Laws c) (can_yes : CanSend signed c (reason_tree c (codes "")))
      (can_no : CanSend signed c (reason_tree c (codes "service no found"))) where
    -- Of an answer that is a success, or a failure.
    pub hear_verdict :
        (b : Bool) (packets : List Packet)
        → ArePackets signed c ((if b then succeeded else not_found) ∷ []) packets
        → HeardVerdict c from b packets
    unfolding is_success
    hear_verdict true (p ∷ []) (built, nil) =
        let (whole, told, result) =
          Returns-done
            (get_result_pkt-reported signed c laws true (codes "")
              (IsField-of_all (codes "") refl (omega arith)) can_yes)
            built in
        one_verdict p action_succ none whole told result
    hear_verdict false (p ∷ []) (built, nil) =
        let (whole, told, result) =
          Returns-done
            (get_result_pkt-reported signed c laws false (codes "service no found")
              (IsField-of_all (codes "service no found") refl (omega arith)) can_no)
            built in
        one_verdict p action_fail _ whole told result
    hear_verdict true [] are = absurd are
    hear_verdict false [] are = absurd are
    hear_verdict true (p ∷ q ∷ packets) are = absurd are.1
    hear_verdict false (p ∷ q ∷ packets) are = absurd are.1

-- What the daemon has sent since `s` arrives so, and then a read times out.
pub delivered-verdicts :
    (signed : Bool) (c : Cjson) (from : Addr) (any : Bool) (s t : Socket) (replies : List Reply)
    (replied : Replied signed c s replies t) (h : HeardVerdict c from any replied.packets)
    → delivered from (drop (length s.sent) t.sent) ≡ map arrival h.verdicts ++ receive_error ∷ []
delivered-verdicts signed c from any s t replies replied h =
    ap (λ l. delivered from (drop (length s.sent) l)) replied.log
    ∙ ap (delivered from) (drop-append s.sent _)
    ∙ delivered-packets from s.addrfrom replied.packets
    ∙ ap (λ (l : List Arrival). l ++ receive_error ∷ []) (sym h.arrive)
