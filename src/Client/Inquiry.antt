-- ===== src/Client/Inquiry.antt =====
-- An inquiry from one end to the other: the packet of c/provider/client.c, the answers of
-- c/provider/daemon.c to it, and the list that `check_result` makes of them.
use mini_service_discover.Base.{
  ℕ, ◌^◌, ◌<◌, ◌≡◌, refl, ap, ◌∙◌, sym, subst, Bool, false, Option, none, some, List, [], ◌∷◌, ◌++◌,
  map, drop, drop-append, append-nil, append_assoc, length, All, arith,
}
use mini_service_discover.Base.Outcome.{done, Returns, then-Returns, weaken-Returns, Returns-done}
use mini_service_discover.CString.{Str, codes}
use mini_service_discover.CString.Laws.{IsCString-of_all}
use mini_service_discover.Memory.{ServiceInfo}
use mini_service_discover.ServiceList.Registry.{Registry, IsDistinct}
use mini_service_discover.ServiceList.Registry.Laws.{HasNames, is_named_self}
use mini_service_discover.ServiceList.Registry.Distinct.{register-absent, not-contains-before}
use mini_service_discover.ServiceList.Stores.{Stores}
use mini_service_discover.Protocol.{inquiry, action_succ, Packet}
use mini_service_discover.Protocol.Cjson.{Cjson, Laws}
use mini_service_discover.Protocol.Build.{service_tree, get_inquiry_pkt, get_inquiry_result_pkt}
use mini_service_discover.Protocol.RoundTrip.{IsField, CanSend, Carries, service}
use mini_service_discover.Protocol.Packets.{get_inquiry_pkt-Carries, get_inquiry_result_pkt-Carries}
use mini_service_discover.Protocol.Reasons.{reason_tree, get_result_pkt-reported}
use mini_service_discover.Udp.{Addr, Arrival, datagram, receive_error}
use mini_service_discover.Daemon.{Daemon, is_request, handle_pkt}
use mini_service_discover.Daemon.Spec.{
  found, named_prefix, inquiry_replies, step, Serves, ArePackets,
}
use mini_service_discover.Daemon.Refines.{handle_pkt-step}
use mini_service_discover.Daemon.Clients.{received-IsWhole, CanAnswer-of_CanSend}
use mini_service_discover.Client.{Client}
use mini_service_discover.Client.Answers.{
  Answer, service_found, failed, arrival, collect, Holds, Ended, check_result-Ended,
}
use mini_service_discover.Client.Exchange.{
  named_prefix-All, named_prefix-IsDistinct, delivered, packets_from, delivered-packets, exchange,
  Lists,
}

module _ (signed : Bool) (c : Cjson) (laws : Laws c) where
  -- A service that an answer can carry.
  pub record IsSendable (i : ServiceInfo) : Type 0 where
    pub device : Str
    pub name : Str
    pub ip : Str
    pub info : Str
    pub port : ℕ
    pub same : i ≡ service device name ip info port
    pub fields : IsField device × IsField name × IsField ip × IsField info
    pub small : port < 2 ^ 16
    pub can : CanSend signed c (service_tree c device name ip info port)

  sendable-Carries :
      (i : ServiceInfo) (s : IsSendable i) (p : Packet)
      → get_inquiry_result_pkt signed c i ≡ done p
      → Carries c action_succ i p
  sendable-Carries i s p built =
      subst (λ (j : ServiceInfo). Carries c action_succ j p) (sym s.same)
        (Returns-done
          (get_inquiry_result_pkt-Carries signed c laws s.device s.name s.ip s.info s.port s.fields
            s.small s.can)
          (ap (get_inquiry_result_pkt signed c) (sym s.same) ∙ built))

  -- The packets that answer with `q`, as the client takes them.
  record Heard (from : Addr) (q : Registry) (before : Registry) (packets : List Packet)
      : Type 0 where
    answers : List Answer
    holds : All (Holds c) answers
    arrive : map arrival answers ≡ packets_from from packets
    collected : collect answers before ≡ before ++ q

  Heard-services :
      (from : Addr) (q before : Registry) (packets : List Packet)
      → All IsSendable q
      → IsDistinct (before ++ q)
      → ArePackets signed c (map found q) packets
      → Heard from q before packets
  unfolding collect
  Heard-services from [] before [] ss distinct are = record {
    answers = [];
    holds = tt;
    arrive = refl;
    collected = sym (append-nil before);
  }
  Heard-services from [] before (p ∷ packets) ss distinct are = absurd are
  Heard-services from (i ∷ q) before [] ss distinct are = absurd are
  Heard-services from (i ∷ q) before (p ∷ packets) (s, ss) distinct (built, are) =
      let names : HasNames s.device s.name i = (
        ap (λ (j : ServiceInfo). j.device_name) s.same,
        ap (λ (j : ServiceInfo). j.service_name) s.same,
      ) in
      let absent =
        not-contains-before s.device s.name i before q distinct
          (is_named_self s.device s.name i names) in
      let (whole, told, parsed) = sendable-Carries i s p built in
      let e = received-IsWhole p whole in
      let later =
        Heard-services from q (before ++ i ∷ []) packets ss
          (subst (λ (r : Registry). IsDistinct r) (sym (append_assoc before (i ∷ []) q)) distinct)
          are in
      record {
        answers = service_found from p.bytes i s.device s.name ∷ later.answers;
        holds = ((omega (arith, whole.size), rw e told, rw e parsed, names), later.holds);
        arrive = ap (λ (l : List Arrival). datagram from p.bytes ∷ l) later.arrive;
        collected =
            ap (collect later.answers) (register-absent s.device s.name i before absent)
            ∙ later.collected
            ∙ append_assoc before (i ∷ []) q;
      }

  module _ (can_yes : CanSend signed c (reason_tree c (codes "")))
      (can_no : CanSend signed c (reason_tree c (codes "service no found"))) where
    hear_packets :
        (from : Addr) (q : Registry) (packets : List Packet)
        → All IsSendable q
        → IsDistinct q
        → ArePackets signed c (inquiry_replies q) packets
        → Heard from q [] packets
    hear_packets from (i ∷ q) packets ss distinct are =
        Heard-services from (i ∷ q) [] packets ss distinct are
    hear_packets from [] [] ss distinct are = absurd are
    hear_packets from [] (p ∷ p' ∷ packets) ss distinct are = absurd are.1
    hear_packets from [] (p ∷ []) ss distinct (built, nil) =
        let (whole, told, result) =
          Returns-done
            (get_result_pkt-reported signed c laws false (codes "service no found")
              (record {
                c_string = IsCString-of_all (codes "service no found") refl;
                short = omega arith;
              })
              can_no)
            built in
        let e = received-IsWhole p whole in
        record {
          answers = failed from p.bytes ∷ [];
          holds = (
            (
              omega (arith, whole.size),
              rw e told,
              some (some (codes "service no found")),
              rw e result,
            ),
            tt,
          );
          arrive = refl;
          collected = unfold collect in refl;
        }

    listed :
        (answers : List Answer) (cl : Client) (q : Registry)
        → collect answers [] ≡ q
        → (o : Option Client) → Ended c answers [] cl [] o
        → Lists q o
    listed answers cl q same none ended = absurd ended
    listed answers cl q same (some e) ended =
        subst (λ (q : Registry). Stores e.memory.brk e.memory e.list q) same ended.stores

    -- What the client hears of the daemon `e`, which was `d` before the inquiry.
    pub record Answered (n : Str) (from : Addr) (r : Registry) (d e : Daemon) : Type 0 where
      pub answers : List Answer
      pub holds : All (Holds c) answers
      pub arrive :
          delivered from (drop (length d.socket.sent) e.socket.sent)
          ≡ map arrival answers ++ receive_error ∷ []
      pub collected : collect answers [] ≡ named_prefix n r

    pub handle_pkt-Answered :
        (n : Str) (from : Addr) (pkt : Packet) (d : Daemon) (r : Registry)
        → IsField n
        → CanSend signed c (service_tree c (codes "") n (codes "") (codes "") 0)
        → get_inquiry_pkt signed c (some n) ≡ done pkt
        → Serves signed c d r
        → All IsSendable r
        → Returns (Answered n from r d) (handle_pkt signed c pkt d)
    unfolding is_request step
    handle_pkt-Answered n from pkt d r field can_ask built serves ss =
        let can = CanAnswer-of_CanSend signed c laws can_yes can_no in
        let (whole, told, parsed) =
          Returns-done (get_inquiry_pkt-Carries signed c laws n field can_ask) built in
        weaken-Returns
          (handle_pkt-step signed c can pkt inquiry d r
            (service (codes "") n (codes "") (codes "") 0) (codes "") n told refl parsed
            (refl, refl) tt serves)
          λ e served.
            let replied = served.replied in
            let h =
              hear_packets from (named_prefix n r) replied.packets
                (named_prefix-All (λ i. IsSendable i) n r ss)
                (named_prefix-IsDistinct n r serves.distinct) replied.are in
            let new : drop (length d.socket.sent) e.socket.sent
                ≡ map (λ (p : Packet). (d.socket.addrfrom, p.bytes)) replied.packets =
              ap (drop (length d.socket.sent)) replied.log ∙ drop-append d.socket.sent _ in
            record {
              answers = h.answers;
              holds = h.holds;
              arrive =
                  ap (delivered from) new
                  ∙ delivered-packets from d.socket.addrfrom replied.packets
                  ∙ ap (λ (l : List Arrival). l ++ receive_error ∷ []) (sym h.arrive);
              collected = h.collected;
            }

    -- With the laws of cJSON, a daemon that holds the registry `r`, of services that answers can
    -- carry, gets the packet that `get_inquiry_pkt` builds for a name (below 100 bytes, text that
    -- fits and has one checksum for both sides, as the texts of the two answers without a service):
    -- if what it sends is delivered to the client in order, and then a read of the client times
    -- out, `check_result` returns a list that stands for the services of the name in `r`, up to the
    -- first service with another name.
    pub exchange-inquiry :
        (n : Str) (from : Addr) (pkt : Packet) (d : Daemon) (r : Registry)
        → IsField n
        → CanSend signed c (service_tree c (codes "") n (codes "") (codes "") 0)
        → get_inquiry_pkt signed c (some n) ≡ done pkt
        → Serves signed c d r
        → All IsSendable r
        → Returns (Lists (named_prefix n r)) (exchange signed c from pkt d)
    unfolding exchange
    exchange-inquiry n from pkt d r field can_ask built serves ss =
        then-Returns (handle_pkt-Answered n from pkt d r field can_ask built serves ss) λ e h.
          weaken-Returns (check_result-Ended c h.answers [] _ h.holds h.arrive)
            λ o ended. listed h.answers _ (named_prefix n r) h.collected o ended
