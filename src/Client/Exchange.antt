-- ===== src/Client/Exchange.antt =====
-- An inquiry from the client (check_result of c/provider/client.c) to the daemon and back, as a
-- function.
use mini_service_discover.Base.{
  ◌≡◌, refl, ap, Bool, false, inl, inr, Option, none, some, List, [], ◌∷◌, ◌++◌, map, drop, length,
  All, arith, Bool-cases,
}
use mini_service_discover.Base.Outcome.{Outcome, ◌>>=◌}
use mini_service_discover.CString.{Str}
use mini_service_discover.Memory.{ServiceInfo}
use mini_service_discover.ServiceList.Registry.{Registry, text_eq, IsDistinct, contains}
use mini_service_discover.ServiceList.Stores.{Stores}
use mini_service_discover.Protocol.{Packet}
use mini_service_discover.Protocol.Cjson.{Cjson}
use mini_service_discover.Udp.{Addr, Datagram, Arrival, datagram, receive_error}
use mini_service_discover.Daemon.{Daemon, handle_pkt}
use mini_service_discover.Daemon.Spec.{named_prefix}
use mini_service_discover.Client.{Client, check_result}

pub named_prefix-All {κ} :
    (P : ServiceInfo → Type κ) (svc : Str) (r : Registry) → All P r → All P (named_prefix svc r)
unfolding named_prefix
named_prefix-All P svc [] h = tt
named_prefix-All P svc (i ∷ r) h = elim (Bool-cases (text_eq i.service_name svc)) [
  | inl hit ↦ rw hit (h.0, named_prefix-All P svc r h.1)
  | inr miss ↦ rw miss tt
]

pub contains-named_prefix :
    (dev svc name : Str) (r : Registry)
    → contains dev svc r ≡ false
    → contains dev svc (named_prefix name r) ≡ false
unfolding contains named_prefix
contains-named_prefix dev svc name [] h = refl
contains-named_prefix dev svc name (i ∷ r) h = ground (arith, contains-named_prefix dev svc name r)

pub named_prefix-IsDistinct :
    (svc : Str) (r : Registry) → IsDistinct r → IsDistinct (named_prefix svc r)
unfolding named_prefix
named_prefix-IsDistinct svc [] h = tt
named_prefix-IsDistinct svc (i ∷ r) (new, distinct) =
    elim (Bool-cases (text_eq i.service_name svc)) [
      | inl hit ↦ rw hit (
        λ dev name is. contains-named_prefix dev name svc r (new dev name is),
        named_prefix-IsDistinct svc r distinct,
      )
      | inr miss ↦ rw miss tt
    ]

-- What the daemon sent is delivered in order, and then the client's read times out.
abbrev pub delivered : Addr → List Datagram → List Arrival
delivered from [] = receive_error ∷ []
delivered from (p ∷ sent) = datagram from p.1 ∷ delivered from sent

abbrev pub packets_from : Addr → List Packet → List Arrival
packets_from from [] = []
packets_from from (p ∷ packets) = datagram from p.bytes ∷ packets_from from packets

pub delivered-packets :
    (from to : Addr) (packets : List Packet)
    → delivered from (map (λ (p : Packet). (to, p.bytes)) packets)
      ≡ packets_from from packets ++ receive_error ∷ []
delivered-packets from to [] = refl
delivered-packets from to (p ∷ packets) =
    ap (λ (l : List Arrival). datagram from p.bytes ∷ l) (delivered-packets from to packets)

-- The daemon at address `from` handles a packet, and its sender then collects the answers.
unfoldable pub exchange : Bool → Cjson → Addr → Packet → Daemon → Outcome (Option Client)
exchange signed c from pkt d = do
  e ← handle_pkt signed c pkt d
  check_result c (record {
    addrfrom = 0;
    arrivals = delivered from (drop (length d.socket.sent) e.socket.sent);
    send_results = [];
    sent = [];
  })

-- The client ended up with a list that stands for `q`.
abbrev pub Lists : Registry → Option Client → Type 0
Lists q none = ⊥
Lists q (some e) = Stores e.memory.brk e.memory e.list q
