-- ===== src/Register/Broadcast.antt =====
-- write_and_get_result of c/provider/server.c with broadcast.
use mini_service_discover.Base.{
  ◌≡◌, refl, ap, sym, ◌∙◌, true, false, Option, none, some, List, [], ◌∷◌, ◌++◌, map, All, length,
  arith,
}
use mini_service_discover.Base.Outcome.{Outcome, done, undefined, Returns-value}
use mini_service_discover.CString.{Str}
use mini_service_discover.ServiceList.{failure}
use mini_service_discover.Protocol.Cjson.{Cjson}
use mini_service_discover.Protocol.RoundTrip.{IsWhole}
use mini_service_discover.Udp.{Addr, count, Arrival, receive_error, Socket, udp_client_write}
use mini_service_discover.Udp.Send.{IsHealthy, with_sent, udp_client_write-healthy}
use mini_service_discover.Subnet.{UdpClient}
use mini_service_discover.Subnet.Open.{Machine}
use mini_service_discover.Register.{Registrar}
use mini_service_discover.Register.Verdict.{
  Verdict, arrival, IsVerdict, Decided, check_verdict-Decided,
}
use mini_service_discover.Register.Call.{write_and_get_verdict}

-- With broadcast, on a healthy socket and with a whole packet, where datagrams arrive that each
-- hold a packet whose reason can be read, and then a read fails or times out,
-- `write_and_get_result` of the registering side calls `pthread_join` for a thread that was never
-- created.
pub write_and_get_verdict-broadcast :
    (c : Cjson) (inet_addr : Str → Addr) (m : Machine) (client : UdpClient) (vs : List Verdict)
    (rest : List Arrival)
    → IsWhole (record { bytes = client.bytes; len = client.len })
    → IsHealthy client.socket
    → All (IsVerdict c) vs
    → client.socket.arrivals ≡ map arrival vs ++ receive_error ∷ rest
    → write_and_get_verdict c inet_addr true m client ≡ undefined
unfolding write_and_get_verdict
write_and_get_verdict-broadcast c inet_addr m client vs rest whole healthy holds arrive =
    let s : Socket = with_sent client.socket ((client.addrto, client.bytes) ∷ []) in
    let written : udp_client_write client.addrto client.socket client.bytes client.len
        ≡ done (count (length client.bytes), s) =
      ap (udp_client_write client.addrto client.socket client.bytes) (whole.len ∙ sym whole.size)
      ∙ udp_client_write-healthy client.addrto client.socket client.bytes healthy
          (omega (arith, whole.size)) in
    let (o, e, ended) = Returns-value (check_verdict-Decided c vs rest s holds arrive) in
    rw (written, e) (joined o ended)
  where
    joined :
        (o : Option Registrar)
        → Decided c vs rest
            (record {
              ret = failure;
              socket = with_sent client.socket ((client.addrto, client.bytes) ∷ []);
              read_end = false;
            })
            o
        → ◌≡◌ {A = Outcome (Option Registrar)}
            (elim o [ none ↦ done none | some t ↦ undefined ])
            undefined
    joined none ended = absurd ended
    joined (some t) ended = refl
