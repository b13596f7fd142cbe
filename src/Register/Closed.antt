-- ===== src/Register/Closed.antt =====
-- register_service of c/provider/server.c where set_socket_timeout (c/provider/comm/udp.c) fails: it has
-- closed the socket, which is used all the same.
use mini_service_discover.Base.{
  ℕ, ◌+◌, ◌-◌, ◌^◌, ◌≤◌, ◌<◌, ◌≡◌, refl, ap, sym, ◌∙◌, ◌⊎◌, Bool, true, false, Option, none, some,
  List, [], length, arith,
}
use mini_service_discover.Base.Outcome.{Outcome, Returns, returns, then-Returns, weaken-Returns}
use mini_service_discover.CString.{Str}
use mini_service_discover.ServiceList.{failure}
use mini_service_discover.Protocol.{Packet}
use mini_service_discover.Protocol.Cjson.{Cjson, Laws}
use mini_service_discover.Protocol.Build.{service_tree, get_register_pkt}
use mini_service_discover.Protocol.RoundTrip.{IsField, IsWhole, CanSend}
use mini_service_discover.Protocol.Packets.{get_register_pkt-Carries}
use mini_service_discover.Udp.{Addr, Socket}
use mini_service_discover.Resources.{
  Resources, open_socket, close_socket, new_client_object, new_pkt, free_pkt, without_socket_first,
}
use mini_service_discover.Subnet.{UdpClient}
use mini_service_discover.Subnet.Local.{Interface}
use mini_service_discover.Subnet.Open.{Machine, is_failure, closed}
use mini_service_discover.Subnet.Opened.{then-Opened, HasSocket, open_client-closed}
use mini_service_discover.Subnet.Closed.{udp_broadcast_data-IsSilent}
use mini_service_discover.Client.Call.{Call, returned, with_pkt, free_sent_pkt}
use mini_service_discover.Register.{Registrar}
use mini_service_discover.Register.Verdict.{any_success, Decided, check_verdict-Decided}
use mini_service_discover.Register.Call.{
  write_and_get_verdict, end_request, request, register_service, result_of,
}

-- The call returned -1 and sent nothing; one client object is left.
pub record Refused (m : Machine) (rs : Resources) (call : Call Registrar) : Type 0 where
  pub state : Registrar
  pub same : call ≡ returned (some state) (record rs { clients = rs.clients + 1 })
  pub ret : result_of (some state) ≡ failure
  pub sent : state.socket.sent ≡ m.socket.sent

module _ (c : Cjson) (inet_addr : Str → Addr) (m : Machine) (n : ℕ) (ifs : List Interface)
    (rs : Resources) (has : HasSocket m n ifs)
    (cut : (is_failure m.send_limit ≡ true)
      ⊎ ((is_failure m.send_limit ≡ false) × (is_failure m.receive_limit ≡ true)))
    (in_time : m.sender_ends_first ≡ true) where
  abbrev held : Resources
  held = close_socket n (open_socket n (new_client_object rs))

  held_after : free_pkt (new_pkt held) ≡ record rs { clients = rs.clients + 1 }
  unfolding free_pkt
  held_after =
      let packets : rs.packets + 1 - 1 ≡ rs.packets = omega arith in
      rw (packets, without_socket_first n rs.sockets) refl

  shown :
      (e : Socket) (o : Option Registrar)
      → e.sent ≡ m.socket.sent
      → Decided c [] [] (record { ret = failure; socket = e; read_end = false }) o
      → Returns (Refused m rs) (end_request m (new_pkt held) o)
  unfolding end_request free_sent_pkt result_of any_success
  shown e none silent ended = absurd ended
  shown e (some t) silent ended = simp in_time (
      returns (record {
        state = t;
        same = ap (returned (some t)) held_after;
        ret = ended.ret;
        sent = ended.sent ∙ silent;
      }))

  -- What `check_result` comes to on the closed socket.
  record OnClosed (o : Option Registrar) : Type 0 where
    socket : Socket
    silent : socket.sent ≡ m.socket.sent
    ended : Decided c [] [] (record { ret = failure; socket = socket; read_end = false }) o

  verdict_by :
      (client : UdpClient) (pkt : Packet)
      → client.socket ≡ closed m.socket
      → length client.ip ≤ 15
      → IsWhole pkt
      → Returns OnClosed (write_and_get_verdict c inet_addr false m (with_pkt pkt client))
  unfolding write_and_get_verdict
  verdict_by client pkt same short whole =
      then-Returns
        (udp_broadcast_data-IsSilent inet_addr m.read_end (with_pkt pkt client) (record {
          short = omega (arith, short);
          whole = whole.len ∙ sym whole.size;
          refused = ap (λ (s : Socket). s.send_results) same;
        }))
        λ e silent.
          weaken-Returns
            (check_verdict-Decided c [] [] e.socket tt
              (silent.arrivals ∙ ap (λ (s : Socket). s.arrivals) same))
            λ o ended. record {
              socket = e.socket;
              silent = silent.sent ∙ ap (λ (s : Socket). s.sent) same;
              ended = ended;
            }

  request-Refused :
      (build : Outcome Packet) (client : UdpClient)
      → Returns IsWhole build
      → length client.ip ≤ 15
      → client.socket ≡ closed m.socket
      → Returns (Refused m rs) (request c inet_addr build m held (some client))
  unfolding request
  request-Refused build client built short same = then-Returns built λ pkt whole.
      then-Returns (verdict_by client pkt same short whole) λ o p. shown p.socket o p.silent p.ended

  -- With the laws of cJSON, `register_service` of strings below 100 bytes and a port below 2 ^ 16,
  -- with a text that fits and has one checksum for both sides, where a time limit of the socket
  -- cannot be set (a socket and interfaces with addresses given, and a sending thread that ends
  -- before the packet is freed), goes on with the closed socket: it returns -1 and sends nothing,
  -- the socket is closed and the client object is not freed.
  pub register_service-Refused :
      (signed : Bool) (laws : Laws c) (d s i x : Str) (port : ℕ)
      → IsField d × IsField s × IsField i × IsField x
      → port < 2 ^ 16
      → CanSend signed c (service_tree c d s i x port)
      → Returns
          (Refused m rs)
          (register_service c inet_addr signed (some d) (some s) (some i) port (some x) m rs)
  unfolding register_service
  register_service-Refused signed laws d s i x port fields small can =
      let build = get_register_pkt signed c (some d) (some s) (some i) port (some x) in
      let built : Returns IsWhole build =
        weaken-Returns (get_register_pkt-Carries signed c laws d s i x port fields small can)
          λ pkt told. told.0 in
      then-Opened (λ r. request c inet_addr build m r.1 r.0)
        (open_client-closed inet_addr m n ifs rs has cut)
        λ client shared short same. request-Refused build client built short same
