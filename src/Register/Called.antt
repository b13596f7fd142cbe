-- ===== src/Register/Called.antt =====
-- What register_service and unregister_service of c/provider/server.c come to, by what the system calls
-- return.
use mini_service_discover.Base.{
  ℕ, ◌+◌, ◌-◌, ◌^◌, ◌≤◌, ◌<◌, ◌≡◌, refl, ap, sym, subst, ◌∙◌, Bool, true, false, Option, none, some,
  List, ◌∷◌, ◌++◌, map, All, length, arith, if◌then◌else◌,
}
use mini_service_discover.Base.Outcome.{
  Returns-itself, done, Outcome, ◌>>=◌, Returns, returns, then-Returns, weaken-Returns,
}
use mini_service_discover.CString.{Str, codes}
use mini_service_discover.Memory.{ServiceInfo}
use mini_service_discover.ServiceList.{success, failure}
use mini_service_discover.Protocol.{Action, Packet}
use mini_service_discover.Protocol.Cjson.{Cjson, Laws}
use mini_service_discover.Protocol.Build.{service_tree, get_register_pkt, get_unregister_pkt}
use mini_service_discover.Protocol.RoundTrip.{IsField, IsWhole, CanSend, Carries, service}
use mini_service_discover.Protocol.Packets.{get_register_pkt-Carries, get_unregister_pkt-Carries}
use mini_service_discover.Udp.{Addr, Arrival, receive_error, Socket}
use mini_service_discover.Udp.Send.{IsHealthy}
use mini_service_discover.Resources.{Resources, open_socket, new_client_object, new_pkt, free_pkt}
use mini_service_discover.Subnet.{UdpClient}
use mini_service_discover.Subnet.Local.{Interface}
use mini_service_discover.Subnet.Prefix.{local_text, IsShared}
use mini_service_discover.Subnet.Hosts.{to_host, from_on, rounds, Sent, udp_broadcast_data-Sent}
use mini_service_discover.Subnet.Open.{Machine, open_client}
use mini_service_discover.Subnet.Opened.{then-Opened, HasSocket, HasLimits, open_client-Opened}
use mini_service_discover.Client.Call.{Call, returned, with_pkt, free_sent_pkt}
use mini_service_discover.Client.Called.{with_pkt-IsReady}
use mini_service_discover.Register.{Registrar}
use mini_service_discover.Register.Verdict.{
  Verdict, arrival, any_success, IsVerdict, Decided, check_verdict-Decided,
}
use mini_service_discover.Register.Call.{
  write_and_get_verdict, end_request, request, register_service, unregister_service, result_of,
}

-- What is left of a call: the socket stays open, and the client object is not freed.
abbrev pub left_open : ℕ → Resources → Resources
left_open n rs = record rs { sockets = n ∷ rs.sockets; clients = rs.clients + 1 }

pkt_freed :
    (n : ℕ) (rs : Resources)
    → free_pkt (new_pkt (open_socket n (new_client_object rs))) ≡ left_open n rs
unfolding free_pkt
pkt_freed n rs = let packets : rs.packets + 1 - 1 ≡ rs.packets = omega arith in rw packets refl

module _ (c : Cjson) (inet_addr : Str → Addr) where
  -- The call has returned 0 if an answer was a success, and else -1; the packet, which carries this
  -- service, went to the hosts of the subnet.
  pub record Requested (build : Outcome Packet) (type : Action) (info : ServiceInfo) (m : Machine)
      (n : ℕ) (ifs : List Interface) (vs : List Verdict) (rs : Resources) (call : Call Registrar)
      : Type 0 where
    pub state : Registrar
    pub ip : Str
    pub pkt : Packet
    pub same : call ≡ returned (some state) (left_open n rs)
    pub ret : result_of (some state) ≡ (if any_success vs then success else failure)
    pub built : build ≡ done pkt
    pub carries : Carries c type info pkt
    pub shared : IsShared (local_text ifs) ip
    pub sent :
        state.socket.sent
        ≡ m.socket.sent
          ++ map (to_host inet_addr ip pkt.bytes) (from_on 1 (rounds m.read_end 0 254))

  module _ (m : Machine) (n : ℕ) (ifs : List Interface) (vs : List Verdict) (rest : List Arrival)
      (rs : Resources) (has : HasSocket m n ifs) (limits : HasLimits m)
      (healthy : IsHealthy m.socket) (in_time : m.sender_ends_first ≡ true)
      (holds : All (IsVerdict c) vs)
      (arrive : m.socket.arrivals ≡ map arrival vs ++ receive_error ∷ rest) where
    record HasVerdict (ip : Str) (pkt : Packet) (o : Option Registrar) : Type 0 where
      state : Registrar
      same : o ≡ some state
      ret : state.ret ≡ (if any_success vs then success else failure)
      sent :
          state.socket.sent
          ≡ m.socket.sent
            ++ map (to_host inet_addr ip pkt.bytes) (from_on 1 (rounds m.read_end 0 254))

    shown :
        (client : UdpClient) (pkt : Packet) (same : client.socket ≡ m.socket) (e : UdpClient)
        → Sent inet_addr (with_pkt pkt client) e (from_on 1 (rounds m.read_end 0 254))
        → (o : Option Registrar)
        → Decided c vs rest (record { ret = failure; socket = e.socket; read_end = false }) o
        → HasVerdict client.ip pkt o
    shown client pkt same e sent none ended = absurd ended
    shown client pkt same e sent (some t) ended = record {
      state = t;
      same = refl;
      ret = ended.ret;
      sent = simp (ended.sent, sent.sent, same);
    }

    verdict_by :
        (client : UdpClient) (pkt : Packet)
        → client.socket ≡ m.socket
        → length client.ip ≤ 15
        → IsWhole pkt
        → Returns
            (HasVerdict client.ip pkt)
            (write_and_get_verdict c inet_addr false m (with_pkt pkt client))
    unfolding write_and_get_verdict
    verdict_by client pkt same short whole =
        then-Returns
          (udp_broadcast_data-Sent inet_addr m.read_end (with_pkt pkt client) (
            with_pkt-IsReady inet_addr client pkt short whole
              (ap (λ (s : Socket). s.send_results) same ∙ healthy)))
          λ e sent.
            weaken-Returns
              (check_verdict-Decided c vs rest e.socket holds
                (sent.arrivals ∙ ap (λ (s : Socket). s.arrivals) same ∙ arrive))
              λ o ended. shown client pkt same e sent o ended

    -- Either function, once the client is open.
    request-Requested :
        (build : Outcome Packet) (type : Action) (info : ServiceInfo) (client : UdpClient)
        → Returns (Carries c type info) build
        → IsShared (local_text ifs) client.ip
        → length client.ip ≤ 15
        → client.socket ≡ m.socket
        → Returns
            (Requested build type info m n ifs vs rs)
            (request c inet_addr build m (open_socket n (new_client_object rs)) (some client))
    unfolding request end_request free_sent_pkt result_of
    request-Requested build type info client built shared short same =
        then-Returns (Returns-itself built) λ pkt (same_pkt, told).
          then-Returns (verdict_by client pkt same short told.0) λ o found.
            subst
              (λ (o : Option Registrar).
                Returns (Requested build type info m n ifs vs rs)
                  (end_request m (new_pkt (open_socket n (new_client_object rs))) o))
              (sym found.same)
              (simp in_time (
                returns (record {
                  state = found.state;
                  ip = client.ip;
                  pkt = pkt;
                  same = ap (returned (some found.state)) (pkt_freed n rs);
                  ret = found.ret;
                  built = same_pkt;
                  carries = told;
                  shared = shared;
                  sent = found.sent;
                })))

    opened-Requested :
        (build : Outcome Packet) (type : Action) (info : ServiceInfo)
        → Returns (Carries c type info) build
        → Returns
            (Requested build type info m n ifs vs rs)
            (open_client inet_addr false m rs >>= λ r. request c inet_addr build m r.1 r.0)
    opened-Requested build type info built =
        then-Opened (λ r. request c inet_addr build m r.1 r.0)
          (open_client-Opened inet_addr m n ifs rs has limits)
          λ client shared short same.
            request-Requested build type info client built shared short same

    -- With the laws of cJSON, `register_service` of strings below 100 bytes and a port below 2 ^
    -- 16, with a text that fits and has one checksum for both sides, on a machine that has a
    -- socket, interfaces with addresses, a healthy network and a sending thread that ends before
    -- the packet is freed, where datagrams arrive that each hold a packet whose reason can be read,
    -- and then a read fails or times out, returns 0 if one of them is a success, and else -1; a
    -- registration of that service went to the hosts 1, 2, ... of the subnet of the local address,
    -- each once, up to 254 or the round in which `read_end` is seen; and the socket stays open and
    -- the client object is not freed.
    pub register_service-Requested :
        (signed : Bool) (laws : Laws c) (d s i x : Str) (port : ℕ)
        → IsField d × IsField s × IsField i × IsField x
        → port < 2 ^ 16
        → CanSend signed c (service_tree c d s i x port)
        → Returns
            (Requested
              (get_register_pkt signed c (some d) (some s) (some i) port (some x))
              Action.register_service
              (service d s i x port)
              m
              n
              ifs
              vs
              rs)
            (register_service c inet_addr signed (some d) (some s) (some i) port (some x) m rs)
    unfolding register_service
    register_service-Requested signed laws d s i x port fields small can =
        opened-Requested (get_register_pkt signed c (some d) (some s) (some i) port (some x))
          Action.register_service (service d s i x port)
          (get_register_pkt-Carries signed c laws d s i x port fields small can)

    -- With the laws of cJSON, `unregister_service` of two names below 100 bytes, with a text that
    -- fits and has one checksum for both sides, does the same, on a machine that has a socket,
    -- interfaces with addresses, a healthy network and a sending thread that ends before the packet
    -- is freed, with a request to unregister the service of these names: it returns 0 if one of the
    -- answers, which each hold a packet whose reason can be read and end with a read that fails or
    -- times out, is a success, and else -1; the socket stays open and the client object is not
    -- freed.
    pub unregister_service-Requested :
        (signed : Bool) (laws : Laws c) (d s : Str)
        → IsField d × IsField s
        → CanSend signed c (service_tree c d s (codes "") (codes "") 0)
        → Returns
            (Requested
              (get_unregister_pkt signed c (some d) (some s))
              Action.unregister_service
              (service d s (codes "") (codes "") 0)
              m
              n
              ifs
              vs
              rs)
            (unregister_service c inet_addr signed (some d) (some s) m rs)
    unfolding unregister_service
    unregister_service-Requested signed laws d s fields can =
        opened-Requested (get_unregister_pkt signed c (some d) (some s)) Action.unregister_service
          (service d s (codes "") (codes "") 0)
          (get_unregister_pkt-Carries signed c laws d s fields can)
