-- ===== src/Client/Called.antt =====
-- What inquiry_service of c/provider/client.c comes to, by what the system calls return.
use mini_service_discover.Base.{
  ℕ, ◌+◌, ◌-◌, ◌≤◌, ◌≡◌, refl, ap, sym, subst, ◌∙◌, Bool, true, false, Option, none, some, List, [],
  ◌∷◌, ◌++◌, map, All, length, arith,
}
use mini_service_discover.Base.Outcome.{
  Returns-itself, done, Returns, returns, then-Returns, weaken-Returns,
}
use mini_service_discover.CString.{Str, codes}
use mini_service_discover.ServiceList.Stores.{Stores}
use mini_service_discover.ServiceList.{init_list}
use mini_service_discover.Memory.{empty_memory}
use mini_service_discover.Protocol.{inquiry, Packet}
use mini_service_discover.Protocol.Cjson.{Cjson, Laws}
use mini_service_discover.Protocol.Build.{get_inquiry_pkt, service_tree}
use mini_service_discover.Protocol.RoundTrip.{IsField, IsWhole, CanSend, Carries, service}
use mini_service_discover.Protocol.Packets.{get_inquiry_pkt-Carries}
use mini_service_discover.Udp.{Addr, Ret, count, minus_one, Arrival, receive_error, Socket}
use mini_service_discover.Udp.Send.{IsHealthy}
use mini_service_discover.Resources.{
  Resources, open_socket, new_client_object, new_pkt, free_pkt, without_socket,
  without_socket_first,
}
use mini_service_discover.Subnet.{UdpClient}
use mini_service_discover.Subnet.Local.{Interface}
use mini_service_discover.Subnet.Prefix.{local_text, IsShared}
use mini_service_discover.Subnet.Hosts.{
  to_host, from_on, rounds, Sent, IsReady, udp_broadcast_data-Sent,
}
use mini_service_discover.Subnet.Open.{Machine, descriptor, deinit_udp_client}
use mini_service_discover.Subnet.Opened.{
  then-Opened, HasSocket, HasLimits, open_client-Opened, open_client-failed,
}
use mini_service_discover.Client.{Client}
use mini_service_discover.Client.Answers.{
  Answer, arrival, collect, Holds, Ended, check_result-Ended,
}
use mini_service_discover.Client.Call.{
  Call, returned, with_pkt, free_sent_pkt, write_and_get_result, end_inquiry, inquire,
  inquiry_service,
}

-- A client with a packet to send.
pub with_pkt-IsReady :
    (inet_addr : Str → Addr) (client : UdpClient) (pkt : Packet)
    → length client.ip ≤ 15
    → IsWhole pkt
    → IsHealthy client.socket
    → IsReady inet_addr (with_pkt pkt client)
with_pkt-IsReady inet_addr client pkt short whole healthy = record {
  short = omega (arith, short);
  whole = whole.len ∙ sym whole.size;
  some_bytes = omega (arith, whole.size);
  healthy = healthy;
}

-- The client is given back, with its socket and its packet: nothing is left.
given_back :
    (m : Machine) (n : ℕ) (rs : Resources)
    → m.sock ≡ count n
    → deinit_udp_client m (free_pkt (new_pkt (open_socket n (new_client_object rs)))) ≡ rs
unfolding deinit_udp_client free_pkt
given_back m n rs sock =
    let sockets : without_socket (descriptor m.sock) (n ∷ rs.sockets) ≡ rs.sockets =
      ap (λ (s : Ret). without_socket (descriptor s) (n ∷ rs.sockets)) sock
      ∙ without_socket_first n rs.sockets in
    let clients : rs.clients + 1 - 1 ≡ rs.clients = omega arith in
    let packets : rs.packets + 1 - 1 ≡ rs.packets = omega arith in
    rw (sockets, clients, packets) refl

module _ (c : Cjson) (inet_addr : Str → Addr) where
  -- The call has returned: the list holds the services found, the packet went to the hosts of the
  -- subnet, and the process holds what it held before.
  pub record Found (signed : Bool) (name : Str) (m : Machine) (ifs : List Interface)
      (answers : List Answer) (rs : Resources) (call : Call Client) : Type 0 where
    pub client : Client
    pub ip : Str
    pub pkt : Packet
    pub same : call ≡ returned (some client) rs
    pub list : Stores client.memory.brk client.memory client.list (collect answers [])
    pub built : get_inquiry_pkt signed c (some name) ≡ done pkt
    pub carries : Carries c inquiry (service (codes "") name (codes "") (codes "") 0) pkt
    pub shared : IsShared (local_text ifs) ip
    pub sent :
        client.socket.sent
        ≡ m.socket.sent
          ++ map (to_host inet_addr ip pkt.bytes) (from_on 1 (rounds m.read_end 0 254))

  module _ (signed : Bool) (laws : Laws c) (name : Str) (m : Machine) (n : ℕ) (ifs : List Interface)
      (answers : List Answer) (rest : List Arrival) (rs : Resources) (field : IsField name)
      (can_ask : CanSend signed c (service_tree c (codes "") name (codes "") (codes "") 0))
      (has : HasSocket m n ifs) (healthy : IsHealthy m.socket)
      (in_time : m.sender_ends_first ≡ true) (holds : All (Holds c) answers)
      (arrive : m.socket.arrivals ≡ map arrival answers ++ receive_error ∷ rest) where
    record HasFound (ip : Str) (pkt : Packet) (o : Option Client) : Type 0 where
      client : Client
      same : o ≡ some client
      list : Stores client.memory.brk client.memory client.list (collect answers [])
      sent :
          client.socket.sent
          ≡ m.socket.sent
            ++ map (to_host inet_addr ip pkt.bytes) (from_on 1 (rounds m.read_end 0 254))

    shown :
        (client : UdpClient) (pkt : Packet) (same : client.socket ≡ m.socket) (e : UdpClient)
        → Sent inet_addr (with_pkt pkt client) e (from_on 1 (rounds m.read_end 0 254))
        → (o : Option Client)
        → Ended c answers rest
            (record {
              list = init_list;
              memory = empty_memory;
              socket = e.socket;
              read_end = false;
            })
            []
            o
        → HasFound client.ip pkt o
    shown client pkt same e sent none ended = absurd ended
    shown client pkt same e sent (some cl) ended = record {
      client = cl;
      same = refl;
      list = ended.stores;
      sent = simp (ended.sent, sent.sent, same);
    }

    -- What `write_and_get_result` is for a client on the machine's socket.
    found_by :
        (client : UdpClient) (pkt : Packet)
        → client.socket ≡ m.socket
        → length client.ip ≤ 15
        → IsWhole pkt
        → Returns
            (HasFound client.ip pkt)
            (write_and_get_result c inet_addr false m (with_pkt pkt client))
    unfolding write_and_get_result
    found_by client pkt same short whole =
        then-Returns
          (udp_broadcast_data-Sent inet_addr m.read_end (with_pkt pkt client) (
            with_pkt-IsReady inet_addr client pkt short whole
              (ap (λ (s : Socket). s.send_results) same ∙ healthy)))
          λ e sent.
            weaken-Returns
              (check_result-Ended c answers rest e.socket holds
                (sent.arrivals ∙ ap (λ (s : Socket). s.arrivals) same ∙ arrive))
              λ o ended. shown client pkt same e sent o ended

    -- The whole call, once the client is open.
    inquire-Found :
        (client : UdpClient)
        → IsShared (local_text ifs) client.ip
        → length client.ip ≤ 15
        → client.socket ≡ m.socket
        → Returns (Found signed name m ifs answers rs) (
            inquire c inet_addr signed
              (some name)
              m
              (open_socket n (new_client_object rs))
              (some client))
    unfolding inquire end_inquiry free_sent_pkt
    inquire-Found client shared short same =
        then-Returns (Returns-itself (get_inquiry_pkt-Carries signed c laws name field can_ask))
          λ pkt (built, told). then-Returns (found_by client pkt same short told.0) λ o found.
            subst
              (λ (o : Option Client).
                Returns (Found signed name m ifs answers rs)
                  (end_inquiry m (new_pkt (open_socket n (new_client_object rs))) o))
              (sym found.same)
              (simp in_time (
                returns (record {
                  client = found.client;
                  ip = client.ip;
                  pkt = pkt;
                  same = ap (returned (some found.client)) (given_back m n rs has.sock);
                  list = found.list;
                  built = built;
                  carries = told;
                  shared = shared;
                  sent = found.sent;
                })))

    -- With the laws of cJSON, `inquiry_service` for a name (below 100 bytes, text that fits and has
    -- one checksum for both sides), on a machine that has a socket, interfaces with addresses, a
    -- healthy network and a sending thread that ends before the packet is freed, where datagrams
    -- arrive that each hold a packet with a service that has both names, a failure or nothing
    -- valid, and then a read fails or times out, returns: its list stands for the services found,
    -- in order, each in place of one with the same names; an inquiry with the name went to the
    -- hosts 1, 2, ... of the subnet of the local address, each once, up to 254 or the round in
    -- which `read_end` is seen; and the process holds the sockets, clients and packets that it held
    -- before.
    pub inquiry_service-Found :
        HasLimits m
        → Returns
            (Found signed name m ifs answers rs)
            (inquiry_service c inet_addr signed (some name) m rs)
    unfolding inquiry_service
    inquiry_service-Found limits =
        then-Opened (λ r. inquire c inet_addr signed (some name) m r.1 r.0)
          (open_client-Opened inet_addr m n ifs rs has limits) inquire-Found

-- Without a socket, `inquiry_service` returns NULL at once; the client object is not freed.
pub inquiry_service-failed :
    (c : Cjson) (inet_addr : Str → Addr) (signed : Bool) (name : Str) (m : Machine) (rs : Resources)
    → m.sock ≡ minus_one
    → inquiry_service c inet_addr signed (some name) m rs
      ≡ done (returned none (record rs { clients = rs.clients + 1 }))
unfolding inquiry_service inquire
inquiry_service-failed c inet_addr signed name m rs e =
    rw (open_client-failed inet_addr false m rs e)
