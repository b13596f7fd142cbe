-- ===== src/Subnet/Hosts.antt =====
-- Which hosts udp_broadcast_data of c/provider/client.c sends to.
use mini_service_discover.Base.{
  append_laws, ℕ, zero, suc, ◌+◌, ◌≤◌, ◌<◌, ◌≡◌, refl, ap, ◌∙◌, sym, Bool, true, false, inl, inr,
  Bool-cases, List, [], ◌∷◌, ◌++◌, map, ltb, leb, if◌then◌else◌, length, arith, append-nil,
  length-append,
}
use mini_service_discover.Base.Outcome.{done, Returns, returns, weaken-Returns}
use mini_service_discover.CString.{Str}
use mini_service_discover.Udp.{Addr, Datagram, count, udp_client_write}
use mini_service_discover.Udp.Send.{IsHealthy, with_sent, udp_client_write-healthy}
use mini_service_discover.Subnet.{
  UdpClient, decimal, reset_sub_addr, prepare_sub_addr, broadcast_loop, is_nonzero,
  udp_broadcast_data,
}

-- `n` numbers from `a` on
abbrev pub from_on : ℕ → ℕ → List ℕ
from_on a zero = []
from_on a (suc n) = a ∷ from_on (a + 1) n

-- the rounds from `i` on, at most `n`, until the flag is seen
unfoldable pub rounds : (ℕ → Bool) → ℕ → ℕ → ℕ
rounds read_end i zero = 0
rounds read_end i (suc n) =
    let rest = rounds read_end (suc i) n in if read_end i then 0 else suc rest

decimal-short : (n : ℕ) → length (decimal n) ≤ 3
unfolding decimal
decimal-short n = ground arith

module _ (inet_addr : Str → Addr) where
  -- The packet of a client to a host.
  abbrev pub to_host : Str → List ℕ → ℕ → Datagram
  to_host ip bytes n = (inet_addr (ip ++ decimal n), bytes)

  -- What a client sent, and nothing else.
  pub record Sent (client e : UdpClient) (hosts : List ℕ) : Type 0 where
    pub sent : e.socket.sent ≡ client.socket.sent ++ map (to_host client.ip client.bytes) hosts
    pub arrivals : e.socket.arrivals ≡ client.socket.arrivals

  -- A client whose packet is sent whole.
  pub record IsReady (client : UdpClient) : Type 0 where
    pub short : length client.ip ≤ 26
    pub whole : client.len ≡ length client.bytes
    pub some_bytes : 0 < length client.bytes
    pub healthy : IsHealthy client.socket

  pub prepared :
      (client : UdpClient)
      → length client.ip ≤ 26
      → leb 30 (length (client.ip ++ decimal client.sub_ip)) ≡ false
  prepared client short =
      ground (arith, length-append client.ip (decimal client.sub_ip), decimal-short client.sub_ip)

  write_whole :
      (client : UdpClient) (to : Addr)
      → IsReady client
      → udp_client_write to client.socket client.bytes client.len
        ≡ done (count (length client.bytes), with_sent client.socket ((to, client.bytes) ∷ []))
  write_whole client to ready =
      ap (udp_client_write to client.socket client.bytes) ready.whole
      ∙ udp_client_write-healthy to client.socket client.bytes ready.healthy ready.some_bytes

  abbrev target : UdpClient → Addr
  target client = inet_addr (client.ip ++ decimal client.sub_ip)

  Sent-none : (client : UdpClient) → Sent client client []
  Sent-none client = record { sent = sym (append-nil client.socket.sent); arrivals = refl }

  broadcast_loop-Sent :
      (n : ℕ) (read_end : ℕ → Bool) (i : ℕ) (client : UdpClient)
      → IsReady client
      → client.sub_ip + n ≡ 254
      → Returns
          (λ e. Sent client e (from_on client.sub_ip (rounds read_end i (suc n))))
          (broadcast_loop inet_addr (suc n) read_end i client)
  unfolding broadcast_loop is_nonzero prepare_sub_addr rounds
  broadcast_loop-Sent zero read_end i client ready at = elim (Bool-cases (read_end i)) [
    | inl seen ↦ rw seen (returns (Sent-none client))
    | inr unseen ↦
        let full : ltb client.sub_ip 254 ≡ false = ground arith in
        rw (unseen, prepared client ready.short, full, write_whole client (target client) ready)
          (returns (record { sent = refl; arrivals = refl }))
  ]
  broadcast_loop-Sent (suc n) read_end i client ready at = elim (Bool-cases (read_end i)) [
    | inl seen ↦ rw seen (returns (Sent-none client))
    | inr unseen ↦
        let more : ltb client.sub_ip 254 ≡ true = ground arith in
        let next : UdpClient = record client {
          addrto = target client;
          sub_ip = client.sub_ip + 1;
          socket = with_sent client.socket ((target client, client.bytes) ∷ []);
        } in
        rw (unseen, prepared client ready.short, more, write_whole client (target client) ready)
          (weaken-Returns
            (broadcast_loop-Sent n read_end (suc i) next
              (record {
                short = ready.short;
                whole = ready.whole;
                some_bytes = ready.some_bytes;
                healthy = ready.healthy;
              })
              (omega arith))
            λ e later. record { sent = simp (append_laws, later.sent); arrivals = later.arrivals })
  ]

  -- `udp_broadcast_data`, on a healthy socket, with a local address of at most 26 characters and a
  -- packet that is not empty, returns, and sends the packet to the hosts 1, 2, ... of the subnet,
  -- each once, up to 254 or up to the round in which it sees `read_end`; nothing else is sent.
  pub udp_broadcast_data-Sent :
      (read_end : ℕ → Bool) (client : UdpClient)
      → IsReady client
      → Returns
          (λ e. Sent client e (from_on 1 (rounds read_end 0 254)))
          (udp_broadcast_data inet_addr read_end client)
  unfolding udp_broadcast_data reset_sub_addr
  udp_broadcast_data-Sent read_end client ready =
      weaken-Returns
        (broadcast_loop-Sent 253 read_end 0 (record client { sub_ip = 1 })
          (record {
            short = ready.short;
            whole = ready.whole;
            some_bytes = ready.some_bytes;
            healthy = ready.healthy;
          })
          (omega arith))
        λ e later. record { sent = later.sent; arrivals = later.arrivals }
