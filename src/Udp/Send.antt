-- ===== src/Udp/Send.antt =====
-- The writes of c/provider/comm/udp.c on a healthy socket, and the bytes that datagrams hold together.
use mini_service_discover.Base.{
  ℕ, zero, suc, ◌+◌, ◌-◌, ◌<◌, ◌≡◌, refl, ap, true, List, [], ◌∷◌, ◌++◌, leb, length, take, arith,
  take_all,
}
use mini_service_discover.Base.Outcome.{done}
use mini_service_discover.Udp.{
  Addr, Datagram, count, is_positive, bytes_of, Socket, read_bytes, send_to, send_loop,
  udp_server_write, udp_client_write,
}

-- the bytes of the datagrams, one after another
unfoldable pub payload : List Datagram → List ℕ
payload [] = []
payload (d ∷ ds) = d.1 ++ payload ds

-- The socket while every `sendto` sends all that it is given.
abbrev pub IsHealthy : Socket → Type 0
IsHealthy s = s.send_results ≡ []

abbrev pub with_sent : Socket → List Datagram → Socket
with_sent s ds = record s { sent = s.sent ++ ds }

pub send_to-healthy :
    (to : Addr) (bytes : List ℕ) (s : Socket)
    → IsHealthy s
    → send_to to bytes s s.send_results ≡ (count (length bytes), with_sent s ((to, bytes) ∷ []))
unfolding send_to
send_to-healthy to bytes s healthy = ap (send_to to bytes s) healthy

pub take-take : (k : ℕ) (bytes : List ℕ) → take (length (take k bytes)) bytes ≡ take k bytes
take-take zero bytes = refl
take-take (suc k) [] = refl
take-take (suc k) (b ∷ bytes) = ap (λ t. b ∷ t) (take-take k bytes)

send_loop-healthy :
    (to : Addr) (s : Socket) (buf : List ℕ)
    → IsHealthy s
    → 0 < length buf
    → send_loop (suc (length buf)) to buf (length buf) 0 s
      ≡ done (count (length buf), with_sent s ((to, buf) ∷ []))
unfolding send_loop read_bytes is_positive bytes_of
send_loop-healthy to s buf healthy pos =
    let n : length buf - 0 ≡ length buf = omega arith in
    let fits : leb (0 + length buf) (length buf) ≡ true = ground arith in
    let full : leb (length buf) (0 + length buf) ≡ true = ground arith in
    let some_bytes : is_positive (count (length buf)) ≡ true = ground arith in
    rw (
      n,
      fits,
      take_all (length buf) buf (omega arith),
      send_to-healthy to buf s healthy,
      some_bytes,
      full,
    )

-- On a healthy socket the packet goes out as one datagram, to the last sender.
pub udp_server_write-healthy :
    (s : Socket) (buf : List ℕ)
    → IsHealthy s
    → 0 < length buf
    → udp_server_write s buf (length buf)
      ≡ done (count (length buf), with_sent s ((s.addrfrom, buf) ∷ []))
unfolding udp_server_write
udp_server_write-healthy s buf healthy pos = send_loop-healthy s.addrfrom s buf healthy pos

-- The same to the address of a client.
pub udp_client_write-healthy :
    (to : Addr) (s : Socket) (buf : List ℕ)
    → IsHealthy s
    → 0 < length buf
    → udp_client_write to s buf (length buf)
      ≡ done (count (length buf), with_sent s ((to, buf) ∷ []))
unfolding udp_client_write
udp_client_write-healthy to s buf healthy pos = send_loop-healthy to s buf healthy pos
