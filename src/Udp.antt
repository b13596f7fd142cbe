-- ===== src/Udp.antt =====
-- c/provider/comm/udp.c: datagrams in and out. The network is data: what `recvfrom` will report, in
-- order, and what `sendto` will report. An address is a number.
pub mod Receive
pub mod Send
pub mod Written
use mini_service_discover.Base.{
  ℕ, zero, suc, ◌+◌, ◌-◌, Bool, true, false, not, Option, none, some, List, [], ◌∷◌, ◌++◌, ◌==◌,
  leb, if◌then◌else◌, length, take, drop, min,
}
use mini_service_discover.Base.Outcome.{Outcome, done, undefined, out_of_fuel, ◌>>=◌}
use mini_service_discover.Buffer.{write_bytes}

abbrev pub Addr : Type 0
Addr = ℕ

abbrev pub Datagram : Type 0
Datagram = Addr × List ℕ

-- What a system call returns: a count of bytes, or -1.
pub data Ret : Type 0 where
  count : ℕ → Ret
  minus_one : Ret

-- `ret > 0`
unfoldable pub is_positive : Ret → Bool
is_positive (count zero) = false
is_positive (count (suc n)) = true
is_positive minus_one = false

unfoldable pub bytes_of : Ret → ℕ
bytes_of (count n) = n
bytes_of minus_one = 0

-- One return of `recvfrom`: a datagram with its sender, or an error or timeout.
pub data Arrival : Type 0 where
  datagram : Addr → List ℕ → Arrival
  receive_error : Arrival

-- A socket: the last sender (`addrfrom`), what is to arrive, what `sendto` will return (all bytes
-- are sent once the list is used up), and what was sent, in order.
pub record Socket : Type 0 where
  pub addrfrom : Addr
  pub arrivals : List Arrival
  pub send_results : List Ret
  pub sent : List Datagram

-- A blocking read either returns, with the buffer and the socket as they are then, or waits for
-- ever since nothing arrives any more.
pub data Read : Type 0 where
  returned : Ret → List ℕ → Socket → Read
  waits : List ℕ → Socket → Read

-- `init_udp_server`, by what `socket` and `bind` return: NULL if either fails.
unfoldable pub init_udp_server : Ret → Ret → List Arrival → List Ret → Option Socket
init_udp_server minus_one bound arrivals send_results = none
init_udp_server (count sock) minus_one arrivals send_results = none
init_udp_server (count sock) (count n) arrivals send_results =
    some (record { addrfrom = 0; arrivals = arrivals; send_results = send_results; sent = [] })

-- The loop of `udp_server_read` and `udp_client_read`. `recvfrom` takes one datagram, and drops
-- what of it does not fit into the rest of the buffer.
unfoldable pub receive_loop : ℕ → Socket → ℕ → List ℕ → List Arrival → Outcome Read
receive_loop len s r_len buf [] = done (waits buf (record s { arrivals = [] }))
receive_loop len s r_len buf (receive_error ∷ rest) =
    done (returned minus_one buf (record s { arrivals = rest }))
receive_loop len s r_len buf (datagram from bytes ∷ rest) =
    let got = take (len - r_len) bytes in
    let s' = record s { addrfrom = from; arrivals = rest } in
    if length got == 0
    then done (returned (count 0) buf s')
    else (write_bytes r_len got buf >>= λ buf'.
        if leb len (r_len + length got)
        then done (returned (count len) buf' s')
        else receive_loop len (record s { addrfrom = from }) (r_len + length got) buf' rest)

-- `udp_server_read` of a server that is not NULL
unfoldable pub udp_server_read : Socket → List ℕ → ℕ → Outcome Read
udp_server_read s buf len = receive_loop len s 0 buf s.arrivals

-- the bytes that a system call reads from a buffer
unfoldable pub read_bytes : ℕ → ℕ → List ℕ → Outcome (List ℕ)
read_bytes off n buf =
    if leb (off + n) (length buf) then done (take n (drop off buf)) else undefined

-- `sendto`: no more bytes than it is given.
unfoldable pub send_to : Addr → List ℕ → Socket → List Ret → Ret × Socket
send_to to bytes s [] = (count (length bytes), record s { sent = s.sent ++ (to, bytes) ∷ [] })
send_to to bytes s (minus_one ∷ rest) = (minus_one, record s { send_results = rest })
send_to to bytes s (count n ∷ rest) =
    let done_bytes = take n bytes in
    (
      count (length done_bytes),
      record s { sent = s.sent ++ (to, done_bytes) ∷ []; send_results = rest },
    )

-- The loop of `udp_server_write` and `udp_client_write`.
unfoldable pub send_loop : ℕ → Addr → List ℕ → ℕ → ℕ → Socket → Outcome (Ret × Socket)
send_loop zero to buf len w_len s = out_of_fuel
send_loop (suc k) to buf len w_len s = do
  bytes ← read_bytes w_len (len - w_len) buf
  let (ret, s') = send_to to bytes s s.send_results
  if not (is_positive ret)
      then done (ret, s')
      else if leb len (w_len + bytes_of ret)
      then done (count len, s')
      else send_loop k to buf len (w_len + bytes_of ret) s'

-- `udp_server_write` of a server that is not NULL: to the last sender
unfoldable pub udp_server_write : Socket → List ℕ → ℕ → Outcome (Ret × Socket)
udp_server_write s buf len = send_loop (suc len) s.addrfrom buf len 0 s

-- `udp_client_read` of a client that is not NULL: the loop of `udp_server_read`.
unfoldable pub udp_client_read : Socket → List ℕ → ℕ → Outcome Read
udp_client_read s buf len = receive_loop len s 0 buf s.arrivals

-- `udp_client_write` of a client that is not NULL: to its `addrto`
unfoldable pub udp_client_write : Addr → Socket → List ℕ → ℕ → Outcome (Ret × Socket)
udp_client_write addrto s buf len = send_loop (suc len) addrto buf len 0 s
