-- ===== src/Subnet.antt =====
-- A client that sends its packet to each host of its subnet: reset_sub_addr and prepare_sub_addr of
-- c/provider/comm/udp.c, and udp_broadcast_data of c/provider/client.c and server.c. `inet_addr` is
-- a parameter.
pub mod Hosts
pub mod Local
pub mod Open
pub mod Opened
pub mod Closed
pub mod Prefix
use mini_service_discover.Base.{
  ℕ, zero, suc, ◌+◌, ◌/◌, ◌%◌, Bool, true, false, List, [], ◌∷◌, ◌++◌, ltb, leb, if◌then◌else◌,
  length,
}
use mini_service_discover.Base.Outcome.{Outcome, done, undefined, out_of_fuel, ◌>>=◌}
use mini_service_discover.CString.{Str}
use mini_service_discover.ServiceList.{Code, success, failure}
use mini_service_discover.Udp.{Addr, Socket, udp_client_write}

-- LOCAL_ADDR_BUF_LEN
abbrev pub local_addr_buf_len : ℕ
local_addr_buf_len = 30

-- `udp_client`: `ip` is the local address up to its last dot, `bytes` is `data`.
pub record UdpClient : Type 0 where
  pub addrto : Addr
  pub ip : Str
  pub sub_ip : ℕ
  pub bytes : List ℕ
  pub len : ℕ
  pub socket : Socket

-- `%d` of a number below 1000
unfoldable pub decimal : ℕ → Str
decimal n =
    if ltb n 10
    then (n + 48) ∷ []
    else if ltb n 100
    then (n / 10 + 48) ∷ (n % 10 + 48) ∷ []
    else (n / 100 + 48) ∷ (n / 10 % 10 + 48) ∷ (n % 10 + 48) ∷ []

unfoldable pub reset_sub_addr : UdpClient → UdpClient
reset_sub_addr client = record client { sub_ip = 1 }

-- `ret != 0`
unfoldable pub is_nonzero : Code → Bool
is_nonzero success = false
is_nonzero failure = true

module _ (inet_addr : Str → Addr) where
  -- `sprintf` of a text that does not fit, with its NUL, is undefined.
  unfoldable pub prepare_sub_addr : UdpClient → Outcome (Code × UdpClient)
  prepare_sub_addr client =
      let ip = client.ip ++ decimal client.sub_ip in
      let client' = record client { addrto = inet_addr ip } in
      if leb local_addr_buf_len (length ip)
      then undefined
      else if ltb client.sub_ip 254
      then done (success, record client' { sub_ip = client.sub_ip + 1 })
      else done (failure, client')

  -- The loop of `udp_broadcast_data`. The reader sets `read_end` at some time: `read_end i` is what
  -- the test in round `i` sees.
  unfoldable pub broadcast_loop : ℕ → (ℕ → Bool) → ℕ → UdpClient → Outcome UdpClient
  broadcast_loop zero read_end i client = out_of_fuel
  broadcast_loop (suc k) read_end i client = if read_end i then done client else do
    (ret, client) ← prepare_sub_addr client
    (_, socket) ← udp_client_write client.addrto client.socket client.bytes client.len
    let client = record client { socket = socket }
    if is_nonzero ret then done client else broadcast_loop k read_end (suc i) client

  -- There are 254 hosts, so there are no more rounds.
  unfoldable pub udp_broadcast_data : (ℕ → Bool) → UdpClient → Outcome UdpClient
  udp_broadcast_data read_end client = broadcast_loop 254 read_end 0 (reset_sub_addr client)
