-- ===== src/Subnet/Open.antt =====
-- The start and the end of a client as far as the process and its system calls go: set_socket_timeout,
-- init_udp_client and deinit_udp_client of c/provider/comm/udp.c.
use mini_service_discover.Base.{
  ℕ, Bool, true, false, Option, none, List, [], ◌∷◌, if◌then◌else◌, replicate,
}
use mini_service_discover.Base.Outcome.{Outcome, done, ◌>>=◌}
use mini_service_discover.CString.{Str}
use mini_service_discover.Udp.{Addr, Ret, count, minus_one, receive_error, Socket}
use mini_service_discover.Resources.{
  Resources, open_socket, close_socket, new_client_object, free_client_object,
}
use mini_service_discover.Subnet.{UdpClient}
use mini_service_discover.Subnet.Local.{Interface, init_udp_client}

-- What the system will do in one call of the library: what `socket` returns, `setsockopt` for the
-- two time limits and for broadcast, the interfaces, the network, what the sending thread sees of
-- `read_end` in each round, and whether that thread ends before the client is given back.
pub record Machine : Type 0 where
  pub sock : Ret
  pub send_limit : Ret
  pub receive_limit : Ret
  pub broadcast_option : Ret
  pub interfaces : Option (List Interface)
  pub socket : Socket
  pub read_end : ℕ → Bool
  pub sender_ends_first : Bool

abbrev pub is_failure : Ret → Bool
is_failure (count n) = false
is_failure minus_one = true

-- A closed socket: all reads and writes fail. A client makes one read of it, and at most 254 writes.
abbrev pub closed : Socket → Socket
closed s = record s { arrivals = receive_error ∷ []; send_results = replicate 254 minus_one }

-- `set_socket_timeout` closes the socket if a limit cannot be set; its caller does not look at what
-- it returns.
unfoldable pub set_socket_timeout : Machine → ℕ → Resources → Socket × Resources
set_socket_timeout m n rs =
    if is_failure m.send_limit
    then (closed m.socket, close_socket n rs)
    else if is_failure m.receive_limit
    then (closed m.socket, close_socket n rs)
    else (m.socket, rs)

-- `init_udp_client` in the process, by what `socket` returns: the client object is never freed where
-- NULL is returned, nor the socket closed.
unfoldable pub open_sock :
    (Str → Addr) → Bool → Ret → Machine → Resources → Outcome (Option UdpClient × Resources)
open_sock inet_addr is_broadcast minus_one m rs = done (none, new_client_object rs)
open_sock inet_addr is_broadcast (count n) m rs = do
  let (socket, rs) = set_socket_timeout m n (open_socket n (new_client_object rs))
  client ← init_udp_client inet_addr is_broadcast (count n) m.interfaces m.broadcast_option socket
  done (client, rs)

unfoldable pub open_client :
    (Str → Addr) → Bool → Machine → Resources → Outcome (Option UdpClient × Resources)
open_client inet_addr is_broadcast m rs = open_sock inet_addr is_broadcast m.sock m rs

-- The descriptor of a client that was opened.
abbrev pub descriptor : Ret → ℕ
descriptor (count n) = n
descriptor minus_one = 0

-- `deinit_udp_client` of a client that is not NULL
unfoldable pub deinit_udp_client : Machine → Resources → Resources
deinit_udp_client m rs = free_client_object (close_socket (descriptor m.sock) rs)
