-- ===== src/Subnet/Local.antt =====
-- The choice of a local address and the start of a client: get_local_ipv4_broadcast_addr,
-- get_local_ipv4_addr and init_udp_client of c/provider/comm/udp.c. What the system calls return is
-- given; `inet_ntoa` of an address is its text. set_socket_timeout is taken to succeed.
use mini_service_discover.Base.{
  Bool, true, false, not, ◌&&◌, Option, none, some, List, [], ◌∷◌, ◌==◌, leb, if◌then◌else◌, length,
}
use mini_service_discover.Base.Outcome.{Outcome, done, undefined, ◌>>=◌, fetch}
use mini_service_discover.CString.{Str, CharPtr, codes, str_eq, strncpy, read_string}
use mini_service_discover.Udp.{Addr, Ret, count, minus_one, Socket}
use mini_service_discover.Subnet.{UdpClient, local_addr_buf_len}

pub data Address : Type 0 where
  inet : Str → Address
  other_family : Address

-- `struct ifaddrs`; `none` is a NULL pointer
pub record Interface : Type 0 where
  pub name : Str
  pub addr : Option Address
  pub netmask : CharPtr
  pub broadcast : CharPtr

unfoldable pub test_inet : (Interface → Str → Outcome Bool) → Interface → Address → Outcome Bool
test_inet test i (inet text) = test i text
test_inet test i other_family = done false

-- A loop over the interfaces: the first of AF_INET that passes the test.
unfoldable pub find_inet :
    (Interface → Str → Outcome Bool) → List Interface → Outcome (Option Interface)
find_inet test [] = done none
find_inet test (i ∷ is) = do
  a ← fetch i.addr
  hit ← test_inet test i a
  if hit then done (some i) else find_inet test is

abbrev pub is_loopback : Interface → Str → Bool
is_loopback i text = str_eq i.name (codes "lo")

abbrev pub is_outside : Interface → Str → Bool
is_outside i text = not (str_eq i.name (codes "lo")) && leb 7 (length text)

-- `strncpy(buf, text, size)`, as the string that is then in the buffer
unfoldable pub copy_text : Str → Outcome Str
copy_text text = read_string (strncpy local_addr_buf_len text)

unfoldable pub text_of : Option Address → Outcome Str
text_of (some (inet text)) = done text
text_of _ = undefined

-- The buffer is empty before; `none`: getifaddrs fails.
unfoldable pub get_local_ipv4_addr : Option (List Interface) → Outcome Str
get_local_ipv4_addr none = done []
get_local_ipv4_addr (some ifs) = do
  outside ← find_inet (λ i text. done (is_outside i text)) ifs
  elim outside [
    | some i ↦ text_of i.addr >>= copy_text
    | none ↦ (do
      loopback ← find_inet (λ i text. done (is_loopback i text)) ifs
      elim loopback [ some i ↦ text_of i.addr >>= copy_text | none ↦ done [] ])
  ]

-- `none`: the buffer is as it was, without a value.
unfoldable pub get_local_ipv4_broadcast_addr : Option (List Interface) → Outcome (Option Str)
get_local_ipv4_broadcast_addr none = done none
get_local_ipv4_broadcast_addr (some ifs) = do
  wide ←
      find_inet (λ i text. fetch i.netmask >>= λ mask. done (str_eq mask (codes "255.255.255.0")))
        ifs
  elim wide [
    | some i ↦ (do text ← fetch i.broadcast; s ← copy_text text; done (some s))
    | none ↦ (do
      loopback ← find_inet (λ i text. done (is_loopback i text)) ifs
      elim loopback [
        | some i ↦ (do text ← fetch i.broadcast; s ← copy_text text; done (some s))
        | none ↦ done none
      ])
  ]

-- up to the last dot, with it, if there is one
unfoldable pub to_last_dot : Str → Option Str
to_last_dot [] = none
to_last_dot (b ∷ s) = elim (to_last_dot s) [
  | some p ↦ some (b ∷ p)
  | none ↦ if b == 46 then some (b ∷ []) else none
]

unfoldable pub without_host : Str → Str
without_host ip = elim (to_last_dot ip) [ some p ↦ p | none ↦ ip ]

abbrev pub new_client : Addr → Str → Socket → UdpClient
new_client addrto ip socket = record {
  addrto = addrto;
  ip = ip;
  sub_ip = 0;
  bytes = [];
  len = 0;
  socket = socket;
}

module _ (inet_addr : Str → Addr) where
  -- By what `socket` returns, the interfaces, and what `setsockopt` of SO_BROADCAST returns.
  unfoldable pub init_udp_client :
      Bool → Ret → Option (List Interface) → Ret → Socket → Outcome (Option UdpClient)
  init_udp_client is_broadcast minus_one ifs nb socket = done none
  init_udp_client true (count sock) ifs minus_one socket = do
    _ ← get_local_ipv4_broadcast_addr ifs
    done none
  init_udp_client true (count sock) ifs (count opt) socket = do
    ip_buf ← get_local_ipv4_broadcast_addr ifs
    text ← fetch ip_buf
    done (some (new_client (inet_addr text) [] socket))
  init_udp_client false (count sock) ifs nb socket = do
    ip ← get_local_ipv4_addr ifs
    done (some (new_client 0 (without_host ip) socket))
