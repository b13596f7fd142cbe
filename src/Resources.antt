-- ===== src/Resources.antt =====
-- What a process holds between calls of the C library: its open sockets, and the `udp_client`,
-- `service_pkt` and `udp_server` objects that were allocated and not yet freed (c/provider/comm/udp.c, protocal.c).
use mini_service_discover.Base.{ℕ, ◌+◌, ◌-◌, ◌≡◌, List, [], ◌∷◌, ◌==◌, if◌then◌else◌, arith}

pub record Resources : Type 0 where
  pub sockets : List ℕ
  pub clients : ℕ
  pub packets : ℕ
  pub servers : ℕ

-- drops a descriptor, if it is open
unfoldable pub without_socket : ℕ → List ℕ → List ℕ
without_socket n [] = []
without_socket n (m ∷ ms) = let rest = without_socket n ms in if m == n then ms else m ∷ rest

abbrev pub open_socket : ℕ → Resources → Resources
open_socket n rs = record rs { sockets = n ∷ rs.sockets }

-- `close`; of a descriptor that is not open it does nothing.
abbrev pub close_socket : ℕ → Resources → Resources
close_socket n rs = record rs { sockets = without_socket n rs.sockets }

abbrev pub new_client_object : Resources → Resources
new_client_object rs = record rs { clients = rs.clients + 1 }

abbrev pub free_client_object : Resources → Resources
free_client_object rs = record rs { clients = rs.clients - 1 }

abbrev pub new_server_object : Resources → Resources
new_server_object rs = record rs { servers = rs.servers + 1 }

abbrev pub free_server_object : Resources → Resources
free_server_object rs = record rs { servers = rs.servers - 1 }

-- `get_pkt` and `free_pkt`, each of a packet and its buffer
abbrev pub new_pkt : Resources → Resources
new_pkt rs = record rs { packets = rs.packets + 1 }

unfoldable pub free_pkt : Resources → Resources
free_pkt rs = record rs { packets = rs.packets - 1 }

pub without_socket_first : (n : ℕ) (ms : List ℕ) → without_socket n (n ∷ ms) ≡ ms
unfolding without_socket
without_socket_first n ms = ground arith
