-- ===== src/Programs/Long.antt =====
-- A registration with an info that is too long for its buffer, as the first one of c/test/server.c.
use mini_service_discover.Base.{ℕ, ◌≤◌, ◌≡◌, refl, Bool, some, List, length, arith}
use mini_service_discover.Base.Outcome.{undefined, Returns-value}
use mini_service_discover.CString.{Str}
use mini_service_discover.CString.Laws.{IsCString, IsCString-of_all}
use mini_service_discover.Protocol.Cjson.{Cjson}
use mini_service_discover.Protocol.RoundTrip.{IsField, IsField-of_all}
use mini_service_discover.Protocol.Packets.{get_register_pkt-long}
use mini_service_discover.Udp.{Addr}
use mini_service_discover.Resources.{Resources, open_socket, new_client_object}
use mini_service_discover.Subnet.Local.{Interface}
use mini_service_discover.Subnet.Open.{Machine, set_socket_timeout}
use mini_service_discover.Subnet.Opened.{HasSocket, open_client-set_socket_timeout}
use mini_service_discover.Register.Call.{request, register_service}
use mini_service_discover.Programs.{play_music, box1, box_ip, pcm_info, server_main}

module _ (c : Cjson) (inet_addr : Str → Addr) (signed : Bool) (m : Machine) (n : ℕ)
    (ifs : List Interface) (rs : Resources) (has : HasSocket m n ifs) where
  -- `register_service` with an info of 100 bytes or more (it and the other strings C strings, those
  -- below 100 bytes), on a machine with a socket and interfaces with addresses, reads past the end
  -- of a buffer.
  pub register_service-long :
      (d s i x : Str) (port : ℕ)
      → IsField d × IsField s × IsField i × IsCString x
      → 100 ≤ length x
      → register_service c inet_addr signed (some d) (some s) (some i) port (some x) m rs
        ≡ undefined
  unfolding register_service request
  register_service-long d s i x port fields long =
      let (r, e, opened) = Returns-value (
        open_client-set_socket_timeout inet_addr m n ifs rs has
          (set_socket_timeout m n (open_socket n (new_client_object rs))) refl) in
      rw (e, opened.made, get_register_pkt-long signed c d s i x port fields long) refl

  -- The first registration of the program.
  server_main-undefined : (m2 m3 : Machine) → server_main c inet_addr signed m m2 m3 rs ≡ undefined
  unfolding server_main
  server_main-undefined m2 m3 =
      rw
        (register_service-long box1 play_music box_ip pcm_info 6666
          (
            IsField-of_all box1 refl (omega arith),
            IsField-of_all play_music refl (omega arith),
            IsField-of_all box_ip refl (omega arith),
            IsCString-of_all pcm_info refl,
          )
          (omega arith))
        refl
