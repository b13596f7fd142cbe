-- ===== src/Testing/UdpExamples.antt =====
-- Datagrams in and out of a small socket.
use mini_service_discover.Base.{refl, [], ◌∷◌, arith}
use mini_service_discover.Base.Outcome.{Returns}
use mini_service_discover.Udp.{datagram, count, Socket, udp_server_read, udp_server_write}
use mini_service_discover.Udp.Receive.{Filled, udp_server_read-Filled}
use mini_service_discover.Udp.Written.{Written, udp_server_write-Written}

-- Two datagrams that fill the buffer together, and one `sendto` that sends a part.
abbrev glued : Socket
glued = record {
  addrfrom = 7;
  arrivals = datagram 8 (1 ∷ 2 ∷ []) ∷ datagram 9 (3 ∷ 4 ∷ 5 ∷ []) ∷ [];
  send_results = count 2 ∷ [];
  sent = [];
}

udp_server_read-Filled_example :
    Returns (Filled 4 glued glued.arrivals []) (udp_server_read glued (0 ∷ 0 ∷ 0 ∷ 0 ∷ []) 4)
udp_server_read-Filled_example =
    udp_server_read-Filled glued (0 ∷ 0 ∷ 0 ∷ 0 ∷ []) 4 refl (omega arith)

udp_server_write-Written_example :
    Returns (Written (1 ∷ 2 ∷ 3 ∷ []) 0 glued) (udp_server_write glued (1 ∷ 2 ∷ 3 ∷ []) 3)
udp_server_write-Written_example = udp_server_write-Written glued (1 ∷ 2 ∷ 3 ∷ []) (omega arith)
