-- ===== src/Daemon/Process.antt =====
-- daemon_loop of c/provider/daemon.c in its process, with init_udp_server and deinit_udp_server of
-- c/provider/comm/udp.c.
use mini_service_discover.Base.{Bool, Option, none, some, List}
use mini_service_discover.Base.Outcome.{Outcome, done, ◌>>=◌}
use mini_service_discover.Protocol.Cjson.{Cjson}
use mini_service_discover.Udp.{Ret, count, minus_one, Arrival, init_udp_server}
use mini_service_discover.Resources.{
  Resources, open_socket, close_socket, new_server_object, free_server_object, new_pkt, free_pkt,
}
use mini_service_discover.Daemon.{Daemon, Ending, waiting, stopped, daemon_loop}

-- What the process comes to: it serves for ever, or `daemon_loop` returns, after a daemon that was
-- stopped, if a server could be made. The list of that daemon is not given back.
pub data Process : Type 0 where
  serving : Daemon → Resources → Process
  over : Option Daemon → Resources → Process

-- What `init_udp_server` takes from the process, by what `socket` and `bind` return: where NULL is
-- returned, the server object is never freed, nor the socket closed.
unfoldable pub server_resources : Ret → Ret → Resources → Resources
server_resources minus_one bound rs = new_server_object rs
server_resources (count n) bound rs = open_socket n (new_server_object rs)

-- `deinit_udp_server` of a server that is not NULL, on this socket
unfoldable pub deinit_udp_server : Ret → Resources → Resources
deinit_udp_server minus_one rs = free_server_object rs
deinit_udp_server (count n) rs = free_server_object (close_socket n rs)

-- Behind the loop, with the packet that it reads into.
unfoldable pub after_loop : Ret → Resources → Option Ending → Process
after_loop sock rs none = over none rs
after_loop sock rs (some (waiting d)) = serving d (new_pkt rs)
after_loop sock rs (some (stopped d)) =
    over (some d) (deinit_udp_server sock (free_pkt (new_pkt rs)))

unfoldable pub run_daemon :
    Bool → Cjson → Ret → Ret → List Arrival → List Ret → Resources → Outcome Process
run_daemon signed c sock bound arrivals send_results rs = do
  ending ← daemon_loop signed c (init_udp_server sock bound arrivals send_results)
  done (after_loop sock (server_resources sock bound rs) ending)
