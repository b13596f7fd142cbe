-- ===== src/Daemon/Over.antt =====
-- How the process of c/provider/daemon.c ends.
use mini_service_discover.Base.{
  ℕ, ◌+◌, ◌-◌, ◌≡◌, refl, ap, Bool, true, some, List, [], ◌++◌, map, All, arith,
}
use mini_service_discover.Base.Outcome.{done, Returns, returns, then-Returns}
use mini_service_discover.Protocol.Cjson.{Cjson}
use mini_service_discover.Udp.{count, Arrival, Socket, init_udp_server}
use mini_service_discover.Resources.{
  Resources, open_socket, new_server_object, new_pkt, free_pkt, without_socket_first,
}
use mini_service_discover.Daemon.{Daemon, Ending, waiting, stopped}
use mini_service_discover.Daemon.Handlers.{CanAnswer}
use mini_service_discover.Daemon.Messages.{Message, arrival, Last, Ran, Finished}
use mini_service_discover.Daemon.Run.{daemon_loop-Finished}
use mini_service_discover.Daemon.Understood.{Understood}
use mini_service_discover.Daemon.Process.{
  Process, over, server_resources, deinit_udp_server, after_loop, run_daemon,
}

all_given_back :
    (n : ℕ) (rs : Resources)
    → deinit_udp_server (count n) (free_pkt (new_pkt (open_socket n (new_server_object rs)))) ≡ rs
unfolding deinit_udp_server free_pkt
all_given_back n rs =
    let servers : rs.servers + 1 - 1 ≡ rs.servers = omega arith in
    let packets : rs.packets + 1 - 1 ≡ rs.packets = omega arith in
    rw (servers, packets, without_socket_first n rs.sockets) refl

-- `daemon_loop` has returned: all messages were served, and the process holds `rs`.
pub record Over (signed : Bool) (c : Cjson) (s : Socket) (qs : List Message) (rs : Resources)
    (p : Process) : Type 0 where
  pub daemon : Daemon
  pub same : p ≡ over (some daemon) rs
  pub ran : Ran signed c s [] qs daemon

abbrev pub new_socket : List Arrival → Socket
new_socket arrivals = record { addrfrom = 0; arrivals = arrivals; send_results = []; sent = [] }

module _ (signed : Bool) (c : Cjson) (can : CanAnswer signed c) where
  -- If the two answers without a service can be built, then a daemon whose datagrams are all
  -- understood up to an empty one, or up to an error of `recvfrom`, serves them as the
  -- specification says and then returns from `daemon_loop`, whatever is still to arrive; the
  -- process holds the sockets, servers and packets that it held before.
  pub run_daemon-Over :
      (n m : ℕ) (qs : List Message) (tail : List Arrival) (rs : Resources)
      → All (Understood signed c can) qs
      → Last tail true
      → Returns
          (Over signed c (new_socket (map arrival qs ++ tail)) qs rs)
          (run_daemon signed c (count n) (count m) (map arrival qs ++ tail) [] rs)
  unfolding run_daemon init_udp_server after_loop server_resources
  run_daemon-Over n m qs tail rs us last =
      then-Returns
        (daemon_loop-Finished signed c can qs (new_socket (map arrival qs ++ tail)) last us refl
          refl)
        λ o (e, same, finished). rw same (ending_Over e finished)
    where
      ending_Over :
          (e : Ending)
          → Finished signed c true (new_socket (map arrival qs ++ tail)) [] qs e
          → Returns
              (Over signed c (new_socket (map arrival qs ++ tail)) qs rs)
              (done (after_loop (count n) (server_resources (count n) (count m) rs) (some e)))
      ending_Over (waiting d) finished = absurd (let same = finished.same in ground (arith, same))
      ending_Over (stopped d) finished = returns (record {
        daemon = d;
        same = ap (over (some d)) (all_given_back n rs);
        ran = finished.ran;
      })
