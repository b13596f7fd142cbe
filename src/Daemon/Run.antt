-- ===== src/Daemon/Run.antt =====
-- Whole runs of `server_loop` and `daemon_loop` of c/provider/daemon.c, on datagrams that each hold
-- a packet.
use mini_service_discover.Base.{
  append_laws, ◌+◌, length-append, ℕ, zero, suc, ◌<◌, ◌≡◌, refl, ap, ◌∙◌, sym, Bool, false, Option,
  some, List, [], ◌∷◌, ◌++◌, map, length, All, arith, take, append-nil, length-take,
}
use mini_service_discover.Base.Outcome.{done, Returns, returns, then-Returns, weaken-Returns}
use mini_service_discover.Memory.{empty_memory}
use mini_service_discover.ServiceList.{init_list}
use mini_service_discover.ServiceList.Registry.{Registry}
use mini_service_discover.ServiceList.Stores.{Stores-init}
use mini_service_discover.Buffer.Laws.{length-zeros}
use mini_service_discover.Protocol.{Packet, get_pkt}
use mini_service_discover.Protocol.Cjson.{Cjson}
use mini_service_discover.Udp.{
  Addr, Arrival, receive_error, minus_one, returned, is_positive, Socket, waits, receive_loop,
  udp_server_read,
}
use mini_service_discover.Udp.Receive.{udp_server_read_whole, udp_server_read-empty}
use mini_service_discover.Udp.Send.{IsHealthy}
use mini_service_discover.Daemon.{
  Daemon, Ending, waiting, stopped, after_read, server_loop, daemon_loop,
}
use mini_service_discover.Daemon.Spec.{Serves}
use mini_service_discover.Daemon.Handlers.{CanAnswer, Served}
use mini_service_discover.Daemon.Messages.{
  Message, sender, content, arrival, effect, run, run_replies, Last, none_left, empty, failed,
  ended, Finished, AreDatagrams-append, AreDatagrams-of_ArePackets, Ran, Waits,
}
use mini_service_discover.Daemon.Understood.{Understood, size, message-Served}

module _ (signed : Bool) (c : Cjson) (can : CanAnswer signed c) where
  read_nothing :
      (s : Socket) (buf : List ℕ)
      → s.arrivals ≡ []
      → udp_server_read s buf 1024 ≡ done (waits buf (record s { arrivals = [] }))
  unfolding udp_server_read receive_loop
  read_nothing s buf no_more = ap (λ a. receive_loop 1024 s 0 buf a) no_more

  -- The first message and then the others.
  Ran-more :
      (q : Message) (qs : List Message) (s t : Socket) (r : Registry) (d e : Daemon)
      → t.sent ≡ s.sent
      → t.addrfrom ≡ sender q
      → Served signed c can t (effect q r).0 (effect q r).1 d
      → Ran signed c d.socket (effect q r).0 qs e
      → Ran signed c s r (q ∷ qs) e
  unfolding run run_replies
  Ran-more q qs s t r d e same from first later =
      let replied = first.replied in
      record {
        serves = later.serves;
        log = map (λ (p : Packet). (sender q, p.bytes)) replied.packets ++ later.log;
        are =
            AreDatagrams-append signed c _ _ _ _
              (AreDatagrams-of_ArePackets signed c (sender q) (effect q r).1 replied.packets
                replied.are)
              later.are;
        sent = simp (append_laws, later.sent, replied.log, same, from);
      }

  read_failed :
      (s : Socket) (buf : List ℕ) (rest : List Arrival)
      → s.arrivals ≡ receive_error ∷ rest
      → udp_server_read s buf 1024 ≡ done (returned minus_one buf (record s { arrivals = rest }))
  unfolding udp_server_read receive_loop
  read_failed s buf rest next = ap (λ a. receive_loop 1024 s 0 buf a) next

  -- No message has come.
  Ran-none :
      (d : Daemon) (r : Registry) (from : Addr) (rest : List Arrival)
      → Serves signed c d r
      → Ran signed c d.socket r []
          (record d { socket = record d.socket { addrfrom = from; arrivals = rest } })
  unfolding run run_replies
  Ran-none d r from rest serves = record {
    serves = record {
      stores = serves.stores;
      distinct = serves.distinct;
      answers = serves.answers;
      healthy = serves.healthy;
    };
    log = [];
    are = tt;
    sent = sym (append-nil d.socket.sent);
  }

  -- A round in which no packet arrives.
  final_round :
      {tail : List Arrival} {b : Bool}
      → Last tail b
      → (k : ℕ) (bytes : List ℕ) (d : Daemon) (r : Registry) → Serves signed c d r
      → d.socket.arrivals ≡ tail
      → Returns (Finished signed c b d.socket r []) (server_loop signed c (suc k) bytes d)
  unfolding server_loop after_read is_positive
  final_round none_left k bytes d r serves are =
      rw (read_nothing d.socket bytes are)
        (returns (record { same = refl; ran = Ran-none d r d.socket.addrfrom [] serves }))
  final_round (empty from rest) k bytes d r serves are =
      rw (udp_server_read-empty d.socket bytes 1024 from rest are)
        (returns (record { same = refl; ran = Ran-none d r from rest serves }))
  final_round (failed rest) k bytes d r serves are =
      rw (read_failed d.socket bytes rest are)
        (returns (record { same = refl; ran = Ran-none d r d.socket.addrfrom rest serves }))

  pub length-arrivals : (qs : List Message) → length (map arrival qs) ≡ length qs
  length-arrivals [] = refl
  length-arrivals (q ∷ qs) = ap suc (length-arrivals qs)

  -- With one round for each datagram and one more, the loop serves all of them, and then waits or
  -- stops.
  pub server_loop-Finished :
      (qs : List Message) (k : ℕ) (bytes : List ℕ) (d : Daemon) (r : Registry) {tail : List Arrival}
      {b : Bool}
      → Last tail b
      → All (Understood signed c can) qs
      → Serves signed c d r
      → d.socket.arrivals ≡ map arrival qs ++ tail
      → length bytes ≡ 1024
      → length qs < k
      → Returns (Finished signed c b d.socket r qs) (server_loop signed c k bytes d)
  unfolding server_loop after_read is_positive
  server_loop-Finished qs zero bytes d r last us serves are full fuel = absurd (omega arith)
  server_loop-Finished [] (suc k) bytes d r last us serves are full fuel =
      final_round last k bytes d r serves are
  server_loop-Finished (q ∷ qs) (suc k) bytes d r {tail} last us serves are full fuel =
      let large = size signed c can q us.0 in
      let t : Socket = record d.socket { addrfrom = sender q; arrivals = map arrival qs ++ tail } in
      let serves' : Serves signed c (record d { socket = t }) r = record {
        stores = serves.stores;
        distinct = serves.distinct;
        answers = serves.answers;
        healthy = serves.healthy;
      } in
      rw
        (udp_server_read_whole d.socket bytes 1024 (sender q) (content q) (map arrival qs ++ tail)
          full (omega arith) large are)
        (then-Returns (message-Served signed c can q (record d { socket = t }) r us.0 serves')
          λ e first.
            weaken-Returns
              (server_loop-Finished qs k (take 1024 (content q)) e (effect q r).0 last us.1
                first.serves first.replied.arrivals (omega (arith, length-take 1024 (content q)))
                (omega arith))
              λ ending later. record {
                same = later.same;
                ran = Ran-more q qs d.socket t r e (ended ending) refl refl first later.ran;
              })

  pub daemon_loop-Finished :
      (qs : List Message) (socket : Socket) {tail : List Arrival} {b : Bool}
      → Last tail b
      → All (Understood signed c can) qs
      → IsHealthy socket
      → socket.arrivals ≡ map arrival qs ++ tail
      → Returns
          (λ (o : Option Ending). (e : Ending) × (o ≡ some e) × Finished signed c b socket [] qs e)
          (daemon_loop signed c (some socket))
  unfolding daemon_loop get_pkt
  daemon_loop-Finished qs socket {tail} last us healthy are =
      let more : length socket.arrivals ≡ length qs + length tail =
        ap length are
        ∙ length-append (map arrival qs) tail
        ∙ ap (λ (n : ℕ). n + length tail) (length-arrivals qs) in
      then-Returns
        (server_loop-Finished qs (suc (length socket.arrivals)) get_pkt.bytes
          (record { list = init_list; memory = empty_memory; socket = socket }) [] last us
          (record { stores = Stores-init; distinct = tt; answers = tt; healthy = healthy }) are
          (length-zeros 1024) (omega (arith, more)))
        λ e finished. returns (e, refl, finished)

  -- If the two answers without a service can be built, then a daemon on a healthy socket whose
  -- datagrams are all understood (of the size of a packet, and requests with both names that it can
  -- serve, or no requests) serves all of them: it ends up waiting, with the registry that the
  -- specification has after these messages, and the datagrams sent are the replies of the
  -- specification, in order, each to the sender of its request.
  pub daemon_loop-Waits :
      (qs : List Message) (socket : Socket)
      → All (Understood signed c can) qs
      → IsHealthy socket
      → socket.arrivals ≡ map arrival qs
      → Returns
          (λ (o : Option Ending). (e : Ending) × (o ≡ some e) × Waits signed c socket [] qs e)
          (daemon_loop signed c (some socket))
  daemon_loop-Waits qs socket us healthy are =
      weaken-Returns
        (daemon_loop-Finished qs socket none_left us healthy
          (are ∙ sym (append-nil (map arrival qs))))
        λ o (e, same, finished). (e, same, Waits-of_Finished e finished)
    where
      Waits-of_Finished :
          (e : Ending) → Finished signed c false socket [] qs e → Waits signed c socket [] qs e
      Waits-of_Finished (waiting d) finished = finished.ran
      Waits-of_Finished (stopped d) finished =
          absurd (let same = finished.same in ground (arith, same))
