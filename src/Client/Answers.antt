-- ===== src/Client/Answers.antt =====
-- What `check_result` of c/provider/client.c makes of the answers that arrive.
use mini_service_discover.Base.{
  ℕ, zero, suc, ◌+◌, ◌≤◌, ◌<◌, ◌≡◌, refl, ap, ◌∙◌, Bool, true, false, Option, none, some, List, [],
  ◌∷◌, ◌++◌, map, if◌then◌else◌, length, All, arith, take, length-take, length-append,
}
use mini_service_discover.Base.Outcome.{done, Returns, returns, then-Returns, weaken-Returns}
use mini_service_discover.CString.{Str, CharPtr}
use mini_service_discover.Memory.{ServiceInfo, Memory, put_info, new_info, empty_memory}
use mini_service_discover.Memory.Laws.{update-ne, update_self}
use mini_service_discover.Buffer.Laws.{length-zeros}
use mini_service_discover.ServiceList.{init_list}
use mini_service_discover.ServiceList.Registry.{Registry, register}
use mini_service_discover.ServiceList.Registry.Laws.{HasNames}
use mini_service_discover.ServiceList.Stores.{Stores, Stores-init, Stores-frame, list_add-Stores}
use mini_service_discover.Protocol.{
  action_succ, action_fail, action_invalid, Packet, get_pkt, decode_action,
}
use mini_service_discover.Protocol.Cjson.{Cjson}
use mini_service_discover.Protocol.Decode.{get_service_info, get_result}
use mini_service_discover.Udp.{
  Addr, Arrival, datagram, receive_error, is_positive, Socket, returned, minus_one, receive_loop,
  udp_client_read, udp_server_read,
}
use mini_service_discover.Udp.Receive.{udp_server_read_whole}
use mini_service_discover.Client.{
  Client, add_found, after_client_read, handle_answer, read_answer, check_loop, check_result,
}

-- A datagram that holds a service, a failure, or nothing valid.
pub data Answer : Type 0 where
  service_found : Addr → List ℕ → ServiceInfo → Str → Str → Answer
  failed invalid : Addr → List ℕ → Answer

abbrev pub sender : Answer → Addr
sender (service_found from bytes i dev svc) = from
sender (failed from bytes) = from
sender (invalid from bytes) = from

abbrev pub content : Answer → List ℕ
content (service_found from bytes i dev svc) = bytes
content (failed from bytes) = bytes
content (invalid from bytes) = bytes

abbrev pub arrival : Answer → Arrival
arrival a = datagram (sender a) (content a)

-- what the client sees of a datagram
abbrev pub received : List ℕ → Packet
received bytes = record { bytes = take 1024 bytes; len = 1024 }

-- The services found, in the order in which they came, the last of each name.
unfoldable pub collect : List Answer → Registry → Registry
collect [] r = r
collect (service_found from bytes i dev svc ∷ answers) r = collect answers (register dev svc i r)
collect (failed from bytes ∷ answers) r = collect answers r
collect (invalid from bytes ∷ answers) r = collect answers r

abbrev pub is_some_answer : List Answer → Bool
is_some_answer [] = false
is_some_answer (a ∷ answers) = true

module _ (c : Cjson) where
  -- The datagram has the size of a packet, and holds what it is said to hold.
  abbrev pub Holds : Answer → Type 0
  Holds (service_found from bytes i dev svc) =
      (1024 ≤ length bytes)
      × (decode_action (received bytes) ≡ done action_succ)
      × (get_service_info c (received bytes) ≡ done (some i))
      × HasNames dev svc i
  Holds (failed from bytes) =
      (1024 ≤ length bytes)
      × (decode_action (received bytes) ≡ done action_fail)
      × (reason : Option CharPtr) × (get_result c (received bytes) ≡ done reason)
  Holds (invalid from bytes) =
      (1024 ≤ length bytes) × (decode_action (received bytes) ≡ done action_invalid)

  size : (a : Answer) → Holds a → 1024 ≤ length (content a)
  size (service_found from bytes i dev svc) h = h.0
  size (failed from bytes) h = h.0
  size (invalid from bytes) h = h.0

  -- The client once the loop has ended.
  pub record Collected (answers : List Answer) (rest : List Arrival) (cl : Client) (r : Registry)
      (e : Client) : Type 0 where
    pub stores : Stores e.memory.brk e.memory e.list (collect answers r)
    pub arrivals : e.socket.arrivals ≡ rest
    pub sent : e.socket.sent ≡ cl.socket.sent
    pub read_end : e.read_end ≡ (if is_some_answer answers then true else cl.read_end)

  abbrev pub Ended : List Answer → List Arrival → Client → Registry → Option Client → Type 0
  Ended answers rest cl r none = ⊥
  Ended answers rest cl r (some e) = Collected answers rest cl r e

  -- One answer, once it has been read.
  answered :
      (a : Answer) (cl : Client) (r : Registry)
      → Holds a
      → Stores cl.memory.brk cl.memory cl.list r
      → Returns
          (λ (e : Client).
            Stores e.memory.brk e.memory e.list (collect (a ∷ []) r)
            × (e.socket ≡ cl.socket)
            × (e.read_end ≡ cl.read_end))
          (read_answer c (received (content a)) cl)
  unfolding read_answer handle_answer add_found new_info collect
  answered (service_found from bytes i dev svc) cl r (large, told, parsed, names) st =
      let brk = cl.memory.brk in
      let m : Memory = put_info brk (some i) (record cl.memory { brk = brk + 1 }) in
      rw (told, parsed)
        (then-Returns
          (list_add-Stores brk m cl.list r dev svc brk i
            (Stores-frame brk brk cl.memory m cl.list r st (omega arith) (λ x lt. refl)
              λ x lt. update-ne cl.memory.infos (some i) (omega arith))
            (omega arith) (omega arith) (update_self cl.memory.infos brk (some i)) names)
          λ t (stores, infos, same). returns (
            Stores-frame (brk + 1 + 1) t.1.brk t.1 t.1 t.0 (register dev svc i r) stores
                (omega arith) (λ x lt. refl) (λ x lt. refl),
            refl,
            refl,
          ))
  answered (failed from bytes) cl r (large, told, reason, result) st =
      rw (told, result) (returns (st, refl, refl))
  answered (invalid from bytes) cl r (large, told) st = rw told (returns (st, refl, refl))

  pub time_out :
      (s : Socket) (buf : List ℕ) (rest : List Arrival)
      → s.arrivals ≡ receive_error ∷ rest
      → udp_client_read s buf 1024 ≡ done (returned minus_one buf (record s { arrivals = rest }))
  unfolding udp_client_read receive_loop
  time_out s buf rest next = ap (λ a. receive_loop 1024 s 0 buf a) next

  pub same_read :
      (s : Socket) (buf : List ℕ) (len : ℕ) → udp_client_read s buf len ≡ udp_server_read s buf len
  unfolding udp_client_read udp_server_read
  same_read s buf len = refl

  collect_first :
      (a : Answer) (answers : List Answer) (r : Registry)
      → collect (a ∷ answers) r ≡ collect answers (collect (a ∷ []) r)
  unfolding collect
  collect_first (service_found from bytes i dev svc) answers r = refl
  collect_first (failed from bytes) answers r = refl
  collect_first (invalid from bytes) answers r = refl

  flag :
      (answers : List Answer) (b : Bool)
      → b ≡ true
      → (if is_some_answer answers then true else b) ≡ true
  flag [] b h = h
  flag (a ∷ answers) b h = refl

  check_loop-Ended :
      (answers : List Answer) (rest : List Arrival) (k : ℕ) (bytes : List ℕ) (cl : Client)
      (r : Registry)
      → All Holds answers
      → Stores cl.memory.brk cl.memory cl.list r
      → cl.socket.arrivals ≡ map arrival answers ++ receive_error ∷ rest
      → length bytes ≡ 1024
      → length answers < k
      → Returns (Ended answers rest cl r) (check_loop c k bytes cl)
  unfolding check_loop after_client_read is_positive
  check_loop-Ended answers rest zero bytes cl r hs st next full fuel = absurd (omega arith)
  check_loop-Ended [] rest (suc k) bytes cl r hs st next full fuel =
      rw (time_out cl.socket bytes rest next) (
        returns
          (record { stores = unfold collect in st; arrivals = refl; sent = refl; read_end = refl }))
  check_loop-Ended (a ∷ answers) rest (suc k) bytes cl r hs st next full fuel =
      let large = size a hs.0 in
      let s : Socket = record cl.socket {
        addrfrom = sender a;
        arrivals = map arrival answers ++ receive_error ∷ rest;
      } in
      let cl' : Client = record cl { socket = s; read_end = true } in
      rw
        (
          same_read cl.socket bytes 1024,
          udp_server_read_whole cl.socket bytes 1024 (sender a) (content a)
              (map arrival answers ++ receive_error ∷ rest) full (omega arith) large next,
        )
        (then-Returns (answered a cl' r hs.0 st) λ e (st', same, ended).
          weaken-Returns
            (check_loop-Ended answers rest k (take 1024 (content a)) e (collect (a ∷ []) r) hs.1 st'
              (ap (λ (t : Socket). t.arrivals) same) (omega (arith, length-take 1024 (content a)))
              (omega arith))
            λ o later. after o e same ended later)
    where
      after :
          (o : Option Client) (e : Client)
          → e.socket ≡ record cl.socket {
            addrfrom = sender a;
            arrivals = map arrival answers ++ receive_error ∷ rest;
          }
          → e.read_end ≡ true
          → Ended answers rest e (collect (a ∷ []) r) o
          → Ended (a ∷ answers) rest cl r o
      after none e same ended later = absurd later
      after (some f) e same ended later = record {
        stores = rw (collect_first a answers r) later.stores;
        arrivals = later.arrivals;
        sent = later.sent ∙ ap (λ (t : Socket). t.sent) same;
        read_end = later.read_end ∙ flag answers e.read_end ended;
      }

  -- `check_result` of the client, on a socket where datagrams arrive that each hold a packet with a
  -- service that has both names, a failure or nothing valid, and then a read fails or times out,
  -- returns: its list stands for the services found, in order, each in place of one with the same
  -- names; what arrives later stays, nothing is sent, and `read_end` is set if there was an answer.
  pub check_result-Ended :
      (answers : List Answer) (rest : List Arrival) (socket : Socket)
      → All Holds answers
      → socket.arrivals ≡ map arrival answers ++ receive_error ∷ rest
      → Returns
          (Ended answers rest
            (record { list = init_list; memory = empty_memory; socket = socket; read_end = false })
            [])
          (check_result c socket)
  unfolding check_result get_pkt
  check_result-Ended answers rest socket hs next =
      check_loop-Ended answers rest (suc (length socket.arrivals)) get_pkt.bytes
        (record { list = init_list; memory = empty_memory; socket = socket; read_end = false }) []
        hs Stores-init next (length-zeros 1024)
        (omega (
          arith,
          ap length next,
          length-append (map arrival answers) (receive_error ∷ rest),
          length-arrivals answers,
        ))
    where
      length-arrivals : (answers : List Answer) → length (map arrival answers) ≡ length answers
      length-arrivals [] = refl
      length-arrivals (a ∷ answers) = ap suc (length-arrivals answers)
