-- ===== src/Client/Threads.antt =====
-- The two threads of `inquiry_service` and `write_and_get_result` in c/provider/client.c without
-- broadcast (register_service and unregister_service of c/provider/server.c start the same two): the
-- sender runs `udp_broadcast_data`, the reader runs `check_result` and then gives the packet and the
-- client back. They share the client, whose flag `read_end` the reader sets and the sender tests, and
-- the packet. What the sender does with freed memory is undefined, and it takes no step behind that.
use mini_service_discover.Base.{
  ℕ, ◌+◌, ◌≡◌, Bool, true, false, List, [], ◌∷◌, ◌++◌, ltb, if◌then◌else◌,
}

-- The sender, before `reset_sub_addr`; with `sub_ip` before the test of `read_end`, or before
-- `prepare_sub_addr` and the write; it has returned; or it has used freed memory.
pub data Sender : Type 0 where
  beginning : Sender
  testing sending : ℕ → Sender
  ended broken : Sender

-- The reader, in the loop of `check_result`, behind it, behind `free_pkt`, or behind
-- `deinit_udp_client` (which the calls of c/provider/server.c do not make).
pub data Reader : Type 0 where
  reading returned behind_pkt behind_client : Reader

-- The packet is freed, `client->data`.
abbrev pub is_pkt_freed : Reader → Bool
is_pkt_freed reading = false
is_pkt_freed returned = false
is_pkt_freed behind_pkt = true
is_pkt_freed behind_client = true

-- The client is freed, and the packet before it.
abbrev pub is_client_freed : Reader → Bool
is_client_freed reading = false
is_client_freed returned = false
is_client_freed behind_pkt = false
is_client_freed behind_client = true

-- What the next action of the sender uses is freed: all of them use the client, and the write the
-- packet too.
abbrev pub meets_freed : Sender → Reader → Bool
meets_freed beginning r = is_client_freed r
meets_freed (testing n) r = is_client_freed r
meets_freed (sending n) r = is_pkt_freed r
meets_freed ended r = false
meets_freed broken r = false

pub record Threads : Type 0 where
  pub sender : Sender
  pub reader : Reader
  pub read_end : Bool
  pub hosts : List ℕ

-- `sub_ip` after `prepare_sub_addr`, which says at 254 that it was the last.
abbrev pub after_host : ℕ → Sender
after_host n = if ltb n 254 then testing (n + 1) else ended

-- One step of either thread. `pthread_join` is not called, since `is_broadcast` is 0.
pub data Step (s : Threads) : Threads → Type 0 where
  reset :
      s.sender ≡ beginning
      → is_client_freed s.reader ≡ false
      → Step s (record s { sender = testing 1 })
  stop :
      (n : ℕ)
      → s.sender ≡ testing n
      → is_client_freed s.reader ≡ false
      → s.read_end ≡ true
      → Step s (record s { sender = ended })
  go_on :
      (n : ℕ)
      → s.sender ≡ testing n
      → is_client_freed s.reader ≡ false
      → s.read_end ≡ false
      → Step s (record s { sender = sending n })
  send :
      (n : ℕ)
      → s.sender ≡ sending n
      → is_pkt_freed s.reader ≡ false
      → Step s (record s { sender = after_host n; hosts = s.hosts ++ n ∷ [] })
  use_freed : meets_freed s.sender s.reader ≡ true → Step s (record s { sender = broken })
  answer : s.reader ≡ reading → Step s (record s { read_end = true })
  time_out : s.reader ≡ reading → Step s (record s { reader = returned })
  free_pkt : s.reader ≡ returned → Step s (record s { reader = behind_pkt })
  free_client : s.reader ≡ behind_pkt → Step s (record s { reader = behind_client })

-- The start: the thread is created, and `init_udp_client` has cleared the client.
abbrev pub start : Threads
start = record { sender = beginning; reader = reading; read_end = false; hosts = [] }

pub data Steps (s : Threads) : Threads → Type 0 where
  none_yet : Steps s s
  later : {t u : Threads} → Steps s t → Step t u → Steps s u
