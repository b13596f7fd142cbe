-- ===== src/Daemon/Messages.antt =====
-- Runs of the daemon of c/provider/daemon.c as the specification sees them: messages, the registry
-- after them, and the datagrams that answer them.
use mini_service_discover.Base.{ℕ, ◌≡◌, refl, Bool, true, false, List, [], ◌∷◌, ◌++◌, map, take}
use mini_service_discover.Base.Outcome.{done}
use mini_service_discover.CString.{Str}
use mini_service_discover.Memory.{ServiceInfo}
use mini_service_discover.ServiceList.Registry.{Registry}
use mini_service_discover.Protocol.{Action, Packet}
use mini_service_discover.Protocol.Cjson.{Cjson}
use mini_service_discover.Udp.{Addr, Datagram, Arrival, datagram, receive_error, Socket}
use mini_service_discover.Daemon.{Daemon, Ending, waiting, stopped}
use mini_service_discover.Daemon.Spec.{Reply, step, reply_pkt, Serves, ArePackets}

-- A datagram: its sender, its bytes, and what it asks for, if it asks for something.
pub data Message : Type 0 where
  request : Addr → List ℕ → Action → ServiceInfo → Str → Str → Message
  ignored : Addr → List ℕ → Message

abbrev pub sender : Message → Addr
sender (request from bytes type i dev svc) = from
sender (ignored from bytes) = from

abbrev pub content : Message → List ℕ
content (request from bytes type i dev svc) = bytes
content (ignored from bytes) = bytes

abbrev pub arrival : Message → Arrival
arrival q = datagram (sender q) (content q)

abbrev pub effect : Message → Registry → Registry × List Reply
effect (request from bytes type i dev svc) r = step type dev svc i r
effect (ignored from bytes) r = (r, [])

-- The registry after all messages, and all replies, each with its receiver.
unfoldable pub run : List Message → Registry → Registry
run [] r = r
run (q ∷ qs) r = run qs (effect q r).0

abbrev pub replies_to : Addr → List Reply → List (Addr × Reply)
replies_to to [] = []
replies_to to (a ∷ replies) = (to, a) ∷ replies_to to replies

unfoldable pub run_replies : List Message → Registry → List (Addr × Reply)
run_replies [] r = []
run_replies (q ∷ qs) r = replies_to (sender q) (effect q r).1 ++ run_replies qs (effect q r).0

-- what the daemon sees of a datagram
abbrev pub received : List ℕ → Packet
received bytes = record { bytes = take 1024 bytes; len = 1024 }

-- What arrives where no packet does, and whether the daemon then stops: nothing, for which it waits,
-- an empty datagram, or an error.
pub data Last : List Arrival → Bool → Type 0 where
  none_left : Last [] false
  empty : (from : Addr) (rest : List Arrival) → Last (datagram from [] ∷ rest) true
  failed : (rest : List Arrival) → Last (receive_error ∷ rest) true

abbrev pub is_stopped : Ending → Bool
is_stopped (stopped d) = true
is_stopped (waiting d) = false

abbrev pub ended : Ending → Daemon
ended (stopped d) = d
ended (waiting d) = d

module _ (signed : Bool) (c : Cjson) where
  -- These datagrams are the replies, in order.
  abbrev pub AreDatagrams : List (Addr × Reply) → List Datagram → Type 0
  AreDatagrams [] [] = Unit
  AreDatagrams [] (p ∷ ps) = ⊥
  AreDatagrams (q ∷ qs) [] = ⊥
  AreDatagrams (q ∷ qs) (p ∷ ps) =
      ((p.0 ≡ q.0) × (pkt : Packet) × (reply_pkt signed c q.1 ≡ done pkt) × (p.1 ≡ pkt.bytes))
      × AreDatagrams qs ps

  pub AreDatagrams-append :
      (qs rs : List (Addr × Reply)) (ps os : List Datagram)
      → AreDatagrams qs ps
      → AreDatagrams rs os
      → AreDatagrams (qs ++ rs) (ps ++ os)
  AreDatagrams-append [] rs [] os a b = b
  AreDatagrams-append [] rs (p ∷ ps) os a b = absurd a
  AreDatagrams-append (q ∷ qs) rs [] os a b = absurd a
  AreDatagrams-append (q ∷ qs) rs (p ∷ ps) os a b = (a.0, AreDatagrams-append qs rs ps os a.1 b)

  pub AreDatagrams-of_ArePackets :
      (to : Addr) (replies : List Reply) (packets : List Packet)
      → ArePackets signed c replies packets
      → AreDatagrams (replies_to to replies) (map (λ (p : Packet). (to, p.bytes)) packets)
  AreDatagrams-of_ArePackets to [] [] a = tt
  AreDatagrams-of_ArePackets to [] (p ∷ packets) a = absurd a
  AreDatagrams-of_ArePackets to (q ∷ replies) [] a = absurd a
  AreDatagrams-of_ArePackets to (q ∷ replies) (p ∷ packets) a =
      ((refl, p, a.0, refl), AreDatagrams-of_ArePackets to replies packets a.1)

  -- The daemon after all messages.
  pub record Ran (s : Socket) (r : Registry) (qs : List Message) (d : Daemon) : Type 0 where
    pub serves : Serves signed c d (run qs r)
    pub log : List Datagram
    pub are : AreDatagrams (run_replies qs r) log
    pub sent : d.socket.sent ≡ s.sent ++ log

  abbrev pub Waits : Socket → Registry → List Message → Ending → Type 0
  Waits s r qs (waiting d) = Ran s r qs d
  Waits s r qs (stopped d) = ⊥

  -- The loop ended in this way, after all messages.
  pub record Finished (b : Bool) (s : Socket) (r : Registry) (qs : List Message) (e : Ending)
      : Type 0 where
    pub same : is_stopped e ≡ b
    pub ran : Ran s r qs (ended e)
