-- ===== src/Testing/ThreadExamples.antt =====
-- A run of the two threads: the first host is sent to, and an answer comes while the second packet is
-- about to be sent.
use mini_service_discover.Base.{◌+◌, ◌<◌, ◌≤◌, ◌≡◌, ◌↔◌, ◌⊎◌, refl, true, [], ◌∷◌, length}
use mini_service_discover.Subnet.Hosts.{from_on}
use mini_service_discover.Client.Threads.{
  testing, sending, ended, broken, reading, is_pkt_freed, Step, Threads, reset, go_on, send, answer,
  start, Steps, none_yet, later,
}
use mini_service_discover.Client.Termination.{sender_steps, Steps-sender_steps}
use mini_service_discover.Client.Interleavings.{Steps-from_on, Steps-ending}
use mini_service_discover.Client.Broken.{Steps-broken}

abbrev answered : Threads
answered = record { sender = sending 2; reader = reading; read_end = true; hosts = 1 ∷ [] }

abbrev stopping : Threads
stopping = record { sender = testing 3; reader = reading; read_end = true; hosts = 1 ∷ 2 ∷ [] }

start-Steps : Steps start answered
start-Steps =
    later
      (later
        (later (later (later none_yet (reset refl refl)) (go_on 1 refl refl refl))
          (send 1 refl refl))
        (go_on 2 refl refl refl))
      (answer refl)

answered-Steps : Steps answered stopping
answered-Steps = later none_yet (send 2 refl refl)

Steps-from_on_example : (answered.hosts ≡ from_on 1 1) × (length answered.hosts ≤ 254)
Steps-from_on_example = Steps-from_on answered start-Steps

Steps-ending_example : length stopping.hosts ≤ length answered.hosts + 1
Steps-ending_example = Steps-ending answered stopping answered-Steps refl

Steps-broken_example :
    (7 < 254) ↔ ((t : Threads) × Steps start t × (t.sender ≡ broken) × (t.hosts ≡ from_on 1 7))
Steps-broken_example = Steps-broken 7

Steps-sender_steps_example :
    (sender_steps start-Steps ≤ 509)
    × ((answered.sender ≡ ended)
        ⊎ ((answered.sender ≡ broken) × (is_pkt_freed answered.reader ≡ true))
        ⊎ ((t : Threads) × (st : Step answered t) × (sender_steps (later start-Steps st)
              ≡ sender_steps start-Steps + 1)))
Steps-sender_steps_example = Steps-sender_steps answered start-Steps
