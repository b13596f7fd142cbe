-- ===== src/Testing/DaemonExamples.antt =====
-- The daemon on the packets of two clients.
use mini_service_discover.Base.{◌≡◌, refl, false, some, Option, List, [], ◌∷◌, All, arith}
use mini_service_discover.Base.Outcome.{done, Returns, Returns-value}
use mini_service_discover.CString.{codes}
use mini_service_discover.Memory.{empty_memory}
use mini_service_discover.ServiceList.{init_list}
use mini_service_discover.ServiceList.Stores.{Stores-init}
use mini_service_discover.Protocol.{register_service, inquiry, action_succ, Packet}
use mini_service_discover.Protocol.Build.{get_register_pkt, get_inquiry_pkt, get_inquiry_result_pkt}
use mini_service_discover.Protocol.RoundTrip.{Carries, service}
use mini_service_discover.Protocol.Packets.{
  get_register_pkt-Carries, get_inquiry_result_pkt-Carries, get_inquiry_pkt-Carries,
}
use mini_service_discover.Udp.{datagram, Arrival, Socket}
use mini_service_discover.Daemon.{Daemon, is_request, Ending, handle_pkt, daemon_loop}
use mini_service_discover.Daemon.Spec.{step, Built, Serves}
use mini_service_discover.Daemon.Handlers.{CanAnswer, Served}
use mini_service_discover.Daemon.Refines.{handle_pkt-step}
use mini_service_discover.Daemon.Messages.{Message, request, Waits}
use mini_service_discover.Daemon.Run.{daemon_loop-Waits}
use mini_service_discover.Daemon.Understood.{Understood}
use mini_service_discover.Daemon.Process.{run_daemon}
use mini_service_discover.Daemon.Over.{Over, new_socket, run_daemon-Over}
use mini_service_discover.Daemon.Messages.{empty}
use mini_service_discover.Udp.{count}
use mini_service_discover.Resources.{Resources}
use mini_service_discover.Daemon.Clients.{
  Built-of_IsWhole, CanAnswer-of_CanSend, Understood-of_Carries, BothServed, register-inquiry,
}
use mini_service_discover.Testing.PlainJson.{plain_json}
use mini_service_discover.Testing.PlainLaws.{plain_laws}
use mini_service_discover.Testing.Data.{
  box, music, host, note, box_service, box-IsField, music-IsField, host-IsField, note-IsField,
  box_service-CanSend, music-CanSend, no_reason-CanSend, not_found-CanSend,
}

can : CanAnswer false plain_json
can = CanAnswer-of_CanSend false plain_json plain_laws no_reason-CanSend not_found-CanSend

built_register :
    (pkt : Packet) × (get_register_pkt false plain_json
        (some box)
        (some music)
        (some host)
        80
        (some note)
      ≡ done pkt)
    × Carries plain_json register_service box_service pkt
built_register = Returns-value (
    get_register_pkt-Carries false plain_json plain_laws box music host note 80
      (box-IsField, music-IsField, host-IsField, note-IsField) (omega arith) box_service-CanSend)

built_inquiry :
    (pkt : Packet) × (get_inquiry_pkt false plain_json (some music) ≡ done pkt)
    × Carries plain_json inquiry (service (codes "") music (codes "") (codes "") 0) pkt
built_inquiry =
    Returns-value
      (get_inquiry_pkt-Carries false plain_json plain_laws music music-IsField music-CanSend)

result-Built : Built (get_inquiry_result_pkt false plain_json box_service)
result-Built =
    Built-of_IsWhole (get_inquiry_result_pkt false plain_json box_service)
      (Carries plain_json action_succ box_service) (λ pkt t. t.0)
      (get_inquiry_result_pkt-Carries false plain_json plain_laws box music host note 80
        (box-IsField, music-IsField, host-IsField, note-IsField) (omega arith) box_service-CanSend)

abbrev socket_with : List Arrival → Socket
socket_with arrivals = record { addrfrom = 0; arrivals = arrivals; send_results = []; sent = [] }

abbrev new_daemon : List Arrival → Daemon
new_daemon arrivals = record {
  list = init_list;
  memory = empty_memory;
  socket = socket_with arrivals;
}

new_daemon-Serves : Serves false plain_json (new_daemon []) []
new_daemon-Serves = record { stores = Stores-init; distinct = tt; answers = tt; healthy = refl }

handle_pkt-step_example :
    Returns
      (Served false plain_json can
        (socket_with [])
        (step register_service box music box_service []).0
        (step register_service box music box_service []).1)
      (handle_pkt false plain_json built_register.0 (new_daemon []))
unfolding is_request
handle_pkt-step_example =
    handle_pkt-step false plain_json can built_register.0 register_service (new_daemon []) []
      box_service box music built_register.2.1 refl built_register.2.2 (refl, refl) result-Built
      new_daemon-Serves

abbrev one_message : List Message
one_message = request 3 built_register.0.bytes register_service box_service box music ∷ []

one_message-Understood : All (Understood false plain_json can) one_message
unfolding is_request
one_message-Understood = (
  Understood-of_Carries false plain_json plain_laws can 3 register_service box music box_service
      built_register.0 built_register.2 refl (refl, refl) result-Built,
  tt,
)

daemon_loop-Waits_example :
    Returns
      (λ (o : Option Ending).
        (e : Ending) × (o ≡ some e)
        × Waits false plain_json
            (socket_with (datagram 3 built_register.0.bytes ∷ []))
            []
            one_message
            e)
      (daemon_loop false plain_json (some (socket_with (datagram 3 built_register.0.bytes ∷ []))))
daemon_loop-Waits_example =
    daemon_loop-Waits false plain_json can one_message
      (socket_with (datagram 3 built_register.0.bytes ∷ [])) one_message-Understood refl refl

abbrev idle : Resources
idle = record { sockets = []; clients = 0; packets = 0; servers = 0 }

-- The registration, then an empty datagram from another sender, and one more.
run_daemon-Over_example :
    Returns
      (Over false plain_json
        (new_socket (datagram 3 built_register.0.bytes ∷ datagram 4 [] ∷ datagram 5 (1 ∷ []) ∷ []))
        one_message
        idle)
      (run_daemon false plain_json
        (count 7)
        (count 0)
        (datagram 3 built_register.0.bytes ∷ datagram 4 [] ∷ datagram 5 (1 ∷ []) ∷ [])
        []
        idle)
run_daemon-Over_example =
    run_daemon-Over false plain_json can 7 0 one_message (datagram 4 [] ∷ datagram 5 (1 ∷ []) ∷ [])
      idle one_message-Understood (empty 4 (datagram 5 (1 ∷ []) ∷ []))

abbrev two_arrivals : List Arrival
two_arrivals = datagram 3 built_register.0.bytes ∷ datagram 4 built_inquiry.0.bytes ∷ []

register-inquiry_example :
    Returns
      (BothServed false plain_json plain_laws box music host note 80 3 4)
      (daemon_loop false plain_json (some (socket_with two_arrivals)))
register-inquiry_example =
    register-inquiry false plain_json plain_laws box music host note 80
      (box-IsField, music-IsField, host-IsField, note-IsField) (omega arith) no_reason-CanSend
      not_found-CanSend box_service-CanSend music-CanSend 3 4 built_register.0 built_inquiry.0
      (socket_with two_arrivals) built_register.1 built_inquiry.1 refl refl refl
