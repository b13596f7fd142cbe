-- ===== src/Testing/SystemExamples.antt =====
-- A registration with a daemon that holds nothing, and an inquiry for the service.
use mini_service_discover.Base.{◌≡◌, refl, false, some, [], arith}
use mini_service_discover.Base.Outcome.{done, Returns, Returns-value}
use mini_service_discover.Memory.{empty_memory}
use mini_service_discover.ServiceList.{init_list}
use mini_service_discover.ServiceList.Registry.{register}
use mini_service_discover.ServiceList.Stores.{Stores-init}
use mini_service_discover.Protocol.{register_service, Packet}
use mini_service_discover.Protocol.Build.{get_register_pkt}
use mini_service_discover.Protocol.RoundTrip.{Carries}
use mini_service_discover.Protocol.Packets.{get_register_pkt-Carries}
use mini_service_discover.Daemon.{Daemon}
use mini_service_discover.Daemon.Spec.{Serves}
use mini_service_discover.Register.Called.{left_open}
use mini_service_discover.Register.Conversation.{register_at, Registered, register_at-Registered}
use mini_service_discover.System.{IsAble, Discovered, discover, discover-Discovered}
use mini_service_discover.Testing.PlainJson.{plain_json}
use mini_service_discover.Testing.PlainLaws.{plain_laws}
use mini_service_discover.Testing.Data.{
  box, music, host, note, box_service, box-IsField, music-IsField, host-IsField, note-IsField,
  box_service-CanSend, music-CanSend, no_reason-CanSend, not_found-CanSend,
}
use mini_service_discover.Testing.ClientExamples.{socket_with}
use mini_service_discover.Testing.LocalExamples.{interfaces, interfaces-HasAddress}
use mini_service_discover.Testing.CallExamples.{found_machine, held, inet_addr}
use mini_service_discover.Testing.InquiryExamples.{asking}

abbrev new_daemon : Daemon
new_daemon = record { list = init_list; memory = empty_memory; socket = socket_with [] }

new_daemon-Serves : Serves false plain_json new_daemon []
new_daemon-Serves = record { stores = Stores-init; distinct = tt; answers = tt; healthy = refl }

pub offering :
    (pkt : Packet) × (get_register_pkt false plain_json
        (some box)
        (some music)
        (some host)
        80
        (some note)
      ≡ done pkt)
    × Carries plain_json register_service box_service pkt
offering = Returns-value (
    get_register_pkt-Carries false plain_json plain_laws box music host note 80
      (box-IsField, music-IsField, host-IsField, note-IsField) (omega arith) box_service-CanSend)

pub found_machine-IsAble : IsAble found_machine 3 interfaces
found_machine-IsAble = record {
  has = record { sock = refl; interfaces = refl; addresses = interfaces-HasAddress };
  limits = record { sends = refl; receives = refl };
  healthy = refl;
  in_time = refl;
}

register_at-Registered_example :
    Returns
      (Registered plain_json inet_addr false offering.0 found_machine
        (register box music box_service [])
        (left_open 3 held))
      (register_at plain_json inet_addr false box_service 9 offering.0 new_daemon found_machine
        held)
register_at-Registered_example =
    register_at-Registered plain_json false plain_laws no_reason-CanSend inet_addr not_found-CanSend
      box music host note 80 9 offering.0 new_daemon [] found_machine 3 interfaces held
      (box-IsField, music-IsField, host-IsField, note-IsField) (omega arith) box_service-CanSend
      offering.1 new_daemon-Serves found_machine-IsAble.has found_machine-IsAble.limits refl refl

discover-Discovered_example :
    Returns
      (Discovered plain_json inet_addr false music offering.0 asking.0 found_machine found_machine
        (register box music box_service [])
        (left_open 3 held)
        held)
      (discover plain_json inet_addr false box_service music 9 8 offering.0 asking.0 new_daemon
        found_machine found_machine held held)
discover-Discovered_example =
    discover-Discovered plain_json inet_addr false plain_laws no_reason-CanSend not_found-CanSend
      box music host note 80 music 9 8 offering.0 asking.0 new_daemon [] found_machine found_machine
      3 3 interfaces interfaces held held
      (box-IsField, music-IsField, host-IsField, note-IsField, music-IsField) (omega arith)
      box_service-CanSend music-CanSend offering.1 asking.1 new_daemon-Serves tt
      found_machine-IsAble found_machine-IsAble
