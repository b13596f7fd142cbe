-- ===== src/Testing/LifetimeExamples.antt =====
-- A service that is registered again and withdrawn, with a daemon that holds it.
use mini_service_discover.Base.{◌≡◌, refl, false, if◌then◌else◌, some, [], ◌∷◌, arith}
use mini_service_discover.Base.Outcome.{done, Returns, Returns-value}
use mini_service_discover.CString.{codes}
use mini_service_discover.ServiceList.{success, failure}
use mini_service_discover.ServiceList.Registry.{contains, register, erase}
use mini_service_discover.Protocol.{unregister_service, Packet}
use mini_service_discover.Protocol.Build.{get_unregister_pkt}
use mini_service_discover.Protocol.RoundTrip.{Carries, service}
use mini_service_discover.Protocol.Packets.{get_unregister_pkt-Carries}
use mini_service_discover.Register.Called.{left_open}
use mini_service_discover.Register.Unregistration.{
  Unregistered, unregister_at, unregister_at-Unregistered,
}
use mini_service_discover.System.Lifetime.{Withdrawn, withdraw, withdraw-Withdrawn}
use mini_service_discover.Testing.PlainJson.{plain_json}
use mini_service_discover.Testing.PlainLaws.{plain_laws}
use mini_service_discover.Testing.Data.{
  box, music, host, note, box_service, box-IsField, music-IsField, host-IsField, note-IsField,
  box_service-CanSend, names-CanSend, no_reason-CanSend, not_found-CanSend,
}
use mini_service_discover.Testing.LocalExamples.{interfaces}
use mini_service_discover.Testing.CallExamples.{found_machine, held, inet_addr}
use mini_service_discover.Testing.InquiryExamples.{daemon, daemon-Serves}
use mini_service_discover.Testing.SystemExamples.{offering, found_machine-IsAble}

withdrawing :
    (pkt : Packet) × (get_unregister_pkt false plain_json (some box) (some music) ≡ done pkt)
    × Carries plain_json unregister_service (service box music (codes "") (codes "") 0) pkt
withdrawing = Returns-value (
    get_unregister_pkt-Carries false plain_json plain_laws box music (box-IsField, music-IsField)
      names-CanSend)

unregister_at-Unregistered_example :
    Returns
      (Unregistered plain_json inet_addr false withdrawing.0 found_machine
        (if contains box music (box_service ∷ []) then success else failure)
        (erase box music (box_service ∷ []))
        (left_open 3 held))
      (unregister_at plain_json inet_addr false box music 9 withdrawing.0 daemon found_machine held)
unregister_at-Unregistered_example =
    unregister_at-Unregistered plain_json inet_addr false plain_laws no_reason-CanSend
      not_found-CanSend box music 9 withdrawing.0 daemon (box_service ∷ []) found_machine 3
      interfaces held (box-IsField, music-IsField) names-CanSend withdrawing.1 daemon-Serves
      found_machine-IsAble.has found_machine-IsAble.limits refl refl

withdraw-Withdrawn_example :
    Returns
      (Withdrawn plain_json inet_addr false offering.0 withdrawing.0 found_machine found_machine
        (register box music box_service (box_service ∷ []))
        (erase box music (box_service ∷ []))
        (left_open 3 held)
        (left_open 3 held))
      (withdraw plain_json inet_addr false box_service box music 9 8 offering.0 withdrawing.0 daemon
        found_machine found_machine held held)
withdraw-Withdrawn_example =
    withdraw-Withdrawn plain_json inet_addr false plain_laws no_reason-CanSend not_found-CanSend box
      music host note 80 9 8 offering.0 withdrawing.0 daemon (box_service ∷ []) found_machine
      found_machine 3 3 interfaces interfaces held held
      (box-IsField, music-IsField, host-IsField, note-IsField) (omega arith) box_service-CanSend
      names-CanSend offering.1 withdrawing.1 daemon-Serves found_machine-IsAble found_machine-IsAble
