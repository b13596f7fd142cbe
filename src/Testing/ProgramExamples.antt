-- ===== src/Testing/ProgramExamples.antt =====
-- The program of c/test/client.c with one answer, and a registration with an info that is too long.
use mini_service_discover.Base.{◌≡◌, refl, false, some, [], All, replicate, arith}
use mini_service_discover.Base.Outcome.{undefined, Returns}
use mini_service_discover.CString.{Str, codes}
use mini_service_discover.CString.Laws.{IsCString-of_all}
use mini_service_discover.ServiceList.Registry.{register, erase}
use mini_service_discover.Protocol.Build.{service_tree}
use mini_service_discover.Protocol.RoundTrip.{CanSend}
use mini_service_discover.Client.Answers.{collect}
use mini_service_discover.Client.Call.{inquiry_service}
use mini_service_discover.Register.Call.{register_service}
use mini_service_discover.Programs.{play_music, client_main}
use mini_service_discover.Programs.Printed.{HasTexts, Printed, client_main-Printed}
use mini_service_discover.Programs.Long.{register_service-long}
use mini_service_discover.Testing.PlainJson.{object_code, plain_json}
use mini_service_discover.Testing.PlainLaws.{plain_laws}
use mini_service_discover.Testing.Data.{
  box, music, host, box-IsField, music-IsField, host-IsField, can_send,
}
use mini_service_discover.Testing.ClientExamples.{one_answer, one_answer-Holds}
use mini_service_discover.Testing.LocalExamples.{interfaces, interfaces-HasAddress}
use mini_service_discover.Testing.CallExamples.{found_machine, held, inet_addr}

play_music-CanSend :
    CanSend false plain_json (service_tree plain_json (codes "") play_music (codes "") (codes "") 0)
unfolding object_code service_tree
play_music-CanSend =
    can_send (service_tree plain_json (codes "") play_music (codes "") (codes "") 0) (omega arith)

one_answer-HasTexts : All HasTexts (collect one_answer [])
unfolding collect register erase
one_answer-HasTexts = (record { device_name = tt; ip = tt; info = tt }, tt)

client_main-Printed_example :
    Returns
      (Printed
        (inquiry_service plain_json inet_addr false (some play_music) found_machine held)
        (collect one_answer [])
        held)
      (client_main plain_json inet_addr false found_machine held)
client_main-Printed_example =
    client_main-Printed plain_json inet_addr false plain_laws found_machine 3 interfaces one_answer
      [] held play_music-CanSend
      (record { sock = refl; interfaces = refl; addresses = interfaces-HasAddress })
      (record { sends = refl; receives = refl }) refl refl one_answer-Holds refl one_answer-HasTexts

abbrev long_info : Str
long_info = replicate 120 97

register_service-long_example :
    register_service plain_json inet_addr false
      (some box)
      (some music)
      (some host)
      80
      (some long_info)
      found_machine
      held
    ≡ undefined
register_service-long_example =
    register_service-long plain_json inet_addr false found_machine 3 interfaces held
      (record { sock = refl; interfaces = refl; addresses = interfaces-HasAddress }) box music host
      long_info 80 (box-IsField, music-IsField, host-IsField, IsCString-of_all long_info refl)
      (omega arith)
