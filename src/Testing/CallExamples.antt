-- ===== src/Testing/CallExamples.antt =====
-- Whole calls of the client library, on a machine whose network holds one answer.
use mini_service_discover.Base.{ℕ, refl, true, false, inl, some, List, [], ◌∷◌, ltb, length, arith}
use mini_service_discover.Base.Outcome.{Returns}
use mini_service_discover.CString.{Str, codes}
use mini_service_discover.Protocol.{Action}
use mini_service_discover.Protocol.Build.{get_register_pkt, get_unregister_pkt}
use mini_service_discover.Protocol.RoundTrip.{service}
use mini_service_discover.Udp.{Ret, count, minus_one, Arrival, datagram, receive_error}
use mini_service_discover.Resources.{Resources}
use mini_service_discover.Subnet.Open.{Machine}
use mini_service_discover.Client.Call.{inquiry_service}
use mini_service_discover.Client.Called.{Found, inquiry_service-Found}
use mini_service_discover.Register.Call.{register_service, unregister_service}
use mini_service_discover.Register.Called.{
  Requested, register_service-Requested, unregister_service-Requested,
}
use mini_service_discover.Register.Closed.{Refused, register_service-Refused}
use mini_service_discover.Testing.PlainJson.{plain_json}
use mini_service_discover.Testing.PlainLaws.{plain_laws}
use mini_service_discover.Testing.Data.{
  box, music, host, note, box_service, box-IsField, music-IsField, host-IsField, note-IsField,
  box_service-CanSend, music-CanSend, names-CanSend,
}
use mini_service_discover.Testing.ClientExamples.{
  answer_pkt, verdict_pkt, socket_with, one_answer, one_answer-Holds, one_verdict,
  one_verdict-IsVerdict,
}
use mini_service_discover.Testing.LocalExamples.{interfaces, interfaces-HasAddress}

abbrev machine : Ret → List Arrival → Machine
machine sock arrivals = record {
  sock = sock;
  send_limit = count 0;
  receive_limit = count 0;
  broadcast_option = count 0;
  interfaces = some interfaces;
  socket = socket_with arrivals;
  read_end = λ i. ltb 2 i;
  sender_ends_first = true;
}

abbrev pub found_machine : Machine
found_machine = machine (count 3) (datagram 5 answer_pkt.0.bytes ∷ receive_error ∷ [])

abbrev verdict_machine : Machine
verdict_machine = machine (count 3) (datagram 5 verdict_pkt.0.bytes ∷ receive_error ∷ [])

abbrev pub held : Resources
held = record { sockets = 1 ∷ []; clients = 0; packets = 0; servers = 0 }

abbrev pub inet_addr : Str → ℕ
inet_addr text = length text

inquiry_service-Found_example :
    Returns
      (Found plain_json inet_addr false music found_machine interfaces one_answer held)
      (inquiry_service plain_json inet_addr false (some music) found_machine held)
inquiry_service-Found_example =
    inquiry_service-Found plain_json inet_addr false plain_laws music found_machine 3 interfaces
      one_answer [] held music-IsField music-CanSend
      (record { sock = refl; interfaces = refl; addresses = interfaces-HasAddress }) refl refl
      one_answer-Holds refl (record { sends = refl; receives = refl })

register_service-Requested_example :
    Returns
      (Requested plain_json inet_addr
        (get_register_pkt false plain_json (some box) (some music) (some host) 80 (some note))
        Action.register_service
        box_service
        verdict_machine
        3
        interfaces
        one_verdict
        held)
      (register_service plain_json inet_addr false
        (some box)
        (some music)
        (some host)
        80
        (some note)
        verdict_machine
        held)
register_service-Requested_example =
    register_service-Requested plain_json inet_addr verdict_machine 3 interfaces one_verdict [] held
      (record { sock = refl; interfaces = refl; addresses = interfaces-HasAddress })
      (record { sends = refl; receives = refl }) refl refl one_verdict-IsVerdict refl false
      plain_laws box music host note 80 (box-IsField, music-IsField, host-IsField, note-IsField)
      (omega arith) box_service-CanSend

unregister_service-Requested_example :
    Returns
      (Requested plain_json inet_addr
        (get_unregister_pkt false plain_json (some box) (some music))
        Action.unregister_service
        (service box music (codes "") (codes "") 0)
        verdict_machine
        3
        interfaces
        one_verdict
        held)
      (unregister_service plain_json inet_addr false (some box) (some music) verdict_machine held)
unregister_service-Requested_example =
    unregister_service-Requested plain_json inet_addr verdict_machine 3 interfaces one_verdict []
      held (record { sock = refl; interfaces = refl; addresses = interfaces-HasAddress })
      (record { sends = refl; receives = refl }) refl refl one_verdict-IsVerdict refl false
      plain_laws box music (box-IsField, music-IsField) names-CanSend

-- The time limit for sending cannot be set.
abbrev limited_machine : Machine
limited_machine = record (machine (count 3) []) { send_limit = minus_one }

register_service-Refused_example : Returns (Refused limited_machine held) (
    register_service plain_json inet_addr false
      (some box)
      (some music)
      (some host)
      80
      (some note)
      limited_machine
      held)
register_service-Refused_example =
    register_service-Refused plain_json inet_addr limited_machine 3 interfaces held
      (record { sock = refl; interfaces = refl; addresses = interfaces-HasAddress }) (inl refl) refl
      false plain_laws box music host note 80
      (box-IsField, music-IsField, host-IsField, note-IsField) (omega arith) box_service-CanSend
