-- ===== src/Testing/ClientExamples.antt =====
-- Clients: answers that arrive, and a packet for the hosts of a subnet.
use mini_service_discover.Base.{
  ◌≡◌, refl, true, false, none, some, List, [], ◌∷◌, ltb, length, All, arith,
}
use mini_service_discover.Base.Outcome.{done, Returns, Returns-value}
use mini_service_discover.CString.{codes}
use mini_service_discover.Protocol.{action_succ, Packet, decode_action}
use mini_service_discover.Protocol.Build.{get_inquiry_result_pkt, get_result_pkt}
use mini_service_discover.Protocol.Decode.{get_result}
use mini_service_discover.Protocol.RoundTrip.{IsField-of_all, Carries, IsWhole}
use mini_service_discover.Protocol.Packets.{get_inquiry_result_pkt-Carries}
use mini_service_discover.Protocol.Reasons.{reported, result_action, get_result_pkt-reported}
use mini_service_discover.Udp.{Arrival, Socket}
use mini_service_discover.Daemon.Clients.{received-IsWhole}
use mini_service_discover.Client.Answers.{Answer, service_found, Holds}
use mini_service_discover.Register.Verdict.{Verdict, IsVerdict}
use mini_service_discover.Subnet.{UdpClient, udp_broadcast_data}
use mini_service_discover.Subnet.Hosts.{from_on, rounds, Sent, udp_broadcast_data-Sent}
use mini_service_discover.Testing.PlainJson.{plain_json}
use mini_service_discover.Testing.PlainLaws.{plain_laws}
use mini_service_discover.Testing.Data.{
  box, music, host, note, box_service, box-IsField, music-IsField, host-IsField, note-IsField,
  box_service-CanSend, no_reason-CanSend,
}

pub answer_pkt :
    (pkt : Packet) × (get_inquiry_result_pkt false plain_json box_service ≡ done pkt)
    × Carries plain_json action_succ box_service pkt
answer_pkt = Returns-value (
    get_inquiry_result_pkt-Carries false plain_json plain_laws box music host note 80
      (box-IsField, music-IsField, host-IsField, note-IsField) (omega arith) box_service-CanSend)

pub verdict_pkt :
    (pkt : Packet) × (get_result_pkt false plain_json true (some (codes "")) ≡ done pkt)
    × (IsWhole pkt
        × (decode_action pkt ≡ done (result_action true))
        × (get_result plain_json pkt ≡ done (reported true (codes ""))))
verdict_pkt = Returns-value (
    get_result_pkt-reported false plain_json plain_laws true (codes "")
      (IsField-of_all (codes "") refl (omega arith)) no_reason-CanSend)

abbrev pub socket_with : List Arrival → Socket
socket_with arrivals = record { addrfrom = 0; arrivals = arrivals; send_results = []; sent = [] }

abbrev pub one_answer : List Answer
one_answer = service_found 5 answer_pkt.0.bytes box_service box music ∷ []

pub one_answer-Holds : All (Holds plain_json) one_answer
one_answer-Holds =
    let (whole, told, parsed) = answer_pkt.2 in
    let e = received-IsWhole answer_pkt.0 whole in
    ((omega (arith, whole.size), rw e told, rw e parsed, (refl, refl)), tt)

abbrev pub one_verdict : List Verdict
one_verdict = record { from = 5; bytes = verdict_pkt.0.bytes; type = action_succ } ∷ []

pub one_verdict-IsVerdict : All (IsVerdict plain_json) one_verdict
one_verdict-IsVerdict =
    let (whole, told, result) = verdict_pkt.2 in
    let e = received-IsWhole verdict_pkt.0 whole in
    (
      record {
        large = omega (arith, whole.size);
        told = rw e told;
        reason = none;
        result = rw e result;
      },
      tt,
    )

abbrev sender_client : UdpClient
sender_client = record {
  addrto = 0;
  ip = codes "10.0.0.";
  sub_ip = 0;
  bytes = 1 ∷ 2 ∷ [];
  len = 2;
  socket = socket_with [];
}

-- A stand-in for `inet_addr`; the answer is seen in the fourth round.
udp_broadcast_data-Sent_example :
    Returns
      (λ e. Sent (λ text. length text) sender_client e (from_on 1 (rounds (λ i. ltb 2 i) 0 254)))
      (udp_broadcast_data (λ text. length text) (λ i. ltb 2 i) sender_client)
udp_broadcast_data-Sent_example =
    udp_broadcast_data-Sent (λ text. length text) (λ i. ltb 2 i) sender_client
      (record { short = omega arith; whole = refl; some_bytes = omega arith; healthy = refl })
