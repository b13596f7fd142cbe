-- ===== src/Testing/PacketExamples.antt =====
-- Packets of small services, built and read back.
use mini_service_discover.Base.{
  ◌≡◌, refl, true, false, some, [], ◌∷◌, ◌==◌, ◌%◌, ◌^◌, ◌↔◌, ◌⊎◌, arith, replicate, take, drop,
  if◌then◌else◌,
}
use mini_service_discover.Base.Outcome.{done, undefined, Returns}
use mini_service_discover.CString.{codes}
use mini_service_discover.Buffer.{zeros, load16}
use mini_service_discover.Protocol.{
  register_service, unregister_service, inquiry, action_succ, action_fail, action_of,
  action_invalid, Packet, decode_action, byte_value, get_checksum, sum_loop,
}
use mini_service_discover.Protocol.Build.{
  seal_pkt, get_register_pkt, get_unregister_pkt, get_inquiry_pkt, get_inquiry_result_pkt,
  get_result_pkt,
}
use mini_service_discover.Protocol.Decode.{get_result}
use mini_service_discover.Protocol.Checksum.{total, high_bytes, get_checksum-agrees_iff}
use mini_service_discover.Protocol.Sealed.{
  Received, packet, packet-Received, seal_pkt-long, decode_action-Received, decode_action-past,
}
use mini_service_discover.Protocol.RoundTrip.{IsField-of_all, Carries, IsWhole, service}
use mini_service_discover.Protocol.Packets.{
  get_register_pkt-Carries, get_inquiry_result_pkt-Carries, get_unregister_pkt-Carries,
  get_inquiry_pkt-Carries,
}
use mini_service_discover.Protocol.Reasons.{
  reason_tree, reported, result_action, get_result_pkt-reported,
}
use mini_service_discover.Testing.PlainJson.{
  plain_json, object_code, value_code, values_code, item_code,
}
use mini_service_discover.Testing.PlainLaws.{plain_laws}
use mini_service_discover.Testing.Data.{
  box, music, host, note, box_service, box-IsField, music-IsField, host-IsField, note-IsField,
  box_service-CanSend, music-CanSend, names-CanSend, not_found-CanSend,
}

get_register_pkt-Carries_example :
    Returns
      (Carries plain_json register_service box_service)
      (get_register_pkt false plain_json (some box) (some music) (some host) 80 (some note))
get_register_pkt-Carries_example =
    get_register_pkt-Carries false plain_json plain_laws box music host note 80
      (box-IsField, music-IsField, host-IsField, note-IsField) (omega arith) box_service-CanSend

get_inquiry_result_pkt-Carries_example :
    Returns
      (Carries plain_json action_succ box_service)
      (get_inquiry_result_pkt false plain_json box_service)
get_inquiry_result_pkt-Carries_example =
    get_inquiry_result_pkt-Carries false plain_json plain_laws box music host note 80
      (box-IsField, music-IsField, host-IsField, note-IsField) (omega arith) box_service-CanSend

get_unregister_pkt-Carries_example :
    Returns
      (Carries plain_json unregister_service (service box music (codes "") (codes "") 0))
      (get_unregister_pkt false plain_json (some box) (some music))
get_unregister_pkt-Carries_example =
    get_unregister_pkt-Carries false plain_json plain_laws box music (box-IsField, music-IsField)
      names-CanSend

get_inquiry_pkt-Carries_example :
    Returns
      (Carries plain_json inquiry (service (codes "") music (codes "") (codes "") 0))
      (get_inquiry_pkt false plain_json (some music))
get_inquiry_pkt-Carries_example =
    get_inquiry_pkt-Carries false plain_json plain_laws music music-IsField music-CanSend

get_result_pkt-reported_example :
    Returns
      (λ pkt.
        IsWhole pkt
        × (decode_action pkt ≡ done (result_action false))
        × (get_result plain_json pkt ≡ done (reported false (codes "service no found"))))
      (get_result_pkt false plain_json false (some (codes "service no found")))
get_result_pkt-reported_example =
    get_result_pkt-reported false plain_json plain_laws false (codes "service no found")
      (IsField-of_all (codes "service no found") refl (omega arith)) not_found-CanSend

abbrev long_tree : plain_json.Tree
long_tree = reason_tree plain_json (replicate 1020 120)

seal_pkt-long_example : seal_pkt false plain_json action_fail long_tree ≡ undefined
unfolding object_code value_code values_code item_code
seal_pkt-long_example =
    seal_pkt-long false plain_json action_fail long_tree (omega arith) (omega arith)

decode_action-Received_example :
    decode_action (packet 2 97 (97 ∷ []))
    ≡ done (
        if total byte_value (take 1 (drop 8 (packet 2 97 (97 ∷ [])).bytes)) % 2 ^ 16 == 97
        then action_of 2
        else action_invalid)
decode_action-Received_example =
    decode_action-Received (packet 2 97 (97 ∷ [])) 2 1 97
      (packet-Received 2 97 (97 ∷ []) (omega arith) (omega arith) (omega arith)) (omega arith)

-- a header whose length is 65535
abbrev forged : Packet
forged = record { bytes = 0xEE ∷ 0xFF ∷ 0 ∷ 0 ∷ 0xFF ∷ 0xFF ∷ 0 ∷ 0 ∷ zeros 1016; len = 1024 }

forged-Received : Received forged 0 65535 0
unfolding load16 zeros
forged-Received = record { size = refl; action = refl; info_len = refl; checksum = refl }

decode_action-past_example : decode_action forged ≡ undefined
decode_action-past_example = decode_action-past forged 0 65535 0 forged-Received (omega arith)

get_checksum-agrees_iff_example :
    (get_checksum true (97 ∷ 200 ∷ []) 2 ≡ sum_loop byte_value 2 (97 ∷ 200 ∷ 0 ∷ []) 0)
    ↔ ((true ≡ false) ⊎ (high_bytes (97 ∷ 200 ∷ []) % 256 ≡ 0))
get_checksum-agrees_iff_example =
    get_checksum-agrees_iff true (97 ∷ 200 ∷ []) (0 ∷ []) (omega arith, (omega arith, tt))
