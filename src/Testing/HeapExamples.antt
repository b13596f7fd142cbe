-- ===== src/Testing/HeapExamples.antt =====
-- The service of a registration, and the reason of a failure, in a heap where a string lives already.
use mini_service_discover.Base.{◌≡◌, refl, false, none, some, arith}
use mini_service_discover.Base.Outcome.{done, ◌>>=◌, Returns, Returns-value}
use mini_service_discover.CString.{Str, codes}
use mini_service_discover.Memory.{update}
use mini_service_discover.Memory.Laws.{update-ne}
use mini_service_discover.Protocol.{Packet}
use mini_service_discover.Protocol.Build.{get_result_pkt}
use mini_service_discover.Protocol.Decode.{get_result}
use mini_service_discover.Protocol.Reasons.{get_result_pkt-reported}
use mini_service_discover.Heap.{
  chars, Heap, get_service_info_block, free_service_info_block, get_result_block, free_result,
}
use mini_service_discover.Heap.Laws.{IsHeap}
use mini_service_discover.Heap.Built.{IsServiceInfo, get_service_info_block-IsServiceInfo}
use mini_service_discover.Heap.Freed.{Leaks, free_service_info_block-get_service_info_block}
use mini_service_discover.Heap.Restored.{IsRestored, free_result-get_result_block}
use mini_service_discover.Protocol.RoundTrip.{IsField-of_all}
use mini_service_discover.Testing.PlainJson.{plain_json}
use mini_service_discover.Testing.PlainLaws.{plain_laws}
use mini_service_discover.Testing.Data.{music, note, box_service, not_found-CanSend}
use mini_service_discover.Testing.ClientExamples.{answer_pkt}

abbrev one_string : Heap
one_string = record { blocks = update (λ _. none) 1 (some (chars music)); brk = 2 }

one_string-IsHeap : IsHeap one_string
one_string-IsHeap = record {
  nothing = refl;
  fresh = λ x le. update-ne (λ _. none) (some (chars music)) (λ e. absurd (omega (arith, e, le)));
  positive = omega arith;
}

get_service_info_block-IsServiceInfo_example :
    Returns
      (IsServiceInfo box_service one_string)
      (get_service_info_block plain_json answer_pkt.0 one_string)
get_service_info_block-IsServiceInfo_example =
    get_service_info_block-IsServiceInfo plain_json answer_pkt.0 box_service one_string
      one_string-IsHeap answer_pkt.2.2

free_service_info_block-get_service_info_block_example : Returns (Leaks (some note) one_string) (
    get_service_info_block plain_json answer_pkt.0 one_string >>= λ r.
    free_service_info_block r.0 r.1)
free_service_info_block-get_service_info_block_example =
    free_service_info_block-get_service_info_block plain_json answer_pkt.0 box_service one_string
      one_string-IsHeap answer_pkt.2.2

abbrev not_found : Str
not_found = codes "service no found"

failure_pkt :
    (pkt : Packet) × (get_result_pkt false plain_json false (some not_found) ≡ done pkt)
    × (get_result plain_json pkt ≡ done (some (some not_found)))
failure_pkt =
    let (pkt, built, (whole, told, result)) = Returns-value (
      get_result_pkt-reported false plain_json plain_laws false not_found
        (IsField-of_all not_found refl (omega arith)) not_found-CanSend) in
    (pkt, built, result)

free_result-get_result_block_example :
    Returns
      (IsRestored one_string)
      (get_result_block plain_json failure_pkt.0 one_string >>= λ r. free_result r.0 r.1)
free_result-get_result_block_example =
    free_result-get_result_block plain_json failure_pkt.0 (some not_found) one_string
      one_string-IsHeap failure_pkt.2
