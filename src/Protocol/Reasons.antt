-- ===== src/Protocol/Reasons.antt =====
-- `get_result_pkt` of c/provider/comm/protocal.c against `decode_action` and `get_result`.
use mini_service_discover.Base.{◌≡◌, refl, Bool, true, false, Option, none, some}
use mini_service_discover.Base.Outcome.{done, Returns, weaken-Returns}
use mini_service_discover.CString.{Str, CharPtr, codes}
use mini_service_discover.Protocol.{
  action_succ, action_fail, code_of, action_of, decode_action, Action,
}
use mini_service_discover.Protocol.Cjson.{Cjson, Laws, same_name}
use mini_service_discover.Protocol.Build.{get_result_pkt}
use mini_service_discover.Protocol.Decode.{string_of, get_result}
use mini_service_discover.Protocol.RoundTrip.{
  IsField, IsWhole, copy_field-short, CanSend, seal_pkt-Tells,
}

abbrev pub reason_tree : (c : Cjson) → Str → c.Tree
reason_tree c reason = c.add_string c.create_object (codes "reason") reason

-- what `get_result` makes of the answer
abbrev pub reported : Bool → Str → Option CharPtr
reported true reason = none
reported false reason = some (some reason)

abbrev pub result_action : Bool → Action
result_action true = action_succ
result_action false = action_fail

-- The reason is the only item of the object.
reason-item :
    (c : Cjson)
    → Laws c
    → (reason : Str) → string_of (c.get_item (reason_tree c reason) (codes "reason")) ≡ some reason
unfolding same_name
reason-item c laws reason = rw (
  laws.get_item-add_string _ (codes "reason") reason (codes "reason"),
  laws.get_item-create (codes "reason"),
)

module _ (signed : Bool) (c : Cjson) (laws : Laws c) where
  -- With the laws of cJSON, the answer with a reason below 100 bytes, whose text fits and has one
  -- checksum for both sides, is built, is a whole packet, and is read as a success or a failure as
  -- it was meant; of a failure `get_result` reads the reason, of a success nothing.
  pub get_result_pkt-reported :
      (is_succ : Bool) (reason : Str)
      → IsField reason
      → CanSend signed c (reason_tree c reason)
      → Returns
          (λ pkt.
            IsWhole pkt
            × (decode_action pkt ≡ done (result_action is_succ))
            × (get_result c pkt ≡ done (reported is_succ reason)))
          (get_result_pkt signed c is_succ (some reason))
  unfolding get_result_pkt get_result code_of action_of
  get_result_pkt-reported true reason f can = rw (copy_field-short reason f) (
      weaken-Returns (seal_pkt-Tells signed c laws action_succ _ refl can)
        λ pkt t. (t.whole, t.told, rw t.code))
  get_result_pkt-reported false reason f can = rw (copy_field-short reason f) (
      weaken-Returns (seal_pkt-Tells signed c laws action_fail _ refl can) λ pkt t. (
        t.whole,
        t.told,
        rw (t.code, t.text, t.parsed, t.items (codes "reason"), reason-item c laws reason),
      ))
