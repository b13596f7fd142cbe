-- ===== src/Testing/PlainLaws.antt =====
-- The stand-in for cJSON has the laws.
use mini_service_discover.Base.{
  ℕ, zero, suc, ◌<◌, refl, ap, ◌≢◌, inl, inr, some, List, [], ◌∷◌, ◌++◌, arith, ltb, All,
  All-append, replicate, Bool-cases,
}
use mini_service_discover.CString.{Str}
use mini_service_discover.CString.Laws.{IsCString}
use mini_service_discover.Protocol.Cjson.{Laws, Item, string, number, another}
use mini_service_discover.Testing.PlainJson.{
  Object, value_code, values_code, item_code, object_code, get, plain_json, scan-object,
}

IsText : Str → Type 0
IsText s = All (λ b. (b ≢ 0) × (b < 256)) s

append-IsText : (s t : Str) → IsText s → IsText t → IsText (s ++ t)
unfolding IsText
append-IsText s t is is_t = All-append (λ b. (b ≢ 0) × (b < 256)) s t is is_t

sixes-IsText : (n : ℕ) → IsText (replicate n 6)
unfolding IsText
sixes-IsText zero = tt
sixes-IsText (suc n) = ((omega arith, omega arith), sixes-IsText n)

value_code-IsText : (n : ℕ) → IsText (value_code n)
unfolding value_code
value_code-IsText n = elim (Bool-cases (ltb n 200)) [
  | inl small ↦ rw small (unfold IsText in ((omega arith, ground (arith, small)), tt))
  | inr large ↦ rw large (unfold IsText in ((omega arith, omega arith), sixes-IsText n))
]

values_code-IsText : (ns : List ℕ) → IsText (values_code ns)
unfolding values_code
values_code-IsText [] = unfold IsText in tt
values_code-IsText (n ∷ ns) =
    append-IsText (value_code n) (values_code ns) (value_code-IsText n) (values_code-IsText ns)

byte-IsText : (b : ℕ) → 0 < b → b < 256 → IsText (b ∷ [])
unfolding IsText
byte-IsText b low high = ((omega arith, high), tt)

item_code-IsText : (i : Item) → IsText (item_code i)
unfolding item_code
item_code-IsText (string s) =
    append-IsText (values_code s) (3 ∷ []) (values_code-IsText s)
      (byte-IsText 3 (omega arith) (omega arith))
item_code-IsText (number n) =
    append-IsText (values_code (n ∷ [])) (4 ∷ []) (values_code-IsText (n ∷ []))
      (byte-IsText 4 (omega arith) (omega arith))
item_code-IsText another = byte-IsText 7 (omega arith) (omega arith)

object_code-IsText : (o : Object) → IsText (object_code o)
unfolding object_code
object_code-IsText [] = unfold IsText in tt
object_code-IsText ((k, i) ∷ o) =
    let rest =
      append-IsText (item_code i) (object_code o) (item_code-IsText i) (object_code-IsText o) in
    let from_2 =
      append-IsText (2 ∷ []) (item_code i ++ object_code o)
        (byte-IsText 2 (omega arith) (omega arith)) rest in
    let names =
      append-IsText (values_code k) (2 ∷ (item_code i ++ object_code o)) (values_code-IsText k)
        from_2 in
    append-IsText (1 ∷ []) (values_code k ++ 2 ∷ (item_code i ++ object_code o))
      (byte-IsText 1 (omega arith) (omega arith)) names

both : (s : Str) → IsText s → IsCString s × All (λ b. b < 256) s
unfolding IsText
both [] is = (tt, tt)
both (b ∷ s) ((nonzero, small), is) = let (z, bs) = both s is in ((nonzero, z), (small, bs))

pub plain_laws : Laws plain_json
unfolding get
plain_laws = record {
  get_item-create = λ name. refl;
  get_item-add_string = λ t k s name. refl;
  get_item-add_number = λ t k n name small. refl;
  print-IsCString = λ t. both (object_code t) (object_code-IsText t);
  parse-print = λ t. (t, ap some (scan-object t), λ name. refl);
}
