-- ===== src/Testing/PlainJson.antt =====
-- A stand-in for cJSON: objects are lists of named items, printed in a plain code without NULs, and
-- read back from the right. It shows that the laws asked of cJSON can hold.
use mini_service_discover.Base.{
  ℕ, zero, suc, ◌+◌, ◌-◌, ◌≡◌, refl, ap, ◌∙◌, inl, inr, Option, none, some, List, [], ◌∷◌, ◌++◌,
  arith, ◌==◌, ltb, if◌then◌else◌, replicate, append_assoc, append-nil, Bool-cases,
}
use mini_service_discover.CString.{Str}
use mini_service_discover.Protocol.Cjson.{Cjson, Item, string, number, another, or_added}

-- Newest item first.
abbrev pub Object : Type 0
Object = List (Str × Item)

-- a value in one byte, or in unary between marks
unfoldable pub value_code : ℕ → Str
value_code n = if ltb n 200 then (n + 10) ∷ [] else 5 ∷ replicate n 6

unfoldable pub values_code : List ℕ → Str
values_code [] = []
values_code (n ∷ ns) = value_code n ++ values_code ns

unfoldable pub item_code : Item → Str
item_code (string s) = values_code s ++ 3 ∷ []
item_code (number n) = values_code (n ∷ []) ++ 4 ∷ []
item_code another = 7 ∷ []

unfoldable pub object_code : Object → Str
unfolding value_code values_code item_code
object_code [] = []
object_code ((k, i) ∷ o) = 1 ∷ (values_code k ++ 2 ∷ (item_code i ++ object_code o))

-- What is known of the code to the right.
pub record Scan : Type 0 where
  pub tag : ℕ
  pub payload : List ℕ
  pub values : List ℕ
  pub unary : ℕ
  pub object : Object

first_or_zero : List ℕ → ℕ
first_or_zero [] = 0
first_or_zero (n ∷ ns) = n

scanned_item : Scan → Item
scanned_item s =
    if s.tag == 3
    then string s.payload
    else if s.tag == 4
    then number (first_or_zero s.payload)
    else another

scan_byte : ℕ → Scan → Scan
scan_byte b s =
    if b == 1
    then record {
      tag = 0;
      payload = [];
      values = [];
      unary = 0;
      object = (s.values, scanned_item s) ∷ s.object;
    }
    else if b == 2
    then record s { payload = s.values; values = [] }
    else if b == 5
    then record s { values = s.unary ∷ s.values; unary = 0 }
    else if b == 6
    then record s { unary = suc s.unary }
    else if ltb b 10
    then record s { tag = b }
    else record s { values = (b - 10) ∷ s.values }

unfoldable pub scan : Str → Scan
unfolding scan_byte scanned_item first_or_zero
scan [] = record { tag = 0; payload = []; values = []; unary = 0; object = [] }
scan (b ∷ bs) = scan_byte b (scan bs)

unfoldable pub get : Object → Str → Option Item
get [] name = none
get ((k, i) ∷ o) name = or_added (get o name) k i name

abbrev pub plain_json : Cjson
plain_json = record {
  Tree = Object;
  create_object = [];
  add_string = λ o k s. (k, string s) ∷ o;
  add_number = λ o k n. (k, number n) ∷ o;
  print = object_code;
  parse = λ text. some (scan text).object;
  get_item = get;
}

scan-unary :
    (n : ℕ) (rest : Str)
    → scan (replicate n 6 ++ rest) ≡ record (scan rest) { unary = n + (scan rest).unary }
unfolding scan scan_byte
scan-unary zero rest = ap (λ k. record (scan rest) { unary = k }) (omega arith)
scan-unary (suc n) rest =
    rw (scan-unary n rest) (ap (λ k. record (scan rest) { unary = k }) (omega arith))

scan_byte-value : (n : ℕ) (s : Scan) → scan_byte (n + 10) s ≡ record s { values = n ∷ s.values }
unfolding scan_byte
scan_byte-value n s = ground arith

scan-value :
    (n : ℕ) (rest : Str)
    → (scan rest).unary ≡ 0
    → scan (value_code n ++ rest) ≡ record (scan rest) { values = n ∷ (scan rest).values }
unfolding value_code
scan-value n rest clear = elim (Bool-cases (ltb n 200)) [
  | inl small ↦ rw small (unfold scan in scan_byte-value n (scan rest))
  | inr large ↦ rw large (
      unfold scan scan_byte in
      rw (scan-unary n rest, clear)
        (ap (λ k. record (scan rest) { values = k ∷ (scan rest).values; unary = 0 }) (omega arith)))
]

scan-values :
    (ns : List ℕ) (rest : Str)
    → (scan rest).unary ≡ 0
    → scan (values_code ns ++ rest) ≡ record (scan rest) { values = ns ++ (scan rest).values }
unfolding values_code
scan-values [] rest clear = refl
scan-values (n ∷ ns) rest clear =
    let ih = scan-values ns rest clear in
    rw (
      append_assoc (value_code n) (values_code ns) rest,
      scan-value n (values_code ns ++ rest) (rw ih clear),
      ih,
    )

scan-item :
    (i : Item) (rest : Str)
    → (scan rest).unary ≡ 0
    → (scan rest).values ≡ []
    → scanned_item (scan (2 ∷ (item_code i ++ rest))) ≡ i
unfolding item_code scan scan_byte scanned_item
scan-item (string s) rest clear none_left = rw (
  append_assoc (values_code s) (3 ∷ []) rest,
  scan-values s (3 ∷ rest) clear,
  none_left,
  append-nil,
)
scan-item (number n) rest clear none_left =
    rw (append_assoc (values_code (n ∷ [])) (4 ∷ []) rest, scan-values (n ∷ []) (4 ∷ rest) clear)
scan-item another rest clear none_left = refl

-- Between two items nothing is pending.
record IsBetween (s : Scan) : Type 0 where
  unary : s.unary ≡ 0
  values : s.values ≡ []

scan-IsBetween : (o : Object) → IsBetween (scan (object_code o))
unfolding object_code scan scan_byte
scan-IsBetween [] = record { unary = refl; values = refl }
scan-IsBetween ((k, i) ∷ o) = record { unary = refl; values = refl }

scan-after_item :
    (i : Item) (rest : Str)
    → IsBetween (scan rest)
    → ((scan (item_code i ++ rest)).unary ≡ 0)
      × ((scan (item_code i ++ rest)).object ≡ (scan rest).object)
unfolding item_code scan scan_byte
scan-after_item (string s) rest b =
    rw (append_assoc (values_code s) (3 ∷ []) rest, scan-values s (3 ∷ rest) b.unary)
      (b.unary, refl)
scan-after_item (number n) rest b =
    rw (append_assoc (values_code (n ∷ [])) (4 ∷ []) rest, scan-values (n ∷ []) (4 ∷ rest) b.unary)
      (b.unary, refl)
scan-after_item another rest b = (b.unary, refl)

scan-named :
    (k rest : Str)
    → (scan rest).unary ≡ 0
    → (scan (1 ∷ (values_code k ++ 2 ∷ rest))).object
      ≡ (k, scanned_item (scan (2 ∷ rest))) ∷ (scan rest).object
unfolding scan scan_byte scanned_item
scan-named k rest clear = rw (scan-values k (2 ∷ rest) clear, append-nil)

-- What is printed is read back.
pub scan-object : (o : Object) → (scan (object_code o)).object ≡ o
unfolding object_code
scan-object [] = unfold scan in refl
scan-object ((k, i) ∷ o) =
    let between = scan-IsBetween o in
    let (after, same) = scan-after_item i (object_code o) between in
    rw
      (
        scan-named k (item_code i ++ object_code o) after,
        scan-item i (object_code o) between.unary between.values,
      )
      (ap (λ p. (k, i) ∷ p) (same ∙ scan-object o))
