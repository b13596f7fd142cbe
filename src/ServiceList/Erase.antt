-- ===== src/ServiceList/Erase.antt =====
-- What the removal of a service does to the entries of a list (c/provider/comm/list.c).
use mini_service_discover.Base.{
  ◌≤◌, ◌≡◌, refl, inl, inr, Bool, true, false, List, [], ◌∷◌, arith, if◌then◌else◌, length, All,
  Bool-cases,
}
use mini_service_discover.CString.{Str}
use mini_service_discover.Memory.{Ptr}
use mini_service_discover.ServiceList.{Code, success, failure}
use mini_service_discover.ServiceList.Registry.{is_named, IsNamed, erase}
use mini_service_discover.ServiceList.Chain.{Entry, values, has_node, has_info}

abbrev pub AllNamed : List Entry → Type 0
AllNamed es = All (λ i. IsNamed i) (values es)

abbrev pub code : Bool → Code
code true = success
code false = failure

module _ (dev svc : Str) where
  abbrev pub erase_entry : List Entry → List Entry
  erase_entry [] = []
  erase_entry (e ∷ es) = if is_named dev svc e.value then es else e ∷ erase_entry es

  pub values-erase_entry : (es : List Entry) → values (erase_entry es) ≡ erase dev svc (values es)
  unfolding erase
  values-erase_entry [] = refl
  values-erase_entry (e ∷ es) = ground (arith, values-erase_entry es)

  pub not-has_node-erase :
      (a : Ptr) (es : List Entry) → has_node a es ≡ false → has_node a (erase_entry es) ≡ false
  not-has_node-erase a [] h = refl
  not-has_node-erase a (e ∷ es) h = ground (arith, not-has_node-erase a es)

  pub not-has_info-erase :
      (a : Ptr) (es : List Entry) → has_info a es ≡ false → has_info a (erase_entry es) ≡ false
  not-has_info-erase a [] h = refl
  not-has_info-erase a (e ∷ es) h = ground (arith, not-has_info-erase a es)

  pub length-erase_entry-le : (es : List Entry) → length (erase_entry es) ≤ length es
  length-erase_entry-le [] = omega arith
  length-erase_entry-le (e ∷ es) = ground (arith, length-erase_entry-le es)

  pub AllNamed-erase : (es : List Entry) → AllNamed es → AllNamed (erase_entry es)
  AllNamed-erase [] h = tt
  AllNamed-erase (e ∷ es) h = elim (Bool-cases (is_named dev svc e.value)) [
    | inl hit ↦ rw hit h.1
    | inr miss ↦ rw miss (h.0, AllNamed-erase es h.1)
  ]
