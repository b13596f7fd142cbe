-- ===== src/ServiceList/Registry/Distinct.antt =====
-- Lemmas on registries in which no pair of names stands twice, and a service behind them.
use mini_service_discover.Base.{
  ◌≡◌, refl, ap, true, false, inl, inr, [], ◌∷◌, ◌++◌, arith, Bool-cases,
}
use mini_service_discover.CString.{Str}
use mini_service_discover.Memory.{ServiceInfo}
use mini_service_discover.ServiceList.Registry.{
  Registry, is_named, IsDistinct, contains, erase, register,
}
use mini_service_discover.ServiceList.Registry.Laws.{
  HasNames, is_named_self, contains-append, contains-erase_self,
}

erase-absent : (dev svc : Str) (r : Registry) → contains dev svc r ≡ false → erase dev svc r ≡ r
unfolding contains erase
erase-absent dev svc [] h = refl
erase-absent dev svc (i ∷ r) h = ground (arith, erase-absent dev svc r)

pub register-absent :
    (dev svc : Str) (i : ServiceInfo) (r : Registry)
    → contains dev svc r ≡ false
    → register dev svc i r ≡ r ++ i ∷ []
unfolding register
register-absent dev svc i r h = ap (λ (q : Registry). q ++ i ∷ []) (erase-absent dev svc r h)

-- The names of a service behind `r` are not in `r`.
pub not-contains-before :
    (dev svc : Str) (i : ServiceInfo) (r q : Registry)
    → IsDistinct (r ++ i ∷ q)
    → is_named dev svc i ≡ true
    → contains dev svc r ≡ false
unfolding contains
not-contains-before dev svc i [] q distinct named = refl
not-contains-before dev svc i (j ∷ r) q (new, distinct) named =
    let rest = not-contains-before dev svc i r q distinct named in
    elim (Bool-cases (is_named dev svc j)) [
      | inl hit ↦ ground (arith, new dev svc hit, contains-append dev svc r (i ∷ q), named)
      | inr miss ↦ rw (miss, rest)
    ]

erase-append_self :
    (dev svc : Str) (i : ServiceInfo) (q : Registry)
    → contains dev svc q ≡ false
    → is_named dev svc i ≡ true
    → erase dev svc (q ++ i ∷ []) ≡ q
unfolding contains erase
erase-append_self dev svc i [] absent named = rw named refl
erase-append_self dev svc i (j ∷ q) absent named =
    let rest : contains dev svc q ≡ false → erase dev svc (q ++ i ∷ []) ≡ q =
      λ e. erase-append_self dev svc i q e named in
    ground (arith, absent, rest)

-- Once registered, the service is there.
pub contains-register :
    (dev svc : Str) (i : ServiceInfo) (r : Registry)
    → HasNames dev svc i
    → contains dev svc (register dev svc i r) ≡ true
unfolding register contains
contains-register dev svc i r names =
    rw (contains-append dev svc (erase dev svc r) (i ∷ []), is_named_self dev svc i names)
      (ground arith)

-- Erasing what was registered leaves what was there under other names.
pub erase-register :
    (dev svc : Str) (i : ServiceInfo) (r : Registry)
    → HasNames dev svc i
    → IsDistinct r
    → erase dev svc (register dev svc i r) ≡ erase dev svc r
unfolding register
erase-register dev svc i r names distinct =
    erase-append_self dev svc i (erase dev svc r) (contains-erase_self dev svc r distinct)
      (is_named_self dev svc i names)
