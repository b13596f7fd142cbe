-- ===== src/ServiceList/Registry/Laws.antt =====
-- Lemmas on the names in the registry, which a registration keeps distinct.
use mini_service_discover.Base.{
  ◌≡◌, refl, ap, sym, subst, inl, inr, true, false, ◌||◌, none, some, [], ◌∷◌, ◌++◌, arith, All,
  Bool-cases,
}
use mini_service_discover.CString.{Str, CharPtr}
use mini_service_discover.CString.Laws.{str_eq_refl, eq_of_str_eq}
use mini_service_discover.Memory.{ServiceInfo}
use mini_service_discover.ServiceList.Registry.{
  Registry, IsText, IsNamed, text_eq, is_named, IsNew, IsDistinct, contains, erase, register,
}

-- The names of `i`.
abbrev pub HasNames : Str → Str → ServiceInfo → Type 0
HasNames dev svc i = (i.device_name ≡ some dev) × (i.service_name ≡ some svc)

pub IsNamed-of_HasNames : (dev svc : Str) (i : ServiceInfo) → HasNames dev svc i → IsNamed i
IsNamed-of_HasNames dev svc i (d, n) = record {
  device = subst (λ p. IsText p) (sym d) tt;
  service = subst (λ p. IsText p) (sym n) tt;
}

pub erase-All {κ} :
    (P : ServiceInfo → Type κ) (dev svc : Str) (r : Registry) → All P r → All P (erase dev svc r)
unfolding erase
erase-All P dev svc [] h = tt
erase-All P dev svc (i ∷ r) h = elim (Bool-cases (is_named dev svc i)) [
  | inl hit ↦ rw hit h.1
  | inr miss ↦ rw miss (h.0, erase-All P dev svc r h.1)
]

text_eq-some : (p : CharPtr) (t : Str) → text_eq p t ≡ true → p ≡ some t
text_eq-some none t h = cc
text_eq-some (some s) t h = ap some (eq_of_str_eq s t h)

pub HasNames-of_is_named :
    (dev svc : Str) (i : ServiceInfo) → is_named dev svc i ≡ true → HasNames dev svc i
HasNames-of_is_named dev svc i h =
    (text_eq-some i.device_name dev (ground arith), text_eq-some i.service_name svc (ground arith))

pub is_named_self :
    (dev svc : Str) (i : ServiceInfo) → HasNames dev svc i → is_named dev svc i ≡ true
is_named_self dev svc i h = ground (arith, str_eq_refl dev, str_eq_refl svc)

-- A service has one pair of names.
is_named_unique :
    (dev svc dev' svc' : Str) (i : ServiceInfo)
    → is_named dev svc i ≡ true
    → is_named dev' svc' i ≡ true
    → (dev ≡ dev') × (svc ≡ svc')
is_named_unique dev svc dev' svc' i h h' =
    let (d, s) = HasNames-of_is_named dev svc i h in
    let (d', s') = HasNames-of_is_named dev' svc' i h' in (cc, cc)

pub contains-append :
    (dev svc : Str) (r q : Registry)
    → contains dev svc (r ++ q) ≡ (contains dev svc r || contains dev svc q)
unfolding contains
contains-append dev svc [] q = refl
contains-append dev svc (i ∷ r) q = ground (arith, contains-append dev svc r q)

-- Nothing new appears by a removal.
not-contains-erase :
    (dev svc dev' svc' : Str) (r : Registry)
    → contains dev' svc' r ≡ false
    → contains dev' svc' (erase dev svc r) ≡ false
unfolding contains erase
not-contains-erase dev svc dev' svc' [] h = refl
not-contains-erase dev svc dev' svc' (i ∷ r) h =
    ground (arith, not-contains-erase dev svc dev' svc' r)

-- After the removal no service has the names, if none were there twice.
pub contains-erase_self :
    (dev svc : Str) (r : Registry) → IsDistinct r → contains dev svc (erase dev svc r) ≡ false
unfolding contains erase
contains-erase_self dev svc [] h = refl
contains-erase_self dev svc (i ∷ r) h =
    ground (arith, h.0 dev svc, contains-erase_self dev svc r h.1)

pub erase-IsDistinct : (dev svc : Str) (r : Registry) → IsDistinct r → IsDistinct (erase dev svc r)
unfolding erase
erase-IsDistinct dev svc [] h = tt
erase-IsDistinct dev svc (i ∷ r) h = elim (Bool-cases (is_named dev svc i)) [
  | inl hit ↦ rw hit h.1
  | inr miss ↦ rw miss (
    λ dev' svc' e. not-contains-erase dev svc dev' svc' r (h.0 dev' svc' e),
    erase-IsDistinct dev svc r h.1,
  )
]

append-IsDistinct :
    (i : ServiceInfo) (r : Registry) → IsDistinct r → IsNew i r → IsDistinct (r ++ i ∷ [])
unfolding contains
append-IsDistinct i [] h new = (λ dev svc e. refl, tt)
append-IsDistinct i (j ∷ r) h new = (
  λ dev svc e. rw (contains-append dev svc r (i ∷ []), h.0 dev svc e) (apart dev svc e),
  append-IsDistinct i r h.1 (λ dev svc e. ground (arith, new dev svc e)),
)
  where
    apart : (dev svc : Str) → is_named dev svc j ≡ true → (is_named dev svc i || false) ≡ false
    apart dev svc e = ground (arith, new dev svc)

-- A registration keeps the names distinct.
pub register-IsDistinct :
    (dev svc : Str) (i : ServiceInfo) (r : Registry)
    → HasNames dev svc i
    → IsDistinct r
    → IsDistinct (register dev svc i r)
unfolding register
register-IsDistinct dev svc i r names h =
    append-IsDistinct i (erase dev svc r) (erase-IsDistinct dev svc r h) λ dev' svc' e.
      let (d, s) = is_named_unique dev svc dev' svc' i (is_named_self dev svc i names) e in
      rw (← d, ← s) (contains-erase_self dev svc r h)
