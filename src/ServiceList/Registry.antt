-- ===== src/ServiceList/Registry.antt =====
-- What the list stands for: the registry, the services in the order in which they were added, with
-- at most one of each device and service name.
pub mod Laws
pub mod Distinct
use mini_service_discover.Base.{
  ℕ, zero, suc, ◌+◌, ◌-◌, ◌≤◌, ◌<◌, ◌≡◌, refl, ap, ◌≢◌, Bool, true, false, ◌&&◌, ◌||◌, Option, none,
  some, List, [], ◌∷◌, ◌++◌, arith, if◌then◌else◌, length, All, length-append,
}
use mini_service_discover.CString.{Str, CharPtr, str_eq}
use mini_service_discover.CString.Laws.{str_eq_refl, eq_of_str_eq}
use mini_service_discover.Memory.{ServiceInfo}

abbrev pub Registry : Type 0
Registry = List ServiceInfo

abbrev pub text_eq : CharPtr → Str → Bool
text_eq none t = false
text_eq (some s) t = str_eq s t

-- the service that a request names
abbrev pub is_named : Str → Str → ServiceInfo → Bool
is_named dev svc i = text_eq i.device_name dev && text_eq i.service_name svc

-- Both names are there.
abbrev pub IsText : CharPtr → Type 0
IsText none = ⊥
IsText (some s) = Unit

pub record IsNamed (i : ServiceInfo) : Type 0 where
  pub device : IsText i.device_name
  pub service : IsText i.service_name

unfoldable pub contains : Str → Str → Registry → Bool
contains dev svc [] = false
contains dev svc (i ∷ r) = is_named dev svc i || contains dev svc r

-- drops the first service with these names
unfoldable pub erase : Str → Str → Registry → Registry
erase dev svc [] = []
erase dev svc (i ∷ r) = if is_named dev svc i then r else i ∷ erase dev svc r

-- drops every service with these names
unfoldable pub without : Str → Str → Registry → Registry
without dev svc [] = []
without dev svc (i ∷ r) =
    let rest = without dev svc r in if is_named dev svc i then rest else i ∷ rest

-- the names of `i` are not those of a service of `r`
abbrev pub IsNew : ServiceInfo → Registry → Type 0
IsNew i r = (dev svc : Str) → is_named dev svc i ≡ true → contains dev svc r ≡ false

abbrev pub IsDistinct : Registry → Type 0
IsDistinct [] = Unit
IsDistinct (i ∷ r) = IsNew i r × IsDistinct r

-- `i`, whose names are `dev` and `svc`, takes the place of a service with these names, and goes last.
unfoldable pub register : Str → Str → ServiceInfo → Registry → Registry
register dev svc i r = erase dev svc r ++ i ∷ []
