-- ===== src/Base/Outcome.antt =====
-- What running C code comes to: a value, undefined behaviour (a NULL or dangling pointer, an access
-- past a buffer), or more rounds of a loop than the fuel allows.
use mathlib.Core.Path.{◌≡◌, refl, ap, subst}
use mathlib.Core.Option.{Option, none, some}
use native.Mathlib.Omega.{arith}

pub data Outcome {ℓ} (A : Type ℓ) : Type ℓ where
  done : A → Outcome A
  undefined : Outcome A
  out_of_fuel : Outcome A

infixl 5 ◌>>=◌ ◌>>◌
abbrev pub ◌>>=◌ {ℓ κ} : {A : Type ℓ} {B : Type κ} → Outcome A → (A → Outcome B) → Outcome B
done a >>= k = k a
undefined >>= k = undefined
out_of_fuel >>= k = out_of_fuel

abbrev pub ◌>>◌ {ℓ κ} : {A : Type ℓ} {B : Type κ} → Outcome A → Outcome B → Outcome B
m >> n = m >>= λ _. n

-- `*p`, of a pointer that may be NULL, and of an element that may lie past the end.
abbrev pub fetch {ℓ} : {A : Type ℓ} → Option A → Outcome A
fetch none = undefined
fetch (some a) = done a

-- Total correctness: the run ends with a value, and that satisfies `P`.
pub data Returns {ℓ κ} {A : Type ℓ} (P : A → Type κ) : Outcome A → Type (ℓ ⊔ κ) where
  returns : {a : A} → P a → Returns P (done a)

-- One run after another.
pub then-Returns {ℓ κ μ ν} :
    {A : Type ℓ} {B : Type κ} {P : A → Type μ} {Q : B → Type ν} {m : Outcome A} {k : A → Outcome B}
    → Returns P m
    → ((a : A) → P a → Returns Q (k a))
    → Returns Q (m >>= k)
then-Returns (returns p) after = after _ p

pub weaken-Returns {ℓ μ ν} :
    {A : Type ℓ} {P : A → Type μ} {Q : A → Type ν} {m : Outcome A}
    → Returns P m
    → ((a : A) → P a → Q a)
    → Returns Q m
weaken-Returns (returns p) weaker = returns (weaker _ p)

pub Returns-value {ℓ κ} :
    {A : Type ℓ} {P : A → Type κ} {m : Outcome A} → Returns P m → (a : A) × (m ≡ done a) × P a
Returns-value (returns {a} p) = (a, refl, p)

-- The value together with the run that gave it.
pub Returns-itself {ℓ κ} :
    {A : Type ℓ} {P : A → Type κ} {m : Outcome A}
    → Returns P m
    → Returns (λ a. (m ≡ done a) × P a) m
Returns-itself (returns p) = returns (refl, p)

-- What a run returned has what it was shown to have.
pub Returns-done {ℓ κ} :
    {A : Type ℓ} {P : A → Type κ} {m : Outcome A} {a : A} → Returns P m → m ≡ done a → P a
Returns-done {A = A} {P = P} {a = a} (returns {a = b} p) e = subst P (ap value e) p
  where
    value : Outcome A → A
    value (done x) = x
    value _ = b

-- A run that returns goes through a value.
pub >>=-done {ℓ κ} :
    {A : Type ℓ} {B : Type κ} (m : Outcome A) {k : A → Outcome B} {b : B}
    → m >>= k ≡ done b
    → (a : A) × (m ≡ done a) × (k a ≡ done b)
>>=-done (done a) e = (a, refl, e)
>>=-done undefined e = absurd (ground (arith, e))
>>=-done out_of_fuel e = absurd (ground (arith, e))

pub done-injective {ℓ} : {A : Type ℓ} {a b : A} → done a ≡ done b → a ≡ b
done-injective {A = A} {a = a} e = ap value e
  where
    value : Outcome A → A
    value (done x) = x
    value _ = a
