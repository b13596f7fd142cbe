-- ===== src/CString/Laws.antt =====
-- Laws of the C string functions.
use mini_service_discover.Base.{
  ℕ, zero, suc, ◌-◌, ◌≤◌, ◌<◌, ◌≡◌, refl, ◌≢◌, ◌↔◌, true, Bool, not, all, ◌==◌, [], ◌∷◌, ◌++◌,
  arith, length, take, replicate, All, take_all, append-nil,
}
use mini_service_discover.Base.Outcome.{done, undefined}
use mini_service_discover.CString.{Str, str_eq, strncpy, read_string}

-- The bytes of a C string: none is NUL.
abbrev pub IsCString : Str → Type 0
IsCString s = All (λ b. b ≢ 0) s

abbrev pub nonzero : ℕ → Bool
nonzero b = not (b == 0)

pub IsCString-of_all : (s : Str) → all nonzero s ≡ true → IsCString s
IsCString-of_all [] h = tt
IsCString-of_all (b ∷ s) h = (ground arith, IsCString-of_all s (ground arith))

pub str_eq_refl : (s : Str) → str_eq s s ≡ true
unfolding str_eq
str_eq_refl [] = refl
str_eq_refl (x ∷ xs) = ground (arith, str_eq_refl xs)

pub eq_of_str_eq : (s t : Str) → str_eq s t ≡ true → s ≡ t
unfolding str_eq
eq_of_str_eq [] [] h = refl
eq_of_str_eq [] (y ∷ ys) h = cc
eq_of_str_eq (x ∷ xs) [] h = cc
eq_of_str_eq (x ∷ xs) (y ∷ ys) h = ground (arith, eq_of_str_eq xs ys)

pub str_eq_iff : (s t : Str) → (str_eq s t ≡ true) ↔ (s ≡ t)
str_eq_iff s t = (eq_of_str_eq s t, λ e. rw e (str_eq_refl t))

-- The string at the front of a buffer ends at the first NUL.
pub read_string-append : (s rest : Str) → IsCString s → read_string (s ++ 0 ∷ rest) ≡ done s
unfolding read_string
read_string-append [] rest h = refl
read_string-append (x ∷ xs) rest h = ground (arith, read_string-append xs rest h.1)

-- With no NUL in the buffer the read is undefined.
pub read_string-eq-undefined : (s : Str) → IsCString s → read_string s ≡ undefined
unfolding read_string
read_string-eq-undefined [] h = refl
read_string-eq-undefined (x ∷ xs) h = ground (arith, read_string-eq-undefined xs h.1)

All-take : (n : ℕ) (s : Str) → IsCString s → IsCString (take n s)
All-take zero s h = tt
All-take (suc n) [] h = tt
All-take (suc n) (x ∷ xs) h = (h.0, All-take n xs h.1)

-- A string shorter than the buffer comes back whole.
pub read_string-strncpy :
    (n : ℕ) (s : Str) → IsCString s → length s < n → read_string (strncpy n s) ≡ done s
unfolding strncpy
read_string-strncpy n s h lt =
    let e : n - length s ≡ suc (n - length s - 1) = omega arith in
    rw (take_all n s (omega arith), e) (read_string-append s (replicate (n - length s - 1) 0) h)

-- A string as long as the buffer, or longer, leaves it without a NUL.
pub read_string-strncpy_long :
    (n : ℕ) (s : Str) → IsCString s → n ≤ length s → read_string (strncpy n s) ≡ undefined
unfolding strncpy
read_string-strncpy_long n s h le =
    let e : n - length s ≡ 0 = omega arith in
    rw e (rw append-nil (read_string-eq-undefined (take n s) (All-take n s h)))
