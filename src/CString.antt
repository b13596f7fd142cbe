-- ===== src/CString.antt =====
-- Text as the C code holds it: `char *` values, fixed buffers, and the library calls on them.
-- A C string is the list of its bytes without the terminating NUL; a `char *` that may be NULL is
-- an `Option` of one. A buffer is the list of all its bytes.
pub mod Laws
use Prim.Native.Char.{code}
use Prim.Native.String.{String}
use mini_service_discover.Base.{
  ℕ, zero, suc, ◌+◌, ◌-◌, Bool, true, false, ◌&&◌, Option, none, some, List, [], ◌∷◌, ◌++◌, ◌==◌,
  if◌then◌else◌, length, take, replicate,
}
use mini_service_discover.Base.Outcome.{Outcome, done, undefined, ◌>>=◌}

abbrev pub Str : Type 0
Str = List ℕ

abbrev pub CharPtr : Type 0
CharPtr = Option Str

-- A text literal of the source.
abbrev pub codes : String → Str
codes String.[] = []
codes (String.◌∷◌ c s) = code c ∷ codes s

unfoldable pub str_eq : Str → Str → Bool
str_eq [] [] = true
str_eq [] (y ∷ ys) = false
str_eq (x ∷ xs) [] = false
str_eq (x ∷ xs) (y ∷ ys) = x == y && str_eq xs ys

-- `!strcmp(a, b)`: undefined at NULL.
unfoldable pub strcmp_equal : CharPtr → CharPtr → Outcome Bool
strcmp_equal none b = undefined
strcmp_equal (some a) none = undefined
strcmp_equal (some a) (some b) = done (str_eq a b)

-- `strncpy(buf, s, n)` into a buffer of `n` bytes: at most `n` bytes of `s`, and NULs to the end.
-- A string of `n` bytes or more leaves no NUL in the buffer.
unfoldable pub strncpy : ℕ → Str → List ℕ
strncpy n s = take n s ++ replicate (n - length s) 0

-- The C string at the start of a buffer: a read of a buffer with no NUL goes past its end.
unfoldable pub read_string : List ℕ → Outcome Str
read_string [] = undefined
read_string (b ∷ bs) =
    let rest = read_string bs in if b == 0 then done [] else rest >>= λ s. done (b ∷ s)
