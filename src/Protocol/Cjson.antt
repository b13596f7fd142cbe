-- ===== src/Protocol/Cjson.antt =====
-- The cJSON library, which is not part of the repository: its calls are parameters. `Laws` states
-- what its header documents of them, as far as the packets rely on it.
use mini_service_discover.Base.{
  ℕ, ◌+◌, ◌<◌, ◌^◌, ◌≡◌, Bool, true, false, ◌&&◌, Option, none, some, [], ◌∷◌, ◌==◌, leb,
  if◌then◌else◌, All,
}
use mini_service_discover.CString.{Str}
use mini_service_discover.CString.Laws.{IsCString}

-- A value in an object: a string, a number (its `valueint`, as the bits of an `int`), or another.
pub data Item : Type 0 where
  string : Str → Item
  number : ℕ → Item
  another : Item

pub record Cjson : Type 1 where
  pub Tree : Type 0
  pub create_object : Tree
  pub add_string : Tree → Str → Str → Tree
  pub add_number : Tree → Str → ℕ → Tree
  pub print : Tree → Str
  pub parse : Str → Option Tree
  pub get_item : Tree → Str → Option Item

lower : ℕ → ℕ
lower b = if leb 65 b && leb b 90 then b + 32 else b

-- Names of items are compared without regard to case.
unfoldable pub same_name : Str → Str → Bool
unfolding lower
same_name [] [] = true
same_name [] (y ∷ ys) = false
same_name (x ∷ xs) [] = false
same_name (x ∷ xs) (y ∷ ys) = (lower x == lower y) && same_name xs ys

-- the first item of the object that has the name, once `i` stands last under `k`
abbrev pub or_added : Option Item → Str → Item → Str → Option Item
or_added (some j) k i name = some j
or_added none k i name = if same_name k name then some i else none

pub record Laws (c : Cjson) : Type 1 where
  pub get_item-create : (name : Str) → c.get_item c.create_object name ≡ none
  pub get_item-add_string :
      (t : c.Tree) (k s name : Str)
      → c.get_item (c.add_string t k s) name ≡ or_added (c.get_item t name) k (string s) name
  pub get_item-add_number :
      (t : c.Tree) (k : Str) (n : ℕ) (name : Str)
      → n < 2 ^ 31
      → c.get_item (c.add_number t k n) name ≡ or_added (c.get_item t name) k (number n) name
  pub print-IsCString : (t : c.Tree) → IsCString (c.print t) × All (λ b. b < 256) (c.print t)
  pub parse-print :
      (t : c.Tree)
      → (u : c.Tree) × (c.parse (c.print t) ≡ some u)
        × ((name : Str) → c.get_item u name ≡ c.get_item t name)
