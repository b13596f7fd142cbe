-- ===== src/Heap/Laws.antt =====
-- What one allocation, and one `free`, of c/provider/comm/protocal.c changes in the heap.
use mini_service_discover.Base.{
  ◌≤◌, ◌<◌, ◌≡◌, ◌≢◌, refl, ap, sym, ◌∙◌, false, Option, none, some, inl, inr, ◌⊎◌, Bool-cases,
  ◌==◌, if◌then◌else◌, arith,
}
use mini_service_discover.Base.Outcome.{Outcome, done, undefined, fetch, ◌>>=◌, Returns, returns}
use mini_service_discover.CString.{CharPtr}
use mini_service_discover.Memory.{Ptr, null}
use mini_service_discover.Memory.Laws.{update_self, update-ne}
use mini_service_discover.Heap.{Block, chars, Heap, put, malloc, free, free_string, strdup}

-- Nothing lives at NULL, and nothing where `malloc` still has to go.
pub record IsHeap (h : Heap) : Type 0 where
  pub nothing : h.blocks null ≡ none
  pub fresh : (x : Ptr) → h.brk ≤ x → h.blocks x ≡ none
  pub positive : 1 ≤ h.brk

-- the block of a string, if there is one
abbrev pub block_of : CharPtr → Option Block
block_of none = none
block_of (some s) = some (chars s)

abbrev pub chars_in : Block → Outcome CharPtr
chars_in (chars s) = done (some s)
chars_in _ = undefined

-- The string at a pointer that may be NULL, where the heap has this block.
unfoldable pub string_at : Ptr → Option Block → Outcome CharPtr
string_at q b = if q == null then done none else fetch b >>= chars_in

-- `q` is NULL, or was allocated between two states of the heap.
abbrev pub IsBetween : Ptr → Ptr → Ptr → Type 0
IsBetween a q b = (q ≡ null) ⊎ ((a ≤ q) × (q < b))

pub record IsDup (o : CharPtr) (h : Heap) (r : Ptr × Heap) : Type 0 where
  pub place : IsBetween h.brk r.0 r.1.brk
  pub grows : h.brk ≤ r.1.brk
  pub text : r.1.blocks r.0 ≡ block_of o
  pub read : string_at r.0 (block_of o) ≡ done o
  pub same : (x : Ptr) → x ≢ r.0 → r.1.blocks x ≡ h.blocks x
  pub heap : IsHeap r.1

module _ (h : Heap) (ok : IsHeap h) where
  pub malloc-IsHeap : (b : Block) → IsHeap (malloc b h).1
  unfolding malloc
  malloc-IsHeap b = record {
    nothing =
        update-ne h.blocks (some b) (λ e. absurd (omega (arith, e, ok.positive))) ∙ ok.nothing;
    fresh = λ x le.
        update-ne h.blocks (some b) (λ e. absurd (omega (arith, e, le)))
        ∙ ok.fresh x (omega (arith, le));
    positive = omega arith;
  }

  pub put-IsHeap : (p : Ptr) (b : Block) → p ≢ null → p < h.brk → IsHeap (put p b h)
  unfolding put
  put-IsHeap p b ne lt = record {
    nothing = update-ne h.blocks (some b) (λ e. ne (sym e)) ∙ ok.nothing;
    fresh = λ x le.
        update-ne h.blocks (some b) (λ e. absurd (omega (arith, e, le, lt))) ∙ ok.fresh x le;
    positive = ok.positive;
  }

  pub strdup-IsDup : (o : CharPtr) → IsDup o h (strdup o h)
  unfolding strdup string_at malloc
  strdup-IsDup none = record {
    place = inl refl;
    grows = omega arith;
    text = ok.nothing;
    read = refl;
    same = λ x ne. refl;
    heap = ok;
  }
  strdup-IsDup (some s) =
      let not_null : (h.brk == null) ≡ false = let pos = ok.positive in ground arith in
      record {
        place = inr (omega arith, omega arith);
        grows = omega arith;
        text = update_self h.blocks h.brk (some (chars s));
        read = rw not_null refl;
        same = λ x ne. update-ne h.blocks (some (chars s)) ne;
        heap = malloc-IsHeap (chars s);
      }

-- The heap without the block at `q`.
pub record IsWithout (q : Ptr) (h k : Heap) : Type 0 where
  pub gone : k.blocks q ≡ none
  pub same : (x : Ptr) → x ≢ q → k.blocks x ≡ h.blocks x

module _ (h : Heap) where
  pub free-IsWithout :
      (p : Ptr) (b : Block) → p ≢ null → h.blocks p ≡ some b → Returns (IsWithout p h) (free p h)
  unfolding free
  free-IsWithout p b ne e =
      let not_null : (p == null) ≡ false = ground arith in
      rw (not_null, e)
        (returns (record {
          gone = update_self h.blocks p none;
          same = λ x other. update-ne h.blocks none other;
        }))

  -- A pointer to a string, or NULL.
  pub free_string-IsWithout :
      (q : Ptr) (o : CharPtr)
      → h.blocks null ≡ none
      → h.blocks q ≡ block_of o
      → string_at q (block_of o) ≡ done o
      → Returns (IsWithout q h) (free_string q h)
  unfolding free_string string_at
  free_string-IsWithout q o nothing text read = elim (Bool-cases (q == null)) [
    | inl is_null ↦
        let e : q ≡ null = ground arith in
        rw is_null (returns (record { gone = ap h.blocks e ∙ nothing; same = λ x other. refl }))
    | inr there ↦
        rw there (block_there o text (rw there at read) (λ e. absurd (ground (arith, there, e))))
  ]
    where
      block_there :
          (o : CharPtr)
          → h.blocks q ≡ block_of o
          → (fetch (block_of o) >>= chars_in) ≡ done o
          → q ≢ null
          → Returns (IsWithout q h) (free q h)
      block_there none text read ne = absurd (ground (arith, read))
      block_there (some s) text read ne = free-IsWithout q (chars s) ne text
