-- ===== src/Heap/Strings.antt =====
-- One string of the struct that get_service_info of c/provider/comm/protocal.c fills.
use mini_service_discover.Base.{
  ◌≤◌, ◌<◌, ◌≡◌, ◌≢◌, ap, sym, ◌∙◌, some, inl, inr, Bool-cases, ◌==◌, arith,
}
use mini_service_discover.Base.Outcome.{done}
use mini_service_discover.CString.{CharPtr}
use mini_service_discover.Memory.{Ptr, null}
use mini_service_discover.Memory.Laws.{update_self, update-ne}
use mini_service_discover.Heap.{InfoBlock, service_info, Heap, put, strdup, set_string}
use mini_service_discover.Heap.Laws.{
  IsHeap, block_of, string_at, IsBetween, put-IsHeap, strdup-IsDup,
}

-- A pointer to this string, or NULL if there is none.
pub record HasString (q : Ptr) (o : CharPtr) (h : Heap) : Type 0 where
  pub text : h.blocks q ≡ block_of o
  pub read : string_at q (block_of o) ≡ done o

-- One of the strings was set.
pub record IsStored (p : Ptr) (i : Ptr → InfoBlock) (o : CharPtr) (h : Heap) (r : Ptr × Heap)
    : Type 0 where
  pub place : IsBetween h.brk r.0 r.1.brk
  pub grows : h.brk ≤ r.1.brk
  pub string : HasString r.0 o r.1
  pub struct : r.1.blocks p ≡ some (service_info (i r.0))
  pub same : (x : Ptr) → x ≢ p → x ≢ r.0 → r.1.blocks x ≡ h.blocks x
  pub heap : IsHeap r.1

pub apart : {a q b p : Ptr} → IsBetween a q b → p ≢ null → p < a → q ≢ p
apart (inl e) ne lt = λ same. ne (sym same ∙ e)
apart (inr (le, less)) ne lt = λ same. absurd (omega (arith, same, le, lt))

pub widen : {a q b c : Ptr} → IsBetween a q b → b ≤ c → IsBetween a q c
widen (inl e) le = inl e
widen (inr (from, less)) le = inr (from, omega (arith, less, le))

pub set_string-IsStored :
    (p : Ptr) (i : Ptr → InfoBlock) (o : CharPtr) (h : Heap)
    → IsHeap h
    → p ≢ null
    → p < h.brk
    → IsStored p i o h (set_string p i o h)
unfolding set_string put
set_string-IsStored p i o h ok ne lt =
    let dup = strdup-IsDup h ok o in
    let block = some (service_info (i (strdup o h).0)) in
    let blocks = (strdup o h).1.blocks in
    record {
      place = dup.place;
      grows = dup.grows;
      string = record {
        text = update-ne blocks block (apart dup.place ne lt) ∙ dup.text;
        read = dup.read;
      };
      struct = update_self blocks p block;
      same = λ x other new. update-ne blocks block other ∙ dup.same x new;
      heap =
          put-IsHeap (strdup o h).1 dup.heap p (service_info (i (strdup o h).0)) ne
            (let grows = dup.grows in omega (arith, lt, grows));
    }

module _ {p : Ptr} {i : Ptr → InfoBlock} {o : CharPtr} {h : Heap} {r : Ptr × Heap} where
  pub IsStored-kept :
      IsHeap h → IsStored p i o h r → (x : Ptr) → x ≢ p → x < h.brk → r.1.blocks x ≡ h.blocks x
  IsStored-kept ok set x other lt = kept set.place
    where
      kept : IsBetween h.brk r.0 r.1.brk → r.1.blocks x ≡ h.blocks x
      kept (inr (le, less)) = set.same x other λ e. absurd (omega (arith, e, le, lt))
      kept (inl is_null) = elim (Bool-cases (x == null)) [
        | inl null ↦
            let e : x ≡ 0 = ground arith in
            ap r.1.blocks e ∙ set.heap.nothing ∙ sym ok.nothing ∙ sym (ap h.blocks e)
        | inr there ↦ set.same x other λ e. absurd (ground (arith, there, e, is_null))
      ]

  pub HasString-kept :
      IsHeap h
      → IsStored p i o h r
      → {q : Ptr} {text : CharPtr} {a : Ptr} → IsBetween a q h.brk
      → p ≢ null
      → p < a
      → HasString q text h
      → HasString q text r.1
  HasString-kept ok set {q} {text} between ne lt has = record {
    text = IsStored-kept ok set q (apart between ne lt) (below between) ∙ has.text;
    read = has.read;
  }
    where
      below : {a : Ptr} → IsBetween a q h.brk → q < h.brk
      below (inl e) = let pos = ok.positive in omega (arith, e, pos)
      below (inr (le, less)) = less
