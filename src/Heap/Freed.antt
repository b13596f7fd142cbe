-- ===== src/Heap/Freed.antt =====
-- What free_service_info of c/provider/comm/protocal.c leaves of a service that get_service_info made.
use mini_service_discover.Base.{
  ◌+◌, ◌≤◌, ◌≡◌, ◌≢◌, refl, ap, sym, ◌∙◌, none, some, inl, inr, ◌⊎◌, Bool-cases, ◌==◌, arith,
}
use mini_service_discover.Base.Outcome.{done, ◌>>=◌, Returns, then-Returns, weaken-Returns}
use mini_service_discover.CString.{CharPtr}
use mini_service_discover.Memory.{Ptr, null, ServiceInfo}
use mini_service_discover.Protocol.{Packet}
use mini_service_discover.Protocol.Cjson.{Cjson}
use mini_service_discover.Protocol.Decode.{get_service_info}
use mini_service_discover.Heap.{
  service_info, Heap, load_service_info, free_service_info_block, get_service_info_block,
}
use mini_service_discover.Heap.Laws.{
  IsHeap, IsBetween, IsWithout, free-IsWithout, free_string-IsWithout,
}
use mini_service_discover.Heap.Strings.{HasString, apart, widen}
use mini_service_discover.Heap.Built.{IsServiceInfo, get_service_info_block-IsServiceInfo}

-- All blocks since the heap `h` were given back but this string, if it is one.
pub record Leaks (o : CharPtr) (h k : Heap) : Type 0 where
  pub string : Ptr
  pub place : (string ≡ null) ⊎ (h.brk ≤ string)
  pub text : HasString string o k
  pub rest : (x : Ptr) → x ≢ string → k.blocks x ≡ h.blocks x

-- Of two pointers that were allocated one after the other, the later one is another one, or NULL.
later : {a p b q c : Ptr} → IsBetween a p b → IsBetween b q c → 1 ≤ b → (q ≢ p) ⊎ (q ≡ null)
later before (inl e) pos = inr e
later (inl e) (inr (le, less)) pos = inl λ same. absurd (omega (arith, e, same, le, pos))
later (inr (from, to)) (inr (le, less)) pos = inl λ same. absurd (omega (arith, same, le, to))

module _ {q : Ptr} {h k : Heap} (nothing : h.blocks null ≡ none) (freed : IsWithout q h k) where
  pub IsWithout-nothing : k.blocks null ≡ none
  IsWithout-nothing = elim (Bool-cases (q == null)) [
    | inl is_null ↦ let e : q ≡ null = ground arith in sym (ap k.blocks e) ∙ freed.gone
    | inr there ↦ freed.same null (λ e. absurd (ground (arith, there, e))) ∙ nothing
  ]

  pub IsWithout-kept : {x : Ptr} → (x ≢ q) ⊎ (x ≡ null) → k.blocks x ≡ h.blocks x
  IsWithout-kept {x} (inl ne) = freed.same x ne
  IsWithout-kept {x} (inr e) = ap k.blocks e ∙ IsWithout-nothing ∙ sym nothing ∙ sym (ap h.blocks e)

  pub HasString-kept :
      {x : Ptr} {o : CharPtr} → (x ≢ q) ⊎ (x ≡ null) → HasString x o h → HasString x o k
  HasString-kept other has = record { text = IsWithout-kept other ∙ has.text; read = has.read }

-- One block more is as in the heap `h`.
pub IsWithout-back :
    (h : Heap) {q x : Ptr} {a b : Heap}
    → IsWithout q a b
    → h.blocks q ≡ none
    → (x ≢ q → a.blocks x ≡ h.blocks x)
    → b.blocks x ≡ h.blocks x
IsWithout-back h {q} {x} {a} {b} freed nothing before = elim (Bool-cases (x == q)) [
  | inl same ↦
      let e : x ≡ q = ground arith in ap b.blocks e ∙ freed.gone ∙ sym nothing ∙ sym (ap h.blocks e)
  | inr other ↦
      let ne : x ≢ q = λ e. absurd (ground (arith, other, e)) in freed.same x ne ∙ before ne
]

-- A pointer that was allocated later.
pub new_nothing :
    {a q b : Ptr} {h : Heap} → IsHeap h → IsBetween a q b → h.brk ≤ a → h.blocks q ≡ none
new_nothing {h = h} ok (inl e) le = ap h.blocks e ∙ ok.nothing
new_nothing {q = q} ok (inr (from, to)) le = ok.fresh q (omega (arith, le, from))

module _ (v : ServiceInfo) (h : Heap) (ok : IsHeap h) (r : Ptr × Heap)
    (made : IsServiceInfo v h r) where
  struct_there : load_service_info r.0 r.1 ≡ done made.block
  unfolding load_service_info
  struct_there = rw made.struct refl

  abbrev p : Ptr
  p = r.0

  not_null : p ≢ null
  not_null = λ e. absurd (let at = made.at in let pos = ok.positive in omega (arith, e, at, pos))

  -- The struct is apart from its strings.
  struct_apart : {a q b : Ptr} → IsBetween a q b → h.brk + 1 ≤ a → p ≢ q
  struct_apart between le =
      λ e. apart between not_null (let at = made.at in omega (arith, at, le)) (sym e)

  starts : (h.brk + 1 ≤ made.ends.0) × (h.brk + 1 ≤ made.ends.1) × (h.brk + 1 ≤ made.ends.2)
  starts =
      let (g0, g1, g2, g3) = made.grows in (g0, omega (arith, g0, g1), omega (arith, g0, g1, g2))

  IsWithout-Leaks :
      {k1 k2 k3 k4 : Heap}
      → IsWithout made.block.device_name r.1 k1
      → IsWithout made.block.service_name k1 k2
      → IsWithout made.block.ip k2 k3
      → IsWithout p k3 k4
      → Leaks v.info h k4
  IsWithout-Leaks {k1} {k2} {k3} {k4} w1 w2 w3 w4 =
      let (b0, b1, b2) = starts in
      let (g0, g1, g2, g3) = made.grows in
      let n = made.info_place in
      let h0 = made.heap.nothing in
      let h1 = IsWithout-nothing h0 w1 in
      let h2 = IsWithout-nothing h1 w2 in
      let h3 = IsWithout-nothing h2 w3 in
      record {
        string = made.block.info;
        place = long_after n b2;
        text = HasString-kept h3 w4 (inl λ e. struct_apart n b2 (sym e)) (
            HasString-kept h2 w3 (later made.ip_place n (omega (arith, b2))) (
              HasString-kept h1 w2 (later (widen made.service_name_place g2) n (omega (arith, b2)))
                (HasString-kept h0 w1
                  (later (widen made.device_name_place (omega (arith, g1, g2))) n
                    (omega (arith, b2)))
                  made.info)));
        rest = λ x other.
            IsWithout-back h w4 (ok.fresh p (let at = made.at in omega (arith, at))) λ no_p.
              IsWithout-back h w3 (new_nothing ok made.ip_place (omega (arith, b1))) λ no_i.
                IsWithout-back h w2 (new_nothing ok made.service_name_place (omega (arith, b0)))
                  λ no_s.
                    IsWithout-back h w1 (new_nothing ok made.device_name_place (omega arith))
                      λ no_d. made.same x no_p no_d no_s no_i other;
      }
    where
      long_after : {a q b : Ptr} → IsBetween a q b → h.brk + 1 ≤ a → (q ≡ null) ⊎ (h.brk ≤ q)
      long_after (inl e) le = inl e
      long_after (inr (from, to)) le = inr (omega (arith, from, le))

  struct_kept :
      {k1 k2 k3 : Heap}
      → IsWithout made.block.device_name r.1 k1
      → IsWithout made.block.service_name k1 k2
      → IsWithout made.block.ip k2 k3
      → k3.blocks p ≡ some (service_info made.block)
  struct_kept w1 w2 w3 =
      let (b0, b1, b2) = starts in
      w3.same p (struct_apart made.ip_place b1)
      ∙ w2.same p (struct_apart made.service_name_place b0)
      ∙ w1.same p (struct_apart made.device_name_place (omega arith))
      ∙ made.struct

  free_service_info_block-Leaks : Returns (Leaks v.info h) (free_service_info_block p r.1)
  unfolding free_service_info_block
  free_service_info_block-Leaks =
      let d = made.device_name_place in
      let s = made.service_name_place in
      let i = made.ip_place in
      let (g0, g1, g2, g3) = made.grows in
      let (b0, b1, b2) = starts in
      let pos0 : 1 ≤ made.ends.0 = omega (arith, b0) in
      let pos1 : 1 ≤ made.ends.1 = omega (arith, b1) in
      let h0 = made.heap.nothing in
      let o = v.device_name in
      rw struct_there (
        then-Returns
          (free_string-IsWithout r.1 made.block.device_name o h0 made.device_name.text
            made.device_name.read)
          λ k1 w1.
            let s1 = HasString-kept h0 w1 (later d s pos0) made.service_name in
            let i1 = HasString-kept h0 w1 (later (widen d g1) i pos1) made.ip in
            let h1 = IsWithout-nothing h0 w1 in
            then-Returns
              (free_string-IsWithout k1 made.block.service_name v.service_name h1 s1.text s1.read)
              λ k2 w2.
                let i2 = HasString-kept h1 w2 (later s i pos1) i1 in
                let h2 = IsWithout-nothing h1 w2 in
                then-Returns (free_string-IsWithout k2 made.block.ip v.ip h2 i2.text i2.read)
                  λ k3 w3.
                    weaken-Returns
                      (free-IsWithout k3 p (service_info made.block) not_null
                        (struct_kept w1 w2 w3))
                      λ k4 w4. IsWithout-Leaks w1 w2 w3 w4)

-- `free_service_info` of what `get_service_info` made of a packet with a service, on a heap where
-- nothing lives at NULL or at addresses still to come, returns, and gives back all blocks but one:
-- the string of `info`, if the service has one, stays, and what lived before is untouched.
pub free_service_info_block-get_service_info_block :
    (c : Cjson) (pkt : Packet) (v : ServiceInfo) (h : Heap)
    → IsHeap h
    → get_service_info c pkt ≡ done (some v)
    → Returns
        (Leaks v.info h)
        (get_service_info_block c pkt h >>= λ r. free_service_info_block r.0 r.1)
free_service_info_block-get_service_info_block c pkt v h ok e =
    then-Returns (get_service_info_block-IsServiceInfo c pkt v h ok e)
      λ r made. free_service_info_block-Leaks v h ok r made
