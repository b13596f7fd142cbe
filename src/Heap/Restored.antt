-- ===== src/Heap/Restored.antt =====
-- get_result and free_result, get_pkt and free_pkt of c/provider/comm/protocal.c: all that was taken is
-- given back.
use mini_service_discover.Base.{
  ◌+◌, ◌≡◌, ◌≢◌, refl, sym, ◌∙◌, Option, none, some, inl, inr, Bool-cases, ◌==◌, replicate, arith,
}
use mini_service_discover.Base.Outcome.{
  Outcome, done, ◌>>=◌, >>=-done, Returns, then-Returns, weaken-Returns,
}
use mini_service_discover.CString.{CharPtr, codes}
use mini_service_discover.Memory.{Ptr, null}
use mini_service_discover.Memory.Laws.{update_self, update-ne}
use mini_service_discover.Buffer.{load16}
use mini_service_discover.Protocol.{Packet, action_fail, code_of, udp_comm_buf_len}
use mini_service_discover.Protocol.Cjson.{Cjson}
use mini_service_discover.Protocol.Decode.{json_data, string_of, get_result}
use mini_service_discover.Heap.{
  Block, result_info, service_pkt, bytes, Heap, put, malloc, strdup, free, load_result_info,
  load_service_pkt, make_result_info, free_result, get_result_block, get_pkt_block, free_pkt_block,
}
use mini_service_discover.Heap.Laws.{
  IsHeap, block_of, IsDup, malloc-IsHeap, strdup-IsDup, IsWithout, free-IsWithout,
  free_string-IsWithout,
}
use mini_service_discover.Heap.Strings.{apart}
use mini_service_discover.Heap.Freed.{IsWithout-back, new_nothing}

-- The same blocks live.
pub record IsRestored (h k : Heap) : Type 0 where
  pub same : (x : Ptr) → k.blocks x ≡ h.blocks x

module _ (h : Heap) (ok : IsHeap h) where
  abbrev p : Ptr
  p = h.brk

  not_null : p ≢ null
  not_null = λ e. absurd (let pos = ok.positive in omega (arith, e, pos))

  -- A block at `p`, and another one that it points to.
  record IsPair (b : Block) (q : Ptr) (k : Heap) : Type 0 where
    struct : k.blocks p ≡ some b
    other : q ≢ p
    new : h.blocks q ≡ none
    nothing : k.blocks null ≡ none
    rest : (x : Ptr) → x ≢ p → x ≢ q → k.blocks x ≡ h.blocks x

  -- Once the other one was given back, so is the block at `p`.
  pair_freed :
      {b : Block} {q : Ptr} {k l : Heap}
      → IsPair b q k
      → IsWithout q k l
      → Returns (IsRestored h) (free p l)
  pair_freed {b} {q} {k} {l} pair without =
      weaken-Returns
        (free-IsWithout l p b not_null (without.same p (λ e. pair.other (sym e)) ∙ pair.struct))
        λ last freed. record {
          same = λ x.
              IsWithout-back h freed (ok.fresh p (omega arith))
                λ no_p. IsWithout-back h without pair.new λ no_q. pair.rest x no_p no_q;
        }

  module _ (reason : CharPtr) where
    abbrev made : Heap
    made = (malloc (result_info null) h).1

    dup : IsDup reason made (strdup reason made)
    dup = strdup-IsDup made (malloc-IsHeap h ok (result_info null)) reason

    made-brk : made.brk ≡ p + 1
    unfolding malloc
    made-brk = refl

    made-ne : (x : Ptr) → x ≢ p → made.blocks x ≡ h.blocks x
    unfolding malloc
    made-ne x ne = update-ne h.blocks (some (result_info null)) ne

    make_result_info-IsPair :
        IsPair
          (result_info (strdup reason made).0)
          (strdup reason made).0
          (make_result_info reason h).1
    unfolding make_result_info put malloc
    make_result_info-IsPair =
        let from = made-brk in
        let block = some (result_info (strdup reason made).0) in
        let blocks = (strdup reason made).1.blocks in
        record {
          struct = update_self blocks p block;
          other = apart dup.place not_null (omega (arith, from));
          new = new_nothing ok dup.place (omega (arith, from));
          nothing = update-ne blocks block (λ e. not_null (sym e)) ∙ dup.heap.nothing;
          rest = λ x no_p no_q. update-ne blocks block no_p ∙ dup.same x no_q ∙ made-ne x no_p;
        }

    reason_text : (make_result_info reason h).1.blocks (strdup reason made).0 ≡ block_of reason
    unfolding make_result_info put malloc
    reason_text =
        let from = made-brk in
        update-ne (strdup reason made).1.blocks (some (result_info (strdup reason made).0))
          (apart dup.place not_null (omega (arith, from)))
        ∙ dup.text

    free_result-make_result_info :
        Returns
          (IsRestored h)
          (free_result (make_result_info reason h).0 (make_result_info reason h).1)
    unfolding free_result load_result_info make_result_info put malloc
    free_result-make_result_info =
        let pair = make_result_info-IsPair in
        rw pair.struct (
          then-Returns
            (free_string-IsWithout (make_result_info reason h).1 (strdup reason made).0 reason
              pair.nothing reason_text dup.read)
            λ l freed. pair_freed pair freed)

  -- The packet of `get_pkt` and its bytes, the block after it.
  get_pkt_block-IsPair : IsPair (service_pkt (p + 1) udp_comm_buf_len) (p + 1) (get_pkt_block h).1
  unfolding get_pkt_block put malloc
  get_pkt_block-IsPair = record {
    struct = ground arith;
    other = λ e. absurd (omega (arith, e));
    new = ok.fresh (p + 1) (omega arith);
    nothing = let pos = ok.positive in let nothing = ok.nothing in ground arith;
    rest = λ x no_p no_q. ground arith;
  }

  free_pkt_block-get_pkt_block :
      Returns (IsRestored h) (free_pkt_block (get_pkt_block h).0 (get_pkt_block h).1)
  unfolding free_pkt_block load_service_pkt get_pkt_block put malloc
  free_pkt_block-get_pkt_block =
      let pair = get_pkt_block-IsPair in
      rw pair.struct (
        then-Returns
          (free-IsWithout (get_pkt_block h).1 (p + 1) (bytes (replicate udp_comm_buf_len 0))
            (λ e. absurd (omega (arith, e))) data_there)
          λ l freed. pair_freed pair freed)
    where
      data_there : (get_pkt_block h).1.blocks (p + 1) ≡ some (bytes (replicate udp_comm_buf_len 0))
      data_there = ground arith

-- `free_result` of what `get_result` made of a packet with a reason, on a heap where nothing lives
-- at NULL or at addresses still to come, returns, and gives back all that was allocated; what lived
-- before is untouched.
pub free_result-get_result_block :
    (c : Cjson) (pkt : Packet) (o : CharPtr) (h : Heap)
    → IsHeap h
    → get_result c pkt ≡ done (some o)
    → Returns (IsRestored h) (get_result_block c pkt h >>= λ r. free_result r.0 r.1)
unfolding get_result get_result_block
free_result-get_result_block c pkt o h ok e =
    let (action, loaded, e) = >>=-done (load16 2 pkt.bytes) e in
    elim (Bool-cases (action == code_of action_fail)) [
      | inr other ↦ absurd (let e = rw other at e in ground (arith, e))
      | inl fail ↦
          let e = rw fail at e in
          let (text, read, e) = >>=-done (json_data pkt) e in
          rw (loaded, fail, read) (of_tree (c.parse text) e)
    ]
  where
    of_tree :
        (json : Option c.Tree)
        → ◌≡◌ {A = Outcome (Option CharPtr)}
            (elim json [
              | none ↦ done none
              | some j ↦ done (some (string_of (c.get_item j (codes "reason"))))
            ])
            (done (some o))
        → Returns (IsRestored h) (
            ◌>>=◌ {A = Ptr × Heap}
              (elim json [
                | none ↦ done (null, h)
                | some j ↦ done (make_result_info (string_of (c.get_item j (codes "reason"))) h)
              ])
              λ r. free_result r.0 r.1)
    of_tree none e = absurd (ground (arith, e))
    of_tree (some j) e =
        free_result-make_result_info h ok (string_of (c.get_item j (codes "reason")))
