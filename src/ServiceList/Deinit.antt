-- ===== src/ServiceList/Deinit.antt =====
-- `deinit_list` of c/provider/comm/list.c: the loop on a list in memory.
use mini_service_discover.Base.{
  ℕ, zero, suc, ◌≤◌, ◌<◌, ◌≡◌, refl, none, List, [], ◌∷◌, arith, if◌then◌else◌, length,
}
use mini_service_discover.Base.Outcome.{Returns, returns, weaken-Returns}
use mini_service_discover.Memory.{Ptr, Memory, put_node, put_info}
use mini_service_discover.Memory.Laws.{not_null, load_node-done, free_info-done, free_node-done}
use mini_service_discover.ServiceList.{ServiceList, deinit_loop, deinit_list}
use mini_service_discover.ServiceList.Chain.{
  Entry, has_node, has_info, first, IsChain, IsList, IsChain-frame,
}

-- `g` is `m` less the nodes and the infos of `es`.
pub record Without (es : List Entry) (m g : Memory) : Type 0 where
  pub nodes : (a : Ptr) → g.nodes a ≡ (if has_node a es then none else m.nodes a)
  pub infos : (a : Ptr) → g.infos a ≡ (if has_info a es then none else m.infos a)

module _ (b : ℕ) where
  deinit_loop-Without :
      (k : ℕ) (m : Memory) (es : List Entry)
      → IsChain b m es
      → length es < k
      → Returns (Without es m) (deinit_loop k (first es) m)
  unfolding deinit_loop
  deinit_loop-Without zero m es c h = absurd (omega arith)
  deinit_loop-Without (suc k) m [] c h = returns (record { nodes = λ a. refl; infos = λ a. refl })
  deinit_loop-Without (suc k) m (e ∷ es) c h =
      let cell = c.0 in
      let m' : Memory = put_info e.loc none m in
      let m'' : Memory = put_node e.at none m' in
      let rest : IsChain b m'' es =
        IsChain-frame b m m'' es c.3 (omega arith) (λ a i. ground arith) (λ a i. ground arith) in
      rw
        (
          not_null cell.at_ne,
          load_node-done m cell.at_ne cell.node,
          not_null cell.loc_ne,
          free_info-done m cell.loc_ne cell.holds,
          free_node-done m' cell.at_ne cell.node,
        )
        (weaken-Returns (deinit_loop-Without k m'' es rest (omega arith)) λ g gone. record {
          nodes = λ a. ground (arith, gone.nodes a);
          infos = λ a. ground (arith, gone.infos a);
        })

  deinit-entries :
      (h t : Ptr) (m : Memory) (es : List Entry)
      → h ≡ first es
      → IsChain b m es
      → length es ≤ m.brk
      → Returns (Without es m) (deinit_list (record { head = h; tail = t }) m)
  unfolding deinit_list
  deinit-entries h t m es e c le = rw e (deinit_loop-Without (suc m.brk) m es c (omega arith))

  -- `deinit_list`, on a list of the entries `es` that lies within memory, returns, and frees
  -- exactly the nodes and the infos of the list, each once.
  pub deinit_list-Without :
      (l : ServiceList) (m : Memory) (es : List Entry)
      → IsList b m l es
      → b ≤ m.brk
      → Returns (Without es m) (deinit_list l m)
  deinit_list-Without l m es is le =
      deinit-entries l.head l.tail m es is.head is.chain (omega (arith, is.room))
