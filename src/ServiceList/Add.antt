-- ===== src/ServiceList/Add.antt =====
-- `list_add` of c/provider/comm/list.c: the new node, and its link behind the last node.
use mini_service_discover.Base.{
  ℕ, ◌+◌, ◌≤◌, ◌<◌, ◌≡◌, refl, ap, ◌∙◌, ◌≢◌, false, Option, some, List, [], ◌∷◌, ◌++◌, arith,
}
use mini_service_discover.Base.Outcome.{Returns, returns, then-Returns, weaken-Returns}
use mini_service_discover.CString.{Str}
use mini_service_discover.Memory.{Ptr, null, ServiceInfo, Node, Memory, put_node, new_node}
use mini_service_discover.Memory.Laws.{load_info-done, set_next-done, set_info-done}
use mini_service_discover.ServiceList.{ServiceList, Code, get_node, make_node, link_last, list_add}
use mini_service_discover.ServiceList.Chain.{
  Entry, has_info, Cell, IsChain, IsList, not-has_node, IsList-frame, tail-lt,
}
use mini_service_discover.ServiceList.Remove.{Removed, list_remove-erase}
use mini_service_discover.ServiceList.Erase.{AllNamed}
use mini_service_discover.ServiceList.Erase.{erase_entry, not-has_node-erase, not-has_info-erase}
use mini_service_discover.ServiceList.Link.{link_last-append}

-- A new node for the info at `loc`; all else is as it was.
record Made (m : Memory) (loc : Ptr) (r : Ptr × Memory) : Type 0 where
  at : r.0 ≡ m.brk
  node : r.1.nodes m.brk ≡ some (record { info = loc; next = null })
  same : (a : Ptr) → a < m.brk → r.1.nodes a ≡ m.nodes a
  infos : r.1.infos ≡ m.infos
  brk : r.1.brk ≡ m.brk + 1

make_node-Made : (m : Memory) (loc : Ptr) → m.brk ≢ null → Returns (Made m loc) (make_node loc m)
unfolding make_node get_node new_node
make_node-Made m loc pos =
    let m' : Memory = (get_node m).1 in
    let bare : Node = record { info = null; next = null } in
    let held : Node = record { info = loc; next = null } in
    rw
      (
        set_info-done m' pos {n = bare} (ground arith) loc,
        set_next-done (put_node m.brk (some held) m') pos {n = held} (ground arith) null,
      )
      (returns (record {
        at = refl;
        node = ground arith;
        same = λ a lt. ground arith;
        infos = refl;
        brk = refl;
      }))

-- The outcome of `list_add`: the registry without the names of `i`, then `i`, in a node of its own.
pub record Added (m : Memory) (loc : Ptr) (i : ServiceInfo) (es : List Entry)
    (r : ServiceList × Memory) : Type 0 where
  pub list : IsList (m.brk + 1) r.1 r.0 (es ++ record { at = m.brk; loc = loc; value = i } ∷ [])
  pub infos : r.1.infos ≡ m.infos
  pub brk : r.1.brk ≡ m.brk + 1

module _ (b : ℕ) (m : Memory) (l : ServiceList) (es : List Entry) (dev svc : Str) where
  abbrev others : List Entry
  others = erase_entry dev svc es

  abbrev new_entry : Ptr → ServiceInfo → Entry
  new_entry loc i = record { at = m.brk; loc = loc; value = i }

  -- After the removal the new node is linked.
  finish-Added :
      (loc : Ptr) (i : ServiceInfo) (r : Ptr × Memory) (s : Code × ServiceList × Memory)
      → IsChain b m es
      → b ≤ m.brk
      → loc ≢ null
      → loc < m.brk
      → m.infos loc ≡ some i
      → has_info loc es ≡ false
      → Made m loc r
      → Removed dev svc b r.1 es s
      → Returns (Added m loc i others) (link_last s.1 r.0 s.2)
  finish-Added loc i r s chain le ne lt holds apart made gone =
      let x = new_entry loc i in
      let is = gone.list in
      let out = not-has_node b m m.brk es chain le in
      let loose : Cell (m.brk + 1) s.2 x null = record {
        at_ne = omega (arith, is.room);
        loc_ne = ne;
        at_lt = omega arith;
        loc_lt = omega arith;
        node = gone.same.nodes m.brk out ∙ made.node;
        holds = rw (gone.same.infos, made.infos) holds;
      } in
      rw made.at (
        weaken-Returns
          (link_last-append (m.brk + 1) s.2 x loose s.1 others
            (IsList-frame b s.2 s.2 s.1 others is (omega arith) (λ a h. refl) (λ a h. refl))
            (omega (arith, is.room))
            (
              not-has_node-erase dev svc m.brk es out,
              not-has_info-erase dev svc loc es apart,
              omega (arith, tail-lt b s.2 s.1 others is),
            ))
          λ t done. record {
            list = done.list;
            infos = done.infos ∙ gone.same.infos ∙ made.infos;
            brk = done.brk ∙ gone.same.brk ∙ made.brk;
          })

  pub list_add-Added :
      (loc : Ptr) (i : ServiceInfo)
      → IsList b m l es
      → AllNamed es
      → b ≤ m.brk
      → loc ≢ null
      → loc < m.brk
      → m.infos loc ≡ some i
      → has_info loc es ≡ false
      → (i.device_name ≡ some dev) × (i.service_name ≡ some svc)
      → Returns (Added m loc i others) (list_add l loc m)
  unfolding list_add
  list_add-Added loc i is named le ne lt holds apart names =
      then-Returns (make_node-Made m loc (omega (arith, is.room))) λ r made.
        rw (load_info-done r.1 ne {i = i} (rw made.infos holds)) (
          simp (names.0, names.1)
            (then-Returns
              (list_remove-erase dev svc b r.1 l es
                (IsList-frame b m r.1 l es is (omega arith) (λ a h. made.same a (omega arith))
                  (λ a h. ap (λ (f : Ptr → Option ServiceInfo). f a) made.infos))
                named (omega (arith, made.brk)))
              λ s gone. finish-Added loc i r s is.chain le ne lt holds apart made gone))
