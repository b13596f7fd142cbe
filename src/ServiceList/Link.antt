-- ===== src/ServiceList/Link.antt =====
-- The end of `list_add` of c/provider/comm/list.c: a node is linked behind the last one.
use mini_service_discover.Base.{
  ℕ, suc, ◌<◌, ◌≡◌, refl, sym, subst, ◌∙◌, ◌≢◌, inl, inr, false, ◌||◌, Option, some, List, [], ◌∷◌,
  ◌++◌, arith, ◌==◌, length, length-append, Bool-cases,
}
use mini_service_discover.Base.Outcome.{Returns, returns}
use mini_service_discover.Memory.{Ptr, null, Node, Memory, put_node}
use mini_service_discover.Memory.Laws.{not_null, set_next-done, update_self, update-ne}
use mini_service_discover.ServiceList.{ServiceList, link_last}
use mini_service_discover.ServiceList.Chain.{
  Entry, has_node, has_info, first, last_at, last_loc, Cell, Cell-frame, IsChain, IsTail, IsList,
  last_at-ne, has_node-append, has_info-append,
}

-- `x` lies in memory with no successor.
abbrev pub IsLoose : ℕ → Memory → Entry → Type 0
IsLoose b m x = Cell b m x null

pub other_way : (a b : ℕ) → ((a == b) || false) ≡ false → ((b == a) || false) ≡ false
other_way a b h = ground arith

module _ (b : ℕ) (m : Memory) (x : Entry) (loose : IsLoose b m x) where
  abbrev linked : Entry → List Entry → Memory
  linked e es = put_node (last_at e es) (some (record { info = last_loc e es; next = x.at })) m

  last_node :
      (e : Entry) (es : List Entry)
      → IsChain b m (e ∷ es)
      → (m.nodes (last_at e es) ≡ some (record { info = last_loc e es; next = null }))
        × (last_at e es ≢ null)
  last_node e [] c = (c.0.node, c.0.at_ne)
  last_node e (f ∷ es) c = last_node f es c.3

  -- A write at another node leaves `x` as it is.
  still_loose : {p : Ptr} (n : Option Node) → x.at ≢ p → Cell b (put_node p n m) x null
  still_loose n ne = Cell-frame b m _ loose (omega arith) (update-ne m.nodes n ne ∙ loose.node) refl

  linked-IsChain :
      (e : Entry) (es : List Entry)
      → IsChain b m (e ∷ es)
      → has_node x.at (e ∷ es) ≡ false
      → has_info x.loc (e ∷ es) ≡ false
      → IsChain b (linked e es) (e ∷ es ++ x ∷ [])
  linked-IsChain e [] c out out' = (
    Cell-frame b m _ c.0 (omega arith) (update_self m.nodes e.at _) refl,
    other_way x.at e.at out,
    other_way x.loc e.loc out',
    (still_loose _ (λ q. ground arith), refl, refl, tt),
  )
  linked-IsChain e (f ∷ es) c out out' = (
    Cell-frame b m _ c.0 (omega arith)
        (update-ne m.nodes _ (λ q. last_at-ne e.at f es c.1 (sym q)) ∙ c.0.node) refl,
    ground (arith, has_node-append e.at es (x ∷ [])),
    ground (arith, has_info-append e.loc es (x ∷ [])),
    linked-IsChain f es c.3 (ground arith) (ground arith),
  )

  last_at-append : (e : Entry) (es : List Entry) → last_at e (es ++ x ∷ []) ≡ x.at
  last_at-append e [] = refl
  last_at-append e (f ∷ es) = last_at-append f es

  -- The outcome of the end of `list_add`.
  pub record Linked (es : List Entry) (r : ServiceList × Memory) : Type 0 where
    pub list : IsList b r.1 r.0 (es ++ x ∷ [])
    pub infos : r.1.infos ≡ m.infos
    pub brk : r.1.brk ≡ m.brk

  -- The list is empty; its tail may be a node that was removed.
  link-empty :
      (t : Ptr)
      → IsTail b m t []
      → 1 < b
      → t ≢ x.at
      → Returns (Linked []) (link_last (record { head = null; tail = t }) x.at m)
  unfolding link_last
  link-empty t (inl e) room ne = rw e (
      returns (record {
        list = record { head = refl; tail = refl; chain = (loose, refl, refl, tt); room = room };
        infos = refl;
        brk = refl;
      }))
  link-empty t (inr (lt, n, node)) room ne = elim (Bool-cases (t == null)) [
    | inl nil ↦ rw nil (
        returns (record {
          list = record { head = refl; tail = refl; chain = (loose, refl, refl, tt); room = room };
          infos = refl;
          brk = refl;
        }))
    | inr there ↦
        rw (there, set_next-done m (ground arith) node x.at)
          (returns (record {
            list = record {
              head = refl;
              tail = refl;
              chain = (still_loose _ (λ e. ne (sym e)), refl, refl, tt);
              room = room;
            };
            infos = refl;
            brk = refl;
          }))
  ]

  link-entries :
      (t : Ptr) (es : List Entry)
      → IsList b m (record { head = first es; tail = t }) es
      → suc (length es) < b
      → (has_node x.at es ≡ false) × (has_info x.loc es ≡ false) × (t ≢ x.at)
      → Returns (Linked es) (link_last (record { head = first es; tail = t }) x.at m)
  unfolding link_last
  link-entries t [] is room out = link-empty t is.tail room out.2
  link-entries t (e ∷ es) is room out =
      let (node, ne) = last_node e es is.chain in
      rw (is.tail, not_null ne, not_null is.chain.0.at_ne, set_next-done m ne node x.at)
        (returns (record {
          list = record {
            head = refl;
            tail = sym (last_at-append e es);
            chain = linked-IsChain e es is.chain out.0 out.1;
            room = omega (arith, length-append es (x ∷ []));
          };
          infos = refl;
          brk = refl;
        }))

  -- The new node goes behind the last one.
  pub link_last-append :
      (l : ServiceList) (es : List Entry)
      → IsList b m l es
      → suc (length es) < b
      → (has_node x.at es ≡ false) × (has_info x.loc es ≡ false) × (l.tail ≢ x.at)
      → Returns (Linked es) (link_last l x.at m)
  link_last-append l es is room out =
      subst (λ h. Returns (Linked es) (link_last (record { head = h; tail = l.tail }) x.at m))
        (sym is.head)
        (link-entries l.tail es
          (record { head = refl; tail = is.tail; chain = is.chain; room = is.room }) room out)
