-- ===== src/ServiceList/Remove.antt =====
-- `list_remove` of c/provider/comm/list.c: the loop, and the unlinking of a node, on a list in
-- memory.
use mini_service_discover.Base.{
  ℕ, zero, suc, ◌≤◌, ◌<◌, ◌≡◌, refl, ap, sym, subst, ◌∙◌, inl, inr, true, false, Option, some, List,
  [], ◌∷◌, arith, if◌then◌else◌, length, Bool-cases,
}
use mini_service_discover.Base.Outcome.{done, ◌>>=◌, Returns, returns, then-Returns, weaken-Returns}
use mini_service_discover.CString.{Str, strcmp_equal}
use mini_service_discover.Memory.{Ptr, null, ServiceInfo, Memory, put_node}
use mini_service_discover.Memory.Laws.{not_null, load_node-done, load_info-done, set_next-done}
use mini_service_discover.ServiceList.{
  ServiceList, Code, success, is_service, unlink, remove_loop, list_remove,
}
use mini_service_discover.ServiceList.Registry.{is_named, IsNamed, contains}
use mini_service_discover.ServiceList.Chain.{
  Entry, values, first, last_at, Cell, Cell-frame, IsChain, IsTail, IsList, SameOutside,
  IsChain-frame,
}
use mini_service_discover.ServiceList.Erase.{
  AllNamed, erase_entry, code, not-has_node-erase, not-has_info-erase, length-erase_entry-le,
}

module _ (dev svc : Str) where
  strcmp-is_named :
      (i : ServiceInfo)
      → IsNamed i
      → (do
        same ← strcmp_equal i.device_name (some dev)
        if same then strcmp_equal i.service_name (some svc) else done false)
        ≡ done (is_named dev svc i)
  unfolding strcmp_equal
  strcmp-is_named i h = ground arith

  module _ {b : ℕ} {m : Memory} {e : Entry} {next : Ptr} (c : Cell b m e next)
      (named : IsNamed e.value) where
    is_service-named : is_service e.loc (some dev) (some svc) m ≡ done (is_named dev svc e.value)
    unfolding is_service
    is_service-named =
        rw (not_null c.loc_ne, load_info-done m c.loc_ne c.holds) (strcmp-is_named e.value named)

  -- What the loop comes to, behind the node of `p`.
  record Scan (b : ℕ) (l : ServiceList) (m : Memory) (p : Entry) (es : List Entry)
      (r : Code × ServiceList × Memory) : Type 0 where
    found : r.0 ≡ code (contains dev svc (values es))
    head : r.1.head ≡ l.head
    tail : r.1.tail ≡ last_at p (erase_entry dev svc es)
    chain : IsChain b r.2 (p ∷ erase_entry dev svc es)
    same : SameOutside (p ∷ es) m r.2

  module _ (b : ℕ) (l : ServiceList) (m : Memory) (p e : Entry) where
    abbrev relinked : List Entry → Memory
    relinked es = put_node p.at (some (record { info = p.loc; next = first es })) m

    relinked-IsChain :
        (es : List Entry) → IsChain b m (p ∷ e ∷ es) → IsChain b (relinked es) (p ∷ es)
    relinked-IsChain es c = (
      Cell-frame b m (relinked es) c.0 (omega arith) (ground arith) refl,
      ground arith,
      ground arith,
      IsChain-frame b m (relinked es) es c.3.3 (omega arith) (λ a h. ground arith) (λ a h. refl),
    )

    relinked-SameOutside : (es : List Entry) → SameOutside (p ∷ e ∷ es) m (relinked es)
    relinked-SameOutside es = record { nodes = λ a h. ground arith; infos = refl; brk = refl }

    -- The node of `e` is unlinked from behind `p`.
    unlink-Scan :
        (es : List Entry)
        → IsChain b m (p ∷ e ∷ es)
        → is_named dev svc e.value ≡ true
        → l.tail ≡ last_at e es
        → Returns
            (λ (r : ServiceList × Memory). Scan b l m p (e ∷ es) (success, r.0, r.1))
            (unlink l p.at (first es) m)
    unfolding unlink contains
    unlink-Scan [] c hit t =
        rw (not_null c.0.at_ne, set_next-done m c.0.at_ne c.0.node null)
          (returns (record {
            found = rw hit;
            head = refl;
            tail = rw hit;
            chain = rw hit (relinked-IsChain [] c);
            same = relinked-SameOutside [];
          }))
    unlink-Scan (f ∷ es) c hit t =
        rw (not_null c.0.at_ne, not_null c.3.3.0.at_ne, set_next-done m c.0.at_ne c.0.node f.at)
          (returns (record {
            found = rw hit;
            head = refl;
            tail = rw hit t;
            chain = rw hit (relinked-IsChain (f ∷ es) c);
            same = relinked-SameOutside (f ∷ es);
          }))

    Scan-cons :
        (es : List Entry)
        → IsChain b m (p ∷ e ∷ es)
        → is_named dev svc e.value ≡ false
        → (r : Code × ServiceList × Memory) → Scan b l m e es r
        → Scan b l m p (e ∷ es) r
    unfolding contains
    Scan-cons es c miss r s = record {
      found = rw miss s.found;
      head = s.head;
      tail = rw miss s.tail;
      chain = rw miss (
        Cell-frame b m r.2 c.0 (omega arith) (s.same.nodes p.at c.1 ∙ c.0.node)
            (ap (λ (f : Ptr → Option ServiceInfo). f p.loc) s.same.infos),
        ground (arith, not-has_node-erase dev svc p.at es),
        ground (arith, not-has_info-erase dev svc p.loc es),
        s.chain,
      );
      same = record {
        nodes = λ a h. s.same.nodes a (ground arith);
        infos = s.same.infos;
        brk = s.same.brk;
      };
    }

  -- The loop, behind the first node.
  remove_loop-Scan :
      (k b : ℕ) (l : ServiceList) (m : Memory) (p : Entry) (es : List Entry)
      → IsChain b m (p ∷ es)
      → AllNamed es
      → l.tail ≡ last_at p es
      → length es < k
      → Returns (Scan b l m p es) (remove_loop k l p.at (first es) (some dev) (some svc) m)
  unfolding remove_loop contains
  remove_loop-Scan zero b l m p es c n t h = absurd (omega arith)
  remove_loop-Scan (suc k) b l m p [] c n t h = returns (record {
    found = refl;
    head = refl;
    tail = t;
    chain = c;
    same = record { nodes = λ a out. refl; infos = refl; brk = refl };
  })
  remove_loop-Scan (suc k) b l m p (e ∷ es) c n t h =
      let cell = c.3.0 in
      rw (not_null cell.at_ne, load_node-done m cell.at_ne cell.node, is_service-named cell n.0)
        (elim (Bool-cases (is_named dev svc e.value)) [
          | inl hit ↦ rw hit (then-Returns (unlink-Scan b l m p e es c hit t) λ r s. returns s)
          | inr miss ↦ rw miss (
              weaken-Returns (remove_loop-Scan k b l m e es c.3 n.1 t (omega arith))
                (Scan-cons b l m p e es c miss))
        ])

  -- The outcome of `list_remove` on a list of the entries `es`.
  pub record Removed (b : ℕ) (m : Memory) (es : List Entry) (r : Code × ServiceList × Memory)
      : Type 0 where
    pub found : r.0 ≡ code (contains dev svc (values es))
    pub list : IsList b r.2 r.1 (erase_entry dev svc es)
    pub same : SameOutside es m r.2

  IsTail-after_head :
      (b : ℕ) (m : Memory) (t : Ptr) (e : Entry) (es : List Entry)
      → Cell b m e (first es)
      → t ≡ last_at e es
      → IsTail b m t es
  IsTail-after_head b m t e [] c h = inr (rw h (c.at_lt, _, c.node))
  IsTail-after_head b m t e (f ∷ es) c h = h

  remove-entries :
      (b : ℕ) (m : Memory) (t : Ptr) (es : List Entry)
      → IsList b m (record { head = first es; tail = t }) es
      → AllNamed es
      → b ≤ m.brk
      → Returns
          (Removed b m es)
          (list_remove (record { head = first es; tail = t }) (some dev) (some svc) m)
  unfolding list_remove remove_loop unlink contains
  remove-entries b m t [] is n le = returns (record {
    found = refl;
    list = is;
    same = record { nodes = λ a out. refl; infos = refl; brk = refl };
  })
  remove-entries b m t (e ∷ es) is n le =
      let cell = is.chain.0 in
      rw (not_null cell.at_ne, load_node-done m cell.at_ne cell.node, is_service-named cell n.0)
        (elim (Bool-cases (is_named dev svc e.value)) [
          | inl hit ↦ rw hit (
              returns (record {
                found = rw hit;
                list = rw hit (record {
                  head = refl;
                  tail = IsTail-after_head b m t e es cell is.tail;
                  chain = is.chain.3;
                  room = omega (arith, is.room);
                });
                same = record { nodes = λ a out. refl; infos = refl; brk = refl };
              }))
          | inr miss ↦ rw miss (
              weaken-Returns
                (remove_loop-Scan m.brk b _ m e es is.chain n.1 is.tail (omega (arith, is.room)))
                λ r s. record {
                  found = rw miss s.found;
                  list = rw miss (record {
                    head = s.head;
                    tail = s.tail;
                    chain = s.chain;
                    room = omega (arith, is.room, length-erase_entry-le dev svc es);
                  });
                  same = s.same;
                })
        ])

  -- On a list of named services `list_remove` takes out the first one with the two names, says
  -- whether there was one, and changes nothing but nodes of the list.
  pub list_remove-erase :
      (b : ℕ) (m : Memory) (l : ServiceList) (es : List Entry)
      → IsList b m l es
      → AllNamed es
      → b ≤ m.brk
      → Returns (Removed b m es) (list_remove l (some dev) (some svc) m)
  list_remove-erase b m l es is n le =
      subst
        (λ h.
          Returns (Removed b m es)
            (list_remove (record { head = h; tail = l.tail }) (some dev) (some svc) m))
        (sym is.head)
        (remove-entries b m l.tail es
          (record { head = refl; tail = is.tail; chain = is.chain; room = is.room }) n le)
