-- ===== src/ServiceList/Get.antt =====
-- `list_get` of c/provider/comm/list.c: the loop on a list in memory.
use mini_service_discover.Base.{
  ℕ, zero, suc, ◌+◌, ◌≤◌, ◌<◌, ◌≡◌, refl, ◌≢◌, inl, inr, true, false, ◌&&◌, Option, none, some,
  List, [], ◌∷◌, arith, ◌==◌, if◌then◌else◌, length, Bool-cases,
}
use mini_service_discover.Base.Outcome.{done, Returns, returns}
use mini_service_discover.CString.{Str, strcmp_equal}
use mini_service_discover.Memory.{Ptr, null, ServiceInfo, Memory}
use mini_service_discover.Memory.Laws.{not_null, load_node-done, load_info-done}
use mini_service_discover.ServiceList.{ServiceList, is_wanted, get_loop, list_get}
use mini_service_discover.ServiceList.Registry.{Registry, IsNamed, text_eq}
use mini_service_discover.ServiceList.Chain.{Entry, values, first, Cell, IsChain, IsList}
use mini_service_discover.ServiceList.Erase.{AllNamed}

-- the service at the index, if it has the name
unfoldable pub named_at : Str → ℕ → Registry → Option ServiceInfo
named_at svc index [] = none
named_at svc zero (i ∷ r) = if text_eq i.service_name svc then some i else none
named_at svc (suc index) (i ∷ r) = named_at svc index r

-- a pointer to an info of the list, or NULL
abbrev pub PointsTo : Memory → Ptr → Option ServiceInfo → Type 0
PointsTo m p none = p ≡ null
PointsTo m p (some i) = (p ≢ null) × (m.infos p ≡ some i)

module _ (svc : Str) (b : ℕ) (m : Memory) where
  is_wanted-here :
      (e : Entry) (q : Ptr) (i index : ℕ)
      → Cell b m e q
      → IsNamed e.value
      → is_wanted e.loc i (some svc) index m
        ≡ done ((i == index) && text_eq e.value.service_name svc)
  unfolding is_wanted strcmp_equal
  is_wanted-here e q i index c n = elim (Bool-cases (i == index)) [
    | inl here ↦
        rw (not_null c.loc_ne, here, load_info-done m c.loc_ne c.holds) (named_test e.value n)
    | inr there ↦ rw (not_null c.loc_ne, there) refl
  ]
    where
      named_test :
          (i : ServiceInfo)
          → IsNamed i
          → strcmp_equal i.service_name (some svc) ≡ done (text_eq i.service_name svc)
      named_test i n = ground arith

  -- past the index, the loop runs to the end and finds nothing
  get_loop-past :
      (k i index : ℕ) (es : List Entry)
      → IsChain b m es
      → AllNamed es
      → length es < k
      → index < i
      → get_loop k (first es) i (some svc) index m ≡ done null
  unfolding get_loop
  get_loop-past zero i index es c n h lt = absurd (omega arith)
  get_loop-past (suc k) i index [] c n h lt = refl
  get_loop-past (suc k) i index (e ∷ es) c n h lt =
      let cell = c.0 in
      let there : (i == index) ≡ false = ground arith in
      rw
        (
          not_null cell.at_ne,
          load_node-done m cell.at_ne cell.node,
          is_wanted-here e (first es) i index cell n.0,
          there,
        )
        (get_loop-past k (i + 1) index es c.3 n.1 (omega arith) (omega arith))

  -- from index `i` on, the loop answers for the index `i + d`
  get_loop-ahead :
      (k i d : ℕ) (es : List Entry)
      → IsChain b m es
      → AllNamed es
      → length es < k
      → Returns
          (λ p. PointsTo m p (named_at svc d (values es)))
          (get_loop k (first es) i (some svc) (i + d) m)
  unfolding get_loop named_at
  get_loop-ahead zero i d es c n h = absurd (omega arith)
  get_loop-ahead (suc k) i d [] c n h = returns refl
  get_loop-ahead (suc k) i zero (e ∷ es) c n h =
      let cell = c.0 in
      let here : (i == i + 0) ≡ true = ground arith in
      rw
        (
          not_null cell.at_ne,
          load_node-done m cell.at_ne cell.node,
          is_wanted-here e (first es) i (i + 0) cell n.0,
          here,
        )
        (elim (Bool-cases (text_eq e.value.service_name svc)) [
          | inl hit ↦ rw hit (returns (cell.loc_ne, cell.holds))
          | inr miss ↦ rw miss (
              rw (get_loop-past k (i + 1) (i + 0) es c.3 n.1 (omega arith) (omega arith))
                (returns refl))
        ])
  get_loop-ahead (suc k) i (suc d) (e ∷ es) c n h =
      let cell = c.0 in
      let there : (i == i + suc d) ≡ false = ground arith in
      let step : i + suc d ≡ i + 1 + d = omega arith in
      rw
        (
          not_null cell.at_ne,
          load_node-done m cell.at_ne cell.node,
          is_wanted-here e (first es) i (i + suc d) cell n.0,
          there,
        )
        (rw step (get_loop-ahead k (i + 1) d es c.3 n.1 (omega arith)))

  get-entries :
      (h : Ptr) (tail : Ptr) (index : ℕ) (es : List Entry)
      → h ≡ first es
      → IsChain b m es
      → AllNamed es
      → length es ≤ m.brk
      → Returns
          (λ p. PointsTo m p (named_at svc index (values es)))
          (list_get (record { head = h; tail = tail }) (some svc) index m)
  unfolding list_get
  get-entries h tail index es e c n le =
      let zero_add : 0 + index ≡ index = omega arith in
      rw e (rw zero_add at (get_loop-ahead (suc m.brk) 0 index es c n (omega arith)))

  -- `list_get` on a list of named services returns, and changes nothing.
  pub list_get-named_at :
      (l : ServiceList) (es : List Entry) (index : ℕ)
      → IsList b m l es
      → AllNamed es
      → b ≤ m.brk
      → Returns (λ p. PointsTo m p (named_at svc index (values es))) (list_get l (some svc) index m)
  list_get-named_at l es index is n le =
      get-entries l.head l.tail index es is.head is.chain n (omega (arith, is.room))
