-- ===== src/ServiceList/Chain.antt =====
-- The nodes and infos that a `service_info_list` consists of, as a list of entries: the address of
-- each node, the address of its info, and the info.
use mini_service_discover.Base.{
  ℕ, ◌≤◌, ◌<◌, ◌≡◌, refl, ◌∙◌, ◌≢◌, ◌⊎◌, inl, inr, Bool, true, false, ◌||◌, some, List, [], ◌∷◌,
  ◌++◌, arith, ◌==◌, length,
}
use mini_service_discover.Memory.{Ptr, null, ServiceInfo, Node, Memory}
use mini_service_discover.ServiceList.{ServiceList}
use mini_service_discover.ServiceList.Registry.{Registry}

pub record Entry : Type 0 where
  pub at : Ptr
  pub loc : Ptr
  pub value : ServiceInfo

abbrev pub values : List Entry → Registry
values [] = []
values (e ∷ es) = e.value ∷ values es

abbrev pub has_node : Ptr → List Entry → Bool
has_node a [] = false
has_node a (e ∷ es) = (a == e.at) || has_node a es

abbrev pub has_info : Ptr → List Entry → Bool
has_info a [] = false
has_info a (e ∷ es) = (a == e.loc) || has_info a es

-- where the list that holds `es` begins
abbrev pub first : List Entry → Ptr
first [] = null
first (e ∷ es) = e.at

-- the last node of a list that begins with `e`
abbrev pub last_at : Entry → List Entry → Ptr
last_at e [] = e.at
last_at e (f ∷ es) = last_at f es

abbrev pub last_loc : Entry → List Entry → Ptr
last_loc e [] = e.loc
last_loc e (f ∷ es) = last_loc f es

-- `e` lies in memory, below `b`, with `next` behind it
pub record Cell (b : ℕ) (m : Memory) (e : Entry) (next : Ptr) : Type 0 where
  pub at_ne : e.at ≢ null
  pub loc_ne : e.loc ≢ null
  pub at_lt : e.at < b
  pub loc_lt : e.loc < b
  pub node : m.nodes e.at ≡ some (record { info = e.loc; next = next })
  pub holds : m.infos e.loc ≡ some e.value

-- the entries `es`, linked in this order, no node and no info twice
abbrev pub IsChain : ℕ → Memory → List Entry → Type 0
IsChain b m [] = Unit
IsChain b m (e ∷ es) =
    Cell b m e (first es)
    × (has_node e.at es ≡ false)
    × (has_info e.loc es ≡ false)
    × IsChain b m es

-- The tail pointer is the last node. In an empty list it may be NULL, or what the removal of the
-- only node left there: a node that no list holds.
abbrev pub IsTail : ℕ → Memory → Ptr → List Entry → Type 0
IsTail b m t [] = (t ≡ null) ⊎ ((t < b) × (n : Node) × (m.nodes t ≡ some n))
IsTail b m t (e ∷ es) = t ≡ last_at e es

-- `l` is a list of the entries `es`, all of whose addresses lie below `b`.
pub record IsList (b : ℕ) (m : Memory) (l : ServiceList) (es : List Entry) : Type 0 where
  pub head : l.head ≡ first es
  pub tail : IsTail b m l.tail es
  pub chain : IsChain b m es
  pub room : length es < b

-- `m` and `g` differ at most at the nodes of `es`
pub record SameOutside (es : List Entry) (m g : Memory) : Type 0 where
  pub nodes : (a : Ptr) → has_node a es ≡ false → g.nodes a ≡ m.nodes a
  pub infos : g.infos ≡ m.infos
  pub brk : g.brk ≡ m.brk

pub has_node-append :
    (a : Ptr) (es fs : List Entry) → has_node a (es ++ fs) ≡ (has_node a es || has_node a fs)
has_node-append a [] fs = refl
has_node-append a (e ∷ es) fs = ground (arith, has_node-append a es fs)

pub has_info-append :
    (a : Ptr) (es fs : List Entry) → has_info a (es ++ fs) ≡ (has_info a es || has_info a fs)
has_info-append a [] fs = refl
has_info-append a (e ∷ es) fs = ground (arith, has_info-append a es fs)

pub last_at-ne :
    (a : Ptr) (e : Entry) (es : List Entry) → has_node a (e ∷ es) ≡ false → last_at e es ≢ a
last_at-ne a e [] h = ground arith
last_at-ne a e (f ∷ es) h = last_at-ne a f es (ground arith)

module _ (b : ℕ) (m : Memory) where
  -- an address from `b` on is no node of the list
  pub not-has_node : (a : Ptr) (es : List Entry) → IsChain b m es → b ≤ a → has_node a es ≡ false
  not-has_node a [] c h = refl
  not-has_node a (e ∷ es) c h = ground (arith, not-has_node a es c.3 h, c.0.at_lt)

  pub not-has_info : (a : Ptr) (es : List Entry) → IsChain b m es → b ≤ a → has_info a es ≡ false
  not-has_info a [] c h = refl
  not-has_info a (e ∷ es) c h = ground (arith, not-has_info a es c.3 h, c.0.loc_lt)

  -- A cell in another memory, perhaps with another successor.
  pub Cell-frame :
      (g : Memory) {c : ℕ} {e : Entry} {q r : Ptr}
      → Cell b m e q
      → b ≤ c
      → g.nodes e.at ≡ some (record { info = e.loc; next = r })
      → g.infos e.loc ≡ m.infos e.loc
      → Cell c g e r
  Cell-frame g h le node keep = record {
    at_ne = h.at_ne;
    loc_ne = h.loc_ne;
    at_lt = omega (arith, h.at_lt);
    loc_lt = omega (arith, h.loc_lt);
    node = node;
    holds = keep ∙ h.holds;
  }

  -- A list survives any change that spares its nodes and infos.
  pub IsChain-frame :
      (g : Memory) {c : ℕ} (es : List Entry)
      → IsChain b m es
      → b ≤ c
      → ((a : Ptr) → has_node a es ≡ true → g.nodes a ≡ m.nodes a)
      → ((a : Ptr) → has_info a es ≡ true → g.infos a ≡ m.infos a)
      → IsChain c g es
  IsChain-frame g [] h le keep keep' = tt
  IsChain-frame g (e ∷ es) h le keep keep' = (
    Cell-frame g h.0 le (keep e.at (ground arith) ∙ h.0.node) (keep' e.loc (ground arith)),
    h.1,
    h.2,
    IsChain-frame g es h.3 le (λ a i. keep a (ground arith)) (λ a i. keep' a (ground arith)),
  )

  -- The same for the whole list; nodes that the list does not hold may change, but not vanish.
  pub IsList-frame :
      (g : Memory) {c : ℕ} (l : ServiceList) (es : List Entry)
      → IsList b m l es
      → b ≤ c
      → ((a : Ptr) → a < b → g.nodes a ≡ m.nodes a)
      → ((a : Ptr) → has_info a es ≡ true → g.infos a ≡ m.infos a)
      → IsList c g l es
  IsList-frame g {c} l es h le keep keep' = record {
    head = h.head;
    tail = tail_frame l.tail es h.tail;
    chain = IsChain-frame g es h.chain le (λ a i. keep a (node_lt a es h.chain i)) keep';
    room = omega (arith, h.room);
  }
    where
      node_lt : (a : Ptr) (es : List Entry) → IsChain b m es → has_node a es ≡ true → a < b
      node_lt a [] c i = cc
      node_lt a (e ∷ es) c i = ground (arith, c.0.at_lt, node_lt a es c.3)

      tail_frame : (t : Ptr) (es : List Entry) → IsTail b m t es → IsTail c g t es
      tail_frame t [] (inl e) = inl e
      tail_frame t [] (inr (lt, n, node)) = inr (omega arith, n, keep t lt ∙ node)
      tail_frame t (e ∷ es) k = k

  last_at-lt : (e : Entry) (es : List Entry) → IsChain b m (e ∷ es) → last_at e es < b
  last_at-lt e [] c = c.0.at_lt
  last_at-lt e (f ∷ es) c = last_at-lt f es c.3

  pub tail-lt : (l : ServiceList) (es : List Entry) → IsList b m l es → l.tail < b
  tail-lt l es h = tail_of es h.tail h.chain
    where
      tail_of : (es : List Entry) → IsTail b m l.tail es → IsChain b m es → l.tail < b
      tail_of [] (inl e) c = omega (arith, h.room)
      tail_of [] (inr (lt, n, node)) c = lt
      tail_of (e ∷ es) k c = omega (arith, last_at-lt e es c)
