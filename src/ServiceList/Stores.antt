-- ===== src/ServiceList/Stores.antt =====
-- The linked list as an implementation of the registry: what a client of c/provider/comm/list.c may
-- rely on, without the addresses.
use mini_service_discover.Base.{
  ℕ, suc, ◌+◌, ◌≤◌, ◌<◌, ◌≡◌, refl, ap, ◌∙◌, inl, some, List, [], ◌∷◌, ◌++◌, arith, length, All,
  All-append,
}
use mini_service_discover.Base.Outcome.{Returns, weaken-Returns}
use mini_service_discover.CString.{Str}
use mini_service_discover.Memory.{Ptr, ServiceInfo, Memory, empty_memory}
use mini_service_discover.ServiceList.{
  ServiceList, Code, init_list, list_add, list_remove, list_get,
}
use mini_service_discover.ServiceList.Registry.{Registry, IsNamed, contains, erase, register}
use mini_service_discover.ServiceList.Registry.Laws.{HasNames, IsNamed-of_HasNames, erase-All}
use mini_service_discover.ServiceList.Chain.{Entry, values, IsList, IsList-frame, not-has_info}
use mini_service_discover.ServiceList.Remove.{list_remove-erase}
use mini_service_discover.ServiceList.Erase.{AllNamed}
use mini_service_discover.ServiceList.Erase.{code, erase_entry, values-erase_entry}
use mini_service_discover.ServiceList.Add.{list_add-Added}
use mini_service_discover.ServiceList.Get.{named_at, PointsTo, list_get-named_at}

-- `l` is a list in `m` that stands for `r`, with every object below `b`; all its services have names.
pub record Stores (b : ℕ) (m : Memory) (l : ServiceList) (r : Registry) : Type 0 where
  pub entries : List Entry
  pub list : IsList b m l entries
  pub stands : values entries ≡ r
  pub named : All (λ i. IsNamed i) r

abbrev all_named :
    {b : ℕ} {m : Memory} {l : ServiceList} {r : Registry} (s : Stores b m l r) → AllNamed s.entries
all_named s = rw s.stands s.named

pub Stores-init : Stores 1 empty_memory init_list []
Stores-init = record {
  entries = [];
  list = record { head = refl; tail = inl refl; chain = tt; room = omega arith };
  stands = refl;
  named = tt;
}

-- Writes outside of the list's objects do not matter.
pub Stores-frame :
    (b c : ℕ) (m g : Memory) (l : ServiceList) (r : Registry)
    → Stores b m l r
    → b ≤ c
    → ((a : Ptr) → a < b → g.nodes a ≡ m.nodes a)
    → ((a : Ptr) → a < b → g.infos a ≡ m.infos a)
    → Stores c g l r
Stores-frame b c m g l r s le nodes infos = record {
  entries = s.entries;
  list =
      IsList-frame b m g l s.entries s.list le nodes
        λ a i. infos a (ground (arith, not-has_info b m a s.entries s.list.chain));
  stands = s.stands;
  named = s.named;
}

-- `list_remove` of two names, on a list of named services that stands for `r` and lies within
-- memory, returns: 0 if `r` contains such a service and else -1, with a list that stands for `r`
-- without it; no info changes, and nothing is allocated.
pub list_remove-Stores :
    (b : ℕ) (m : Memory) (l : ServiceList) (r : Registry) (dev svc : Str)
    → Stores b m l r
    → b ≤ m.brk
    → Returns
        (λ (t : Code × ServiceList × Memory).
          (t.0 ≡ code (contains dev svc r))
          × Stores b t.2 t.1 (erase dev svc r)
          × (t.2.infos ≡ m.infos)
          × (t.2.brk ≡ m.brk))
        (list_remove l (some dev) (some svc) m)
list_remove-Stores b m l r dev svc s le =
    weaken-Returns (list_remove-erase dev svc b m l s.entries s.list (all_named s) le) λ t gone. (
      rw (← s.stands) gone.found,
      record {
        entries = erase_entry dev svc s.entries;
        list = gone.list;
        stands = values-erase_entry dev svc s.entries ∙ ap (erase dev svc) s.stands;
        named = erase-All (λ j. IsNamed j) dev svc r s.named;
      },
      gone.same.infos,
      gone.same.brk,
    )

values-append : (es fs : List Entry) → values (es ++ fs) ≡ values es ++ values fs
values-append [] fs = refl
values-append (e ∷ es) fs = ap (λ r. e.value ∷ r) (values-append es fs)

-- `list_add` of an info with both names, which lies in memory behind the objects of a list of named
-- services that stands for `r`, returns: the list then stands for `register dev svc i r`, where the
-- info takes the place of a service with its names and goes last; the infos in memory are the same,
-- and one node was allocated.
pub list_add-Stores :
    (b : ℕ) (m : Memory) (l : ServiceList) (r : Registry) (dev svc : Str) (loc : Ptr)
    (i : ServiceInfo)
    → Stores b m l r
    → b ≤ loc
    → loc < m.brk
    → m.infos loc ≡ some i
    → HasNames dev svc i
    → Returns
        (λ (t : ServiceList × Memory).
          Stores (m.brk + 1) t.1 t.0 (register dev svc i r)
          × (t.1.infos ≡ m.infos)
          × (t.1.brk ≡ m.brk + 1))
        (list_add l loc m)
unfolding register
list_add-Stores b m l r dev svc loc i s le lt holds names =
    weaken-Returns
      (list_add-Added b m l s.entries dev svc loc i s.list (all_named s) (omega arith)
        (omega (arith, s.list.room)) lt holds (not-has_info b m loc s.entries s.list.chain le)
        names)
      λ t added. (
        record {
          entries = erase_entry dev svc s.entries ++ new ∷ [];
          list = added.list;
          stands = stands;
          named =
              All-append (λ j. IsNamed j) (erase dev svc r) (i ∷ [])
                (erase-All (λ j. IsNamed j) dev svc r s.named)
                (IsNamed-of_HasNames dev svc i names, tt);
        },
        added.infos,
        added.brk,
      )
  where
    new : Entry
    new = record { at = m.brk; loc = loc; value = i }

    stands : values (erase_entry dev svc s.entries ++ new ∷ []) ≡ erase dev svc r ++ i ∷ []
    stands =
        values-append (erase_entry dev svc s.entries) (new ∷ [])
        ∙ ap (λ q. q ++ i ∷ []) (values-erase_entry dev svc s.entries ∙ ap (erase dev svc) s.stands)

-- `list_get`, on a list of named services that stands for `r` and lies within memory, returns a
-- pointer to the service at the index if there is one and it has the name, and else NULL.
pub list_get-Stores :
    (b : ℕ) (m : Memory) (l : ServiceList) (r : Registry) (svc : Str) (index : ℕ)
    → Stores b m l r
    → b ≤ m.brk
    → Returns (λ p. PointsTo m p (named_at svc index r)) (list_get l (some svc) index m)
list_get-Stores b m l r svc index s le =
    rw (← s.stands) (list_get-named_at svc b m l s.entries index s.list (all_named s) le)

length-values : (es : List Entry) → length (values es) ≡ length es
length-values [] = refl
length-values (e ∷ es) = ap suc (length-values es)

pub Stores-length :
    {b : ℕ} {m : Memory} {l : ServiceList} {r : Registry} → Stores b m l r → length r < b
Stores-length s = omega (arith, ap length s.stands, length-values s.entries, s.list.room)
