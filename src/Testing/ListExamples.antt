-- ===== src/Testing/ListExamples.antt =====
-- A list of two services, at explicit addresses.
use mini_service_discover.Base.{◌+◌, ◌≡◌, refl, some, List, [], ◌∷◌, arith}
use mini_service_discover.Base.Outcome.{Returns}
use mini_service_discover.CString.{codes}
use mini_service_discover.Memory.{null, ServiceInfo, Memory, empty_memory, put_info, put_node}
use mini_service_discover.ServiceList.{
  ServiceList, Code, list_add, list_remove, list_get, deinit_list,
}
use mini_service_discover.ServiceList.Registry.{Registry, contains, erase, register}
use mini_service_discover.ServiceList.Chain.{Entry, IsList}
use mini_service_discover.ServiceList.Erase.{code}
use mini_service_discover.ServiceList.Get.{named_at, PointsTo}
use mini_service_discover.ServiceList.Deinit.{Without, deinit_list-Without}
use mini_service_discover.ServiceList.Stores.{
  Stores, list_remove-Stores, list_add-Stores, list_get-Stores,
}
use mini_service_discover.Protocol.RoundTrip.{service}
use mini_service_discover.Testing.Data.{box, music, host, note, box_service}

abbrev lamp_service : ServiceInfo
lamp_service = service (codes "lamp") music host note 81

abbrev entries : List Entry
entries =
    record { at = 2; loc = 1; value = box_service }
    ∷ record { at = 4; loc = 3; value = lamp_service }
    ∷ []

abbrev memory : Memory
memory = put_node 2 (some (record { info = 1; next = 4 })) (
    put_node 4 (some (record { info = 3; next = null })) (
      put_info 1 (some box_service) (
        put_info 3 (some lamp_service)
          (put_info 5 (some box_service) (record empty_memory { brk = 6 })))))

abbrev list : ServiceList
list = record { head = 2; tail = 4 }

abbrev registry : Registry
registry = box_service ∷ lamp_service ∷ []

list-IsList : IsList 5 memory list entries
list-IsList = record {
  head = refl;
  tail = refl;
  chain = (
    record {
      at_ne = omega arith;
      loc_ne = omega arith;
      at_lt = omega arith;
      loc_lt = omega arith;
      node = refl;
      holds = refl;
    },
    refl,
    refl,
    (
      record {
        at_ne = omega arith;
        loc_ne = omega arith;
        at_lt = omega arith;
        loc_lt = omega arith;
        node = refl;
        holds = refl;
      },
      refl,
      refl,
      tt,
    ),
  );
  room = omega arith;
}

list-Stores : Stores 5 memory list registry
list-Stores = record {
  entries = entries;
  list = list-IsList;
  stands = refl;
  named = (record { device = tt; service = tt }, (record { device = tt; service = tt }, tt));
}

list_remove-Stores_example :
    Returns
      (λ (t : Code × ServiceList × Memory).
        (t.0 ≡ code (contains (codes "lamp") music registry))
        × Stores 5 t.2 t.1 (erase (codes "lamp") music registry)
        × (t.2.infos ≡ memory.infos)
        × (t.2.brk ≡ memory.brk))
      (list_remove list (some (codes "lamp")) (some music) memory)
list_remove-Stores_example =
    list_remove-Stores 5 memory list registry (codes "lamp") music list-Stores (omega arith)

-- The service is registered again.
list_add-Stores_example :
    Returns
      (λ (t : ServiceList × Memory).
        Stores (memory.brk + 1) t.1 t.0 (register box music box_service registry)
        × (t.1.infos ≡ memory.infos)
        × (t.1.brk ≡ memory.brk + 1))
      (list_add list 5 memory)
list_add-Stores_example =
    list_add-Stores 5 memory list registry box music 5 box_service list-Stores (omega arith)
      (omega arith) refl (refl, refl)

list_get-Stores_example :
    Returns
      (λ p. PointsTo memory p (named_at music 1 registry))
      (list_get list (some music) 1 memory)
list_get-Stores_example = list_get-Stores 5 memory list registry music 1 list-Stores (omega arith)

deinit_list-Without_example : Returns (Without entries memory) (deinit_list list memory)
deinit_list-Without_example = deinit_list-Without 5 list memory entries list-IsList (omega arith)
