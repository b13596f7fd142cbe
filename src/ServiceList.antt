-- ===== src/ServiceList.antt =====
-- c/provider/comm/list.c: the linked list of services. A `service_info_list` is a value that each
-- function takes and returns. Each loop runs on fuel; the callers give `brk + 1` rounds, more than
-- there are nodes.
pub mod Add
pub mod Link
pub mod Chain
pub mod Deinit
pub mod Stores
pub mod Get
pub mod Remove
pub mod Erase
pub mod Registry
use mini_service_discover.Base.{
  ℕ, zero, suc, ◌+◌, Bool, true, false, not, ◌||◌, Option, none, some, ◌==◌, if◌then◌else◌,
}
use mini_service_discover.Base.Outcome.{Outcome, done, undefined, out_of_fuel, ◌>>=◌}
use mini_service_discover.CString.{CharPtr, strcmp_equal}
use mini_service_discover.Memory.{
  Ptr, null, ServiceInfo, Node, Memory, load_node, load_info, new_node, set_next, set_info,
  free_node, free_info,
}

-- `service_info_list`
pub record ServiceList : Type 0 where
  pub head : Ptr
  pub tail : Ptr

-- What the `int` functions return: 0 or -1.
pub data Code : Type 0 where
  success failure : Code

unfoldable pub get_node : Memory → Ptr × Memory
get_node m = new_node m

abbrev pub init_list : ServiceList
init_list = record { head = null; tail = null }

-- The start of `list_add`: a node for `info`, with no successor.
unfoldable pub make_node : Ptr → Memory → Outcome (Ptr × Memory)
make_node info m = do
  let (node, m) = get_node m
  m ← set_info node info m
  m ← set_next node null m
  done (node, m)

-- The test of the loop in `list_remove`: the second name is compared only if the first agrees.
unfoldable pub is_service : Ptr → CharPtr → CharPtr → Memory → Outcome Bool
is_service p device_name service_name m = if p == null then done false else do
  i ← load_info p m
  same ← strcmp_equal i.device_name device_name
  if same then strcmp_equal i.service_name service_name else done false

-- Takes the node between `prev` and `next` out of the list.
unfoldable pub unlink : ServiceList → Ptr → Ptr → Memory → Outcome (ServiceList × Memory)
unlink l prev next m =
    if prev == null
    then done (record l { head = next }, m)
    else if next == null
    then (do m' ← set_next prev null m; done (record l { tail = prev }, m'))
    else (do m' ← set_next prev next m; done (l, m'))

unfoldable pub remove_loop :
    ℕ → ServiceList → Ptr → Ptr → CharPtr → CharPtr → Memory → Outcome (Code × ServiceList × Memory)
remove_loop zero l prev node device_name service_name m = out_of_fuel
remove_loop (suc k) l prev node device_name service_name m =
    if node == null then done (failure, l, m) else do
      n ← load_node node m
      hit ← is_service n.info device_name service_name m
      if hit
          then (do (l', m') ← unlink l prev n.next m; done (success, l', m'))
          else remove_loop k l node n.next device_name service_name m

unfoldable pub list_remove :
    ServiceList → CharPtr → CharPtr → Memory → Outcome (Code × ServiceList × Memory)
list_remove l device_name service_name m =
    remove_loop (suc m.brk) l null l.head device_name service_name m

-- The end of `list_add`: `node` becomes the last node.
unfoldable pub link_last : ServiceList → Ptr → Memory → Outcome (ServiceList × Memory)
link_last l node m =
    let head = if l.head == null then node else l.head in
    if l.tail == null
    then done (record { head = head; tail = node }, m)
    else (do m' ← set_next l.tail node m; done (record { head = head; tail = node }, m'))

unfoldable pub list_add : ServiceList → Ptr → Memory → Outcome (ServiceList × Memory)
list_add l info m = do
  (node, m) ← make_node info m
  i ← load_info info m
  (_, l, m) ← list_remove l i.device_name i.service_name m
  link_last l node m

-- The test of the loop in `list_get`: the name is compared only at the index asked for.
unfoldable pub is_wanted : Ptr → ℕ → CharPtr → ℕ → Memory → Outcome Bool
is_wanted p i service_name index m =
    if (p == null) || not (i == index)
    then done false
    else do s ← load_info p m; strcmp_equal s.service_name service_name

unfoldable pub get_loop : ℕ → Ptr → ℕ → CharPtr → ℕ → Memory → Outcome Ptr
get_loop zero node i service_name index m = out_of_fuel
get_loop (suc k) node i service_name index m = if node == null then done null else do
  n ← load_node node m
  hit ← is_wanted n.info i service_name index m
  if hit then done n.info else get_loop k n.next (i + 1) service_name index m

unfoldable pub list_get : ServiceList → CharPtr → ℕ → Memory → Outcome Ptr
list_get l service_name index m = get_loop (suc m.brk) l.head 0 service_name index m

unfoldable pub deinit_loop : ℕ → Ptr → Memory → Outcome Memory
deinit_loop zero node m = out_of_fuel
deinit_loop (suc k) node m = if node == null then done m else do
  n ← load_node node m
  m ← (if n.info == null then done m else free_info n.info m)
  m ← free_node node m
  deinit_loop k n.next m

unfoldable pub deinit_list : ServiceList → Memory → Outcome Memory
deinit_list l m = deinit_loop (suc m.brk) l.head m
