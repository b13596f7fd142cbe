-- ===== src/Memory.antt =====
-- The heap objects of the C library: `service_info` (c/provider/comm/protocal.h) and
-- `service_info_node` (c/provider/comm/list.h), at addresses that `malloc` hands out.
-- Nodes and infos have different types, so no pointer to one is a pointer to the other: each kind
-- has a map of its own. `malloc` succeeds and hands out a new address each time, `brk`.
pub mod Laws
use mini_service_discover.Base.{ℕ, ◌+◌, Bool, Option, none, some, ◌==◌, if◌then◌else◌}
use mini_service_discover.Base.Outcome.{Outcome, done, undefined, ◌>>=◌, fetch}
use mini_service_discover.CString.{CharPtr}

abbrev pub Ptr : Type 0
Ptr = ℕ

abbrev pub null : Ptr
null = 0

-- `service_info`; `port` is a uint16_t
pub record ServiceInfo : Type 0 where
  pub device_name : CharPtr
  pub service_name : CharPtr
  pub ip : CharPtr
  pub info : CharPtr
  pub port : ℕ

-- `service_info_node`
pub record Node : Type 0 where
  pub info : Ptr
  pub next : Ptr

pub record Memory : Type 0 where
  pub nodes : Ptr → Option Node
  pub infos : Ptr → Option ServiceInfo
  pub brk : Ptr

abbrev pub empty_memory : Memory
empty_memory = record { nodes = λ _. none; infos = λ _. none; brk = 1 }

abbrev pub update {ℓ} : {A : Type ℓ} → (Ptr → Option A) → Ptr → Option A → Ptr → Option A
update f a c x = if x == a then c else f x

-- `*p`: undefined at NULL and where no object lives
unfoldable pub load_node : Ptr → Memory → Outcome Node
load_node p m = if p == null then undefined else fetch (m.nodes p)

unfoldable pub load_info : Ptr → Memory → Outcome ServiceInfo
load_info p m = if p == null then undefined else fetch (m.infos p)

abbrev pub put_node : Ptr → Option Node → Memory → Memory
put_node p n m = record m { nodes = update m.nodes p n }

abbrev pub put_info : Ptr → Option ServiceInfo → Memory → Memory
put_info p i m = record m { infos = update m.infos p i }

-- `malloc` of a node; `bzero` makes its pointers NULL
unfoldable pub new_node : Memory → Ptr × Memory
new_node m = (
  m.brk,
  put_node m.brk (some (record { info = null; next = null })) (record m { brk = m.brk + 1 }),
)

-- `malloc` of an info that is then filled with `i`
unfoldable pub new_info : ServiceInfo → Memory → Ptr × Memory
new_info i m = (m.brk, put_info m.brk (some i) (record m { brk = m.brk + 1 }))

-- `p->next = q`
unfoldable pub set_next : Ptr → Ptr → Memory → Outcome Memory
unfolding load_node
set_next p q m = do n ← load_node p m; done (put_node p (some (record n { next = q })) m)

-- `p->info = q`
unfoldable pub set_info : Ptr → Ptr → Memory → Outcome Memory
unfolding load_node
set_info p q m = do n ← load_node p m; done (put_node p (some (record n { info = q })) m)

unfoldable pub free_node : Ptr → Memory → Outcome Memory
unfolding load_node
free_node p m = do n ← load_node p m; done (put_node p none m)

unfoldable pub free_info : Ptr → Memory → Outcome Memory
unfolding load_info
free_info p m = do i ← load_info p m; done (put_info p none m)

-- `free_service_info` of c/provider/comm/protocal.c. The strings of an info are part of its value
-- here, so only the struct is given back.
unfoldable pub free_service_info : Ptr → Memory → Outcome Memory
free_service_info p m = free_info p m
