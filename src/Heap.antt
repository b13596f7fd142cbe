-- ===== src/Heap.antt =====
-- The blocks that get_service_info, get_result and get_pkt of c/provider/comm/protocal.c take from
-- `malloc` and `strdup`, the strings of a service and the bytes of a packet included, and the
-- functions that give them back. `malloc` succeeds and hands out a new address each time, `brk`; what
-- cJSON allocates is its own.
pub mod Laws
pub mod Strings
pub mod Built
pub mod Freed
pub mod Restored
use mini_service_discover.Base.{
  ℕ, ◌+◌, Bool, true, false, Option, none, some, List, ◌==◌, if◌then◌else◌, replicate,
}
use mini_service_discover.Base.Outcome.{Outcome, done, undefined, fetch, ◌>>=◌}
use mini_service_discover.CString.{Str, CharPtr, codes}
use mini_service_discover.Memory.{Ptr, null, update, ServiceInfo}
use mini_service_discover.Buffer.{load16}
use mini_service_discover.Protocol.{Packet, action_fail, code_of, udp_comm_buf_len}
use mini_service_discover.Protocol.Cjson.{Cjson, Item}
use mini_service_discover.Protocol.Decode.{json_data, string_of, info_of}

-- `service_info` with its pointers
pub record InfoBlock : Type 0 where
  pub device_name : Ptr
  pub service_name : Ptr
  pub ip : Ptr
  pub info : Ptr
  pub port : ℕ

-- What a block holds: a string, a `service_info`, a `result_info` with the pointer to its reason, a
-- `service_pkt` with the pointer to its bytes, or the bytes of a packet.
pub data Block : Type 0 where
  chars : Str → Block
  service_info : InfoBlock → Block
  result_info : Ptr → Block
  service_pkt : Ptr → ℕ → Block
  bytes : List ℕ → Block

pub record Heap : Type 0 where
  pub blocks : Ptr → Option Block
  pub brk : Ptr

unfoldable pub put : Ptr → Block → Heap → Heap
put p b h = record h { blocks = update h.blocks p (some b) }

-- `malloc` of a block that is then filled with `b`
unfoldable pub malloc : Block → Heap → Ptr × Heap
malloc b h = (h.brk, record { blocks = update h.blocks h.brk (some b); brk = h.brk + 1 })

-- `free`: of NULL it does nothing, and where no block lives it is undefined.
unfoldable pub free : Ptr → Heap → Outcome Heap
free p h =
    if p == null
    then done h
    else do b ← fetch (h.blocks p); done (record h { blocks = update h.blocks p none })

-- `if(q) free(q);`
unfoldable pub free_string : Ptr → Heap → Outcome Heap
free_string q h = if q == null then done h else free q h

-- `strdup` of a string that is there; else the pointer stays NULL, as `bzero` left it.
unfoldable pub strdup : CharPtr → Heap → Ptr × Heap
strdup none h = (null, h)
strdup (some s) h = malloc (chars s) h

abbrev info_in : Block → Outcome InfoBlock
info_in (service_info i) = done i
info_in _ = undefined

abbrev reason_in : Block → Outcome Ptr
reason_in (result_info q) = done q
reason_in _ = undefined

abbrev data_in : Block → Outcome Ptr
data_in (service_pkt q n) = done q
data_in _ = undefined

-- `*p`: undefined where no such block lives
unfoldable pub load_service_info : Ptr → Heap → Outcome InfoBlock
load_service_info p h = fetch (h.blocks p) >>= info_in

unfoldable pub load_result_info : Ptr → Heap → Outcome Ptr
load_result_info p h = fetch (h.blocks p) >>= reason_in

unfoldable pub load_service_pkt : Ptr → Heap → Outcome Ptr
load_service_pkt p h = fetch (h.blocks p) >>= data_in

-- what a `service_info` is after `bzero`
abbrev pub empty_info : InfoBlock
empty_info = record { device_name = null; service_name = null; ip = null; info = null; port = 0 }

-- `info->… = strdup(json_value->valuestring)`, for one of the pointers of the block `i` at `p`
unfoldable pub set_string : Ptr → (Ptr → InfoBlock) → CharPtr → Heap → Ptr × Heap
set_string p i text h = let (q, h) = strdup text h in (q, put p (service_info (i q)) h)

-- The allocations of `get_service_info` for JSON with these values.
unfoldable pub make_service_info : ServiceInfo → Heap → Ptr × Heap
make_service_info v h =
    let (p, h) = malloc (service_info empty_info) h in
    let (device_name, h) =
      set_string p (λ q. record empty_info { device_name = q }) v.device_name h in
    let (service_name, h) =
      set_string p (λ q. record empty_info { device_name = device_name; service_name = q })
        v.service_name h in
    let (ip, h) =
      set_string p
        (λ q. record empty_info { device_name = device_name; service_name = service_name; ip = q })
        v.ip h in
    let (info, h) =
      set_string p
        (λ q. record empty_info {
          device_name = device_name;
          service_name = service_name;
          ip = ip;
          info = q;
        })
        v.info h in
    (
      p,
      put p
          (service_info (record {
            device_name = device_name;
            service_name = service_name;
            ip = ip;
            info = info;
            port = v.port;
          }))
          h,
    )

-- `free_service_info`: the field `info` is not looked at.
unfoldable pub free_service_info_block : Ptr → Heap → Outcome Heap
free_service_info_block p h = do
  i ← load_service_info p h
  h ← free_string i.device_name h
  h ← free_string i.service_name h
  h ← free_string i.ip h
  free p h

-- The allocations of `get_result` for a packet with this reason.
unfoldable pub make_result_info : CharPtr → Heap → Ptr × Heap
make_result_info reason h =
    let (p, h) = malloc (result_info null) h in
    let (q, h) = strdup reason h in (p, put p (result_info q) h)

unfoldable pub free_result : Ptr → Heap → Outcome Heap
free_result p h = do q ← load_result_info p h; h ← free_string q h; free p h

-- `get_pkt`, with the bytes zero
unfoldable pub get_pkt_block : Heap → Ptr × Heap
get_pkt_block h =
    let (p, h) = malloc (service_pkt null 0) h in
    let (q, h) = malloc (bytes (replicate udp_comm_buf_len 0)) h in
    (p, put p (service_pkt q udp_comm_buf_len) h)

unfoldable pub free_pkt_block : Ptr → Heap → Outcome Heap
free_pkt_block p h = do q ← load_service_pkt p h; h ← free q h; free p h

module _ (c : Cjson) where
  open c use {parse, get_item}

  -- NULL if the text is not JSON
  unfoldable pub get_service_info_block : Packet → Heap → Outcome (Ptr × Heap)
  get_service_info_block pkt h = do
    text ← json_data pkt
    elim (parse text) [
      | none ↦ done (null, h)
      | some json ↦ done (make_service_info (info_of c json) h)
    ]

  -- NULL for a packet that does not report a failure, too
  unfoldable pub get_result_block : Packet → Heap → Outcome (Ptr × Heap)
  get_result_block pkt h = do
    action ← load16 2 pkt.bytes
    if action == code_of action_fail
        then (do
          text ← json_data pkt
          elim (parse text) [
            | none ↦ done (null, h)
            | some json ↦ done (make_result_info (string_of (get_item json (codes "reason"))) h)
          ])
        else done (null, h)
