-- ===== src/Daemon.antt =====
-- c/provider/daemon.c: the loop that serves requests over the list of services. What the source
-- prints is left out; the pointers that `malloc` and `get_pkt` return are not NULL.
pub mod Spec
pub mod Replies
pub mod Inquiry
pub mod Handlers
pub mod Refines
pub mod Messages
pub mod Run
pub mod Understood
pub mod Process
pub mod Over
pub mod Clients
use mini_service_discover.Base.{
  ℕ, zero, suc, ◌+◌, Bool, true, false, Option, none, some, List, length, ◌==◌, if◌then◌else◌,
}
use mini_service_discover.Base.Outcome.{Outcome, done, undefined, out_of_fuel, ◌>>=◌}
use mini_service_discover.CString.{CharPtr, codes}
use mini_service_discover.Memory.{
  Ptr, null, ServiceInfo, Memory, empty_memory, load_info, new_info, free_service_info,
}
use mini_service_discover.ServiceList.{
  ServiceList, Code, success, failure, init_list, list_add, list_remove, list_get,
}
use mini_service_discover.Protocol.{
  Action, register_service, unregister_service, inquiry, action_succ, action_fail, action_invalid,
  other, Packet, get_pkt, decode_action, udp_comm_buf_len,
}
use mini_service_discover.Protocol.Cjson.{Cjson}
use mini_service_discover.Protocol.Build.{get_inquiry_result_pkt, get_result_pkt}
use mini_service_discover.Protocol.Decode.{get_service_info}
use mini_service_discover.Udp.{
  Arrival, Ret, is_positive, Socket, Read, returned, waits, udp_server_read, udp_server_write,
}

pub record Daemon : Type 0 where
  pub list : ServiceList
  pub memory : Memory
  pub socket : Socket

-- SERVICE_NO_FOUND of c/provider/comm/protocal.h
abbrev pub service_no_found : CharPtr
service_no_found = some (codes "service no found")

-- the first `switch`
unfoldable pub is_request : Action → Bool
is_request register_service = true
is_request unregister_service = true
is_request inquiry = true
is_request _ = false

-- `udp_server_write(server, pkt->data, pkt->len)`, whose result is not looked at
unfoldable pub send_pkt : Packet → Daemon → Outcome Daemon
send_pkt pkt d = do
  (_, socket) ← udp_server_write d.socket pkt.bytes pkt.len
  done (record d { socket = socket })

-- How `server_loop` ends: a read that returns 0 or less ends the daemon; else it waits for a
-- packet that does not come.
pub data Ending : Type 0 where
  stopped : Daemon → Ending
  waiting : Daemon → Ending

-- What a read comes to: `serve` handles the packet and goes on.
unfoldable pub after_read : (List ℕ → Daemon → Outcome Ending) → Daemon → Read → Outcome Ending
after_read serve d (waits buf socket) = done (waiting (record d { socket = socket }))
after_read serve d (returned ret buf socket) =
    let d' = record d { socket = socket } in
    if is_positive ret then serve buf d' else done (stopped d')

module _ (signed : Bool) (c : Cjson) where
  -- The first case of the second `switch`. The info stays in the list.
  unfoldable pub handle_register : Ptr → Daemon → Outcome Daemon
  handle_register info d = do
    (list, memory) ← list_add d.list info d.memory
    pkt ← get_result_pkt signed c true (some (codes ""))
    send_pkt pkt (record d { list = list; memory = memory })

  unfoldable pub unregister_answer : Code → Outcome Packet
  unregister_answer success = get_result_pkt signed c true (some (codes ""))
  unregister_answer failure = get_result_pkt signed c false service_no_found

  unfoldable pub handle_unregister : Ptr → Daemon → Outcome Daemon
  handle_unregister info d = do
    s ← load_info info d.memory
    (code, list, memory) ← list_remove d.list s.device_name s.service_name d.memory
    memory ← free_service_info info memory
    pkt ← unregister_answer code
    send_pkt pkt (record { list = list; memory = memory; socket = d.socket })

  -- The `while` of an inquiry: one answer for each index, up to the first at which `list_get` has
  -- none. The Boolean is `is_get_service`.
  unfoldable pub inquiry_loop : ℕ → Ptr → ℕ → Bool → Daemon → Outcome (Bool × Daemon)
  inquiry_loop zero info i is_get_service d = out_of_fuel
  inquiry_loop (suc k) info i is_get_service d = do
    s ← load_info info d.memory
    ret_info ← list_get d.list s.service_name i d.memory
    if ret_info == null then done (is_get_service, d) else (do
      r ← load_info ret_info d.memory
      pkt ← get_inquiry_result_pkt signed c r
      d ← send_pkt pkt d
      inquiry_loop k info (i + 1) true d)

  unfoldable pub handle_inquiry : Ptr → Daemon → Outcome Daemon
  handle_inquiry info d = do
    (is_get_service, d) ← inquiry_loop (suc d.memory.brk) info 0 false d
    d ←
        (if is_get_service
          then done d
          else (do pkt ← get_result_pkt signed c false service_no_found; send_pkt pkt d))
    memory ← free_service_info info d.memory
    done (record d { memory = memory })

  -- the second `switch`
  unfoldable pub dispatch : Action → Ptr → Daemon → Outcome Daemon
  dispatch register_service info d = handle_register info d
  dispatch unregister_service info d = handle_unregister info d
  dispatch inquiry info d = handle_inquiry info d
  dispatch _ info d = do
    memory ← free_service_info info d.memory
    done (record d { memory = memory })

  -- The request is served if its text could be parsed.
  unfoldable pub handle_info : Action → Option ServiceInfo → Daemon → Outcome Daemon
  handle_info type none d = done d
  handle_info type (some s) d =
      let (info, memory) = new_info s d.memory in dispatch type info (record d { memory = memory })

  -- The body of the loop, once a packet has been read.
  unfoldable pub handle_pkt : Packet → Daemon → Outcome Daemon
  handle_pkt pkt d = do
    type ← decode_action pkt
    if is_request type
        then (do parsed ← get_service_info c pkt; handle_info type parsed d)
        else done d

  -- The receive buffer `rec_pkt` is the same in all rounds.
  unfoldable pub server_loop : ℕ → List ℕ → Daemon → Outcome Ending
  server_loop zero bytes d = out_of_fuel
  server_loop (suc k) bytes d = do
    read ← udp_server_read d.socket bytes udp_comm_buf_len
    after_read
        (λ buf d.
          handle_pkt (record { bytes = buf; len = udp_comm_buf_len }) d >>= server_loop k buf)
        d read

  -- Each round of the loop takes an arrival. `none`: no socket could be bound.
  unfoldable pub daemon_loop : Option Socket → Outcome (Option Ending)
  daemon_loop none = done none
  daemon_loop (some socket) = do
    ending ←
        server_loop (suc (length socket.arrivals)) get_pkt.bytes
          (record { list = init_list; memory = empty_memory; socket = socket })
    done (some ending)
