-- ===== src/Client.antt =====
-- c/provider/client.c: `check_result`, which collects the answers to an inquiry in a list until a read
-- fails or times out. What the source prints is left out.
pub mod Answers
pub mod Inquiry
pub mod Exchange
pub mod Call
pub mod Called
pub mod Conversation
pub mod Threads
pub mod Interleavings
pub mod Termination
pub mod Broken
use mini_service_discover.Base.{
  ℕ, zero, suc, Bool, true, false, Option, none, some, List, length, if◌then◌else◌,
}
use mini_service_discover.Base.Outcome.{Outcome, done, undefined, out_of_fuel, ◌>>=◌}
use mini_service_discover.Memory.{ServiceInfo, Memory, empty_memory, new_info}
use mini_service_discover.ServiceList.{ServiceList, init_list, list_add}
use mini_service_discover.Protocol.{
  Action, action_succ, action_fail, Packet, get_pkt, decode_action, udp_comm_buf_len,
}
use mini_service_discover.Protocol.Cjson.{Cjson}
use mini_service_discover.Protocol.Decode.{get_service_info, get_result}
use mini_service_discover.Udp.{is_positive, Socket, Read, returned, waits, udp_client_read}

-- The client's socket, its flag `read_end`, and the list of services found.
pub record Client : Type 0 where
  pub list : ServiceList
  pub memory : Memory
  pub socket : Socket
  pub read_end : Bool

-- The info of an answer goes into the list, if it could be parsed.
unfoldable pub add_found : Option ServiceInfo → Client → Outcome Client
add_found none cl = done cl
add_found (some s) cl = do
  let (info, memory) = new_info s cl.memory
  (list, memory) ← list_add cl.list info memory
  done (record cl { list = list; memory = memory })

-- After a read: `none` if it waits for ever (without a time limit); else the answer is handled, or
-- the loop ends.
unfoldable pub after_client_read :
    (List ℕ → Client → Outcome (Option Client)) → Client → Read → Outcome (Option Client)
after_client_read serve cl (waits buf socket) = done none
after_client_read serve cl (returned ret buf socket) =
    if is_positive ret
    then serve buf (record cl { socket = socket; read_end = true })
    else done (some (record cl { socket = socket }))

module _ (c : Cjson) where
  -- the `switch`
  unfoldable pub handle_answer : Action → Packet → Client → Outcome Client
  handle_answer action_succ pkt cl = do parsed ← get_service_info c pkt; add_found parsed cl
  handle_answer action_fail pkt cl = do _ ← get_result c pkt; done cl
  handle_answer _ pkt cl = done cl

  -- The body of the loop, once a packet has been read.
  unfoldable pub read_answer : Packet → Client → Outcome Client
  read_answer pkt cl = do type ← decode_action pkt; handle_answer type pkt cl

  unfoldable pub check_loop : ℕ → List ℕ → Client → Outcome (Option Client)
  check_loop zero bytes cl = out_of_fuel
  check_loop (suc k) bytes cl = do
    read ← udp_client_read cl.socket bytes udp_comm_buf_len
    after_client_read
        (λ buf cl.
          read_answer (record { bytes = buf; len = udp_comm_buf_len }) cl >>= check_loop k buf)
        cl read

  -- Each round of the loop takes an arrival.
  unfoldable pub check_result : Socket → Outcome (Option Client)
  check_result socket =
      check_loop (suc (length socket.arrivals)) get_pkt.bytes
        (record { list = init_list; memory = empty_memory; socket = socket; read_end = false })
