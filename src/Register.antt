-- ===== src/Register.antt =====
-- c/provider/server.c: `check_result`, which waits for the answers to a registration until a read fails
-- or times out. What the source prints is left out.
pub mod Verdict
pub mod Call
pub mod Called
pub mod Heard
pub mod Conversation
pub mod Unregistration
pub mod Broadcast
pub mod Closed
use mini_service_discover.Base.{
  ℕ, zero, suc, Bool, true, false, Option, none, some, List, length, if◌then◌else◌,
}
use mini_service_discover.Base.Outcome.{Outcome, done, undefined, out_of_fuel, ◌>>=◌}
use mini_service_discover.ServiceList.{Code, success, failure}
use mini_service_discover.Protocol.{
  Action, action_succ, action_fail, Packet, get_pkt, decode_action, udp_comm_buf_len,
}
use mini_service_discover.Protocol.Cjson.{Cjson}
use mini_service_discover.Protocol.Decode.{get_result}
use mini_service_discover.Udp.{is_positive, Socket, Read, returned, waits, udp_client_read}

-- The client's socket, its flag `read_end`, and the result so far.
pub record Registrar : Type 0 where
  pub ret : Code
  pub socket : Socket
  pub read_end : Bool

-- After a read: `none` if it waits for ever (without a time limit); else the answer is handled, or
-- the loop ends.
unfoldable pub after_verdict_read :
    (List ℕ → Registrar → Outcome (Option Registrar))
    → Registrar
    → Read
    → Outcome (Option Registrar)
after_verdict_read serve t (waits buf socket) = done none
after_verdict_read serve t (returned ret buf socket) =
    if is_positive ret
    then serve buf (record t { socket = socket; read_end = true })
    else done (some (record t { socket = socket }))

module _ (c : Cjson) where
  -- the `switch`
  unfoldable pub handle_verdict : Action → Packet → Registrar → Outcome Registrar
  handle_verdict action_succ pkt t = done (record t { ret = success })
  handle_verdict action_fail pkt t = do _ ← get_result c pkt; done t
  handle_verdict _ pkt t = done t

  -- The body of the loop, once a packet has been read.
  unfoldable pub read_verdict : Packet → Registrar → Outcome Registrar
  read_verdict pkt t = do type ← decode_action pkt; handle_verdict type pkt t

  unfoldable pub verdict_loop : ℕ → List ℕ → Registrar → Outcome (Option Registrar)
  verdict_loop zero bytes t = out_of_fuel
  verdict_loop (suc k) bytes t = do
    read ← udp_client_read t.socket bytes udp_comm_buf_len
    after_verdict_read
        (λ buf t.
          read_verdict (record { bytes = buf; len = udp_comm_buf_len }) t >>= verdict_loop k buf)
        t read

  -- Each round of the loop takes an arrival.
  unfoldable pub check_verdict : Socket → Outcome (Option Registrar)
  check_verdict socket =
      verdict_loop (suc (length socket.arrivals)) get_pkt.bytes
        (record { ret = failure; socket = socket; read_end = false })
