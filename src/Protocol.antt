-- ===== src/Protocol.antt =====
-- c/provider/comm/protocal.h and protocal.c: the packets. A packet is a buffer of 1024 bytes with a
-- `service_head` of four uint16_t (head, action, info_len, checksum) and then JSON text.
pub mod Build
pub mod Checksum
pub mod Cjson
pub mod Decode
pub mod RoundTrip
pub mod Packets
pub mod Reasons
pub mod Sealed
use mini_service_discover.Base.{
  ℕ, zero, suc, ◌+◌, ◌-◌, ◌*◌, ◌%◌, ◌^◌, Bool, true, false, List, [], ◌∷◌, ◌==◌, ltb, if◌then◌else◌,
  drop, length,
}
use mini_service_discover.Base.Outcome.{Outcome, done, undefined, ◌>>=◌}
use mini_service_discover.CString.{Str}
use mini_service_discover.Buffer.{zeros, load16}

abbrev pub info_head : ℕ
info_head = 0xFFEE

abbrev pub info_max_len : ℕ
info_max_len = 100

-- UDP_COMM_BUF_LEN of c/provider/comm/udp.h
abbrev pub udp_comm_buf_len : ℕ
udp_comm_buf_len = 1024

-- `sizeof(service_head)`
abbrev pub head_size : ℕ
head_size = 8

-- `ACTION_TYPE`; a value that the enumeration does not name is `other`.
pub data Action : Type 0 where
  register_service unregister_service inquiry action_succ action_fail action_invalid : Action
  other : ℕ → Action

-- An action as the uint16_t of the header, and back.
unfoldable pub code_of : Action → ℕ
code_of register_service = 0
code_of unregister_service = 1
code_of inquiry = 2
code_of action_succ = 3
code_of action_fail = 4
code_of action_invalid = 2 ^ 16 - 1
code_of (other n) = n % 2 ^ 16

unfoldable pub action_of : ℕ → Action
action_of n =
    if n == 0
    then register_service
    else if n == 1
    then unregister_service
    else if n == 2
    then inquiry
    else if n == 3
    then action_succ
    else if n == 4
    then action_fail
    else other n

-- `service_pkt`
pub record Packet : Type 0 where
  pub bytes : List ℕ
  pub len : ℕ

unfoldable pub get_pkt : Packet
get_pkt = record { bytes = zeros udp_comm_buf_len; len = udp_comm_buf_len }

-- `sum += *data++`, `n` times, in a uint16_t; `value` is what a byte counts for.
unfoldable pub sum_loop : (ℕ → ℕ) → ℕ → List ℕ → ℕ → Outcome ℕ
sum_loop value zero bytes sum = done sum
sum_loop value (suc n) [] sum = undefined
sum_loop value (suc n) (b ∷ bytes) sum = sum_loop value n bytes ((sum + value b) % 2 ^ 16)

-- A `char` as the sum takes it: where `char` is signed, a byte from 128 on is negative.
unfoldable pub char_value : Bool → ℕ → ℕ
char_value false b = b
char_value true b = if ltb b 128 then b else b + 2 ^ 16 - 256

unfoldable pub byte_value : ℕ → ℕ
byte_value b = b

-- `get_checksum`, on bytes of type `char`
unfoldable pub get_checksum : Bool → List ℕ → ℕ → Outcome ℕ
get_checksum signed bytes len = sum_loop (char_value signed) len bytes 0

-- `checksum_right`, on bytes of type `uint8_t`: the loop trusts the length in the header.
unfoldable pub checksum_right : Packet → Outcome Bool
checksum_right pkt = do
  len ← load16 4 pkt.bytes
  sum ← sum_loop byte_value len (drop head_size pkt.bytes) 0
  checksum ← load16 6 pkt.bytes
  done (sum == checksum)

unfoldable pub decode_action : Packet → Outcome Action
decode_action pkt = do
  right ← checksum_right pkt
  if right then (do code ← load16 2 pkt.bytes; done (action_of code)) else done action_invalid
