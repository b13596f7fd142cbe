-- ===== src/Protocol/Sealed.antt =====
-- The buffer of c/provider/comm/protocal.c behind `seal_pkt`, and `decode_action` and `json_data`
-- on it.
use mini_service_discover.Base.{
  ℕ, suc, ◌-◌, ◌/◌, ◌%◌, ◌^◌, ◌≤◌, ◌<◌, ◌≡◌, refl, ap, ◌∙◌, Bool, ◌==◌, ◌∷◌, ◌++◌, arith, length,
  take, drop, take_all, take-append, length-drop, length-append, if◌then◌else◌,
}
use mini_service_discover.Base.Outcome.{done, undefined}
use mini_service_discover.CString.{Str}
use mini_service_discover.CString.Laws.{IsCString, read_string-append}
use mini_service_discover.Buffer.{zeros, overwrite, write_bytes, store16, load16}
use mini_service_discover.Buffer.Laws.{overwrite-zeros, overwrite-zeros_long, bytes16, length-zeros}
use mini_service_discover.Protocol.{
  Action, action_invalid, code_of, action_of, Packet, get_pkt, checksum_right, decode_action,
  byte_value, char_value,
}
use mini_service_discover.Protocol.Cjson.{Cjson}
use mini_service_discover.Protocol.Build.{seal_pkt}
use mini_service_discover.Protocol.Decode.{json_data}
use mini_service_discover.Protocol.Checksum.{
  total, get_checksum-total, sum_loop-total, sum_loop-past,
}

-- A packet of 1024 bytes with the text `out` behind its header.
abbrev pub packet : (code sum : ℕ) → Str → Packet
packet code sum out = record {
  bytes =
      0xEE
        ∷ 0xFF
        ∷ code % 256
        ∷ code / 256 % 256
        ∷ length out % 256
        ∷ length out / 256 % 256
        ∷ sum % 256
        ∷ sum / 256 % 256
        ∷ out
      ++ zeros (1016 - length out);
  len = 1024;
}

zero_bytes : get_pkt.bytes ≡ 0 ∷ 0 ∷ 0 ∷ 0 ∷ 0 ∷ 0 ∷ 0 ∷ 0 ∷ zeros 1016
unfolding get_pkt zeros
zero_bytes = refl

module _ (signed : Bool) (c : Cjson) (action : Action) (root : c.Tree) where
  abbrev text : Str
  text = c.print root

  -- A text that fits behind the header is stored with its length and its checksum.
  pub seal_pkt-packet :
      length text ≤ 1016
      → seal_pkt signed c action root
        ≡ done (packet (code_of action) (total (char_value signed) text % 2 ^ 16) text)
  unfolding seal_pkt store16 write_bytes overwrite
  seal_pkt-packet fits =
      let short : length text % 2 ^ 16 ≡ length text = omega arith in
      rw (
        zero_bytes,
        short,
        take_all (length text) text (omega arith),
        overwrite-zeros text 1016 fits,
        get_checksum-total signed text,
      )

  -- A text of more than 1016 bytes (below 2 ^ 16, so that its length is not cut) is copied past the
  -- end of the packet's buffer.
  pub seal_pkt-long :
      1016 < length text → length text < 2 ^ 16 → seal_pkt signed c action root ≡ undefined
  unfolding seal_pkt store16 write_bytes overwrite
  seal_pkt-long long small =
      let short : length text % 2 ^ 16 ≡ length text = omega arith in
      rw (
        zero_bytes,
        short,
        take_all (length text) text (omega arith),
        overwrite-zeros_long text 1016 long,
      )

-- A buffer of 1024 bytes, and the fields of the header in it.
pub record Received (pkt : Packet) (code len sum : ℕ) : Type 0 where
  pub size : length pkt.bytes ≡ 1024
  pub action : load16 2 pkt.bytes ≡ done code
  pub info_len : load16 4 pkt.bytes ≡ done len
  pub checksum : load16 6 pkt.bytes ≡ done sum

-- Of a received buffer of 1024 bytes whose length field is at most 1016, `decode_action` says the
-- action in the header if the sum of so many bytes behind the header is the checksum in it, and
-- else that it is invalid.
pub decode_action-Received :
    (pkt : Packet) (code len sum : ℕ)
    → Received pkt code len sum
    → len ≤ 1016
    → decode_action pkt
      ≡ done (
          if total byte_value (take len (drop 8 pkt.bytes)) % 2 ^ 16 == sum
          then action_of code
          else action_invalid)
unfolding decode_action checksum_right
decode_action-Received pkt code len sum r fits =
    let room : len ≤ length (drop 8 pkt.bytes) = omega (arith, length-drop 8 pkt.bytes, r.size) in
    rw
      (
        r.info_len,
        sum_loop-total byte_value len (drop 8 pkt.bytes) 0 room (omega arith),
        r.checksum,
      )
      (rw r.action (ground arith))

-- Of a received buffer of 1024 bytes whose length field is above 1016, `decode_action` reads past
-- the end of the buffer.
pub decode_action-past :
    (pkt : Packet) (code len sum : ℕ)
    → Received pkt code len sum
    → 1016 < len
    → decode_action pkt ≡ undefined
unfolding decode_action checksum_right
decode_action-past pkt code len sum r long =
    let past : length (drop 8 pkt.bytes) < len = omega (arith, length-drop 8 pkt.bytes, r.size) in
    rw (r.info_len, sum_loop-past byte_value len (drop 8 pkt.bytes) 0 past)

-- A packet as `seal_pkt` leaves it.
pub packet-Received :
    (code sum : ℕ) (out : Str)
    → code < 2 ^ 16
    → sum < 2 ^ 16
    → length out ≤ 1016
    → Received (packet code sum out) code (length out) sum
unfolding load16
packet-Received code sum out small small' fits = record {
  size =
      omega
        (arith, length-append out (zeros (1016 - length out)), length-zeros (1016 - length out));
  action = ap done (bytes16 code small);
  info_len = ap done (bytes16 (length out) (omega arith));
  checksum = ap done (bytes16 sum small');
}

-- The receiver takes the action of a built packet exactly if the stored sum is its own sum.
pub decode_action-packet :
    (code sum : ℕ) (out : Str)
    → code < 2 ^ 16
    → sum < 2 ^ 16
    → length out ≤ 1016
    → decode_action (packet code sum out)
      ≡ done (if total byte_value out % 2 ^ 16 == sum then action_of code else action_invalid)
decode_action-packet code sum out small small' fits =
    decode_action-Received (packet code sum out) code (length out) sum
      (packet-Received code sum out small small' fits) fits
    ∙ ap
        (λ (t : Str).
          done (if total byte_value t % 2 ^ 16 == sum then action_of code else action_invalid))
        (take-append out (zeros (1016 - length out)))

-- The receiver reads the text back, if a NUL of the buffer is left behind it.
pub json_data-packet :
    (code sum : ℕ) (out : Str)
    → IsCString out
    → length out < 1016
    → json_data (packet code sum out) ≡ done out
unfolding json_data zeros
json_data-packet code sum out h fits =
    let e : 1016 - length out ≡ suc (1015 - length out) = omega arith in
    rw e (read_string-append out (zeros (1015 - length out)) h)
