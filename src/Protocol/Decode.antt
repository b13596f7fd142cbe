-- ===== src/Protocol/Decode.antt =====
-- What c/provider/comm/protocal.c reads from the JSON text of a packet.
use mini_service_discover.Base.{ℕ, ◌%◌, ◌^◌, Option, none, some, ◌==◌, drop, if◌then◌else◌}
use mini_service_discover.Base.Outcome.{Outcome, done, ◌>>=◌}
use mini_service_discover.CString.{Str, CharPtr, codes, read_string}
use mini_service_discover.Buffer.{load16}
use mini_service_discover.Memory.{ServiceInfo}
use mini_service_discover.Protocol.{Packet, head_size, action_fail, code_of}
use mini_service_discover.Protocol.Cjson.{Cjson, Item, string, number}

-- the text behind the header, which must end with a NUL in the buffer
unfoldable pub json_data : Packet → Outcome Str
json_data pkt = read_string (drop head_size pkt.bytes)

-- `strdup(json_value->valuestring)` if there is such a string, else NULL
abbrev pub string_of : Option Item → CharPtr
string_of (some (string s)) = some s
string_of _ = none

-- `json_value->valueint` as a uint16_t if there is such a number, else 0
abbrev pub port_of : Option Item → ℕ
port_of (some (number n)) = n % 2 ^ 16
port_of _ = 0

module _ (c : Cjson) where
  open c use {Tree, parse, get_item}

  unfoldable pub info_of : Tree → ServiceInfo
  info_of json = record {
    device_name = string_of (get_item json (codes "device_name"));
    service_name = string_of (get_item json (codes "service_name"));
    ip = string_of (get_item json (codes "ip"));
    info = string_of (get_item json (codes "info"));
    port = port_of (get_item json (codes "port"));
  }

  -- `none` is NULL: the text is not JSON.
  unfoldable pub get_service_info : Packet → Outcome (Option ServiceInfo)
  get_service_info pkt = do
    text ← json_data pkt
    elim (parse text) [ none ↦ done none | some json ↦ done (some (info_of json)) ]

  -- The reason in a packet that reports a failure; `none` is NULL, for other packets too.
  unfoldable pub get_result : Packet → Outcome (Option CharPtr)
  get_result pkt = do
    action ← load16 2 pkt.bytes
    if action == code_of action_fail
        then (do
          text ← json_data pkt
          elim (parse text) [
            | none ↦ done none
            | some json ↦ done (some (string_of (get_item json (codes "reason"))))
          ])
        else done none
