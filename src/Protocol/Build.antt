-- ===== src/Protocol/Build.antt =====
-- The packets that c/provider/comm/protocal.c builds, over cJSON and for either kind of `char`.
-- Each string is first copied into a buffer of INFO_MAX_LEN bytes on the stack.
use mini_service_discover.Base.{ℕ, ◌%◌, ◌^◌, Bool, length, take, if◌then◌else◌}
use mini_service_discover.Base.Outcome.{Outcome, done, ◌>>=◌, fetch}
use mini_service_discover.CString.{Str, CharPtr, codes, strncpy, read_string}
use mini_service_discover.Buffer.{write_bytes, store16}
use mini_service_discover.Memory.{ServiceInfo}
use mini_service_discover.Protocol.{
  Action, register_service, unregister_service, inquiry, action_succ, action_fail, code_of, Packet,
  get_pkt, get_checksum, info_head, info_max_len, udp_comm_buf_len, head_size,
}
use mini_service_discover.Protocol.Cjson.{Cjson}

-- `strncpy(buf, s, sizeof(buf))`, and the string that cJSON then reads from the buffer.
unfoldable pub copy_field : CharPtr → Outcome Str
copy_field p = do s ← fetch p; read_string (strncpy info_max_len s)

module _ (c : Cjson) where
  open c use {Tree, create_object, add_string, add_number}

  -- The object of all packets that carry a service.
  unfoldable pub service_tree : Str → Str → Str → Str → ℕ → Tree
  service_tree device_name service_name ip info port =
      add_number
        (add_string
          (add_string
            (add_string (add_string create_object (codes "device_name") device_name)
              (codes "service_name") service_name)
            (codes "ip") ip)
          (codes "info") info)
        (codes "port") port

module _ (signed : Bool) (c : Cjson) where
  open c use {Tree, create_object, add_string, print}

  -- From the header on: the lines that all builders have in common. The length and the checksum are
  -- those of the printed text, cut to 16 bits.
  unfoldable pub seal_pkt : Action → Tree → Outcome Packet
  seal_pkt action root = do
    let out = print root
    let len = length out % 2 ^ 16
    buf ← store16 0 info_head get_pkt.bytes
    buf ← store16 2 (code_of action) buf
    buf ← store16 4 len buf
    buf ← write_bytes head_size (take len out) buf
    sum ← get_checksum signed out len
    buf ← store16 6 sum buf
    done (record { bytes = buf; len = udp_comm_buf_len })

  unfoldable pub get_register_pkt : CharPtr → CharPtr → CharPtr → ℕ → CharPtr → Outcome Packet
  get_register_pkt device_name service_name ip port info = do
    device_name_buf ← copy_field device_name
    service_name_buf ← copy_field service_name
    ip_buf ← copy_field ip
    info_buf ← copy_field info
    seal_pkt register_service (service_tree c device_name_buf service_name_buf ip_buf info_buf port)

  unfoldable pub get_unregister_pkt : CharPtr → CharPtr → Outcome Packet
  get_unregister_pkt device_name service_name = do
    device_name_buf ← copy_field device_name
    service_name_buf ← copy_field service_name
    seal_pkt unregister_service
        (service_tree c device_name_buf service_name_buf (codes "") (codes "") 0)

  unfoldable pub get_inquiry_pkt : CharPtr → Outcome Packet
  get_inquiry_pkt service_name = do
    service_name_buf ← copy_field service_name
    seal_pkt inquiry (service_tree c (codes "") service_name_buf (codes "") (codes "") 0)

  unfoldable pub get_inquiry_result_pkt : ServiceInfo → Outcome Packet
  get_inquiry_result_pkt info = do
    device_name_buf ← copy_field info.device_name
    service_name_buf ← copy_field info.service_name
    ip_buf ← copy_field info.ip
    info_buf ← copy_field info.info
    seal_pkt action_succ (service_tree c device_name_buf service_name_buf ip_buf info_buf info.port)

  -- `is_succ` is whether the argument is not 0.
  unfoldable pub get_result_pkt : Bool → CharPtr → Outcome Packet
  get_result_pkt is_succ reason = do
    reason_buf ← copy_field reason
    seal_pkt (if is_succ then action_succ else action_fail)
        (add_string create_object (codes "reason") reason_buf)
