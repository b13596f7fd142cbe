-- ===== src/Client/Call.antt =====
-- inquiry_service and write_and_get_result of c/provider/client.c. The sending thread and
-- `check_result` run at once; they use different parts of the socket, so that they are run here one
-- after the other, with what the thread sees of `read_end` given (see Client/Threads).
use mini_service_discover.Base.{Bool, true, false, Option, none, some, if◌then◌else◌}
use mini_service_discover.Base.Outcome.{Outcome, done, undefined, ◌>>=◌}
use mini_service_discover.CString.{Str, CharPtr}
use mini_service_discover.Protocol.{Packet}
use mini_service_discover.Protocol.Cjson.{Cjson}
use mini_service_discover.Protocol.Build.{get_inquiry_pkt}
use mini_service_discover.Udp.{Addr, udp_client_write}
use mini_service_discover.Resources.{Resources, new_pkt, free_pkt}
use mini_service_discover.Subnet.{UdpClient, udp_broadcast_data}
use mini_service_discover.Subnet.Open.{Machine, open_client, deinit_udp_client}
use mini_service_discover.Client.{Client, check_result}

-- What a call comes to: it waits for ever, or it returns NULL or what was found, with what the process
-- holds then.
pub data Call {ℓ} (A : Type ℓ) : Type ℓ where
  waits : Call A
  returned : Option A → Resources → Call A

-- `client->data = pkt->data; client->len = pkt->len;`
abbrev pub with_pkt : Packet → UdpClient → UdpClient
with_pkt pkt client = record client { bytes = pkt.bytes; len = pkt.len }

-- `free_pkt` takes the packet from under the sending thread, if that has not ended.
unfoldable pub free_sent_pkt : Machine → Resources → Outcome Resources
free_sent_pkt m rs = if m.sender_ends_first then done (free_pkt rs) else undefined

-- the end of `inquiry_service`
unfoldable pub end_inquiry : Machine → Resources → Option Client → Outcome (Call Client)
end_inquiry m rs none = done waits
end_inquiry m rs (some cl) = do
  rs ← free_sent_pkt m rs
  done (returned (some cl) (deinit_udp_client m rs))

module _ (c : Cjson) (inet_addr : Str → Addr) where
  -- With broadcast, `pthread_join` is called with no thread. The packet of `check_result` is freed
  -- there.
  unfoldable pub write_and_get_result : Bool → Machine → UdpClient → Outcome (Option Client)
  write_and_get_result true m client = do
    (_, socket) ← udp_client_write client.addrto client.socket client.bytes client.len
    found ← check_result c socket
    elim found [ none ↦ done none | some cl ↦ undefined ]
  write_and_get_result false m client = do
    client ← udp_broadcast_data inet_addr m.read_end client
    check_result c client.socket

  unfoldable pub inquire :
      Bool → CharPtr → Machine → Resources → Option UdpClient → Outcome (Call Client)
  inquire signed name m rs none = done (returned none rs)
  inquire signed name m rs (some client) = do
    pkt ← get_inquiry_pkt signed c name
    found ← write_and_get_result false m (with_pkt pkt client)
    end_inquiry m (new_pkt rs) found

  unfoldable pub inquiry_service : Bool → CharPtr → Machine → Resources → Outcome (Call Client)
  inquiry_service signed name m rs = do
    (client, rs) ← open_client inet_addr false m rs
    inquire signed name m rs client
