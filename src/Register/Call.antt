-- ===== src/Register/Call.antt =====
-- register_service, unregister_service and write_and_get_result of c/provider/server.c, as those of
-- client.c (see Client/Call). Neither function gives the client back.
use mini_service_discover.Base.{ℕ, Bool, true, false, Option, none, some}
use mini_service_discover.Base.Outcome.{Outcome, done, undefined, ◌>>=◌}
use mini_service_discover.CString.{Str, CharPtr}
use mini_service_discover.ServiceList.{Code, failure}
use mini_service_discover.Protocol.{Packet}
use mini_service_discover.Protocol.Cjson.{Cjson}
use mini_service_discover.Protocol.Build.{get_register_pkt, get_unregister_pkt}
use mini_service_discover.Udp.{Addr, udp_client_write}
use mini_service_discover.Resources.{Resources, new_pkt}
use mini_service_discover.Subnet.{UdpClient, udp_broadcast_data}
use mini_service_discover.Subnet.Open.{Machine, open_client}
use mini_service_discover.Client.Call.{Call, waits, returned, with_pkt, free_sent_pkt}
use mini_service_discover.Register.{Registrar, check_verdict}

-- the end of both functions
unfoldable pub end_request : Machine → Resources → Option Registrar → Outcome (Call Registrar)
end_request m rs none = done waits
end_request m rs (some t) = do rs ← free_sent_pkt m rs; done (returned (some t) rs)

-- `udp_broadcast_data` of server.c, which is the same text as that of client.c.
abbrev pub broadcast_request : (Str → Addr) → (ℕ → Bool) → UdpClient → Outcome UdpClient
broadcast_request inet_addr read_end client = udp_broadcast_data inet_addr read_end client

module _ (c : Cjson) (inet_addr : Str → Addr) where
  -- With broadcast, `pthread_join` is called with no thread.
  unfoldable pub write_and_get_verdict : Bool → Machine → UdpClient → Outcome (Option Registrar)
  write_and_get_verdict true m client = do
    (_, socket) ← udp_client_write client.addrto client.socket client.bytes client.len
    found ← check_verdict c socket
    elim found [ none ↦ done none | some t ↦ undefined ]
  write_and_get_verdict false m client = do
    client ← broadcast_request inet_addr m.read_end client
    check_verdict c client.socket

  -- Both functions, for the packet that they build. NULL stands for a result of -1.
  unfoldable pub request :
      Outcome Packet → Machine → Resources → Option UdpClient → Outcome (Call Registrar)
  request build m rs none = done (returned none rs)
  request build m rs (some client) = do
    pkt ← build
    found ← write_and_get_verdict false m (with_pkt pkt client)
    end_request m (new_pkt rs) found

  unfoldable pub register_service :
      Bool
      → CharPtr
      → CharPtr
      → CharPtr
      → ℕ
      → CharPtr
      → Machine
      → Resources
      → Outcome (Call Registrar)
  register_service signed device_name service_name ip port info m rs = do
    (client, rs) ← open_client inet_addr false m rs
    request (get_register_pkt signed c device_name service_name ip port info) m rs client

  unfoldable pub unregister_service :
      Bool → CharPtr → CharPtr → Machine → Resources → Outcome (Call Registrar)
  unregister_service signed device_name service_name m rs = do
    (client, rs) ← open_client inet_addr false m rs
    request (get_unregister_pkt signed c device_name service_name) m rs client

-- What the two functions return: `ret`, at first -1.
unfoldable pub result_of : Option Registrar → Code
result_of none = failure
result_of (some t) = t.ret
