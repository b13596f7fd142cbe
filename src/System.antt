-- ===== src/System.antt =====
-- The program's parts together: a device registers a service with the daemon (register_service of
-- c/provider/server.c), and then a client asks the daemon for it (inquiry_service of
-- c/provider/client.c).
pub mod Lifetime
use mini_service_discover.Base.{
  ℕ, ◌^◌, ◌<◌, ◌≡◌, refl, Bool, true, some, List, [], ◌∷◌, All, All-append,
}
use mini_service_discover.Base.Outcome.{Outcome, done, ◌>>=◌, Returns, returns, then-Returns}
use mini_service_discover.CString.{Str, codes}
use mini_service_discover.Memory.{ServiceInfo}
use mini_service_discover.ServiceList.Registry.{Registry, register, erase}
use mini_service_discover.ServiceList.Registry.Laws.{erase-All}
use mini_service_discover.Protocol.{Packet}
use mini_service_discover.Protocol.Cjson.{Cjson, Laws}
use mini_service_discover.Protocol.Build.{service_tree, get_register_pkt, get_inquiry_pkt}
use mini_service_discover.Protocol.RoundTrip.{IsField, CanSend, service}
use mini_service_discover.Protocol.Reasons.{reason_tree}
use mini_service_discover.Udp.{Addr}
use mini_service_discover.Udp.Send.{IsHealthy}
use mini_service_discover.Daemon.{Daemon}
use mini_service_discover.Daemon.Spec.{Serves, named_prefix}
use mini_service_discover.Resources.{Resources}
use mini_service_discover.Subnet.Local.{Interface}
use mini_service_discover.Subnet.Open.{Machine}
use mini_service_discover.Subnet.Opened.{HasSocket, HasLimits}
use mini_service_discover.Client.{Client}
use mini_service_discover.Client.Inquiry.{IsSendable}
use mini_service_discover.Client.Call.{Call}
use mini_service_discover.Client.Conversation.{converse, Listed, inquiry_service-converse}
use mini_service_discover.Register.{Registrar}
use mini_service_discover.Register.Called.{left_open}
use mini_service_discover.Register.Conversation.{Registered, register_at, register_at-Registered}

-- The next datagram of the daemon comes from this address.
abbrev pub heard_from : Addr → Daemon → Daemon
heard_from asker d = record d { socket = record d.socket { addrfrom = asker } }

-- The daemon is at the address `from`; `p` and `q` are the packets of the two calls, `asker` is the
-- address of the client, and each call has a machine and a process of its own. The result has the
-- daemon between the calls and what each call comes to.
unfoldable pub discover :
    Cjson
    → (Str → Addr)
    → Bool
    → ServiceInfo
    → Str
    → Addr
    → Addr
    → Packet
    → Packet
    → Daemon
    → Machine
    → Machine
    → Resources
    → Resources
    → Outcome (Daemon × Call Registrar × Call Client)
discover c inet_addr signed i name from asker p q d device client rs rs' = do
  (e, registered) ← register_at c inet_addr signed i from p d device rs
  found ← converse c inet_addr signed name from q (heard_from asker e) client rs'
  done (e, registered, found)

-- A machine that can make a whole call.
pub record IsAble (m : Machine) (n : ℕ) (ifs : List Interface) : Type 0 where
  pub has : HasSocket m n ifs
  pub limits : HasLimits m
  pub healthy : IsHealthy m.socket
  pub in_time : m.sender_ends_first ≡ true

-- The first call returned 0, the daemon between the calls holds `r`, and the second call returned what
-- `r` has of the name; each sent its packet to the hosts of a subnet.
pub record Discovered (c : Cjson) (inet_addr : Str → Addr) (signed : Bool) (name : Str)
    (p q : Packet) (device client : Machine) (r : Registry) (left rs : Resources)
    (run : Daemon × Call Registrar × Call Client) : Type 0 where
  pub registered : Registered c inet_addr signed p device r left (run.0, run.1)
  pub listed : Listed inet_addr q client (named_prefix name r) rs run.2

module _ (c : Cjson) (inet_addr : Str → Addr) (signed : Bool) (laws : Laws c)
    (can_yes : CanSend signed c (reason_tree c (codes "")))
    (can_no : CanSend signed c (reason_tree c (codes "service no found"))) where
  -- `register_service` and then `inquiry_service`, with one daemon. With the laws of cJSON (strings
  -- below 100 bytes, port below 2 ^ 16, texts that fit and have one checksum for both sides, for
  -- each of the packets and answers), where the daemon holds the registry `r`, of services that
  -- answers can carry, each call has a machine with a socket, interfaces with addresses, a healthy
  -- network and a sending thread that ends before the packet is freed, the daemon handles the
  -- packet of each call once, and what it then sends is delivered in order until a read of the
  -- caller times out: the first call returns 0, and the second one a list that stands for the
  -- services of its name, up to the first service with another name, in `r` with the new service in
  -- the place of one with its names, which the daemon held in between; the packets are those that
  -- the calls sent to the hosts 1, 2, ... of a subnet, each once, up to 254 or the round in which
  -- `read_end` is seen; the first process has a socket and a client object more, and the second one
  -- holds what it held before.
  pub discover-Discovered :
      (dev svc ip info : Str) (port : ℕ) (name : Str) (from asker : Addr) (p q : Packet)
      (d : Daemon) (r : Registry) (device client : Machine) (n n' : ℕ) (ifs ifs' : List Interface)
      (rs rs' : Resources)
      → IsField dev × IsField svc × IsField ip × IsField info × IsField name
      → port < 2 ^ 16
      → CanSend signed c (service_tree c dev svc ip info port)
      → CanSend signed c (service_tree c (codes "") name (codes "") (codes "") 0)
      → get_register_pkt signed c (some dev) (some svc) (some ip) port (some info) ≡ done p
      → get_inquiry_pkt signed c (some name) ≡ done q
      → Serves signed c d r
      → All (IsSendable signed c laws) r
      → IsAble device n ifs
      → IsAble client n' ifs'
      → Returns
          (Discovered c inet_addr signed name p q device client
            (register dev svc (service dev svc ip info port) r)
            (left_open n rs)
            rs')
          (discover c inet_addr signed
            (service dev svc ip info port)
            name
            from
            asker
            p
            q
            d
            device
            client
            rs
            rs')
  unfolding discover register
  discover-Discovered dev svc ip info port name from asker p q d r device client n n' ifs ifs' rs
        rs' (f_dev, f_svc, f_ip, f_info, f_name) small can_send can_ask built asks serves sendable
        able able' =
      then-Returns
        (register_at-Registered c signed laws can_yes inet_addr can_no dev svc ip info port from p d
          r device n ifs rs (f_dev, f_svc, f_ip, f_info) small can_send built serves able.has
          able.limits able.healthy able.in_time)
        λ (e, call) registered.
          then-Returns
            (inquiry_service-converse c inet_addr signed laws can_yes can_no name from q
              (heard_from asker e) (register dev svc (service dev svc ip info port) r) client n'
              ifs' rs' f_name can_ask asks
              (record {
                stores = registered.serves.stores;
                distinct = registered.serves.distinct;
                answers = registered.serves.answers;
                healthy = registered.serves.healthy;
              })
              (All-append (λ i. IsSendable signed c laws i) (erase dev svc r)
                (service dev svc ip info port ∷ [])
                (erase-All (λ i. IsSendable signed c laws i) dev svc r sendable)
                (
                  record {
                    device = dev;
                    name = svc;
                    ip = ip;
                    info = info;
                    port = port;
                    same = refl;
                    fields = (f_dev, f_svc, f_ip, f_info);
                    small = small;
                    can = can_send;
                  },
                  tt,
                ))
              able'.has able'.limits able'.healthy able'.in_time)
            λ found listed. returns (record { registered = registered; listed = listed })
