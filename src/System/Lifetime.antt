-- ===== src/System/Lifetime.antt =====
-- A service's life with the daemon: a device registers it (register_service of c/provider/server.c) and
-- later withdraws it (unregister_service).
use mini_service_discover.Base.{
  ℕ, ◌^◌, ◌<◌, ◌≡◌, refl, subst, Bool, if◌then◌else◌, some, List, ap, ◌∙◌,
}
use mini_service_discover.Base.Outcome.{Outcome, done, ◌>>=◌, Returns, returns, then-Returns}
use mini_service_discover.CString.{Str, codes}
use mini_service_discover.Memory.{ServiceInfo}
use mini_service_discover.ServiceList.{success, failure}
use mini_service_discover.ServiceList.Registry.{Registry, register, erase}
use mini_service_discover.ServiceList.Registry.Distinct.{contains-register, erase-register}
use mini_service_discover.Protocol.{Packet}
use mini_service_discover.Protocol.Cjson.{Cjson, Laws}
use mini_service_discover.Protocol.Build.{service_tree, get_register_pkt, get_unregister_pkt}
use mini_service_discover.Protocol.RoundTrip.{IsField, CanSend, service}
use mini_service_discover.Protocol.Reasons.{reason_tree}
use mini_service_discover.Udp.{Addr}
use mini_service_discover.Daemon.{Daemon}
use mini_service_discover.Daemon.Spec.{Serves}
use mini_service_discover.Resources.{Resources}
use mini_service_discover.Subnet.Local.{Interface}
use mini_service_discover.Subnet.Open.{Machine}
use mini_service_discover.Client.Call.{Call}
use mini_service_discover.Register.{Registrar}
use mini_service_discover.Register.Called.{left_open}
use mini_service_discover.Register.Conversation.{Registered, register_at, register_at-Registered}
use mini_service_discover.Register.Unregistration.{
  Unregistered, unregister_at, unregister_at-Unregistered,
}
use mini_service_discover.System.{heard_from, IsAble}

-- The daemon is at the address `from`; `p` and `q` are the packets of the two calls, on the machines
-- `m` and `m'`, whose processes hold `rs` and `rs'` then; at the second one the device has the address
-- `device`. The result has the daemon and what the call comes to, of each.
unfoldable pub withdraw :
    Cjson
    → (Str → Addr)
    → Bool
    → ServiceInfo
    → Str
    → Str
    → Addr
    → Addr
    → Packet
    → Packet
    → Daemon
    → Machine
    → Machine
    → Resources
    → Resources
    → Outcome ((Daemon × Call Registrar) × (Daemon × Call Registrar))
withdraw c inet_addr signed i dev svc from device p q d m m' rs rs' = do
  registered ← register_at c inet_addr signed i from p d m rs
  withdrawn ←
      unregister_at c inet_addr signed dev svc from q (heard_from device registered.0) m' rs'
  done (registered, withdrawn)

-- Both calls returned 0; the daemon held `r` between them, and holds `q` at the end.
pub record Withdrawn (c : Cjson) (inet_addr : Str → Addr) (signed : Bool) (p p' : Packet)
    (m m' : Machine) (r q : Registry) (left left' : Resources)
    (run : (Daemon × Call Registrar) × (Daemon × Call Registrar)) : Type 0 where
  pub registered : Registered c inet_addr signed p m r left run.0
  pub withdrawn : Unregistered c inet_addr signed p' m' success q left' run.1

module _ (c : Cjson) (inet_addr : Str → Addr) (signed : Bool) (laws : Laws c)
    (can_yes : CanSend signed c (reason_tree c (codes "")))
    (can_no : CanSend signed c (reason_tree c (codes "service no found"))) where
  -- `register_service` and later `unregister_service` of the same names, with one daemon. With the
  -- laws of cJSON (strings below 100 bytes, port below 2 ^ 16, texts that fit and have one checksum
  -- for both sides, for each of the packets and answers), where the daemon holds the registry `r`,
  -- where each call has a machine with a socket, interfaces with addresses, a healthy network and a
  -- sending thread that ends before the packet is freed, the daemon handles the packet of each call
  -- once, and what it then sends is delivered in order until a read of the caller times out: both
  -- calls return 0; between them the daemon holds `r` with the new service in the place of one with
  -- its names, and at the end `r` without a service of these names; each packet went to the hosts
  -- 1, 2, ... of a subnet, each once, up to 254 or the round in which `read_end` is seen; each call
  -- leaves a socket and a client object behind.
  pub withdraw-Withdrawn :
      (dev svc ip info : Str) (port : ℕ) (from device : Addr) (p q : Packet) (d : Daemon)
      (r : Registry) (m m' : Machine) (n n' : ℕ) (ifs ifs' : List Interface) (rs rs' : Resources)
      → IsField dev × IsField svc × IsField ip × IsField info
      → port < 2 ^ 16
      → CanSend signed c (service_tree c dev svc ip info port)
      → CanSend signed c (service_tree c dev svc (codes "") (codes "") 0)
      → get_register_pkt signed c (some dev) (some svc) (some ip) port (some info) ≡ done p
      → get_unregister_pkt signed c (some dev) (some svc) ≡ done q
      → Serves signed c d r
      → IsAble m n ifs
      → IsAble m' n' ifs'
      → Returns
          (Withdrawn c inet_addr signed p q m m'
            (register dev svc (service dev svc ip info port) r)
            (erase dev svc r)
            (left_open n rs)
            (left_open n' rs'))
          (withdraw c inet_addr signed
            (service dev svc ip info port)
            dev
            svc
            from
            device
            p
            q
            d
            m
            m'
            rs
            rs')
  unfolding withdraw
  withdraw-Withdrawn dev svc ip info port from device p q d r m m' n n' ifs ifs' rs rs'
        (f_dev, f_svc, f_ip, f_info) small can_send can_withdraw built withdraws serves able able' =
      then-Returns
        (register_at-Registered c signed laws can_yes inet_addr can_no dev svc ip info port from p d
          r m n ifs rs (f_dev, f_svc, f_ip, f_info) small can_send built serves able.has able.limits
          able.healthy able.in_time)
        λ first registered.
          then-Returns
            (unregister_at-Unregistered c inet_addr signed laws can_yes can_no dev svc from q
              (heard_from device first.0) (register dev svc (service dev svc ip info port) r) m' n'
              ifs' rs' (f_dev, f_svc) can_withdraw withdraws
              (record {
                stores = registered.serves.stores;
                distinct = registered.serves.distinct;
                answers = registered.serves.answers;
                healthy = registered.serves.healthy;
              })
              able'.has able'.limits able'.healthy able'.in_time)
            λ second withdrawn. returns (record {
              registered = registered;
              withdrawn = record {
                serves =
                    subst (λ (s : Registry). Serves signed c second.0 s)
                      (erase-register dev svc (service dev svc ip info port) r (refl, refl)
                        serves.distinct)
                      withdrawn.serves;
                state = withdrawn.state;
                same = withdrawn.same;
                ret =
                    withdrawn.ret
                    ∙ ap (λ (b : Bool). if b then success else failure)
                        (contains-register dev svc (service dev svc ip info port) r (refl, refl));
                ip = withdrawn.ip;
                sent = withdrawn.sent;
              };
            })
