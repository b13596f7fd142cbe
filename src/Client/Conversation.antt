-- ===== src/Client/Conversation.antt =====
-- A whole call of inquiry_service of c/provider/client.c that a daemon answers.
use mini_service_discover.Base.{
  ◌∙◌, ◌++◌, map, ap, sym, ℕ, ◌≡◌, subst, Bool, true, some, List, [], All, length, drop,
}
use mini_service_discover.Base.Outcome.{
  done-injective, Outcome, done, ◌>>=◌, Returns, then-Returns, weaken-Returns,
}
use mini_service_discover.CString.{Str, codes}
use mini_service_discover.ServiceList.Registry.{Registry}
use mini_service_discover.ServiceList.Stores.{Stores}
use mini_service_discover.Protocol.{Packet}
use mini_service_discover.Protocol.Cjson.{Cjson, Laws}
use mini_service_discover.Protocol.Build.{service_tree, get_inquiry_pkt}
use mini_service_discover.Protocol.RoundTrip.{IsField, CanSend}
use mini_service_discover.Protocol.Reasons.{reason_tree}
use mini_service_discover.Udp.{Addr}
use mini_service_discover.Udp.Send.{IsHealthy}
use mini_service_discover.Daemon.{Daemon, handle_pkt}
use mini_service_discover.Daemon.Spec.{Serves, named_prefix}
use mini_service_discover.Resources.{Resources}
use mini_service_discover.Subnet.Hosts.{to_host, from_on, rounds}
use mini_service_discover.Subnet.Local.{Interface}
use mini_service_discover.Subnet.Open.{Machine}
use mini_service_discover.Subnet.Opened.{HasSocket, HasLimits}
use mini_service_discover.Client.{Client}
use mini_service_discover.Client.Exchange.{delivered}
use mini_service_discover.Client.Inquiry.{IsSendable, handle_pkt-Answered}
use mini_service_discover.Client.Call.{Call, returned, inquiry_service}
use mini_service_discover.Client.Called.{inquiry_service-Found}

-- The machine `m` hears what the daemon at the address `from` sent, from `d` to `e`.
abbrev pub hearing : Addr → Daemon → Daemon → Machine → Machine
hearing from d e m = record m {
  socket = record m.socket {
    arrivals = delivered from (drop (length d.socket.sent) e.socket.sent);
  };
}

-- The daemon at the address `from` handles the packet of an inquiry, and `inquiry_service` gets its
-- answers.
unfoldable pub converse :
    Cjson
    → (Str → Addr)
    → Bool
    → Str
    → Addr
    → Packet
    → Daemon
    → Machine
    → Resources
    → Outcome (Call Client)
converse c inet_addr signed name from pkt d m rs = do
  e ← handle_pkt signed c pkt d
  inquiry_service c inet_addr signed (some name) (hearing from d e m) rs

-- The call on the machine `m` has returned with a list that stands for `q`; it sent this packet to
-- the hosts of a subnet, and the process holds `rs`.
pub record Listed (inet_addr : Str → Addr) (pkt : Packet) (m : Machine) (q : Registry)
    (rs : Resources) (call : Call Client) : Type 0 where
  pub client : Client
  pub ip : Str
  pub sent :
      client.socket.sent
      ≡ m.socket.sent ++ map (to_host inet_addr ip pkt.bytes) (from_on 1 (rounds m.read_end 0 254))
  pub same : call ≡ returned (some client) rs
  pub list : Stores client.memory.brk client.memory client.list q

module _ (c : Cjson) (inet_addr : Str → Addr) (signed : Bool) (laws : Laws c)
    (can_yes : CanSend signed c (reason_tree c (codes "")))
    (can_no : CanSend signed c (reason_tree c (codes "service no found"))) where
  -- With the laws of cJSON, `inquiry_service` for a name (below 100 bytes, text that fits and has
  -- one checksum for both sides, as the texts of the two answers without a service), on a machine
  -- that has a socket, interfaces with addresses, a healthy network and a sending thread that ends
  -- before the packet is freed, of which a daemon that holds the registry `r`, of services that
  -- answers can carry, handles the packet: if what the daemon sends is delivered in order, and then
  -- a read times out, the call returns a list that stands for the services of the name in `r`, up
  -- to the first service with another name; this packet went to the hosts 1, 2, ... of a subnet,
  -- each once, up to 254 or the round in which `read_end` is seen, and the process holds what it
  -- held before.
  pub inquiry_service-converse :
      (name : Str) (from : Addr) (pkt : Packet) (d : Daemon) (r : Registry) (m : Machine) (n : ℕ)
      (ifs : List Interface) (rs : Resources)
      → IsField name
      → CanSend signed c (service_tree c (codes "") name (codes "") (codes "") 0)
      → get_inquiry_pkt signed c (some name) ≡ done pkt
      → Serves signed c d r
      → All (IsSendable signed c laws) r
      → HasSocket m n ifs
      → HasLimits m
      → IsHealthy m.socket
      → m.sender_ends_first ≡ true
      → Returns
          (Listed inet_addr pkt m (named_prefix name r) rs)
          (converse c inet_addr signed name from pkt d m rs)
  unfolding converse
  inquiry_service-converse name from pkt d r m n ifs rs field can_ask built serves ss has limits
        healthy in_time =
      then-Returns
        (handle_pkt-Answered signed c laws can_yes can_no name from pkt d r field can_ask built
          serves ss)
        λ e h.
          weaken-Returns
            (inquiry_service-Found c inet_addr signed laws name (hearing from d e m) n ifs h.answers
              [] rs field can_ask
              (record { sock = has.sock; interfaces = has.interfaces; addresses = has.addresses })
              healthy in_time h.holds h.arrive
              (record { sends = limits.sends; receives = limits.receives }))
            λ call found. record {
              client = found.client;
              same = found.same;
              ip = found.ip;
              sent =
                  found.sent
                  ∙ ap
                      (λ (p : Packet).
                        m.socket.sent
                        ++ map (to_host inet_addr found.ip p.bytes)
                            (from_on 1 (rounds m.read_end 0 254)))
                      (done-injective (sym found.built ∙ built));
              list =
                  subst
                    (λ (q : Registry).
                      Stores found.client.memory.brk found.client.memory found.client.list q)
                    h.collected found.list;
            }
