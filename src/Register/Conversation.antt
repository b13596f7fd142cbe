-- ===== src/Register/Conversation.antt =====
-- A whole call of register_service of c/provider/server.c that a daemon answers.
use mini_service_discover.Base.{
  ℕ, ◌^◌, ◌<◌, ◌≡◌, refl, ap, sym, ◌∙◌, Bool, true, if◌then◌else◌, some, List, [], ◌∷◌, ◌++◌, map,
}
use mini_service_discover.Base.Outcome.{
  done-injective, Outcome, done, ◌>>=◌, Returns, returns, Returns-done, then-Returns,
}
use mini_service_discover.CString.{Str, codes}
use mini_service_discover.Memory.{ServiceInfo}
use mini_service_discover.ServiceList.{success, failure}
use mini_service_discover.ServiceList.Registry.{Registry, register}
use mini_service_discover.Protocol.{Action, Packet}
use mini_service_discover.Protocol.Cjson.{Cjson, Laws}
use mini_service_discover.Protocol.Build.{service_tree, get_register_pkt}
use mini_service_discover.Protocol.RoundTrip.{IsField, CanSend, service}
use mini_service_discover.Protocol.Packets.{
  get_register_pkt-Carries, get_inquiry_result_pkt-Carries,
}
use mini_service_discover.Protocol.Reasons.{reason_tree}
use mini_service_discover.Udp.{Addr}
use mini_service_discover.Udp.Send.{IsHealthy}
use mini_service_discover.Daemon.{Daemon, is_request, handle_pkt}
use mini_service_discover.Daemon.Spec.{Serves, succeeded, step}
use mini_service_discover.Daemon.Refines.{handle_pkt-step}
use mini_service_discover.Daemon.Clients.{CanAnswer-of_CanSend, Built-of_IsWhole}
use mini_service_discover.Resources.{Resources}
use mini_service_discover.Subnet.Hosts.{to_host, from_on, rounds}
use mini_service_discover.Subnet.Local.{Interface}
use mini_service_discover.Subnet.Open.{Machine}
use mini_service_discover.Subnet.Opened.{HasSocket, HasLimits}
use mini_service_discover.Client.Conversation.{hearing}
use mini_service_discover.Client.Call.{Call, returned}
use mini_service_discover.Register.{Registrar}
use mini_service_discover.Register.Call.{register_service, result_of}
use mini_service_discover.Register.Heard.{hear_verdict, delivered-verdicts}
use mini_service_discover.Register.Called.{left_open, register_service-Requested}

-- The daemon at the address `from` handles the packet of a registration, and `register_service` gets
-- its answer.
unfoldable pub register_at :
    Cjson
    → (Str → Addr)
    → Bool
    → ServiceInfo
    → Addr
    → Packet
    → Daemon
    → Machine
    → Resources
    → Outcome (Daemon × Call Registrar)
register_at c inet_addr signed i from pkt d m rs = do
  e ← handle_pkt signed c pkt d
  call ←
      register_service c inet_addr signed i.device_name i.service_name i.ip i.port i.info
        (hearing from d e m) rs
  done (e, call)

-- The daemon holds `r`, and the call on the machine `m` has returned 0; it sent this packet to the
-- hosts of a subnet.
pub record Registered (c : Cjson) (inet_addr : Str → Addr) (signed : Bool) (pkt : Packet)
    (m : Machine) (r : Registry) (left : Resources) (p : Daemon × Call Registrar) : Type 0 where
  pub serves : Serves signed c p.0 r
  pub state : Registrar
  pub same : p.1 ≡ returned (some state) left
  pub ret : result_of (some state) ≡ success
  pub ip : Str
  pub sent :
      state.socket.sent
      ≡ m.socket.sent ++ map (to_host inet_addr ip pkt.bytes) (from_on 1 (rounds m.read_end 0 254))

module _ (c : Cjson) (signed : Bool) (laws : Laws c)
    (can_yes : CanSend signed c (reason_tree c (codes ""))) (inet_addr : Str → Addr)
    (can_no : CanSend signed c (reason_tree c (codes "service no found"))) where
  -- With the laws of cJSON, `register_service` (strings below 100 bytes, port below 2 ^ 16, texts
  -- that fit and have one checksum for both sides, for each of the packets and answers), on a
  -- machine that has a socket, interfaces with addresses, a healthy network and a sending thread
  -- that ends before the packet is freed, of which a daemon that holds the registry `r` handles the
  -- packet: if what the daemon sends is delivered in order, and then a read times out, the call
  -- returns 0, and the daemon holds `r` with the service in the place of one with its names; this
  -- packet went to the hosts 1, 2, ... of a subnet, each once, up to 254 or the round in which
  -- `read_end` is seen; the socket of the call stays open and its client object is not freed.
  pub register_at-Registered :
      (dev svc ip info : Str) (port : ℕ) (from : Addr) (pkt : Packet) (d : Daemon) (r : Registry)
      (m : Machine) (n : ℕ) (ifs : List Interface) (rs : Resources)
      → IsField dev × IsField svc × IsField ip × IsField info
      → port < 2 ^ 16
      → CanSend signed c (service_tree c dev svc ip info port)
      → get_register_pkt signed c (some dev) (some svc) (some ip) port (some info) ≡ done pkt
      → Serves signed c d r
      → HasSocket m n ifs
      → HasLimits m
      → IsHealthy m.socket
      → m.sender_ends_first ≡ true
      → Returns
          (Registered c inet_addr signed pkt m
            (register dev svc (service dev svc ip info port) r)
            (left_open n rs))
          (register_at c inet_addr signed (service dev svc ip info port) from pkt d m rs)
  unfolding register_at is_request step
  register_at-Registered dev svc ip info port from pkt d r m n ifs rs fields small can_send built
        serves has limits healthy in_time =
      let can = CanAnswer-of_CanSend signed c laws can_yes can_no in
      let (whole, told, parsed) =
        Returns-done
          (get_register_pkt-Carries signed c laws dev svc ip info port fields small can_send)
          built in
      let answer =
        Built-of_IsWhole _ _ (λ pkt t. t.0)
          (get_inquiry_result_pkt-Carries signed c laws dev svc ip info port fields small
            can_send) in
      then-Returns
        (handle_pkt-step signed c can pkt Action.register_service d r (service dev svc ip info port)
          dev svc told refl parsed (refl, refl) answer serves)
        λ e served.
          let replied = served.replied in
          let h = hear_verdict c from signed laws can_yes can_no true replied.packets replied.are in
          then-Returns
            (register_service-Requested c inet_addr (hearing from d e m) n ifs h.verdicts [] rs
              (record { sock = has.sock; interfaces = has.interfaces; addresses = has.addresses })
              (record { sends = limits.sends; receives = limits.receives }) healthy in_time h.holds
              (delivered-verdicts signed c from true d.socket e.socket (succeeded ∷ []) replied h)
              signed laws dev svc ip info port fields small can_send)
            λ call done_call. returns (record {
              serves = served.serves;
              state = done_call.state;
              same = done_call.same;
              ip = done_call.ip;
              sent =
                  done_call.sent
                  ∙ ap
                      (λ (p : Packet).
                        m.socket.sent
                        ++ map (to_host inet_addr done_call.ip p.bytes)
                            (from_on 1 (rounds m.read_end 0 254)))
                      (done-injective (sym done_call.built ∙ built));
              ret = done_call.ret ∙ ap (λ (b : Bool). if b then success else failure) h.success;
            })
