-- ===== src/Daemon/Replies.antt =====
-- Sending the packet of a reply on a healthy socket, and replies one after another.
use mini_service_discover.Base.{
  append_laws, ◌<◌, ◌≡◌, refl, ap, ◌∙◌, sym, Bool, List, [], ◌∷◌, ◌++◌, length, append_assoc,
  append-nil,
}
use mini_service_discover.Base.Outcome.{done, ◌>>=◌}
use mini_service_discover.Protocol.{Packet}
use mini_service_discover.Protocol.Cjson.{Cjson}
use mini_service_discover.Udp.{Datagram, Socket, udp_server_write}
use mini_service_discover.Udp.Send.{IsHealthy, with_sent, udp_server_write-healthy}
use mini_service_discover.Daemon.{Daemon, send_pkt}
use mini_service_discover.Daemon.Spec.{Reply, Built, reply_pkt, ArePackets, Replied}

-- the daemon after one more packet to the last sender
abbrev pub after_sending : Daemon → Packet → Daemon
after_sending d p = record d { socket = with_sent d.socket ((d.socket.addrfrom, p.bytes) ∷ []) }

pub send_pkt-done :
    (d : Daemon) (p : Packet)
    → p.len ≡ length p.bytes
    → 0 < length p.bytes
    → IsHealthy d.socket
    → send_pkt p d ≡ done (after_sending d p)
unfolding send_pkt
send_pkt-done d p whole pos healthy =
    ap (λ n. udp_server_write d.socket p.bytes n >>= λ r. done (record d { socket = r.1 })) whole
    ∙ rw (udp_server_write-healthy d.socket p.bytes healthy pos)

module _ (signed : Bool) (c : Cjson) where
  pub Replied-none : (s : Socket) → IsHealthy s → Replied signed c s [] s
  Replied-none s healthy = record {
    packets = [];
    are = tt;
    log = sym (append-nil s.sent);
    arrivals = refl;
    addrfrom = refl;
    healthy = healthy;
  }

  -- A reply, and the replies after it.
  pub Replied-cons :
      (s t : Socket) (q : Reply) (qs : List Reply) (b : Built (reply_pkt signed c q))
      → Replied signed c (with_sent s ((s.addrfrom, b.pkt.bytes) ∷ [])) qs t
      → Replied signed c s (q ∷ qs) t
  Replied-cons s t q qs b r = record {
    packets = b.pkt ∷ r.packets;
    are = (b.built, r.are);
    log = r.log ∙ append_assoc s.sent _ _;
    arrivals = r.arrivals;
    addrfrom = r.addrfrom;
    healthy = r.healthy;
  }

  pub Replied-one :
      (s : Socket) (q : Reply) (b : Built (reply_pkt signed c q))
      → IsHealthy s
      → Replied signed c s (q ∷ []) (with_sent s ((s.addrfrom, b.pkt.bytes) ∷ []))
  Replied-one s q b healthy = Replied-cons s _ q [] b (Replied-none _ healthy)

  pub Replied-append :
      (s t u : Socket) (ps qs : List Reply)
      → Replied signed c s ps t
      → Replied signed c t qs u
      → Replied signed c s (ps ++ qs) u
  Replied-append s t u ps qs r q = record {
    packets = r.packets ++ q.packets;
    are = joined ps r.packets r.are;
    log = simp (append_laws, q.log, r.addrfrom, r.log);
    arrivals = q.arrivals ∙ r.arrivals;
    addrfrom = q.addrfrom ∙ r.addrfrom;
    healthy = q.healthy;
  }
    where
      to_sender : Packet → Datagram
      to_sender p = (s.addrfrom, p.bytes)

      joined :
          (ps : List Reply) (packets : List Packet)
          → ArePackets signed c ps packets
          → ArePackets signed c (ps ++ qs) (packets ++ q.packets)
      joined [] [] a = q.are
      joined [] (p ∷ packets) a = absurd a
      joined (p ∷ ps) [] a = absurd a
      joined (p ∷ ps) (x ∷ packets) a = (a.0, joined ps packets a.1)
