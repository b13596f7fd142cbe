-- ===== src/Daemon/Spec.antt =====
-- The daemon as a registry with replies: what c/provider/daemon.c does for each request, without
-- memory, packets and sockets.
use mini_service_discover.Base.{
  ◌<◌, ◌≡◌, Bool, true, false, some, List, [], ◌∷◌, ◌++◌, map, if◌then◌else◌, length, All,
}
use mini_service_discover.Base.Outcome.{Outcome, done}
use mini_service_discover.CString.{Str, codes}
use mini_service_discover.Memory.{ServiceInfo}
use mini_service_discover.ServiceList.Registry.{
  Registry, text_eq, contains, erase, register, IsDistinct,
}
use mini_service_discover.ServiceList.Stores.{Stores}
use mini_service_discover.Protocol.{Action, register_service, unregister_service, inquiry, Packet}
use mini_service_discover.Protocol.Cjson.{Cjson}
use mini_service_discover.Protocol.Build.{get_inquiry_result_pkt, get_result_pkt}
use mini_service_discover.Udp.{Socket}
use mini_service_discover.Udp.Send.{IsHealthy}
use mini_service_discover.Daemon.{Daemon, service_no_found}

pub data Reply : Type 0 where
  succeeded not_found : Reply
  found : ServiceInfo → Reply

-- The services with the name, up to the first service with another name.
unfoldable pub named_prefix : Str → Registry → Registry
named_prefix svc [] = []
named_prefix svc (i ∷ r) =
    let rest = named_prefix svc r in if text_eq i.service_name svc then i ∷ rest else []

abbrev pub inquiry_replies : Registry → List Reply
inquiry_replies [] = not_found ∷ []
inquiry_replies (i ∷ q) = map found (i ∷ q)

-- The registry after a request with the names `dev` and `svc`, and the replies to it.
unfoldable pub step : Action → Str → Str → ServiceInfo → Registry → Registry × List Reply
step register_service dev svc i r = (register dev svc i r, succeeded ∷ [])
step unregister_service dev svc i r =
    (erase dev svc r, (if contains dev svc r then succeeded else not_found) ∷ [])
step inquiry dev svc i r = (r, inquiry_replies (named_prefix svc r))
step _ dev svc i r = (r, [])

-- A packet could be built, and is sent whole.
pub record Built (m : Outcome Packet) : Type 0 where
  pub pkt : Packet
  pub built : m ≡ done pkt
  pub whole : pkt.len ≡ length pkt.bytes
  pub some_bytes : 0 < length pkt.bytes

module _ (signed : Bool) (c : Cjson) where
  -- the packet of a reply
  abbrev pub reply_pkt : Reply → Outcome Packet
  reply_pkt succeeded = get_result_pkt signed c true (some (codes ""))
  reply_pkt not_found = get_result_pkt signed c false service_no_found
  reply_pkt (found i) = get_inquiry_result_pkt signed c i

  -- The daemon holds the registry `r`, and can build each of its answers.
  pub record Serves (d : Daemon) (r : Registry) : Type 0 where
    pub stores : Stores d.memory.brk d.memory d.list r
    pub distinct : IsDistinct r
    pub answers : All (λ i. Built (get_inquiry_result_pkt signed c i)) r
    pub healthy : IsHealthy d.socket

  -- These packets are the replies, in order.
  abbrev pub ArePackets : List Reply → List Packet → Type 0
  ArePackets [] [] = Unit
  ArePackets [] (p ∷ ps) = ⊥
  ArePackets (q ∷ qs) [] = ⊥
  ArePackets (q ∷ qs) (p ∷ ps) = (reply_pkt q ≡ done p) × ArePackets qs ps

  -- The replies went to the last sender, and nothing else happened to the socket.
  pub record Replied (s : Socket) (replies : List Reply) (t : Socket) : Type 0 where
    pub packets : List Packet
    pub are : ArePackets replies packets
    pub log : t.sent ≡ s.sent ++ map (λ (p : Packet). (s.addrfrom, p.bytes)) packets
    pub arrivals : t.arrivals ≡ s.arrivals
    pub addrfrom : t.addrfrom ≡ s.addrfrom
    pub healthy : IsHealthy t
