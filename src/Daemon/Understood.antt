-- ===== src/Daemon/Understood.antt =====
-- What the daemon of c/provider/daemon.c makes of one datagram that it understands.
use mini_service_discover.Base.{
  ◌≤◌, ◌≡◌, ◌⊎◌, inl, inr, Bool, true, false, none, some, [], if◌then◌else◌, length,
}
use mini_service_discover.Base.Outcome.{done, Returns, returns}
use mini_service_discover.ServiceList.Registry.{Registry}
use mini_service_discover.ServiceList.Registry.Laws.{HasNames}
use mini_service_discover.Protocol.{Action, decode_action}
use mini_service_discover.Protocol.Cjson.{Cjson}
use mini_service_discover.Protocol.Decode.{get_service_info}
use mini_service_discover.Daemon.{Daemon, is_request, handle_info, handle_pkt}
use mini_service_discover.Daemon.Spec.{Serves}
use mini_service_discover.Daemon.Replies.{Replied-none}
use mini_service_discover.Daemon.Handlers.{CanAnswer, Served}
use mini_service_discover.Daemon.Refines.{CanServe, handle_pkt-step}
use mini_service_discover.Daemon.Messages.{Message, request, ignored, content, effect, received}

module _ (signed : Bool) (c : Cjson) (can : CanAnswer signed c) where
  -- The datagram has the size of a packet, and is a request as it is said to be, or none.
  abbrev pub Understood : Message → Type 0
  Understood (request from bytes type i dev svc) =
      (1024 ≤ length bytes)
      × (decode_action (received bytes) ≡ done type)
      × (is_request type ≡ true)
      × (get_service_info c (received bytes) ≡ done (some i))
      × HasNames dev svc i
      × CanServe signed c can type i
  Understood (ignored from bytes) =
      (1024 ≤ length bytes)
      × (type : Action) × (decode_action (received bytes) ≡ done type)
      × ((is_request type ≡ false) ⊎ (get_service_info c (received bytes) ≡ done none))

  pub size : (q : Message) → Understood q → 1024 ≤ length (content q)
  size (request from bytes type i dev svc) u = u.0
  size (ignored from bytes) u = u.0

  pub message-Served :
      (q : Message) (d : Daemon) (r : Registry)
      → Understood q
      → Serves signed c d r
      → Returns
          (Served signed c can d.socket (effect q r).0 (effect q r).1)
          (handle_pkt signed c (received (content q)) d)
  message-Served (request from bytes type i dev svc) d r u serves =
      handle_pkt-step signed c can (received bytes) type d r i dev svc u.1 u.2 u.3 u.4 u.5 serves
  message-Served (ignored from bytes) d r (large, type, told, why) serves =
      unfold handle_pkt in
      rw told (elim why [
        | inl no_request ↦ rw no_request (returns same)
        | inr unparsed ↦ rw unparsed (unfold handle_info in either (is_request type))
      ])
    where
      same : Served signed c can d.socket r [] d
      same = record { serves = serves; replied = Replied-none signed c d.socket serves.healthy }

      either :
          (b : Bool) → Returns (Served signed c can d.socket r []) (if b then done d else done d)
      either true = returns same
      either false = returns same
