-- ===== src/Testing/Data.antt =====
-- Services, requests and lists for the examples.
use mini_service_discover.Base.{◌<◌, refl, inl, false, arith, length}
use mini_service_discover.CString.{Str, codes}
use mini_service_discover.Memory.{ServiceInfo}
use mini_service_discover.Protocol.Build.{service_tree}
use mini_service_discover.Protocol.RoundTrip.{IsField-of_all, IsField, CanSend, service}
use mini_service_discover.Protocol.Reasons.{reason_tree}
use mini_service_discover.Testing.PlainJson.{
  Object, object_code, value_code, values_code, item_code, plain_json,
}

abbrev pub box : Str
box = codes "box1"

abbrev pub music : Str
music = codes "music"

abbrev pub host : Str
host = codes "10.0.0.1"

abbrev pub note : Str
note = codes "pcm"

abbrev pub box_service : ServiceInfo
box_service = service box music host note 80

pub box-IsField : IsField box
box-IsField = IsField-of_all box refl (omega arith)

pub music-IsField : IsField music
music-IsField = IsField-of_all music refl (omega arith)

pub host-IsField : IsField host
host-IsField = IsField-of_all host refl (omega arith)

pub note-IsField : IsField note
note-IsField = IsField-of_all note refl (omega arith)

pub can_send : (o : Object) → length (object_code o) < 1016 → CanSend false plain_json o
can_send o fits = record { fits = fits; agree = inl refl }

pub box_service-CanSend : CanSend false plain_json (service_tree plain_json box music host note 80)
unfolding object_code value_code values_code item_code service_tree
box_service-CanSend = can_send (service_tree plain_json box music host note 80) (omega arith)

pub music-CanSend :
    CanSend false plain_json (service_tree plain_json (codes "") music (codes "") (codes "") 0)
unfolding object_code value_code values_code item_code service_tree
music-CanSend =
    can_send (service_tree plain_json (codes "") music (codes "") (codes "") 0) (omega arith)

pub names-CanSend :
    CanSend false plain_json (service_tree plain_json box music (codes "") (codes "") 0)
unfolding object_code value_code values_code item_code service_tree
names-CanSend = can_send (service_tree plain_json box music (codes "") (codes "") 0) (omega arith)

pub no_reason-CanSend : CanSend false plain_json (reason_tree plain_json (codes ""))
unfolding object_code value_code values_code item_code
no_reason-CanSend = can_send (reason_tree plain_json (codes "")) (omega arith)

pub not_found-CanSend : CanSend false plain_json (reason_tree plain_json (codes "service no found"))
unfolding object_code value_code values_code item_code
not_found-CanSend = can_send (reason_tree plain_json (codes "service no found")) (omega arith)
