-- ===== src/Protocol/Packets.antt =====
-- Each builder of c/provider/comm/protocal.c against the functions that read its packet.
use mini_service_discover.Base.{ℕ, ◌^◌, ◌≤◌, ◌<◌, ◌≡◌, refl, Bool, some, arith, length}
use mini_service_discover.Base.Outcome.{undefined, Returns, weaken-Returns}
use mini_service_discover.CString.{Str, codes}
use mini_service_discover.CString.Laws.{IsCString}
use mini_service_discover.Protocol.{
  register_service, unregister_service, inquiry, action_succ, code_of, action_of, Action,
}
use mini_service_discover.Protocol.Cjson.{Cjson, Laws}
use mini_service_discover.Protocol.Build.{
  service_tree, seal_pkt, get_register_pkt, get_unregister_pkt, get_inquiry_pkt,
  get_inquiry_result_pkt,
}
use mini_service_discover.Protocol.RoundTrip.{
  IsField, copy_field-short, copy_field-long, CanSend, Carries, service, seal_pkt-Tells,
  Tells-Carries,
}

no_text : IsField (codes "")
no_text = record { c_string = tt; short = omega arith }

module _ (signed : Bool) (c : Cjson) (laws : Laws c) where
  carried :
      (action : Action) (d n i x : Str) (port : ℕ)
      → action_of (code_of action) ≡ action
      → port < 2 ^ 16
      → CanSend signed c (service_tree c d n i x port)
      → Returns
          (Carries c action (service d n i x port))
          (seal_pkt signed c action (service_tree c d n i x port))
  carried action d n i x port same small can =
      weaken-Returns (seal_pkt-Tells signed c laws action _ same can)
        (Tells-Carries signed c laws d n i x port small action)

  -- With the laws of cJSON, a registration with strings below 100 bytes and a port below 2 ^ 16,
  -- whose text fits and has one checksum for both sides, is built, is a whole packet, and is read
  -- as a registration of that service.
  pub get_register_pkt-Carries :
      (d n i x : Str) (port : ℕ)
      → IsField d × IsField n × IsField i × IsField x
      → port < 2 ^ 16
      → CanSend signed c (service_tree c d n i x port)
      → Returns
          (Carries c register_service (service d n i x port))
          (get_register_pkt signed c (some d) (some n) (some i) port (some x))
  unfolding get_register_pkt code_of action_of
  get_register_pkt-Carries d n i x port (fd, fn, fi, fx) small can =
      rw
        (copy_field-short d fd, copy_field-short n fn, copy_field-short i fi, copy_field-short x fx)
        (carried register_service d n i x port refl small can)

  -- With the laws of cJSON, the answer to an inquiry with a service of strings below 100 bytes and
  -- a port below 2 ^ 16, whose text fits and has one checksum for both sides, is built, is a whole
  -- packet, and is read as a success with that service.
  pub get_inquiry_result_pkt-Carries :
      (d n i x : Str) (port : ℕ)
      → IsField d × IsField n × IsField i × IsField x
      → port < 2 ^ 16
      → CanSend signed c (service_tree c d n i x port)
      → Returns
          (Carries c action_succ (service d n i x port))
          (get_inquiry_result_pkt signed c (service d n i x port))
  unfolding get_inquiry_result_pkt code_of action_of
  get_inquiry_result_pkt-Carries d n i x port (fd, fn, fi, fx) small can =
      rw
        (copy_field-short d fd, copy_field-short n fn, copy_field-short i fi, copy_field-short x fx)
        (carried action_succ d n i x port refl small can)

  -- With the laws of cJSON, a request to unregister, with two names below 100 bytes and a text that
  -- fits and has one checksum for both sides, is built, is a whole packet, and is read as such a
  -- request with the two names.
  pub get_unregister_pkt-Carries :
      (d n : Str)
      → IsField d × IsField n
      → CanSend signed c (service_tree c d n (codes "") (codes "") 0)
      → Returns
          (Carries c unregister_service (service d n (codes "") (codes "") 0))
          (get_unregister_pkt signed c (some d) (some n))
  unfolding get_unregister_pkt code_of action_of
  get_unregister_pkt-Carries d n (fd, fn) can =
      rw (copy_field-short d fd, copy_field-short n fn)
        (carried unregister_service d n (codes "") (codes "") 0 refl (omega arith) can)

  -- With the laws of cJSON, an inquiry with a name below 100 bytes and a text that fits and has one
  -- checksum for both sides, is built, is a whole packet, and is read as an inquiry with that name
  -- and an empty device name.
  pub get_inquiry_pkt-Carries :
      (n : Str)
      → IsField n
      → CanSend signed c (service_tree c (codes "") n (codes "") (codes "") 0)
      → Returns
          (Carries c inquiry (service (codes "") n (codes "") (codes "") 0))
          (get_inquiry_pkt signed c (some n))
  unfolding get_inquiry_pkt code_of action_of
  get_inquiry_pkt-Carries n fn can =
      rw (copy_field-short n fn)
        (carried inquiry (codes "") n (codes "") (codes "") 0 refl (omega arith) can)

-- A registration whose info has 100 bytes or more (it and the other strings C strings, those below
-- 100 bytes) reads past the end of a buffer.
pub get_register_pkt-long :
    (signed : Bool) (c : Cjson) (d n i x : Str) (port : ℕ)
    → IsField d × IsField n × IsField i × IsCString x
    → 100 ≤ length x
    → get_register_pkt signed c (some d) (some n) (some i) port (some x) ≡ undefined
unfolding get_register_pkt
get_register_pkt-long signed c d n i x port (fd, fn, fi, cx) long =
    rw (
      copy_field-short d fd,
      copy_field-short n fn,
      copy_field-short i fi,
      copy_field-long x cx long,
    )
