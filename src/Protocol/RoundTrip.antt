-- ===== src/Protocol/RoundTrip.antt =====
-- What a built packet of c/provider/comm/protocal.c tells its receiver, as predicates, with the
-- lemmas that all builders share.
use mini_service_discover.Base.{
  all, true, ℕ, ◌%◌, ◌^◌, ◌≤◌, ◌<◌, ◌≡◌, refl, ap, ◌∙◌, sym, ◌⊎◌, Bool, false, none, some, ◌==◌,
  arith, length, if◌then◌else◌,
}
use mini_service_discover.Base.Outcome.{Outcome, done, undefined, Returns, returns}
use mini_service_discover.CString.{Str, codes}
use mini_service_discover.CString.Laws.{
  nonzero, IsCString, IsCString-of_all, read_string-strncpy, read_string-strncpy_long,
}
use mini_service_discover.Buffer.{load16}
use mini_service_discover.Memory.{ServiceInfo}
use mini_service_discover.Protocol.{
  Action, action_invalid, code_of, action_of, Packet, decode_action, byte_value, char_value,
}
use mini_service_discover.Protocol.Cjson.{Cjson, Laws, string, number, same_name, or_added}
use mini_service_discover.Protocol.Build.{copy_field, service_tree, seal_pkt}
use mini_service_discover.Protocol.Decode.{json_data, info_of, get_service_info}
use mini_service_discover.Protocol.Checksum.{total, high_bytes, checksums_agree_iff}
use mini_service_discover.Protocol.Sealed.{
  seal_pkt-packet, decode_action-packet, packet-Received, json_data-packet,
}

-- A string that the buffers of the builders hold with its NUL.
pub record IsField (s : Str) : Type 0 where
  pub c_string : IsCString s
  pub short : length s < 100

pub IsField-of_all : (s : Str) → all nonzero s ≡ true → length s < 100 → IsField s
IsField-of_all s no_nul short = record { c_string = IsCString-of_all s no_nul; short = short }

pub copy_field-short : (s : Str) → IsField s → copy_field (some s) ≡ done s
unfolding copy_field
copy_field-short s f = read_string-strncpy 100 s f.c_string f.short

-- A longer string has no NUL in the buffer, which is then read past its end; so is NULL.
pub copy_field-long : (s : Str) → IsCString s → 100 ≤ length s → copy_field (some s) ≡ undefined
unfolding copy_field
copy_field-long s h long = read_string-strncpy_long 100 s h long

-- A packet of 1024 bytes, all of which are sent.
pub record IsWhole (pkt : Packet) : Type 0 where
  pub size : length pkt.bytes ≡ 1024
  pub len : pkt.len ≡ 1024

-- The packet makes its receiver act, and hands it this service.
abbrev pub Carries : Cjson → Action → ServiceInfo → Packet → Type 0
Carries c action info pkt =
    IsWhole pkt × (decode_action pkt ≡ done action) × (get_service_info c pkt ≡ done (some info))

-- The text fits behind the header with a NUL, and its checksums agree.
pub record CanSend (signed : Bool) (c : Cjson) (root : c.Tree) : Type 0 where
  pub fits : length (c.print root) < 1016
  pub agree : (signed ≡ false) ⊎ (high_bytes (c.print root) % 256 ≡ 0)

abbrev pub service : Str → Str → Str → Str → ℕ → ServiceInfo
service d n i x port = record {
  device_name = some d;
  service_name = some n;
  ip = some i;
  info = some x;
  port = port;
}

module _ (signed : Bool) (c : Cjson) (laws : Laws c) where
  -- What a packet tells its receiver: the action, and the items of the object.
  pub record Tells (action : Action) (root : c.Tree) (pkt : Packet) : Type 0 where
    pub whole : IsWhole pkt
    pub told : decode_action pkt ≡ done action
    pub code : load16 2 pkt.bytes ≡ done (code_of action)
    pub json : c.Tree
    pub text : json_data pkt ≡ done (c.print root)
    pub parsed : c.parse (c.print root) ≡ some json
    pub items : (name : Str) → c.get_item json name ≡ c.get_item root name

  code-lt : (action : Action) → code_of action < 2 ^ 16
  unfolding code_of
  code-lt action = ground arith

  accepted_when :
      (a b : ℕ)
      → a ≡ b
      → (code : ℕ)
      → ◌≡◌ {A = Outcome Action}
          (done (if a == b then action_of code else action_invalid))
          (done (action_of code))
  accepted_when a b e code = ground arith

  pub seal_pkt-Tells :
      (action : Action) (root : c.Tree)
      → action_of (code_of action) ≡ action
      → CanSend signed c root
      → Returns (Tells action root) (seal_pkt signed c action root)
  seal_pkt-Tells action root same can =
      let text = c.print root in
      let sum : ℕ = total (char_value signed) text % 2 ^ 16 in
      let (is, bytes) = laws.print-IsCString root in
      let (json, parsed, items) = laws.parse-print root in
      rw (seal_pkt-packet signed c action root (omega (arith, can.fits))) (
        returns (record {
          whole = record {
            size =
                (packet-Received (code_of action) sum text (code-lt action) (omega arith)
                  (omega (arith, can.fits))).size;
            len = refl;
          };
          told =
              decode_action-packet (code_of action) sum text (code-lt action) (omega arith)
                (omega (arith, can.fits))
              ∙ accepted_when (total byte_value text % 2 ^ 16) sum
                  (sym ((checksums_agree_iff signed text bytes).1 can.agree)) (code_of action)
              ∙ ap done same;
          code =
              (packet-Received (code_of action) sum text (code-lt action) (omega arith)
                (omega (arith, can.fits))).action;
          json = json;
          text = json_data-packet (code_of action) sum text is can.fits;
          parsed = parsed;
          items = items;
        }))

  module _ (d n i x : Str) (port : ℕ) (port_small : port < 2 ^ 16) where
    abbrev pub sent : c.Tree
    sent = service_tree c d n i x port

    -- The object of a service has the five items, under different names.
    service_tree-item :
        (name : Str)
        → c.get_item sent name
          ≡ or_added
              (or_added
                (or_added
                  (or_added
                    (or_added none (codes "device_name") (string d) name)
                    (codes "service_name")
                    (string n)
                    name)
                  (codes "ip")
                  (string i)
                  name)
                (codes "info")
                (string x)
                name)
              (codes "port")
              (number port)
              name
    unfolding service_tree
    service_tree-item name = rw (
      laws.get_item-add_number _ (codes "port") port name (omega arith),
      laws.get_item-add_string _ (codes "info") x name,
      laws.get_item-add_string _ (codes "ip") i name,
      laws.get_item-add_string _ (codes "service_name") n name,
      laws.get_item-add_string _ (codes "device_name") d name,
      laws.get_item-create name,
    )

    -- The receiver's struct has the fields that were sent.
    info_of-sent :
        (json : c.Tree)
        → ((name : Str) → c.get_item json name ≡ c.get_item sent name)
        → info_of c json ≡ service d n i x port
    unfolding info_of same_name
    info_of-sent json items =
        let read = λ (name : Str). items name ∙ service_tree-item name in
        let port_same : port % 2 ^ 16 ≡ port = omega arith in
        rw (
          read (codes "device_name"),
          read (codes "service_name"),
          read (codes "ip"),
          read (codes "info"),
          read (codes "port"),
          port_same,
        )

    pub Tells-Carries :
        (action : Action) (pkt : Packet)
        → Tells action sent pkt
        → Carries c action (service d n i x port) pkt
    unfolding get_service_info
    Tells-Carries action pkt t = (
      t.whole,
      t.told,
      rw (t.text, t.parsed) (ap (λ s. done (some s)) (info_of-sent t.json t.items)),
    )
