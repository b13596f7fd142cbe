-- ===== src/Subnet/Prefix.antt =====
-- Which part of which local address init_udp_client of c/provider/comm/udp.c keeps.
use mini_service_discover.Base.{
  ℕ, ◌≤◌, ◌≡◌, refl, ap, subst, ◌≢◌, ==_iff, length-append, Bool, false, inl, inr, Bool-cases,
  Option, none, some, List, [], ◌∷◌, ◌++◌, ◌==◌, if◌then◌else◌, length, All, arith,
}
use mini_service_discover.Base.Outcome.{done, ◌>>=◌, fetch, Returns, returns, then-Returns}
use mini_service_discover.CString.{Str}
use mini_service_discover.CString.Laws.{IsCString, read_string-strncpy}
use mini_service_discover.Udp.{Addr, Ret, count, Socket}
use mini_service_discover.Subnet.{UdpClient}
use mini_service_discover.Subnet.Local.{
  Address, inet, other_family, Interface, test_inet, find_inet, is_loopback, is_outside, copy_text,
  text_of, get_local_ipv4_addr, to_last_dot, without_host, new_client, init_udp_client,
}

-- An interface with an address, whose text is that of an address.
abbrev pub HasAddress : Option Address → Type 0
HasAddress none = ⊥
HasAddress (some (inet text)) = IsCString text × (length text ≤ 15)
HasAddress (some other_family) = Unit

-- The text of the first address that passes the test.
unfoldable pub text_if : (Str → Bool) → Option Address → Option Str → Option Str
text_if t (some (inet text)) rest = if t text then some text else rest
text_if t _ rest = rest

unfoldable pub first_text : (Interface → Str → Bool) → List Interface → Option Str
unfolding text_if
first_text test [] = none
first_text test (i ∷ is) = text_if (test i) i.addr (first_text test is)

abbrev pub or_empty : Option Str → Str
or_empty none = []
or_empty (some text) = text

abbrev pub or_else : Option Str → Option Str → Option Str
or_else none b = b
or_else (some text) b = some text

-- The first address outside of the machine, else that of the loopback, else no text.
unfoldable pub local_text : List Interface → Str
local_text ifs = or_empty (or_else (first_text is_outside ifs) (first_text is_loopback ifs))

-- What a loop found.
abbrev IsFirst : Option Interface → Option Str → Type 0
IsFirst none none = Unit
IsFirst none (some text) = ⊥
IsFirst (some i) none = ⊥
IsFirst (some i) (some text) = (i.addr ≡ some (inet text)) × IsCString text × (length text ≤ 15)

module _ (test : Interface → Str → Bool) where
  here :
      (i : Interface) (a : Option Address) (is : List Interface)
      → i.addr ≡ a
      → HasAddress a
      → Returns (λ o. IsFirst o (first_text test is)) (find_inet (λ i text. done (test i text)) is)
      → Returns
          (λ o. IsFirst o (text_if (test i) a (first_text test is)))
          (fetch a >>= λ b. test_inet (λ i text. done (test i text)) i b >>= λ hit.
            if hit then done (some i) else find_inet (λ i text. done (test i text)) is)
  unfolding text_if test_inet
  here i none is e h later = absurd h
  here i (some other_family) is e h later = later
  here i (some (inet text)) is e h later = elim (Bool-cases (test i text)) [
    | inl hit ↦ rw hit (returns (e, h.0, h.1))
    | inr miss ↦ rw miss later
  ]

  find_inet-IsFirst :
      (ifs : List Interface)
      → All (λ i. HasAddress i.addr) ifs
      → Returns
          (λ o. IsFirst o (first_text test ifs))
          (find_inet (λ i text. done (test i text)) ifs)
  unfolding find_inet first_text
  find_inet-IsFirst [] h = returns tt
  find_inet-IsFirst (i ∷ is) h = here i i.addr is refl h.0 (find_inet-IsFirst is h.1)

-- A buffer of 30 bytes holds the text.
copied :
    (i : Interface) (text : Str)
    → (i.addr ≡ some (inet text)) × IsCString text × (length text ≤ 15)
    → (text_of i.addr >>= copy_text) ≡ done text
unfolding text_of copy_text
copied i text (e, is, short) = rw (e, read_string-strncpy 30 text is (omega arith))

get_local_ipv4_addr-done :
    (ifs : List Interface)
    → All (λ i. HasAddress i.addr) ifs
    → Returns (λ s. (s ≡ local_text ifs) × (length s ≤ 15)) (get_local_ipv4_addr (some ifs))
unfolding get_local_ipv4_addr local_text
get_local_ipv4_addr-done ifs h =
    then-Returns (find_inet-IsFirst is_outside ifs h)
      λ o found. outside o (first_text is_outside ifs) found
  where
    loopback :
        (o : Option Interface) (t : Option Str)
        → IsFirst o t
        → Returns
            (λ s. (s ≡ or_empty t) × (length s ≤ 15))
            (elim o [ some i ↦ text_of i.addr >>= copy_text | none ↦ done [] ])
    loopback none none f = returns (refl, omega arith)
    loopback none (some text) f = absurd f
    loopback (some i) none f = absurd f
    loopback (some i) (some text) f = rw (copied i text f) (returns (refl, f.2))

    outside :
        (o : Option Interface) (t : Option Str)
        → IsFirst o t
        → Returns
            (λ s. (s ≡ or_empty (or_else t (first_text is_loopback ifs))) × (length s ≤ 15))
            (elim o [
              | some i ↦ text_of i.addr >>= copy_text
              | none ↦ (do
                p ← find_inet (λ i text. done (is_loopback i text)) ifs
                elim p [ some i ↦ text_of i.addr >>= copy_text | none ↦ done [] ])
            ])
    outside none none f =
        then-Returns (find_inet-IsFirst is_loopback ifs h)
          λ o found. loopback o (first_text is_loopback ifs) found
    outside none (some text) f = absurd f
    outside (some i) none f = absurd f
    outside (some i) (some text) f = rw (copied i text f) (returns (refl, f.2))

-- The last dot of a text, with what stands before and behind it, if there is one.
abbrev pub IsLastDot : Str → Option Str → Type 0
IsLastDot s none = All (λ b. b ≢ 46) s
IsLastDot s (some p) =
    (net : Str) × (host : Str) × (s ≡ net ++ 46 ∷ host)
    × All (λ b. b ≢ 46) host
    × (p ≡ net ++ 46 ∷ [])

to_last_dot-IsLastDot : (s : Str) → IsLastDot s (to_last_dot s)
unfolding to_last_dot
to_last_dot-IsLastDot [] = tt
to_last_dot-IsLastDot (b ∷ s) = step (to_last_dot s) (to_last_dot-IsLastDot s)
  where
    step :
        (o : Option Str)
        → IsLastDot s o
        → IsLastDot
            (b ∷ s)
            (elim o [ some p ↦ some (b ∷ p) | none ↦ if b == 46 then some (b ∷ []) else none ])
    step (some p) (net, host, same, free, kept) =
        (b ∷ net, host, ap (λ (l : Str). b ∷ l) same, free, ap (λ (l : Str). b ∷ l) kept)
    step none free = elim (Bool-cases (b == 46)) [
      | inl dot ↦
          let is_dot : b ≡ 46 = (==_iff b 46).0 dot in
          rw dot ([], s, ap (λ (x : ℕ). x ∷ s) is_dot, free, ap (λ (x : ℕ). x ∷ []) is_dot)
      | inr other ↦ rw other ((λ e. ground (arith, e, other)), free)
    ]

-- `ip` is what a client keeps of a text: all up to its last dot, or all if it has none.
pub data IsShared (text ip : Str) : Type 0 where
  up_to_dot :
      (net host : Str)
      → text ≡ net ++ 46 ∷ host
      → All (λ b. b ≢ 46) host
      → ip ≡ net ++ 46 ∷ []
      → IsShared text ip
  no_dot : All (λ b. b ≢ 46) text → ip ≡ text → IsShared text ip

without_host-IsShared : (text : Str) → IsShared text (without_host text)
unfolding without_host
without_host-IsShared text = kept (to_last_dot text) (to_last_dot-IsLastDot text)
  where
    kept : (o : Option Str) → IsLastDot text o → IsShared text (elim o [ some p ↦ p | none ↦ text ])
    kept (some p) (net, host, same, free, e) = up_to_dot net host same free e
    kept none free = no_dot free refl

length-IsShared : (text ip : Str) → IsShared text ip → length ip ≤ length text
length-IsShared text ip (up_to_dot net host same free e) =
    omega (
      arith,
      ap length same,
      ap length e,
      length-append net (46 ∷ host),
      length-append net (46 ∷ []),
    )
length-IsShared text ip (no_dot free e) = omega (arith, ap length e)

-- A client for a subnet.
pub record IsLocal (ifs : List Interface) (socket : Socket) (o : Option UdpClient) : Type 0 where
  pub client : UdpClient
  pub made : o ≡ some client
  pub shared : IsShared (local_text ifs) client.ip
  pub short : length client.ip ≤ 15
  pub same : client.socket ≡ socket

pub init_udp_client-IsLocal :
    (inet_addr : Str → Addr) (sock : ℕ) (ifs : List Interface) (nb : Ret) (socket : Socket)
    → All (λ i. HasAddress i.addr) ifs
    → Returns
        (IsLocal ifs socket)
        (init_udp_client inet_addr false (count sock) (some ifs) nb socket)
unfolding init_udp_client
init_udp_client-IsLocal inet_addr sock ifs nb socket h =
    then-Returns (get_local_ipv4_addr-done ifs h) λ s (same, short).
      let shared = without_host-IsShared s in
      returns (record {
        client = new_client 0 (without_host s) socket;
        made = refl;
        shared = subst (λ (t : Str). IsShared t (without_host s)) same shared;
        short = omega (arith, length-IsShared s (without_host s) shared);
        same = refl;
      })
