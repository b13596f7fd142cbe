-- ===== src/Client/Interleavings.antt =====
-- Invariants of the two threads of c/provider/client.c, by induction on their steps.
use mini_service_discover.Base.{
  ℕ, zero, suc, ◌+◌, ◌≤◌, ◌≡◌, refl, ap, ◌∙◌, true, inl, inr, Bool-cases, List, [], ◌∷◌, ◌++◌, ltb,
  length, length-append, arith,
}
use mini_service_discover.Subnet.Hosts.{from_on}
use mini_service_discover.Client.Threads.{
  Sender, beginning, testing, sending, ended, broken, Reader, Threads, meets_freed, after_host,
  Step, reset, stop, go_on, send, use_freed, answer, time_out, free_pkt, free_client, start, Steps,
  none_yet, later,
}

-- The sender works on the host after the `n` hosts so far.
abbrev pub IsAt : Sender → ℕ → Type 0
IsAt beginning n = n ≡ 0
IsAt (testing k) n = (k ≡ n + 1) × (k ≤ 254)
IsAt (sending k) n = (k ≡ n + 1) × (k ≤ 254)
IsAt ended n = n ≤ 254
IsAt broken n = n ≤ 253

pub record Inv (s : Threads) : Type 0 where
  pub hosts : s.hosts ≡ from_on 1 (length s.hosts)
  pub at : IsAt s.sender (length s.hosts)

pub from_on-append : (a n : ℕ) → from_on a n ++ (a + n) ∷ [] ≡ from_on a (suc n)
from_on-append a zero = ap (λ (x : ℕ). x ∷ []) {x = a + 0} {y = a} (omega arith)
from_on-append a (suc n) =
    ap (λ (l : List ℕ). a ∷ l)
      (ap (λ (x : ℕ). from_on (a + 1) n ++ x ∷ []) {x = a + suc n} {y = a + 1 + n} (omega arith)
        ∙ from_on-append (a + 1) n)

after_host-IsAt : (k n : ℕ) → k ≡ n + 1 → k ≤ 254 → IsAt (after_host k) (n + 1)
after_host-IsAt k n e le = elim (Bool-cases (ltb k 254)) [
  | inl more ↦ rw more (ground arith, ground arith)
  | inr last ↦ rw last (omega arith)
]

pub IsAt-sender : (s : Threads) (x : Sender) → Inv s → s.sender ≡ x → IsAt x (length s.hosts)
IsAt-sender s x inv e = rw e at inv.at

-- The sender breaks before a host, not behind the last one.
broken-IsAt : (x : Sender) (r : Reader) (n : ℕ) → meets_freed x r ≡ true → IsAt x n → IsAt broken n
broken-IsAt beginning r n e at = omega (arith, at)
broken-IsAt (testing k) r n e at = omega (arith, at.0, at.1)
broken-IsAt (sending k) r n e at = omega (arith, at.0, at.1)
broken-IsAt ended r n e at = absurd (ground (arith, e))
broken-IsAt broken r n e at = at

Step-Inv : {s t : Threads} → Step s t → Inv s → Inv t
Step-Inv {s} (reset e held) inv =
    let at = IsAt-sender s beginning inv e in
    record { hosts = inv.hosts; at = (omega (arith, at), omega arith) }
Step-Inv {s} (stop n e held seen) inv =
    let (at, le) = IsAt-sender s (testing n) inv e in
    record { hosts = inv.hosts; at = omega (arith, at, le) }
Step-Inv {s} (go_on n e held unseen) inv = record {
  hosts = inv.hosts;
  at = IsAt-sender s (testing n) inv e;
}
Step-Inv {s} (send n e held) inv =
    let (at, le) = IsAt-sender s (sending n) inv e in
    let more : length (s.hosts ++ n ∷ []) ≡ length s.hosts + 1 =
      omega (arith, length-append s.hosts (n ∷ [])) in
    record {
      hosts =
          ap (λ (l : List ℕ). l ++ n ∷ []) inv.hosts
          ∙ ap (λ (x : ℕ). from_on 1 (length s.hosts) ++ x ∷ []) {x = n} {y = 1 + length s.hosts}
              (omega (arith, at))
          ∙ from_on-append 1 (length s.hosts)
          ∙ ap (from_on 1) {x = suc (length s.hosts)} {y = length (s.hosts ++ n ∷ [])}
              (omega (arith, more));
      at = rw more (after_host-IsAt n (length s.hosts) at le);
    }
Step-Inv {s} (use_freed e) inv = record {
  hosts = inv.hosts;
  at = broken-IsAt s.sender s.reader (length s.hosts) e inv.at;
}
Step-Inv (answer e) inv = record { hosts = inv.hosts; at = inv.at }
Step-Inv (time_out e) inv = record { hosts = inv.hosts; at = inv.at }
Step-Inv (free_pkt e) inv = record { hosts = inv.hosts; at = inv.at }
Step-Inv (free_client e) inv = record { hosts = inv.hosts; at = inv.at }

Steps-Inv : {s t : Threads} → Steps s t → Inv s → Inv t
Steps-Inv none_yet inv = inv
Steps-Inv (later ss st) inv = Step-Inv st (Steps-Inv ss inv)

pub start-Inv : {s : Threads} → Steps start s → Inv s
start-Inv ss = Steps-Inv ss (record { hosts = refl; at = refl })

-- In every interleaving of the sending thread and the reader, from their start on and up to a use
-- of freed memory by the sender, the hosts sent to are 1, 2, ... in order, each once, and at most
-- 254.
pub Steps-from_on :
    (s : Threads) → Steps start s → (s.hosts ≡ from_on 1 (length s.hosts)) × (length s.hosts ≤ 254)
Steps-from_on s ss = let inv = start-Inv ss in (inv.hosts, few s.sender inv.at)
  where
    few : (x : Sender) → IsAt x (length s.hosts) → length s.hosts ≤ 254
    few beginning at = omega (arith, at)
    few (testing k) at = omega (arith, at.0, at.1)
    few (sending k) at = omega (arith, at.0, at.1)
    few ended at = at
    few broken at = omega (arith, at)

-- the packet that the sender is about to send
abbrev pending : Sender → ℕ
pending (sending k) = 1
pending _ = 0

pending-after_host : (k : ℕ) → pending (after_host k) ≡ 0
pending-after_host k = elim (Bool-cases (ltb k 254)) [
  | inl more ↦ rw more refl
  | inr last ↦ rw last refl
]

-- The flag stays set, and only a pending packet is still sent.
record IsEnding (n : ℕ) (s : Threads) : Type 0 where
  set : s.read_end ≡ true
  few : length s.hosts + pending s.sender ≤ n

Step-IsEnding : {n : ℕ} {s t : Threads} → Step s t → IsEnding n s → IsEnding n t
Step-IsEnding {n} {s} (reset e held) i = record { set = i.set; few = omega (arith, i.few) }
Step-IsEnding {n} {s} (stop k e held seen) i = record { set = i.set; few = omega (arith, i.few) }
Step-IsEnding {n} {s} (go_on k e held unseen) i = absurd (ground (arith, i.set, unseen))
Step-IsEnding {n} {s} (send k e held) i =
    let few : length s.hosts + 1 ≤ n = rw e at i.few in
    record {
      set = i.set;
      few = omega (arith, few, length-append s.hosts (k ∷ []), pending-after_host k);
    }
Step-IsEnding {n} {s} (use_freed e) i = record { set = i.set; few = omega (arith, i.few) }
Step-IsEnding (answer e) i = record { set = refl; few = i.few }
Step-IsEnding (time_out e) i = record { set = i.set; few = i.few }
Step-IsEnding (free_pkt e) i = record { set = i.set; few = i.few }
Step-IsEnding (free_client e) i = record { set = i.set; few = i.few }

Steps-IsEnding : {n : ℕ} {s t : Threads} → Steps s t → IsEnding n s → IsEnding n t
Steps-IsEnding none_yet i = i
Steps-IsEnding (later ss st) i = Step-IsEnding st (Steps-IsEnding ss i)

pending-le : (x : Sender) → pending x ≤ 1
pending-le beginning = omega arith
pending-le (testing k) = omega arith
pending-le (sending k) = omega arith
pending-le ended = omega arith
pending-le broken = omega arith

-- Once the reader has set `read_end`, the sending thread sends to at most one more host, in every
-- interleaving up to a use of freed memory by the sender.
pub Steps-ending :
    (s t : Threads) → Steps s t → s.read_end ≡ true → length t.hosts ≤ length s.hosts + 1
Steps-ending s t ss set =
    let few = pending-le s.sender in
    let ending : IsEnding (length s.hosts + 1) s = record { set = set; few = omega (arith, few) } in
    let at_end = Steps-IsEnding ss ending in omega (arith, at_end.few)
