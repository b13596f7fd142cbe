-- ===== src/Client/Broken.antt =====
-- The sending thread of c/provider/client.c, with the reader that frees the packet and the client under
-- it: when it comes to use freed memory.
use mini_service_discover.Base.{
  ℕ, zero, suc, ◌+◌, ◌<◌, ◌≡◌, ◌↔◌, refl, ap, subst, ◌∙◌, true, false, List, [], ◌∷◌, ◌++◌, ltb,
  length, arith,
}
use mini_service_discover.Subnet.Hosts.{from_on}
use mini_service_discover.Client.Threads.{
  Sender, testing, sending, broken, reading, behind_client, Threads, after_host, reset, go_on, send,
  use_freed, time_out, free_pkt, free_client, start, Steps, none_yet, later,
}
use mini_service_discover.Client.Interleavings.{from_on-append, IsAt-sender, start-Inv}

length-from_on : (a n : ℕ) → length (from_on a n) ≡ n
length-from_on a zero = refl
length-from_on a (suc n) = ap suc (length-from_on (a + 1) n)

abbrev at_host : Sender → ℕ → Threads
at_host x k = record { sender = x; reader = reading; read_end = false; hosts = from_on 1 k }

-- The sender comes to the test behind `k` hosts while the reader still reads.
tested-Steps : (k : ℕ) → k < 254 → Steps start (at_host (testing (1 + k)) k)
tested-Steps zero lt = later none_yet (reset refl refl)
tested-Steps (suc k) lt =
    subst (λ t. Steps start t) same
      (later (later (tested-Steps k (omega (arith, lt))) (go_on (1 + k) refl refl refl))
        (send (1 + k) refl refl))
  where
    goes_on : after_host (1 + k) ≡ testing (1 + suc k)
    goes_on =
        let more : ltb (1 + k) 254 ≡ true = ground (arith, lt) in
        rw more (ap testing {x = 1 + k + 1} {y = 1 + suc k} (omega arith))

    same :
        record (at_host (sending (1 + k)) k) {
          sender = after_host (1 + k);
          hosts = from_on 1 k ++ (1 + k) ∷ [];
        }
        ≡ at_host (testing (1 + suc k)) (suc k)
    same =
        ap (λ (x : Sender). record (at_host x k) { hosts = from_on 1 k ++ (1 + k) ∷ [] }) goes_on
        ∙ ap (λ (l : List ℕ). record (at_host (testing (1 + suc k)) k) { hosts = l })
            (from_on-append 1 k)

-- The reader times out and frees what the sender is about to use.
broken-Steps :
    (k : ℕ)
    → k < 254
    → (t : Threads) × Steps start t × (t.sender ≡ broken) × (t.hosts ≡ from_on 1 k)
broken-Steps k lt = (
  record { sender = broken; reader = behind_client; read_end = false; hosts = from_on 1 k },
  later
      (later (later (later (tested-Steps k lt) (time_out refl)) (free_pkt refl)) (free_client refl))
      (use_freed refl),
  refl,
  refl,
)

-- The sending thread can come to use freed memory, the packet or the client, after it has sent to
-- the hosts 1, ..., k, if and only if k is below 254: before each host, but not behind the last
-- one.
pub Steps-broken :
    (k : ℕ)
    → (k < 254) ↔ ((t : Threads) × Steps start t × (t.sender ≡ broken) × (t.hosts ≡ from_on 1 k))
Steps-broken k = (
  broken-Steps k,
  λ (t, ss, lost, hosts).
      let few = IsAt-sender t broken (start-Inv ss) lost in
      let many = ap length hosts ∙ length-from_on 1 k in omega (arith, few, many),
)
