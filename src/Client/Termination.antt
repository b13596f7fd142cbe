-- ===== src/Client/Termination.antt =====
-- The sending thread of c/provider/client.c ends, however the reader's steps fall between its own.
use mini_service_discover.Base.{
  ℕ, suc, ◌+◌, ◌-◌, ◌*◌, ◌≤◌, ◌<◌, ◌≡◌, refl, ◌≢◌, ap, sym, ◌∙◌, true, false, inl, inr, ◌⊎◌,
  Bool-cases, ltb, arith,
}
use mini_service_discover.Client.Threads.{
  Sender, beginning, testing, sending, ended, broken, Reader, reading, returned, behind_pkt,
  behind_client, is_client_freed, is_pkt_freed, meets_freed, Threads, after_host, Step, reset, stop,
  go_on, send, use_freed, answer, time_out, free_pkt, free_client, start, Steps, none_yet, later,
}

-- The steps of the sender among the steps of both.
abbrev sender_step : {s t : Threads} → Step s t → ℕ
sender_step (reset e held) = 1
sender_step (stop n e held seen) = 1
sender_step (go_on n e held unseen) = 1
sender_step (send n e held) = 1
sender_step (use_freed e) = 1
sender_step (answer e) = 0
sender_step (time_out e) = 0
sender_step (free_pkt e) = 0
sender_step (free_client e) = 0

abbrev pub sender_steps : {s t : Threads} → Steps s t → ℕ
sender_steps none_yet = 0
sender_steps (later ss st) = sender_steps ss + sender_step st

-- What is left to the sender at most: a reset, and a test and a write for each host.
abbrev left : Sender → ℕ
left beginning = 509
left (testing n) = suc (suc (2 * (254 - n)))
left (sending n) = suc (2 * (254 - n))
left ended = 0
left broken = 0

left-after_host : (n : ℕ) → left (after_host n) < left (sending n)
left-after_host n = elim (Bool-cases (ltb n 254)) [
  | inl more ↦ rw more (ground arith)
  | inr last ↦ rw last (omega arith)
]

some_left : (x : Sender) (r : Reader) → meets_freed x r ≡ true → 1 + left broken ≤ left x
some_left beginning r e = omega arith
some_left (testing n) r e = omega arith
some_left (sending n) r e = omega arith
some_left ended r e = absurd (ground (arith, e))
some_left broken r e = absurd (ground (arith, e))

Step-left : {s t : Threads} (st : Step s t) → sender_step st + left t.sender ≤ left s.sender
Step-left {s} (reset e held) = rw e (omega arith)
Step-left {s} (stop n e held seen) = rw e (omega arith)
Step-left {s} (go_on n e held unseen) = rw e (omega arith)
Step-left {s} (send n e held) = rw e (let less = left-after_host n in omega (arith, less))
Step-left {s} (use_freed e) = some_left s.sender s.reader e
Step-left (answer e) = omega arith
Step-left (time_out e) = omega arith
Step-left (free_pkt e) = omega arith
Step-left (free_client e) = omega arith

Steps-left : {s t : Threads} (ss : Steps s t) → sender_steps ss + left t.sender ≤ left s.sender
Steps-left none_yet = omega arith
Steps-left (later ss st) =
    let before = Steps-left ss in let at_last = Step-left st in omega (arith, before, at_last)

pkt_before_client : (r : Reader) → is_client_freed r ≡ true → is_pkt_freed r ≡ true
pkt_before_client reading e = e
pkt_before_client returned e = e
pkt_before_client behind_pkt e = refl
pkt_before_client behind_client e = refl

-- What the sender breaks on is not held any more, and the packet is not either.
pkt-meets_freed : (x : Sender) (r : Reader) → meets_freed x r ≡ true → is_pkt_freed r ≡ true
pkt-meets_freed beginning r e = pkt_before_client r e
pkt-meets_freed (testing n) r e = pkt_before_client r e
pkt-meets_freed (sending n) r e = e
pkt-meets_freed ended r e = absurd (ground (arith, e))
pkt-meets_freed broken r e = absurd (ground (arith, e))

-- A sender that has used freed memory did so behind `free_pkt`.
abbrev IsBehind : Threads → Type 0
IsBehind s = s.sender ≡ broken → is_pkt_freed s.reader ≡ true

after_host-ne : (n : ℕ) → after_host n ≢ broken
after_host-ne n e = elim (Bool-cases (ltb n 254)) [
  | inl more ↦ absurd (ground (arith, e, more))
  | inr last ↦ absurd (ground (arith, e, last))
]

Step-IsBehind : {s t : Threads} → Step s t → IsBehind s → IsBehind t
Step-IsBehind (reset e held) b = λ lost. absurd (ground (arith, lost))
Step-IsBehind (stop n e held seen) b = λ lost. absurd (ground (arith, lost))
Step-IsBehind (go_on n e held unseen) b = λ lost. absurd (ground (arith, lost))
Step-IsBehind (send n e held) b = λ lost. absurd (after_host-ne n lost)
Step-IsBehind {s} (use_freed e) b = λ lost. pkt-meets_freed s.sender s.reader e
Step-IsBehind (answer e) b = b
Step-IsBehind {s} (time_out e) b = λ lost. ap is_pkt_freed (sym e) ∙ b lost
Step-IsBehind (free_pkt e) b = λ lost. refl
Step-IsBehind (free_client e) b = λ lost. refl

Steps-IsBehind : {s t : Threads} → Steps s t → IsBehind s → IsBehind t
Steps-IsBehind none_yet b = b
Steps-IsBehind (later ss st) b = Step-IsBehind st (Steps-IsBehind ss b)

-- The sender is stuck at its end only, or when it has used freed memory.
next_step :
    (s : Threads) (x : Sender)
    → s.sender ≡ x
    → (x ≡ ended) ⊎ (x ≡ broken) ⊎ ((t : Threads) × (st : Step s t) × (sender_step st ≡ 1))
next_step s x e = elim (Bool-cases (meets_freed x s.reader)) [
  | inl freed ↦ inr (inr (_, use_freed (ap (λ y. meets_freed y s.reader) e ∙ freed), refl))
  | inr held ↦ own_step s x e held
]
  where
    own_step :
        (s : Threads) (x : Sender)
        → s.sender ≡ x
        → meets_freed x s.reader ≡ false
        → (x ≡ ended) ⊎ (x ≡ broken) ⊎ ((t : Threads) × (st : Step s t) × (sender_step st ≡ 1))
    own_step s beginning e held = inr (inr (_, reset e held, refl))
    own_step s (testing n) e held = elim (Bool-cases s.read_end) [
      | inl seen ↦ inr (inr (_, stop n e held seen, refl))
      | inr unseen ↦ inr (inr (_, go_on n e held unseen, refl))
    ]
    own_step s (sending n) e held = inr (inr (_, send n e held, refl))
    own_step s ended e held = inl refl
    own_step s broken e held = inr (inl refl)

-- The sending thread ends: in every interleaving with the reader from their start on it takes at
-- most 509 steps, and as long as it has not ended, and has not used the packet or the client behind
-- the reader's `free_pkt`, it can take one more.
pub Steps-sender_steps :
    (s : Threads) (ss : Steps start s)
    → (sender_steps ss ≤ 509)
      × ((s.sender ≡ ended)
          ⊎ ((s.sender ≡ broken) × (is_pkt_freed s.reader ≡ true))
          ⊎ ((t : Threads) × (st : Step s t) × (sender_steps (later ss st) ≡ sender_steps ss + 1)))
Steps-sender_steps s ss =
    let few = Steps-left ss in
    (
      omega (arith, few),
      elim (next_step s s.sender refl) [
        | inl over ↦ inl over
        | inr (inl lost) ↦
            inr (inl (lost, Steps-IsBehind ss (λ b. absurd (ground (arith, b))) lost))
        | inr (inr (t, st, one)) ↦ inr (inr (t, st, ap (λ (n : ℕ). sender_steps ss + n) one))
      ],
    )
