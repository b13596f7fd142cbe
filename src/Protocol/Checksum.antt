-- ===== src/Protocol/Checksum.antt =====
-- The two checksums of c/provider/comm/protocal.c, get_checksum and checksum_right, as sums.
use mini_service_discover.Base.{
  ℕ, zero, suc, ◌+◌, ◌*◌, ◌%◌, ◌^◌, ◌≤◌, ◌<◌, ◌≡◌, refl, ap, ◌∙◌, take_all, take-append,
  length-append, ◌++◌, ◌↔◌, Bool, true, false, ◌⊎◌, inl, inr, List, [], ◌∷◌, ltb, arith, length,
  take, All, if◌then◌else◌,
}
use mini_service_discover.Base.Outcome.{Outcome, done, undefined}
use mini_service_discover.Protocol.{sum_loop, char_value, byte_value, get_checksum}

unfoldable pub total : (ℕ → ℕ) → List ℕ → ℕ
total value [] = 0
total value (b ∷ bs) = value b + total value bs

-- bytes outside of ASCII
unfoldable pub high_bytes : List ℕ → ℕ
high_bytes [] = 0
high_bytes (b ∷ bs) = (if ltb b 128 then 0 else 1) + high_bytes bs

module _ (value : ℕ → ℕ) where
  -- Within the buffer the loop adds up modulo 2 ^ 16.
  pub sum_loop-total :
      (n : ℕ) (bytes : List ℕ) (sum : ℕ)
      → n ≤ length bytes
      → sum < 2 ^ 16
      → sum_loop value n bytes sum ≡ done ((sum + total value (take n bytes)) % 2 ^ 16)
  unfolding sum_loop total
  sum_loop-total zero bytes sum h lt = ap done (omega arith)
  sum_loop-total (suc n) [] sum h lt = absurd (omega arith)
  sum_loop-total (suc n) (b ∷ bytes) sum h lt =
      rw (sum_loop-total n bytes ((sum + value b) % 2 ^ 16) (omega arith) (omega arith))
        (ap done (omega arith))

  -- A length past the end of the buffer makes it read there.
  pub sum_loop-past :
      (n : ℕ) (bytes : List ℕ) (sum : ℕ) → length bytes < n → sum_loop value n bytes sum ≡ undefined
  unfolding sum_loop
  sum_loop-past zero bytes sum h = absurd (omega arith)
  sum_loop-past (suc n) [] sum h = refl
  sum_loop-past (suc n) (b ∷ bytes) sum h = sum_loop-past n bytes _ (omega arith)

-- A signed char takes 256 off for each byte outside of ASCII.
total-signed :
    (bs : List ℕ)
    → All (λ b. b < 256) bs
    → total (char_value true) bs ≡ total byte_value bs + 65280 * high_bytes bs
unfolding total high_bytes char_value byte_value
total-signed [] h = refl
total-signed (b ∷ bs) h = ground (arith, total-signed bs h.1)

total-unsigned : (bs : List ℕ) → total (char_value false) bs ≡ total byte_value bs
unfolding total char_value byte_value
total-unsigned [] = refl
total-unsigned (b ∷ bs) = omega (arith, total-unsigned bs)

-- `get_checksum` over a whole text.
pub get_checksum-total :
    (signed : Bool) (out : List ℕ)
    → get_checksum signed out (length out) ≡ done (total (char_value signed) out % 2 ^ 16)
unfolding get_checksum
get_checksum-total signed out =
    sum_loop-total (char_value signed) (length out) out 0 (omega arith) (omega arith)
    ∙ ap (λ t. done ((0 + total (char_value signed) t) % 2 ^ 16))
        (take_all (length out) out (omega arith))
    ∙ ap done (omega arith)

-- The sum of the sender is the sum of the receiver, exactly if `char` is unsigned, or the number of
-- bytes outside of ASCII is a multiple of 256.
pub checksums_agree_iff :
    (signed : Bool) (out : List ℕ)
    → All (λ b. b < 256) out
    → (total (char_value signed) out % 2 ^ 16 ≡ total byte_value out % 2 ^ 16)
      ↔ ((signed ≡ false) ⊎ (high_bytes out % 256 ≡ 0))
checksums_agree_iff false out h = (λ e. inl refl, λ e. ap (λ t. t % 2 ^ 16) (total-unsigned out))
checksums_agree_iff true out h = (
  λ e. inr (omega (arith, total-signed out h)),
  λ e. elim e [ inl f ↦ cc | inr z ↦ omega (arith, total-signed out h) ],
)

done-injective : (a b : ℕ) → ◌≡◌ {A = Outcome ℕ} (done a) (done b) → a ≡ b
done-injective a b e = ap value e
  where
    value : Outcome ℕ → ℕ
    value (done n) = n
    value _ = 0

-- Of a text of bytes below 256, the sum that `get_checksum` takes is the sum that the loop of
-- `checksum_right` takes, with anything behind the text in the buffer, exactly if `char` is
-- unsigned, or the number of bytes outside of ASCII is a multiple of 256.
pub get_checksum-agrees_iff :
    (signed : Bool) (out rest : List ℕ)
    → All (λ b. b < 256) out
    → (get_checksum signed out (length out) ≡ sum_loop byte_value (length out) (out ++ rest) 0)
      ↔ ((signed ≡ false) ⊎ (high_bytes out % 256 ≡ 0))
get_checksum-agrees_iff signed out rest h =
    let room : length out ≤ length (out ++ rest) = omega (arith, length-append out rest) in
    let zero_add : 0 + total byte_value out ≡ total byte_value out = omega arith in
    rw
      (
        get_checksum-total signed out,
        sum_loop-total byte_value (length out) (out ++ rest) 0 room (omega arith),
        take-append out rest,
        zero_add,
      )
      (let (to, from) = checksums_agree_iff signed out h in
        (λ e. to (done-injective _ _ e), λ e. ap done (from e)))
