-- ===== src/Buffer/Laws.antt =====
-- Writes to a zeroed buffer, and reads of what was stored.
use mini_service_discover.Base.{
  ℕ, zero, suc, ◌+◌, ◌-◌, ◌*◌, ◌/◌, ◌%◌, ◌^◌, ◌≤◌, ◌<◌, ◌≡◌, refl, ap, [], ◌∷◌, ◌++◌, List, length,
  arith, drop,
}
use mini_service_discover.Base.Outcome.{done, undefined}
use mini_service_discover.Buffer.{zeros, overwrite, write_bytes}

pub length-zeros : (n : ℕ) → length (zeros n) ≡ n
unfolding zeros
length-zeros zero = refl
length-zeros (suc n) = ap suc (length-zeros n)

-- Bytes that fit are put at the front of a zeroed buffer.
pub overwrite-zeros :
    (bs : List ℕ) (n : ℕ)
    → length bs ≤ n
    → overwrite bs (zeros n) ≡ done (bs ++ zeros (n - length bs))
unfolding overwrite zeros
overwrite-zeros [] n h = ap (λ k. done (zeros k)) (omega arith)
overwrite-zeros (b ∷ bs) zero h = absurd (omega arith)
overwrite-zeros (b ∷ bs) (suc n) h =
    let e : suc n - suc (length bs) ≡ n - length bs = omega arith in
    rw (overwrite-zeros bs n (omega arith), e)

-- Bytes that do not fit are written past the end.
pub overwrite-zeros_long :
    (bs : List ℕ) (n : ℕ) → n < length bs → overwrite bs (zeros n) ≡ undefined
unfolding overwrite zeros
overwrite-zeros_long [] n h = absurd (omega arith)
overwrite-zeros_long (b ∷ bs) zero h = refl
overwrite-zeros_long (b ∷ bs) (suc n) h = rw (overwrite-zeros_long bs n (omega arith))

-- A uint16_t comes back from its two bytes.
pub bytes16 : (v : ℕ) → v < 2 ^ 16 → v % 256 + 256 * (v / 256 % 256) ≡ v
bytes16 v h = omega arith

overwrite-append :
    (bs buf : List ℕ)
    → length bs ≤ length buf
    → overwrite bs buf ≡ done (bs ++ drop (length bs) buf)
unfolding overwrite
overwrite-append [] buf h = refl
overwrite-append (b ∷ bs) [] h = absurd (omega arith)
overwrite-append (b ∷ bs) (x ∷ buf) h = rw (overwrite-append bs buf (omega arith))

-- A write behind the first bytes of a buffer, within the buffer, leaves the others as they are.
pub write_bytes-behind :
    (old bs junk : List ℕ)
    → length bs ≤ length junk
    → write_bytes (length old) bs (old ++ junk) ≡ done (old ++ (bs ++ drop (length bs) junk))
unfolding write_bytes
write_bytes-behind [] bs junk h = overwrite-append bs junk h
write_bytes-behind (x ∷ old) bs junk h = rw (write_bytes-behind old bs junk h)
