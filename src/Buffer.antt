-- ===== src/Buffer.antt =====
-- Byte buffers: reads and writes that are undefined past the end, as of `memcpy` and of the fields
-- of a struct that lies over the buffer. A uint16_t is stored low byte first.
pub mod Laws
use mini_service_discover.Base.{ℕ, zero, suc, ◌+◌, ◌*◌, ◌/◌, ◌%◌, List, [], ◌∷◌, get_elem?}
use mini_service_discover.Base.Outcome.{Outcome, done, undefined, ◌>>=◌, fetch}

-- `bzero`
unfoldable pub zeros : ℕ → List ℕ
zeros zero = []
zeros (suc n) = 0 ∷ zeros n

-- `memcpy(buf, bytes, length of bytes)`
unfoldable pub overwrite : List ℕ → List ℕ → Outcome (List ℕ)
overwrite [] buf = done buf
overwrite (b ∷ bs) [] = undefined
overwrite (b ∷ bs) (x ∷ buf) = do r ← overwrite bs buf; done (b ∷ r)

-- `memcpy(buf + off, bytes, length of bytes)`
unfoldable pub write_bytes : ℕ → List ℕ → List ℕ → Outcome (List ℕ)
write_bytes zero bs buf = overwrite bs buf
write_bytes (suc off) bs [] = undefined
write_bytes (suc off) bs (x ∷ buf) = do r ← write_bytes off bs buf; done (x ∷ r)

unfoldable pub store16 : ℕ → ℕ → List ℕ → Outcome (List ℕ)
store16 off v buf = write_bytes off (v % 256 ∷ v / 256 % 256 ∷ []) buf

unfoldable pub load16 : ℕ → List ℕ → Outcome ℕ
load16 off buf = do
  lo ← fetch (get_elem? buf off)
  hi ← fetch (get_elem? buf (suc off))
  done (lo + 256 * hi)
