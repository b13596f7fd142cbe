-- ===== src/Udp/Receive.antt =====
-- The receive loop of c/provider/comm/udp.c on any arrivals.
use mini_service_discover.Base.{
  ℕ, zero, suc, ◌+◌, ◌-◌, ◌≤◌, ◌<◌, ◌≡◌, refl, ap, ◌∙◌, sym, true, false, inl, inr, List, [], ◌∷◌,
  ◌++◌, ◌==◌, leb, if◌then◌else◌, length, take, drop, arith, Bool-cases, length-append, length-take,
  length-drop, append_assoc, append-nil,
}
use mini_service_discover.Base.Outcome.{done, Returns, returns, weaken-Returns}
use mini_service_discover.Buffer.Laws.{write_bytes-behind}
use mini_service_discover.Udp.{
  Addr, count, is_positive, Arrival, datagram, receive_error, Socket, Read, returned, waits,
  receive_loop, udp_server_read,
}

-- The bytes that a read takes from the datagrams to come, given the room in the buffer.
unfoldable pub gather : ℕ → List Arrival → List ℕ
gather room [] = []
gather room (receive_error ∷ rest) = []
gather room (datagram from bytes ∷ rest) =
    let got = take room bytes in
    let more = gather (room - length got) rest in if length got == 0 then [] else got ++ more

-- What a read comes to. `old` is what the buffer held from the start, `n` bounds the arrivals.
abbrev pub Filled : ℕ → Socket → List Arrival → List ℕ → Read → Type 0
Filled len s rest old (waits buf t) =
    (length buf ≡ len) × (t.send_results ≡ s.send_results) × (t.sent ≡ s.sent)
Filled len s rest old (returned ret buf t) =
    (length buf ≡ len)
    × (t.send_results ≡ s.send_results)
    × (t.sent ≡ s.sent)
    × (length t.arrivals < length rest)
    × (is_positive ret ≡ true → (ret ≡ count len) × (buf ≡ old ++ gather (len - length old) rest))

drop_all {ℓ} : {A : Type ℓ} (n : ℕ) (xs : List A) → length xs ≤ n → drop n xs ≡ []
drop_all zero [] h = refl
drop_all zero (x ∷ xs) h = absurd (omega arith)
drop_all (suc n) [] h = refl
drop_all (suc n) (x ∷ xs) h = drop_all n xs (omega arith)

take-nil {ℓ} : {A : Type ℓ} (n : ℕ) → take {A = A} n [] ≡ []
take-nil zero = refl
take-nil (suc n) = refl

-- No room is left: nothing more is gathered.
gather_full : (rest : List Arrival) → gather 0 rest ≡ []
unfolding gather
gather_full [] = refl
gather_full (receive_error ∷ rest) = refl
gather_full (datagram from bytes ∷ rest) = refl

-- What the read of one more datagram gathers.
gather_more :
    (room : ℕ) (from : Addr) (bytes : List ℕ) (rest : List Arrival)
    → (length (take room bytes) == 0) ≡ false
    → gather room (datagram from bytes ∷ rest)
      ≡ take room bytes ++ gather (room - length (take room bytes)) rest
unfolding gather
gather_more room from bytes rest some_bytes = rw some_bytes

module _ (len : ℕ) (s : Socket) (old junk : List ℕ) (from : Addr) (bytes : List ℕ)
    (rest : List Arrival) where
  abbrev got : List ℕ
  got = take (len - length old) bytes

  -- The datagram fills the buffer.
  full-Filled :
      length old + length junk ≡ len
      → (length got == 0) ≡ false
      → length old + length got ≡ len
      → Filled len s (datagram from bytes ∷ rest) old (
          returned
            (count len)
            (old ++ (got ++ drop (length got) junk))
            (record s { addrfrom = from; arrivals = rest }))
  full-Filled size some_bytes full =
      let none_left : drop (length got) junk ≡ [] = drop_all (length got) junk (omega arith) in
      let no_room : len - length old - length got ≡ 0 = omega arith in
      rw (none_left, append-nil)
        (
          length-append old got ∙ full,
          refl,
          refl,
          omega arith,
          λ p. (
            refl,
            sym (
                ap (λ t. old ++ t)
                  (gather_more (len - length old) from bytes rest some_bytes
                    ∙ ap (λ t. got ++ t) (rw no_room (gather_full rest))
                    ∙ append-nil got)),
          ),
        )

  -- A later part of the loop, seen from its start.
  Filled-longer :
      (length got == 0) ≡ false
      → (t : Socket) → (t.send_results ≡ s.send_results) × (t.sent ≡ s.sent)
      → (r : Read) → Filled len t rest (old ++ got) r
      → Filled len s (datagram from bytes ∷ rest) old r
  Filled-longer some_bytes t keep (waits buf u) f = (f.0, f.1 ∙ keep.0, f.2 ∙ keep.1)
  Filled-longer some_bytes t keep (returned ret buf u) f = (
    f.0,
    f.1 ∙ keep.0,
    f.2 ∙ keep.1,
    omega arith,
    λ p.
        let (all, filled) = f.4 p in
        let room : len - length (old ++ got) ≡ len - length old - length got =
          omega (arith, length-append old got) in
        (
          all,
          filled
              ∙ append_assoc old got _
              ∙ ap (λ t. old ++ t)
                  (ap (λ n. got ++ gather n rest) room
                    ∙ sym (gather_more (len - length old) from bytes rest some_bytes)),
        ),
  )

-- From any point of the loop on, it returns, within the buffer.
receive_loop-Filled :
    (len : ℕ) (s : Socket) (old junk : List ℕ) (rest : List Arrival)
    → length old + length junk ≡ len
    → length old < len
    → Returns (Filled len s rest old) (receive_loop len s (length old) (old ++ junk) rest)
unfolding receive_loop is_positive
receive_loop-Filled len s old junk [] size room =
    returns (length-append old junk ∙ size, refl, refl)
receive_loop-Filled len s old junk (receive_error ∷ rest) size room =
    returns (length-append old junk ∙ size, refl, refl, omega arith, λ p. cc)
receive_loop-Filled len s old junk (datagram from bytes ∷ rest) size room =
    let n = len - length old in
    let fits : length (take n bytes) ≤ length junk = omega (arith, length-take n bytes) in
    elim (Bool-cases (length (take n bytes) == 0)) [
      | inl empty ↦
          rw empty (returns (length-append old junk ∙ size, refl, refl, omega arith, λ p. cc))
      | inr some_bytes ↦
          rw (some_bytes, write_bytes-behind old (take n bytes) junk fits)
            (elim (Bool-cases (leb len (length old + length (take n bytes)))) [
              | inl full ↦ rw full (
                  returns
                    (full-Filled len s old junk from bytes rest size some_bytes (ground arith)))
              | inr more ↦
                  let junk' = drop (length (take n bytes)) junk in
                  let size' : length (old ++ take n bytes) + length junk' ≡ len = omega (
                    arith,
                    length-append old (take n bytes),
                    length-drop (length (take n bytes)) junk,
                  ) in
                  let room' : length (old ++ take n bytes) < len =
                    ground (arith, length-append old (take n bytes)) in
                  let later =
                    receive_loop-Filled len (record s { addrfrom = from }) (old ++ take n bytes)
                      junk' rest size' room' in
                  rw more (
                    weaken-Returns
                      (rw (length-append old (take n bytes), append_assoc old (take n bytes) junk')
                        at later)
                      (Filled-longer len s old junk from bytes rest some_bytes
                        (record s { addrfrom = from }) (refl, refl)))
            ])
    ]

-- A read into a buffer of `len` bytes, `len` not 0, returns or waits for ever, and the buffer keeps
-- its size; nothing is sent. If it returns, it took at least one arrival; if it then reports
-- success, it reports `len`, and the buffer holds what the datagrams gave, glued together.
pub udp_server_read-Filled :
    (s : Socket) (buf : List ℕ) (len : ℕ)
    → length buf ≡ len
    → 0 < len
    → Returns (Filled len s s.arrivals []) (udp_server_read s buf len)
unfolding udp_server_read
udp_server_read-Filled s buf len size pos =
    receive_loop-Filled len s [] buf s.arrivals (omega arith) pos

-- A datagram of at least `len` bytes, next to arrive at a read into a buffer of `len` bytes, `len`
-- not 0, fills the buffer by itself and is the only one taken; its sender becomes the last sender.
pub udp_server_read_whole :
    (s : Socket) (buf : List ℕ) (len : ℕ) (from : Addr) (bytes : List ℕ) (rest : List Arrival)
    → length buf ≡ len
    → 0 < len
    → len ≤ length bytes
    → s.arrivals ≡ datagram from bytes ∷ rest
    → udp_server_read s buf len
      ≡ done (returned (count len) (take len bytes) (record s { addrfrom = from; arrivals = rest }))
unfolding udp_server_read receive_loop
udp_server_read_whole s buf len from bytes rest size pos enough next =
    let got : length (take len bytes) ≡ len = omega (arith, length-take len bytes) in
    let none_left : drop (length (take len bytes)) buf ≡ [] = drop_all _ buf (omega arith) in
    let some_bytes : (length (take len bytes) == 0) ≡ false = ground arith in
    let full : leb len (length (take len bytes)) ≡ true = ground arith in
    let no_offset : len - 0 ≡ len = omega arith in
    let zero_add : 0 + length (take len bytes) ≡ length (take len bytes) = omega arith in
    ap (λ arrivals. receive_loop len s 0 buf arrivals) next
    ∙ rw (
      no_offset,
      some_bytes,
      write_bytes-behind [] (take len bytes) buf (omega arith),
      none_left,
      append-nil,
      zero_add,
      full,
    )

-- An empty datagram ends the read with 0, as if the socket were closed.
pub udp_server_read-empty :
    (s : Socket) (buf : List ℕ) (len : ℕ) (from : Addr) (rest : List Arrival)
    → s.arrivals ≡ datagram from [] ∷ rest
    → udp_server_read s buf len
      ≡ done (returned (count 0) buf (record s { addrfrom = from; arrivals = rest }))
unfolding udp_server_read receive_loop
udp_server_read-empty s buf len from rest next =
    ap (λ arrivals. receive_loop len s 0 buf arrivals) next ∙ rw (take-nil {0} {A = ℕ} (len - 0))
