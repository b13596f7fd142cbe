-- ===== src/Udp/Written.antt =====
-- udp_server_write of c/provider/comm/udp.c on any socket: what a write that returns has sent.
use mini_service_discover.Base.{
  append_laws, ℕ, zero, suc, ◌+◌, ◌-◌, ◌≤◌, ◌<◌, ◌≡◌, refl, ap, ◌∙◌, sym, true, inl, inr, List, [],
  ◌∷◌, ◌++◌, leb, length, take, drop, arith, Bool-cases, length-take, length-drop, append_assoc,
  append-nil, take_all, take-append-drop,
}
use mini_service_discover.Base.Outcome.{Returns, returns, weaken-Returns}
use mini_service_discover.Udp.{
  Addr, Datagram, Ret, count, minus_one, is_positive, bytes_of, Socket, read_bytes, send_to,
  send_loop, udp_server_write,
}
use mini_service_discover.Udp.Send.{payload, take-take}

-- The end of a write: success means that all bytes of the buffer from `w_len` on were sent.
pub record Written (buf : List ℕ) (w_len : ℕ) (s : Socket) (r : Ret × Socket) : Type 0 where
  pub new : List Datagram
  pub log : r.1.sent ≡ s.sent ++ new
  pub whole : is_positive r.0 ≡ true → (r.0 ≡ count (length buf)) × (payload new ≡ drop w_len buf)
  pub arrivals : r.1.arrivals ≡ s.arrivals
  pub addrfrom : r.1.addrfrom ≡ s.addrfrom

-- One `sendto`: what it counts is what it adds to the record.
record Transferred (bytes : List ℕ) (s : Socket) (r : Ret × Socket) : Type 0 where
  new : List Datagram
  log : r.1.sent ≡ s.sent ++ new
  counted :
      is_positive r.0 ≡ true
      → (payload new ≡ take (bytes_of r.0) bytes)
        × (0 < bytes_of r.0)
        × (bytes_of r.0 ≤ length bytes)
  arrivals : r.1.arrivals ≡ s.arrivals
  addrfrom : r.1.addrfrom ≡ s.addrfrom

positive : (n : ℕ) → is_positive (count n) ≡ true → 0 < n
unfolding is_positive
positive zero p = cc
positive (suc n) p = omega arith

send_to-Transferred :
    (to : Addr) (bytes : List ℕ) (s : Socket) (results : List Ret)
    → Transferred bytes s (send_to to bytes s results)
unfolding send_to payload bytes_of is_positive
send_to-Transferred to bytes s [] = record {
  new = (to, bytes) ∷ [];
  log = refl;
  counted = λ p. (
    append-nil bytes ∙ sym (take_all (length bytes) bytes (omega arith)),
    positive _ p,
    omega arith,
  );
  arrivals = refl;
  addrfrom = refl;
}
send_to-Transferred to bytes s (minus_one ∷ results) = record {
  new = [];
  log = sym (append-nil s.sent);
  counted = λ p. cc;
  arrivals = refl;
  addrfrom = refl;
}
send_to-Transferred to bytes s (count k ∷ results) = record {
  new = (to, take k bytes) ∷ [];
  log = refl;
  counted = λ p.
      (append-nil _ ∙ sym (take-take k bytes), positive _ p, omega (arith, length-take k bytes));
  arrivals = refl;
  addrfrom = refl;
}

payload-append : (ds es : List Datagram) → payload (ds ++ es) ≡ payload ds ++ payload es
unfolding payload
payload-append [] es = refl
payload-append (d ∷ ds) es =
    rw (payload-append ds es) (sym (append_assoc d.1 (payload ds) (payload es)))

drop-drop : (w n : ℕ) (buf : List ℕ) → drop (w + n) buf ≡ drop n (drop w buf)
drop-drop zero n buf = ap (λ k. drop k buf) (omega arith)
drop-drop (suc w) zero [] =
    ap (λ k. drop {A = ℕ} k []) (let e : suc w + 0 ≡ suc w = omega arith in e)
drop-drop (suc w) (suc n) [] =
    ap (λ k. drop {A = ℕ} k []) (let e : suc w + suc n ≡ suc (w + suc n) = omega arith in e)
drop-drop (suc w) n (x ∷ buf) =
    let e : suc w + n ≡ suc (w + n) = omega arith in rw e (drop-drop w n buf)

module _ (buf : List ℕ) (w_len : ℕ) (s : Socket) where
  abbrev rest : List ℕ
  rest = take (length buf - w_len) (drop w_len buf)

  rest_lem : rest ≡ drop w_len buf
  rest_lem = take_all _ _ (omega (arith, length-drop w_len buf))

  -- The last part of the buffer is sent.
  Written-last :
      (r : Ret × Socket)
      → Transferred rest s r
      → is_positive r.0 ≡ true
      → length buf ≤ w_len + bytes_of r.0
      → Written buf w_len s (count (length buf), r.1)
  Written-last r t more full = record {
    new = t.new;
    log = t.log;
    whole = λ p. (
      refl,
      (t.counted more).0
          ∙ take_all _ rest (omega (arith, ap length rest_lem, length-drop w_len buf))
          ∙ rest_lem,
    );
    arrivals = t.arrivals;
    addrfrom = t.addrfrom;
  }

  -- A part of the buffer is sent, then what is behind it.
  Written-more :
      (r q : Ret × Socket)
      → Transferred rest s r
      → is_positive r.0 ≡ true
      → Written buf (w_len + bytes_of r.0) r.1 q
      → Written buf w_len s q
  Written-more r q t more w = record {
    new = t.new ++ w.new;
    log = simp (append_laws, w.log, t.log);
    whole = λ p. (
      (w.whole p).0,
      payload-append t.new w.new
          ∙ ap (λ d. d ++ payload w.new) ((t.counted more).0 ∙ ap (take (bytes_of r.0)) rest_lem)
          ∙ ap (λ d. take (bytes_of r.0) (drop w_len buf) ++ d)
              ((w.whole p).1 ∙ drop-drop w_len (bytes_of r.0) buf)
          ∙ take-append-drop (bytes_of r.0) (drop w_len buf),
    );
    arrivals = w.arrivals ∙ t.arrivals;
    addrfrom = w.addrfrom ∙ t.addrfrom;
  }

send_loop-Written :
    (k : ℕ) (to : Addr) (buf : List ℕ) (w_len : ℕ) (s : Socket)
    → length buf - w_len < k
    → w_len < length buf
    → Returns (Written buf w_len s) (send_loop k to buf (length buf) w_len s)
unfolding send_loop read_bytes is_positive
send_loop-Written zero to buf w_len s fuel room = absurd (omega arith)
send_loop-Written (suc k) to buf w_len s fuel room =
    let fits : leb (w_len + (length buf - w_len)) (length buf) ≡ true = ground arith in
    let bytes = take (length buf - w_len) (drop w_len buf) in
    let r = send_to to bytes s s.send_results in
    let t = send_to-Transferred to bytes s s.send_results in
    rw fits (elim (Bool-cases (is_positive r.0)) [
      | inl more ↦ rw more (elim (Bool-cases (leb (length buf) (w_len + bytes_of r.0))) [
        | inl full ↦ rw full (returns (Written-last buf w_len s r t more (ground arith)))
        | inr short ↦ rw short (
            weaken-Returns
              (send_loop-Written k to buf (w_len + bytes_of r.0) r.1 (omega (arith, t.counted more))
                (ground arith))
              λ q w. Written-more buf w_len s r q t more w)
      ])
      | inr stop ↦ rw stop (
          returns (record {
            new = t.new;
            log = t.log;
            whole = λ p. cc;
            arrivals = t.arrivals;
            addrfrom = t.addrfrom;
          }))
    ])

-- A write of a whole buffer that is not empty returns. If it reports success, it reports the
-- length, and the datagrams sent together hold the bytes of the buffer; what is to arrive and the
-- last sender stay.
pub udp_server_write-Written :
    (s : Socket) (buf : List ℕ)
    → 0 < length buf
    → Returns (Written buf 0 s) (udp_server_write s buf (length buf))
unfolding udp_server_write
udp_server_write-Written s buf pos =
    send_loop-Written (suc (length buf)) s.addrfrom buf 0 s (omega arith) pos
