-- ===== src/Subnet/Closed.antt =====
-- udp_broadcast_data of c/provider/client.c on a socket that is closed: each write fails.
use mini_service_discover.Base.{
  ℕ, zero, suc, ◌+◌, ◌-◌, ◌≤◌, ◌≡◌, refl, ap, ◌∙◌, Bool, true, false, inl, inr, Bool-cases, List,
  ◌∷◌, ltb, leb, length, arith, replicate, take_all,
}
use mini_service_discover.Base.Outcome.{done, Returns, returns, weaken-Returns}
use mini_service_discover.CString.{Str}
use mini_service_discover.Udp.{
  Addr, Ret, minus_one, Socket, is_positive, read_bytes, send_to, send_loop, udp_client_write,
}
use mini_service_discover.Subnet.{
  UdpClient, reset_sub_addr, prepare_sub_addr, broadcast_loop, is_nonzero, udp_broadcast_data,
}
use mini_service_discover.Subnet.Hosts.{prepared}

send_to-refused :
    (to : Addr) (bytes : List ℕ) (s : Socket) (rest : List Ret)
    → s.send_results ≡ minus_one ∷ rest
    → send_to to bytes s s.send_results ≡ (minus_one, record s { send_results = rest })
unfolding send_to
send_to-refused to bytes s rest e = ap (send_to to bytes s) e

-- A write that the system refuses.
udp_client_write-refused :
    (to : Addr) (s : Socket) (buf : List ℕ) (rest : List Ret)
    → s.send_results ≡ minus_one ∷ rest
    → udp_client_write to s buf (length buf) ≡ done (minus_one, record s { send_results = rest })
unfolding udp_client_write send_loop read_bytes is_positive
udp_client_write-refused to s buf rest e =
    let n : length buf - 0 ≡ length buf = omega arith in
    let fits : leb (0 + length buf) (length buf) ≡ true = ground arith in
    rw (n, fits, take_all (length buf) buf (omega arith), send_to-refused to buf s rest e)

-- Nothing was sent, and what is to arrive is as before.
pub record IsSilent (s t : Socket) : Type 0 where
  pub sent : t.sent ≡ s.sent
  pub arrivals : t.arrivals ≡ s.arrivals

module _ (inet_addr : Str → Addr) where
  -- A client whose next `n` writes fail.
  pub record IsCut (n : ℕ) (client : UdpClient) : Type 0 where
    pub short : length client.ip ≤ 26
    pub whole : client.len ≡ length client.bytes
    pub refused : client.socket.send_results ≡ replicate n minus_one

  write_cut :
      (n : ℕ) (client : UdpClient) (to : Addr)
      → IsCut (suc n) client
      → udp_client_write to client.socket client.bytes client.len
        ≡ done (minus_one, record client.socket { send_results = replicate n minus_one })
  write_cut n client to cut =
      ap (udp_client_write to client.socket client.bytes) cut.whole
      ∙ udp_client_write-refused to client.socket client.bytes (replicate n minus_one) cut.refused

  broadcast_loop-IsSilent :
      (n : ℕ) (read_end : ℕ → Bool) (i : ℕ) (client : UdpClient)
      → IsCut (suc n) client
      → client.sub_ip + n ≡ 254
      → Returns
          (λ e. IsSilent client.socket e.socket)
          (broadcast_loop inet_addr (suc n) read_end i client)
  unfolding broadcast_loop is_nonzero prepare_sub_addr
  broadcast_loop-IsSilent zero read_end i client cut at = elim (Bool-cases (read_end i)) [
    | inl seen ↦ rw seen (returns (record { sent = refl; arrivals = refl }))
    | inr unseen ↦
        let full : ltb client.sub_ip 254 ≡ false = ground arith in
        rw (unseen, prepared inet_addr client cut.short, full, write_cut zero client _ cut)
          (returns (record { sent = refl; arrivals = refl }))
  ]
  broadcast_loop-IsSilent (suc n) read_end i client cut at = elim (Bool-cases (read_end i)) [
    | inl seen ↦ rw seen (returns (record { sent = refl; arrivals = refl }))
    | inr unseen ↦
        let more : ltb client.sub_ip 254 ≡ true = ground arith in
        rw (unseen, prepared inet_addr client cut.short, more, write_cut (suc n) client _ cut)
          (weaken-Returns
            (broadcast_loop-IsSilent n read_end (suc i) _
              (record { short = cut.short; whole = cut.whole; refused = refl }) (omega arith))
            λ e later. record { sent = later.sent; arrivals = later.arrivals })
  ]

  pub udp_broadcast_data-IsSilent :
      (read_end : ℕ → Bool) (client : UdpClient)
      → IsCut 254 client
      → Returns
          (λ e. IsSilent client.socket e.socket)
          (udp_broadcast_data inet_addr read_end client)
  unfolding udp_broadcast_data reset_sub_addr
  udp_broadcast_data-IsSilent read_end client cut =
      weaken-Returns
        (broadcast_loop-IsSilent 253 read_end 0 (record client { sub_ip = 1 })
          (record { short = cut.short; whole = cut.whole; refused = cut.refused }) (omega arith))
        λ e later. record { sent = later.sent; arrivals = later.arrivals }
