-- ===== src/Register/Verdict.antt =====
-- What `check_result` of c/provider/server.c makes of the answers that arrive.
use mini_service_discover.Base.{
  ℕ, zero, suc, ◌≤◌, ◌<◌, ◌≡◌, refl, ap, ◌∙◌, Bool, true, false, ◌||◌, Option, none, some, List, [],
  ◌∷◌, ◌++◌, map, if◌then◌else◌, length, All, arith, take, length-take, length-append,
}
use mini_service_discover.Base.Outcome.{done, Returns, returns, weaken-Returns}
use mini_service_discover.CString.{CharPtr}
use mini_service_discover.Buffer.Laws.{length-zeros}
use mini_service_discover.ServiceList.{Code, success, failure}
use mini_service_discover.Protocol.{
  Action, register_service, unregister_service, inquiry, action_succ, action_fail, action_invalid,
  other, Packet, get_pkt, decode_action,
}
use mini_service_discover.Protocol.Cjson.{Cjson}
use mini_service_discover.Protocol.Decode.{get_result}
use mini_service_discover.Udp.{Addr, Arrival, datagram, receive_error, is_positive, Socket}
use mini_service_discover.Udp.Receive.{udp_server_read_whole}
use mini_service_discover.Client.Answers.{received, time_out, same_read}
use mini_service_discover.Register.{
  Registrar, after_verdict_read, handle_verdict, read_verdict, verdict_loop, check_verdict,
}

-- A datagram, and the action in it.
pub record Verdict : Type 0 where
  pub from : Addr
  pub bytes : List ℕ
  pub type : Action

abbrev pub arrival : Verdict → Arrival
arrival v = datagram v.from v.bytes

unfoldable pub is_success : Action → Bool
is_success action_succ = true
is_success _ = false

unfoldable pub any_success : List Verdict → Bool
unfolding is_success
any_success [] = false
any_success (v ∷ vs) = is_success v.type || any_success vs

either_success :
    (a b : Bool) (ret : Code)
    → (if b then success else if a then success else ret) ≡ (if a || b then success else ret)
either_success true true ret = refl
either_success true false ret = refl
either_success false true ret = refl
either_success false false ret = refl

abbrev pub is_some_verdict : List Verdict → Bool
is_some_verdict [] = false
is_some_verdict (v ∷ vs) = true

module _ (c : Cjson) where
  -- The datagram has the size of a packet and the action that it is said to have, and its reason
  -- can be read.
  pub record IsVerdict (v : Verdict) : Type 0 where
    pub large : 1024 ≤ length v.bytes
    pub told : decode_action (received v.bytes) ≡ done v.type
    pub reason : Option CharPtr
    pub result : get_result c (received v.bytes) ≡ done reason

  -- The state once the loop has ended.
  pub record Judged (vs : List Verdict) (rest : List Arrival) (t e : Registrar) : Type 0 where
    pub ret : e.ret ≡ (if any_success vs then success else t.ret)
    pub arrivals : e.socket.arrivals ≡ rest
    pub sent : e.socket.sent ≡ t.socket.sent
    pub read_end : e.read_end ≡ (if is_some_verdict vs then true else t.read_end)

  abbrev pub Decided : List Verdict → List Arrival → Registrar → Option Registrar → Type 0
  Decided vs rest t none = ⊥
  Decided vs rest t (some e) = Judged vs rest t e

  handled :
      (type : Action) (pkt : Packet) (t : Registrar) (reason : Option CharPtr)
      → get_result c pkt ≡ done reason
      → handle_verdict c type pkt t
        ≡ done (record t { ret = if is_success type then success else t.ret })
  unfolding handle_verdict is_success
  handled action_succ pkt t reason result = refl
  handled action_fail pkt t reason result = rw result
  handled register_service pkt t reason result = refl
  handled unregister_service pkt t reason result = refl
  handled inquiry pkt t reason result = refl
  handled action_invalid pkt t reason result = refl
  handled (other n) pkt t reason result = refl

  flag : (vs : List Verdict) → (if is_some_verdict vs then true else true) ≡ true
  flag [] = refl
  flag (v ∷ vs) = refl

  verdict_loop-Decided :
      (vs : List Verdict) (rest : List Arrival) (k : ℕ) (bytes : List ℕ) (t : Registrar)
      → All IsVerdict vs
      → t.socket.arrivals ≡ map arrival vs ++ receive_error ∷ rest
      → length bytes ≡ 1024
      → length vs < k
      → Returns (Decided vs rest t) (verdict_loop c k bytes t)
  unfolding verdict_loop after_verdict_read read_verdict is_positive any_success
  verdict_loop-Decided vs rest zero bytes t hs next full fuel = absurd (omega arith)
  verdict_loop-Decided [] rest (suc k) bytes t hs next full fuel =
      rw (time_out c t.socket bytes rest next)
        (returns (record { ret = refl; arrivals = refl; sent = refl; read_end = refl }))
  verdict_loop-Decided (v ∷ vs) rest (suc k) bytes t hs next full fuel =
      let h = hs.0 in
      let s : Socket = record t.socket {
        addrfrom = v.from;
        arrivals = map arrival vs ++ receive_error ∷ rest;
      } in
      let t' : Registrar = record t { socket = s; read_end = true } in
      rw
        (
          same_read c t.socket bytes 1024,
          udp_server_read_whole t.socket bytes 1024 v.from v.bytes
              (map arrival vs ++ receive_error ∷ rest) full (omega arith) h.large next,
          h.told,
          handled v.type (received v.bytes) t' h.reason h.result,
        )
        (weaken-Returns
          (verdict_loop-Decided vs rest k (take 1024 v.bytes)
            (record t' { ret = if is_success v.type then success else t.ret }) hs.1 refl
            (omega (arith, length-take 1024 v.bytes, h.large)) (omega arith))
          λ o later. after o later)
    where
      after :
          (o : Option Registrar)
          → Decided vs rest
              (record {
                ret = if is_success v.type then success else t.ret;
                socket = record t.socket {
                  addrfrom = v.from;
                  arrivals = map arrival vs ++ receive_error ∷ rest;
                };
                read_end = true;
              })
              o
          → Decided (v ∷ vs) rest t o
      after none later = absurd later
      after (some e) later = record {
        ret = later.ret ∙ either_success (is_success v.type) (any_success vs) t.ret;
        arrivals = later.arrivals;
        sent = later.sent;
        read_end = later.read_end ∙ flag vs;
      }

  -- `check_result` of the registering side, on a socket where datagrams arrive that each hold a
  -- packet, whose reason can be read, and then a read fails or times out, returns 0 if one of them
  -- is a success, and else -1; what arrives later stays, nothing is sent, and `read_end` is set if
  -- there was an answer.
  pub check_verdict-Decided :
      (vs : List Verdict) (rest : List Arrival) (socket : Socket)
      → All IsVerdict vs
      → socket.arrivals ≡ map arrival vs ++ receive_error ∷ rest
      → Returns
          (Decided vs rest (record { ret = failure; socket = socket; read_end = false }))
          (check_verdict c socket)
  unfolding check_verdict get_pkt
  check_verdict-Decided vs rest socket hs next =
      verdict_loop-Decided vs rest (suc (length socket.arrivals)) get_pkt.bytes
        (record { ret = failure; socket = socket; read_end = false }) hs next (length-zeros 1024)
        (omega (
          arith,
          ap length next,
          length-append (map arrival vs) (receive_error ∷ rest),
          length-arrivals vs,
        ))
    where
      length-arrivals : (vs : List Verdict) → length (map arrival vs) ≡ length vs
      length-arrivals [] = refl
      length-arrivals (v ∷ vs) = ap suc (length-arrivals vs)
