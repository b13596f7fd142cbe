-- ===== src/Subnet/Opened.antt =====
-- What open_client (init_udp_client of c/provider/comm/udp.c in the process) comes to, by what the
-- system calls return.
use mini_service_discover.Base.{
  ℕ, ◌≤◌, ◌≡◌, refl, ap, sym, subst, Bool, true, false, Option, none, some, List, All, length, ◌⊎◌,
  inl, inr,
}
use mini_service_discover.Base.Outcome.{Outcome, done, ◌>>=◌, Returns, returns, then-Returns}
use mini_service_discover.CString.{Str}
use mini_service_discover.Udp.{Addr, Ret, count, minus_one, Socket}
use mini_service_discover.Resources.{Resources, open_socket, close_socket, new_client_object}
use mini_service_discover.Subnet.{UdpClient}
use mini_service_discover.Subnet.Local.{Interface, init_udp_client}
use mini_service_discover.Subnet.Prefix.{HasAddress, local_text, IsShared, init_udp_client-IsLocal}
use mini_service_discover.Subnet.Open.{
  Machine, is_failure, closed, set_socket_timeout, open_sock, open_client,
}

-- The machine gives a socket with the descriptor `n`, and has the interfaces `ifs`, all with an
-- address.
pub record HasSocket (m : Machine) (n : ℕ) (ifs : List Interface) : Type 0 where
  pub sock : m.sock ≡ count n
  pub interfaces : m.interfaces ≡ some ifs
  pub addresses : All (λ i. HasAddress i.addr) ifs

-- Both time limits can be set.
pub record HasLimits (m : Machine) : Type 0 where
  pub sends : is_failure m.send_limit ≡ false
  pub receives : is_failure m.receive_limit ≡ false

-- A client was opened on a socket.
pub record Opened (m : Machine) (n : ℕ) (ifs : List Interface) (socket : Socket) (rs : Resources)
    (r : Option UdpClient × Resources) : Type 0 where
  pub client : UdpClient
  pub made : r.0 ≡ some client
  pub shared : IsShared (local_text ifs) client.ip
  pub short : length client.ip ≤ 15
  pub same : client.socket ≡ socket
  pub resources : r.1 ≡ rs

module _ (inet_addr : Str → Addr) (m : Machine) (n : ℕ) (ifs : List Interface) (rs : Resources)
    (has : HasSocket m n ifs) where
  -- With a socket, whatever the time limits come to.
  pub open_client-set_socket_timeout :
      (r : Socket × Resources)
      → set_socket_timeout m n (open_socket n (new_client_object rs)) ≡ r
      → Returns (Opened m n ifs r.0 r.1) (open_client inet_addr false m rs)
  unfolding open_client open_sock
  open_client-set_socket_timeout r e =
      subst (λ (s : Ret). Returns (Opened m n ifs r.0 r.1) (open_sock inet_addr false s m rs))
        (sym has.sock)
        (rw e (
          subst
            (λ (o : Option (List Interface)). Returns (Opened m n ifs r.0 r.1) (
              init_udp_client inet_addr false (count n) o m.broadcast_option r.0 >>= λ client.
              done (client, r.1)))
            (sym has.interfaces)
            (then-Returns
              (init_udp_client-IsLocal inet_addr n ifs m.broadcast_option r.0 has.addresses)
              λ o local. returns (record {
                client = local.client;
                made = local.made;
                shared = local.shared;
                short = local.short;
                same = local.same;
                resources = refl;
              }))))

  pub open_client-Opened :
      HasLimits m
      → Returns
          (Opened m n ifs m.socket (open_socket n (new_client_object rs)))
          (open_client inet_addr false m rs)
  unfolding set_socket_timeout
  open_client-Opened limits =
      open_client-set_socket_timeout (m.socket, open_socket n (new_client_object rs))
        (rw (limits.sends, limits.receives))

  -- The limits of a closed socket
  pub open_client-closed :
      (is_failure m.send_limit ≡ true)
        ⊎ ((is_failure m.send_limit ≡ false) × (is_failure m.receive_limit ≡ true))
      → Returns
          (Opened m n ifs (closed m.socket) (close_socket n (open_socket n (new_client_object rs))))
          (open_client inet_addr false m rs)
  unfolding set_socket_timeout
  open_client-closed (inl sends) =
      open_client-set_socket_timeout
        (closed m.socket, close_socket n (open_socket n (new_client_object rs))) (rw sends)
  open_client-closed (inr (sends, receives)) =
      open_client-set_socket_timeout
        (closed m.socket, close_socket n (open_socket n (new_client_object rs)))
        (rw (sends, receives))

-- Without a socket NULL is returned, and the client object stays.
pub open_client-failed :
    (inet_addr : Str → Addr) (is_broadcast : Bool) (m : Machine) (rs : Resources)
    → m.sock ≡ minus_one
    → open_client inet_addr is_broadcast m rs ≡ done (none, new_client_object rs)
unfolding open_client open_sock
open_client-failed inet_addr is_broadcast m rs e =
    ap (λ (s : Ret). open_sock inet_addr is_broadcast s m rs) e

-- What follows on a client that was opened.
pub then-Opened {ℓ κ} :
    {A : Type ℓ} {P : A → Type κ} (k : Option UdpClient × Resources → Outcome A) {m : Machine}
    {n : ℕ} {ifs : List Interface} {socket : Socket} {rs : Resources}
    {o : Outcome (Option UdpClient × Resources)}
    → Returns (Opened m n ifs socket rs) o
    → ((client : UdpClient)
        → IsShared (local_text ifs) client.ip
        → length client.ip ≤ 15
        → client.socket ≡ socket
        → Returns P (k (some client, rs)))
    → Returns P (o >>= k)
then-Opened {P = P} k opened after = then-Returns opened λ r o.
    subst (λ (client : Option UdpClient). Returns P (k (client, r.1))) (sym o.made)
      (subst (λ (held : Resources). Returns P (k (some o.client, held))) (sym o.resources)
        (after o.client o.shared o.short o.same))
