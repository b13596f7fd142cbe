-- ===== src/Memory/Laws.antt =====
-- Reads and writes at an address that holds an object.
use mini_service_discover.Base.{◌≡◌, ◌≢◌, Option, none, some, arith, ◌==◌, false}
use mini_service_discover.Base.Outcome.{done}
use mini_service_discover.Memory.{
  Ptr, null, ServiceInfo, Node, Memory, update, put_node, put_info, load_node, load_info, set_next,
  set_info, free_node, free_info, free_service_info,
}

pub not_null : {p : Ptr} → p ≢ null → (p == null) ≡ false
not_null ne = ground arith

module _ {ℓ} {A : Type ℓ} (f : Ptr → Option A) where
  pub update_self : (a : Ptr) (c : Option A) → update f a c a ≡ c
  update_self a c = ground arith

  pub update-ne : {a x : Ptr} (c : Option A) → x ≢ a → update f a c x ≡ f x
  update-ne c ne = ground arith

module _ (m : Memory) {p : Ptr} (ne : p ≢ null) where
  module _ {n : Node} (e : m.nodes p ≡ some n) where
    pub load_node-done : load_node p m ≡ done n
    unfolding load_node
    load_node-done = ground arith

    pub set_next-done :
        (q : Ptr) → set_next p q m ≡ done (put_node p (some (record n { next = q })) m)
    unfolding set_next
    set_next-done q = ground arith

    pub set_info-done :
        (q : Ptr) → set_info p q m ≡ done (put_node p (some (record n { info = q })) m)
    unfolding set_info
    set_info-done q = ground arith

    pub free_node-done : free_node p m ≡ done (put_node p none m)
    unfolding free_node
    free_node-done = ground arith

  module _ {i : ServiceInfo} (e : m.infos p ≡ some i) where
    pub load_info-done : load_info p m ≡ done i
    unfolding load_info
    load_info-done = ground arith

    pub free_info-done : free_info p m ≡ done (put_info p none m)
    unfolding free_info
    free_info-done = ground arith

    pub free_service_info-done : free_service_info p m ≡ done (put_info p none m)
    unfolding free_service_info
    free_service_info-done = free_info-done
