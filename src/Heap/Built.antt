-- ===== src/Heap/Built.antt =====
-- What get_service_info of c/provider/comm/protocal.c allocates: the struct, and a string for each
-- pointer that is not NULL.
use mini_service_discover.Base.{
  ◌+◌, ◌≤◌, ◌<◌, ◌≡◌, ◌≢◌, refl, subst, ◌∙◌, Option, none, some, arith,
}
use mini_service_discover.Base.Outcome.{done, >>=-done, Returns, returns}
use mini_service_discover.CString.{CharPtr}
use mini_service_discover.Memory.{Ptr, null, ServiceInfo}
use mini_service_discover.Memory.Laws.{update_self, update-ne}
use mini_service_discover.Protocol.{Packet}
use mini_service_discover.Protocol.Cjson.{Cjson}
use mini_service_discover.Protocol.Decode.{json_data, info_of, get_service_info}
use mini_service_discover.Heap.{
  InfoBlock, service_info, Heap, put, malloc, empty_info, set_string, make_service_info,
  get_service_info_block,
}
use mini_service_discover.Heap.Laws.{IsHeap, IsBetween, malloc-IsHeap, put-IsHeap}
use mini_service_discover.Heap.Strings.{
  HasString, apart, widen, set_string-IsStored, HasString-kept,
}

-- The struct at the pointer is this service, with strings of its own at addresses in this order, and
-- nothing else was changed.
pub record IsServiceInfo (v : ServiceInfo) (h : Heap) (r : Ptr × Heap) : Type 0 where
  pub at : r.0 ≡ h.brk
  pub block : InfoBlock
  pub struct : r.1.blocks r.0 ≡ some (service_info block)
  pub device_name : HasString block.device_name v.device_name r.1
  pub service_name : HasString block.service_name v.service_name r.1
  pub ip : HasString block.ip v.ip r.1
  pub info : HasString block.info v.info r.1
  pub port : block.port ≡ v.port
  pub ends : Ptr × Ptr × Ptr
  pub device_name_place : IsBetween (h.brk + 1) block.device_name ends.0
  pub service_name_place : IsBetween ends.0 block.service_name ends.1
  pub ip_place : IsBetween ends.1 block.ip ends.2
  pub info_place : IsBetween ends.2 block.info r.1.brk
  pub grows : (h.brk + 1 ≤ ends.0) × (ends.0 ≤ ends.1) × (ends.1 ≤ ends.2) × (ends.2 ≤ r.1.brk)
  pub same :
      (x : Ptr)
      → x ≢ r.0
      → x ≢ block.device_name
      → x ≢ block.service_name
      → x ≢ block.ip
      → x ≢ block.info
      → r.1.blocks x ≡ h.blocks x
  pub heap : IsHeap r.1

module _ (v : ServiceInfo) (h : Heap) (ok : IsHeap h) where
  abbrev made : Heap
  made = (malloc (service_info empty_info) h).1

  made-IsHeap : IsHeap made
  made-IsHeap = malloc-IsHeap h ok (service_info empty_info)

  not_null : h.brk ≢ null
  not_null = λ e. absurd (let pos = ok.positive in omega (arith, e, pos))

  made-brk : made.brk ≡ h.brk + 1
  unfolding malloc
  made-brk = refl

  -- The last step, with the port.
  with_port :
      (i : InfoBlock) (k : Heap)
      → IsHeap k
      → h.brk < k.brk
      → {q : Ptr} {o : CharPtr} {a b : Ptr} → IsBetween a q b
      → h.brk < a
      → HasString q o k
      → HasString q o (put h.brk (service_info i) k)
  unfolding put
  with_port i k heap lt between above has = record {
    text = update-ne k.blocks (some (service_info i)) (apart between not_null above) ∙ has.text;
    read = has.read;
  }

  abbrev with_device : Ptr → InfoBlock
  with_device q = record empty_info { device_name = q }

  abbrev step1 : Ptr × Heap
  step1 = set_string h.brk with_device v.device_name made

  abbrev with_service : Ptr → InfoBlock
  with_service q = record (with_device step1.0) { service_name = q }

  abbrev step2 : Ptr × Heap
  step2 = set_string h.brk with_service v.service_name step1.1

  abbrev with_ip : Ptr → InfoBlock
  with_ip q = record (with_service step2.0) { ip = q }

  abbrev step3 : Ptr × Heap
  step3 = set_string h.brk with_ip v.ip step2.1

  abbrev with_info : Ptr → InfoBlock
  with_info q = record (with_ip step3.0) { info = q }

  abbrev step4 : Ptr × Heap
  step4 = set_string h.brk with_info v.info step3.1

  make_service_info-IsServiceInfo : IsServiceInfo v h (make_service_info v h)
  unfolding make_service_info malloc put
  make_service_info-IsServiceInfo =
      let from = made-brk in
      let s1 =
        set_string-IsStored h.brk with_device v.device_name made made-IsHeap not_null
          (omega (arith, from)) in
      let g1 = s1.grows in
      let s2 =
        set_string-IsStored h.brk with_service v.service_name step1.1 s1.heap not_null
          (omega (arith, from, g1)) in
      let g2 = s2.grows in
      let s3 =
        set_string-IsStored h.brk with_ip v.ip step2.1 s2.heap not_null
          (omega (arith, from, g1, g2)) in
      let g3 = s3.grows in
      let s4 =
        set_string-IsStored h.brk with_info v.info step3.1 s3.heap not_null
          (omega (arith, from, g1, g2, g3)) in
      let g4 = s4.grows in
      let block : InfoBlock = record (with_info step4.0) { port = v.port } in
      let over1 : h.brk < made.brk = omega (arith, from) in
      let over2 : h.brk < step1.1.brk = omega (arith, over1, g1) in
      let over3 : h.brk < step2.1.brk = omega (arith, over2, g2) in
      let over4 : h.brk < step3.1.brk = omega (arith, over3, g3) in
      let over5 : h.brk < step4.1.brk = omega (arith, over4, g4) in
      record {
        at = refl;
        block = block;
        struct = update_self step4.1.blocks h.brk (some (service_info block));
        device_name = with_port block step4.1 s4.heap over5 s1.place over1 (
            HasString-kept s3.heap s4 (widen s1.place (omega (arith, g2, g3))) not_null over1 (
              HasString-kept s2.heap s3 (widen s1.place g2) not_null over1
                (HasString-kept s1.heap s2 s1.place not_null over1 s1.string)));
        service_name = with_port block step4.1 s4.heap over5 s2.place over2 (
            HasString-kept s3.heap s4 (widen s2.place g3) not_null over2
              (HasString-kept s2.heap s3 s2.place not_null over2 s2.string));
        ip =
            with_port block step4.1 s4.heap over5 s3.place over3
              (HasString-kept s3.heap s4 s3.place not_null over3 s3.string);
        info = with_port block step4.1 s4.heap over5 s4.place over4 s4.string;
        port = refl;
        ends = (step1.1.brk, step2.1.brk, step3.1.brk);
        device_name_place = s1.place;
        service_name_place = s2.place;
        ip_place = s3.place;
        info_place = s4.place;
        grows = (omega (arith, from, g1), g2, g3, g4);
        same = λ x other d s i n.
            update-ne step4.1.blocks (some (service_info block)) other
            ∙ s4.same x other n
            ∙ s3.same x other i
            ∙ s2.same x other s
            ∙ s1.same x other d
            ∙ update-ne h.blocks (some (service_info empty_info)) other;
        heap = put-IsHeap step4.1 s4.heap h.brk (service_info block) not_null over5;
      }

-- If the contents that `get_service_info` reads from a packet are a service, then with its
-- allocations, on a heap where nothing lives at NULL or at addresses still to come, it returns a
-- new struct whose pointers lead to the strings of this service, NULL where it has none, each in a
-- block of its own that was not in use; no other block is changed.
pub get_service_info_block-IsServiceInfo :
    (c : Cjson) (pkt : Packet) (v : ServiceInfo) (h : Heap)
    → IsHeap h
    → get_service_info c pkt ≡ done (some v)
    → Returns (IsServiceInfo v h) (get_service_info_block c pkt h)
unfolding get_service_info get_service_info_block
get_service_info_block-IsServiceInfo c pkt v h ok e =
    let (text, read, e) = >>=-done (json_data pkt) e in rw read (of_tree (c.parse text) e)
  where
    of_tree :
        (json : Option c.Tree)
        → elim json [ none ↦ done none | some t ↦ done (some (info_of c t)) ] ≡ done (some v)
        → Returns (IsServiceInfo v h) (elim json [
          | none ↦ done (null, h)
          | some t ↦ done (make_service_info (info_of c t) h)
        ])
    of_tree none e = absurd (ground (arith, e))
    of_tree (some t) e =
        let same : info_of c t ≡ v = ground (arith, e) in
        subst
          (λ (w : ServiceInfo).
            Returns (IsServiceInfo w h) (done (make_service_info (info_of c t) h)))
          same (returns (make_service_info-IsServiceInfo (info_of c t) h ok))
