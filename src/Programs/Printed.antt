-- ===== src/Programs/Printed.antt =====
-- What the program of c/test/client.c prints.
use mini_service_discover.Base.{
  ℕ, zero, suc, ◌<◌, ◌≡◌, refl, ap, sym, subst, ◌∙◌, Bool, true, none, some, List, [], ◌∷◌, ◌++◌,
  map, All, length, arith,
}
use mini_service_discover.Base.Outcome.{
  Outcome, done, fetch, Returns, Returns-itself, returns, then-Returns,
}
use mini_service_discover.CString.{Str, CharPtr, codes}
use mini_service_discover.Memory.{Ptr, ServiceInfo, Memory}
use mini_service_discover.Memory.Laws.{not_null, load_node-done, load_info-done}
use mini_service_discover.ServiceList.Registry.{Registry, IsText}
use mini_service_discover.ServiceList.Chain.{Entry, values, first, IsChain, IsList}
use mini_service_discover.ServiceList.Deinit.{Without, deinit_list-Without}
use mini_service_discover.ServiceList.Stores.{Stores}
use mini_service_discover.Protocol.Cjson.{Cjson, Laws}
use mini_service_discover.Protocol.Build.{service_tree}
use mini_service_discover.Protocol.RoundTrip.{IsField, IsField-of_all, CanSend}
use mini_service_discover.Programs.{
  Line, print_info, print_loop, Exit, exit, after_inquiry, play_music, client_main,
}
use mini_service_discover.Udp.{Addr, Arrival, receive_error}
use mini_service_discover.Udp.Send.{IsHealthy}
use mini_service_discover.Resources.{Resources}
use mini_service_discover.Subnet.Local.{Interface}
use mini_service_discover.Subnet.Open.{Machine}
use mini_service_discover.Subnet.Opened.{HasSocket, HasLimits}
use mini_service_discover.Client.{Client}
use mini_service_discover.Client.Answers.{Answer, arrival, collect, Holds}
use mini_service_discover.Client.Call.{Call, returned, inquiry_service}
use mini_service_discover.Client.Called.{inquiry_service-Found}

-- All that is printed of a service is there.
pub record HasTexts (i : ServiceInfo) : Type 0 where
  pub device_name : IsText i.device_name
  pub ip : IsText i.ip
  pub info : IsText i.info

abbrev pub text_of : CharPtr → Str
text_of none = []
text_of (some s) = s

abbrev pub line_of : ServiceInfo → Line
line_of i = record {
  device_name = text_of i.device_name;
  ip = text_of i.ip;
  port = i.port;
  info = text_of i.info;
}

fetch-text_of : (o : CharPtr) → IsText o → fetch o ≡ done (text_of o)
fetch-text_of none there = absurd there
fetch-text_of (some s) there = refl

print_info-line_of : (i : ServiceInfo) → HasTexts i → print_info i ≡ done (line_of i)
unfolding print_info
print_info-line_of i h =
    rw
      (
        fetch-text_of i.device_name h.device_name,
        fetch-text_of i.ip h.ip,
        fetch-text_of i.info h.info,
      )
      refl

print_loop-line_of :
    (b k : ℕ) (m : Memory) (es : List Entry)
    → IsChain b m es
    → All HasTexts (values es)
    → length es < k
    → print_loop k (first es) m ≡ done (map line_of (values es))
unfolding print_loop
print_loop-line_of b zero m es c texts lt = absurd (omega (arith, lt))
print_loop-line_of b (suc k) m [] c texts lt = refl
print_loop-line_of b (suc k) m (e ∷ es) c texts lt =
    let cell = c.0 in
    rw
      (
        not_null cell.at_ne,
        load_node-done m cell.at_ne cell.node,
        load_info-done m cell.loc_ne cell.holds,
        print_info-line_of e.value texts.0,
        print_loop-line_of b k m es c.3 texts.1 (omega (arith, lt)),
      )
      refl

play_music-IsField : IsField play_music
play_music-IsField = IsField-of_all play_music refl (omega arith)

-- The program's inquiry `call` returned a list that stands for the services `r`; the program has
-- printed them, its memory at the end is the one that the inquiry left less the nodes and infos of
-- that list, and it holds `rs`.
pub record Printed (call : Outcome (Call Client)) (r : Registry) (rs : Resources) (e : Exit)
    : Type 0 where
  pub client : Client
  pub called : call ≡ done (returned (some client) rs)
  pub entries : List Entry
  pub list : IsList client.memory.brk client.memory client.list entries
  pub stands : values entries ≡ r
  pub left : Memory
  pub freed : Without entries client.memory left
  pub same : e ≡ exit (map line_of r) left rs

-- The loop and `deinit_list` on a list that was found.
listed-Printed :
    (call : Outcome (Call Client)) (cl : Client) (r : Registry) (rs : Resources)
    → call ≡ done (returned (some cl) rs)
    → Stores cl.memory.brk cl.memory cl.list r
    → All HasTexts r
    → Returns (Printed call r rs) (after_inquiry (returned (some cl) rs))
unfolding after_inquiry
listed-Printed call cl r rs called stores texts =
    let printed : print_loop (suc cl.memory.brk) cl.list.head cl.memory ≡ done (map line_of r) =
      ap (λ (p : Ptr). print_loop (suc cl.memory.brk) p cl.memory) stores.list.head
      ∙ print_loop-line_of cl.memory.brk (suc cl.memory.brk) cl.memory stores.entries
          stores.list.chain (subst (λ (q : Registry). All HasTexts q) (sym stores.stands) texts)
          (let room = stores.list.room in omega (arith, room))
      ∙ ap (λ (q : Registry). done (map line_of q)) stores.stands in
    rw printed (
      then-Returns
        (deinit_list-Without cl.memory.brk cl.list cl.memory stores.entries stores.list
          (omega arith))
        λ left freed. returns (record {
          client = cl;
          called = called;
          entries = stores.entries;
          list = stores.list;
          stands = stores.stands;
          left = left;
          freed = freed;
          same = refl;
        }))

module _ (c : Cjson) (inet_addr : Str → Addr) (signed : Bool) (laws : Laws c) (m : Machine) (n : ℕ)
    (ifs : List Interface) (answers : List Answer) (rest : List Arrival) (rs : Resources) where
  -- With the laws of cJSON, the program c/test/client.c (text of its inquiry that fits and has one
  -- checksum for both sides), on a machine that has a socket, interfaces with addresses, a healthy
  -- network and a sending thread that ends before the packet is freed, where datagrams arrive that
  -- each hold a packet with a service that has both names, a failure or nothing valid, and then a
  -- read fails or times out, and where the services found have all texts, prints these services, in
  -- order, each in place of one with the same names, gives back the nodes and infos of the list
  -- that its inquiry returned, and ends with the sockets, clients and packets that it began with.
  pub client_main-Printed :
      CanSend signed c (service_tree c (codes "") play_music (codes "") (codes "") 0)
      → HasSocket m n ifs
      → HasLimits m
      → IsHealthy m.socket
      → m.sender_ends_first ≡ true
      → All (Holds c) answers
      → m.socket.arrivals ≡ map arrival answers ++ receive_error ∷ rest
      → All HasTexts (collect answers [])
      → Returns
          (Printed
            (inquiry_service c inet_addr signed (some play_music) m rs)
            (collect answers [])
            rs)
          (client_main c inet_addr signed m rs)
  unfolding client_main
  client_main-Printed can_ask has limits healthy in_time holds arrive texts =
      then-Returns
        (Returns-itself (
          inquiry_service-Found c inet_addr signed laws play_music m n ifs answers rest rs
            play_music-IsField can_ask has healthy in_time holds arrive limits))
        λ call (run, found).
          let asked = inquiry_service c inet_addr signed (some play_music) m rs in
          subst
            (λ (x : Call Client). Returns (Printed asked (collect answers []) rs) (after_inquiry x))
            (sym found.same)
            (listed-Printed asked found.client (collect answers []) rs (run ∙ ap done found.same)
              found.list texts)
