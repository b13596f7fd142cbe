-- ===== src/Programs.antt =====
-- The programs of c/test: client.c, server.c and daemon.c.
pub mod Printed
pub mod Long
use mini_service_discover.Base.{
  ℕ, zero, suc, Bool, true, false, Option, none, some, List, [], ◌∷◌, ◌==◌, if◌then◌else◌,
}
use mini_service_discover.Base.Outcome.{Outcome, done, undefined, out_of_fuel, fetch, ◌>>=◌}
use mini_service_discover.CString.{Str, codes}
use mini_service_discover.Memory.{Ptr, null, ServiceInfo, Memory, load_node, load_info}
use mini_service_discover.ServiceList.{Code, deinit_list}
use mini_service_discover.Protocol.Cjson.{Cjson}
use mini_service_discover.Udp.{Addr, Ret, Arrival}
use mini_service_discover.Resources.{Resources}
use mini_service_discover.Subnet.Open.{Machine}
use mini_service_discover.Client.{Client}
use mini_service_discover.Daemon.Process.{Process, run_daemon}
use mini_service_discover.Register.{Registrar}
use mini_service_discover.Client.Call.{Call, waits, returned, inquiry_service}
use mini_service_discover.Register.Call.{register_service, unregister_service, result_of}

-- What one `printf` of a service shows.
pub record Line : Type 0 where
  pub device_name : Str
  pub ip : Str
  pub port : ℕ
  pub info : Str

-- A NULL must not be printed.
unfoldable pub print_info : ServiceInfo → Outcome Line
print_info i = do
  device_name ← fetch i.device_name
  ip ← fetch i.ip
  info ← fetch i.info
  done (record { device_name = device_name; ip = ip; port = i.port; info = info })

unfoldable pub print_loop : ℕ → Ptr → Memory → Outcome (List Line)
print_loop zero node m = out_of_fuel
print_loop (suc k) node m = if node == null then done [] else do
  n ← load_node node m
  i ← load_info n.info m
  line ← print_info i
  lines ← print_loop k n.next m
  done (line ∷ lines)

-- How the program of c/test/client.c ends, with what was printed, and with the memory and what the
-- process holds then.
pub data Exit : Type 0 where
  never : Exit
  inquiry_fail : Resources → Exit
  exit : List Line → Memory → Resources → Exit

unfoldable pub after_inquiry : Call Client → Outcome Exit
after_inquiry waits = done never
after_inquiry (returned none rs) = done (inquiry_fail rs)
after_inquiry (returned (some cl) rs) = do
  lines ← print_loop (suc cl.memory.brk) cl.list.head cl.memory
  memory ← deinit_list cl.list cl.memory
  done (exit lines memory rs)

abbrev pub play_music : Str
play_music = codes "play_music"

-- What the program of c/test/server.c reports of its calls, in order; `stuck` behind a call that never
-- returns.
pub data Report : Type 0 where
  finished : Resources → Report
  called : Code → Report → Report
  stuck : Report

-- `ret = …; if(!ret) printf("succ\n"); else printf("fail\n");` and the rest of the program
unfoldable pub and_then : Call Registrar → (Resources → Outcome Report) → Outcome Report
and_then waits next = done stuck
and_then (returned t rs) next = do report ← next rs; done (called (result_of t) report)

-- The texts of the three calls.
abbrev pub box1 : Str
box1 = codes "box1"

abbrev pub box2 : Str
box2 = codes "box2"

abbrev pub box_ip : Str
box_ip = codes "192.168.1.116"

abbrev pub pcm_info : Str
pcm_info =
    codes
      "play music with pcm data fskjdddddddddddddddddddddddddddddddddddddddddddddddddddddddddddddddddddddddddddddddddddddddddddddddfklsaaaaaaaaaaaaaaa"

abbrev pub acc_info : Str
acc_info = codes "play music with acc data"

module _ (c : Cjson) (inet_addr : Str → Addr) where
  -- `main` of c/test/client.c
  unfoldable pub client_main : Bool → Machine → Resources → Outcome Exit
  client_main signed m rs =
      inquiry_service c inet_addr signed (some play_music) m rs >>= after_inquiry

  -- `main` of c/test/server.c, with what the system does in each of its calls
  unfoldable pub server_main : Bool → Machine → Machine → Machine → Resources → Outcome Report
  server_main signed m1 m2 m3 rs = do
    call ←
        register_service c inet_addr signed (some box1) (some play_music) (some box_ip) 6666
          (some pcm_info) m1 rs
    and_then call λ rs. do
      call ←
          register_service c inet_addr signed (some box2) (some play_music) (some box_ip) 6666
            (some acc_info) m2 rs
      and_then call λ rs. do
        call ← unregister_service c inet_addr signed (some box2) (some play_music) m3 rs
        and_then call λ rs. done (finished rs)

-- `main` of c/test/daemon.c
abbrev pub daemon_main :
    Bool → Cjson → Ret → Ret → List Arrival → List Ret → Resources → Outcome Process
daemon_main signed c sock bound arrivals send_results rs =
    run_daemon signed c sock bound arrivals send_results rs
