-- ===== src/Testing/LocalExamples.antt =====
-- A machine with a loopback and one interface to a network.
use mini_service_discover.Base.{refl, some, List, [], ◌∷◌, All, arith}
use mini_service_discover.CString.{codes}
use mini_service_discover.CString.Laws.{IsCString-of_all}
use mini_service_discover.Udp.{Socket}
use mini_service_discover.Subnet.Local.{Interface, inet}
use mini_service_discover.Subnet.Prefix.{HasAddress}

abbrev pub interfaces : List Interface
interfaces =
    record {
      name = codes "lo";
      addr = some (inet (codes "127.0.0.1"));
      netmask = some (codes "255.0.0.0");
      broadcast = some (codes "127.0.0.1");
    }
    ∷ record {
      name = codes "eth0";
      addr = some (inet (codes "10.0.0.17"));
      netmask = some (codes "255.255.255.0");
      broadcast = some (codes "10.0.0.255");
    }
    ∷ []

abbrev socket : Socket
socket = record { addrfrom = 0; arrivals = []; send_results = []; sent = [] }

pub interfaces-HasAddress : All (λ i. HasAddress i.addr) interfaces
interfaces-HasAddress = (
  (IsCString-of_all (codes "127.0.0.1") refl, omega arith),
  ((IsCString-of_all (codes "10.0.0.17") refl, omega arith), tt),
)
