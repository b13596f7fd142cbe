-- ===== src/Testing/InquiryExamples.antt =====
-- An inquiry for a service of a daemon that holds it.
use mini_service_discover.Base.{◌≡◌, refl, false, some, [], ◌∷◌, arith}
use mini_service_discover.Base.Outcome.{done, Returns, Returns-value}
use mini_service_discover.CString.{codes}
use mini_service_discover.Memory.{Memory, empty_memory, put_info, put_node, null}
use mini_service_discover.ServiceList.Registry.{contains}
use mini_service_discover.ServiceList.Stores.{Stores}
use mini_service_discover.Protocol.{action_succ, inquiry, Packet}
use mini_service_discover.Protocol.Build.{get_inquiry_pkt, get_inquiry_result_pkt}
use mini_service_discover.Protocol.RoundTrip.{Carries, service}
use mini_service_discover.Protocol.Packets.{get_inquiry_pkt-Carries, get_inquiry_result_pkt-Carries}
use mini_service_discover.Daemon.{Daemon}
use mini_service_discover.Daemon.Spec.{named_prefix, Serves}
use mini_service_discover.Daemon.Clients.{Built-of_IsWhole}
use mini_service_discover.Client.Inquiry.{IsSendable, exchange-inquiry}
use mini_service_discover.Client.Exchange.{exchange, Lists}
use mini_service_discover.Client.Conversation.{Listed, converse, inquiry_service-converse}
use mini_service_discover.Testing.LocalExamples.{interfaces, interfaces-HasAddress}
use mini_service_discover.Testing.CallExamples.{found_machine, held, inet_addr}
use mini_service_discover.Testing.PlainJson.{plain_json}
use mini_service_discover.Testing.PlainLaws.{plain_laws}
use mini_service_discover.Testing.Data.{
  box, music, host, note, box_service, box-IsField, music-IsField, host-IsField, note-IsField,
  box_service-CanSend, music-CanSend, no_reason-CanSend, not_found-CanSend,
}

abbrev memory : Memory
memory =
    put_node 2 (some (record { info = 1; next = null }))
      (put_info 1 (some box_service) (record empty_memory { brk = 3 }))

abbrev pub daemon : Daemon
daemon = record {
  list = record { head = 2; tail = 2 };
  memory = memory;
  socket = record { addrfrom = 4; arrivals = []; send_results = []; sent = [] };
}

daemon-Stores : Stores 3 memory daemon.list (box_service ∷ [])
daemon-Stores = record {
  entries = record { at = 2; loc = 1; value = box_service } ∷ [];
  list = record {
    head = refl;
    tail = refl;
    chain = (
      record {
        at_ne = omega arith;
        loc_ne = omega arith;
        at_lt = omega arith;
        loc_lt = omega arith;
        node = refl;
        holds = refl;
      },
      refl,
      refl,
      tt,
    );
    room = omega arith;
  };
  stands = refl;
  named = (record { device = tt; service = tt }, tt);
}

box_service-IsSendable : IsSendable false plain_json plain_laws box_service
box_service-IsSendable = record {
  device = box;
  name = music;
  ip = host;
  info = note;
  port = 80;
  same = refl;
  fields = (box-IsField, music-IsField, host-IsField, note-IsField);
  small = omega arith;
  can = box_service-CanSend;
}

pub daemon-Serves : Serves false plain_json daemon (box_service ∷ [])
unfolding contains
daemon-Serves = record {
  stores = daemon-Stores;
  distinct = (λ dev svc is. refl, tt);
  answers = (
    Built-of_IsWhole (get_inquiry_result_pkt false plain_json box_service)
        (Carries plain_json action_succ box_service) (λ pkt t. t.0)
        (get_inquiry_result_pkt-Carries false plain_json plain_laws box music host note 80
          (box-IsField, music-IsField, host-IsField, note-IsField) (omega arith)
          box_service-CanSend),
    tt,
  );
  healthy = refl;
}

pub asking :
    (pkt : Packet) × (get_inquiry_pkt false plain_json (some music) ≡ done pkt)
    × Carries plain_json inquiry (service (codes "") music (codes "") (codes "") 0) pkt
asking =
    Returns-value
      (get_inquiry_pkt-Carries false plain_json plain_laws music music-IsField music-CanSend)

exchange-inquiry_example :
    Returns
      (Lists (named_prefix music (box_service ∷ [])))
      (exchange false plain_json 9 asking.0 daemon)
exchange-inquiry_example =
    exchange-inquiry false plain_json plain_laws no_reason-CanSend not_found-CanSend music 9
      asking.0 daemon (box_service ∷ []) music-IsField music-CanSend asking.1 daemon-Serves
      (box_service-IsSendable, tt)

inquiry_service-converse_example :
    Returns
      (Listed inet_addr asking.0 found_machine (named_prefix music (box_service ∷ [])) held)
      (converse plain_json inet_addr false music 9 asking.0 daemon found_machine held)
inquiry_service-converse_example =
    inquiry_service-converse plain_json inet_addr false plain_laws no_reason-CanSend
      not_found-CanSend music 9 asking.0 daemon (box_service ∷ []) found_machine 3 interfaces held
      music-IsField music-CanSend asking.1 daemon-Serves (box_service-IsSendable, tt)
      (record { sock = refl; interfaces = refl; addresses = interfaces-HasAddress })
      (record { sends = refl; receives = refl }) refl refl
