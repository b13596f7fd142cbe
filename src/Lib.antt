-- ===== src/Lib.antt =====
-- A library about mini_service_discover's C code: a daemon with which devices register services,
-- and of which clients ask for services by name, over UDP packets with JSON text.
--
-- The parts of the program, and the files that model them:
-- * the list of services (c/provider/comm/list.c, list.h): ServiceList, with a function for each
--   of the source's (get_node, init_list, list_add, list_remove, list_get, deinit_list), and for
--   the bodies of their loops. Nodes and infos are objects of a memory (Memory), which the
--   functions take and return. ServiceList/Chain says which memory holds a list;
--   ServiceList/Registry is what a list stands for; ServiceList/Stores is the contract that the
--   daemon relies on.
-- * the packets (c/provider/comm/protocal.c, protocal.h): Protocol (the types, checksum and
--   action), Protocol/Build (get_register_pkt, get_unregister_pkt, get_inquiry_pkt,
--   get_inquiry_result_pkt, get_result_pkt), Protocol/Decode (get_service_info, get_result).
--   Strings and stack buffers are in CString, packet buffers in Buffer. A read or write past a
--   buffer is undefined behaviour (Base/Outcome), never a default.
-- * the allocations of protocal.c: Heap, with the strings of a service and of a reason, and the
--   bytes of a packet, as blocks of their own (free_service_info, free_result, free_pkt give them
--   back).
-- * the socket (c/provider/comm/udp.c, udp.h): Udp (init_udp_server, udp_server_read,
--   udp_server_write). The network is data: the returns of `recvfrom` and `sendto`, in order.
-- * the daemon (c/provider/daemon.c): Daemon, whose `server_loop` reads a packet from the socket,
--   decodes it, changes the list and sends its answers; Daemon/Spec is its specification, a
--   registry with replies, without memory, packets and sockets; Daemon/Messages and Daemon/Run are
--   runs on many datagrams, Daemon/Process and Daemon/Over are daemon_loop in its process, with
--   the sockets and objects that it takes and gives back, and Daemon/Clients has two clients that
--   talk to it.
-- * the clients: Subnet (reset_sub_addr and prepare_sub_addr of udp.c, and udp_broadcast_data of
--   c/provider/client.c and server.c, the thread that sends a packet to each host of the subnet;
--   Subnet/Local has init_udp_client and the choice of a local address), Client/Threads (the two
--   threads of client.c on the shared client, as a step relation, up to the first use of freed
--   memory by the sender, behind which it takes no step; Client/Interleavings has what its runs
--   send, Client/Termination its end, Client/Broken when it comes to use freed memory), Client
--   (check_result of client.c, which collects the services found in a list; Client/Inquiry has an
--   inquiry from the client to the daemon and back) and Register (check_result of server.c, which
--   says whether a registration succeeded).
-- * whole calls of the two libraries: Resources (the sockets, clients, packets and servers that a
--   process holds), Subnet/Open (init_udp_client, set_socket_timeout and deinit_udp_client in the
--   process), Client/Call (inquiry_service) and Register/Call (register_service and
--   unregister_service), with what they come to in Client/Called, Register/Called,
--   Register/Broadcast and Register/Closed, and with a daemon that answers in Client/Conversation,
--   Register/Conversation (register_service) and Register/Unregistration (unregister_service),
--   where Register/Heard is the daemon's answer as check_result hears it; System has the daemon
--   with a device that registers a service and a client that asks for it, and System/Lifetime a
--   device that registers a service and withdraws it. The system is data (Machine): what its calls
--   will return, and what the sending thread sees of `read_end` in each round. That thread and
--   `check_result` use different parts of the socket, so that a call runs them one after the
--   other.
-- * the programs of c/test (client.c, server.c, daemon.c), which call the libraries: Programs.
-- Testing has runs on small inputs, with a stand-in for cJSON.
--
-- cJSON is no part of the repository: Protocol/Cjson is a record of its operations, which the
-- builders and readers take, and the laws that its header documents are a hypothesis. Whether
-- `char` is signed is a parameter too.
--
-- Loops run on fuel. The loops over a list get one round more than `brk`, which is above the
-- number of nodes; a write gets one round more than it has bytes, since each round sends one or
-- more; the inquiry gets one round more than `brk`; `server_loop` and `check_result` get one round
-- more than datagrams arrive, since each round takes one or more; `udp_broadcast_data` gets 254
-- rounds, one for each host. Numbers of machine width are written out (`% 2 ^ 16`).
--
-- Not modelled: a thread that cannot be created; calls with a NULL server, client or packet, which
-- no caller makes; what is printed, but for the services that c/test/client.c shows and what
-- c/test/server.c reports (where a string of a service is NULL, the `printf` of c/test/client.c is
-- undefined behaviour in the model, and those of handle_info and of the two check_result, in
-- c/provider/daemon.c, client.c and server.c, are left out with what they print); failures of
-- `malloc`; in the list and the daemon, the memory of strings and packets (Heap has it for
-- protocal.c, and whole calls count their packets); the Java and Go implementations.
pub mod Base
pub mod CString
pub mod Memory
pub mod ServiceList
pub mod Buffer
pub mod Protocol
pub mod Udp
pub mod Daemon
pub mod Heap
pub mod Resources
pub mod Subnet
pub mod Client
pub mod Register
pub mod Programs
pub mod System
pub mod Testing
