-- ===== src/Lib.antt =====
-- A model of Lars, a load-balancing system: agents on the hosts of the callers choose a host for each
-- call, a DNS service tells the agents which hosts serve a module/command pair, and a reactor library
-- carries their messages. Paths are those of the repository.
--
-- The parts and how they interact. A caller asks its agent for a host of a pair (get_host) and
-- reports how the call went (report_host). The agent keeps a load balancer for each pair; a new one
-- asks the DNS service for its hosts (pull), whose answer and later pushes come back as update_host.
-- The DNS service answers from a table that a thread loads from MySQL, and pushes changes to the
-- clients that subscribed to a pair by asking for it. All services are built from the reactor: event
-- loops call the callbacks of descriptors, threads get connections and tasks through queues, and
-- each connection has an input and an output buffer whose blocks come from one pool.
-- The agent's three tables, one for each UDP port, share two queues, which two of its threads send to
-- the DNS service and to the reporter; the reporter spreads the reports over threads that store them
-- in MySQL.
--
-- Files. Base has the shared helpers: Base/Tests, Base/Lists, Base/Maps, Base/Sets (Boolean tests,
-- lists, maps and maps of sets), Base/Words (machine words, the 64-bit keys of pairs, the codes of
-- texts), Base/Int, and Base/Run (code that may end the process, and interrupted system calls).
--   Agent/Messages        Lars/base/proto/lars.proto, the messages of the agent
--   Agent/HostInfo        Lars/lars_lb_agent: include/host_info.h, src/host_info.cpp,
--                         load_balance_config of include/main_server.h
--   Agent/LoadBalance     Lars/lars_lb_agent: include/load_balance.h, src/load_balance.cpp;
--                         `update` is in its child Update
--   Agent/RouteLb         Lars/lars_lb_agent: include/route_lb.h, src/route_lb.cpp
--   Agent/Api             Lars/api/cpp/lars_api/lars_api.cpp, and the callbacks of
--                         Lars/lars_lb_agent/src/agent_udp_server.cpp
--   Agent/Threads         Lars/lars_lb_agent/src: main_server.cpp (the tables and queues),
--                         dns_client.cpp, report_client.cpp, agent_udp_server.cpp (the servers)
--   Agent/Setup           Lars/lars_lb_agent/src/main_server.cpp (init_lb_agent)
--   Dns/Messages          Lars/base/proto/lars.proto, the messages of the DNS service
--   Dns/SubscribeList     Lars/lars_dns: include/subscribe.h, src/subscribe.cpp
--   Dns/Route             Lars/lars_dns: include/dns_route.h, src/dns_route.cpp
--   Dns/Service           Lars/lars_dns/src/dns_service.cpp
--   Reporter/Store        Lars/lars_reporter: include/store_report.h, src/store_report.cpp
--   Reporter/Service      Lars/lars_reporter/src: reporter_service.cpp, store_thread.cpp
--   Reactor/IoBuf         Lars/lars_reactor: include/io_buf.h, src/io_buf.cpp
--   Reactor/BufPool       Lars/lars_reactor: include/buf_pool.h, src/buf_pool.cpp
--   Reactor/ReactorBuf    Lars/lars_reactor: include/reactor_buf.h, src/reactor_buf.cpp
--   Reactor/Message       Lars/lars_reactor/include/message.h
--   Reactor/TcpConn       Lars/lars_reactor: include/tcp_conn.h, src/tcp_conn.cpp; its child Link
--                         has two connections with a stream between them
--   Reactor/TcpClient     Lars/lars_reactor: include/tcp_client.h, src/tcp_client.cpp
--   Reactor/Udp           Lars/lars_reactor: include/udp_server.h, udp_client.h,
--                         src/udp_server.cpp, udp_client.cpp
--   Reactor/EventLoop     Lars/lars_reactor: include/event_loop.h, event_base.h, src/event_loop.cpp
--   Reactor/ThreadPool    Lars/lars_reactor: include/thread_pool.h, thread_queue.h, task_msg.h,
--                         src/thread_pool.cpp
--   Reactor/TcpServer     Lars/lars_reactor: include/tcp_server.h, src/tcp_server.cpp
--   Reactor/ConfigFile    Lars/lars_reactor: include/config_file.h, src/config_file.cpp
-- An operation has its name in the source, in snake case; its state is the record of its class and
-- is passed on explicitly. The children of a module have its proofs. The modules whose names end in
-- Tests apply theorems to concrete inputs.
--
-- Conventions. An `int` or `uint32_t` of a message is its 32-bit pattern, and a key is a number
-- below 2^64; counters wrap where the source's do. The probe counter of a load balancer is an
-- integer, since its first value is not set. Lengths of buffers are far below 2^31. Memory is a
-- heap from addresses to live objects, where addresses and lifetimes matter (load_balance.cpp), and
-- else the value itself. A failed assertion or undefined behaviour is `none` or `faults`; the
-- process's own exit is `dies`. Operations that hold a mutex from start to end are one step;
-- `push_change_task` and `get_report_status`, which do not, are in parts, with those of other
-- threads in between, and as a run of their own. Maps and sets iterate in the order of their lists.
-- What the kernel and MySQL answer are arguments; so are uninitialised memory, the comparison of
-- floating-point rates, and the parsing of numbers.
--
-- Loops are recursion on the list that they go through, or on what the kernel answers (`accept`,
-- `write`, `recvfrom`), save three on fuel. `read_messages`: each turn takes the eight bytes of a head,
-- so the length of the buffer, which do_read gives, is enough. `string_list`: each turn but the last
-- takes a separator and a character before it or after it, so the length of the text is enough.
-- `digits`: ten, since a 32-bit number has at most ten digits. `event_process` never ends; it is a
-- relation of turns.
--
-- Not modelled: what a callback does to the connection whose `do_read` calls it; the start hook of
-- server connections; set-up of sockets, threads and database connections, the constructors of the
-- servers and `main` of each program; logging; the wire format of protobuf, and the generated and
-- third-party code (protobuf, the MySQL client); examples and manual tests.
pub mod Base
pub mod Agent
pub mod Reactor
pub mod Reporter
pub mod Dns
