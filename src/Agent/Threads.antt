-- ===== src/Agent/Threads.antt =====
-- main_server.cpp, dns_client.cpp, report_client.cpp and the servers of agent_udp_server.cpp: the
-- three tables of load balancers, with the two queues that they share, and the callbacks that hand
-- messages between the queues, the tables and the clients of the services. A callback is one step:
-- the tables and the queues have their mutexes. The wire format of a message is an argument.
pub mod Answers
pub mod FirstCall
pub mod Reported
pub mod Requests
use lars_system.Base.{
  ℕ, ◌+◌, ◌%◌, ◌==◌, ltb, Bool, true, false, if◌then◌else◌, Option, none, some, List, [], ◌∷◌,
  ◌>>=◌, get_elem?, set, length, replicate,
}
use lars_system.Base.Int.{ℤ, pos}
use lars_system.Base.Run
use lars_system.Base.Run.{Run, done}
use lars_system.Agent.Messages.{
  HostAddr, GetRouteRequest, GetHostResponse, ReportRequest, ReportStatusRequest,
}
use lars_system.Agent.HostInfo.{Config, Rate}
use lars_system.Agent.LoadBalance.{LoadBalance}
use lars_system.Agent.RouteLb.{RouteLb, update_host}
use lars_system.Agent.Api.{agent_index, GetHostRequest, get_host_cb, report_cb}
use lars_system.Reactor.TcpClient.{TcpClient, send_message}
use lars_system.Reactor.ConfigFile.{Text}
use lars_system.Reactor.ConfigFile.Readers.{get_number}
use lars_system.Reactor.ConfigFile

-- `enum MessageId`.
abbrev pub id_get_route_request : ℕ
id_get_route_request = 1

abbrev pub id_report_status_request : ℕ
id_report_status_request = 3

-- `message GetRouteResponse`, as the agent reads it.
pub record GetRouteResponse : Type 0 where
  pub modid : ℕ
  pub cmdid : ℕ
  pub hosts : List HostAddr

-- `r_lb`, `dns_queue` and `report_queue`.
pub record Agent : Type 0 where
  pub r_lb : List (List (ℕ × LoadBalance))
  pub dns_queue : List GetRouteRequest
  pub report_queue : List ReportStatusRequest

-- `create_route_lb`, and the queues that `main` makes.
unfoldable pub new_agent : Agent
new_agent = record { r_lb = replicate 3 []; dns_queue = []; report_queue = [] }

-- One of the tables with the queues, and the agent after an operation on it.
unfoldable pub table : ℕ → Agent → Option RouteLb
table index a = get_elem? a.r_lb index >>= λ m.
    some (record { route_lb_map = m; dns_queue = a.dns_queue; report_queue = a.report_queue })

unfoldable pub with_table : ℕ → RouteLb → Agent → Agent
with_table index s a = record {
  r_lb = set a.r_lb index s.route_lb_map;
  dns_queue = s.dns_queue;
  report_queue = s.report_queue;
}

-- `deal_recv_route`. `none`: the index is before the array, or the table faults.
unfoldable pub deal_recv_route : Config → GetRouteResponse → Agent → Option Agent
unfolding agent_index table with_table update_host
deal_recv_route cfg rsp a = do
  index ← agent_index rsp.modid rsp.cmdid
  s ← table index a
  s' ← update_host cfg rsp.modid rsp.cmdid rsp.hosts s
  some (with_table index s' a)

-- The callbacks of the server `index` of `agent_server_main`, whose argument is `r_lb[index]`.
unfoldable pub serve_get_host :
    Config → ℤ → ℕ → GetHostRequest → Agent → Option (Agent × GetHostResponse)
unfolding table with_table get_host_cb
serve_get_host cfg garbage index req a = do
  s ← table index a
  (s', rsp) ← get_host_cb cfg garbage req s
  some (with_table index s' a, rsp)

unfoldable pub serve_report : Config → ℕ → ℕ → ReportRequest → Agent → Option Agent
unfolding table with_table report_cb
serve_report cfg now index req a = do
  s ← table index a
  s' ← report_cb cfg now req s
  some (with_table index s' a)

module _ {C T : Type 0} where
  -- The loop of `new_dns_request` and of `new_report_request`: each message of the queue is sent, and
  -- what `send_message` returns is not looked at.
  unfoldable pub send_each {ℓ} :
      {M : Type ℓ} → (M → List ℕ) → (ℕ → ℕ) → ℕ → List M → TcpClient C T → Run (TcpClient C T)
  unfolding send_message
  send_each serialize garbage msgid [] c = done c
  send_each serialize garbage msgid (m ∷ ms) c =
      Run.◌>>=◌ (send_message garbage (serialize m) msgid c)
        λ r. send_each serialize garbage msgid ms r.1

  unfoldable pub new_dns_request :
      (GetRouteRequest → List ℕ) → (ℕ → ℕ) → Agent → TcpClient C T → Run (Agent × TcpClient C T)
  unfolding send_each
  new_dns_request serialize garbage a c =
      Run.◌>>=◌ (send_each serialize garbage id_get_route_request a.dns_queue c)
        λ c'. done (record a { dns_queue = [] }, c')

  unfoldable pub new_report_request :
      (ReportStatusRequest → List ℕ) → (ℕ → ℕ) → Agent → TcpClient C T → Run (Agent × TcpClient C T)
  unfolding send_each
  new_report_request serialize garbage a c =
      Run.◌>>=◌ (send_each serialize garbage id_report_status_request a.report_queue c)
        λ c'. done (record a { report_queue = [] }, c')
