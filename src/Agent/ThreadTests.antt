-- ===== src/Agent/ThreadTests.antt =====
-- The tables of the agent, its queues and their clients on concrete inputs.
use lars_system.Agent.HostInfo.{HostInfo}
use lars_system.Agent.Api.{GetHostRequest, agent_index}
use lars_system.Agent.Threads.{Agent, new_agent, serve_get_host, new_dns_request}
use lars_system.Agent.Threads.Reported.{Reported}
use lars_system.Agent.Tests.{two_idle, test_config, host_a, host_b}
use native.Mathlib.Omega.{arith}
use lars_system.Base.{pack_key, ℕ, ◌≡◌, refl, none, some, List, [], ◌∷◌, lookup, replicate, Returns}
use lars_system.Base.Int.{pos}
use lars_system.Base.Run.{Safe}
use lars_system.Reactor.BufPool.{new_buf_pool}
use lars_system.Reactor.BufPool.Stock.{new_buf_pool-IsStocked}
use lars_system.Reactor.Message.{head_bytes, int_bytes}
use lars_system.Reactor.EventLoop.{new_event_loop}
use lars_system.Reactor.TcpClient.{TcpClient}
use lars_system.Reactor.TcpConn.Framing.{wire}
use lars_system.Agent.Messages.{GetRouteRequest}
use lars_system.Agent.Threads.FirstCall.{GetsServed, first_call-GetsServed}
use lars_system.Agent.Threads.Requests.{
  EndsEach, AllQueued, waiting_requests, new_dns_request-AllQueued,
}

abbrev request : GetHostRequest
request = record { seq = 1; modid = 4; cmdid = 3 }

first_call-GetsServed_example :
    Returns
      (GetsServed test_config
        (pos 0)
        1
        (host_a ∷ host_b ∷ [])
        request
        (record request { seq = 2 })
        new_agent)
      (serve_get_host test_config (pos 0) 1 request new_agent)
unfolding new_agent agent_index lookup
first_call-GetsServed_example =
    first_call-GetsServed test_config (pos 0) 1 2 (host_a ∷ host_b ∷ []) request new_agent [] refl
      refl refl refl

abbrev blank : ℕ → ℕ
blank i = 0

abbrev client : TcpClient Unit Unit
client = record {
  sockfd = some 5;
  ibuf = none;
  obuf = none;
  pool = new_buf_pool blank;
  loop = new_event_loop;
  closed = [];
}

abbrev asking : Agent
asking = record {
  r_lb = replicate 3 [];
  dns_queue = record { modid = 4; cmdid = 3 } ∷ record { modid = 1; cmdid = 2 } ∷ [];
  report_queue = [];
}

abbrev two_numbers : GetRouteRequest → List ℕ
two_numbers r = r.modid ∷ r.cmdid ∷ []

new_dns_request-AllQueued_example :
    Safe
      (EndsEach blank (waiting_requests two_numbers asking) client)
      (λ r.
        (r.0 ≡ record asking { dns_queue = [] })
        × AllQueued (waiting_requests two_numbers asking) client r.1)
      (new_dns_request two_numbers blank asking client)
unfolding wire head_bytes int_bytes
new_dns_request-AllQueued_example =
    new_dns_request-AllQueued two_numbers blank asking client
      (record { stocked = new_buf_pool-IsStocked blank; block = tt }) tt (omega arith)

-- The second table has the pair 4, 3.
abbrev serving : Agent
serving = record {
  r_lb = [] ∷ ((pack_key 4 3, two_idle) ∷ []) ∷ [] ∷ [];
  dns_queue = [];
  report_queue = [];
}
