-- ===== src/Agent/Threads/Reported.antt =====
-- The way of a report: from the call of the callers' library to the agent's report to the reporter.
use lars_system.Base.{ℕ, ◌≡◌, some, List, lookup, put, get_elem?}
use lars_system.Agent.Messages.{ReportRequest}
use lars_system.Agent.HostInfo.{Config, HostInfo}
use lars_system.Agent.LoadBalance.{LoadBalance, Ptr}
use lars_system.Agent.LoadBalance.Report.{Judged}
use lars_system.Agent.LoadBalance.Commit.{Committed}
use lars_system.Agent.RouteLb.{RouteLb}
use lars_system.Agent.Threads.{Agent}

-- The report of a call.
abbrev pub report_of : ℕ → ℕ → ℕ → ℕ → ℕ → ReportRequest
report_of modid cmdid ip port retcode = record {
  modid = modid;
  cmdid = cmdid;
  host = record { ip = ip; port = port };
  retcode = retcode;
}

-- The load balancer of the pair is the judged one, and its state was put at the end of the queue of
-- the report client.
abbrev pub Reported : Config → ℕ → ℕ → ℕ → ℕ → Ptr → HostInfo → LoadBalance → Agent → Agent → Type 0
Reported cfg now key r index p hi lb a a' =
    (lb' : LoadBalance) × (m' : List (ℕ × LoadBalance)) × (get_elem? a'.r_lb index ≡ some m')
    × (lookup key m' ≡ some lb')
    × Judged cfg r p hi lb lb'
    × Committed cfg now lb' a.report_queue a'.report_queue
    × (a'.dns_queue ≡ a.dns_queue)

-- The same for one of the tables.
abbrev Counted : Config → ℕ → ℕ → ℕ → Ptr → HostInfo → LoadBalance → RouteLb → RouteLb → Type 0
Counted cfg now key r p hi lb s s' =
    (lb' : LoadBalance) × (s'.route_lb_map ≡ put key lb' s.route_lb_map)
    × Judged cfg r p hi lb lb'
    × Committed cfg now lb' s.report_queue s'.report_queue
    × (s'.dns_queue ≡ s.dns_queue)
