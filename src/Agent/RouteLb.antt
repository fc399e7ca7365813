-- ===== src/Agent/RouteLb.antt =====
-- route_lb.h and route_lb.cpp: the load balancers of many module/command pairs, behind a mutex that
-- each operation holds from start to end, so that an operation is one step. The map owns its load
-- balancers. The queues to the DNS client and to the report client are handed through.
pub mod Invariant
pub mod Pulls
use lars_system.Base.{
  ℕ, suc, ◌+◌, ◌≡◌, ◌==◌, Bool, true, false, not, Option, none, some, List, [], ◌∷◌, ◌++◌,
  if◌then◌else◌, ◌>>=◌, lookup, put, erase, pack_key, is_nil,
}
use lars_system.Base.Int.{ℤ}
use lars_system.Agent.Messages.{
  HostAddr, GetRouteRequest, GetHostResponse, ReportRequest, ReportStatusRequest, ret_succ,
  ret_noexist,
}
use lars_system.Agent.HostInfo.{Config}
use lars_system.Agent.LoadBalance.{
  LoadBalance, Status, new_load_balance, empty, choice_one_host, pull, report, commit,
}
use lars_system.Agent.LoadBalance.Update.{update}

pub record RouteLb : Type 0 where
  pub route_lb_map : List (ℕ × LoadBalance)
  pub dns_queue : List GetRouteRequest
  pub report_queue : List ReportStatusRequest

unfoldable pub is_pulling : Status → Bool
is_pulling Status.pulling = true
is_pulling Status.unset = false
is_pulling Status.new = false

abbrev pub with_retcode : GetHostResponse → ℕ → GetHostResponse
with_retcode rsp ret = record rsp { retcode = ret }

-- The new state, the return value and the response.
abbrev pub Answered : Type 0
Answered = RouteLb × ℕ × GetHostResponse

-- `get_host` for a pair that has a load balancer.
unfoldable pub get_host_known :
    Config → ℕ → LoadBalance → RouteLb → GetHostResponse → Option Answered
unfolding is_pulling
get_host_known cfg key lb s rsp =
    if empty lb
    then if is_pulling lb.status then some (s, ret_succ, with_retcode rsp ret_noexist) else none
    else (do
      (lb', ret, rsp') ← choice_one_host cfg lb rsp
      some (record s { route_lb_map = put key lb' s.route_lb_map }, ret, with_retcode rsp' ret))

-- `get_host` for a pair that has none: one is made, and its hosts are asked for.
unfoldable pub get_host_new : ℤ → ℕ → ℕ → RouteLb → GetHostResponse → Option Answered
unfolding pull new_load_balance
get_host_new garbage modid cmdid s rsp =
    let (lb, queue) = pull (new_load_balance modid cmdid garbage) s.dns_queue in
    some (
      record s { route_lb_map = put (pack_key modid cmdid) lb s.route_lb_map; dns_queue = queue },
      ret_noexist,
      with_retcode rsp ret_noexist,
    )

unfoldable pub get_host : Config → ℤ → ℕ → ℕ → RouteLb → GetHostResponse → Option Answered
unfolding get_host_known get_host_new
get_host cfg garbage modid cmdid s rsp = elim (lookup (pack_key modid cmdid) s.route_lb_map) [
  | some lb ↦ get_host_known cfg (pack_key modid cmdid) lb s rsp
  | none ↦ get_host_new garbage modid cmdid s rsp
]

-- A response of the DNS service. Its return value, always 0, is left out.
unfoldable pub update_host : Config → ℕ → ℕ → List HostAddr → RouteLb → Option RouteLb
update_host cfg modid cmdid hosts s = elim (lookup (pack_key modid cmdid) s.route_lb_map) [
  | none ↦ some s
  | some lb ↦
      if is_nil hosts
      then some (record s { route_lb_map = erase (pack_key modid cmdid) s.route_lb_map })
      else (do
        lb' ← update cfg hosts lb
        some (record s { route_lb_map = put (pack_key modid cmdid) lb' s.route_lb_map }))
]

-- A call that the API reports. `now` is the time of the commit.
unfoldable pub report_host : Config → ℕ → ReportRequest → RouteLb → Option RouteLb
report_host cfg now req s = elim (lookup (pack_key req.modid req.cmdid) s.route_lb_map) [
  | none ↦ some s
  | some lb ↦ do
    lb' ← report cfg req.host.ip req.host.port req.retcode lb
    queue ← commit cfg now lb' s.report_queue
    some (record s {
      route_lb_map = put (pack_key req.modid req.cmdid) lb' s.route_lb_map;
      report_queue = queue;
    })
]
