-- ===== src/Agent/MoreTests.antt =====
-- Requests, reports and tables of load balancers on concrete inputs.
use native.Mathlib.Omega.{arith}
use mathlib.Core.Path.{subst}
use mathlib.Core.Option.{some-injective}
use lars_system.Base.{
  ◌==◌, Bool-cases, ◌⊎◌, add32, inc32, remove, ℕ, ◌≡◌, refl, inl, inr, none, some, [], ◌∷◌, ◌++◌,
  lookup, put, keys, contains, insert, pack_key, length, if◌then◌else◌, true, false, Returns,
  result_or, Returns-result_or,
}
use lars_system.Base.Int.{pos}
use lars_system.Agent.Messages.{GetHostResponse, ReportRequest, ret_succ, ret_noexist}
use lars_system.Agent.HostInfo.{HostInfo, tally, is_failing}
use lars_system.Agent.LoadBalance.{
  pull, LoadBalance, choice_one_host, report, new_load_balance, pulling, probe_due,
}
use lars_system.Agent.LoadBalance.Invariant.{IsTidy, IsSound}
use lars_system.Agent.LoadBalance.Update.{update, remote_hosts}
use lars_system.Agent.LoadBalance.Update.Outcome.{Updated, update-Updated}
use lars_system.Agent.LoadBalance.Update.Dangling.{AllRemote, IsDangling, update-IsDangling}
use lars_system.Agent.LoadBalance.RoundRobin.{
  choices, NamesAll, choices-round_robin, choice-probe_lost,
}
use lars_system.Agent.LoadBalance.Streaks.{reports, HostIs, reports_overload}
use lars_system.Agent.LoadBalance.Choice.{named}
use lars_system.Agent.RouteLb.{get_host_new, RouteLb, get_host, update_host}
use lars_system.Agent.RouteLb.Invariant.{IsReady, AllReady, update_host-AllReady}
use lars_system.Agent.Api.{
  GetHostRequest, response, is_for, host_or_default, api_get_host, get_host_cb,
}
use lars_system.Agent.Api.Calls.{responses, api_get_host-answered, get_host_cb-answers}
use lars_system.Agent.RouteLb.Pulls.{known, get_host_pulls}
use lars_system.Agent.Tests.{
  test_config, host_a, host_b, blank, two_idle, two_idle-IsSound, two_idle-lookup,
}

update-Updated_example :
    Returns
      (Updated (remote_hosts (host_a ∷ [])) two_idle)
      (update test_config (host_a ∷ []) two_idle)
update-Updated_example = update-Updated test_config (host_a ∷ []) two_idle two_idle-IsSound refl

choices-round_robin_example :
    Returns
      (λ (lb', rs). NamesAll two_idle.heap two_idle.idle_list rs × (lb' ≡ two_idle))
      (choices test_config (length two_idle.idle_list) two_idle blank)
unfolding two_idle new_load_balance update put keys contains insert pack_key lookup
choices-round_robin_example =
    choices-round_robin test_config two_idle blank two_idle-IsSound.tidy refl

-- The host 10:80 after three failures in a row.
unfoldable one_over : LoadBalance
one_over = result_or (reports test_config 10 80 (1 ∷ 1 ∷ 1 ∷ []) two_idle) two_idle

abbrev host_a_new : HostInfo
host_a_new = record {
  ip = 10;
  port = 80;
  vsucc = 180;
  verr = 0;
  rsucc = 0;
  rerr = 0;
  contin_succ = 0;
  contin_err = 0;
  overload = false;
}

reports_overload_example :
    Returns
      (HostIs (λ h. h.overload ≡ true) 0)
      (reports test_config 10 80 (1 ∷ 1 ∷ 1 ∷ []) two_idle)
unfolding two_idle new_load_balance update put keys contains insert pack_key lookup
reports_overload_example =
    reports_overload test_config 10 80 0 (1 ∷ 1 ∷ 1 ∷ []) two_idle host_a_new two_idle-IsSound refl
      refl refl (omega arith) (omega arith)
      ((λ e. ground (arith, e)), ((λ e. ground (arith, e)), ((λ e. ground (arith, e)), tt)))
      (omega arith)

one_over-IsSound : IsSound one_over
unfolding one_over
one_over-IsSound =
    (Returns-result_or _ (reports test_config 10 80 (1 ∷ 1 ∷ 1 ∷ []) two_idle) two_idle
      reports_overload_example).0

choice-probe_lost_example :
    Returns
      (λ (lb', ret, rsp').
        (ret ≡ ret_succ)
        × ((r : ℕ) × (hi : HostInfo) × (one_over.heap r ≡ some hi)
            × (hi.overload ≡ false)
            × (rsp' ≡ named blank hi))
        × (lb'.overload_list ≡ (if probe_due test_config one_over then [] ++ 0 ∷ [] else 0 ∷ [])))
      (choice_one_host test_config one_over blank)
unfolding one_over reports report two_idle new_load_balance update put keys contains insert pack_key
    lookup tally is_failing add32 inc32 remove
choice-probe_lost_example =
    choice-probe_lost test_config one_over blank 1 0 [] [] one_over-IsSound.tidy refl refl

abbrev host_a_over : HostInfo
host_a_over = result_or (one_over.heap 0) host_a_new

-- One overloaded host and none that is idle.
abbrev only_over : LoadBalance
only_over = record (new_load_balance 1 2 (pos 0)) {
  overload_list = 0 ∷ [];
  heap = λ p. some (record host_a_new { overload = true });
}

-- After a response that has host 10:80 only.
unfoldable shrunk : LoadBalance
shrunk = result_or (update test_config (host_a ∷ []) two_idle) two_idle

shrunk-IsTidy : IsTidy shrunk
unfolding shrunk
shrunk-IsTidy =
    (Returns-result_or _ (update test_config (host_a ∷ []) two_idle) two_idle
      update-Updated_example).0

shrunk-IsDangling : IsDangling (pack_key 11 80) shrunk
unfolding shrunk contains insert pack_key remote_hosts
shrunk-IsDangling = Returns-result_or _ (update test_config (host_a ∷ []) two_idle) two_idle (
    update-IsDangling test_config (host_a ∷ []) two_idle (pack_key 11 80) 1 two_idle-IsSound refl
      two_idle-lookup refl)

abbrev again : LoadBalance
again = result_or (update test_config (host_a ∷ host_b ∷ []) shrunk) shrunk

-- A table with the pair 1, 2.
abbrev one_pair : RouteLb
one_pair = record {
  route_lb_map = (pack_key 1 2, two_idle) ∷ [];
  dns_queue = [];
  report_queue = [];
}

two_idle-status : two_idle.status ≡ pulling
unfolding two_idle new_load_balance update put keys contains insert pack_key lookup
two_idle-status = refl

one_pair-only :
    (k : ℕ) (lb : LoadBalance) → lookup k one_pair.route_lb_map ≡ some lb → two_idle ≡ lb
unfolding lookup
one_pair-only k lb e = elim (Bool-cases (pack_key 1 2 == k)) [
  | inl same ↦ some-injective two_idle lb (ground (arith, same, e))
  | inr other ↦ absurd (ground (arith, other, e))
]

one_pair-AllReady : AllReady one_pair
one_pair-AllReady k lb e = subst IsReady (one_pair-only k lb e) (two_idle-IsSound, two_idle-status)

abbrev one_report : ReportRequest
one_report = record { modid = 1; cmdid = 2; host = host_a; retcode = 1 }

two_idle-AllRemote : AllRemote (host_a ∷ host_b ∷ []) two_idle
unfolding two_idle new_load_balance update put keys contains insert pack_key lookup remote_hosts
two_idle-AllRemote k = ground arith

update_host-AllReady_example :
    Returns AllReady (update_host test_config 1 2 (host_a ∷ host_b ∷ []) one_pair)
update_host-AllReady_example =
    update_host-AllReady test_config one_pair one_pair-AllReady 1 2 (host_a ∷ host_b ∷ []) (λ lb e.
      inr (
        subst (AllRemote (host_a ∷ host_b ∷ [])) (one_pair-only (pack_key 1 2) lb e)
          two_idle-AllRemote))

abbrev no_pair : RouteLb
no_pair = record { route_lb_map = []; dns_queue = []; report_queue = [] }

abbrev new_pair : RouteLb
new_pair = record {
  route_lb_map = (pack_key 1 2, record (new_load_balance 1 2 (pos 0)) { status = pulling }) ∷ [];
  dns_queue = record { modid = 1; cmdid = 2 } ∷ [];
  report_queue = [];
}

abbrev refused : GetHostResponse
refused = record blank { retcode = ret_noexist }

get_host_pulls_example :
    (new_pair.dns_queue
      ≡ (if known (pack_key 1 2) no_pair then [] else [] ++ record { modid = 1; cmdid = 2 } ∷ []))
    × (known (pack_key 1 2) new_pair ≡ true)
    × ((k : ℕ)
        → ((pack_key 1 2 == k) ≡ true)
          ⊎ (lookup k new_pair.route_lb_map ≡ lookup k no_pair.route_lb_map))
unfolding get_host get_host_new lookup put pull
get_host_pulls_example =
    get_host_pulls test_config (pos 0) 1 2 no_pair new_pair blank refused ret_noexist refl

abbrev one_request : GetHostRequest
one_request = record { seq = 7; modid = 1; cmdid = 2 }

get_host_cb-answers_example :
    Returns
      (λ r. AllReady r.0 × (is_for one_request r.1 ≡ true))
      (get_host_cb test_config (pos 0) one_request one_pair)
get_host_cb-answers_example =
    get_host_cb-answers test_config (pos 0) one_request one_pair one_pair-AllReady

abbrev old_response : GetHostResponse
old_response = record { seq = 6; modid = 1; cmdid = 2; retcode = 1; host = none }

abbrev own_response : GetHostResponse
own_response = record { seq = 7; modid = 1; cmdid = 2; retcode = 0; host = some host_a }

api_get_host-answered_example :
    api_get_host 1 2 true (responses (old_response ∷ []) ++ response own_response ∷ []) 7
    ≡ some ((0, some host_a), inc32 7)
unfolding is_for host_or_default
api_get_host-answered_example =
    api_get_host-answered 1 2 7 (old_response ∷ []) own_response [] (omega arith, tt) refl
