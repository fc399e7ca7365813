-- ===== src/Agent/Threads/Answers.antt =====
-- The answers of a load balancer that can serve the hosts that it was given.
use lars_system.Base.{
  ℕ, ◌≡◌, refl, inl, inr, true, false, none, some, List, [], arith, lookup, contains, is_nil,
  pack_key, Returns, Returns->>=, Option-cases,
}
use lars_system.Base.Int.{ℤ}
use lars_system.Agent.Messages.{HostAddr, GetHostResponse, ret_succ}
use lars_system.Agent.HostInfo.{Config, host_key}
use lars_system.Agent.LoadBalance.{LoadBalance, pulling, new_load_balance, empty, choice_one_host}
use lars_system.Agent.LoadBalance.Invariant.{IsSound, host_somewhere}
use lars_system.Agent.LoadBalance.ChoiceSafety.{Served, choice-Served}
use lars_system.Agent.LoadBalance.Update.{remote_hosts, update}
use lars_system.Agent.LoadBalance.Update.Dangling.{AllRemote, update-IsSound}
use lars_system.Agent.LoadBalance.Update.Serves.{Serves, update-Serves, update-no_overload}
use lars_system.Agent.RouteLb.{RouteLb, get_host, get_host_known}
use lars_system.Agent.RouteLb.Invariant.{new-IsSound}
use lars_system.Agent.Api.{GetHostRequest, is_for, get_host_cb}

-- A response that succeeds, is for the request, and names one of the hosts.
abbrev pub Names : List HostAddr → GetHostRequest → GetHostResponse → Type 0
Names hosts req rsp =
    (rsp.retcode ≡ ret_succ)
    × (is_for req rsp ≡ true)
    × ((h : HostAddr) × (rsp.host ≡ some h)
        × (contains (pack_key h.ip h.port) (remote_hosts hosts) ≡ true))

-- A load balancer that can serve the hosts, none of which is overloaded.
pub record Fresh (hosts : List HostAddr) (lb : LoadBalance) : Type 0 where
  pub sound : IsSound lb
  pub serves : Serves (remote_hosts hosts) lb
  pub no_overload : lb.overload_list ≡ []

idle_somewhere :
    (hosts : List HostAddr) (lb : LoadBalance) → Fresh hosts lb → is_nil lb.idle_list ≡ false
unfolding empty
idle_somewhere hosts lb f =
    ground (arith, host_somewhere lb f.sound f.serves.some_host, f.no_overload)

named_Names :
    (hosts : List HostAddr) (req : GetHostRequest) (lb lb' : LoadBalance) (ret : ℕ)
    (rsp rsp' : GetHostResponse)
    → Fresh hosts lb
    → is_for req rsp ≡ true
    → Served lb rsp (lb', ret, rsp')
    → Names hosts req (record rsp' { retcode = ret })
unfolding is_for host_key
named_Names hosts req lb lb' ret rsp rsp' f mine (_, _, _, _, inl (ok, (p, hi, live, same))) = (
  ok,
  ground (arith, mine, same),
  (record { ip = hi.ip; port = hi.port }, ground (arith, same), f.serves.only_remote p hi live),
)
named_Names hosts req lb lb' ret rsp rsp' f mine (_, _, _, _, inr (_, _, no_idle)) =
    absurd (ground (arith, idle_somewhere hosts lb f, no_idle))

-- The response before it is filled.
abbrev pub blank : GetHostRequest → GetHostResponse
blank req = record { seq = req.seq; modid = req.modid; cmdid = req.cmdid; retcode = 0; host = none }

pub for_itself : (req : GetHostRequest) → is_for req (blank req) ≡ true
unfolding is_for
for_itself req = ground arith

get_host_known-Names :
    (cfg : Config) (key : ℕ) (hosts : List HostAddr) (req : GetHostRequest) (s : RouteLb)
    (lb : LoadBalance)
    → Fresh hosts lb
    → Returns (λ r. Names hosts req r.2) (get_host_known cfg key lb s (blank req))
unfolding get_host_known
get_host_known-Names cfg key hosts req s lb f = rw f.serves.some_host (
    Returns->>= _ (choice_one_host cfg lb (blank req)) _
      (choice-Served cfg lb (blank req) f.sound f.serves.some_host)
      λ r served. named_Names hosts req lb r.0 r.1 (blank req) r.2 f (for_itself req) served)

get_host-Names :
    (cfg : Config) (garbage : ℤ) (hosts : List HostAddr) (req : GetHostRequest) (s : RouteLb)
    (lb : LoadBalance)
    → lookup (pack_key req.modid req.cmdid) s.route_lb_map ≡ some lb
    → Fresh hosts lb
    → Returns (λ r. Names hosts req r.2) (get_host cfg garbage req.modid req.cmdid s (blank req))
unfolding get_host
get_host-Names cfg garbage hosts req s lb found f =
    rw (found, get_host) (get_host_known-Names cfg _ hosts req s lb f)

pub get_host_cb-Names :
    (cfg : Config) (garbage : ℤ) (hosts : List HostAddr) (req : GetHostRequest) (s : RouteLb)
    (lb : LoadBalance)
    → lookup (pack_key req.modid req.cmdid) s.route_lb_map ≡ some lb
    → Fresh hosts lb
    → Returns (λ r. Names hosts req r.1) (get_host_cb cfg garbage req s)
unfolding get_host_cb
get_host_cb-Names cfg garbage hosts req s lb found f =
    Returns->>= _ (get_host cfg garbage req.modid req.cmdid s (blank req)) _
      (get_host-Names cfg garbage hosts req s lb found f) λ answer names. names

-- The load balancer that a first request makes.
abbrev pub asked : ℕ → ℕ → ℤ → LoadBalance
asked modid cmdid garbage = record (new_load_balance modid cmdid garbage) { status = pulling }

pub update-Fresh :
    (cfg : Config) (modid cmdid : ℕ) (garbage : ℤ) (hosts : List HostAddr)
    → is_nil hosts ≡ false
    → Returns (Fresh hosts) (update cfg hosts (asked modid cmdid garbage))
unfolding new_load_balance lookup
update-Fresh cfg modid cmdid garbage hosts some_host =
    let lb = asked modid cmdid garbage in
    let v = new-IsSound modid cmdid garbage in
    let all : AllRemote hosts lb = λ k. inl refl in
    elim (Option-cases (update cfg hosts lb)) [
      | inl stuck ↦ absurd (rw stuck at (update-Serves cfg hosts lb v some_host all))
      | inr (lb', run) ↦ rw run (record {
        sound = (rw run at (update-IsSound cfg hosts lb v some_host all)).0;
        serves = rw run at (update-Serves cfg hosts lb v some_host all);
        no_overload = update-no_overload cfg hosts lb lb' refl run;
      })
    ]
