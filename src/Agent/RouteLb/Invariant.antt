-- ===== src/Agent/RouteLb/Invariant.antt =====
-- The operations of route_lb.cpp on a table whose load balancers are sound: none of them meets
-- undefined behaviour, and the table stays so.
use mathlib.Core.Option.{some-injective}
use mathlib.Core.Path.{subst}
use lars_system.Base.{
  ◌∙◌, ℕ, ◌≡◌, ◌==◌, refl, ◌⊎◌, inl, inr, true, some, List, arith, ◌>>=◌, lookup, put, erase,
  lookup-put, lookup-erase, pack_key, is_nil, Returns, Returns-mono, Returns->>=, Option-cases,
  Bool-cases, count, keys,
}
use lars_system.Base.Int.{ℤ}
use lars_system.Agent.Messages.{HostAddr, GetHostResponse, ReportRequest}
use lars_system.Agent.HostInfo.{Config}
use lars_system.Agent.LoadBalance.{
  LoadBalance, pulling, new_load_balance, empty, choice_one_host, report, commit,
}
use lars_system.Agent.LoadBalance.Invariant.{IsSound}
use lars_system.Agent.LoadBalance.ChoiceSafety.{choice-Served}
use lars_system.Agent.LoadBalance.Report.{Judged, report-Judged, report-unknown}
use lars_system.Agent.LoadBalance.Commit.{commit-Committed, commit-empty}
use lars_system.Agent.LoadBalance.Update.{update}
use lars_system.Agent.LoadBalance.Update.Dangling.{AllRemote, update-IsSound}
use lars_system.Agent.RouteLb.{
  RouteLb, get_host, get_host_known, get_host_new, update_host, report_host,
}

-- A load balancer that the table may hold.
abbrev pub IsReady : LoadBalance → Type 0
IsReady lb = IsSound lb × (lb.status ≡ pulling)

abbrev pub AllReady : RouteLb → Type 0
AllReady s = (k : ℕ) (lb : LoadBalance) → lookup k s.route_lb_map ≡ some lb → IsReady lb

pub new-IsSound :
    (modid cmdid : ℕ) (garbage : ℤ)
    → IsSound (record (new_load_balance modid cmdid garbage) { status = pulling })
unfolding new_load_balance lookup count keys
new-IsSound modid cmdid garbage = record {
  tidy = record {
    idle_count = λ p. refl;
    overload_count = λ p. refl;
    fresh = λ p h. refl;
    mapped = λ p hi e. cc;
    allocated = λ k p e. ground arith;
    distinct = λ k. ground arith;
  };
  owns = λ k p e. ground arith;
}

put-AllReady :
    (k : ℕ) (lb : LoadBalance) (m : List (ℕ × LoadBalance))
    → ((j : ℕ) (l : LoadBalance) → lookup j m ≡ some l → IsReady l)
    → IsReady lb
    → (j : ℕ) (l : LoadBalance) → lookup j (put k lb m) ≡ some l
    → IsReady l
put-AllReady k lb m all r j l e = elim (Bool-cases (k == j)) [
  | inl same ↦ subst IsReady (some-injective lb l (ground (arith, e, same, lookup-put k j lb m))) r
  | inr other ↦ all j l (ground (arith, e, other, lookup-put k j lb m))
]

erase-AllReady :
    (k : ℕ) (m : List (ℕ × LoadBalance))
    → ((j : ℕ) (l : LoadBalance) → lookup j m ≡ some l → IsReady l)
    → (j : ℕ) (l : LoadBalance) → lookup j (erase k m) ≡ some l
    → IsReady l
erase-AllReady k m all j l e = all j l (ground (arith, e, lookup-erase k j m))

module _ (cfg : Config) (s : RouteLb) (all : AllReady s) where
  known-AllReady :
      (key : ℕ) (lb : LoadBalance) (rsp : GetHostResponse)
      → IsReady lb
      → Returns (λ (s', ret, rsp'). AllReady s') (get_host_known cfg key lb s rsp)
  unfolding get_host_known
  known-AllReady key lb rsp (v, st) = elim (Bool-cases (empty lb)) [
    | inl none_left ↦ rw (none_left, st) all
    | inr some_left ↦ rw some_left (
        Returns->>= _ (choice_one_host cfg lb rsp) _ (choice-Served cfg lb rsp v some_left)
          λ (lb', ret, rsp') (v', _, _, same, _).
            put-AllReady key lb' s.route_lb_map all (v', same ∙ st))
  ]

  -- `get_host` answers on every table of sound load balancers, for a pair that it knows or not, and
  -- the table stays one.
  pub get_host-AllReady :
      (garbage : ℤ) (modid cmdid : ℕ) (rsp : GetHostResponse)
      → Returns (λ (s', ret, rsp'). AllReady s') (get_host cfg garbage modid cmdid s rsp)
  unfolding get_host get_host_new
  get_host-AllReady garbage modid cmdid rsp =
      elim (Option-cases (lookup (pack_key modid cmdid) s.route_lb_map)) [
        | inl missing ↦
            rw (missing, get_host)
              (put-AllReady _ _ s.route_lb_map all (new-IsSound modid cmdid garbage, refl))
        | inr (lb, found) ↦ rw (found, get_host) (known-AllReady _ lb rsp (all _ lb found))
      ]

  reported-AllReady :
      (now k : ℕ) (lb : LoadBalance)
      → IsReady lb
      → Returns AllReady (do
        queue ← commit cfg now lb s.report_queue
        some (record s { route_lb_map = put k lb s.route_lb_map; report_queue = queue }))
  reported-AllReady now k lb r = elim (Bool-cases (empty lb)) [
    | inl h ↦ rw (commit-empty cfg now lb s.report_queue h) (put-AllReady k lb s.route_lb_map all r)
    | inr h ↦
        Returns->>= _ (commit cfg now lb s.report_queue) _
          (commit-Committed cfg now lb s.report_queue r.0.tidy h)
          λ queue _. put-AllReady k lb s.route_lb_map all r
  ]

  report-IsReady :
      (ip port r : ℕ) (lb : LoadBalance) → IsReady lb → Returns IsReady (report cfg ip port r lb)
  report-IsReady ip port r lb (v, st) =
      elim (Option-cases (lookup (pack_key ip port) lb.host_map)) [
        | inl missing ↦ rw (report-unknown cfg ip port r lb missing) (v, st)
        | inr (p, found) ↦
            let (hi, live, key, ran) = report-Judged cfg ip port r lb p v found in
            Returns-mono (Judged cfg r p hi lb) _ (report cfg ip port r lb)
              (λ lb' (v', _, same, _). (v', same ∙ st)) ran
      ]

  -- `report_host` succeeds on every table of sound load balancers, for a pair or a host that it knows
  -- or not, and the table stays one.
  pub report_host-AllReady :
      (now : ℕ) (req : ReportRequest) → Returns AllReady (report_host cfg now req s)
  unfolding report_host
  report_host-AllReady now req =
      elim (Option-cases (lookup (pack_key req.modid req.cmdid) s.route_lb_map)) [
        | inl missing ↦ rw (missing, report_host) all
        | inr (lb, found) ↦
            rw (found, report_host)
              (Returns->>= _ (report cfg req.host.ip req.host.port req.retcode lb) _
                (report-IsReady req.host.ip req.host.port req.retcode lb (all _ lb found))
                λ lb' r. reported-AllReady now _ lb' r)
      ]

  -- `update_host` succeeds on every table of sound load balancers, and the table stays one, if the
  -- response is empty or leaves out no host that the pair's load balancer has.
  pub update_host-AllReady :
      (modid cmdid : ℕ) (hosts : List HostAddr)
      → ((lb : LoadBalance)
          → lookup (pack_key modid cmdid) s.route_lb_map ≡ some lb
          → (is_nil hosts ≡ true) ⊎ AllRemote hosts lb)
      → Returns AllReady (update_host cfg modid cmdid hosts s)
  unfolding update_host
  update_host-AllReady modid cmdid hosts grows =
      elim (Option-cases (lookup (pack_key modid cmdid) s.route_lb_map)) [
        | inl missing ↦ rw (missing, update_host) all
        | inr (lb, found) ↦
            rw (found, update_host)
              (elim (Bool-cases (is_nil hosts)) [
                | inl none_left ↦ rw none_left (erase-AllReady _ s.route_lb_map all)
                | inr some_left ↦ rw some_left (
                    Returns->>= _ (update cfg hosts lb) _
                      (update-IsSound cfg hosts lb (all _ lb found).0 some_left
                        (ground (arith, grows lb found, some_left)))
                      λ lb' (v', same).
                        put-AllReady _ lb' s.route_lb_map all (v', same ∙ (all _ lb found).1))
              ])
      ]
