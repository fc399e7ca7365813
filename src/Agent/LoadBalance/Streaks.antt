-- ===== src/Agent/LoadBalance/Streaks.antt =====
-- Runs of reports on one host (`report` of load_balance.cpp): a streak of failures takes an idle
-- host out of service, a streak of successes brings an overloaded one back.
use lars_system.Base.{
  ℕ, ◌≡◌, ◌≢◌, ◌⊎◌, inr, true, false, Option, some, List, [], ◌∷◌, arith, ◌≤◌, ◌<◌, ◌+◌, ◌^◌,
  Returns, Returns->>=, Returns-mono, ◌>>=◌, lookup, pack_key, length, ap, inc32,
}
use lars_system.Agent.Messages.{ret_succ}
use lars_system.Agent.HostInfo.{
  Config, HostInfo, tally, is_failing, is_recovered, set_overload, set_idle,
}
use lars_system.Agent.LoadBalance.{LoadBalance, Ptr, report}
use lars_system.Agent.LoadBalance.Invariant.{IsSound}
use lars_system.Agent.LoadBalance.Report.{verdict, report-Judged, Judged}

-- Reports on one host, one after the other.
unfoldable pub reports : Config → ℕ → ℕ → List ℕ → LoadBalance → Option LoadBalance
reports cfg ip port [] lb = some lb
reports cfg ip port (r ∷ rs) lb = do lb' ← report cfg ip port r lb; reports cfg ip port rs lb'

abbrev pub AllFail : List ℕ → Type 0
AllFail [] = Unit {0}
AllFail (r ∷ rs) = (r ≢ ret_succ) × AllFail rs

abbrev pub AllSucceed : List ℕ → Type 0
AllSucceed [] = Unit {0}
AllSucceed (r ∷ rs) = (r ≡ ret_succ) × AllSucceed rs

-- Overloaded, or on the way there with `n` failures left.
abbrev Failing : Config → ℕ → HostInfo → Type 0
Failing cfg n hi =
    (hi.overload ≡ true)
    ⊎ ((hi.overload ≡ false)
        × (hi.contin_err < cfg.contin_err_limit)
        × (cfg.contin_err_limit ≤ hi.contin_err + n))

fail-Failing :
    (cfg : Config) (r n : ℕ) (hi : HostInfo)
    → r ≢ ret_succ
    → cfg.contin_err_limit < 2 ^ 32
    → Failing cfg (n + 1) hi
    → Failing cfg n (verdict cfg r (tally r hi))
unfolding verdict tally is_failing inc32 set_overload
fail-Failing cfg r n hi h lim f = ground arith

-- Idle, or on the way there with `n` successes left.
abbrev Recovering : Config → ℕ → HostInfo → Type 0
Recovering cfg n hi =
    (hi.overload ≡ false)
    ⊎ ((hi.overload ≡ true)
        × (hi.contin_succ < cfg.contin_succ_limit)
        × (cfg.contin_succ_limit ≤ hi.contin_succ + n))

succeed-Recovering :
    (cfg : Config) (r n : ℕ) (hi : HostInfo)
    → r ≡ ret_succ
    → cfg.contin_succ_limit < 2 ^ 32
    → Recovering cfg (n + 1) hi
    → Recovering cfg n (verdict cfg r (tally r hi))
unfolding verdict tally is_recovered inc32 set_idle
succeed-Recovering cfg r n hi h lim f = ground arith

-- The host at `p` has become one with the property.
abbrev pub HostIs : (HostInfo → Type 0) → Ptr → LoadBalance → Type 0
HostIs P p lb = IsSound lb × ((hi : HostInfo) × (lb.heap p ≡ some hi) × P hi)

module _ (cfg : Config) (ip port : ℕ) (p : Ptr) where
  -- One report moves the host from `P` to `Q`.
  report-HostIs :
      (P Q : HostInfo → Type 0) (r : ℕ) (lb : LoadBalance)
      → ((hi : HostInfo) → P hi → Q (verdict cfg r (tally r hi)))
      → lookup (pack_key ip port) lb.host_map ≡ some p
      → HostIs P p lb
      → Returns
          (λ lb'. HostIs Q p lb' × (lookup (pack_key ip port) lb'.host_map ≡ some p))
          (report cfg ip port r lb)
  report-HostIs P Q r lb step e (v, (hi, live, h)) =
      let (hj, livej, _, ran) = report-Judged cfg ip port r lb p v e in
      Returns-mono (Judged cfg r p hj lb) _ (report cfg ip port r lb)
        (λ lb' (v', same, _, heap). (
          (v', (verdict cfg r (tally r hi), ground (arith, heap p, live, livej), step hi h)),
          ground (arith, ap (lookup (pack_key ip port)) same),
        ))
        ran

  reports-Failing :
      (rs : List ℕ) (lb : LoadBalance)
      → AllFail rs
      → cfg.contin_err_limit < 2 ^ 32
      → lookup (pack_key ip port) lb.host_map ≡ some p
      → HostIs (Failing cfg (length rs)) p lb
      → Returns (HostIs (Failing cfg 0) p) (reports cfg ip port rs lb)
  unfolding reports
  reports-Failing [] lb all lim e h = h
  reports-Failing (r ∷ rs) lb all lim e h =
      Returns->>= _ (report cfg ip port r lb) _
        (report-HostIs (Failing cfg (length (r ∷ rs))) (Failing cfg (length rs)) r lb
          (λ hi f. fail-Failing cfg r (length rs) hi all.0 lim (ground arith)) e h)
        λ lb' (h', e'). reports-Failing rs lb' all.1 lim e' h'

  reports-Recovering :
      (rs : List ℕ) (lb : LoadBalance)
      → AllSucceed rs
      → cfg.contin_succ_limit < 2 ^ 32
      → lookup (pack_key ip port) lb.host_map ≡ some p
      → HostIs (Recovering cfg (length rs)) p lb
      → Returns (HostIs (Recovering cfg 0) p) (reports cfg ip port rs lb)
  unfolding reports
  reports-Recovering [] lb all lim e h = h
  reports-Recovering (r ∷ rs) lb all lim e h =
      Returns->>= _ (report cfg ip port r lb) _
        (report-HostIs (Recovering cfg (length (r ∷ rs))) (Recovering cfg (length rs)) r lb
          (λ hi f. succeed-Recovering cfg r (length rs) hi all.0 lim (ground arith)) e h)
        λ lb' (h', e'). reports-Recovering rs lb' all.1 lim e' h'

-- On a sound load balancer whose map has the reported host, idle and short of the limit of
-- failures in a row, enough further failures in a row to reach that limit leave the host
-- overloaded, and the load balancer sound. The limit is a `uint32_t`.
pub reports_overload :
    (cfg : Config) (ip port : ℕ) (p : Ptr) (rs : List ℕ) (lb : LoadBalance) (hi : HostInfo)
    → IsSound lb
    → lookup (pack_key ip port) lb.host_map ≡ some p
    → lb.heap p ≡ some hi
    → hi.overload ≡ false
    → hi.contin_err < cfg.contin_err_limit
    → cfg.contin_err_limit < 2 ^ 32
    → AllFail rs
    → cfg.contin_err_limit ≤ hi.contin_err + length rs
    → Returns (HostIs (λ h. h.overload ≡ true) p) (reports cfg ip port rs lb)
reports_overload cfg ip port p rs lb hi v e live idle short lim all enough =
    Returns-mono (HostIs (Failing cfg 0) p) _ (reports cfg ip port rs lb)
      (λ lb' (v', (h, l, f)). (v', (h, l, ground arith)))
      (reports-Failing cfg ip port p rs lb all lim e (v, (hi, live, inr (idle, short, enough))))

-- On a sound load balancer whose map has the reported host, overloaded and short of the limit of
-- successes in a row, enough further successes in a row to reach that limit leave the host idle, and
-- the load balancer sound. The limit is a `uint32_t`.
pub reports_recover :
    (cfg : Config) (ip port : ℕ) (p : Ptr) (rs : List ℕ) (lb : LoadBalance) (hi : HostInfo)
    → IsSound lb
    → lookup (pack_key ip port) lb.host_map ≡ some p
    → lb.heap p ≡ some hi
    → hi.overload ≡ true
    → hi.contin_succ < cfg.contin_succ_limit
    → cfg.contin_succ_limit < 2 ^ 32
    → AllSucceed rs
    → cfg.contin_succ_limit ≤ hi.contin_succ + length rs
    → Returns (HostIs (λ h. h.overload ≡ false) p) (reports cfg ip port rs lb)
reports_recover cfg ip port p rs lb hi v e live over short lim all enough =
    Returns-mono (HostIs (Recovering cfg 0) p) _ (reports cfg ip port rs lb)
      (λ lb' (v', (h, l, f)). (v', (h, l, ground arith)))
      (reports-Recovering cfg ip port p rs lb all lim e (v, (hi, live, inr (over, short, enough))))
