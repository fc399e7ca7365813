-- ===== src/Agent/LoadBalance/Report.antt =====
-- `report` of load_balance.cpp: how a reported call moves its host between the queues.
use lars_system.Base.{
  keys, ℕ, ◌≡◌, inl, inr, not, ◌&&◌, none, some, [], ◌∷◌, arith, ◌==◌, if◌then◌else◌, Returns,
  Bool-cases, count, lookup, count-append, count-remove, pack_key, ap, sym, ◌∙◌,
}
use lars_system.Agent.Messages.{ret_succ}
use lars_system.Agent.HostInfo.{
  Config, HostInfo, tally, is_failing, is_recovered, set_overload, set_idle, host_key,
}
use lars_system.Agent.LoadBalance.{LoadBalance, Ptr, write, settle, report}
use lars_system.Agent.LoadBalance.Invariant.{IsTidy, IsSound, Owned, idle_of, overload_of}

-- What a counted call makes of its host.
unfoldable pub verdict : Config → ℕ → HostInfo → HostInfo
unfolding set_overload set_idle
verdict cfg retcode hi =
    if hi.overload
    then if (retcode == ret_succ) && is_recovered cfg hi then set_idle cfg hi else hi
    else if not (retcode == ret_succ) && is_failing cfg hi
    then set_overload cfg hi
    else hi

host_key-verdict :
    (cfg : Config) (r : ℕ) (hi : HostInfo) → host_key (verdict cfg r (tally r hi)) ≡ host_key hi
unfolding verdict host_key tally
host_key-verdict cfg r hi = ground arith

module _ (cfg : Config) (r : ℕ) (p : Ptr) (lb : LoadBalance) (hi : HostInfo)
    (live : lb.heap p ≡ some hi) where
  after : LoadBalance
  unfolding settle tally write
  after = settle cfg r p (tally r hi) (record lb { heap = write lb.heap p (some (tally r hi)) })

  after-heap :
      (q : Ptr) → after.heap q ≡ (if p == q then some (verdict cfg r (tally r hi)) else lb.heap q)
  unfolding after verdict
  after-heap q = ground arith

  after-map : (after.host_map ≡ lb.host_map) × (after.next ≡ lb.next) × (after.status ≡ lb.status)
  unfolding after
  after-map = ground arith

  after-idle : (q : Ptr) → IsTidy lb → count q after.idle_list ≡ idle_of (after.heap q)
  unfolding after count
  after-idle q v =
      ground
        (arith, v.idle_count q, count-remove q p lb.idle_list, count-append q lb.idle_list (p ∷ []))

  after-overload : (q : Ptr) → IsTidy lb → count q after.overload_list ≡ overload_of (after.heap q)
  unfolding after count
  after-overload q v = ground (
    arith,
    v.overload_count q,
    count-remove q p lb.overload_list,
    count-append q lb.overload_list (p ∷ []),
  )

  after-IsTidy : IsTidy lb → IsTidy after
  after-IsTidy v = record {
    idle_count = λ q. after-idle q v;
    overload_count = λ q. after-overload q v;
    fresh = λ q h. ground (arith, after-heap q, after-map, v.fresh q);
    mapped = λ q hq e. ground (
      arith,
      after-heap q,
      after-map,
      v.mapped q hq,
      v.mapped p hi live,
      host_key-verdict cfg r hi,
      ap (λ m. lookup (host_key hq) m) after-map.0,
    );
    allocated = λ k q e. ground (arith, v.allocated k q, after-map, ap (lookup k) after-map.0);
    distinct = λ k. ground (arith, v.distinct k, ap (λ m. count k (keys m)) after-map.0);
  }

  after-owns :
      IsSound lb → (k : ℕ) (q : Ptr) → lookup k after.host_map ≡ some q → Owned after.heap k q
  after-owns v k q e =
      let (hq, liveq, key) = v.owns k q (ap (lookup k) (sym after-map.0) ∙ e) in
      elim (Bool-cases (p == q)) [
        | inl same ↦ (
          verdict cfg r (tally r hi),
          ground (arith, after-heap q, same),
          ground (arith, same, live, liveq, key, host_key-verdict cfg r hi),
        )
        | inr other ↦ (hq, ground (arith, after-heap q, other, liveq), key)
      ]

  after-IsSound : IsSound lb → IsSound after
  after-IsSound v = record { tidy = after-IsTidy v.tidy; owns = after-owns v }

-- The host at `p` is counted and judged, and no other host changes; the map stays as it is.
abbrev pub Judged : Config → ℕ → Ptr → HostInfo → LoadBalance → LoadBalance → Type 0
Judged cfg r p hi lb lb' =
    IsSound lb'
    × (lb'.host_map ≡ lb.host_map)
    × (lb'.status ≡ lb.status)
    × ((q : Ptr) → lb'.heap q ≡ (if p == q then some (verdict cfg r (tally r hi)) else lb.heap q))

pub report-Judged :
    (cfg : Config) (ip port r : ℕ) (lb : LoadBalance) (p : Ptr)
    → IsSound lb
    → lookup (pack_key ip port) lb.host_map ≡ some p
    → (hi : HostInfo) × (lb.heap p ≡ some hi)
      × (host_key hi ≡ pack_key ip port)
      × Returns (Judged cfg r p hi lb) (report cfg ip port r lb)
unfolding report after
report-Judged cfg ip port r lb p v e =
    let (hi, live, key) = v.owns _ p e in
    (
      hi,
      live,
      key,
      rw (e, report, live)
          (
            after-IsSound cfg r p lb hi live v,
            (after-map cfg r p lb hi live).0,
            (after-map cfg r p lb hi live).2,
            after-heap cfg r p lb hi live,
          ),
    )

-- A report on a host that is not in the map changes nothing.
pub report-unknown :
    (cfg : Config) (ip port r : ℕ) (lb : LoadBalance)
    → lookup (pack_key ip port) lb.host_map ≡ none
    → report cfg ip port r lb ≡ some lb
unfolding report
report-unknown cfg ip port r lb e = rw (e, report)
