-- ===== src/Agent/LoadBalance/Update/Deletes.antt =====
-- The second loop of `load_balance::update`: the hosts of the collected keys are freed.
use lars_system.Base.{
  ℕ, ◌≡◌, refl, inl, inr, false, Option, none, some, List, [], ◌∷◌, arith, ◌==◌, if◌then◌else◌,
  count, lookup, keys, contains, count-remove, ap, Option-cases, ◌∙◌, Returns, Returns-mono,
  Returns->>=,
}
use lars_system.Agent.HostInfo.{HostInfo, host_key}
use lars_system.Agent.LoadBalance.{LoadBalance, Ptr}
use lars_system.Agent.LoadBalance.Invariant.{IsTidy, Owned, idle_of, overload_of}
use lars_system.Agent.LoadBalance.Update.{free_host, delete_host, delete_hosts}

-- What an address holds once the hosts of the keys are freed.
abbrev pub purge : List ℕ → Option HostInfo → Option HostInfo
purge ks none = none
purge ks (some hi) = if contains (host_key hi) ks then none else some hi

-- The hosts of the keys are freed, all else is as it was.
abbrev pub Purged : List ℕ → LoadBalance → LoadBalance → Type 0
Purged ks lb lb' =
    IsTidy lb'
    × (lb'.host_map ≡ lb.host_map)
    × (lb'.status ≡ lb.status)
    × ((q : Ptr) → lb'.heap q ≡ purge ks (lb.heap q))

-- Each of the keys has a live host.
abbrev pub AllOwned : List ℕ → LoadBalance → Type 0
AllOwned [] lb = Unit {0}
AllOwned (k ∷ ks) lb =
    ((p : Ptr) × (lookup k lb.host_map ≡ some p) × Owned lb.heap k p) × AllOwned ks lb

module _ (p : Ptr) (hi : HostInfo) (lb : LoadBalance) (live : lb.heap p ≡ some hi) where
  pub free_host-heap : (q : Ptr) → (free_host p hi lb).heap q ≡ (if p == q then none else lb.heap q)
  unfolding free_host
  free_host-heap q = ground arith

  pub free_host-map :
      ((free_host p hi lb).host_map ≡ lb.host_map)
      × ((free_host p hi lb).next ≡ lb.next)
      × ((free_host p hi lb).status ≡ lb.status)
  unfolding free_host
  free_host-map = ground arith

  free_host-idle :
      (q : Ptr)
      → IsTidy lb
      → count q (free_host p hi lb).idle_list ≡ idle_of ((free_host p hi lb).heap q)
  unfolding free_host
  free_host-idle q v = ground (arith, v.idle_count q, count-remove q p lb.idle_list)

  free_host-overload :
      (q : Ptr)
      → IsTidy lb
      → count q (free_host p hi lb).overload_list ≡ overload_of ((free_host p hi lb).heap q)
  unfolding free_host
  free_host-overload q v = ground (arith, v.overload_count q, count-remove q p lb.overload_list)

  free_host-IsTidy : IsTidy lb → IsTidy (free_host p hi lb)
  free_host-IsTidy v = record {
    idle_count = λ q. free_host-idle q v;
    overload_count = λ q. free_host-overload q v;
    fresh = λ q b. ground (arith, v.fresh q, free_host-heap q, free_host-map);
    mapped = λ q hq e.
        ground (arith, v.mapped q hq, free_host-heap q, ap (lookup (host_key hq)) free_host-map.0);
    allocated =
        λ k q e. ground (arith, v.allocated k q, free_host-map, ap (lookup k) free_host-map.0);
    distinct = λ k. ground (arith, v.distinct k, ap (λ m. count k (keys m)) free_host-map.0);
  }

  free_host-purge :
      (q : Ptr) → IsTidy lb → (free_host p hi lb).heap q ≡ purge (host_key hi ∷ []) (lb.heap q)
  unfolding contains
  free_host-purge q v = elim (Option-cases (lb.heap q)) [
    | inl dead ↦ ground (arith, free_host-heap q, dead)
    | inr (hq, liveq) ↦
        ground (arith, free_host-heap q, liveq, live, v.mapped q hq liveq, v.mapped p hi live)
  ]

delete_host-Purged :
    (k : ℕ) (p : Ptr) (lb : LoadBalance)
    → IsTidy lb
    → lookup k lb.host_map ≡ some p
    → Owned lb.heap k p
    → Returns (Purged (k ∷ []) lb) (delete_host k lb)
unfolding delete_host
delete_host-Purged k p lb v e (hi, live, key) =
    rw (e, delete_host, live)
      (
        free_host-IsTidy p hi lb live v,
        (free_host-map p hi lb live).0,
        (free_host-map p hi lb live).2,
        λ q. rw (← key) (free_host-purge p hi lb live q v),
      )

purge-purge :
    (k : ℕ) (ks : List ℕ) (o : Option HostInfo) → purge ks (purge (k ∷ []) o) ≡ purge (k ∷ ks) o
unfolding contains
purge-purge k ks none = refl
purge-purge k ks (some hi) = ground arith

-- The other keys keep their hosts.
AllOwned-purge :
    (k : ℕ) (ks : List ℕ) (lb lb' : LoadBalance)
    → lb'.host_map ≡ lb.host_map
    → ((q : Ptr) → lb'.heap q ≡ purge (k ∷ []) (lb.heap q))
    → contains k ks ≡ false
    → AllOwned ks lb
    → AllOwned ks lb'
unfolding contains
AllOwned-purge k [] lb lb' same purged out a = tt
AllOwned-purge k (j ∷ js) lb lb' same purged out ((p, e, (hi, live, key)), rest) = (
  (p, ap (lookup j) same ∙ e, (hi, ground (arith, purged p, live, key), key)),
  AllOwned-purge k js lb lb' same purged (ground arith) rest,
)

-- The keys occur once each.
abbrev pub Distinct : List ℕ → Type 0
Distinct [] = Unit {0}
Distinct (k ∷ ks) = (contains k ks ≡ false) × Distinct ks

purge_nil : (o : Option HostInfo) → o ≡ purge [] o
unfolding contains
purge_nil none = refl
purge_nil (some hi) = refl

pub delete_hosts-Purged :
    (ks : List ℕ) (lb : LoadBalance)
    → IsTidy lb
    → Distinct ks
    → AllOwned ks lb
    → Returns (Purged ks lb) (delete_hosts ks lb)
unfolding delete_hosts
delete_hosts-Purged [] lb v d a = (v, refl, refl, λ q. purge_nil (lb.heap q))
delete_hosts-Purged (k ∷ ks) lb v (out, d) ((p, e, own), a) =
    Returns->>= _ (delete_host k lb) _ (delete_host-Purged k p lb v e own)
      λ lb1 (v1, same1, st1, purged1).
        Returns-mono (Purged ks lb1) _ (delete_hosts ks lb1)
          (λ lb2 (v2, same2, st2, purged2). (
            v2,
            same2 ∙ same1,
            st2 ∙ st1,
            λ q. purged2 q ∙ ap (purge ks) (purged1 q) ∙ purge-purge k ks (lb.heap q),
          ))
          (delete_hosts-Purged ks lb1 v1 d (AllOwned-purge k ks lb lb1 same1 purged1 out a))
