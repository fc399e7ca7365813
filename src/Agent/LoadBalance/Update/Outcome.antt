-- ===== src/Agent/LoadBalance/Update/Outcome.antt =====
-- `load_balance::update` as a whole: which hosts it leaves, and what it leaves behind for those that
-- the response no longer has.
use lars_system.Base.{
  ℕ, ◌≡◌, ◌⊎◌, inl, inr, true, false, none, some, List, [], ◌∷◌, arith, ◌≤◌, if◌then◌else◌, count,
  lookup, keys, contains, ap, Bool-cases, sym, ◌∙◌, Returns, Returns-mono, count-contains, is_nil,
  lookup-keys, contains-keys,
}
use lars_system.Agent.Messages.{HostAddr}
use lars_system.Agent.HostInfo.{Config}
use lars_system.Agent.LoadBalance.{LoadBalance, Ptr}
use lars_system.Agent.LoadBalance.Invariant.{IsTidy, IsSound, Owned}
use lars_system.Agent.LoadBalance.Update.{
  add_hosts, remote_hosts, need_delete, delete_hosts, update,
}
use lars_system.Agent.LoadBalance.Update.Adds.{
  add_hosts-status, add_hosts-IsSound, add_hosts-Kept, Kept,
}
use lars_system.Agent.LoadBalance.Update.Deletes.{Purged, AllOwned, Distinct, delete_hosts-Purged}

-- The collected keys are those of the map that are not remote.
pub contains-need_delete :
    (remote ks : List ℕ) (k : ℕ)
    → contains k (need_delete remote ks) ≡ (if contains k remote then false else contains k ks)
unfolding need_delete contains
contains-need_delete remote [] k = ground arith
contains-need_delete remote (j ∷ ks) k = ground (arith, contains-need_delete remote ks k)

need_delete-Distinct :
    (remote ks : List ℕ) → ((k : ℕ) → count k ks ≤ 1) → Distinct (need_delete remote ks)
unfolding need_delete count
need_delete-Distinct remote [] d = tt
need_delete-Distinct remote (j ∷ ks) d =
    let rest = need_delete-Distinct remote ks (λ k. omega (arith, d k)) in
    ground (arith, rest, contains-need_delete remote ks j, count-contains j ks, d j)

need_delete-AllOwned :
    (remote ks : List ℕ) (lb : LoadBalance)
    → IsSound lb
    → ((k : ℕ) → contains k ks ≡ true → (p : Ptr) × (lookup k lb.host_map ≡ some p))
    → AllOwned (need_delete remote ks) lb
unfolding need_delete contains
need_delete-AllOwned remote [] lb v h = tt
need_delete-AllOwned remote (j ∷ ks) lb v h =
    let rest = need_delete-AllOwned remote ks lb v (λ k c. h k (ground arith)) in
    let (p, e) = h j (ground arith) in ground (arith, rest, e, v.owns j p e)

-- What became of the address under `k`: with the key in the response it is a live host, and without
-- it the host is freed.
abbrev pub Fate : List ℕ → LoadBalance → ℕ → Ptr → Type 0
Fate remote lb k p =
    ((contains k remote ≡ true) × Owned lb.heap k p)
    ⊎ ((contains k remote ≡ false) × (lb.heap p ≡ none))

purge-Fate :
    (remote : List ℕ) (lb lb' : LoadBalance)
    → IsSound lb
    → Purged (need_delete remote (keys lb.host_map)) lb lb'
    → (k : ℕ) (p : Ptr) → lookup k lb'.host_map ≡ some p
    → Fate remote lb' k p
purge-Fate remote lb lb' v (v', same, _, purged) k p e =
    let old = ap (lookup k) (sym same) ∙ e in
    let (hi, live, key) = v.owns k p old in
    let listed = contains-keys k lb.host_map p old in
    elim (Bool-cases (contains k remote)) [
      | inl remains ↦ inl (
        remains,
        (
          hi,
          ground (
            arith,
            purged p,
            live,
            key,
            contains-need_delete remote (keys lb.host_map) k,
            remains,
          ),
          key,
        ),
      )
      | inr gone ↦ inr (
        gone,
        ground (
          arith,
          purged p,
          live,
          key,
          contains-need_delete remote (keys lb.host_map) k,
          gone,
          listed,
        ),
      )
    ]

-- What the map has under `k` after the update: a key of the response has a live host; a key that
-- is in neither has nothing; a key that the response no longer has keeps its address, freed.
abbrev pub Entry : List ℕ → LoadBalance → LoadBalance → ℕ → Type 0
Entry remote lb lb' k =
    ((contains k remote ≡ true)
      × ((p : Ptr) × (lookup k lb'.host_map ≡ some p) × Owned lb'.heap k p))
    ⊎ (((contains k remote ≡ false)
          × (lookup k lb.host_map ≡ none)
          × (lookup k lb'.host_map ≡ none))
        ⊎ ((contains k remote ≡ false)
            × ((p : Ptr) × (lookup k lb.host_map ≡ some p)
                × (lookup k lb'.host_map ≡ some p)
                × (lb'.heap p ≡ none))))

Fate-Entry :
    (remote : List ℕ) (lb lb' : LoadBalance) (k : ℕ)
    → Kept remote lb lb'
    → ((p : Ptr) → lookup k lb'.host_map ≡ some p → Fate remote lb' k p)
    → Entry remote lb lb' k
Fate-Entry remote lb lb' k kept fate = go (kept k)
  where
    go :
        ((p : Ptr) × (lookup k lb.host_map ≡ some p) × (lookup k lb'.host_map ≡ some p))
          ⊎ ((lookup k lb.host_map ≡ none)
              × (((contains k remote ≡ true) × ((p : Ptr) × (lookup k lb'.host_map ≡ some p)))
                  ⊎ ((contains k remote ≡ false) × (lookup k lb'.host_map ≡ none))))
        → Entry remote lb lb' k
    go (inl (p, old, new)) = settle p old new (fate p new)
      where
        settle :
            (p : Ptr)
            → lookup k lb.host_map ≡ some p
            → lookup k lb'.host_map ≡ some p
            → Fate remote lb' k p
            → Entry remote lb lb' k
        settle p old new (inl (c, own)) = inl (c, (p, new, own))
        settle p old new (inr (c, dead)) = inr (inr (c, (p, old, new, dead)))
    go (inr (old, inl (c, (p, new)))) = known p c new (fate p new)
      where
        known :
            (p : Ptr)
            → contains k remote ≡ true
            → lookup k lb'.host_map ≡ some p
            → Fate remote lb' k p
            → Entry remote lb lb' k
        known p c new (inl (c', own)) = inl (c, (p, new, own))
        known p c new (inr (c', dead)) = cc
    go (inr (old, inr (c, new))) = inr (inl (c, old, new))

abbrev pub Updated : List ℕ → LoadBalance → LoadBalance → Type 0
Updated remote lb lb' = IsTidy lb' × (lb'.status ≡ lb.status) × ((k : ℕ) → Entry remote lb lb' k)

-- On a sound load balancer and a response with hosts, `update` succeeds, and leaves the queues
-- with the live hosts, each once, and the status; the map is as `Entry` says for every key.
pub update-Updated :
    (cfg : Config) (hosts : List HostAddr) (lb : LoadBalance)
    → IsSound lb
    → is_nil hosts ≡ false
    → Returns (Updated (remote_hosts hosts) lb) (update cfg hosts lb)
unfolding update
update-Updated cfg hosts lb v h =
    let remote = remote_hosts hosts in
    let lb1 = add_hosts cfg hosts lb in
    let v1 = add_hosts-IsSound cfg hosts lb v in
    let kept = add_hosts-Kept cfg hosts lb in
    let ks = keys lb1.host_map in
    rw h (
      Returns-mono (Purged (need_delete remote ks) lb1) _ (delete_hosts (need_delete remote ks) lb1)
        (λ lb2 p. (
          p.0,
          p.2 ∙ add_hosts-status cfg hosts lb,
          λ k.
              Fate-Entry remote lb lb2 k (λ j. ground (arith, kept j, ap (lookup j) p.1))
                (purge-Fate remote lb1 lb2 v1 p k),
        ))
        (delete_hosts-Purged (need_delete remote ks) lb1 v1.tidy
          (need_delete-Distinct remote ks v1.tidy.distinct)
          (need_delete-AllOwned remote ks lb1 v1 (λ k c. lookup-keys k lb1.host_map c))))
