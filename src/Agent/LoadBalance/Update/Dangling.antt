-- ===== src/Agent/LoadBalance/Update/Dangling.antt =====
-- What `load_balance::update` leaves behind for a host that is no longer in the response: its key
-- stays in `_host_map`, with the address of the freed host.
use lars_system.Base.{
  lookup-put, ℕ, ◌≡◌, refl, ◌⊎◌, inl, inr, true, false, none, some, List, [], ◌∷◌, arith, ◌==◌,
  lookup, keys, contains, Option-cases, Bool-cases, Returns, Returns-mono, is_nil, pack_key,
  contains-keys,
}
use lars_system.Agent.Messages.{HostAddr}
use lars_system.Agent.HostInfo.{Config}
use lars_system.Agent.LoadBalance.{LoadBalance, Ptr, report, report_at}
use lars_system.Agent.LoadBalance.Invariant.{IsTidy, IsSound, Owned}
use lars_system.Agent.LoadBalance.Update.{
  add_host, add_hosts, remote_hosts, need_delete, delete_host, delete_hosts, update,
}
use lars_system.Agent.LoadBalance.Update.Adds.{add_host-IsTidy}
use lars_system.Agent.LoadBalance.Update.Deletes.{free_host-map, free_host-heap}
use lars_system.Agent.LoadBalance.Update.Outcome.{
  Entry, Updated, update-Updated, contains-need_delete,
}

-- Every host of the map is in the response.
abbrev pub AllRemote : List HostAddr → LoadBalance → Type 0
AllRemote hosts lb =
    (k : ℕ) → (lookup k lb.host_map ≡ none) ⊎ (contains k (remote_hosts hosts) ≡ true)

-- An update that removes no host keeps the load balancer sound, and its status.
pub update-IsSound :
    (cfg : Config) (hosts : List HostAddr) (lb : LoadBalance)
    → IsSound lb
    → is_nil hosts ≡ false
    → AllRemote hosts lb
    → Returns (λ lb'. IsSound lb' × (lb'.status ≡ lb.status)) (update cfg hosts lb)
update-IsSound cfg hosts lb v h all =
    Returns-mono (Updated (remote_hosts hosts) lb) _ (update cfg hosts lb)
      (λ lb' (t, same, entry).
        (record { tidy = t; owns = λ k p e. owned lb' k p e (entry k) (all k) }, same))
      (update-Updated cfg hosts lb v h)
  where
    owned :
        (lb' : LoadBalance) (k : ℕ) (p : Ptr)
        → lookup k lb'.host_map ≡ some p
        → Entry (remote_hosts hosts) lb lb' k
        → (lookup k lb.host_map ≡ none) ⊎ (contains k (remote_hosts hosts) ≡ true)
        → Owned lb'.heap k p
    owned lb' k p e (inl (c, (q, e', (hi, live, key)))) a = (hi, ground (arith, e, e', live), key)
    owned lb' k p e (inr (inl (c, old, new))) a = cc
    owned lb' k p e (inr (inr (c, (q, old, new, dead)))) (inl gone) = cc
    owned lb' k p e (inr (inr (c, (q, old, new, dead)))) (inr stays) = cc

-- An address under a key that holds no host.
abbrev pub IsDangling : ℕ → LoadBalance → Type 0
IsDangling k lb = (p : Ptr) × (lookup k lb.host_map ≡ some p) × (lb.heap p ≡ none)

-- On a sound load balancer and a response with hosts, `update` succeeds, and a host that the map has
-- and the response has not is left dangling: its address is in the map and its memory is freed.
pub update-IsDangling :
    (cfg : Config) (hosts : List HostAddr) (lb : LoadBalance) (k : ℕ) (p : Ptr)
    → IsSound lb
    → is_nil hosts ≡ false
    → lookup k lb.host_map ≡ some p
    → contains k (remote_hosts hosts) ≡ false
    → Returns (IsDangling k) (update cfg hosts lb)
update-IsDangling cfg hosts lb k p v h e out =
    Returns-mono (Updated (remote_hosts hosts) lb) _ (update cfg hosts lb)
      (λ lb' (t, _, entry). dangling lb' (entry k)) (update-Updated cfg hosts lb v h)
  where
    dangling : (lb' : LoadBalance) → Entry (remote_hosts hosts) lb lb' k → IsDangling k lb'
    dangling lb' (inl (c, x)) = cc
    dangling lb' (inr (inl (c, old, new))) = cc
    dangling lb' (inr (inr (c, (q, old, new, dead)))) = (q, new, dead)

-- A report on a dangling host reads freed memory.
pub report-IsDangling :
    (cfg : Config) (ip port r : ℕ) (lb : LoadBalance)
    → IsDangling (pack_key ip port) lb
    → report cfg ip port r lb ≡ none
unfolding report report_at
report-IsDangling cfg ip port r lb (p, e, dead) = rw (e, report, dead)

-- Deletion leaves a dangling host dangling, and fails at its key.
delete_host-IsDangling :
    (j k : ℕ) (lb lb' : LoadBalance)
    → IsDangling k lb
    → delete_host j lb ≡ some lb'
    → IsDangling k lb' × ((j == k) ≡ false)
unfolding delete_host
delete_host-IsDangling j k lb lb' (p, e, dead) run = elim (Bool-cases (j == k)) [
  | inl same ↦ absurd (ground (arith, same, e, dead, run))
  | inr other ↦ elim (Option-cases (lookup j lb.host_map)) [
    | inl missing ↦ absurd (ground (arith, missing, run))
    | inr (q, found) ↦ elim (Option-cases (lb.heap q)) [
      | inl freed ↦ absurd (ground (arith, found, freed, run))
      | inr (hi, live) ↦ (
        (
          p,
          ground (arith, found, live, run, free_host-map q hi lb live),
          ground (arith, found, live, run, free_host-heap q hi lb live p),
        ),
        other,
      )
    ]
  ]
]

delete_hosts-IsDangling :
    (ks : List ℕ) (k : ℕ) (lb lb' : LoadBalance)
    → IsDangling k lb
    → delete_hosts ks lb ≡ some lb'
    → IsDangling k lb' × (contains k ks ≡ false)
unfolding delete_hosts contains
delete_hosts-IsDangling [] k lb lb' d run = ((d.0, ground arith, ground arith), refl)
delete_hosts-IsDangling (j ∷ ks) k lb lb' d run = elim (Option-cases (delete_host j lb)) [
  | inl stuck ↦ absurd (ground (arith, stuck, run))
  | inr (lb1, step) ↦
      let (d1, other) = delete_host-IsDangling j k lb lb1 d step in
      let (d2, out) = delete_hosts-IsDangling ks k lb1 lb' d1 (ground (arith, step, run)) in
      (d2, ground (arith, other, out))
]

add_host-IsDangling :
    (cfg : Config) (h : HostAddr) (k : ℕ) (lb : LoadBalance)
    → IsTidy lb
    → IsDangling k lb
    → IsDangling k (add_host cfg h lb)
unfolding add_host
add_host-IsDangling cfg h k lb v (p, e, dead) = (
  p,
  ground (arith, e, lookup-put (pack_key h.ip h.port) k lb.next lb.host_map),
  ground (arith, dead, v.allocated k p e),
)

add_hosts-IsDangling :
    (cfg : Config) (hs : List HostAddr) (k : ℕ) (lb : LoadBalance)
    → IsTidy lb
    → IsDangling k lb
    → IsDangling k (add_hosts cfg hs lb)
unfolding add_hosts
add_hosts-IsDangling cfg [] k lb v d = d
add_hosts-IsDangling cfg (h ∷ hs) k lb v d =
    add_hosts-IsDangling cfg hs k (add_host cfg h lb) (add_host-IsTidy cfg h lb v)
      (add_host-IsDangling cfg h k lb v d)

-- On a tidy load balancer with a dangling host, an update that succeeds has that host in its
-- response, and leaves it dangling.
pub update_stays-IsDangling :
    (cfg : Config) (hosts : List HostAddr) (k : ℕ) (lb lb' : LoadBalance)
    → IsTidy lb
    → IsDangling k lb
    → update cfg hosts lb ≡ some lb'
    → IsDangling k lb' × (contains k (remote_hosts hosts) ≡ true)
unfolding update
update_stays-IsDangling cfg hosts k lb lb' v d run =
    let remote = remote_hosts hosts in
    let lb1 = add_hosts cfg hosts lb in
    let ks = keys lb1.host_map in
    let d1 : IsDangling k lb1 = add_hosts-IsDangling cfg hosts k lb v d in
    let (d2, out) = delete_hosts-IsDangling (need_delete remote ks) k lb1 lb' d1 (ground arith) in
    (
      d2,
      ground (arith, out, contains-need_delete remote ks k, contains-keys k lb1.host_map d1.0 d1.1),
    )
