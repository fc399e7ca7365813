-- ===== src/Agent/LoadBalance/Update/Serves.antt =====
-- After an update that removes no host, the hosts that can be served are those of the response.
use lars_system.Base.{
  ℕ, ◌≡◌, refl, ap, ◌∙◌, ◌⊎◌, inl, inr, true, false, none, some, List, [], ◌∷◌, arith, lookup, keys,
  contains, contains-insert, remove, is_nil, pack_key, Returns, Returns-mono, Option-cases,
  Bool-cases, List-cases,
}
use lars_system.Agent.Messages.{HostAddr}
use lars_system.Agent.HostInfo.{Config, HostInfo, host_key}
use lars_system.Agent.LoadBalance.{LoadBalance, Ptr, empty}
use lars_system.Agent.LoadBalance.Invariant.{IsSound}
use lars_system.Agent.LoadBalance.Update.{
  add_host, add_hosts, remote_hosts, need_delete, free_host, delete_host, delete_hosts, update,
}
use lars_system.Agent.LoadBalance.Update.Outcome.{Entry, Updated, update-Updated}
use lars_system.Agent.LoadBalance.Update.Dangling.{AllRemote}

-- Every live host has its key among those of the response, and there is one.
pub record Serves (remote : List ℕ) (lb : LoadBalance) : Type 0 where
  pub some_host : empty lb ≡ false
  pub only_remote :
      (p : Ptr) (hi : HostInfo) → lb.heap p ≡ some hi → contains (host_key hi) remote ≡ true

first_remote :
    (hosts : List HostAddr)
    → is_nil hosts ≡ false
    → (k : ℕ) × (contains k (remote_hosts hosts) ≡ true)
unfolding remote_hosts
first_remote [] h = absurd (ground arith)
first_remote (h ∷ hs) _ = (
  pack_key h.ip h.port,
  ground (arith, contains-insert (pack_key h.ip h.port) (pack_key h.ip h.port) (remote_hosts hs)),
)

pub found_not_empty :
    (lb : LoadBalance) (k : ℕ) (p : Ptr) → lookup k lb.host_map ≡ some p → empty lb ≡ false
unfolding empty lookup
found_not_empty lb k p e = elim (List-cases lb.host_map) [
  | inl none_left ↦ absurd (ground (arith, e, none_left))
  | inr (x, xs, there) ↦ rw there refl
]

remote-Entry :
    (hosts : List HostAddr) (lb lb' : LoadBalance) (k : ℕ)
    → Entry (remote_hosts hosts) lb lb' k
    → contains k (remote_hosts hosts) ≡ true
    → (p : Ptr) × (lookup k lb'.host_map ≡ some p)
remote-Entry hosts lb lb' k (inl (c, (p, e, _))) h = (p, e)
remote-Entry hosts lb lb' k (inr (inl (c, _, _))) h = absurd (ground (arith, c, h))
remote-Entry hosts lb lb' k (inr (inr (c, _))) h = absurd (ground (arith, c, h))

Entry-remote :
    (hosts : List HostAddr) (lb lb' : LoadBalance) (k : ℕ) (p : Ptr)
    → AllRemote hosts lb
    → Entry (remote_hosts hosts) lb lb' k
    → lookup k lb'.host_map ≡ some p
    → contains k (remote_hosts hosts) ≡ true
Entry-remote hosts lb lb' k p all (inl (c, _)) e = c
Entry-remote hosts lb lb' k p all (inr (inl (c, old, new))) e = absurd (ground (arith, new, e))
Entry-remote hosts lb lb' k p all (inr (inr (c, (q, old, new, dead)))) e = go (all k)
  where
    go :
        (lookup k lb.host_map ≡ none) ⊎ (contains k (remote_hosts hosts) ≡ true)
        → contains k (remote_hosts hosts) ≡ true
    go (inl gone) = absurd (ground (arith, old, gone))
    go (inr there) = there

pub update-Serves :
    (cfg : Config) (hosts : List HostAddr) (lb : LoadBalance)
    → IsSound lb
    → is_nil hosts ≡ false
    → AllRemote hosts lb
    → Returns (Serves (remote_hosts hosts)) (update cfg hosts lb)
update-Serves cfg hosts lb v h all =
    Returns-mono (Updated (remote_hosts hosts) lb) (Serves (remote_hosts hosts))
      (update cfg hosts lb)
      (λ lb' (t, same, entry).
        let (k, c) = first_remote hosts h in
        let (p, e) = remote-Entry hosts lb lb' k (entry k) c in
        record {
          some_host = found_not_empty lb' k p e;
          only_remote = λ q hi live.
              Entry-remote hosts lb lb' (host_key hi) q all (entry (host_key hi))
                (t.mapped q hi live);
        })
      (update-Updated cfg hosts lb v h)

add_host-overload_list :
    (cfg : Config) (h : HostAddr) (lb : LoadBalance)
    → (add_host cfg h lb).overload_list ≡ lb.overload_list
unfolding add_host
add_host-overload_list cfg h lb = elim (Option-cases (lookup (pack_key h.ip h.port) lb.host_map)) [
  | inl missing ↦ rw (missing, add_host) refl
  | inr (p, found) ↦ rw (found, add_host) refl
]

add_hosts-overload_list :
    (cfg : Config) (hs : List HostAddr) (lb : LoadBalance)
    → (add_hosts cfg hs lb).overload_list ≡ lb.overload_list
unfolding add_hosts
add_hosts-overload_list cfg [] lb = refl
add_hosts-overload_list cfg (h ∷ hs) lb =
    add_hosts-overload_list cfg hs (add_host cfg h lb) ∙ add_host-overload_list cfg h lb

delete_host-no_overload :
    (k : ℕ) (lb lb' : LoadBalance)
    → lb.overload_list ≡ []
    → delete_host k lb ≡ some lb'
    → lb'.overload_list ≡ []
unfolding delete_host free_host remove
delete_host-no_overload k lb lb' e run = elim (Option-cases (lookup k lb.host_map)) [
  | inl missing ↦ absurd (ground (arith, missing, run))
  | inr (p, found) ↦ elim (Option-cases (lb.heap p)) [
    | inl freed ↦ absurd (ground (arith, found, freed, run))
    | inr (hi, live) ↦ elim (Bool-cases hi.overload) [
      | inl over ↦ ground (arith, found, live, over, run, ap (remove p) e)
      | inr idle ↦ ground (arith, found, live, idle, run, e)
    ]
  ]
]

delete_hosts-no_overload :
    (ks : List ℕ) (lb lb' : LoadBalance)
    → lb.overload_list ≡ []
    → delete_hosts ks lb ≡ some lb'
    → lb'.overload_list ≡ []
unfolding delete_hosts
delete_hosts-no_overload [] lb lb' e run = ground (arith, run)
delete_hosts-no_overload (k ∷ ks) lb lb' e run = elim (Option-cases (delete_host k lb)) [
  | inl stuck ↦ absurd (ground (arith, stuck, run))
  | inr (lb1, step) ↦
      delete_hosts-no_overload ks lb1 lb' (delete_host-no_overload k lb lb1 e step)
        (ground (arith, step, run))
]

-- Without overloaded hosts there are none after an update.
pub update-no_overload :
    (cfg : Config) (hosts : List HostAddr) (lb lb' : LoadBalance)
    → lb.overload_list ≡ []
    → update cfg hosts lb ≡ some lb'
    → lb'.overload_list ≡ []
unfolding update
update-no_overload cfg hosts lb lb' e run = elim (Bool-cases (is_nil hosts)) [
  | inl none_left ↦ absurd (ground (arith, none_left, run))
  | inr some_left ↦
      delete_hosts-no_overload
        (need_delete (remote_hosts hosts) (keys (add_hosts cfg hosts lb).host_map))
        (add_hosts cfg hosts lb) lb' (add_hosts-overload_list cfg hosts lb ∙ e)
        (ground (arith, some_left, run))
]
