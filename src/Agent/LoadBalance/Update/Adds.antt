-- ===== src/Agent/LoadBalance/Update/Adds.antt =====
-- The first loop of `load_balance::update`: hosts that the map does not have are added.
use lars_system.Base.{
  ℕ, suc, ◌≡◌, refl, ◌⊎◌, inl, inr, true, false, none, some, List, [], ◌∷◌, ◌++◌, arith, ◌==◌,
  if◌then◌else◌, count, lookup, put, contains, count-append, lookup-put, count-keys-put,
  count-keys-none, contains-insert, pack_key, Option-cases, Bool-cases, ◌∙◌,
}
use lars_system.Agent.Messages.{HostAddr}
use lars_system.Agent.HostInfo.{Config, host_key, new_host}
use lars_system.Agent.LoadBalance.{LoadBalance, Ptr, write}
use lars_system.Agent.LoadBalance.Invariant.{IsTidy, IsSound, Owned}
use lars_system.Agent.LoadBalance.Update.{add_host, add_hosts, remote_hosts}

module _ (cfg : Config) (h : HostAddr) (lb : LoadBalance)
    (missing : lookup (pack_key h.ip h.port) lb.host_map ≡ none) where
  grown : LoadBalance
  grown = record lb {
    heap = write lb.heap lb.next (some (new_host h.ip h.port cfg.init_succ_cnt));
    next = suc lb.next;
    host_map = put (pack_key h.ip h.port) lb.next lb.host_map;
    idle_list = lb.idle_list ++ lb.next ∷ [];
  }

  add_host-eq : add_host cfg h lb ≡ grown
  unfolding add_host grown
  add_host-eq = rw (missing, add_host)

  grown-IsTidy : IsTidy lb → IsTidy grown
  unfolding grown write new_host host_key count
  grown-IsTidy v = record {
    idle_count =
        λ q. ground (arith, v.idle_count q, v.fresh q, count-append q lb.idle_list (lb.next ∷ []));
    overload_count = λ q. ground (arith, v.overload_count q, v.fresh q);
    fresh = λ q b. ground (arith, v.fresh q);
    mapped = λ q hq e. ground (
      arith,
      lookup-put (pack_key h.ip h.port) (pack_key hq.ip hq.port) lb.next lb.host_map,
      v.mapped q hq,
    );
    allocated = λ k q e.
        ground (arith, v.allocated k q, lookup-put (pack_key h.ip h.port) k lb.next lb.host_map);
    distinct = λ k. ground (
      arith,
      count-keys-put k (pack_key h.ip h.port) lb.next lb.host_map missing,
      v.distinct k,
      count-keys-none k lb.host_map,
    );
  }

  grown-owns :
      IsSound lb → (k : ℕ) (q : Ptr) → lookup k grown.host_map ≡ some q → Owned grown.heap k q
  unfolding grown write new_host host_key
  grown-owns v k q e = elim (Bool-cases (pack_key h.ip h.port == k)) [
    | inl new ↦ (
      new_host h.ip h.port cfg.init_succ_cnt,
      ground (arith, lookup-put (pack_key h.ip h.port) k lb.next lb.host_map, new),
      ground (arith, new),
    )
    | inr old ↦
        let (hq, live, key) =
          v.owns k q
            (ground (arith, lookup-put (pack_key h.ip h.port) k lb.next lb.host_map, old)) in
        (hq, ground (arith, live, v.tidy.fresh q), ground (arith, key))
  ]

  grown-lookup :
      (k : ℕ)
      → lookup k grown.host_map
        ≡ (if pack_key h.ip h.port == k then some lb.next else lookup k lb.host_map)
  unfolding grown
  grown-lookup k = lookup-put (pack_key h.ip h.port) k lb.next lb.host_map

-- What the map has under `k` after a host was added: what it had, or an address for the new key.
abbrev pub Kept : List ℕ → LoadBalance → LoadBalance → Type 0
Kept ks lb lb' =
    (k : ℕ)
    → ((p : Ptr) × (lookup k lb.host_map ≡ some p) × (lookup k lb'.host_map ≡ some p))
      ⊎ ((lookup k lb.host_map ≡ none)
          × (((contains k ks ≡ true) × ((p : Ptr) × (lookup k lb'.host_map ≡ some p)))
              ⊎ ((contains k ks ≡ false) × (lookup k lb'.host_map ≡ none))))

add_host-Kept :
    (cfg : Config) (h : HostAddr) (lb : LoadBalance)
    → Kept (pack_key h.ip h.port ∷ []) lb (add_host cfg h lb)
unfolding add_host contains
add_host-Kept cfg h lb k = elim (Option-cases (lookup (pack_key h.ip h.port) lb.host_map)) [
  | inl missing ↦ elim (Option-cases (lookup k lb.host_map)) [
    | inl none_k ↦ inr (
      none_k,
      elim (Bool-cases (pack_key h.ip h.port == k)) [
        | inl new ↦ inl (
          ground (arith, new),
          (
            lb.next,
            ground (arith, new, missing, lookup-put (pack_key h.ip h.port) k lb.next lb.host_map),
          ),
        )
        | inr old ↦ inr (
          ground (arith, old),
          ground (arith, old, missing, lookup-put (pack_key h.ip h.port) k lb.next lb.host_map),
        )
      ],
    )
    | inr (p, some_k) ↦ inl (
      p,
      some_k,
      ground (arith, missing, lookup-put (pack_key h.ip h.port) k lb.next lb.host_map),
    )
  ]
  | inr (q, found) ↦
      rw (found, add_host)
        (elim (Option-cases (lookup k lb.host_map)) [
          | inl none_k ↦ inr (none_k, inr (ground (arith, found), none_k))
          | inr (p, some_k) ↦ inl (p, some_k, some_k)
        ])
]

add_host-IsSound :
    (cfg : Config) (h : HostAddr) (lb : LoadBalance) → IsSound lb → IsSound (add_host cfg h lb)
unfolding add_host
add_host-IsSound cfg h lb v = elim (Option-cases (lookup (pack_key h.ip h.port) lb.host_map)) [
  | inl missing ↦
      rw (add_host-eq cfg h lb missing) (record {
        tidy = grown-IsTidy cfg h lb missing v.tidy;
        owns = grown-owns cfg h lb missing v;
      })
  | inr (q, found) ↦ rw (found, add_host) v
]

pub add_host-IsTidy :
    (cfg : Config) (h : HostAddr) (lb : LoadBalance) → IsTidy lb → IsTidy (add_host cfg h lb)
unfolding add_host
add_host-IsTidy cfg h lb v = elim (Option-cases (lookup (pack_key h.ip h.port) lb.host_map)) [
  | inl missing ↦ rw (add_host-eq cfg h lb missing) (grown-IsTidy cfg h lb missing v)
  | inr (q, found) ↦ rw (found, add_host) v
]

pub add_hosts-IsSound :
    (cfg : Config) (hs : List HostAddr) (lb : LoadBalance)
    → IsSound lb
    → IsSound (add_hosts cfg hs lb)
unfolding add_hosts
add_hosts-IsSound cfg [] lb v = v
add_hosts-IsSound cfg (h ∷ hs) lb v =
    add_hosts-IsSound cfg hs (add_host cfg h lb) (add_host-IsSound cfg h lb v)

pub add_hosts-Kept :
    (cfg : Config) (hs : List HostAddr) (lb : LoadBalance)
    → Kept (remote_hosts hs) lb (add_hosts cfg hs lb)
unfolding add_hosts remote_hosts contains
add_hosts-Kept cfg [] lb k = ground arith
add_hosts-Kept cfg (h ∷ hs) lb k = ground (
  arith,
  add_host-Kept cfg h lb k,
  add_hosts-Kept cfg hs (add_host cfg h lb) k,
  contains-insert k (pack_key h.ip h.port) (remote_hosts hs),
)

add_host-status :
    (cfg : Config) (h : HostAddr) (lb : LoadBalance) → (add_host cfg h lb).status ≡ lb.status
unfolding add_host
add_host-status cfg h lb = ground arith

pub add_hosts-status :
    (cfg : Config) (hs : List HostAddr) (lb : LoadBalance)
    → (add_hosts cfg hs lb).status ≡ lb.status
unfolding add_hosts
add_hosts-status cfg [] lb = refl
add_hosts-status cfg (h ∷ hs) lb =
    add_hosts-status cfg hs (add_host cfg h lb) ∙ add_host-status cfg h lb
