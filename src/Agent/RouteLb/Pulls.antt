-- ===== src/Agent/RouteLb/Pulls.antt =====
-- When `get_host` of route_lb.cpp asks the DNS service, and how its return value and the response's
-- code agree.
use lars_system.Base.{
  ℕ, ◌≡◌, ◌==◌, ◌⊎◌, inl, inr, Bool, true, false, none, some, [], ◌∷◌, ◌++◌, arith, if◌then◌else◌,
  lookup, put, lookup-put, ap, pack_key, is_some, Option-cases, Bool-cases,
}
use lars_system.Base.Int.{ℤ}
use lars_system.Agent.Messages.{GetHostResponse, ret_succ, ret_noexist}
use lars_system.Agent.HostInfo.{Config}
use lars_system.Agent.LoadBalance.{LoadBalance, empty, choice_one_host, pull, new_load_balance}
use lars_system.Agent.RouteLb.{RouteLb, get_host, get_host_known, get_host_new}

-- A pair whose load balancer has no host yet.
abbrev pub waiting : ℕ → RouteLb → Bool
waiting key s = elim (lookup key s.route_lb_map) [ none ↦ false | some lb ↦ empty lb ]

abbrev pub known : ℕ → RouteLb → Bool
known key s = is_some (lookup key s.route_lb_map)

-- How the table changes: under the key alone.
abbrev Changed : ℕ → RouteLb → RouteLb → Type 0
Changed key s s' =
    (known key s' ≡ true)
    × ((k : ℕ) → ((key == k) ≡ true) ⊎ (lookup k s'.route_lb_map ≡ lookup k s.route_lb_map))

put-Changed :
    (key : ℕ) (lb : LoadBalance) (s s' : RouteLb)
    → s'.route_lb_map ≡ put key lb s.route_lb_map
    → Changed key s s'
put-Changed key lb s s' e = (
  ground (arith, lookup-put key key lb s.route_lb_map, ap (lookup key) e),
  λ k. ground (arith, lookup-put key k lb s.route_lb_map, ap (lookup k) e),
)

known-Changed :
    (cfg : Config) (key : ℕ) (lb : LoadBalance) (s s' : RouteLb) (rsp rsp' : GetHostResponse)
    (ret : ℕ)
    → lookup key s.route_lb_map ≡ some lb
    → get_host_known cfg key lb s rsp ≡ some (s', ret, rsp')
    → (s'.dns_queue ≡ s.dns_queue) × Changed key s s'
unfolding get_host_known
known-Changed cfg key lb s s' rsp rsp' ret found run = elim (Bool-cases (empty lb)) [
  | inl h ↦ (ground (arith, h, run), (ground (arith, h, run, found), λ k. ground (arith, h, run)))
  | inr h ↦ elim (Option-cases (choice_one_host cfg lb rsp)) [
    | inl stuck ↦ absurd (ground (arith, h, stuck, run))
    | inr ((lb', r, rsp1), chosen) ↦
        (ground (arith, h, chosen, run), put-Changed key lb' s s' (ground (arith, h, chosen, run)))
  ]
]

-- A call that returns asks the DNS service exactly when its pair is new, once; afterwards the pair
-- is known, and every other pair has what it had.
pub get_host_pulls :
    (cfg : Config) (garbage : ℤ) (modid cmdid : ℕ) (s s' : RouteLb) (rsp rsp' : GetHostResponse)
    (ret : ℕ)
    → get_host cfg garbage modid cmdid s rsp ≡ some (s', ret, rsp')
    → (s'.dns_queue ≡ (
        if known (pack_key modid cmdid) s
        then s.dns_queue
        else s.dns_queue ++ record { modid = modid; cmdid = cmdid } ∷ []))
      × (known (pack_key modid cmdid) s' ≡ true)
      × ((k : ℕ)
          → ((pack_key modid cmdid == k) ≡ true)
            ⊎ (lookup k s'.route_lb_map ≡ lookup k s.route_lb_map))
unfolding get_host get_host_new
get_host_pulls cfg garbage modid cmdid s s' rsp rsp' ret run =
    elim (Option-cases (lookup (pack_key modid cmdid) s.route_lb_map)) [
      | inl missing ↦
          let lb = (pull (new_load_balance modid cmdid garbage) s.dns_queue).0 in
          let changed = put-Changed (pack_key modid cmdid) lb s s' (ground (arith, missing, run)) in
          (ground (arith, missing, run), changed.0, changed.1)
      | inr (lb, found) ↦
          let kept = known-Changed cfg _ lb s s' rsp rsp' ret found (ground (arith, found, run)) in
          (ground (arith, found, kept.0), kept.1.0, kept.1.1)
    ]

-- The return value of a call and the code in its response agree, except for a pair that is known and
-- has no host yet: the response then says RET_NOEXIST and the return value is RET_SUCC.
pub get_host_codes :
    (cfg : Config) (garbage : ℤ) (modid cmdid : ℕ) (s s' : RouteLb) (rsp rsp' : GetHostResponse)
    (ret : ℕ)
    → get_host cfg garbage modid cmdid s rsp ≡ some (s', ret, rsp')
    → ((waiting (pack_key modid cmdid) s ≡ false) × (rsp'.retcode ≡ ret))
      ⊎ ((waiting (pack_key modid cmdid) s ≡ true)
          × (rsp'.retcode ≡ ret_noexist)
          × (ret ≡ ret_succ))
unfolding get_host get_host_known get_host_new
get_host_codes cfg garbage modid cmdid s s' rsp rsp' ret run = ground arith
