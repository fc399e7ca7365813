-- ===== src/Agent/LoadBalance/ChoiceSafety.antt =====
-- `choice_one_host` of load_balance.cpp on a sound load balancer: it meets no undefined behaviour,
-- and keeps the load balancer sound.
use lars_system.Base.{
  ℕ, ◌≡◌, refl, ◌⊎◌, inl, inr, false, some, List, [], ◌∷◌, ◌++◌, arith, Returns, Bool-cases,
  List-cases,
}
use lars_system.Base.Int.{ℤ, pos}
use lars_system.Agent.Messages.{GetHostResponse, ret_succ, ret_overload}
use lars_system.Agent.HostInfo.{Config, HostInfo}
use lars_system.Agent.LoadBalance.{
  LoadBalance, Ptr, empty, reset_access, count_access, choice_one_host, Chosen, probe_due,
}
use lars_system.Agent.LoadBalance.Invariant.{IsTidy, IsSound, host_somewhere}
use lars_system.Agent.LoadBalance.Turns.{
  turn_idle-IsTidy, turn_overload-IsTidy, head_idle, head_overload, count-IsTidy,
}
use lars_system.Agent.LoadBalance.Choice.{
  named, choice-idle_only, choice-refused, choice-probe, choice-mixed_probe, choice-mixed_one,
  choice-mixed_two,
}

-- The answer names a live host; or it refuses, there is no idle host, and the response is as it was.
abbrev pub Answer : LoadBalance → GetHostResponse → ℕ → GetHostResponse → Type 0
Answer lb rsp ret rsp' =
    ((ret ≡ ret_succ)
      × ((p : Ptr) × (hi : HostInfo) × (lb.heap p ≡ some hi) × (rsp' ≡ named rsp hi)))
    ⊎ ((ret ≡ ret_overload) × (rsp' ≡ rsp) × (lb.idle_list ≡ []))

abbrev pub Served : LoadBalance → GetHostResponse → Chosen → Type 0
Served lb rsp (lb', ret, rsp') =
    IsSound lb'
    × (lb'.heap ≡ lb.heap)
    × (lb'.host_map ≡ lb.host_map)
    × (lb'.status ≡ lb.status)
    × Answer lb rsp ret rsp'

module _ (cfg : Config) (lb : LoadBalance) (rsp : GetHostResponse) (v : IsSound lb) where
  sound :
      (n : ℤ) {xs ys : List Ptr}
      → IsTidy (record lb { access_cnt = n; idle_list = xs; overload_list = ys })
      → IsSound (record lb { access_cnt = n; idle_list = xs; overload_list = ys })
  sound n t = record { tidy = t; owns = v.owns }

  counted-IsSound : IsSound (count_access lb)
  unfolding count_access
  counted-IsSound = sound _ (count-IsTidy lb _ v.tidy)

  answered : (p : Ptr) (hi : HostInfo) → lb.heap p ≡ some hi → Answer lb rsp ret_succ (named rsp hi)
  answered p hi live = inl (refl, (p, hi, live, refl))

  -- Hosts of both kinds, no probe due.
  second-Served :
      (p q : Ptr) (l m : List Ptr) (hi : HostInfo)
      → lb.idle_list ≡ p ∷ l
      → lb.overload_list ≡ q ∷ m
      → probe_due cfg lb ≡ false
      → lb.heap p ≡ some hi
      → Returns (Served lb rsp) (choice_one_host cfg lb rsp)
  unfolding count_access
  second-Served p q [] m hi e o d live = rw (choice-mixed_one cfg lb rsp p q m hi e o d live) (
    sound _ (turn_idle-IsTidy (count_access lb) p [] (count-IsTidy lb _ v.tidy) e),
    refl,
    refl,
    refl,
    answered p hi live,
  )
  second-Served p q (p' ∷ l) m hi e o d live =
      let once = turn_idle-IsTidy (count_access lb) p (p' ∷ l) (count-IsTidy lb _ v.tidy) e in
      let (hi', live', _) = head_idle _ p' (l ++ p ∷ []) once refl in
      rw (choice-mixed_two cfg lb rsp p p' q l m hi hi' e o d live live') (
        sound _ (turn_idle-IsTidy _ p' (l ++ p ∷ []) once refl),
        refl,
        refl,
        refl,
        answered p' hi' live',
      )

  -- Hosts of both kinds.
  mixed-Served :
      (p q : Ptr) (l m : List Ptr)
      → lb.idle_list ≡ p ∷ l
      → lb.overload_list ≡ q ∷ m
      → Returns (Served lb rsp) (choice_one_host cfg lb rsp)
  mixed-Served p q l m e o =
      let (hi, live, _) = head_idle lb p l v.tidy e in
      elim (Bool-cases (probe_due cfg lb)) [
        | inl d ↦
            let (ho, liveo, _) = head_overload lb q m v.tidy o in
            let turned =
              turn_overload-IsTidy (reset_access lb) q m (count-IsTidy lb (pos 0) v.tidy) o in
            rw (choice-mixed_probe cfg lb rsp p q l m hi ho e o d live liveo) (
              sound (pos 0) (turn_idle-IsTidy _ p l turned e),
              refl,
              refl,
              refl,
              answered p hi live,
            )
        | inr d ↦ second-Served p q l m hi e o d live
      ]

  idle_only-Served :
      (p : Ptr) (l : List Ptr)
      → lb.idle_list ≡ p ∷ l
      → lb.overload_list ≡ []
      → Returns (Served lb rsp) (choice_one_host cfg lb rsp)
  idle_only-Served p l e o =
      let (hi, live, _) = head_idle lb p l v.tidy e in
      rw (choice-idle_only cfg lb rsp p l hi e o live) (
        sound lb.access_cnt (turn_idle-IsTidy lb p l v.tidy e),
        refl,
        refl,
        refl,
        answered p hi live,
      )

  overloaded-Served :
      (q : Ptr) (m : List Ptr)
      → lb.idle_list ≡ []
      → lb.overload_list ≡ q ∷ m
      → Returns (Served lb rsp) (choice_one_host cfg lb rsp)
  unfolding count_access
  overloaded-Served q m e o =
      let (ho, live, _) = head_overload lb q m v.tidy o in
      elim (Bool-cases (probe_due cfg lb)) [
        | inl d ↦ rw (choice-probe cfg lb rsp q m ho e d o live) (
          sound (pos 0)
              (turn_overload-IsTidy (reset_access lb) q m (count-IsTidy lb (pos 0) v.tidy) o),
          refl,
          refl,
          refl,
          answered q ho live,
        )
        | inr d ↦
            rw (choice-refused cfg lb rsp e d)
              (counted-IsSound, refl, refl, refl, inr (refl, refl, e))
      ]

  -- On a load balancer that has hosts a request is answered, whatever the queues hold: the call
  -- meets no undefined behaviour, keeps the load balancer sound and its hosts as they were, and
  -- either names a live host or refuses; it refuses only if no host is idle.
  pub choice-Served : empty lb ≡ false → Returns (Served lb rsp) (choice_one_host cfg lb rsp)
  unfolding empty
  choice-Served h = elim (List-cases lb.idle_list) [
    | inr (p, l, e) ↦ elim (List-cases lb.overload_list) [
      | inr (q, m, o) ↦ mixed-Served p q l m e o
      | inl o ↦ idle_only-Served p l e o
    ]
    | inl e ↦ elim (List-cases lb.overload_list) [
      | inr (q, m, o) ↦ overloaded-Served q m e o
      | inl o ↦ absurd (ground (arith, host_somewhere lb v h))
    ]
  ]
