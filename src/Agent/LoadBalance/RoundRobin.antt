-- ===== src/Agent/LoadBalance/RoundRobin.antt =====
-- In what order `choice_one_host` of load_balance.cpp names the hosts.
use mathlib.Core.List.{append-nil, append_assoc}
use lars_system.Base.{
  Returns->>=, count, replicate, ℕ, zero, suc, ◌≡◌, ◌≢◌, refl, inl, inr, false, Option, some, List,
  [], ◌∷◌, ◌++◌, arith, if◌then◌else◌, length, Returns, Bool-cases, ◌>>=◌, ap, sym, ◌∙◌,
}
use lars_system.Base.Int.{reached, short_of, +ℤ-suc, pos, ◌+ℤ◌}
use lars_system.Agent.Messages.{GetHostResponse, HostAddr, ret_succ, ret_overload}
use lars_system.Agent.HostInfo.{Config, HostInfo}
use lars_system.Agent.LoadBalance.{LoadBalance, Heap, Ptr, count_access, choice_one_host, probe_due}
use lars_system.Agent.LoadBalance.Invariant.{IsTidy, idle_live}
use lars_system.Agent.LoadBalance.Turns.{address, head_idle, head_overload}
use lars_system.Agent.LoadBalance.Choice.{
  named, choice-idle_only, choice-refused, choice-probe, choice-mixed_probe, choice-mixed_one,
  choice-mixed_two,
}

-- The answers to a number of requests, each on the response that it is given.
unfoldable pub choices :
    Config → ℕ → LoadBalance → GetHostResponse → Option (LoadBalance × List (ℕ × Option HostAddr))
choices cfg zero lb rsp = some (lb, [])
choices cfg (suc n) lb rsp = do
  (lb1, ret, rsp1) ← choice_one_host cfg lb rsp
  (lb2, rest) ← choices cfg n lb1 rsp
  some (lb2, (ret, rsp1.host) ∷ rest)

-- The answers that name the hosts of these addresses, one after the other.
abbrev pub NamesAll : Heap → List Ptr → List (ℕ × Option HostAddr) → Type 0
NamesAll heap [] [] = Unit {0}
NamesAll heap (p ∷ ps) ((ret, host) ∷ rs) =
    ((ret ≡ ret_succ) × ((hi : HostInfo) × (heap p ≡ some hi) × (host ≡ some (address hi))))
    × NamesAll heap ps rs
NamesAll heap [] (r ∷ rs) = ⊥
NamesAll heap (p ∷ ps) [] = ⊥

abbrev AllLive : Heap → List Ptr → Type 0
AllLive heap [] = Unit {0}
AllLive heap (p ∷ ps) = ((hi : HostInfo) × (heap p ≡ some hi)) × AllLive heap ps

rounds :
    (cfg : Config) (lb : LoadBalance) (rsp : GetHostResponse) (xs ys : List Ptr)
    → lb.idle_list ≡ xs ++ ys
    → lb.overload_list ≡ []
    → AllLive lb.heap xs
    → Returns
        (λ (lb', rs). NamesAll lb.heap xs rs × (lb' ≡ record lb { idle_list = ys ++ xs }))
        (choices cfg (length xs) lb rsp)
unfolding choices
rounds cfg lb rsp [] ys e o live = (tt, ground (arith, append-nil ys, e))
rounds cfg lb rsp (p ∷ xs) ys e o ((hi, l), live) =
    let lb1 = record lb { idle_list = (xs ++ ys) ++ p ∷ [] } in
    rw (choice-idle_only cfg lb rsp p (xs ++ ys) hi e o l) (
      Returns->>= _ (choices cfg (length xs) lb1 rsp) _
        (rounds cfg lb1 rsp xs (ys ++ p ∷ []) (append_assoc xs ys (p ∷ [])) o live)
        λ (lb2, rs) (names, final). (
          ((refl, (hi, l, refl)), names),
          final ∙ ap (λ l. record lb { idle_list = l }) (append_assoc ys (p ∷ []) xs),
        ))

queue-AllLive :
    (lb : LoadBalance) (ps : List Ptr)
    → ((p : Ptr) → count p ps ≢ 0 → (hi : HostInfo) × (lb.heap p ≡ some hi) × (hi.overload ≡ false))
    → AllLive lb.heap ps
unfolding count
queue-AllLive lb [] h = tt
queue-AllLive lb (p ∷ ps) h =
    let (hi, live, _) = h p (ground arith) in
    ((hi, live), queue-AllLive lb ps (λ q c. h q (ground arith)))

-- On a tidy load balancer without overloaded hosts, as many requests as there are idle hosts name each host of the idle
-- queue once, in the order of the queue, and leave the load balancer as it was.
pub choices-round_robin :
    (cfg : Config) (lb : LoadBalance) (rsp : GetHostResponse)
    → IsTidy lb
    → lb.overload_list ≡ []
    → Returns
        (λ (lb', rs). NamesAll lb.heap lb.idle_list rs × (lb' ≡ lb))
        (choices cfg (length lb.idle_list) lb rsp)
choices-round_robin cfg lb rsp v o =
    rounds cfg lb rsp lb.idle_list [] (sym (append-nil lb.idle_list)) o
      (queue-AllLive lb lb.idle_list (idle_live lb v))

-- With no idle host and the counter `n` short of the limit, `n` requests are refused and the next
-- one names the host at the head of the overloaded queue.
pub choices_refuse_then_probe :
    (cfg : Config) (n : ℕ) (lb : LoadBalance) (rsp : GetHostResponse) (q : Ptr) (m : List Ptr)
    (ho : HostInfo)
    → lb.idle_list ≡ []
    → lb.overload_list ≡ q ∷ m
    → lb.heap q ≡ some ho
    → lb.access_cnt +ℤ pos n ≡ cfg.probe_num
    → Returns
        (λ (lb', rs).
          (rs ≡ replicate n (ret_overload, rsp.host) ++ (ret_succ, some (address ho)) ∷ [])
          × (lb'.access_cnt ≡ pos 0)
          × (lb'.overload_list ≡ m ++ q ∷ []))
        (choices cfg (suc n) lb rsp)
unfolding choices probe_due count_access
choices_refuse_then_probe cfg zero lb rsp q m ho e o live b =
    rw (choice-probe cfg lb rsp q m ho e (reached lb.access_cnt cfg.probe_num b) o live)
      (refl, refl, refl)
choices_refuse_then_probe cfg (suc n) lb rsp q m ho e o live b =
    rw (choice-refused cfg lb rsp e (short_of lb.access_cnt cfg.probe_num n b)) (
      Returns->>= _ (choices cfg (suc n) (count_access lb) rsp) _
        (choices_refuse_then_probe cfg n (count_access lb) rsp q m ho e o live
          (+ℤ-suc lb.access_cnt n ∙ b))
        λ (lb2, rs) (names, zeroed, turned).
          (ap (λ l. (ret_overload, rsp.host) ∷ l) names, zeroed, turned))

-- On a tidy load balancer with hosts of both kinds, a request succeeds and names an idle host. When a
-- probe of the overloaded queue is due, the overloaded host goes to the back of its queue unnamed;
-- the queue is else left alone.
pub choice-probe_lost :
    (cfg : Config) (lb : LoadBalance) (rsp : GetHostResponse) (p q : Ptr) (l m : List Ptr)
    → IsTidy lb
    → lb.idle_list ≡ p ∷ l
    → lb.overload_list ≡ q ∷ m
    → Returns
        (λ (lb', ret, rsp').
          (ret ≡ ret_succ)
          × ((r : Ptr) × (hi : HostInfo) × (lb.heap r ≡ some hi)
              × (hi.overload ≡ false)
              × (rsp' ≡ named rsp hi))
          × (lb'.overload_list ≡ (if probe_due cfg lb then m ++ q ∷ [] else q ∷ m)))
        (choice_one_host cfg lb rsp)
unfolding count_access count
choice-probe_lost cfg lb rsp p q [] m v e o =
    let (hi, live, f) = head_idle lb p [] v e in
    let (ho, liveo, _) = head_overload lb q m v o in
    elim (Bool-cases (probe_due cfg lb)) [
      | inl d ↦
          rw (choice-mixed_probe cfg lb rsp p q [] m hi ho e o d live liveo, d)
            (refl, (p, hi, live, f, refl), refl)
      | inr d ↦
          rw (choice-mixed_one cfg lb rsp p q m hi e o d live, d) (refl, (p, hi, live, f, refl), o)
    ]
choice-probe_lost cfg lb rsp p q (p' ∷ l) m v e o =
    let (hi, live, f) = head_idle lb p (p' ∷ l) v e in
    let (hi', live', f') = idle_live lb v p' (second e) in
    let (ho, liveo, _) = head_overload lb q m v o in
    elim (Bool-cases (probe_due cfg lb)) [
      | inl d ↦
          rw (choice-mixed_probe cfg lb rsp p q (p' ∷ l) m hi ho e o d live liveo, d)
            (refl, (p, hi, live, f, refl), refl)
      | inr d ↦
          rw (choice-mixed_two cfg lb rsp p p' q l m hi hi' e o d live live', d)
            (refl, (p', hi', live', f', refl), o)
    ]
  where
    second : lb.idle_list ≡ p ∷ p' ∷ l → count p' lb.idle_list ≢ 0
    second h = ground (arith, ap (count p') h)
