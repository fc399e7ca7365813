-- ===== src/Agent/LoadBalance/Choice.antt =====
-- `choice_one_host` of load_balance.cpp, branch by branch, and what holds of all branches.
use lars_system.Base.{◌≡◌, refl, true, false, some, List, [], ◌∷◌, ◌++◌, arith}
use lars_system.Agent.Messages.{GetHostResponse, ret_succ, ret_overload}
use lars_system.Agent.HostInfo.{Config, HostInfo}
use lars_system.Agent.LoadBalance.{
  LoadBalance, Ptr, reset_access, count_access, choice_one_host, probe_due,
}
use lars_system.Agent.LoadBalance.Turns.{address, take_idle-eq, take_overloaded-eq}

abbrev pub named : GetHostResponse → HostInfo → GetHostResponse
named rsp hi = record rsp { host = some (address hi) }

module _ (cfg : Config) (lb : LoadBalance) (rsp : GetHostResponse) where
  pub choice-idle_only :
      (p : Ptr) (l : List Ptr) (hi : HostInfo)
      → lb.idle_list ≡ p ∷ l
      → lb.overload_list ≡ []
      → lb.heap p ≡ some hi
      → choice_one_host cfg lb rsp
        ≡ some (record lb { idle_list = l ++ p ∷ [] }, ret_succ, named rsp hi)
  unfolding choice_one_host
  choice-idle_only p l hi e o live = ground (arith, take_idle-eq lb p l rsp hi e live)

  pub choice-refused :
      lb.idle_list ≡ []
      → probe_due cfg lb ≡ false
      → choice_one_host cfg lb rsp ≡ some (count_access lb, ret_overload, rsp)
  unfolding choice_one_host
  choice-refused e d = ground arith

  pub choice-probe :
      (p : Ptr) (l : List Ptr) (hi : HostInfo)
      → lb.idle_list ≡ []
      → probe_due cfg lb ≡ true
      → lb.overload_list ≡ p ∷ l
      → lb.heap p ≡ some hi
      → choice_one_host cfg lb rsp
        ≡ some (record (reset_access lb) { overload_list = l ++ p ∷ [] }, ret_succ, named rsp hi)
  unfolding choice_one_host
  choice-probe p l hi e d o live =
      ground (arith, take_overloaded-eq (reset_access lb) p l rsp hi o live)

  -- The idle queue turns once more after the probe, and its host is the one that is named.
  pub choice-mixed_probe :
      (p q : Ptr) (l m : List Ptr) (hi ho : HostInfo)
      → lb.idle_list ≡ p ∷ l
      → lb.overload_list ≡ q ∷ m
      → probe_due cfg lb ≡ true
      → lb.heap p ≡ some hi
      → lb.heap q ≡ some ho
      → choice_one_host cfg lb rsp
        ≡ some (
          record (reset_access lb) { idle_list = l ++ p ∷ []; overload_list = m ++ q ∷ [] },
          ret_succ,
          named rsp hi,
        )
  unfolding choice_one_host
  choice-mixed_probe p q l m hi ho e o d live liveo =
      let lb' = record (reset_access lb) { overload_list = m ++ q ∷ [] } in
      ground (
        arith,
        take_overloaded-eq (reset_access lb) q m rsp ho o liveo,
        take_idle-eq lb' p l (named rsp ho) hi e live,
      )

  -- Without a probe the idle queue turns twice, and the second host is the one that is named.
  pub choice-mixed_one :
      (p q : Ptr) (m : List Ptr) (hi : HostInfo)
      → lb.idle_list ≡ p ∷ []
      → lb.overload_list ≡ q ∷ m
      → probe_due cfg lb ≡ false
      → lb.heap p ≡ some hi
      → choice_one_host cfg lb rsp
        ≡ some (record (count_access lb) { idle_list = p ∷ [] }, ret_succ, named rsp hi)
  unfolding choice_one_host
  choice-mixed_one p q m hi e o d live =
      let lb' = count_access lb in
      let lb2 = record lb' { idle_list = p ∷ [] } in
      ground (
        arith,
        take_idle-eq lb' p [] rsp hi e live,
        take_idle-eq lb2 p [] (named rsp hi) hi refl live,
      )

  pub choice-mixed_two :
      (p p' q : Ptr) (l m : List Ptr) (hi hi' : HostInfo)
      → lb.idle_list ≡ p ∷ p' ∷ l
      → lb.overload_list ≡ q ∷ m
      → probe_due cfg lb ≡ false
      → lb.heap p ≡ some hi
      → lb.heap p' ≡ some hi'
      → choice_one_host cfg lb rsp
        ≡ some (
          record (count_access lb) { idle_list = (l ++ p ∷ []) ++ p' ∷ [] },
          ret_succ,
          named rsp hi',
        )
  unfolding choice_one_host
  choice-mixed_two p p' q l m hi hi' e o d live live' =
      let lb1 = count_access lb in
      let lb2 = record lb1 { idle_list = p' ∷ l ++ p ∷ [] } in
      ground (
        arith,
        take_idle-eq lb1 p (p' ∷ l) rsp hi e live,
        take_idle-eq lb2 p' (l ++ p ∷ []) (named rsp hi) hi' refl live',
      )
