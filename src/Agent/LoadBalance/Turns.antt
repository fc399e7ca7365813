-- ===== src/Agent/LoadBalance/Turns.antt =====
-- A turn of a queue: `get_host_from_list` of load_balance.cpp on a queue that is not empty.
use lars_system.Base.{
  ap, sym, ◌∙◌, count-turn, ◌≡◌, true, false, some, List, [], ◌∷◌, ◌++◌, arith, count,
}
use lars_system.Base.Int.{ℤ}
use lars_system.Agent.Messages.{GetHostResponse, HostAddr}
use lars_system.Agent.HostInfo.{HostInfo}
use lars_system.Agent.LoadBalance.{LoadBalance, Ptr, get_host_from_list, take_idle, take_overloaded}
use lars_system.Agent.LoadBalance.Invariant.{idle_live, overload_live, IsTidy}

abbrev pub address : HostInfo → HostAddr
address hi = record { ip = hi.ip; port = hi.port }

module _ (lb : LoadBalance) (p : Ptr) (l : List Ptr) where
  pub turn_idle-IsTidy :
      IsTidy lb → lb.idle_list ≡ p ∷ l → IsTidy (record lb { idle_list = l ++ p ∷ [] })
  turn_idle-IsTidy v e = record {
    idle_count = λ q. sym (count-turn q p l) ∙ sym (ap (count q) e) ∙ v.idle_count q;
    overload_count = v.overload_count;
    fresh = v.fresh;
    mapped = v.mapped;
    allocated = v.allocated;
    distinct = v.distinct;
  }

  pub turn_overload-IsTidy :
      IsTidy lb → lb.overload_list ≡ p ∷ l → IsTidy (record lb { overload_list = l ++ p ∷ [] })
  turn_overload-IsTidy v e = record {
    idle_count = v.idle_count;
    overload_count = λ q. sym (count-turn q p l) ∙ sym (ap (count q) e) ∙ v.overload_count q;
    fresh = v.fresh;
    mapped = v.mapped;
    allocated = v.allocated;
    distinct = v.distinct;
  }

  pub head_idle :
      IsTidy lb
      → lb.idle_list ≡ p ∷ l
      → (hi : HostInfo) × (lb.heap p ≡ some hi) × (hi.overload ≡ false)
  unfolding count
  head_idle v e = idle_live lb v p (ground (arith, ap (count p) e))

  pub head_overload :
      IsTidy lb
      → lb.overload_list ≡ p ∷ l
      → (hi : HostInfo) × (lb.heap p ≡ some hi) × (hi.overload ≡ true)
  unfolding count
  head_overload v e = overload_live lb v p (ground (arith, ap (count p) e))

  pub take_idle-eq :
      (rsp : GetHostResponse) (hi : HostInfo)
      → lb.idle_list ≡ p ∷ l
      → lb.heap p ≡ some hi
      → take_idle lb rsp
        ≡ some (record lb { idle_list = l ++ p ∷ [] }, record rsp { host = some (address hi) })
  unfolding take_idle get_host_from_list
  take_idle-eq rsp hi e live = rw (e, live)

  pub take_overloaded-eq :
      (rsp : GetHostResponse) (hi : HostInfo)
      → lb.overload_list ≡ p ∷ l
      → lb.heap p ≡ some hi
      → take_overloaded lb rsp
        ≡ some (record lb { overload_list = l ++ p ∷ [] }, record rsp { host = some (address hi) })
  unfolding take_overloaded get_host_from_list
  take_overloaded-eq rsp hi e live = rw (e, live)

pub count-IsTidy : (lb : LoadBalance) (n : ℤ) → IsTidy lb → IsTidy (record lb { access_cnt = n })
count-IsTidy lb n v = record {
  idle_count = v.idle_count;
  overload_count = v.overload_count;
  fresh = v.fresh;
  mapped = v.mapped;
  allocated = v.allocated;
  distinct = v.distinct;
}
