-- ===== src/Agent/LoadBalance/Invariant.antt =====
-- What the queues, the map and the heap of a load balancer (load_balance.h) have to do with one
-- another.
use lars_system.Base.{
  ◌<◌, keys, ◌≢◌, ◌&&◌, first_entry, count-is_nil, ℕ, ◌≤◌, ◌<◌, ◌≡◌, true, false, Option, none,
  some, arith, if◌then◌else◌, lookup, count, is_nil,
}
use lars_system.Agent.HostInfo.{HostInfo, host_key}
use lars_system.Agent.LoadBalance.{LoadBalance, Heap, Ptr}

-- How often the host at an address should stand in the idle queue.
abbrev pub idle_of : Option HostInfo → ℕ
idle_of none = 0
idle_of (some hi) = if hi.overload then 0 else 1

-- How often it should stand in the overloaded queue.
abbrev pub overload_of : Option HostInfo → ℕ
overload_of none = 0
overload_of (some hi) = if hi.overload then 1 else 0

-- The address under a key holds a live host of that key.
abbrev pub Owned : Heap → ℕ → Ptr → Type 0
Owned heap k p = (hi : HostInfo) × (heap p ≡ some hi) × (host_key hi ≡ k)

-- Each live host is in the queue that its flag names, once, and in no other; the queues hold live
-- hosts only; every live host is in the map under its key. The map's addresses were allocated, and
-- its keys are distinct.
pub record IsTidy (lb : LoadBalance) : Type 0 where
  pub idle_count : (p : Ptr) → count p lb.idle_list ≡ idle_of (lb.heap p)
  pub overload_count : (p : Ptr) → count p lb.overload_list ≡ overload_of (lb.heap p)
  pub fresh : (p : Ptr) → lb.next ≤ p → lb.heap p ≡ none
  pub mapped :
      (p : Ptr) (hi : HostInfo) → lb.heap p ≡ some hi → lookup (host_key hi) lb.host_map ≡ some p
  pub allocated : (k : ℕ) (p : Ptr) → lookup k lb.host_map ≡ some p → p < lb.next
  pub distinct : (k : ℕ) → count k (keys lb.host_map) ≤ 1

-- Besides, the map has no dangling address.
pub record IsSound (lb : LoadBalance) : Type 0 where
  pub tidy : IsTidy lb
  pub owns : (k : ℕ) (p : Ptr) → lookup k lb.host_map ≡ some p → Owned lb.heap k p

-- An address that a queue holds is live, and its flag is the queue's.
pub idle_live :
    (lb : LoadBalance)
    → IsTidy lb
    → (p : Ptr) → count p lb.idle_list ≢ 0
    → (hi : HostInfo) × (lb.heap p ≡ some hi) × (hi.overload ≡ false)
idle_live lb v p h = ground (arith, v.idle_count p)

pub overload_live :
    (lb : LoadBalance)
    → IsTidy lb
    → (p : Ptr) → count p lb.overload_list ≢ 0
    → (hi : HostInfo) × (lb.heap p ≡ some hi) × (hi.overload ≡ true)
overload_live lb v p h = ground (arith, v.overload_count p)

-- A load balancer with a host in its map has a host in a queue.
pub host_somewhere :
    (lb : LoadBalance)
    → IsSound lb
    → is_nil lb.host_map ≡ false
    → (is_nil lb.idle_list && is_nil lb.overload_list) ≡ false
unfolding lookup count
host_somewhere lb v h =
    let (k, p, e) = first_entry lb.host_map h in
    let (hi, live, _) = v.owns k p e in
    ground (
      arith,
      live,
      v.tidy.idle_count p,
      v.tidy.overload_count p,
      count-is_nil p lb.idle_list,
      count-is_nil p lb.overload_list,
    )
