-- ===== src/Agent/LoadBalance/Commit.antt =====
-- `commit` of load_balance.cpp: what the agent tells the reporter of a load balancer's hosts.
use lars_system.Base.{
  ℕ, ◌≡◌, refl, Bool, true, false, some, List, [], ◌∷◌, ◌++◌, arith, count, Returns, Returns->>=,
  ◌≢◌,
}
use lars_system.Agent.Messages.{HostCallResult, ReportStatusRequest}
use lars_system.Agent.HostInfo.{Config, HostInfo}
use lars_system.Agent.LoadBalance.{LoadBalance, Ptr, Heap, call_results, commit, empty}
use lars_system.Agent.LoadBalance.Invariant.{IsTidy, idle_live, overload_live}

-- The lines of a report, one for each address of a queue, in its order: the counters of the live
-- host there, and its state.
abbrev pub Lines : Heap → List Ptr → List HostCallResult → Type 0
Lines heap [] [] = Unit {0}
Lines heap (p ∷ ps) (r ∷ rs) =
    ((hi : HostInfo) × (heap p ≡ some hi)
      × (r ≡ record {
        ip = hi.ip;
        port = hi.port;
        succ = hi.rsucc;
        err = hi.rerr;
        overload = hi.overload;
      }))
    × Lines heap ps rs
Lines heap [] (r ∷ rs) = ⊥
Lines heap (p ∷ ps) [] = ⊥

call_results-Lines :
    (heap : Heap) (over : Bool) (ps : List Ptr)
    → ((p : Ptr) → count p ps ≢ 0 → (hi : HostInfo) × (heap p ≡ some hi) × (hi.overload ≡ over))
    → Returns (Lines heap ps) (call_results heap over ps)
unfolding call_results count
call_results-Lines heap over [] live = tt
call_results-Lines heap over (p ∷ ps) live =
    let (hi, e, f) = live p (ground arith) in
    rw e (
      Returns->>= _ (call_results heap over ps) _
        (call_results-Lines heap over ps (λ q h. live q (ground arith)))
        λ rs lines. ((hi, e, ground (arith, f)), lines))

Lines-append :
    (heap : Heap) (ps qs : List Ptr) (rs ss : List HostCallResult)
    → Lines heap ps rs
    → Lines heap qs ss
    → Lines heap (ps ++ qs) (rs ++ ss)
Lines-append heap [] qs [] ss h k = k
Lines-append heap (p ∷ ps) qs (r ∷ rs) ss h k = (h.0, Lines-append heap ps qs rs ss h.1 k)
Lines-append heap [] qs (r ∷ rs) ss h k = absurd h
Lines-append heap (p ∷ ps) qs [] ss h k = absurd h

abbrev pub Committed :
    Config → ℕ → LoadBalance → List ReportStatusRequest → List ReportStatusRequest → Type 0
Committed cfg now lb queue queue' =
    (rs : List HostCallResult) × Lines lb.heap (lb.idle_list ++ lb.overload_list) rs
    × (queue'
        ≡ queue
          ++ record {
            modid = lb.modid;
            cmdid = lb.cmdid;
            caller = cfg.local_ip;
            results = rs;
            ts = now;
          }
            ∷ [])

-- A load balancer that has hosts and agrees with its queues sends one request, with a line for
-- each host of the idle queue and then of the overloaded one: the host's address, its true
-- counters, and the state that the host itself records.
pub commit-Committed :
    (cfg : Config) (now : ℕ) (lb : LoadBalance) (queue : List ReportStatusRequest)
    → IsTidy lb
    → empty lb ≡ false
    → Returns (Committed cfg now lb queue) (commit cfg now lb queue)
unfolding commit
commit-Committed cfg now lb queue v h = rw h (
    Returns->>= _ (call_results lb.heap false lb.idle_list) _
      (call_results-Lines lb.heap false lb.idle_list (idle_live lb v))
      λ rs lines.
        Returns->>= _ (call_results lb.heap true lb.overload_list) _
          (call_results-Lines lb.heap true lb.overload_list (overload_live lb v))
          λ ss lines'.
            (rs ++ ss, Lines-append lb.heap lb.idle_list lb.overload_list rs ss lines lines', refl))

-- A load balancer without hosts sends nothing.
pub commit-empty :
    (cfg : Config) (now : ℕ) (lb : LoadBalance) (queue : List ReportStatusRequest)
    → empty lb ≡ true
    → commit cfg now lb queue ≡ some queue
unfolding commit
commit-empty cfg now lb queue h = rw h
