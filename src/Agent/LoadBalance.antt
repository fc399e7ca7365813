-- ===== src/Agent/LoadBalance.antt =====
-- load_balance.h and load_balance.cpp: the hosts of one module/command pair, an idle and an
-- overloaded queue. A host_info lives at an address of a heap of the load balancer's own; an
-- address is never reused. `none` is undefined behaviour: a read of freed memory, `front` of an
-- empty list, a failed `assert`.
pub mod Invariant
pub mod Turns
pub mod Choice
pub mod ChoiceSafety
pub mod Report
pub mod RoundRobin
pub mod Streaks
pub mod Commit
pub mod Update
use lars_system.Base.{
  ℕ, suc, ◌+◌, ◌≡◌, ◌==◌, Bool, true, false, not, ◌&&◌, Option, none, some, List, [], ◌∷◌, ◌++◌,
  if◌then◌else◌, ◌>>=◌, lookup, remove, pack_key, is_nil,
}
use lars_system.Base.Int.{ℤ, pos, leb_ℤ, ◌+ℤ◌}
use lars_system.Agent.Messages.{
  HostAddr, GetRouteRequest, GetHostResponse, HostCallResult, ReportStatusRequest, ret_succ,
  ret_overload,
}
use lars_system.Agent.HostInfo.{
  Config, HostInfo, new_host, set_idle, set_overload, tally, is_failing, is_recovered,
}

abbrev pub Ptr : Type 0
Ptr = ℕ

abbrev pub Heap : Type 0
Heap = Ptr → Option HostInfo

unfoldable pub write : Heap → Ptr → Option HostInfo → Heap
write h p c q = if p == q then c else h q

-- `enum STATUS`; `unset` is the value before the first assignment.
pub data Status : Type 0 where
  unset pulling new : Status

pub record LoadBalance : Type 0 where
  pub modid : ℕ
  pub cmdid : ℕ
  pub access_cnt : ℤ
  pub host_map : List (ℕ × Ptr)
  pub idle_list : List Ptr
  pub overload_list : List Ptr
  pub status : Status
  pub heap : Heap
  pub next : Ptr

-- The constructor leaves `_access_cnt` as it finds it: `garbage`.
unfoldable pub new_load_balance : ℕ → ℕ → ℤ → LoadBalance
new_load_balance modid cmdid garbage = record {
  modid = modid;
  cmdid = cmdid;
  access_cnt = garbage;
  host_map = [];
  idle_list = [];
  overload_list = [];
  status = unset;
  heap = λ _. none;
  next = 0;
}

unfoldable pub empty : LoadBalance → Bool
empty lb = is_nil lb.host_map

-- The host at the head goes into the response, and to the back of the queue.
unfoldable pub get_host_from_list :
    Heap → GetHostResponse → List Ptr → Option (GetHostResponse × List Ptr)
get_host_from_list heap rsp [] = none
get_host_from_list heap rsp (p ∷ l) = do
  hi ← heap p
  some (record rsp { host = some (record { ip = hi.ip; port = hi.port }) }, l ++ p ∷ [])

unfoldable pub take_idle : LoadBalance → GetHostResponse → Option (LoadBalance × GetHostResponse)
unfolding get_host_from_list
take_idle lb rsp = do
  (rsp', l) ← get_host_from_list lb.heap rsp lb.idle_list
  some (record lb { idle_list = l }, rsp')

unfoldable pub take_overloaded :
    LoadBalance → GetHostResponse → Option (LoadBalance × GetHostResponse)
unfolding get_host_from_list
take_overloaded lb rsp = do
  (rsp', l) ← get_host_from_list lb.heap rsp lb.overload_list
  some (record lb { overload_list = l }, rsp')

-- Whether a request is due that probes the overloaded queue.
unfoldable pub probe_due : Config → LoadBalance → Bool
probe_due cfg lb = leb_ℤ cfg.probe_num lb.access_cnt

abbrev pub reset_access : LoadBalance → LoadBalance
reset_access lb = record lb { access_cnt = pos 0 }

unfoldable pub count_access : LoadBalance → LoadBalance
unfolding ◌+ℤ◌
count_access lb = record lb { access_cnt = lb.access_cnt +ℤ pos 1 }

-- The new state, the return value and the response.
abbrev pub Chosen : Type 0
Chosen = LoadBalance × ℕ × GetHostResponse

abbrev pub succeed : LoadBalance × GetHostResponse → Option Chosen
succeed (lb, rsp) = some (lb, ret_succ, rsp)

-- The branch for a load balancer with no idle host.
unfoldable pub choose_overloaded : Config → LoadBalance → GetHostResponse → Option Chosen
unfolding probe_due take_overloaded count_access
choose_overloaded cfg lb rsp =
    if probe_due cfg lb
    then (do r ← take_overloaded (reset_access lb) rsp; succeed r)
    else some (count_access lb, ret_overload, rsp)

-- The branch for hosts of both kinds: after the host that the counter asks for, the last statement
-- of the branch takes another one from the idle queue.
unfoldable pub choose_mixed : Config → LoadBalance → GetHostResponse → Option Chosen
unfolding probe_due take_overloaded take_idle count_access
choose_mixed cfg lb rsp = do
  (lb', rsp') ←
      if probe_due cfg lb
      then take_overloaded (reset_access lb) rsp
      else take_idle (count_access lb) rsp
  r ← take_idle lb' rsp'
  succeed r

unfoldable pub choice_one_host : Config → LoadBalance → GetHostResponse → Option Chosen
unfolding choose_overloaded choose_mixed take_idle
choice_one_host cfg lb rsp =
    if is_nil lb.idle_list
    then choose_overloaded cfg lb rsp
    else if is_nil lb.overload_list
    then (do r ← take_idle lb rsp; succeed r)
    else choose_mixed cfg lb rsp

-- The request goes to the end of the queue that the DNS client empties.
unfoldable pub pull : LoadBalance → List GetRouteRequest → LoadBalance × List GetRouteRequest
pull lb dns_queue = (
  record lb { status = pulling },
  dns_queue ++ record { modid = lb.modid; cmdid = lb.cmdid } ∷ [],
)

-- One line of the report for each host of a queue.
unfoldable pub call_results : Heap → Bool → List Ptr → Option (List HostCallResult)
call_results heap over [] = some []
call_results heap over (p ∷ l) = do
  hi ← heap p
  rest ← call_results heap over l
  some (
      record { ip = hi.ip; port = hi.port; succ = hi.rsucc; err = hi.rerr; overload = over } ∷ rest)

-- `now` is the time of the call.
unfoldable pub commit :
    Config → ℕ → LoadBalance → List ReportStatusRequest → Option (List ReportStatusRequest)
unfolding call_results empty
commit cfg now lb report_queue = if empty lb then some report_queue else (do
  idle ← call_results lb.heap false lb.idle_list
  over ← call_results lb.heap true lb.overload_list
  some (
      report_queue
      ++ record {
        modid = lb.modid;
        cmdid = lb.cmdid;
        caller = cfg.local_ip;
        results = idle ++ over;
        ts = now;
      }
        ∷ []))

-- `report`: what becomes of the host at `p` once the call is counted.
unfoldable pub settle : Config → ℕ → Ptr → HostInfo → LoadBalance → LoadBalance
unfolding set_overload set_idle write
settle cfg retcode p hi lb =
    if not hi.overload && not (retcode == ret_succ)
    then if is_failing cfg hi
      then record lb {
        heap = write lb.heap p (some (set_overload cfg hi));
        idle_list = remove p lb.idle_list;
        overload_list = lb.overload_list ++ p ∷ [];
      }
      else lb
    else if hi.overload && (retcode == ret_succ)
    then if is_recovered cfg hi
      then record lb {
        heap = write lb.heap p (some (set_idle cfg hi));
        overload_list = remove p lb.overload_list;
        idle_list = lb.idle_list ++ p ∷ [];
      }
      else lb
    else lb

unfoldable pub report_at : Config → ℕ → Ptr → LoadBalance → Option LoadBalance
unfolding settle write
report_at cfg retcode p lb = do
  hi ← lb.heap p
  some (
      settle cfg retcode p (tally retcode hi)
        (record lb { heap = write lb.heap p (some (tally retcode hi)) }))

unfoldable pub report : Config → ℕ → ℕ → ℕ → LoadBalance → Option LoadBalance
unfolding report_at
report cfg ip port retcode lb = elim (lookup (pack_key ip port) lb.host_map) [
  | none ↦ some lb
  | some p ↦ report_at cfg retcode p lb
]
