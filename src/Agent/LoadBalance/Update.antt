-- ===== src/Agent/LoadBalance/Update.antt =====
-- `load_balance::update`: the hosts of a route response become the hosts of the load balancer.
pub mod Adds
pub mod Deletes
pub mod Outcome
pub mod Dangling
pub mod Serves
use lars_system.Base.{
  ℕ, suc, ◌+◌, ◌≡◌, ◌==◌, Bool, true, false, not, Option, none, some, List, [], ◌∷◌, ◌++◌,
  if◌then◌else◌, ◌>>=◌, lookup, put, remove, insert, contains, keys, pack_key, is_nil,
}
use lars_system.Agent.Messages.{HostAddr}
use lars_system.Agent.HostInfo.{Config, HostInfo, new_host}
use lars_system.Agent.LoadBalance.{LoadBalance, Ptr, write}

-- `_host_map`, `_idle_list` and the heap take in a host whose key is not in the map.
unfoldable pub add_host : Config → HostAddr → LoadBalance → LoadBalance
unfolding new_host write
add_host cfg h lb = elim (lookup (pack_key h.ip h.port) lb.host_map) [
  | some p ↦ lb
  | none ↦ record lb {
    heap = write lb.heap lb.next (some (new_host h.ip h.port cfg.init_succ_cnt));
    next = suc lb.next;
    host_map = put (pack_key h.ip h.port) lb.next lb.host_map;
    idle_list = lb.idle_list ++ lb.next ∷ [];
  }
]

unfoldable pub add_hosts : Config → List HostAddr → LoadBalance → LoadBalance
add_hosts cfg [] lb = lb
add_hosts cfg (h ∷ hs) lb = add_hosts cfg hs (add_host cfg h lb)

-- The set of the keys in the response.
unfoldable pub remote_hosts : List HostAddr → List ℕ
remote_hosts [] = []
remote_hosts (h ∷ hs) = insert (pack_key h.ip h.port) (remote_hosts hs)

-- The keys of the map that the response does not have.
unfoldable pub need_delete : List ℕ → List ℕ → List ℕ
need_delete remote [] = []
need_delete remote (k ∷ ks) =
    if contains k remote then need_delete remote ks else k ∷ need_delete remote ks

-- The host leaves its queue and its memory is freed; the map is not touched.
unfoldable pub free_host : Ptr → HostInfo → LoadBalance → LoadBalance
unfolding write
free_host p hi lb =
    if hi.overload
    then record lb { heap = write lb.heap p none; overload_list = remove p lb.overload_list }
    else record lb { heap = write lb.heap p none; idle_list = remove p lb.idle_list }

-- One round of the loop that deletes.
unfoldable pub delete_host : ℕ → LoadBalance → Option LoadBalance
unfolding free_host
delete_host key lb = do p ← lookup key lb.host_map; hi ← lb.heap p; some (free_host p hi lb)

unfoldable pub delete_hosts : List ℕ → LoadBalance → Option LoadBalance
delete_hosts [] lb = some lb
delete_hosts (k ∷ ks) lb = do lb' ← delete_host k lb; delete_hosts ks lb'

unfoldable pub update : Config → List HostAddr → LoadBalance → Option LoadBalance
unfolding add_hosts add_host delete_hosts delete_host remote_hosts need_delete
update cfg hosts lb =
    if is_nil hosts
    then none
    else (let lb' = add_hosts cfg hosts lb in
        delete_hosts (need_delete (remote_hosts hosts) (keys lb'.host_map)) lb')
