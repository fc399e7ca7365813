-- ===== src/Dns/Route.antt =====
-- dns_route.h and dns_route.cpp: the table of hosts of each module, the copy that the next load
-- fills, and the thread that follows the database. The two tables are reached by two pointers that
-- `swap` exchanges. A lock makes a read of the table and the exchange one step each. What MySQL
-- answers to a query is an argument of the step that asks. A version is a 64-bit pattern.
pub mod Loads
pub mod Changes
use lars_system.Base.{
  ℕ, ◌+◌, ◌-◌, ◌≡◌, ◌==◌, leb, Bool, true, false, if◌then◌else◌, Option, none, some, List, [], ◌∷◌,
  ◌++◌, pack_key,
}
use lars_system.Base.Sets.{SetMap, set_at, insert_at}
use lars_system.Dns.SubscribeList.{SubscribeList, publish}

pub record Route : Type 0 where
  pub data_pointer : SetMap
  pub temp_pointer : SetMap
  pub version : ℕ

-- The answer to a query: its error, a result that cannot be stored, or the rows.
pub data Answer (A : Type 0) : Type 0 where
  query_error : Answer A
  store_error : Answer A
  rows : List A → Answer A

-- A row of RouteData, its columns as 32-bit patterns.
pub record RouteRow : Type 0 where
  pub modid : ℕ
  pub cmdid : ℕ
  pub ip : ℕ
  pub port : ℕ

-- A row of RouteChange, without its version.
pub record ChangeRow : Type 0 where
  pub modid : ℕ
  pub cmdid : ℕ

unfoldable pub row_key : RouteRow → ℕ
unfolding pack_key
row_key r = pack_key r.modid r.cmdid

unfoldable pub row_value : RouteRow → ℕ
unfolding pack_key
row_value r = pack_key r.ip r.port

-- The loop that puts the rows into a table.
unfoldable pub insert_rows : List RouteRow → SetMap → SetMap
unfolding insert_at row_key row_value
insert_rows [] m = m
insert_rows (r ∷ rs) m = insert_rows rs (insert_at (row_key r) (row_value r) m)

-- `build_maps`: an error of the query ends the process, the null result is not tested (`none`).
unfoldable pub build_maps : Answer RouteRow → Route → Option Route
unfolding insert_rows
build_maps query_error r = none
build_maps store_error r = none
build_maps (rows rs) r = some (record r { data_pointer = insert_rows rs r.data_pointer })

unfoldable pub get_hosts : Route → ℕ → ℕ → List ℕ
unfolding set_at pack_key
get_hosts r modid cmdid = set_at (pack_key modid cmdid) r.data_pointer

-- What `load_version` returns: -1, 0 or 1.
pub data Loaded : Type 0 where
  failed : Loaded
  same : Loaded
  changed : Loaded

unfoldable pub load_version : Answer ℕ → Route → Loaded × Route
load_version query_error r = (failed, r)
load_version store_error r = (failed, r)
load_version (rows []) r = (failed, r)
load_version (rows (new_version ∷ _)) r =
    if new_version == r.version then (same, r) else (changed, record r { version = new_version })

-- True for 0, false for -1. The copy is cleared before the query.
unfoldable pub load_route_data : Answer RouteRow → Route → Bool × Route
unfolding insert_rows
load_route_data query_error r = (false, record r { temp_pointer = [] })
load_route_data store_error r = (false, record r { temp_pointer = [] })
load_route_data (rows rs) r = (true, record r { temp_pointer = insert_rows rs [] })

unfoldable pub swap : Route → Route
swap r = record r { data_pointer = r.temp_pointer; temp_pointer = r.data_pointer }

unfoldable pub change_keys : List ChangeRow → List ℕ
unfolding pack_key
change_keys [] = []
change_keys (c ∷ cs) = pack_key c.modid c.cmdid ∷ change_keys cs

-- Errors leave the list as it is; so does an empty result.
unfoldable pub load_changes : Answer ChangeRow → List ℕ → List ℕ
unfolding change_keys
load_changes query_error changes = changes
load_changes store_error changes = changes
load_changes (rows cs) changes = changes ++ change_keys cs

-- The statement that `remove_changes` gives to MySQL.
pub data Statement : Type 0 where
  delete_all : Statement
  delete_upto : ℕ → Statement

unfoldable pub remove_changes : Bool → Route → Statement
remove_changes true r = delete_all
remove_changes false r = delete_upto r.version

-- What the database answers in one turn of the loop. `change_rows` is asked for the changes up to a
-- version.
pub record Database : Type 0 where
  pub version_rows : Answer ℕ
  pub route_rows : Answer RouteRow
  pub change_rows : ℕ → Answer ChangeRow

-- The state of the thread, and the statements it gave to the database so far.
pub record Watch : Type 0 where
  pub route : Route
  pub subs : SubscribeList
  pub last_load_time : ℕ
  pub statements : List Statement

unfoldable pub wait_time : ℕ
wait_time = 10

-- The first steps of `check_route_changes`: all noted changes are deleted.
unfoldable pub start_watch : ℕ → Route → SubscribeList → Watch
unfolding remove_changes
start_watch now r s = record {
  route = r;
  subs = s;
  last_load_time = now;
  statements = remove_changes true r ∷ [];
}

-- `if (load_route_data() == 0) { swap(); last_load_time = current_time; }`.
unfoldable pub after_load : ℕ → Bool × Route → Watch → Watch
unfolding swap
after_load now (true, r) w = record w { route = swap r; last_load_time = now }
after_load now (false, r) w = record w { route = r }

unfoldable pub reload : ℕ → Answer RouteRow → Watch → Watch
unfolding after_load load_route_data
reload now answer w = after_load now (load_route_data answer w.route) w

-- The changes up to the present version are published, and deleted.
unfoldable pub publish_changes : (ℕ → Answer ChangeRow) → Watch → Watch
unfolding load_changes publish remove_changes
publish_changes change_rows w = record w {
  subs = publish (load_changes (change_rows w.route.version) []) w.subs;
  statements = w.statements ++ remove_changes false w.route ∷ [];
}

unfoldable pub after_version : ℕ → Database → Loaded × Route → Watch → Watch
unfolding publish_changes reload wait_time
after_version now db (changed, r) w =
    publish_changes db.change_rows (reload now db.route_rows (record w { route = r }))
after_version now db (same, r) w =
    if leb wait_time (now - w.last_load_time)
    then reload now db.route_rows (record w { route = r })
    else record w { route = r }
after_version now db (failed, r) w =
    if leb wait_time (now - w.last_load_time)
    then reload now db.route_rows (record w { route = r })
    else record w { route = r }

-- One turn of the loop, at the time `now`, which is not before the last load.
unfoldable pub check_route_changes : ℕ → Database → Watch → Watch
unfolding after_version load_version
check_route_changes now db w = after_version now db (load_version db.version_rows w.route) w
