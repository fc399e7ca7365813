-- ===== src/Dns/Route/Loads.antt =====
-- The table that the DNS service answers from.
use lars_system.Base.{
  ℕ, ◌-◌, ◌<◌, ◌≡◌, ◌≢◌, ◌==◌, Bool, false, ◌&&◌, ◌||◌, List, [], ◌∷◌, contains, pack_key,
}
use lars_system.Dns.Route.{
  Route, rows, RouteRow, row_key, row_value, get_hosts, changed, load_version, Database, Watch,
  wait_time,
}

-- A row for the key tells of the host.
unfoldable pub listed : ℕ → ℕ → List RouteRow → Bool
listed key host [] = false
listed key host (r ∷ rs) = ((row_key r == key) && (row_value r == host)) || listed key host rs

-- The hosts that the route gives for a pair are those of the rows.
unfoldable pub Serves : Route → List RouteRow → Type 0
Serves r rs =
    (modid cmdid host : ℕ)
    → contains host (get_hosts r modid cmdid) ≡ listed (pack_key modid cmdid) host rs

-- What one turn of the loop comes to for the table: the rows of the database are served and the time
-- is noted; or the database did not give them, and the table is as before; or the version is the
-- same or unknown, the last load is less than ten seconds old, and the table is as before.
pub data Followed (now : ℕ) (db : Database) (w w' : Watch) : Type 0 where
  loaded :
      (rs : List RouteRow)
      → db.route_rows ≡ rows rs
      → Serves w'.route rs
      → w'.last_load_time ≡ now
      → Followed now db w w'
  not_loaded :
      ((rs : List RouteRow) → db.route_rows ≢ rows rs)
      → w'.route.data_pointer ≡ w.route.data_pointer
      → w'.last_load_time ≡ w.last_load_time
      → Followed now db w w'
  not_due :
      (load_version db.version_rows w.route).0 ≢ changed
      → now - w.last_load_time < wait_time
      → w'.route.data_pointer ≡ w.route.data_pointer
      → w'.last_load_time ≡ w.last_load_time
      → Followed now db w w'
