-- ===== src/Dns/Route/Changes.antt =====
-- What the thread that follows the database publishes, and what it deletes.
use lars_system.Base.{leb, ◌-◌, ℕ, ◌≡◌, ◌≢◌, refl, if◌then◌else◌, List, [], Bool-cases, inl, inr}
use lars_system.Dns.Route.{
  wait_time, Route, Answer, query_error, store_error, rows, RouteRow, ChangeRow, Loaded, failed,
  same, changed, load_version, Database, Watch, after_load, reload, load_route_data, swap,
  after_version, check_route_changes, change_keys,
}

-- The keys of the changes that an answer tells of.
abbrev pub told : Answer ChangeRow → List ℕ
told query_error = []
told store_error = []
told (rows cs) = change_keys cs

reload-keeps :
    (now : ℕ) (a : Answer RouteRow) (w : Watch)
    → ((reload now a w).subs ≡ w.subs)
      × ((reload now a w).statements ≡ w.statements)
      × ((reload now a w).route.version ≡ w.route.version)
unfolding reload after_load load_route_data swap
reload-keeps now query_error w = (refl, refl, refl)
reload-keeps now store_error w = (refl, refl, refl)
reload-keeps now (rows rs) w = (refl, refl, refl)

-- A turn at which the version is the same, or cannot be had, publishes nothing and deletes nothing.
pub check_route_changes-quiet :
    (now : ℕ) (db : Database) (w : Watch)
    → (load_version db.version_rows w.route).0 ≢ changed
    → let w' = check_route_changes now db w in (w'.subs ≡ w.subs) × (w'.statements ≡ w.statements)
unfolding check_route_changes after_version
check_route_changes-quiet now db w n = quiet (load_version db.version_rows w.route) n
  where
    unchanged :
        (r : Route)
        → let w' =
            if leb wait_time (now - w.last_load_time)
            then reload now db.route_rows (record w { route = r })
            else record w { route = r } in
          (w'.subs ≡ w.subs) × (w'.statements ≡ w.statements)
    unchanged r =
        let kept = reload-keeps now db.route_rows (record w { route = r }) in
        elim (Bool-cases (leb wait_time (now - w.last_load_time))) [
          | inl due ↦ rw due (kept.0, kept.1)
          | inr early ↦ rw early (refl, refl)
        ]

    quiet :
        (v : Loaded × Route)
        → v.0 ≢ changed
        → ((after_version now db v w).subs ≡ w.subs)
          × ((after_version now db v w).statements ≡ w.statements)
    quiet (changed, r) h = absurd (h refl)
    quiet (same, r) h = unchanged r
    quiet (failed, r) h = unchanged r
