-- ===== src/Dns/Tests.antt =====
-- The DNS service on concrete inputs: its theorems at inputs that meet their hypotheses.
use lars_system.Dns.SubscribeList.{publish, SubscribeList, push_change_task, make_publish_map}
use lars_system.Dns.SubscribeList.Steps.{
  Thread, Item, items, push_one, pushes, State, set_phase, start, Steps,
}
use native.Mathlib.Omega.{arith}
use lars_system.Base.{
  ℕ, ◌≡◌, refl, Bool, true, false, some, List, [], ◌∷◌, ◌++◌, ◌==◌, if◌then◌else◌, ◌&&◌, not,
  lookup, contains, Returns, pack_key,
}
use lars_system.Base.Sets.{set_at, holds}
use lars_system.Dns.Messages.Answers.{Answers}
use lars_system.Dns.SubscribeList.Subscriptions.{subscribed, pending}
use lars_system.Dns.SubscribeList.Publishing.{pending-push_change_task}
use lars_system.Dns.SubscribeList.Soundness.{AllDue, push_change_task-AllDue}
use lars_system.Dns.Route.{Route, RouteRow, rows, query_error, Database, Watch, get_hosts}
use lars_system.Dns.Service.{Session, get_request, clear_subscribe}
use lars_system.Dns.Service.Sessions.{
  Agrees, OthersKeep, get_request-Agrees, clear_subscribe-leaves_none,
}

-- Client 5 uses the module of the pair 1, 2, and client 6 the module of 1, 3; client 5 waits.
abbrev two_clients : SubscribeList
two_clients = record {
  sub_list = (4294967298, 5 ∷ []) ∷ (4294967299, 6 ∷ []) ∷ [];
  pub_list = (5, 4294967298 ∷ []) ∷ [];
}

abbrev one_host : ℕ → ℕ → List ℕ
one_host modid cmdid = 42949673040 ∷ []

abbrev all_connected : ℕ → Bool
all_connected fd = true

pending-push_change_task_example :
    pending 5 4294967298 (push_change_task one_host all_connected (5 ∷ 8 ∷ []) two_clients).1
    ≡ (not (contains 5 (5 ∷ 8 ∷ [])) && pending 5 4294967298 two_clients)
pending-push_change_task_example =
    pending-push_change_task one_host all_connected (5 ∷ 8 ∷ []) two_clients 5 4294967298

abbrev old_route : Route
old_route = record { data_pointer = []; temp_pointer = []; version = 7 }

abbrev watch : Watch
watch = record { route = old_route; subs = two_clients; last_load_time = 100; statements = [] }

abbrev one_row : List RouteRow
one_row = record { modid = 1; cmdid = 3; ip = 10; port = 80 } ∷ []

-- The database has version 8 and a change of the pair 1, 3.
abbrev new_version : Database
new_version = record {
  version_rows = rows (8 ∷ []);
  route_rows = rows one_row;
  change_rows = λ v. rows (record { modid = 1; cmdid = 3 } ∷ []);
}

abbrev no_version : Database
no_version = record {
  version_rows = query_error;
  route_rows = rows one_row;
  change_rows = λ v. query_error;
}

-- Client 5's connection has asked for the pair 1, 2.
abbrev session : Session
session = record { fd = 5; param = some (4294967298 ∷ []) }

session-Agrees : Agrees session two_clients
unfolding subscribed holds set_at lookup contains
session-Agrees m = ground arith

get_request-Agrees_example :
    let out = get_request old_route 1 3 session two_clients in
    Agrees out.1.0 out.1.1
    × OthersKeep 5 two_clients out.1.1
    × (subscribed (pack_key 1 3) 5 out.1.1 ≡ true)
    × Answers (get_hosts old_route) 1 3 out.0
get_request-Agrees_example =
    get_request-Agrees old_route 1 3 session (4294967298 ∷ []) two_clients refl session-Agrees

clear_subscribe-leaves_none_example :
    Returns
      (λ out. ((m : ℕ) → subscribed m 5 out.1 ≡ false) × OthersKeep 5 two_clients out.1)
      (clear_subscribe session two_clients)
clear_subscribe-leaves_none_example =
    clear_subscribe-leaves_none session (4294967298 ∷ []) two_clients refl session-Agrees

push_change_task-AllDue_example :
    AllDue one_host all_connected
      (λ f m. (contains f (5 ∷ 8 ∷ []) ≡ true) × (pending f m two_clients ≡ true))
      (push_change_task one_host all_connected (5 ∷ 8 ∷ []) two_clients).0
push_change_task-AllDue_example =
    push_change_task-AllDue one_host all_connected (5 ∷ 8 ∷ []) two_clients

-- The thread 1 listens to clients 5 and 6, and every other thread to client 8.
abbrev two_threads : ℕ → Thread
two_threads k =
    if k == 1
    then record { online = 5 ∷ 6 ∷ []; conns = all_connected }
    else record { online = 8 ∷ []; conns = all_connected }

abbrev published : SubscribeList
published = publish (4294967299 ∷ []) two_clients

abbrev copied : ℕ → State → State
copied k s = record s {
  phase = set_phase k (pushes (items (make_publish_map (two_threads k).online s.subs []))) s.phase;
}

abbrev sent_one : ℕ → Item → List Item → State → State
sent_one k i is s = record s {
  subs = (push_one one_host all_connected i s.subs).1;
  sent = s.sent ++ (push_one one_host all_connected i s.subs).0;
  phase = set_phase k (pushes is) s.phase;
}

-- Another thread makes its copy between the turns of thread 1.
abbrev one_sent : State
one_sent = sent_one 1 (5, 4294967298) ((6, 4294967299) ∷ []) (copied 1 (start published))

abbrev both_sent : State
both_sent = sent_one 1 (6, 4294967299) [] (copied 0 one_sent)
