-- ===== src/Dns/SubscribeList.antt =====
-- subscribe.h and subscribe.cpp: which clients use which modules, and which changes they wait for.
-- A client is the descriptor of its connection. Mutexes make an operation on the maps one step, but
-- not `push_change_task`, which is here a run of its own, with nothing in between: its parts, which
-- those of other threads come between, are in Steps.
pub mod Subscriptions
pub mod Publishing
pub mod Delivery
pub mod Soundness
pub mod Steps
pub mod Items
pub mod Interleaved
pub mod Finishes
use lars_system.Base.{
  ℕ, ◌≡◌, Bool, true, false, if◌then◌else◌, Option, none, some, List, [], ◌∷◌, ◌++◌, lookup, put,
  erase, keys, is_nil, remove, contains, key_high, key_low,
}
use lars_system.Base.Sets.{SetMap, set_at, insert_at, insert_all, holds}
use lars_system.Dns.Messages.{GetRouteResponse, add_hosts}

pub record SubscribeList : Type 0 where
  pub sub_list : SetMap
  pub pub_list : SetMap

unfoldable pub new_subscribe_list : SubscribeList
new_subscribe_list = record { sub_list = []; pub_list = [] }

unfoldable pub subscribe : ℕ → ℕ → SubscribeList → SubscribeList
unfolding insert_at
subscribe key fd s = record s { sub_list = insert_at key fd s.sub_list }

-- The set without the client; its entry goes when that leaves nothing.
unfoldable pub drop_client : ℕ → ℕ → Option (List ℕ) → SetMap → SetMap
drop_client key fd none m = m
drop_client key fd (some fds) m =
    if is_nil (remove fd fds)
    then erase key (put key (remove fd fds) m)
    else put key (remove fd fds) m

unfoldable pub unsubscribe : ℕ → ℕ → SubscribeList → SubscribeList
unfolding drop_client
unsubscribe key fd s = record s { sub_list = drop_client key fd (lookup key s.sub_list) s.sub_list }

-- The change of `key` is noted for each client.
unfoldable pub note_change : ℕ → List ℕ → SetMap → SetMap
note_change key [] m = m
note_change key (fd ∷ fds) m = note_change key fds (insert_at fd key m)

-- The first part of `publish`; the second is a task for each thread, `push_change_task`.
unfoldable pub publish : List ℕ → SubscribeList → SubscribeList
unfolding note_change
publish [] s = s
publish (key ∷ mods) s =
    publish mods (record s { pub_list = note_change key (set_at key s.sub_list) s.pub_list })

-- The loop of `make_publish_map` over the keys of the publish list.
unfoldable pub copy_online : List ℕ → SetMap → List ℕ → SetMap → SetMap
unfolding insert_all
copy_online online pubs [] need_pub = need_pub
copy_online online pubs (fd ∷ fds) need_pub =
    copy_online online pubs fds
      (if contains fd online then insert_all fd (set_at fd pubs) need_pub else need_pub)

unfoldable pub make_publish_map : List ℕ → SubscribeList → SetMap → SetMap
unfolding copy_online
make_publish_map online s need_pub = copy_online online s.pub_list (keys s.pub_list) need_pub

-- A response on its way to a client.
abbrev pub Sent : Type 0
Sent = ℕ × GetRouteResponse

-- The response that is made for a module.
unfoldable pub change_response : (ℕ → ℕ → List ℕ) → ℕ → GetRouteResponse
unfolding add_hosts key_high key_low
change_response get_hosts key = record {
  modid = key_high key;
  cmdid = key_low key;
  host = add_hosts (get_hosts (key_high key) (key_low key));
}

-- One client's modules: a message for each, if the connection is there; the client leaves the
-- publish list.
unfoldable pub push_mods :
    (ℕ → ℕ → List ℕ) → Bool → ℕ → List ℕ → SubscribeList → List Sent × SubscribeList
unfolding change_response
push_mods get_hosts connected fd [] s = ([], s)
push_mods get_hosts connected fd (key ∷ mods) s =
    let rest =
      push_mods get_hosts connected fd mods (record s { pub_list = erase fd s.pub_list }) in
    (if connected then (fd, change_response get_hosts key) ∷ rest.0 else rest.0, rest.1)

unfoldable pub push_clients :
    (ℕ → ℕ → List ℕ) → (ℕ → Bool) → SetMap → SubscribeList → List Sent × SubscribeList
unfolding push_mods
push_clients get_hosts conns [] s = ([], s)
push_clients get_hosts conns ((fd, mods) ∷ need) s =
    let here = push_mods get_hosts (conns fd) fd mods s in
    let rest = push_clients get_hosts conns need here.1 in (here.0 ++ rest.0, rest.1)

-- The task of one thread: `online` are the descriptors that its loop listens to, `conns` tells
-- which have a connection, and `get_hosts` is that of the route.
unfoldable pub push_change_task :
    (ℕ → ℕ → List ℕ) → (ℕ → Bool) → List ℕ → SubscribeList → List Sent × SubscribeList
unfolding make_publish_map push_clients
push_change_task get_hosts conns online s =
    push_clients get_hosts conns (make_publish_map online s []) s
