-- ===== src/Dns/Service.antt =====
-- dns_service.cpp: what the service does when a connection starts, asks, and ends. `param` is the set
-- of modules that the connection has asked for, or the null pointer.
pub mod Sessions
use lars_system.Base.{
  ℕ, ◌≡◌, Bool, true, false, if◌then◌else◌, Option, none, some, List, [], ◌∷◌, contains, insert,
  pack_key,
}
use lars_system.Dns.Messages.{GetRouteResponse, add_hosts}
use lars_system.Dns.SubscribeList.{SubscribeList, subscribe, unsubscribe}
use lars_system.Dns.Route.{Route, get_hosts}

pub record Session : Type 0 where
  pub fd : ℕ
  pub param : Option (List ℕ)

unfoldable pub create_subscribe : Session → Session
create_subscribe c = record c { param = some [] }

-- Each module of the set is unsubscribed.
unfoldable pub unsubscribe_all : ℕ → List ℕ → SubscribeList → SubscribeList
unsubscribe_all fd [] s = s
unsubscribe_all fd (key ∷ keys) s = unsubscribe_all fd keys (unsubscribe key fd s)

-- `none` is the use of a null pointer.
unfoldable pub clear_subscribe : Session → SubscribeList → Option (Session × SubscribeList)
unfolding unsubscribe_all
clear_subscribe c s = elim c.param [
  | none ↦ none
  | some keys ↦ some (record c { param = none }, unsubscribe_all c.fd keys s)
]

unfoldable pub note_request :
    ℕ → Session → Option (List ℕ) → SubscribeList → Session × SubscribeList
note_request key c none s = (c, s)
note_request key c (some keys) s =
    if contains key keys
    then (c, s)
    else (record c { param = some (insert key keys) }, subscribe key c.fd s)

unfoldable pub route_response : Route → ℕ → ℕ → GetRouteResponse
unfolding get_hosts add_hosts
route_response r modid cmdid = record {
  modid = modid;
  cmdid = cmdid;
  host = add_hosts (get_hosts r modid cmdid);
}

-- `get_request` for a request that was read from the message; the response is what is sent.
unfoldable pub get_request :
    Route → ℕ → ℕ → Session → SubscribeList → GetRouteResponse × (Session × SubscribeList)
unfolding note_request route_response pack_key
get_request r modid cmdid c s =
    (route_response r modid cmdid, note_request (pack_key modid cmdid) c c.param s)
