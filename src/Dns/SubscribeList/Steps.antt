-- ===== src/Dns/SubscribeList/Steps.antt =====
-- `push_change_task` of subscribe.cpp in parts: the copy of the publish list is made under its mutex,
-- each message is sent and its client erased from the list without it, and the threads of the pool
-- do so in any order.

use lars_system.Base.{
  ℕ, ◌≡◌, refl, ap, ◌∙◌, ◌==◌, Bool, true, false, if◌then◌else◌, List, [], ◌∷◌, ◌++◌, erase,
}
use lars_system.Base.Sets.{SetMap}
use lars_system.Dns.SubscribeList.{
  SubscribeList, Sent, change_response, make_publish_map, push_mods, push_clients,
}

-- What a thread listens to, and which of these descriptors have a connection.
pub record Thread : Type 0 where
  pub online : List ℕ
  pub conns : ℕ → Bool

-- A client and a module.
abbrev pub Item : Type 0
Item = ℕ × ℕ

-- The two loops, over the clients and over the modules of each, as one list of turns.
unfoldable pub client_items : ℕ → List ℕ → List Item
client_items fd [] = []
client_items fd (key ∷ mods) = (fd, key) ∷ client_items fd mods

unfoldable pub items : SetMap → List Item
unfolding client_items
items [] = []
items ((fd, mods) ∷ need) = client_items fd mods ++ items need

-- A turn: a message, if the connection is there, and the client leaves the publish list.
unfoldable pub push_one :
    (ℕ → ℕ → List ℕ) → (ℕ → Bool) → Item → SubscribeList → List Sent × SubscribeList
unfolding change_response
push_one get_hosts conns (fd, key) s = (
  if conns fd then (fd, change_response get_hosts key) ∷ [] else [],
  record s { pub_list = erase fd s.pub_list },
)

-- Where a thread is in its task.
pub data Phase : Type 0 where
  waits : Phase
  pushes : List Item → Phase

pub record State : Type 0 where
  pub subs : SubscribeList
  pub sent : List Sent
  pub phase : ℕ → Phase

abbrev pub set_phase : ℕ → Phase → (ℕ → Phase) → ℕ → Phase
set_phase k p phase j = if k == j then p else phase j

-- After `publish`: every thread has the task.
abbrev pub start : SubscribeList → State
start s = record { subs = s; sent = []; phase = λ k. waits }

-- A part of the task of the thread `k`.
pub data Step (get_hosts : ℕ → ℕ → List ℕ) (threads : ℕ → Thread) : State → State → Type 0 where
  copies :
      (k : ℕ) (s : State)
      → s.phase k ≡ waits
      → Step get_hosts threads s (record s {
        phase =
            set_phase k (pushes (items (make_publish_map (threads k).online s.subs []))) s.phase;
      })
  sends_one :
      (k : ℕ) (i : Item) (is : List Item) (s : State)
      → s.phase k ≡ pushes (i ∷ is)
      → Step get_hosts threads s (record s {
        subs = (push_one get_hosts (threads k).conns i s.subs).1;
        sent = s.sent ++ (push_one get_hosts (threads k).conns i s.subs).0;
        phase = set_phase k (pushes is) s.phase;
      })

pub data Steps (get_hosts : ℕ → ℕ → List ℕ) (threads : ℕ → Thread) (s : State)
    : State → Type 0 where
  none_yet : Steps get_hosts threads s s
  then_one :
      {t u : State}
      → Steps get_hosts threads s t
      → Step get_hosts threads t u
      → Steps get_hosts threads s u

-- The turns one after the other, with no other thread in between.
unfoldable push_items :
    (ℕ → ℕ → List ℕ) → (ℕ → Bool) → List Item → SubscribeList → List Sent × SubscribeList
push_items get_hosts conns [] s = ([], s)
push_items get_hosts conns (i ∷ is) s =
    let here = push_one get_hosts conns i s in
    let rest = push_items get_hosts conns is here.1 in (here.0 ++ rest.0, rest.1)

push_mods-next :
    (get_hosts : ℕ → ℕ → List ℕ) (connected : Bool) (fd key : ℕ) (rest : List Sent × SubscribeList)
    (more : List Sent)
    → ((if connected then (fd, change_response get_hosts key) ∷ [] else []) ++ (rest.0 ++ more))
      ≡ ((if connected then (fd, change_response get_hosts key) ∷ rest.0 else rest.0) ++ more)
push_mods-next get_hosts true fd key rest more = refl
push_mods-next get_hosts false fd key rest more = refl

push_items-client :
    (get_hosts : ℕ → ℕ → List ℕ) (conns : ℕ → Bool) (fd : ℕ) (mods : List ℕ) (more : List Item)
    (s : SubscribeList)
    → let here = push_mods get_hosts (conns fd) fd mods s in
      let rest = push_items get_hosts conns more here.1 in
      push_items get_hosts conns (client_items fd mods ++ more) s ≡ (here.0 ++ rest.0, rest.1)
unfolding push_items client_items push_mods push_one
push_items-client get_hosts conns fd [] more s = refl
push_items-client get_hosts conns fd (key ∷ mods) more s =
    let next : SubscribeList = record s { pub_list = erase fd s.pub_list } in
    let here = push_mods get_hosts (conns fd) fd mods next in
    let rest = push_items get_hosts conns more here.1 in
    ap (λ r. ((if conns fd then (fd, change_response get_hosts key) ∷ [] else []) ++ r.0, r.1))
      (push_items-client get_hosts conns fd mods more next)
    ∙ ap (λ l. (l, rest.1)) (push_mods-next get_hosts (conns fd) fd key here rest.0)

-- With no other thread in between, the parts make up the task.
push_items-push_clients :
    (get_hosts : ℕ → ℕ → List ℕ) (conns : ℕ → Bool) (need : SetMap) (s : SubscribeList)
    → push_items get_hosts conns (items need) s ≡ push_clients get_hosts conns need s
unfolding push_items items push_clients
push_items-push_clients get_hosts conns [] s = refl
push_items-push_clients get_hosts conns ((fd, mods) ∷ need) s =
    let here = push_mods get_hosts (conns fd) fd mods s in
    push_items-client get_hosts conns fd mods (items need) s
    ∙ ap (λ r. (here.0 ++ r.0, r.1)) (push_items-push_clients get_hosts conns need here.1)
