-- ===== src/Dns/SubscribeList/Publishing.antt =====
-- `push_change_task` of subscribe.cpp: which messages are sent, and what stays pending.
use lars_system.Base.{
  ℕ, ◌≡◌, ◌≢◌, refl, ◌==◌, Bool, true, false, not, ◌&&◌, ◌||◌, if◌then◌else◌, List, [], ◌∷◌, ◌∙◌,
  inl, inr, lookup, put, erase, keys, contains, contains-keys, is_nil, arith, Option-cases,
  Bool-cases,
}
use lars_system.Base.Sets.{
  SetMap, set_at, insert_at, insert_all, holds, holds-insert_all, holds-erase,
}
use lars_system.Dns.SubscribeList.{
  SubscribeList, copy_online, make_publish_map, push_mods, push_clients, push_change_task,
}
use lars_system.Dns.SubscribeList.Subscriptions.{pending}

holds-copy_online :
    (online : List ℕ) (pubs : SetMap) (fds : List ℕ) (f m : ℕ) (need : SetMap)
    → holds f m (copy_online online pubs fds need)
      ≡ ((contains f fds && contains f online && holds f m pubs) || holds f m need)
unfolding copy_online contains holds
holds-copy_online online pubs [] f m need = ground arith
holds-copy_online online pubs (fd ∷ fds) f m need = ground (
  arith,
  holds-copy_online online pubs fds f m
      (if contains fd online then insert_all fd (set_at fd pubs) need else need),
  holds-insert_all fd (set_at fd pubs) f m need,
)

holds-keys : (k x : ℕ) (m : SetMap) → holds k x m ≡ true → contains k (keys m) ≡ true
unfolding holds set_at contains
holds-keys k x m h = elim (Option-cases (lookup k m)) [
  | inl e ↦ ground (arith, e)
  | inr (v, e) ↦ contains-keys k m v e
]

holds_nil : (f m : ℕ) → holds f m [] ≡ false
unfolding holds set_at lookup contains
holds_nil f m = refl

-- The map of what to publish: the changes that the clients online wait for.
pub holds-make_publish_map :
    (online : List ℕ) (s : SubscribeList) (f m : ℕ)
    → holds f m (make_publish_map online s []) ≡ (contains f online && pending f m s)
unfolding make_publish_map pending
holds-make_publish_map online s f m = ground (
  arith,
  holds-copy_online online s.pub_list (keys s.pub_list) f m [],
  holds-keys f m s.pub_list,
  holds_nil f m,
)

-- The map has an entry for the client that names at least one module.
unfoldable erased : ℕ → SetMap → Bool
erased f [] = false
erased f ((fd, mods) ∷ need) = ((fd == f) && not (is_nil mods)) || erased f need

holds-erased : (f m : ℕ) (need : SetMap) → holds f m need ≡ true → erased f need ≡ true
unfolding holds set_at lookup contains erased
holds-erased f m [] h = ground arith
holds-erased f m ((fd, []) ∷ need) h = ground (arith, holds-erased f m need)
holds-erased f m ((fd, x ∷ mods) ∷ need) h = ground (arith, holds-erased f m need)

pending-push_mods :
    (get_hosts : ℕ → ℕ → List ℕ) (connected : Bool) (fd : ℕ) (mods : List ℕ) (f m : ℕ)
    (s : SubscribeList)
    → pending f m (push_mods get_hosts connected fd mods s).1
      ≡ (not ((fd == f) && not (is_nil mods)) && pending f m s)
unfolding push_mods pending
pending-push_mods get_hosts connected fd [] f m s = ground arith
pending-push_mods get_hosts connected fd (key ∷ mods) f m s = ground (
  arith,
  pending-push_mods get_hosts connected fd mods f m (record s { pub_list = erase fd s.pub_list }),
  holds-erase fd f m s.pub_list,
)

pending-push_clients :
    (get_hosts : ℕ → ℕ → List ℕ) (conns : ℕ → Bool) (need : SetMap) (f m : ℕ) (s : SubscribeList)
    → pending f m (push_clients get_hosts conns need s).1 ≡ (not (erased f need) && pending f m s)
unfolding push_clients erased
pending-push_clients get_hosts conns [] f m s = refl
pending-push_clients get_hosts conns ((fd, mods) ∷ need) f m s = ground (
  arith,
  pending-push_clients get_hosts conns need f m (push_mods get_hosts (conns fd) fd mods s).1,
  pending-push_mods get_hosts (conns fd) fd mods f m s,
)

erased-put : (f k : ℕ) (v : List ℕ) (m : SetMap) → f ≢ k → erased f (put k v m) ≡ erased f m
unfolding erased put
erased-put f k v [] h = ground arith
erased-put f k v ((j, w) ∷ m) h = ground (arith, erased-put f k v m h)

erased-insert_all :
    (f k : ℕ) (xs : List ℕ) (m : SetMap) → f ≢ k → erased f (insert_all k xs m) ≡ erased f m
unfolding insert_all insert_at
erased-insert_all f k [] m h = refl
erased-insert_all f k (x ∷ xs) m h =
    erased-insert_all f k xs (insert_at k x m) h ∙ erased-put f k _ m h

erased-copy_online :
    (online : List ℕ) (pubs : SetMap) (fds : List ℕ) (f : ℕ) (need : SetMap)
    → contains f online ≡ false
    → erased f (copy_online online pubs fds need) ≡ erased f need
unfolding copy_online
erased-copy_online online pubs [] f need h = refl
erased-copy_online online pubs (fd ∷ fds) f need h = elim (Bool-cases (contains fd online)) [
  | inl e ↦ rw e (
      erased-copy_online online pubs fds f (insert_all fd (set_at fd pubs) need) h
      ∙ erased-insert_all f fd (set_at fd pubs) need (ground (arith, e)))
  | inr e ↦ rw e (erased-copy_online online pubs fds f need h)
]

-- After the task of a thread, with nothing of other threads in between, what is pending is what was
-- pending for the clients that the thread does not listen to.
pub pending-push_change_task :
    (get_hosts : ℕ → ℕ → List ℕ) (conns : ℕ → Bool) (online : List ℕ) (s : SubscribeList) (f m : ℕ)
    → pending f m (push_change_task get_hosts conns online s).1
      ≡ (not (contains f online) && pending f m s)
unfolding push_change_task make_publish_map erased
pending-push_change_task get_hosts conns online s f m = elim (Bool-cases (contains f online)) [
  | inl e ↦ ground (
    arith,
    e,
    pending-push_clients get_hosts conns (make_publish_map online s []) f m s,
    holds-make_publish_map online s f m,
    holds-erased f m (make_publish_map online s []),
  )
  | inr e ↦ ground (
    arith,
    e,
    pending-push_clients get_hosts conns (make_publish_map online s []) f m s,
    erased-copy_online online s.pub_list (keys s.pub_list) f [] e,
  )
]
