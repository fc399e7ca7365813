-- ===== src/Dns/SubscribeList/Soundness.antt =====
-- `push_change_task` of subscribe.cpp sends nothing that is not due.
use mathlib.Core.Path.{subst}
use lars_system.Base.{
  ℕ, ◌≡◌, refl, ◌==◌, Bool, true, false, List, [], ◌∷◌, ◌++◌, lookup, put, keys, erase, insert,
  contains, arith, Bool-cases, inl, inr,
}
use lars_system.Base.Sets.{SetMap, set_at, insert_at, insert_all, holds}
use lars_system.Dns.SubscribeList.{
  SubscribeList, copy_online, make_publish_map, Sent, change_response, push_mods, push_clients,
  push_change_task,
}
use lars_system.Dns.SubscribeList.Subscriptions.{pending}
use lars_system.Dns.Messages.Answers.{Tells, add_hosts-Unpacks}
use lars_system.Base.{key_high, key_low}

-- Each member of a set, and each member of each set of a map, has the property.
unfoldable pub Each : (ℕ → Type 0) → List ℕ → Type 0
Each P [] = Unit {0}
Each P (x ∷ xs) = P x × Each P xs

unfoldable pub EachIn : (ℕ → ℕ → Type 0) → SetMap → Type 0
EachIn P [] = Unit {0}
EachIn P ((k, xs) ∷ m) = Each (P k) xs × EachIn P m

Each-append : (P : ℕ → Type 0) (xs : List ℕ) (y : ℕ) → Each P xs → P y → Each P (xs ++ y ∷ [])
unfolding Each
Each-append P [] y h p = (p, tt)
Each-append P (x ∷ xs) y h p = (h.0, Each-append P xs y h.1 p)

Each-insert : (P : ℕ → Type 0) (y : ℕ) (xs : List ℕ) → Each P xs → P y → Each P (insert y xs)
unfolding insert
Each-insert P y xs h p = elim (Bool-cases (contains y xs)) [
  | inl e ↦ rw e h
  | inr e ↦ rw e (Each-append P xs y h p)
]

pub Each-contains :
    (P : ℕ → Type 0) (xs : List ℕ) → ((x : ℕ) → contains x xs ≡ true → P x) → Each P xs
unfolding Each contains
Each-contains P [] h = tt
Each-contains P (x ∷ xs) h =
    (h x (ground arith), Each-contains P xs (λ y c. h y (ground (arith, c))))

set_at-EachIn : (P : ℕ → ℕ → Type 0) (k : ℕ) (m : SetMap) → EachIn P m → Each (P k) (set_at k m)
unfolding EachIn set_at lookup Each
set_at-EachIn P k [] h = tt
set_at-EachIn P k ((j, xs) ∷ m) h = elim (Bool-cases (j == k)) [
  | inl e ↦ rw e (subst (λ i. Each (P i) xs) (ground (arith, e)) h.0)
  | inr e ↦ rw e (set_at-EachIn P k m h.1)
]

put-EachIn :
    (P : ℕ → ℕ → Type 0) (k : ℕ) (xs : List ℕ) (m : SetMap)
    → Each (P k) xs
    → EachIn P m
    → EachIn P (put k xs m)
unfolding EachIn put
put-EachIn P k xs [] h hs = (h, tt)
put-EachIn P k xs ((j, ys) ∷ m) h hs = elim (Bool-cases (j == k)) [
  | inl e ↦ rw e (h, hs.1)
  | inr e ↦ rw e (hs.0, put-EachIn P k xs m h hs.1)
]

insert_all-EachIn :
    (P : ℕ → ℕ → Type 0) (k : ℕ) (xs : List ℕ) (m : SetMap)
    → Each (P k) xs
    → EachIn P m
    → EachIn P (insert_all k xs m)
unfolding insert_all insert_at Each
insert_all-EachIn P k [] m h hs = hs
insert_all-EachIn P k (x ∷ xs) m h hs =
    insert_all-EachIn P k xs (insert_at k x m) h.1
      (put-EachIn P k _ m (Each-insert (P k) x (set_at k m) (set_at-EachIn P k m hs) h.0) hs)

pub copy_online-EachIn :
    (P : ℕ → ℕ → Type 0) (online : List ℕ) (pubs : SetMap) (fds : List ℕ) (need : SetMap)
    → ((fd : ℕ) → contains fd online ≡ true → Each (P fd) (set_at fd pubs))
    → EachIn P need
    → EachIn P (copy_online online pubs fds need)
unfolding copy_online
copy_online-EachIn P online pubs [] need h hs = hs
copy_online-EachIn P online pubs (fd ∷ fds) need h hs = elim (Bool-cases (contains fd online)) [
  | inl e ↦ rw e (
      copy_online-EachIn P online pubs fds (insert_all fd (set_at fd pubs) need) h
        (insert_all-EachIn P fd (set_at fd pubs) need (h fd e) hs))
  | inr e ↦ rw e (copy_online-EachIn P online pubs fds need h hs)
]

-- The response for a module is about the pair in its key, with the hosts of the route.
pub change_response-Tells :
    (get_hosts : ℕ → ℕ → List ℕ) (key : ℕ) → Tells get_hosts key (change_response get_hosts key)
unfolding change_response key_high key_low
change_response-Tells get_hosts key =
    (refl, refl, add_hosts-Unpacks (get_hosts (key_high key) (key_low key)))

module _ (get_hosts : ℕ → ℕ → List ℕ) (conns : ℕ → Bool) where
  -- A message to a connected client about a module with the property.
  unfoldable pub DueMessage : (ℕ → ℕ → Type 0) → Sent → Type 0
  DueMessage P (f, r) = (conns f ≡ true) × ((m : ℕ) × P f m × Tells get_hosts m r)

  unfoldable pub AllDue : (ℕ → ℕ → Type 0) → List Sent → Type 0
  AllDue P [] = Unit {0}
  AllDue P (x ∷ xs) = DueMessage P x × AllDue P xs

  AllDue-append :
      (P : ℕ → ℕ → Type 0) (xs ys : List Sent) → AllDue P xs → AllDue P ys → AllDue P (xs ++ ys)
  unfolding AllDue
  AllDue-append P [] ys h k = k
  AllDue-append P (x ∷ xs) ys h k = (h.0, AllDue-append P xs ys h.1 k)

  push_mods-AllDue :
      (P : ℕ → ℕ → Type 0) (connected : Bool) (fd : ℕ) (mods : List ℕ) (s : SubscribeList)
      → conns fd ≡ connected
      → Each (P fd) mods
      → AllDue P (push_mods get_hosts connected fd mods s).0
  unfolding push_mods Each AllDue DueMessage
  push_mods-AllDue P connected fd [] s c h = tt
  push_mods-AllDue P true fd (key ∷ mods) s c h = (
    (c, (key, h.0, change_response-Tells get_hosts key)),
    push_mods-AllDue P true fd mods (record s { pub_list = erase fd s.pub_list }) c h.1,
  )
  push_mods-AllDue P false fd (key ∷ mods) s c h =
      push_mods-AllDue P false fd mods (record s { pub_list = erase fd s.pub_list }) c h.1

  push_clients-AllDue :
      (P : ℕ → ℕ → Type 0) (need : SetMap) (s : SubscribeList)
      → EachIn P need
      → AllDue P (push_clients get_hosts conns need s).0
  unfolding push_clients EachIn AllDue
  push_clients-AllDue P [] s h = tt
  push_clients-AllDue P ((fd, mods) ∷ need) s h =
      AllDue-append P _ _ (push_mods-AllDue P (conns fd) fd mods s refl h.0)
        (push_clients-AllDue P need (push_mods get_hosts (conns fd) fd mods s).1 h.1)

  -- With nothing of other threads in between, every message of the task goes to a client that the
  -- thread listens to and that has a connection, and is about the pair in the two halves of the key
  -- of a module whose change the client waits for, with the hosts that the route has for that pair,
  -- unpacked.
  pub push_change_task-AllDue :
      (online : List ℕ) (s : SubscribeList)
      → AllDue
          (λ f m. (contains f online ≡ true) × (pending f m s ≡ true))
          (push_change_task get_hosts conns online s).0
  unfolding push_change_task make_publish_map pending holds EachIn
  push_change_task-AllDue online s = push_clients-AllDue _ (make_publish_map online s []) s (
      copy_online-EachIn _ online s.pub_list (keys s.pub_list) []
        (λ fd e. Each-contains _ (set_at fd s.pub_list) (λ x c. (e, c))) tt)
