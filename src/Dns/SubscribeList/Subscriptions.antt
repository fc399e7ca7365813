-- ===== src/Dns/SubscribeList/Subscriptions.antt =====
-- `subscribe`, `unsubscribe` and `publish` as operations on two relations: which client uses which
-- module, and which client waits for the change of which module.
use lars_system.Base.{
  insert, ℕ, ◌≡◌, refl, ◌==◌, Bool, true, false, not, ◌&&◌, ◌||◌, Option, none, some, List, [], ◌∷◌,
  lookup, put, lookup-put, lookup-erase, is_nil, remove, contains, contains-remove, arith,
}
use lars_system.Base.Sets.{SetMap, set_at, insert_at, holds, holds-insert_at}
use lars_system.Dns.SubscribeList.{
  SubscribeList, subscribe, unsubscribe, drop_client, note_change, publish,
}

-- The client `fd` uses `key`; the client `fd` waits for the change of `key`.
unfoldable pub subscribed : ℕ → ℕ → SubscribeList → Bool
subscribed key fd s = holds key fd s.sub_list

unfoldable pub pending : ℕ → ℕ → SubscribeList → Bool
pending fd key s = holds fd key s.pub_list

-- After `subscribe` the pair is there, every other pair is as before, and nothing new is pending.
pub subscribed-subscribe :
    (key fd m f : ℕ) (s : SubscribeList)
    → (subscribed m f (subscribe key fd s) ≡ (((key == m) && (fd == f)) || subscribed m f s))
      × (pending f m (subscribe key fd s) ≡ pending f m s)
unfolding subscribed subscribe pending
subscribed-subscribe key fd m f s = (holds-insert_at key fd m f s.sub_list, refl)

is_nil-contains : (a : ℕ) (xs : List ℕ) → is_nil xs ≡ true → contains a xs ≡ false
unfolding contains
is_nil-contains a [] h = refl
is_nil-contains a (x ∷ xs) h = ground arith

holds-drop_client :
    (key fd m f : ℕ) (o : Option (List ℕ)) (l : SetMap)
    → lookup key l ≡ o
    → holds m f (drop_client key fd o l) ≡ (not ((key == m) && (fd == f)) && holds m f l)
unfolding holds set_at drop_client contains
holds-drop_client key fd m f none l e = ground arith
holds-drop_client key fd m f (some fds) l e = ground (
  arith,
  lookup-put key m (remove fd fds) l,
  lookup-erase key m (put key (remove fd fds) l),
  contains-remove f fd fds,
  is_nil-contains f (remove fd fds),
)

-- After `unSubscribe` the pair is gone, every other pair is as before, and what is pending stays.
pub subscribed-unsubscribe :
    (key fd m f : ℕ) (s : SubscribeList)
    → (subscribed m f (unsubscribe key fd s) ≡ (not ((key == m) && (fd == f)) && subscribed m f s))
      × (pending f m (unsubscribe key fd s) ≡ pending f m s)
unfolding subscribed unsubscribe pending
subscribed-unsubscribe key fd m f s =
    (holds-drop_client key fd m f (lookup key s.sub_list) s.sub_list refl, refl)

-- No module has an empty set of clients.
abbrev pub NoEmpty : SubscribeList → Type 0
NoEmpty s = (key : ℕ) (fds : List ℕ) → lookup key s.sub_list ≡ some fds → is_nil fds ≡ false

insert-is_nil : (x : ℕ) (xs : List ℕ) → is_nil (insert x xs) ≡ false
unfolding insert contains
insert-is_nil x [] = refl
insert-is_nil x (y ∷ ys) = ground arith

-- `subscribe` and `unSubscribe` leave no module with an empty set, if there was none.
pub subscribe-NoEmpty :
    (key fd : ℕ) (s : SubscribeList)
    → NoEmpty s
    → NoEmpty (subscribe key fd s) × NoEmpty (unsubscribe key fd s)
unfolding subscribe insert_at unsubscribe drop_client
subscribe-NoEmpty key fd s v = (on_subscribe, on_unsubscribe)
  where
    on_subscribe : NoEmpty (subscribe key fd s)
    on_subscribe m fds h = ground (
      arith,
      lookup-put key m (insert fd (set_at key s.sub_list)) s.sub_list,
      insert-is_nil fd (set_at key s.sub_list),
      v m fds,
    )

    dropped :
        (o : Option (List ℕ)) (m : ℕ) (fds : List ℕ)
        → lookup m (drop_client key fd o s.sub_list) ≡ some fds
        → is_nil fds ≡ false
    dropped none m fds h = v m fds h
    dropped (some old) m fds h = ground (
      arith,
      lookup-put key m (remove fd old) s.sub_list,
      lookup-erase key m (put key (remove fd old) s.sub_list),
      v m fds,
    )

    on_unsubscribe : NoEmpty (unsubscribe key fd s)
    on_unsubscribe m fds h = dropped (lookup key s.sub_list) m fds h

holds-note_change :
    (key : ℕ) (fds : List ℕ) (f m : ℕ) (l : SetMap)
    → holds f m (note_change key fds l) ≡ (((key == m) && contains f fds) || holds f m l)
unfolding note_change contains
holds-note_change key [] f m l = ground arith
holds-note_change key (fd ∷ fds) f m l =
    ground (arith, holds-note_change key fds f m (insert_at fd key l), holds-insert_at fd key f m l)

-- After `publish`, a client waits for a module if it did before, or if the module is among the
-- changes and the client uses it; the subscriptions are as before.
pub pending-publish :
    (mods : List ℕ) (f m : ℕ) (s : SubscribeList)
    → (pending f m (publish mods s) ≡ (pending f m s || (contains m mods && subscribed m f s)))
      × ((publish mods s).sub_list ≡ s.sub_list)
unfolding publish pending subscribed contains holds
pending-publish [] f m s = (ground arith, refl)
pending-publish (key ∷ mods) f m s =
    let next : SubscribeList = record s {
      pub_list = note_change key (set_at key s.sub_list) s.pub_list;
    } in
    let rest = pending-publish mods f m next in
    (ground (arith, rest.0, holds-note_change key (set_at key s.sub_list) f m s.pub_list), rest.1)
