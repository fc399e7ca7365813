-- ===== src/Dns/SubscribeList/Items.antt =====
-- The turns that the copy of the publish list in `push_change_task` comes to, and their clients.

use lars_system.Base.{
  ℕ, ◌≡◌, ◌==◌, Bool, true, false, ◌&&◌, ◌||◌, List, [], ◌∷◌, ◌++◌, lookup, keys, contains, arith,
  Bool-cases, inl, inr,
}
use lars_system.Base.Sets.{SetMap, set_at, holds}
use lars_system.Dns.SubscribeList.{SubscribeList, make_publish_map}
use lars_system.Dns.SubscribeList.Steps.{Item, client_items, items}
use lars_system.Dns.SubscribeList.Soundness.{Each, EachIn, Each-contains, copy_online-EachIn}

-- The turn of a client and a module is among those to come.
unfoldable pub has : ℕ → ℕ → List Item → Bool
has f m [] = false
has f m ((fd, key) ∷ is) = ((fd == f) && (key == m)) || has f m is

has-client :
    (f m fd : ℕ) (mods : List ℕ) (is : List Item)
    → has f m (client_items fd mods ++ is) ≡ (((fd == f) && contains m mods) || has f m is)
unfolding has client_items contains
has-client f m fd [] is = ground arith
has-client f m fd (key ∷ mods) is = ground (arith, has-client f m fd mods is)

pub has-items : (f m : ℕ) (need : SetMap) → holds f m need ≡ true → has f m (items need) ≡ true
unfolding has items holds set_at lookup contains
has-items f m [] h = absurd (ground arith)
has-items f m ((fd, mods) ∷ need) h = elim (Bool-cases (fd == f)) [
  | inl e ↦ ground (arith, e, h, has-client f m fd mods (items need))
  | inr e ↦ ground (arith, e, h, has-items f m need, has-client f m fd mods (items need))
]

-- Every client of the turns is one that the thread listens to.
unfoldable pub AllOnline : List ℕ → List Item → Type 0
AllOnline online [] = Unit {0}
AllOnline online ((fd, key) ∷ is) = (contains fd online ≡ true) × AllOnline online is

AllOnline-client :
    (online : List ℕ) (fd : ℕ) (mods : List ℕ) (is : List Item)
    → Each (λ m. contains fd online ≡ true) mods
    → AllOnline online is
    → AllOnline online (client_items fd mods ++ is)
unfolding AllOnline client_items Each
AllOnline-client online fd [] is e a = a
AllOnline-client online fd (key ∷ mods) is (e, es) a = (e, AllOnline-client online fd mods is es a)

AllOnline-items :
    (online : List ℕ) (need : SetMap)
    → EachIn (λ fd m. contains fd online ≡ true) need
    → AllOnline online (items need)
unfolding items EachIn AllOnline
AllOnline-items online [] e = tt
AllOnline-items online ((fd, mods) ∷ need) (e, es) =
    AllOnline-client online fd mods (items need) e (AllOnline-items online need es)

pub copied-AllOnline :
    (online : List ℕ) (s : SubscribeList) → AllOnline online (items (make_publish_map online s []))
unfolding make_publish_map EachIn
copied-AllOnline online s = AllOnline-items online (make_publish_map online s []) (
    copy_online-EachIn _ online s.pub_list (keys s.pub_list) []
      (λ fd e. Each-contains _ (set_at fd s.pub_list) (λ x c. e)) tt)
