-- ===== src/Dns/SubscribeList/Delivery.antt =====
-- `push_change_task` of subscribe.cpp: the messages that it sends.
use mathlib.Core.List.{Memᴰ}
use mathlib.Core.List.Memᴰ.{head, tail, append_left, append_right}
use lars_system.Base.{
  sym, ℕ, ◌≡◌, ◌==◌, Bool, true, List, [], ◌∷◌, ◌∙◌, ap, inl, inr, lookup, erase, contains, arith,
  Bool-cases,
}
use mathlib.Core.Path.{ap₂}
use lars_system.Base.Sets.{SetMap, set_at, holds}
use lars_system.Dns.SubscribeList.{
  SubscribeList, make_publish_map, change_response, push_mods, push_clients, push_change_task,
}
use lars_system.Dns.SubscribeList.Subscriptions.{pending}
use lars_system.Dns.SubscribeList.Publishing.{holds-make_publish_map}

module _ (get_hosts : ℕ → ℕ → List ℕ) (conns : ℕ → Bool) where
  push_mods-sends :
      (connected : Bool) (fd f : ℕ) (mods : List ℕ) (m : ℕ) (s : SubscribeList)
      → connected ≡ true
      → fd ≡ f
      → contains m mods ≡ true
      → Memᴰ (f, change_response get_hosts m) (push_mods get_hosts connected fd mods s).0
  unfolding push_mods contains
  push_mods-sends connected fd f [] m s c same h = absurd (ground arith)
  push_mods-sends connected fd f (key ∷ mods) m s c same h = elim (Bool-cases (key == m)) [
    | inl e ↦
        rw c (head (ap₂ (λ i k. (i, change_response get_hosts k)) (sym same) (ground (arith, e))))
    | inr e ↦
        let next : SubscribeList = record s { pub_list = erase fd s.pub_list } in
        let rest = push_mods-sends connected fd f mods m next c same (ground (arith, e)) in
        rw c (tail rest)
  ]

  push_clients-sends :
      (need : SetMap) (f m : ℕ) (s : SubscribeList)
      → conns f ≡ true
      → holds f m need ≡ true
      → Memᴰ (f, change_response get_hosts m) (push_clients get_hosts conns need s).0
  unfolding push_clients holds set_at lookup contains
  push_clients-sends [] f m s c h = absurd (ground arith)
  push_clients-sends ((fd, mods) ∷ need) f m s c h = elim (Bool-cases (fd == f)) [
    | inl e ↦
        let same : fd ≡ f = ground (arith, e) in
        append_left _
          (push_mods-sends (conns fd) fd f mods m s (ap conns same ∙ c) same (ground (arith, e)))
    | inr e ↦ append_right _ (
        push_clients-sends need f m (push_mods get_hosts (conns fd) fd mods s).1 c
          (ground (arith, e)))
  ]

  -- A client that the thread listens to, that has a connection and waits for the change of a module,
  -- is sent that module's hosts as the route has them.
  pub push_change_task-sends :
      (online : List ℕ) (s : SubscribeList) (f m : ℕ)
      → contains f online ≡ true
      → conns f ≡ true
      → pending f m s ≡ true
      → Memᴰ (f, change_response get_hosts m) (push_change_task get_hosts conns online s).0
  unfolding push_change_task
  push_change_task-sends online s f m o c h =
      push_clients-sends (make_publish_map online s []) f m s c
        (ground (arith, holds-make_publish_map online s f m))
