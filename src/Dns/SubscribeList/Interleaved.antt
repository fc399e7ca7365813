-- ===== src/Dns/SubscribeList/Interleaved.antt =====
-- Whatever the order in which the threads of the pool do the parts of `push_change_task`, each client
-- is told of the changes of its modules.
use mathlib.Core.List.{Memᴰ}
use lars_system.Base.{
  ℕ, ◌≡◌, ◌==◌, Bool, true, false, not, ◌&&◌, List, ◌⊎◌, contains, pack_key, arith,
}
use lars_system.Base.Sets.{holds-erase}
use lars_system.Dns.Messages.{GetRouteResponse}
use lars_system.Dns.Messages.Answers.{Answers}
use lars_system.Dns.SubscribeList.{SubscribeList, Sent, publish, change_response}
use lars_system.Dns.SubscribeList.Items.{has, AllOnline}
use lars_system.Dns.SubscribeList.Steps.{Thread, push_one, Phase, waits, pushes, State, Steps}
use lars_system.Dns.SubscribeList.Subscriptions.{pending}

pending-push_one :
    (get_hosts : ℕ → ℕ → List ℕ) (conns : ℕ → Bool) (fd key f m : ℕ) (s : SubscribeList)
    → pending f m (push_one get_hosts conns (fd, key) s).1 ≡ (not (fd == f) && pending f m s)
unfolding push_one pending
pending-push_one get_hosts conns fd key f m s = holds-erase fd f m s.pub_list

module _ (get_hosts : ℕ → ℕ → List ℕ) (threads : ℕ → Thread) (f m i : ℕ) where
  -- The change waits for the thread, or its turn is to come, or it was sent and waits no more.
  Progress : Phase → SubscribeList → List Sent → Type 0
  Progress waits s sent = pending f m s ≡ true
  Progress (pushes is) s sent =
      (has f m is ≡ true) ⊎ (Memᴰ (f, change_response get_hosts m) sent × (pending f m s ≡ false))

  Owns : List ℕ → Phase → Type 0
  Owns online waits = Unit {0}
  Owns online (pushes is) = AllOnline online is

  record Inv (s : State) : Type 0 where
    progress : Progress (s.phase i) s.subs s.sent
    owns : (k : ℕ) → Owns (threads k).online (s.phase k)

  -- The client is the thread's alone, with its connection.
  pub record IsServed : Type 0 where
    pub listens : contains f (threads i).online ≡ true
    pub alone : (k : ℕ) → (k == i) ≡ false → contains f (threads k).online ≡ false
    pub connected : (threads i).conns f ≡ true

-- The answer about the pair was sent to the client, which waits for it no more.
abbrev pub WasTold : (ℕ → ℕ → List ℕ) → ℕ → ℕ → ℕ → State → Type 0
WasTold get_hosts modid cmdid f t =
    ((r : GetRouteResponse) × Memᴰ (f, r) t.sent × Answers get_hosts modid cmdid r)
    × (pending f (pack_key modid cmdid) t.subs ≡ false)

-- A turn for a client erases every change that waits for it, also one that was published after the
-- copy was made: such a change is never sent.
pub push_one-forgets :
    (get_hosts : ℕ → ℕ → List ℕ) (conns : ℕ → Bool) (f key m : ℕ) (mods : List ℕ)
    (s : SubscribeList)
    → pending f m (push_one get_hosts conns (f, key) (publish mods s)).1 ≡ false
push_one-forgets get_hosts conns f key m mods s =
    ground (arith, pending-push_one get_hosts conns f key f m (publish mods s))
