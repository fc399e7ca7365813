-- ===== src/Dns/SubscribeList/Finishes.antt =====
-- A thread that has the task of `publish` comes to the end of `push_change_task`.
use lars_system.Base.{ℕ, ◌≡◌, refl, ◌∙◌, ◌==◌, true, false, List, [], ◌∷◌, ◌++◌, arith}
use lars_system.Dns.SubscribeList.{make_publish_map}
use lars_system.Dns.SubscribeList.Steps.{
  Thread, Item, items, push_one, Phase, waits, pushes, State, set_phase, Step, copies, sends_one,
  Steps, none_yet, then_one,
}

set_phase_same : (k : ℕ) (p : Phase) (phase : ℕ → Phase) → set_phase k p phase k ≡ p
set_phase_same k p phase = let same : (k == k) ≡ true = ground arith in rw same refl

set_phase_other :
    (k j : ℕ) (p : Phase) (phase : ℕ → Phase) → (k == j) ≡ false → set_phase k p phase j ≡ phase j
set_phase_other k j p phase e = rw e refl

-- A thread comes to the end of its task, by parts of it alone: the others are where they were.
abbrev pub Finishes : (ℕ → ℕ → List ℕ) → (ℕ → Thread) → ℕ → State → Type 0
Finishes get_hosts threads k s =
    (t : State) × Steps get_hosts threads s t
    × (t.phase k ≡ pushes [])
    × ((j : ℕ) → (k == j) ≡ false → t.phase j ≡ s.phase j)

module _ (get_hosts : ℕ → ℕ → List ℕ) (threads : ℕ → Thread) (k : ℕ) where
  after_Step :
      (s t : State)
      → Step get_hosts threads s t
      → ((j : ℕ) → (k == j) ≡ false → t.phase j ≡ s.phase j)
      → Finishes get_hosts threads k t
      → Finishes get_hosts threads k s
  after_Step s t st same (u, steps, done, others) =
      (u, from_Step steps, done, λ j e. others j e ∙ same j e)
    where
      from_Step : {v : State} → Steps get_hosts threads t v → Steps get_hosts threads s v
      from_Step none_yet = then_one none_yet st
      from_Step (then_one steps last) = then_one (from_Step steps) last

  pushes-Finishes :
      (is : List Item) (s : State) → s.phase k ≡ pushes is → Finishes get_hosts threads k s
  pushes-Finishes [] s e = (s, none_yet, e, λ j o. refl)
  pushes-Finishes (i ∷ is) s e =
      let next : State = record {
        subs = (push_one get_hosts (threads k).conns i s.subs).1;
        sent = s.sent ++ (push_one get_hosts (threads k).conns i s.subs).0;
        phase = set_phase k (pushes is) s.phase;
      } in
      after_Step s next (sends_one k i is s e) (λ j. set_phase_other k j (pushes is) s.phase)
        (pushes-Finishes is next (set_phase_same k (pushes is) s.phase))

  -- Wherever a thread is in its task, it comes to the end of it, whatever the others have done, and
  -- without any more of theirs.
  pub task-Finishes : (s : State) → Finishes get_hosts threads k s
  task-Finishes s = from (s.phase k) refl
    where
      from : (p : Phase) → s.phase k ≡ p → Finishes get_hosts threads k s
      from (pushes is) e = pushes-Finishes is s e
      from waits e =
          let is = items (make_publish_map (threads k).online s.subs []) in
          let next : State = record s { phase = set_phase k (pushes is) s.phase } in
          after_Step s next (copies k s e) (λ j. set_phase_other k j (pushes is) s.phase)
            (pushes-Finishes is next (set_phase_same k (pushes is) s.phase))
