-- ===== src/Reactor/EventLoop/Turns.antt =====
-- `event_process` of event_loop.cpp, turn after turn: no event fails an assertion or calls a null
-- pointer, as long as callbacks leave the other descriptors of a turn registered.
use mathlib.Core.Path.{subst}
use lars_system.Base.{
  ℕ, ◌≡◌, refl, sym, ◌∙◌, ◌==◌, false, some, List, [], ◌∷◌, lookup, lookup-erase, contains, arith,
  Option-cases, inl, inr, Returns,
}
use lars_system.Reactor.EventLoop.{
  Mask, EventLoop, Fired, World, Action, calls, deletes, passes, act, process_event, run_tasks,
  execute_ready_tasks, handle_fired, event_turn, del_io_event,
}
use lars_system.Reactor.EventLoop.Registrations.{
  MayFire, InStep, process_event_handles, del_io_event-InStep,
}

-- The descriptors of a turn are different.
abbrev fds : List (ℕ × Fired) → List ℕ
fds [] = []
fds ((fd, e) ∷ es) = fd ∷ fds es

abbrev pub AllOnce : List (ℕ × Fired) → Type 0
AllOnce [] = Unit {0}
AllOnce ((fd, e) ∷ es) = (contains fd (fds es) ≡ false) × AllOnce es

-- What can be reported of other descriptors than `fd` still can.
abbrev pub Spares : ℕ → List (ℕ × Mask) → List (ℕ × Mask) → Type 0
Spares fd old new =
    (j : ℕ) (e : Fired) → (fd == j) ≡ false → MayFire (lookup j old) e → MayFire (lookup j new) e

-- Every event can be reported.
abbrev pub AllMayFire : List (ℕ × Fired) → List (ℕ × Mask) → Type 0
AllMayFire [] epoll = Unit {0}
AllMayFire ((fd, e) ∷ es) epoll = MayFire (lookup fd epoll) e × AllMayFire es epoll

AllMayFire-Spares :
    (fd : ℕ) (es : List (ℕ × Fired)) (old new : List (ℕ × Mask))
    → contains fd (fds es) ≡ false
    → Spares fd old new
    → AllMayFire es old
    → AllMayFire es new
unfolding contains
AllMayFire-Spares fd [] old new out s a = tt
AllMayFire-Spares fd ((j, e) ∷ es) old new out s (m, a) =
    (s j e (ground (arith, out)) m, AllMayFire-Spares fd es old new (ground (arith, out)) s a)

module _ {F T : Type 0} where
  -- To delete a descriptor spares the others.
  pub del_io_event-Spares :
      (fd : ℕ) (l : EventLoop F T) → Spares fd l.epoll (del_io_event fd l).epoll
  unfolding del_io_event
  del_io_event-Spares fd l j e other m =
      subst (λ o. MayFire o e) (sym (lookup-erase fd j l.epoll ∙ rw other refl)) m

module _ {F T S : Type 0} where
  -- A callback keeps the loop in step with epoll, and spares the other descriptors.
  pub record Callbacks (run : F → ℕ → World F T S → World F T S) : Type 0 where
    pub keeps : (f : F) (fd : ℕ) (w : World F T S) → InStep w.0 → InStep (run f fd w).0
    pub spares : (f : F) (fd : ℕ) (w : World F T S) → Spares fd w.0.epoll (run f fd w).0.epoll

  -- A task keeps the loop in step with epoll.
  abbrev pub KeepsStep : (T → World F T S → World F T S) → Type 0
  KeepsStep task = (t : T) (w : World F T S) → InStep w.0 → InStep (task t w).0

  act-InStep :
      (run : F → ℕ → World F T S → World F T S) (fd : ℕ) (a : Action F) (w : World F T S)
      → Callbacks run
      → InStep w.0
      → InStep (act run fd a w).0 × Spares fd w.0.epoll (act run fd a w).0.epoll
  unfolding act
  act-InStep run fd (calls f) w c v = (c.keeps f fd w v, c.spares f fd w)
  act-InStep run fd deletes w c v = (del_io_event-InStep fd w.0 v, del_io_event-Spares fd w.0)
  act-InStep run fd passes w c v = (v, λ j e other m. m)

  handle_fired-InStep :
      (run : F → ℕ → World F T S → World F T S) (es : List (ℕ × Fired)) (w : World F T S)
      → Callbacks run
      → InStep w.0
      → AllOnce es
      → AllMayFire es w.0.epoll
      → Returns (λ w'. InStep w'.0) (handle_fired run es w)
  unfolding handle_fired
  handle_fired-InStep run [] w c v once a = v
  handle_fired-InStep run ((fd, e) ∷ es) w c v (out, once) (m, a) =
      elim (Option-cases (process_event fd e w.0)) [
        | inl failed ↦ absurd (ground (arith, failed, process_event_handles fd e w.0 v m))
        | inr (act_now, handled) ↦
            let (v', s) = act-InStep run fd act_now w c v in
            rw handled (
              handle_fired-InStep run es (act run fd act_now w) c v' once
                (AllMayFire-Spares fd es w.0.epoll (act run fd act_now w).0.epoll out s a))
      ]

  run_tasks-InStep :
      (task : T → World F T S → World F T S) (ts : List T) (w : World F T S)
      → KeepsStep task
      → InStep w.0
      → InStep (run_tasks task ts w).0
  unfolding run_tasks
  run_tasks-InStep task [] w k v = v
  run_tasks-InStep task (t ∷ ts) w k v = run_tasks-InStep task ts (task t w) k (k t w v)

  -- What a turn leaves.
  abbrev pub TurnDone : World F T S → Type 0
  TurnDone w = InStep w.0 × (w.0.ready_tasks ≡ [])

  event_turn-TurnDone :
      (run : F → ℕ → World F T S → World F T S) (task : T → World F T S → World F T S)
      (es : List (ℕ × Fired)) (w : World F T S)
      → Callbacks run
      → KeepsStep task
      → InStep w.0
      → AllOnce es
      → AllMayFire es w.0.epoll
      → Returns TurnDone (event_turn run task es w)
  unfolding event_turn execute_ready_tasks InStep
  event_turn-TurnDone run task es w c k v once a = elim (Option-cases (handle_fired run es w)) [
    | inl failed ↦ absurd (subst (Returns _) failed (handle_fired-InStep run es w c v once a))
    | inr (w', handled) ↦
        let v' =
          subst (Returns (λ w'. InStep w'.0)) handled (handle_fired-InStep run es w c v once a) in
        rw handled (run_tasks-InStep task w'.0.ready_tasks w' k v', refl)
  ]

  -- Some turns of the loop: each handles events that epoll can report then, of each descriptor one.
  pub data Turns (run : F → ℕ → World F T S → World F T S) (task : T → World F T S → World F T S)
      (start : World F T S) : World F T S → Type 0 where
    no_turn : Turns run task start start
    one_more :
        {w w' : World F T S} (es : List (ℕ × Fired))
        → Turns run task start w
        → AllOnce es
        → AllMayFire es w.0.epoll
        → event_turn run task es w ≡ some w'
        → Turns run task start w'

  Turns-InStep :
      {run : F → ℕ → World F T S → World F T S} {task : T → World F T S → World F T S}
      {start w : World F T S}
      → Callbacks run
      → KeepsStep task
      → InStep start.0
      → Turns run task start w
      → InStep w.0
  Turns-InStep c k v no_turn = v
  Turns-InStep {run = run} {task = task} c k v (one_more {w = w} es turns once a e) =
      (subst (Returns TurnDone) e
        (event_turn-TurnDone run task es w c k (Turns-InStep c k v turns) once a)).0

  -- `event_process` goes on for ever: from a loop that is in step with epoll, with callbacks that
  -- spare other descriptors, whatever turns were made, the next one, on events that epoll can
  -- report then, fails no assertion and calls no null pointer; after it the loop is in step with
  -- epoll, and no task is left.
  pub Turns-TurnDone :
      (run : F → ℕ → World F T S → World F T S) (task : T → World F T S → World F T S)
      (start w : World F T S) (es : List (ℕ × Fired))
      → Callbacks run
      → KeepsStep task
      → InStep start.0
      → Turns run task start w
      → AllOnce es
      → AllMayFire es w.0.epoll
      → Returns TurnDone (event_turn run task es w)
  Turns-TurnDone run task start w es c k v turns once a =
      event_turn-TurnDone run task es w c k (Turns-InStep c k v turns) once a
