-- ===== src/Reactor/EventLoop.antt =====
-- event_loop.h, event_loop.cpp and event_base.h: which descriptors a loop watches, for what, and what
-- it calls. `F` is a callback with its argument, `T` a task with its argument. The kernel's side,
-- what epoll was told, is part of the state; whether a call of `epoll_ctl` succeeds is an argument.
pub mod Registrations
pub mod Turns
use lars_system.Base.{
  ℕ, ◌≡◌, ◌||◌, ◌&&◌, not, Bool, true, false, if◌then◌else◌, Option, none, some, List, [], ◌∷◌,
  ◌++◌, lookup, put, erase, insert, remove, is_some, ◌>>=◌,
}

-- EPOLLIN and EPOLLOUT, the bits of the masks.
pub record Mask : Type 0 where
  pub reads : Bool
  pub writes : Bool

unfoldable pub epollin : Mask
epollin = record { reads = true; writes = false }

unfoldable pub epollout : Mask
epollout = record { reads = false; writes = true }

unfoldable pub join : Mask → Mask → Mask
join a b = record { reads = a.reads || b.reads; writes = a.writes || b.writes }

-- `o_mask & ~mask`.
unfoldable pub without : Mask → Mask → Mask
without a b = record { reads = a.reads && not b.reads; writes = a.writes && not b.writes }

unfoldable pub is_empty : Mask → Bool
is_empty m = not (m.reads || m.writes)

pub record IoEvent {ℓ} (F : Type ℓ) : Type ℓ where
  pub mask : Mask
  pub read_callback : Option F
  pub write_callback : Option F

pub record EventLoop {ℓ κ} (F : Type ℓ) (T : Type κ) : Type (ℓ ⊔ κ) where
  pub io_evs : List (ℕ × IoEvent F)
  pub listen_fds : List ℕ
  pub epoll : List (ℕ × Mask)
  pub ready_tasks : List T

module _ {ℓ} {F : Type ℓ} where
  -- The entry of a descriptor after a callback was registered.
  unfoldable pub add_callback : F → Mask → Option (IoEvent F) → IoEvent F
  unfolding join
  add_callback proc mask none = record {
    mask = mask;
    read_callback = if mask.reads then some proc else none;
    write_callback = if not mask.reads && mask.writes then some proc else none;
  }
  add_callback proc mask (some ev) = record {
    mask = join ev.mask mask;
    read_callback = if mask.reads then some proc else ev.read_callback;
    write_callback = if not mask.reads && mask.writes then some proc else ev.write_callback;
  }

module _ {ℓ κ} {F : Type ℓ} {T : Type κ} where
  unfoldable pub new_event_loop : EventLoop F T
  new_event_loop = record { io_evs = []; listen_fds = []; epoll = []; ready_tasks = [] }

  unfoldable pub add_task : T → EventLoop F T → EventLoop F T
  add_task t l = record l { ready_tasks = l.ready_tasks ++ t ∷ [] }

  unfoldable pub add_io_event : Bool → ℕ → F → Mask → EventLoop F T → EventLoop F T
  unfolding add_callback
  add_io_event ok fd proc mask l =
      let ev = add_callback proc mask (lookup fd l.io_evs) in
      if ok
      then record l {
        io_evs = put fd ev l.io_evs;
        epoll = put fd ev.mask l.epoll;
        listen_fds = insert fd l.listen_fds;
      }
      else record l { io_evs = put fd ev l.io_evs }

  -- `del_io_event` of a descriptor.
  unfoldable pub del_io_event : ℕ → EventLoop F T → EventLoop F T
  del_io_event fd l = record l {
    io_evs = erase fd l.io_evs;
    listen_fds = remove fd l.listen_fds;
    epoll = erase fd l.epoll;
  }

  unfoldable pub del_mask : ℕ → Mask → Option (IoEvent F) → EventLoop F T → EventLoop F T
  unfolding without is_empty del_io_event
  del_mask fd mask none l = l
  del_mask fd mask (some ev) l =
      if is_empty (without ev.mask mask)
      then del_io_event fd
          (record l { io_evs = put fd (record ev { mask = without ev.mask mask }) l.io_evs })
      else record l {
        io_evs = put fd (record ev { mask = without ev.mask mask }) l.io_evs;
        epoll = put fd (without ev.mask mask) l.epoll;
      }

  -- `del_io_event` of a descriptor and a mask.
  unfoldable pub del_io_event_mask : ℕ → Mask → EventLoop F T → EventLoop F T
  unfolding del_mask
  del_io_event_mask fd mask l = del_mask fd mask (lookup fd l.io_evs) l

-- What `epoll_wait` reports of a descriptor.
pub record Fired : Type 0 where
  pub readable : Bool
  pub writable : Bool
  pub hung_up : Bool

-- What a fired event comes to: a call of a callback, a deletion, or nothing.
pub data Action {ℓ} (F : Type ℓ) : Type ℓ where
  calls : F → Action F
  deletes : Action F
  passes : Action F

module _ {ℓ} {F : Type ℓ} where
  -- A callback that is null is called all the same.
  unfoldable pub call_it : Option F → Option (Action F)
  call_it none = none
  call_it (some f) = some (calls f)

  unfoldable pub call_either : Option F → Option F → Action F
  call_either (some f) w = calls f
  call_either none (some f) = calls f
  call_either none none = deletes

  -- One turn of the inner loop of `event_process`. `none`: the assertion that the descriptor has an
  -- entry fails, or a null pointer is called.
  unfoldable pub dispatch : Fired → Option (IoEvent F) → Option (Action F)
  unfolding call_it call_either
  dispatch e none = none
  dispatch e (some ev) =
      if e.readable
      then call_it ev.read_callback
      else if e.writable
      then call_it ev.write_callback
      else if e.hung_up
      then some (call_either ev.read_callback ev.write_callback)
      else some passes

-- The tasks run in the order in which they were added; `run` is what a task does, which is not to
-- add tasks to its own loop.
unfoldable pub run_tasks {κ μ} : {T : Type κ} {S : Type μ} → (T → S → S) → List T → S → S
run_tasks run [] s = s
run_tasks run (t ∷ ts) s = run_tasks run ts (run t s)

module _ {ℓ κ} {F : Type ℓ} {T : Type κ} where
  unfoldable pub process_event : ℕ → Fired → EventLoop F T → Option (Action F)
  unfolding dispatch
  process_event fd e l = dispatch e (lookup fd l.io_evs)

-- A loop, and the rest of the program.
abbrev pub World {ℓ κ μ} : Type ℓ → Type κ → Type μ → Type (ℓ ⊔ κ ⊔ μ)
World F T S = EventLoop F T × S

module _ {ℓ κ μ} {F : Type ℓ} {T : Type κ} {S : Type μ} where
  -- The tasks are gone after they ran.
  unfoldable pub execute_ready_tasks : (T → World F T S → World F T S) → World F T S → World F T S
  unfolding run_tasks
  execute_ready_tasks task w =
      let w' = run_tasks task w.0.ready_tasks w in (record w'.0 { ready_tasks = [] }, w'.1)

  -- `run` is what a callback does, given the descriptor.
  unfoldable pub act :
      (F → ℕ → World F T S → World F T S) → ℕ → Action F → World F T S → World F T S
  unfolding del_io_event
  act run fd (calls f) w = run f fd w
  act run fd deletes w = (del_io_event fd w.0, w.1)
  act run fd passes w = w

  -- The loop over the events that `epoll_wait` gave; each is looked up when its turn comes.
  unfoldable pub handle_fired :
      (F → ℕ → World F T S → World F T S) → List (ℕ × Fired) → World F T S → Option (World F T S)
  unfolding process_event act
  handle_fired run [] w = some w
  handle_fired run ((fd, e) ∷ es) w =
      process_event fd e w.0 >>= λ a. handle_fired run es (act run fd a w)

  -- A turn of the endless loop of `event_process`.
  unfoldable pub event_turn :
      (F → ℕ → World F T S → World F T S)
      → (T → World F T S → World F T S)
      → List (ℕ × Fired)
      → World F T S
      → Option (World F T S)
  unfolding handle_fired execute_ready_tasks
  event_turn run task es w = handle_fired run es w >>= λ w'. some (execute_ready_tasks task w')
