-- ===== src/Reactor/ServerTests.antt =====
-- Loops, threads, connections and configuration files on concrete inputs.
use lars_system.Reactor.EventLoop.Registrations.{del_io_event-InStep, InStep, add_io_event-InStep}
use lars_system.Reactor.EventLoop.{
  World, del_io_event, event_turn, handle_fired, act, call_it, execute_ready_tasks, run_tasks,
  dispatch, epollin, epollout, Fired, EventLoop, add_io_event, process_event, add_callback, join,
}
use lars_system.Reactor.EventLoop.Turns.{
  Callbacks, Turns, no_turn, one_more, TurnDone, Turns-TurnDone, del_io_event-Spares,
}
use lars_system.Reactor.ConfigFile.Lines.{Gaps}
use lars_system.Reactor.ConfigFile.Documents.{
  Line, heading, entry, comment, blank, IsReadable, print, print_line, last_value, load-last_value,
}
use lars_system.Base.{
  suc, ◌+◌, ap, length, erase, ℕ, ◌≡◌, refl, inl, inr, true, false, none, some, List, [], ◌∷◌,
  lookup, put, count, contains, Returns,
}
use native.Mathlib.Omega.{arith}
use lars_system.Base.Run.{Safe}
use lars_system.Reactor.ThreadPool.{TaskMsg, new_conn, new_task, ThreadQueue, ThreadPool, recv}
use lars_system.Reactor.ThreadPool.Wakeups.{Signalled, sends, recv-sends}
use lars_system.Reactor.TcpServer.{Conns, Accept, accepted, eintr, Server, do_accept}
use lars_system.Reactor.TcpServer.Limits.{FailsIn, IsCounted, do_accept-IsCounted}
use lars_system.Reactor.ConfigFile.{
  Text, Config, load, is_skipped, value_of, trim_left, trim_right, keep, is_space,
}

-- A loop without registrations is in step.
abbrev empty_loop : EventLoop ℕ ℕ
empty_loop = record { io_evs = []; listen_fds = []; epoll = []; ready_tasks = [] }

empty_loop-InStep : InStep empty_loop
unfolding InStep lookup contains
empty_loop-InStep fd = refl

reading_loop-InStep : InStep (add_io_event true 7 1 epollin empty_loop)
reading_loop-InStep = add_io_event-InStep 7 1 epollin empty_loop (inl refl) empty_loop-InStep

-- Descriptor 7 is watched for reading and for writing.
abbrev both_loop : EventLoop ℕ ℕ
both_loop = add_io_event true 7 2 epollout (add_io_event true 7 1 epollin empty_loop)

both_loop-InStep : InStep both_loop
both_loop-InStep =
    add_io_event-InStep 7 2 epollout (add_io_event true 7 1 epollin empty_loop) (inr refl)
      reading_loop-InStep

abbrev is_writable : Fired
is_writable = record { readable = false; writable = true; hung_up = true }

abbrev two_messages : List (TaskMsg ℕ)
two_messages = new_conn 9 ∷ new_task 4 ∷ []

abbrev empty_queue : ThreadQueue (TaskMsg ℕ)
empty_queue = record { queue = []; idle = 0 }

recv-sends_example :
    let sent = sends two_messages empty_queue in
    ((recv sent).0 ≡ two_messages)
    × (sent.idle ≡ 2)
    × ((recv sent).1.queue ≡ [])
    × Signalled (recv sent).1
recv-sends_example = recv-sends two_messages empty_queue refl

abbrev three_threads : ThreadPool ℕ
three_threads = record {
  queues = empty_queue ∷ empty_queue ∷ empty_queue ∷ [];
  index = 2;
  thread_cnt = 3;
}

abbrev two_queued : ThreadQueue (TaskMsg ℕ)
two_queued = record { queue = two_messages; idle = 2 }

-- One connection of two at most.
abbrev one_conn : Conns
one_conn = record { conns = 5 ∷ []; cur_conns = 1; max_conns = 2; capacity = 13 }

one_conn-IsCounted : IsCounted one_conn
unfolding count
one_conn-IsCounted = record { counted = refl; once = λ fd. ground arith; limited = omega arith }

abbrev alone : Server ℕ
alone = record { state = one_conn; thread_pool = none; closed = [] }

abbrev one_accepted : List Accept
one_accepted = eintr ∷ accepted 6 ∷ []

do_accept-IsCounted_example :
    Safe (FailsIn one_accepted) (λ s. IsCounted s.state) (do_accept one_accepted alone)
unfolding contains
do_accept-IsCounted_example =
    do_accept-IsCounted one_accepted alone (omega arith, refl) one_conn-IsCounted

abbrev threaded : Server ℕ
threaded = record { state = one_conn; thread_pool = some three_threads; closed = [] }

-- `k = 1`.
abbrev key_line : Text
key_line = 107 ∷ 32 ∷ 61 ∷ 32 ∷ 49 ∷ []

abbrev one_section : Config
one_section = (114 ∷ [], []) ∷ []

abbrev is_readable : Fired
is_readable = record { readable = true; writable = false; hung_up = false }

-- A callback that takes its descriptor out of the loop, and counts.
abbrev leave : ℕ → ℕ → World ℕ ℕ ℕ → World ℕ ℕ ℕ
leave f fd w = (del_io_event fd w.0, suc w.1)

leave-Callbacks : Callbacks leave
leave-Callbacks = record {
  keeps = λ f fd w v. del_io_event-InStep fd w.0 v;
  spares = λ f fd w. del_io_event-Spares fd w.0;
}

abbrev note : ℕ → World ℕ ℕ ℕ → World ℕ ℕ ℕ
note t w = (w.0, w.1 + t)

-- Descriptors 7 and 8 are watched, and 7 fires in the first turn.
abbrev busy : World ℕ ℕ ℕ
busy = (add_io_event true 8 1 epollin both_loop, 0)

busy-InStep : InStep busy.0
busy-InStep = add_io_event-InStep 8 1 epollin both_loop (inl refl) both_loop-InStep

abbrev after_seven : World ℕ ℕ ℕ
after_seven = (record (del_io_event 7 busy.0) { ready_tasks = [] }, 1)

busy-Turns : Turns leave note busy after_seven
unfolding add_io_event add_callback join epollin epollout lookup put contains event_turn
    handle_fired act process_event dispatch call_it execute_ready_tasks run_tasks
busy-Turns = one_more ((7, is_writable) ∷ []) no_turn (refl, tt) (((λ e. refl), λ e. refl), tt) refl

Turns-TurnDone_example :
    Returns TurnDone (event_turn leave note ((8, is_readable) ∷ []) after_seven)
unfolding add_io_event del_io_event add_callback join epollin epollout lookup put erase contains
Turns-TurnDone_example =
    Turns-TurnDone leave note busy after_seven ((8, is_readable) ∷ []) leave-Callbacks (λ t w v. v)
      busy-InStep busy-Turns (refl, tt) (((λ e. refl), λ e. ground (arith, e)), tt)

-- No spaces at all, as in `k=1`, and spaces around `=`, as in `k = 2`.
abbrev no_gaps : Gaps
no_gaps = record { before = []; left = []; right = []; after = [] }

abbrev blanks : Gaps
blanks = record { before = 9 ∷ []; left = 32 ∷ []; right = 32 ∷ []; after = 32 ∷ [] }

-- `[r]`, `k=1`, a comment, a blank line, and `k = 2`.
abbrev document : List Line
document =
    heading [] (114 ∷ []) (32 ∷ [])
    ∷ entry no_gaps (107 ∷ []) (49 ∷ [])
    ∷ comment [] 59 (32 ∷ 61 ∷ [])
    ∷ blank (32 ∷ [])
    ∷ entry blanks (107 ∷ []) (50 ∷ [])
    ∷ []

second_line : print_line (entry no_gaps (107 ∷ []) (49 ∷ [])) ≡ 107 ∷ 61 ∷ 49 ∷ []
second_line = refl

document-IsReadable : IsReadable false document
unfolding is_space is_skipped trim_left trim_right keep contains
document-IsReadable = (
  tt,
  ((λ e. ground (arith, ap length e)), (refl, refl)),
  (refl, tt),
  (
    record { spaces_before = tt; spaces_left = tt; spaces_right = tt; spaces_after = tt },
    (refl, refl, refl, refl, refl),
    (refl, refl),
    (
      tt,
      refl,
      (
        (refl, tt),
        (
          record {
            spaces_before = (refl, tt);
            spaces_left = (refl, tt);
            spaces_right = (refl, tt);
            spaces_after = (refl, tt);
          },
          (refl, refl, refl, refl, refl),
          (refl, refl),
          tt,
        ),
      ),
    ),
  ),
)

load-last_value_example :
    Returns
      (λ m. (n j : Text) → value_of n j m ≡ last_value n j none none document)
      (load (print document))
load-last_value_example = load-last_value document document-IsReadable
