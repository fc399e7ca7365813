-- ===== src/Reactor/ThreadPool/Wakeups.antt =====
-- No message to a thread is lost or sleeps, and connections go round the threads.
use mathlib.Core.List.{append_assoc, append-nil}
use native.Mathlib.Nat.{mod_self, mod-eq_of_lt, add-mod_left}
use lars_system.Base.{
  ℕ, zero, suc, ◌+◌, ◌%◌, ◌≤◌, ◌<◌, ◌≡◌, refl, sym, ap, ◌∙◌, ◌==◌, some, List, [], ◌∷◌, ◌++◌,
  length, get_elem?, length-append, arith, Bool-cases, inl, inr,
}
use lars_system.Reactor.EventLoop.{EventLoop, add_task}
use lars_system.Reactor.ThreadPool.{
  TaskMsg, new_conn, new_task, ThreadQueue, ThreadPool, send, recv, get_thread, send_all, send_task,
  deal_tasks, deal_task_message,
}

module _ {κ} {M : Type κ} where
  -- The counter is the number of messages.
  abbrev pub Signalled : ThreadQueue M → Type 0
  Signalled q = q.idle ≡ length q.queue

  -- A sequence of sends.
  unfoldable pub sends : List M → ThreadQueue M → ThreadQueue M
  unfolding send
  sends [] q = q
  sends (m ∷ ms) q = sends ms (send m q)

  sends-queue : (ms : List M) (q : ThreadQueue M) → (sends ms q).queue ≡ q.queue ++ ms
  unfolding sends send
  sends-queue [] q = sym (append-nil q.queue)
  sends-queue (m ∷ ms) q = sends-queue ms (send m q) ∙ append_assoc q.queue (m ∷ []) ms

  sends-Signalled : (ms : List M) (q : ThreadQueue M) → Signalled q → Signalled (sends ms q)
  unfolding sends send
  sends-Signalled [] q h = h
  sends-Signalled (m ∷ ms) q h =
      sends-Signalled ms (send m q) (omega (arith, length-append q.queue (m ∷ [])))

  -- A queue whose counter is the number of its messages: after a sequence of sends, a receipt gives
  -- the messages that were there and then the new ones, in the order in which they were sent; before
  -- it the counter is the number of these messages, and after it the queue is empty and the counter
  -- zero.
  pub recv-sends :
      (ms : List M) (q : ThreadQueue M)
      → Signalled q
      → let sent = sends ms q in
        ((recv sent).0 ≡ q.queue ++ ms)
        × (sent.idle ≡ length (q.queue ++ ms))
        × ((recv sent).1.queue ≡ [])
        × Signalled (recv sent).1
  unfolding recv
  recv-sends ms q h =
      (sends-queue ms q, sends-Signalled ms q h ∙ ap length (sends-queue ms q), refl, refl)

module _ {κ} {T : Type κ} where
  -- The numbers that `n` calls of `get_thread` give.
  unfoldable pub threads : ℕ → ThreadPool T → List ℕ
  unfolding get_thread
  threads zero p = []
  threads (suc n) p = let r = get_thread p in r.0 ∷ threads n r.1

  -- Connections go round: the k-th of them goes to the thread `k` places after the next one.
  pub threads-round_robin :
      (n k : ℕ) (p : ThreadPool T)
      → p.index ≤ p.thread_cnt
      → 0 < p.thread_cnt
      → k < n
      → get_elem? (threads n p) k ≡ some ((p.index + k) % p.thread_cnt)
  unfolding threads get_thread
  threads-round_robin zero k p i c h = absurd (omega arith)
  threads-round_robin (suc n) zero p i c h = elim (Bool-cases (p.index == p.thread_cnt)) [
    | inl end ↦
        let wrap : p.index + 0 ≡ p.thread_cnt = ground (arith, end) in
        rw (end, wrap) (ap some (sym (mod_self p.thread_cnt)))
    | inr before ↦
        let same : p.index + 0 ≡ p.index = omega arith in
        rw (before, same) (ap some (sym (mod-eq_of_lt (ground (arith, before)))))
  ]
  threads-round_robin (suc n) (suc k) p i c h = elim (Bool-cases (p.index == p.thread_cnt)) [
    | inl end ↦
        let wrap : p.index + suc k ≡ p.thread_cnt + (1 + k) = ground (arith, end) in
        rw (end, wrap)
          (threads-round_robin n k (record p { index = 1 }) (omega arith) c (omega arith)
            ∙ ap some (sym (add-mod_left p.thread_cnt (1 + k))))
    | inr before ↦
        let next : p.index + suc k ≡ suc p.index + k = omega arith in
        rw (before, next)
          (threads-round_robin n k (record p { index = suc p.index }) (ground (arith, before)) c
            (omega arith))
  ]

  -- `send_task` puts the task at the end of every queue of the pool, and wakes its thread.
  pub send_task-everywhere :
      (t : T) (p : ThreadPool T) (i : ℕ) (q : ThreadQueue (TaskMsg T))
      → get_elem? p.queues i ≡ some q
      → get_elem? (send_task t p).queues i
        ≡ some (record { queue = q.queue ++ new_task t ∷ []; idle = suc q.idle })
  unfolding send_task send_all send
  send_task-everywhere t p i q h = everywhere p.queues i q h
    where
      everywhere :
          (qs : List (ThreadQueue (TaskMsg T))) (i : ℕ) (q : ThreadQueue (TaskMsg T))
          → get_elem? qs i ≡ some q
          → get_elem? (send_all (new_task t) qs) i
            ≡ some (record { queue = q.queue ++ new_task t ∷ []; idle = suc q.idle })
      everywhere [] i q h = absurd (ground (arith, h))
      everywhere (q0 ∷ qs) zero q h = ground (arith, h)
      everywhere (q0 ∷ qs) (suc i) q h = everywhere qs i q h

-- The tasks of a list of messages, and the connections of it.
unfoldable pub tasks_of {κ} : {T : Type κ} → List (TaskMsg T) → List T
tasks_of [] = []
tasks_of (new_conn fd ∷ ms) = tasks_of ms
tasks_of (new_task t ∷ ms) = t ∷ tasks_of ms

unfoldable pub conns_of {κ} : {T : Type κ} → List (TaskMsg T) → List ℕ
conns_of [] = []
conns_of (new_conn fd ∷ ms) = fd ∷ conns_of ms
conns_of (new_task t ∷ ms) = conns_of ms

-- `deal_task_message` makes the connections of the queue in order, puts its tasks in order behind
-- the ready ones, and leaves the queue empty.
pub deal_task_message-deals {ℓ κ} :
    {F : Type ℓ} {T : Type κ} (q : ThreadQueue (TaskMsg T)) (l : EventLoop F T)
    → let r = deal_task_message q l in
      (r.0.0 ≡ conns_of q.queue)
      × (r.0.1.ready_tasks ≡ l.ready_tasks ++ tasks_of q.queue)
      × (r.1.queue ≡ [])
unfolding deal_task_message recv deal_tasks add_task tasks_of conns_of
deal_task_message-deals {F = F} {T = T} q l = (conns q.queue l, tasks q.queue l, refl)
  where
    conns : (ms : List (TaskMsg T)) (l : EventLoop F T) → (deal_tasks ms l).0 ≡ conns_of ms
    conns [] l = refl
    conns (new_conn fd ∷ ms) l = ap (λ fds. fd ∷ fds) (conns ms l)
    conns (new_task t ∷ ms) l = conns ms (add_task t l)

    tasks :
        (ms : List (TaskMsg T)) (l : EventLoop F T)
        → (deal_tasks ms l).1.ready_tasks ≡ l.ready_tasks ++ tasks_of ms
    tasks [] l = sym (append-nil l.ready_tasks)
    tasks (new_conn fd ∷ ms) l = tasks ms l
    tasks (new_task t ∷ ms) l =
        tasks ms (add_task t l) ∙ append_assoc l.ready_tasks (t ∷ []) (tasks_of ms)
