-- ===== src/Reactor/ThreadPool.antt =====
-- task_msg.h, thread_queue.h, thread_pool.h and thread_pool.cpp: the queues of messages to the
-- threads. A mutex makes each operation of a queue one step. `idle` is the counter of the queue's
-- eventfd, which wakes the loop of its thread while it is not zero.
pub mod Wakeups
use lars_system.Base.{
  ℕ, zero, suc, ◌+◌, ◌≡◌, ◌==◌, Bool, true, false, if◌then◌else◌, Option, none, some, List, [], ◌∷◌,
  ◌++◌, length, get_elem?, set, replicate,
}
use lars_system.Reactor.EventLoop.{EventLoop, add_task}

-- A connection to take over, or a task to run.
pub data TaskMsg {κ} (T : Type κ) : Type κ where
  new_conn : ℕ → TaskMsg T
  new_task : T → TaskMsg T

-- `thread_queue<M>`.
pub record ThreadQueue {κ} (M : Type κ) : Type κ where
  pub queue : List M
  pub idle : ℕ

pub record ThreadPool {κ} (T : Type κ) : Type κ where
  pub queues : List (ThreadQueue (TaskMsg T))
  pub index : ℕ
  pub thread_cnt : ℕ

module _ {κ} {M : Type κ} where
  unfoldable pub new_thread_queue : ThreadQueue M
  new_thread_queue = record { queue = []; idle = 0 }

  unfoldable pub send : M → ThreadQueue M → ThreadQueue M
  send task q = record { queue = q.queue ++ task ∷ []; idle = suc q.idle }

  -- The messages are taken out, and the counter is read, which makes it zero.
  unfoldable pub recv : ThreadQueue M → List M × ThreadQueue M
  recv q = (q.queue, record { queue = []; idle = 0 })

  -- A message to one of several queues.
  unfoldable pub send_to : ℕ → M → List (ThreadQueue M) → List (ThreadQueue M)
  unfolding send
  send_to i task [] = []
  send_to zero task (q ∷ qs) = send task q ∷ qs
  send_to (suc i) task (q ∷ qs) = q ∷ send_to i task qs

module _ {κ} {T : Type κ} where
  -- `none`: the process ends for want of a thread.
  unfoldable pub new_thread_pool : ℕ → Option (ThreadPool T)
  unfolding new_thread_queue
  new_thread_pool thread_cnt =
      if thread_cnt == 0
      then none
      else some (record {
        queues = replicate thread_cnt new_thread_queue;
        index = 0;
        thread_cnt = thread_cnt;
      })

  -- The number of the queue that takes the next connection.
  unfoldable pub get_thread : ThreadPool T → ℕ × ThreadPool T
  get_thread p =
      if p.index == p.thread_cnt
      then (0, record p { index = 1 })
      else (p.index, record p { index = suc p.index })

  unfoldable pub send_all :
      TaskMsg T → List (ThreadQueue (TaskMsg T)) → List (ThreadQueue (TaskMsg T))
  unfolding send
  send_all task [] = []
  send_all task (q ∷ qs) = send task q ∷ send_all task qs

  unfoldable pub send_task : T → ThreadPool T → ThreadPool T
  unfolding send_all
  send_task t p = record p { queues = send_all (new_task t) p.queues }

-- The loop of `deal_task_message`: the connections that are made, and the loop with the tasks.
unfoldable pub deal_tasks {ℓ κ} :
    {F : Type ℓ} {T : Type κ} → List (TaskMsg T) → EventLoop F T → List ℕ × EventLoop F T
unfolding add_task
deal_tasks [] l = ([], l)
deal_tasks (new_conn fd ∷ ms) l = let rest = deal_tasks ms l in (fd ∷ rest.0, rest.1)
deal_tasks (new_task t ∷ ms) l = deal_tasks ms (add_task t l)

unfoldable pub deal_task_message {ℓ κ} :
    {F : Type ℓ} {T : Type κ}
    → ThreadQueue (TaskMsg T)
    → EventLoop F T
    → (List ℕ × EventLoop F T) × ThreadQueue (TaskMsg T)
unfolding deal_tasks recv
deal_task_message q l = (deal_tasks (recv q).0 l, (recv q).1)
