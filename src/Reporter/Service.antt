-- ===== src/Reporter/Service.antt =====
-- reporter_service.cpp and store_thread.cpp: reports go round the queues of the threads that store
-- them. The service has as many threads as its configuration says, and their handlers share the static
-- index without a lock: `get_report_status` is the run of one handler with no other in between, and
-- its parts are definitions of their own, for what happens if another comes in between.
pub mod Spread
pub mod Stored
use lars_system.Base.{
  ℕ, zero, suc, ◌+◌, ◌%◌, ◌==◌, ltb, Bool, true, false, if◌then◌else◌, Option, none, some, List, [],
  ◌∷◌, length, replicate, ◌>>=◌,
}
use lars_system.Reactor.ThreadPool.{ThreadQueue, new_thread_queue, send_to, recv}
use lars_system.Agent.Messages.{ReportStatusRequest}
use lars_system.Reporter.Store.{store}

-- `reportQueues`, `thread_cnt`, and the static index of the handler.
pub record Reporter : Type 0 where
  pub queues : List (ThreadQueue ReportStatusRequest)
  pub thread_cnt : ℕ
  pub index : ℕ

-- `db_thread_cnt` is the number of the configuration.
unfoldable pub create_reportdb_threads : ℕ → Reporter
unfolding new_thread_queue
create_reportdb_threads db_thread_cnt = record {
  queues = replicate db_thread_cnt new_thread_queue;
  thread_cnt = db_thread_cnt;
  index = 0;
}

-- The report is sent to the queue of the index. `none`: the index is past the array.
unfoldable pub send_report : ReportStatusRequest → Reporter → Option Reporter
unfolding send_to
send_report req r =
    if ltb r.index (length r.queues)
    then some (record r { queues = send_to r.index req r.queues })
    else none

-- `index++`.
unfoldable pub increase_index : Reporter → Reporter
increase_index r = record r { index = suc r.index }

-- `index % thread_cnt`. `none`: the division is by zero.
unfoldable pub wrap_index : Reporter → Option Reporter
wrap_index r =
    if r.thread_cnt == 0 then none else some (record r { index = r.index % r.thread_cnt })

unfoldable pub get_report_status : ReportStatusRequest → Reporter → Option Reporter
unfolding send_report increase_index wrap_index
get_report_status req r = send_report req r >>= λ sent. wrap_index (increase_index sent)

-- The loop of `thread_report` over the messages that it took.
unfoldable pub store_all : List ReportStatusRequest → List (List ℕ) → List (List ℕ)
unfolding store
store_all [] db = db
store_all (msg ∷ msgs) db = store_all msgs (store msg db)

-- `thread_report`: the queue and the database after it.
unfoldable pub thread_report :
    ThreadQueue ReportStatusRequest
    → List (List ℕ)
    → ThreadQueue ReportStatusRequest × List (List ℕ)
unfolding recv store_all
thread_report q db = ((recv q).1, store_all (recv q).0 db)
