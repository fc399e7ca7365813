-- ===== src/Reporter/Service/Stored.antt =====
-- From the reports that come in to the statements that the database gets.
use mathlib.Core.List.{append_assoc, append-nil}
use lars_system.Base.{
  ℕ, ◌≡◌, refl, sym, ap, ◌∙◌, some, List, [], ◌∷◌, ◌++◌, get_elem?, Returns, Returns-mono,
}
use lars_system.Reactor.ThreadPool.{ThreadQueue, recv}
use lars_system.Agent.Messages.{ReportStatusRequest}
use lars_system.Reporter.Store.Statements.{statements, store-statements}
use lars_system.Reporter.Service.{Reporter, store_all, thread_report}
use lars_system.Reporter.Service.Spread.{IsReady, get_reports, get_reports-Dealt, Dealt, dealt}

-- The statements of several reports, one after the other.
abbrev pub all_statements : List ReportStatusRequest → List (List ℕ)
all_statements [] = []
all_statements (req ∷ reqs) = statements req req.results ++ all_statements reqs

store_all-statements :
    (reqs : List ReportStatusRequest) (db : List (List ℕ))
    → store_all reqs db ≡ db ++ all_statements reqs
unfolding store_all
store_all-statements [] db = sym (append-nil db)
store_all-statements (req ∷ reqs) db =
    ap (store_all reqs) (store-statements req db)
    ∙ store_all-statements reqs (db ++ statements req req.results)
    ∙ append_assoc db (statements req req.results) (all_statements reqs)

thread_report-statements :
    (q : ThreadQueue ReportStatusRequest) (db : List (List ℕ))
    → ((thread_report q db).0.queue ≡ []) × ((thread_report q db).1 ≡ db ++ all_statements q.queue)
unfolding thread_report recv
thread_report-statements q db = (refl, store_all-statements q.queue db)

-- What the thread of the queue `i` stores when it wakes.
abbrev pub Stores : List ReportStatusRequest → Reporter → Reporter → Type 0
Stores reqs r r' =
    (i : ℕ) (q : ThreadQueue ReportStatusRequest) (db : List (List ℕ))
    → get_elem? r.queues i ≡ some q
    → (q' : ThreadQueue ReportStatusRequest) × (get_elem? r'.queues i ≡ some q')
      × ((thread_report q' db).0.queue ≡ [])
      × ((thread_report q' db).1
          ≡ db ++ all_statements (q.queue ++ dealt r.thread_cnt i r.index reqs))

-- In a service that has a thread to store reports, and as long as its handlers run one after the
-- other, every report that comes in is taken; when a thread then takes its queue, the database gets,
-- after what it got before, the whole statements of the reports that waited there and of those of its
-- turn, in order, one for each result, and the queue is empty.
pub thread_report-Stores :
    (reqs : List ReportStatusRequest) (r : Reporter)
    → IsReady r
    → Returns (Stores reqs r) (get_reports reqs r)
thread_report-Stores reqs r v =
    Returns-mono (Dealt reqs r) (Stores reqs r) (get_reports reqs r)
      (λ r' d i q db e.
        (_, d.2 i q e, (thread_report-statements _ db).0, (thread_report-statements _ db).1))
      (get_reports-Dealt reqs r v)
