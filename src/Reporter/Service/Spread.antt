-- ===== src/Reporter/Service/Spread.antt =====
-- Reports go round the queues of the threads of reporter_service.cpp.
use mathlib.Core.List.{append_assoc, append-nil}
use mathlib.Core.Path.{ap₂}
use native.Mathlib.Nat.{mod-eq_of_lt, mod-lt, mod-add-mod, mod-mod}
use lars_system.Base.{
  ℕ, zero, suc, ◌+◌, ◌%◌, ◌<◌, ◌≡◌, refl, sym, ap, ◌∙◌, ◌==◌, ltb, true, false, if◌then◌else◌,
  Option, none, some, List, [], ◌∷◌, ◌++◌, length, get_elem?, replicate, Returns, Returns-mono,
  ◌>>=◌, arith, Bool-cases, inl, inr,
}
use lars_system.Reactor.ThreadPool.{ThreadQueue, new_thread_queue, send, send_to}
use lars_system.Agent.Messages.{ReportStatusRequest}
use lars_system.Reporter.Service.{
  Reporter, create_reportdb_threads, send_report, increase_index, wrap_index, get_report_status,
}

-- There is a thread, and the index is that of a queue.
pub record IsReady (r : Reporter) : Type 0 where
  pub some_thread : 0 < r.thread_cnt
  pub all_queues : length r.queues ≡ r.thread_cnt
  pub in_range : r.index < r.thread_cnt

-- Reports that come in one after the other.
unfoldable pub get_reports : List ReportStatusRequest → Reporter → Option Reporter
unfolding get_report_status
get_reports [] r = some r
get_reports (req ∷ reqs) r = get_report_status req r >>= get_reports reqs

add-one : (n : ℕ) → n + 1 ≡ suc n
add-one n = omega arith

next_mod : (cnt j k : ℕ) → j % cnt ≡ k % cnt → suc j % cnt ≡ suc k % cnt
next_mod cnt j k e =
    sym (mod-add-mod j cnt 1 ∙ ap (λ n. n % cnt) (add-one j))
    ∙ ap (λ n. (n + 1) % cnt) e
    ∙ mod-add-mod k cnt 1
    ∙ ap (λ n. n % cnt) (add-one k)

module _ {ℓ} {A : Type ℓ} where
  -- Of things numbered from `k` on, those whose number leaves the remainder `i`.
  unfoldable pub dealt : ℕ → ℕ → ℕ → List A → List A
  dealt cnt i k [] = []
  dealt cnt i k (x ∷ xs) =
      let rest = dealt cnt i (suc k) xs in if (k % cnt) == i then x ∷ rest else rest

  -- The numbers count by their remainders.
  dealt-congr :
      (cnt i j k : ℕ) (xs : List A) → j % cnt ≡ k % cnt → dealt cnt i j xs ≡ dealt cnt i k xs
  unfolding dealt
  dealt-congr cnt i j k [] e = refl
  dealt-congr cnt i j k (x ∷ xs) e =
      rw (e, dealt-congr cnt i (suc j) (suc k) xs (next_mod cnt j k e)) refl

length-send_to {ℓ} :
    {M : Type ℓ} (i : ℕ) (m : M) (qs : List (ThreadQueue M)) → length (send_to i m qs) ≡ length qs
unfolding send_to
length-send_to i m [] = refl
length-send_to zero m (q ∷ qs) = refl
length-send_to (suc i) m (q ∷ qs) = ap suc (length-send_to i m qs)

get_elem?-send_to {ℓ} :
    {M : Type ℓ} (k i : ℕ) (m : M) (qs : List (ThreadQueue M)) (q : ThreadQueue M)
    → get_elem? qs i ≡ some q
    → get_elem? (send_to k m qs) i ≡ some (if k == i then send m q else q)
unfolding send_to
get_elem?-send_to k i m [] q e = absurd (ground (arith, e))
get_elem?-send_to zero zero m (p ∷ qs) q e = ground (arith, e)
get_elem?-send_to zero (suc i) m (p ∷ qs) q e = ground (arith, e)
get_elem?-send_to (suc k) zero m (p ∷ qs) q e = ground (arith, e)
get_elem?-send_to (suc k) (suc i) m (p ∷ qs) q e = get_elem?-send_to k i m qs q e ∙ ground arith

-- The queue of a thread after more reports: those of its turn stand at its end, in order, and each of
-- them wakes the thread.
abbrev pub with_reports :
    ThreadQueue ReportStatusRequest → List ReportStatusRequest → ThreadQueue ReportStatusRequest
with_reports q reqs = record { queue = q.queue ++ reqs; idle = q.idle + length reqs }

abbrev pub Dealt : List ReportStatusRequest → Reporter → Reporter → Type 0
Dealt reqs r r' =
    IsReady r'
    × (r'.thread_cnt ≡ r.thread_cnt)
    × ((i : ℕ) (q : ThreadQueue ReportStatusRequest)
        → get_elem? r.queues i ≡ some q
        → get_elem? r'.queues i ≡ some (with_reports q (dealt r.thread_cnt i r.index reqs)))

-- The state after one report.
abbrev after_one : ReportStatusRequest → Reporter → Reporter
after_one req r = record r {
  queues = send_to r.index req r.queues;
  index = suc r.index % r.thread_cnt;
}

get_report_status-after :
    (req : ReportStatusRequest) (r : Reporter)
    → IsReady r
    → get_report_status req r ≡ some (after_one req r)
unfolding get_report_status send_report increase_index wrap_index
get_report_status-after req r v =
    let inside : ltb r.index (length r.queues) ≡ true = ground (arith, v.all_queues, v.in_range) in
    let some_thread : (r.thread_cnt == 0) ≡ false = ground (arith, v.some_thread) in
    rw (inside, some_thread) refl

after_one-IsReady :
    (req : ReportStatusRequest) (r : Reporter) → IsReady r → IsReady (after_one req r)
after_one-IsReady req r v = record {
  some_thread = v.some_thread;
  all_queues = length-send_to r.index req r.queues ∙ v.all_queues;
  in_range = mod-lt (suc r.index) v.some_thread;
}

-- The queue of one thread after the first report and then the others.
one_more :
    (req : ReportStatusRequest) (reqs : List ReportStatusRequest) (r : Reporter) (i : ℕ)
    (q : ThreadQueue ReportStatusRequest)
    → IsReady r
    → with_reports
        (if r.index == i then send req q else q)
        (dealt r.thread_cnt i (suc r.index % r.thread_cnt) reqs)
      ≡ with_reports q (dealt r.thread_cnt i r.index (req ∷ reqs))
unfolding dealt send
one_more req reqs r i q v =
    let here : r.index % r.thread_cnt ≡ r.index = mod-eq_of_lt v.in_range in
    let later =
      dealt-congr r.thread_cnt i (suc r.index % r.thread_cnt) (suc r.index) reqs
        (mod-mod (suc r.index) r.thread_cnt) in
    rw (here, later)
      (elim (Bool-cases (r.index == i)) [
        | inl mine ↦ rw mine (
            ap₂ (λ xs n. record { queue = xs; idle = n })
              (append_assoc q.queue (req ∷ []) (dealt r.thread_cnt i (suc r.index) reqs))
              (omega arith))
        | inr other ↦ rw other refl
      ])

-- With at least one thread, and handlers that run one after the other, every report is taken, and the
-- reports go round the queues in the order
-- in which they come in: to the queue `i` go, in order, those whose turn is its, and each of them
-- wakes its thread once.
pub get_reports-Dealt :
    (reqs : List ReportStatusRequest) (r : Reporter)
    → IsReady r
    → Returns (Dealt reqs r) (get_reports reqs r)
unfolding get_reports dealt
get_reports-Dealt [] r v = (v, refl, λ i q e. e ∙ ap some (nothing_more q))
  where
    nothing_more : (q : ThreadQueue ReportStatusRequest) → q ≡ with_reports q []
    nothing_more q =
        ap₂ (λ xs n. record { queue = xs; idle = n }) (sym (append-nil q.queue)) (omega arith)
get_reports-Dealt (req ∷ reqs) r v = rw (get_report_status-after req r v) (
    Returns-mono (Dealt reqs (after_one req r)) (Dealt (req ∷ reqs) r)
      (get_reports reqs (after_one req r))
      (λ r' d. (
        d.0,
        d.1,
        λ i q e.
            d.2 i (if r.index == i then send req q else q)
              (get_elem?-send_to r.index i req r.queues q e)
            ∙ ap some (one_more req reqs r i q v),
      ))
      (get_reports-Dealt reqs (after_one req r) (after_one-IsReady req r v)))

length-replicate {ℓ} : {A : Type ℓ} (n : ℕ) (a : A) → length (replicate n a) ≡ n
length-replicate zero a = refl
length-replicate (suc n) a = ap suc (length-replicate n a)

-- The service is ready once it has made its threads, if the configuration asks for any.
pub create_reportdb_threads-IsReady : (n : ℕ) → 0 < n → IsReady (create_reportdb_threads n)
unfolding create_reportdb_threads
create_reportdb_threads-IsReady n h = record {
  some_thread = h;
  all_queues = length-replicate n new_thread_queue;
  in_range = h;
}

-- A handler that comes between the two statements on the index of another one, when that has used the
-- last queue, reads past the array.
pub overtaken_faults :
    (one other : ReportStatusRequest) (r : Reporter)
    → IsReady r
    → suc r.index ≡ r.thread_cnt
    → (send_report one r >>= λ sent. send_report other (increase_index sent)) ≡ none
unfolding send_report increase_index
overtaken_faults one other r v last =
    let inside : ltb r.index (length r.queues) ≡ true = ground (arith, v.all_queues, v.in_range) in
    let past : ltb (suc r.index) (length (send_to r.index one r.queues)) ≡ false =
      ground (arith, last, v.all_queues, length-send_to r.index one r.queues) in
    rw (inside, past) refl
