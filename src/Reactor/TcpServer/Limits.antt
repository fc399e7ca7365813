-- ===== src/Reactor/TcpServer/Limits.antt =====
-- The limit on connections.
use lars_system.Base.{
  contains-remove, ℕ, ◌+◌, ◌≤◌, ◌<◌, ◌≡◌, refl, sym, ap, ◌∙◌, leb, ltb, suc, true, false, Option,
  none, some, is_some, Option-cases, List, [], ◌∷◌, length, length-append, insert, remove, count,
  count-remove, contains, count-append, count-contains, arith, Bool-cases, inl, inr,
}
use lars_system.Base.Run.{Run, done, ◌>>=◌, Safe, Safe-mono, Safe->>=}
use mathlib.Core.Path.{subst}
use lars_system.Reactor.TcpConn
use lars_system.Reactor.TcpConn.{TcpConn, input, output}
use lars_system.Reactor.TcpConn.Writes.{clean_conn-closes}
use lars_system.Reactor.ReactorBuf.Room.{IsWell}
use lars_system.Reactor.ThreadPool.{ThreadPool}
use lars_system.Reactor.TcpServer.{
  Conns, increase_conn, decrease_conn, clean_conn, call_hook, Accept, accepted, eintr, emfile,
  eagain, failed, Server, hand_over, admit, do_accept, take_over,
}

-- The count is the number of connections, each is there once, and the limit is kept.
pub record IsCounted (s : Conns) : Type 0 where
  pub counted : s.cur_conns ≡ length s.conns
  pub once : (fd : ℕ) → count fd s.conns ≤ 1
  pub limited : s.cur_conns ≤ s.max_conns

length-remove : (fd : ℕ) (xs : List ℕ) → length xs ≡ length (remove fd xs) + count fd xs
unfolding remove count
length-remove fd [] = refl
length-remove fd (x ∷ xs) = ground (arith, length-remove fd xs)

contains-count : (fd : ℕ) (xs : List ℕ) → contains fd xs ≡ false → count fd xs ≡ 0
unfolding contains count
contains-count fd [] h = refl
contains-count fd (x ∷ xs) h = ground (arith, contains-count fd xs)

increase_conn-IsCounted :
    (fd : ℕ) (s : Conns)
    → fd < s.capacity
    → contains fd s.conns ≡ false
    → s.cur_conns < s.max_conns
    → IsCounted s
    → Safe ⊥ IsCounted (increase_conn fd s)
unfolding increase_conn insert count
increase_conn-IsCounted fd s small fresh room v =
    let inside : ltb fd s.capacity ≡ true = ground (arith, small) in
    rw (inside, fresh)
      (record {
        counted = ground (arith, v.counted, length-append s.conns (fd ∷ []));
        once = λ f.
            ground
              (arith, v.once f, count-append f s.conns (fd ∷ []), contains-count fd s.conns fresh);
        limited = room;
      })

-- A connection that is there goes: the count stays right.
pub decrease_conn-IsCounted :
    (fd : ℕ) (s : Conns)
    → fd < s.capacity
    → contains fd s.conns ≡ true
    → IsCounted s
    → Safe ⊥ (λ s'. IsCounted s' × (contains fd s'.conns ≡ false)) (decrease_conn fd s)
unfolding decrease_conn
decrease_conn-IsCounted fd s small there v =
    let inside : ltb fd s.capacity ≡ true = ground (arith, small) in
    rw inside (
      record {
        counted = ground (
          arith,
          v.counted,
          v.once fd,
          length-remove fd s.conns,
          count-contains fd s.conns,
          there,
        );
        once = λ f. ground (arith, v.once f, count-remove f fd s.conns);
        limited = ground (arith, v.limited);
      },
      ground (arith, contains-remove fd fd s.conns),
    )

-- After `clean_conn` without a hook, the descriptor has no connection, the count is right, and the
-- connection is closed.
abbrev pub Cleaned : ℕ → Conns × TcpConn → Type 0
Cleaned fd w = IsCounted w.0 × (contains fd w.0.conns ≡ false) × (w.1.is_open ≡ false)

pub clean_conn-Cleaned :
    (fd : ℕ) (s : Conns) (c : TcpConn)
    → fd < s.capacity
    → contains fd s.conns ≡ true
    → IsCounted s
    → IsWell (input c)
    → IsWell (output c)
    → Safe ⊥ (Cleaned fd) (clean_conn none fd (s, c))
unfolding clean_conn call_hook
clean_conn-Cleaned fd s c small there v wi wo =
    Safe->>= ⊥ (λ s'. IsCounted s' × (contains fd s'.conns ≡ false)) (Cleaned fd)
      (decrease_conn fd s) _ (decrease_conn-IsCounted fd s small there v)
      λ s' (counted, gone).
        Safe->>= ⊥ (λ c'. (c'.is_open ≡ false) × (c'.writing ≡ false)) (Cleaned fd)
          (TcpConn.clean_conn c) _ (clean_conn-closes c wi wo)
          λ c' closed. (counted, gone, closed.0)

-- A call of `accept` before an accepted connection or EAGAIN fails for good.
abbrev pub FailsIn : List Accept → Type 0
FailsIn [] = ⊥
FailsIn (accepted fd ∷ more) = ⊥
FailsIn (eintr ∷ more) = FailsIn more
FailsIn (emfile ∷ more) = FailsIn more
FailsIn (eagain ∷ more) = ⊥
FailsIn (failed ∷ more) = Unit {0}

-- A descriptor that `accept` gives is within the array and not one that has a connection.
abbrev pub Fresh : List Accept → Conns → Type 0
Fresh [] s = Unit {0}
Fresh (accepted fd ∷ more) s = (fd < s.capacity) × (contains fd s.conns ≡ false)
Fresh (eintr ∷ more) s = Fresh more s
Fresh (emfile ∷ more) s = Fresh more s
Fresh (eagain ∷ more) s = Unit {0}
Fresh (failed ∷ more) s = Unit {0}

-- The descriptors are within an array of this length.
abbrev pub AllWithin : List ℕ → ℕ → Type 0
AllWithin [] n = Unit {0}
AllWithin (fd ∷ fds) n = (fd < n) × AllWithin fds n

module _ {κ} {T : Type κ} where
  take_over-IsCounted :
      (fd : ℕ) (s : Server T)
      → Safe ⊥ IsCounted (increase_conn fd s.state)
      → Safe ⊥ (λ s'. IsCounted s'.state) (take_over fd s)
  unfolding take_over
  take_over-IsCounted fd s h =
      Safe->>= ⊥ IsCounted (λ s'. IsCounted s'.state) (increase_conn fd s.state)
        (λ c. done (record s { state = c })) h (λ c v. v)

  -- With room, a connection goes to a thread, and the count stays as it is, or it is counted.
  hand_over-IsCounted :
      (fd : ℕ) (pool : Option (ThreadPool T)) (s : Server T)
      → (fd < s.state.capacity) × (contains fd s.state.conns ≡ false)
      → s.state.cur_conns < s.state.max_conns
      → IsCounted s.state
      → Safe ⊥ (λ s'. IsCounted s'.state) (hand_over fd pool s)
  unfolding hand_over
  hand_over-IsCounted fd none s (small, fresh) room v =
      take_over-IsCounted fd s (increase_conn-IsCounted fd s.state small fresh room v)
  hand_over-IsCounted fd (some p) s f room v = v

  admit-IsCounted :
      (fd : ℕ) (s : Server T)
      → (fd < s.state.capacity) × (contains fd s.state.conns ≡ false)
      → IsCounted s.state
      → Safe ⊥ (λ s'. IsCounted s'.state) (admit fd s)
  unfolding admit
  admit-IsCounted fd s f v = elim (Bool-cases (leb s.state.max_conns s.state.cur_conns)) [
    | inl full ↦ rw full v
    | inr room ↦ rw room (hand_over-IsCounted fd s.thread_pool s f (ground (arith, room)) v)
  ]

  -- `do_accept` keeps the count right and the limit kept, for a descriptor within the array that has
  -- no connection; the process ends only when `accept` fails for good. With a pool of threads this is
  -- the count without the connections in the queues of the threads.
  pub do_accept-IsCounted :
      (more : List Accept) (s : Server T)
      → Fresh more s.state
      → IsCounted s.state
      → Safe (FailsIn more) (λ s'. IsCounted s'.state) (do_accept more s)
  unfolding do_accept
  do_accept-IsCounted [] s f v = v
  do_accept-IsCounted (accepted fd ∷ more) s f v = admit-IsCounted fd s f v
  do_accept-IsCounted (eintr ∷ more) s f v = do_accept-IsCounted more s f v
  do_accept-IsCounted (emfile ∷ more) s f v = do_accept-IsCounted more s f v
  do_accept-IsCounted (eagain ∷ more) s f v = v
  do_accept-IsCounted (failed ∷ more) s f v = tt

  -- Connections that are accepted one after the other, before a thread takes any of them over.
  unfoldable pub admit_all : List ℕ → Server T → Run (Server T)
  unfolding admit
  admit_all [] s = done s
  admit_all (fd ∷ fds) s = admit fd s >>= admit_all fds

  unfoldable pub take_over_all : List ℕ → Server T → Run (Server T)
  unfolding take_over
  take_over_all [] s = done s
  take_over_all (fd ∷ fds) s = take_over fd s >>= take_over_all fds

  -- Connections that are taken over are counted, whatever the limit is.
  take_over_all-counts :
      (fds : List ℕ) (s : Server T)
      → AllWithin fds s.state.capacity
      → Safe ⊥ (λ s'. s'.state.cur_conns ≡ s.state.cur_conns + length fds) (take_over_all fds s)
  unfolding take_over_all take_over increase_conn
  take_over_all-counts [] s a = omega arith
  take_over_all-counts (fd ∷ fds) s (small, rest) =
      let inside : ltb fd s.state.capacity ≡ true = ground (arith, small) in
      let c : Conns = record (s.state) {
        conns = insert fd s.state.conns;
        cur_conns = suc s.state.cur_conns;
      } in
      let next : Server T = record s { state = c } in
      rw inside (
        Safe-mono ⊥ _ _ (take_over_all fds next) (λ s' e. omega (arith, e))
          (take_over_all-counts fds next rest))

  -- The connections went to the queues of a pool.
  abbrev Queued : Server T → Server T → Type 0
  Queued s s' = (s'.state ≡ s.state) × (s'.closed ≡ s.closed) × (is_some s'.thread_pool ≡ true)

  admit-Queued :
      (fd : ℕ) (s : Server T)
      → is_some s.thread_pool ≡ true
      → s.state.cur_conns < s.state.max_conns
      → Safe ⊥ (Queued s) (admit fd s)
  unfolding admit hand_over
  admit-Queued fd s pool room =
      let free : leb s.state.max_conns s.state.cur_conns ≡ false = ground arith in
      elim (Option-cases s.thread_pool) [
        | inl e ↦ absurd (ground (arith, pool, e))
        | inr (p, e) ↦ rw (free, e) (refl, refl, refl)
      ]

  -- While one place is free, any number of connections is admitted to the queues and none closed.
  admit_all-Queued :
      (fds : List ℕ) (s : Server T)
      → is_some s.thread_pool ≡ true
      → s.state.cur_conns < s.state.max_conns
      → Safe ⊥ (Queued s) (admit_all fds s)
  unfolding admit_all
  admit_all-Queued [] s pool room = (refl, refl, pool)
  admit_all-Queued (fd ∷ fds) s pool room =
      Safe->>= ⊥ (Queued s) (Queued s) (admit fd s) (admit_all fds) (admit-Queued fd s pool room)
        (λ t (state, closed, some_pool).
          Safe-mono ⊥ (Queued t) (Queued s) (admit_all fds t)
            (λ u (a, b, c). (a ∙ state, b ∙ closed, c))
            (admit_all-Queued fds t some_pool
              (ground (arith, room, ap (λ c. c.cur_conns) state, ap (λ c. c.max_conns) state))))

  -- With a pool of threads, the connections in the queues are not counted: while one place is free,
  -- any number of connections is admitted, and when the threads have taken them over each of them is
  -- counted, whatever the limit is.
  pub admit_all-overcommits :
      (fds : List ℕ) (s : Server T)
      → is_some s.thread_pool ≡ true
      → s.state.cur_conns < s.state.max_conns
      → AllWithin fds s.state.capacity
      → Safe ⊥
          (λ s'. s'.state.cur_conns ≡ s.state.cur_conns + length fds)
          (admit_all fds s >>= take_over_all fds)
  admit_all-overcommits fds s pool room small =
      Safe->>= ⊥ (Queued s) (λ s'. s'.state.cur_conns ≡ s.state.cur_conns + length fds)
        (admit_all fds s) (take_over_all fds) (admit_all-Queued fds s pool room)
        (λ t (state, _, _).
          Safe-mono ⊥ _ _ (take_over_all fds t)
            (λ u e. e ∙ ap (λ c. c.cur_conns + length fds) state)
            (take_over_all-counts fds t
              (subst (λ n. AllWithin fds n) (sym (ap (λ c. c.capacity) state)) small)))
