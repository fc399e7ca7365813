-- ===== src/Reactor/TcpConn/Writes.antt =====
-- `do_write` of tcp_conn.cpp: the bytes that `write` takes leave the output from its front, in order.
use mathlib.Core.Path.{subst}
use mathlib.Core.List.{append_assoc}
use lars_system.Base.{
  ℕ, ◌≤◌, ◌≡◌, refl, sym, ap, ◌∙◌, ◌==◌, Bool, true, false, if◌then◌else◌, none, some, List, [],
  ◌∷◌, ◌++◌, length, take, drop, take-append-drop, is_nil, arith, Bool-cases, Option-cases, inl,
  inr, ◌⊎◌,
}
use lars_system.Base.Run.{Safe, Safe->>=, Safe-mono, Sys, retried}
use lars_system.Reactor.IoBuf.{IoBuf}
use lars_system.Reactor.ReactorBuf.{
  ReactorBuf, data_in, length_in, buf_length, give_back, clear, WriteResult, wrote, again, failed,
  write2fd, Written,
}
use lars_system.Reactor.ReactorBuf.Room.{IsWell, AtFront, BlockOk}
use lars_system.Reactor.ReactorBuf.Drain.{
  give_back-Emptied, length-data_in, Drained, Takes, write2fd-Drained,
}
use lars_system.Reactor.TcpConn.{
  TcpConn, input, output, with_input, with_output, clean_conn, after_write_one, write_all,
  after_write_all, do_write,
}

-- What the loop comes to on the bytes alone: whether no `write` failed, the bytes that were taken,
-- and those that are left.
pub record Flush : Type 0 where
  pub is_ok : Bool
  pub taken : List ℕ
  pub left : List ℕ

abbrev pub ends : Bool → List ℕ → Flush
ends ok xs = record { is_ok = ok; taken = []; left = xs }

flush_one : (List ℕ → Flush) → WriteResult → List ℕ → Flush
flush_one more (wrote n) xs =
    if n == 0
    then ends true xs
    else (let f = more (drop n xs) in record f { taken = take n xs ++ f.taken })
flush_one more again xs = ends true xs
flush_one more failed xs = ends false xs

unfoldable pub flush : List (Sys WriteResult) → List ℕ → Flush
unfolding flush_one retried
flush [] xs = ends true xs
flush (sys ∷ calls) xs =
    if is_nil xs then ends true xs else flush_one (flush calls) (retried sys) xs

-- No `write` takes more bytes than it was given.
abbrev TakesThen : (List ℕ → Type 0) → WriteResult → List ℕ → Type 0
TakesThen more (wrote n) xs = (n ≤ length xs) × more (drop n xs)
TakesThen more again xs = Unit {0}
TakesThen more failed xs = Unit {0}

abbrev pub AllTake : List (Sys WriteResult) → List ℕ → Type 0
AllTake [] xs = Unit {0}
AllTake (sys ∷ calls) xs = TakesThen (AllTake calls) (retried sys) xs

-- The bytes that were taken and those that are left are the bytes that there were.
flush_one-append :
    (more : List ℕ → Flush) (r : WriteResult) (xs : List ℕ)
    → ((ys : List ℕ) → (more ys).taken ++ (more ys).left ≡ ys)
    → (flush_one more r xs).taken ++ (flush_one more r xs).left ≡ xs
unfolding flush_one
flush_one-append more (wrote n) xs h = elim (Bool-cases (n == 0)) [
  | inl nothing ↦ rw nothing refl
  | inr something ↦ rw something (
      append_assoc (take n xs) (more (drop n xs)).taken (more (drop n xs)).left
      ∙ ap (λ l. take n xs ++ l) (h (drop n xs))
      ∙ take-append-drop n xs)
]
flush_one-append more again xs h = refl
flush_one-append more failed xs h = refl

pub flush-append :
    (calls : List (Sys WriteResult)) (xs : List ℕ)
    → (flush calls xs).taken ++ (flush calls xs).left ≡ xs
unfolding flush
flush-append [] xs = refl
flush-append (sys ∷ calls) xs = elim (Bool-cases (is_nil xs)) [
  | inl nothing ↦ rw nothing refl
  | inr something ↦
      rw something (flush_one-append (flush calls) (retried sys) xs (λ ys. flush-append calls ys))
]

abbrev pub Flushed : Flush → Bool × ReactorBuf → Type 0
Flushed f (ok, s) = (ok ≡ f.is_ok) × (data_in s.buf ≡ f.left) × IsWell s × AtFront s.buf

is_nil-length : (xs : List ℕ) → is_nil xs ≡ (length xs == 0)
is_nil-length [] = refl
is_nil-length (x ∷ xs) = ground arith

after_write_one-Flushed :
    (calls : List (Sys WriteResult)) (r : WriteResult) (s : ReactorBuf) (w : Written)
    → IsWell s
    → AtFront s.buf
    → TakesThen (AllTake calls) r (data_in s.buf)
    → Drained r s w
    → ((s' : ReactorBuf)
        → IsWell s'
        → AtFront s'.buf
        → AllTake calls (data_in s'.buf)
        → Safe ⊥ (Flushed (flush calls (data_in s'.buf))) (write_all calls s'))
    → Safe ⊥
        (Flushed (flush_one (flush calls) r (data_in s.buf)))
        (after_write_one (write_all calls) w)
unfolding after_write_one flush_one
after_write_one-Flushed calls (wrote n) s (none, s') v f t (e, _, _, _) more =
    absurd (ground (arith, e))
after_write_one-Flushed calls (wrote n) s (some ret, s') v f (h, t) (e, v', f', d) more =
    elim (Bool-cases (n == 0)) [
      | inl nothing ↦
          let none_taken : (ret == 0) ≡ true = ground (arith, e, nothing) in
          let zero_taken : n ≡ 0 = ground (arith, nothing) in
          rw (nothing, none_taken) (refl, d ∙ ap (λ k. drop k (data_in s.buf)) zero_taken, v', f')
      | inr something ↦
          let some_taken : (ret == 0) ≡ false = ground (arith, e, something) in
          rw (something, some_taken, ← d) (more s' v' f' (subst (AllTake calls) (sym d) t))
    ]
after_write_one-Flushed calls again s (none, s') v f t (e, _) more = absurd (ground (arith, e))
after_write_one-Flushed calls again s (some ret, s') v f t (e, same) more =
    let none_taken : (ret == 0) ≡ true = ground (arith, e) in
    rw (none_taken, same) (refl, refl, v, f)
after_write_one-Flushed calls failed s (none, s') v f t (e, same) more = rw same (refl, refl, v, f)
after_write_one-Flushed calls failed s (some ret, s') v f t (e, same) more =
    absurd (ground (arith, e))

write2fd-some :
    (sys : Sys WriteResult) (b : IoBuf) (s : ReactorBuf)
    → s.buf ≡ some b
    → IsWell s
    → AtFront s.buf
    → Takes (retried sys) b.length
    → Safe ⊥ (Drained (retried sys) s) (write2fd sys s)
write2fd-some sys b s e v f t =
    subst (λ (s : ReactorBuf). Safe ⊥ (Drained (retried sys) s) (write2fd sys s))
      (ap (λ o. record { buf = o; pool = s.pool }) (sym e))
      (write2fd-Drained sys b s.pool v.stocked (subst BlockOk e v.block) (subst AtFront e f) t)

TakesThen-some :
    (r : WriteResult) (more : List ℕ → Type 0) (xs : List ℕ) (n : ℕ)
    → length xs ≡ n
    → TakesThen more r xs
    → Takes r n
TakesThen-some (wrote k) more xs n e (h, _) = omega (arith, e)
TakesThen-some again more xs n e h = tt
TakesThen-some failed more xs n e h = tt

pub write_all-Flushed :
    (calls : List (Sys WriteResult)) (s : ReactorBuf)
    → IsWell s
    → AtFront s.buf
    → AllTake calls (data_in s.buf)
    → Safe ⊥ (Flushed (flush calls (data_in s.buf))) (write_all calls s)
unfolding write_all flush buf_length
write_all-Flushed [] s v f t = (refl, refl, v, f)
write_all-Flushed (sys ∷ calls) s v f t =
    let n = length-data_in s.buf in
    let nil = is_nil-length (data_in s.buf) in
    elim (Bool-cases (length_in s.buf == 0)) [
      | inl nothing ↦ rw (nothing, nil, n, nothing) (refl, refl, v, f)
      | inr something ↦
          rw (something, nil, n, something)
            (elim (Option-cases s.buf) [
              | inl e ↦ absurd (ground (arith, something, ap length_in e))
              | inr (b, e) ↦
                  Safe->>= _ (Drained (retried sys) s) _ (write2fd sys s) _
                    (write2fd-some sys b s e v f (
                      TakesThen-some (retried sys) (AllTake calls) (data_in s.buf) b.length
                        (n ∙ ap length_in e) t))
                    λ w d.
                      after_write_one-Flushed calls (retried sys) s w v f t d
                        (λ s'. write_all-Flushed calls s')
            ])
    ]

-- What is left waits for the next writing, for which the socket is watched while there is some; or a
-- `write` failed, and the connection is closed.
abbrev pub Outcome : Flush → TcpConn → TcpConn → Type 0
Outcome f c c' =
    ((f.is_ok ≡ true)
      × (data_in c'.obuf ≡ f.left)
      × (c'.writing ≡ (if is_nil f.left then false else c.writing))
      × AtFront c'.obuf
      × IsWell (output c')
      × (c'.ibuf ≡ c.ibuf)
      × (c'.is_open ≡ c.is_open))
    ⊎ ((f.is_ok ≡ false) × (c'.is_open ≡ false) × (c'.writing ≡ false))

clear-IsWell : (s : ReactorBuf) → IsWell s → Safe ⊥ IsWell (clear s)
unfolding clear
clear-IsWell s w = elim (Option-cases s.buf) [
  | inl e ↦ rw e (record { stocked = w.stocked; block = tt })
  | inr (b, e) ↦ rw e (
      Safe-mono _ _ _ (give_back b s.pool) (λ s' h. h.0)
        (give_back-Emptied b s.pool w.stocked (subst BlockOk e w.block).1))
]

-- A connection whose buffers are in order can be closed.
pub clean_conn-closes :
    (c : TcpConn)
    → IsWell (input c)
    → IsWell (output c)
    → Safe ⊥ (λ c'. (c'.is_open ≡ false) × (c'.writing ≡ false)) (clean_conn c)
unfolding clean_conn
clean_conn-closes c wi wo = Safe->>= _ _ _ (clear (input c)) _ (clear-IsWell (input c) wi) λ i w.
    Safe->>= _ _ _ (clear (output (with_input c i))) _
      (clear-IsWell (output (with_input c i)) (record { stocked = w.stocked; block = wo.block }))
      λ o w2. (refl, refl)

after_write_all-Outcome :
    (f : Flush) (c : TcpConn) (w : Bool × ReactorBuf)
    → IsWell (input c)
    → Flushed f w
    → Safe ⊥ (Outcome f c) (after_write_all c w)
unfolding after_write_all buf_length
after_write_all-Outcome f c (false, s) wi (ok, d, v, front) =
    Safe-mono _ _ _ (clean_conn (with_output c s)) (λ c' h. inr (sym ok, h.0, h.1))
      (clean_conn-closes (with_output c s) (record { stocked = v.stocked; block = wi.block }) v)
after_write_all-Outcome f c (true, s) wi (ok, d, v, front) =
    let n = length-data_in s.buf in
    let nil = ap is_nil (sym d) ∙ is_nil-length (data_in s.buf) in
    elim (Bool-cases (length_in s.buf == 0)) [
      | inl nothing ↦ rw (nothing, nil, n, nothing) (inl (sym ok, d, refl, front, v, refl, refl))
      | inr something ↦
          rw (something, nil, n, something) (inl (sym ok, d, refl, front, v, refl, refl))
    ]

-- On a connection whose buffers are in order, for `write`s that take no more than they are given,
-- `do_write` does what the flush of the bytes of the output says. If no `write` fails, the bytes that
-- were taken were at the front of the output, in order; the rest stays there, and the socket is
-- watched for writing as before if there is a rest, and not if there is none. If a `write` fails, the
-- connection is closed.
pub do_write-Outcome :
    (calls : List (Sys WriteResult)) (c : TcpConn)
    → IsWell (input c)
    → IsWell (output c)
    → AtFront c.obuf
    → AllTake calls (data_in c.obuf)
    → let f = flush calls (data_in c.obuf) in
      (f.taken ++ f.left ≡ data_in c.obuf) × Safe ⊥ (Outcome f c) (do_write calls c)
unfolding do_write
do_write-Outcome calls c wi wo front t = (
  flush-append calls (data_in c.obuf),
  Safe->>= _ (Flushed (flush calls (data_in c.obuf))) _ (write_all calls (output c)) _
      (write_all-Flushed calls (output c) wo front t)
      λ w h. after_write_all-Outcome (flush calls (data_in c.obuf)) c w wi h,
)
