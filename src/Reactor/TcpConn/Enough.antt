-- ===== src/Reactor/TcpConn/Enough.antt =====
-- The loop of `do_read` of tcp_conn.cpp comes to an end.

use lars_system.Base.{
  ℕ, zero, suc, ◌+◌, ◌≤◌, ◌≡◌, refl, ap, ◌==◌, leb, ◌&&◌, false, if◌then◌else◌, length, drop,
  length-drop, arith, Bool-cases, Option, none, some, Option-cases, inl, inr, ◌⊎◌,
}
use lars_system.Base.Run.{Run, done, dies, faults, ◌>>=◌, Safe, Safe-mono}
use lars_system.Reactor.ReactorBuf.{ReactorBuf, data_in, length_in, buf_length}
use lars_system.Reactor.ReactorBuf.Room.{IsWell}
use lars_system.Reactor.ReactorBuf.Drain.{length-data_in}
use lars_system.Reactor.Message.{message_head_len, MsgHead, head_at, Message}
use lars_system.Reactor.TcpConn.{
  Turn, incomplete, malformed, complete, next_turn, run_turn, Parse, with_call, take_message,
  is_bad_head, read_messages,
}
use lars_system.Reactor.TcpConn.Framing.{Cut, frames}
use lars_system.Reactor.TcpConn.Reads.{
  Parsed, read_messages-Parsed, take_message-Taken, take_message_faults,
}

-- The condition of the loop fails, or its first test on a head.
abbrev pub IsLast : Parse → Type 0
IsLast p = next_turn p.rest ≡ (if p.format_error then malformed else incomplete)

-- If the run returns, it is for such an end; it is not the code's own `exit`.
Halted : Run Parse → Type 0
Halted (done p) = IsLast p
Halted dies = ⊥
Halted faults = Unit {0}

-- The head and the body of a message are in the buffer.
abbrev Whole : ReactorBuf → Turn → Type 0
Whole s incomplete = Unit {0}
Whole s malformed = Unit {0}
Whole s (complete h) = message_head_len + h.msglen ≤ length_in s.buf

next_turn-Whole : (s : ReactorBuf) → Whole s (next_turn s)
unfolding next_turn buf_length
next_turn-Whole s =
    let h = head_at (data_in s.buf) in
    elim (Bool-cases (leb message_head_len (length_in s.buf))) [
      | inr short ↦ rw short tt
      | inl long ↦ elim (Bool-cases (is_bad_head h)) [
        | inl e ↦ rw (long, e) tt
        | inr good ↦ elim (Bool-cases (leb (message_head_len + h.msglen) (length_in s.buf))) [
          | inr part ↦ rw (long, good, part) tt
          | inl all ↦ rw (long, good, all) (ground (arith, all))
        ]
      ]
    ]

-- A buffer in order, with less data by a head at least.
abbrev Shrunk : ReactorBuf → ReactorBuf → Type 0
Shrunk s s' = IsWell s' × (message_head_len + length_in s'.buf ≤ length_in s.buf)

take_message-Shrunk :
    (h : MsgHead) (s : ReactorBuf)
    → IsWell s
    → message_head_len + h.msglen ≤ length_in s.buf
    → (take_message h s ≡ faults) ⊎ Safe ⊥ (λ t. Shrunk s t.1) (take_message h s)
take_message-Shrunk h s w whole = elim (Option-cases s.buf) [
  | inl e ↦ absurd (ground (arith, ap length_in e))
  | inr (b, e) ↦ elim (Bool-cases ((h.msglen == 0) && (b.length == message_head_len))) [
    | inl no_body ↦
        inl (take_message_faults h b s e (ground (arith, no_body)) (ground (arith, no_body)))
    | inr body ↦ inr (
        Safe-mono _ _ _ (take_message h s) (λ t p. (p.2, less t.1 p.1))
          (take_message-Taken h b s e w (ground (arith, ap length_in e)) body))
  ]
]
  where
    less :
        (s' : ReactorBuf)
        → data_in s'.buf ≡ drop h.msglen (drop message_head_len (data_in s.buf))
        → message_head_len + length_in s'.buf ≤ length_in s.buf
    less s' d = omega (
      arith,
      whole,
      ap length d,
      length-data_in s.buf,
      length-data_in s'.buf,
      length-drop message_head_len (data_in s.buf),
      length-drop h.msglen (drop message_head_len (data_in s.buf)),
    )

with_call-Halted :
    (m : Message) (r : Run Parse) → Halted r → Halted (r >>= λ p. done (with_call m p))
unfolding Halted
with_call-Halted m (done p) e = e
with_call-Halted m dies e = e
with_call-Halted m faults e = e

-- Two ways to go on that agree on smaller buffers.
Same : (ReactorBuf → Run Parse) → (ReactorBuf → Run Parse) → ReactorBuf → Type 0
Same f g s = (f s ≡ g s) × Halted (f s)

take_message-Same :
    (f g : ReactorBuf → Run Parse) (s : ReactorBuf) (r : Run (Message × ReactorBuf))
    → (r ≡ faults) ⊎ Safe ⊥ (λ t. Shrunk s t.1) r
    → ((s' : ReactorBuf) → Shrunk s s' → Same f g s')
    → ((r >>= λ t. f t.1 >>= λ p. done (with_call t.0 p))
        ≡ (r >>= λ t. g t.1 >>= λ p. done (with_call t.0 p)))
      × Halted (r >>= λ t. f t.1 >>= λ p. done (with_call t.0 p))
unfolding Same Halted
take_message-Same f g s (done t) (inl e) h = absurd (ground (arith, e))
take_message-Same f g s (done t) (inr less) h = (
  ap (λ r. r >>= λ p. done (with_call t.0 p)) (h t.1 less).0,
  with_call-Halted t.0 (f t.1) (h t.1 less).1,
)
take_message-Same f g s dies (inl e) h = absurd (ground (arith, e))
take_message-Same f g s dies (inr less) h = absurd less
take_message-Same f g s faults less h = (refl, tt)

run_turn-Same :
    (f g : ReactorBuf → Run Parse) (s : ReactorBuf) (t : Turn)
    → IsWell s
    → next_turn s ≡ t
    → Whole s t
    → ((s' : ReactorBuf) → Shrunk s s' → Same f g s')
    → (run_turn f s t ≡ run_turn g s t) × Halted (run_turn f s t)
unfolding run_turn Halted
run_turn-Same f g s incomplete w e whole h = (refl, e)
run_turn-Same f g s malformed w e whole h = (refl, e)
run_turn-Same f g s (complete head) w e whole h =
    take_message-Same f g s (take_message head s) (take_message-Shrunk head s w whole) h

-- A buffer without data has no whole head.
nothing_left : (s : ReactorBuf) → length_in s.buf ≡ 0 → next_turn s ≡ incomplete
unfolding next_turn buf_length
nothing_left s e =
    let short : leb message_head_len (length_in s.buf) ≡ false = ground arith in rw short refl

read_messages-Same :
    (n m : ℕ) (s : ReactorBuf)
    → IsWell s
    → length_in s.buf ≤ n
    → length_in s.buf ≤ m
    → Same (read_messages n) (read_messages m) s
unfolding read_messages Same run_turn Halted
read_messages-Same zero zero s w a b = (refl, nothing_left s (omega arith))
read_messages-Same zero (suc m) s w a b = let e = nothing_left s (omega arith) in rw e (refl, refl)
read_messages-Same (suc n) zero s w a b = let e = nothing_left s (omega arith) in rw e (refl, e)
read_messages-Same (suc n) (suc m) s w a b =
    run_turn-Same (read_messages n) (read_messages m) s (next_turn s) w refl (next_turn-Whole s)
      λ s' (w', less). read_messages-Same n m s' w' (omega arith) (omega arith)

-- What a run comes to: where the bytes have a cut, it returns for such an end; where they have none,
-- since a message without a body ends them, an assertion fails.
abbrev pub Ended : Option Cut → Run Parse → Type 0
Ended none r = r ≡ faults
Ended (some c) r = Safe ⊥ IsLast r

Halted-Ended : (o : Option Cut) (r : Run Parse) → Halted r → Parsed o r → Ended o r
unfolding Halted
Halted-Ended none (done p) h none_left = absurd (none_left p refl)
Halted-Ended none dies h none_left = absurd h
Halted-Ended none faults h none_left = refl
Halted-Ended (some c) (done p) h cut = h
Halted-Ended (some c) dies h cut = cut
Halted-Ended (some c) faults h cut = cut

-- The loop of `do_read` ends: on a buffer in order, as many turns as the buffer has bytes are enough,
-- since more of them change nothing. If the framing cuts the bytes, the loop returns, and then no
-- whole head is left, or a bad head is next and was reported, or a message lacks bytes. If it does
-- not, since the bytes come to a message without a body that ends them, an assertion fails.
pub read_messages-Ended :
    (fuel : ℕ) (s : ReactorBuf)
    → IsWell s
    → buf_length s ≤ fuel
    → (read_messages fuel s ≡ read_messages (buf_length s) s)
      × Ended (frames fuel (data_in s.buf)) (read_messages fuel s)
unfolding buf_length Same
read_messages-Ended fuel s w enough =
    let (same, halted) = read_messages-Same fuel (length_in s.buf) s w enough (omega arith) in
    (
      same,
      Halted-Ended (frames fuel (data_in s.buf)) (read_messages fuel s) halted
          (read_messages-Parsed fuel s w),
    )
