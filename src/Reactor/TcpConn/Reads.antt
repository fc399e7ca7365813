-- ===== src/Reactor/TcpConn/Reads.antt =====
-- `do_read` of tcp_conn.cpp on a buffer of the pool does what the framing of bytes says.
use mathlib.Core.Path.{ap₂, subst}
use lars_system.Base.{
  ℕ, zero, suc, ◌+◌, ◌≤◌, ◌≡◌, ◌≢◌, refl, sym, ap, ◌∙◌, ◌==◌, leb, ◌&&◌, true, false, if◌then◌else◌,
  Option, none, some, [], ◌∷◌, length, take, drop, length-drop, arith, Bool-cases, Option-cases,
  inl, inr,
}
use lars_system.Base.Run.{Run, done, dies, faults, ◌>>=◌, Safe, Safe->>=, Safe-mono}
use lars_system.Reactor.IoBuf.{IoBuf}
use lars_system.Reactor.IoBuf
use lars_system.Reactor.BufPool.{revert}
use lars_system.Reactor.ReactorBuf.{
  ReactorBuf, data_in, length_in, buf_length, pop, pop_block, give_back,
}
use lars_system.Reactor.ReactorBuf.Room.{IsWell}
use lars_system.Reactor.ReactorBuf.Drain.{Popped, pop-Popped, length-data_in}
use lars_system.Reactor.Message.{message_head_len, MsgHead, head_at, Message}
use lars_system.Reactor.TcpConn.{
  Turn, incomplete, malformed, complete, next_turn, run_turn, Parse, with_call, take_message,
  is_bad_head, read_messages,
}
use lars_system.Reactor.TcpConn.Framing.{Cut, before, frames}

-- What the loop comes to for a cut of the bytes: it does not return if there is none, and else it
-- returns the cut.
abbrev pub Parsed : Option Cut → Run Parse → Type 0
Parsed none r = (p : Parse) → r ≢ done p
Parsed (some c) r =
    Safe ⊥
      (λ p.
        (p.calls ≡ c.messages)
        × (p.format_error ≡ c.is_bad)
        × (data_in p.rest.buf ≡ c.left)
        × IsWell p.rest)
      r

-- The message is taken: its body is handed on, and both parts leave the data.
abbrev pub Taken : MsgHead → ReactorBuf → Message × ReactorBuf → Type 0
Taken h s (m, s') =
    (m ≡ record { msgid = h.msgid; body = take h.msglen (drop message_head_len (data_in s.buf)) })
    × (data_in s'.buf ≡ drop h.msglen (drop message_head_len (data_in s.buf)))
    × IsWell s'

pop-none : (n : ℕ) (s : ReactorBuf) → s.buf ≡ none → pop n s ≡ faults
unfolding pop
pop-none n s e = rw e refl

-- The second `pop`, of a body that is in the buffer.
pop_body :
    (n : ℕ) (s : ReactorBuf)
    → IsWell s
    → s.buf ≢ none
    → n ≤ length_in s.buf
    → Safe ⊥ (λ s'. (data_in s'.buf ≡ drop n (data_in s.buf)) × IsWell s') (pop n s)
pop_body n s w there h = elim (Option-cases s.buf) [
  | inl e ↦ absurd (there e)
  | inr (b, e) ↦
      Safe-mono _ _ _ (pop n s) (λ s' p. (p.1 ∙ ap (λ o. drop n (data_in o)) (sym e), p.0))
        (pop-Popped n b s e w (ground (arith, ap length_in e)))
]

pub take_message-Taken :
    (h : MsgHead) (b : IoBuf) (s : ReactorBuf)
    → s.buf ≡ some b
    → IsWell s
    → message_head_len + h.msglen ≤ b.length
    → ((h.msglen == 0) && (b.length == message_head_len)) ≡ false
    → Safe ⊥ (Taken h s) (take_message h s)
unfolding take_message
take_message-Taken h b s e w whole body =
    Safe->>= _ _ _ (pop message_head_len s) _ (pop-Popped message_head_len b s e w (omega arith))
      λ s1 p.
        Safe->>= _ _ _ (pop h.msglen s1) _ (pop_body h.msglen s1 p.0 (there s1 p) (enough s1 p))
          λ s2 q. (
            ap (λ xs. record { msgid = h.msgid; body = take h.msglen xs }) (same s1 p),
            q.0 ∙ ap (drop h.msglen) (same s1 p),
            q.1,
          )
  where
    same :
        (s1 : ReactorBuf)
        → Popped message_head_len (some b) s1
        → data_in s1.buf ≡ drop message_head_len (data_in s.buf)
    same s1 p = p.1 ∙ ap (λ o. drop message_head_len (data_in o)) (sym e)

    there : (s1 : ReactorBuf) → Popped message_head_len (some b) s1 → s1.buf ≢ none
    there s1 (_, _, inl (len, gone)) = absurd (ground (arith, len))
    there s1 (_, _, inr (less, left)) = left

    enough : (s1 : ReactorBuf) → Popped message_head_len (some b) s1 → h.msglen ≤ length_in s1.buf
    enough s1 p = omega (
      arith,
      length-data_in s1.buf,
      length-data_in (some b),
      length-drop message_head_len (data_in (some b)),
      ap length p.1,
    )

-- A message without a body at the end of the data: the block went back, and `pop` asserts.
pub take_message_faults :
    (h : MsgHead) (b : IoBuf) (s : ReactorBuf)
    → s.buf ≡ some b
    → h.msglen ≡ 0
    → b.length ≡ message_head_len
    → take_message h s ≡ faults
unfolding take_message pop pop_block give_back IoBuf.pop
take_message_faults h b s e no_body len =
    let enough : leb message_head_len b.length ≡ true = ground arith in
    let gone : ((IoBuf.pop message_head_len b).length == 0) ≡ true = ground arith in
    elim (Option-cases (revert (IoBuf.pop message_head_len b) s.pool)) [
      | inl back ↦ rw (e, enough, gone, back) refl
      | inr (pool, back) ↦ rw (e, enough, gone, back) refl
    ]

-- What a turn comes to: the tests on the buffer agree with the cut of its bytes.
TurnOk : ℕ → ReactorBuf → Turn → Type 0
TurnOk fuel s incomplete =
    frames (suc fuel) (data_in s.buf)
    ≡ some (record { messages = []; is_bad = false; left = data_in s.buf })
TurnOk fuel s malformed =
    frames (suc fuel) (data_in s.buf)
    ≡ some (record { messages = []; is_bad = true; left = data_in s.buf })
TurnOk fuel s (complete h) =
    (message_head_len + h.msglen ≤ length_in s.buf)
    × (frames (suc fuel) (data_in s.buf) ≡ (
        if (h.msglen == 0) && (length_in s.buf == message_head_len)
        then none
        else before
            (record {
              msgid = h.msgid;
              body = take h.msglen (drop message_head_len (data_in s.buf));
            })
            (frames fuel (drop h.msglen (drop message_head_len (data_in s.buf))))))

next_turn-TurnOk : (fuel : ℕ) (s : ReactorBuf) → TurnOk fuel s (next_turn s)
unfolding next_turn frames buf_length TurnOk
next_turn-TurnOk fuel s =
    let n = length-data_in s.buf in
    let h = head_at (data_in s.buf) in
    elim (Bool-cases (leb message_head_len (length_in s.buf))) [
      | inr short ↦ rw (short, n, short) refl
      | inl long ↦ elim (Bool-cases (is_bad_head h)) [
        | inl e ↦ rw (long, e, n, long, e) refl
        | inr good ↦ elim (Bool-cases (leb (message_head_len + h.msglen) (length_in s.buf))) [
          | inr part ↦ rw (long, good, part, n, long, good, part) refl
          | inl all ↦ rw (long, good, all, n, long, good, all) (ground (arith, all), refl)
        ]
      ]
    ]

-- A message before what the later turns come to.
then_Parsed :
    (o : Option Cut) (m m' : Message) (r : Run Parse)
    → m' ≡ m
    → Parsed o r
    → Parsed (before m o) (r >>= λ p. done (with_call m' p))
then_Parsed none m m' (done p) e h = absurd (h p refl)
then_Parsed none m m' dies e h = λ p q. ground (arith, q)
then_Parsed none m m' faults e h = λ p q. ground (arith, q)
then_Parsed (some c) m m' (done p) e (a, b, d, w) = (ap₂ ◌∷◌ e a, b, d, w)
then_Parsed (some c) m m' dies e h = h
then_Parsed (some c) m m' faults e h = h

follow :
    (o : Option Cut) (m : Message) (more : ReactorBuf → Run Parse) (r : Run (Message × ReactorBuf))
    → Safe ⊥ (λ t. (t.0 ≡ m) × Parsed o (more t.1)) r
    → Parsed (before m o) (r >>= λ t. more t.1 >>= λ p. done (with_call t.0 p))
follow o m more (done t) (e, h) = then_Parsed o m t.0 (more t.1) e h
follow none m more dies h = λ p q. ground (arith, q)
follow (some c) m more dies h = h
follow o m more faults h = absurd h

run_turn-Parsed :
    (fuel : ℕ) (s : ReactorBuf) (t : Turn)
    → IsWell s
    → TurnOk fuel s t
    → ((s' : ReactorBuf)
        → IsWell s'
        → Parsed (frames fuel (data_in s'.buf)) (read_messages fuel s'))
    → Parsed (frames (suc fuel) (data_in s.buf)) (run_turn (read_messages fuel) s t)
unfolding run_turn TurnOk
run_turn-Parsed fuel s incomplete w ok rest = rw ok (refl, refl, refl, w)
run_turn-Parsed fuel s malformed w ok rest = rw ok (refl, refl, refl, w)
run_turn-Parsed fuel s (complete h) w (whole, ok) rest = elim (Option-cases s.buf) [
  | inl e ↦ absurd (ground (arith, ap length_in e))
  | inr (b, e) ↦ elim (Bool-cases ((h.msglen == 0) && (length_in s.buf == message_head_len))) [
    | inl no_body ↦
        let len : b.length ≡ length_in s.buf = sym (ap length_in e) in
        let stuck =
          take_message_faults h b s e (ground (arith, no_body)) (ground (arith, len, no_body)) in
        rw (ok, no_body, stuck) (λ p q. ground (arith, q))
    | inr body ↦
        rw (ok, body)
          (follow _ _ (read_messages fuel) (take_message h s) (
            Safe-mono _ _ _ (take_message h s)
              (λ t p. (
                p.0,
                subst (λ xs. Parsed (frames fuel xs) (read_messages fuel t.1)) p.1 (rest t.1 p.2),
              ))
              (take_message-Taken h b s e w (ground (arith, ap length_in e))
                (ground (arith, ap length_in e, body)))))
  ]
]

-- On a buffer in order, the loop of `do_read` hands on the messages that the bytes of the buffer are
-- cut into, leaves the bytes that the cut leaves, and reports a bad head when the cut does; if a
-- message without a body ends the bytes, it does not return.
pub read_messages-Parsed :
    (fuel : ℕ) (s : ReactorBuf)
    → IsWell s
    → Parsed (frames fuel (data_in s.buf)) (read_messages fuel s)
unfolding read_messages frames
read_messages-Parsed zero s w = (refl, refl, refl, w)
read_messages-Parsed (suc fuel) s w =
    run_turn-Parsed fuel s (next_turn s) w (next_turn-TurnOk fuel s)
      (λ s'. read_messages-Parsed fuel s')
