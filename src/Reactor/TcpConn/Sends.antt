-- ===== src/Reactor/TcpConn/Sends.antt =====
-- `send_message` of tcp_conn.cpp: the message stands at the end of the output buffer, or the attempt
-- is taken back, which takes bytes from the front of the buffer.
use mathlib.Core.List.{append_assoc}
use mathlib.Core.Path.{subst}
use lars_system.Base.{
  ℕ, ◌+◌, ◌≤◌, ◌<◌, ◌≡◌, refl, sym, ap, ◌∙◌, ◌==◌, ◌||◌, Bool, true, false, List, ◌++◌, length,
  drop, length-append, arith, Option-cases, inl, inr, ◌⊎◌,
}
use lars_system.Base.Run.{done, Safe-exit, Safe-bind, done, ◌>>=◌, Safe, Safe->>=, Safe-mono}
use lars_system.Reactor.BufPool.{m8m}
use lars_system.Reactor.BufPool.Stock.{IsExhausted}
use lars_system.Reactor.ReactorBuf.{ReactorBuf, data_in, length_in, buf_length, pop, send_data}
use lars_system.Reactor.ReactorBuf.Room.{IsWell, AtFront, Sent, send_data-Sent}
use lars_system.Reactor.ReactorBuf.Drain.{length-data_in, pop-Popped}
use lars_system.Reactor.Message.{message_head_len, head_bytes}
use lars_system.Reactor.TcpConn.{TcpConn, output, with_output, send_body, send_message}

-- What `send_message` comes to. On success the head and the body end the output, which is watched
-- for writing if it was empty. On failure, which is for want of room, the output is as before; or
-- the head was put behind it, and then the first eight bytes were taken from its front.
abbrev pub Queued : List ℕ → List ℕ → TcpConn → Bool × TcpConn → Type 0
Queued head xs c (true, c') =
    (data_in c'.obuf ≡ data_in c.obuf ++ (head ++ xs))
    × AtFront c'.obuf
    × IsWell (output c')
    × (c'.writing ≡ ((length_in c.obuf == 0) || c.writing))
Queued head xs c (false, c') =
    (m8m < length_in c.obuf + (message_head_len + length xs))
    × (c'.writing ≡ c.writing)
    × ((data_in c'.obuf ≡ data_in c.obuf)
        ⊎ (data_in c'.obuf ≡ drop message_head_len (data_in c.obuf ++ head)))

-- Where the process ends: a class of the pool is used up before the head goes into the output, or
-- after that.
abbrev pub EndsSending : (ℕ → ℕ) → List ℕ → TcpConn → Type 0
EndsSending garbage head c =
    IsExhausted c.pool
    ⊎ ((r : Bool × ReactorBuf) × (send_data garbage head (output c) ≡ done r)
        × IsExhausted r.1.pool)

-- The head is taken back.
take_back :
    (E : Type 0) (s : ReactorBuf)
    → IsWell s
    → message_head_len ≤ length (data_in s.buf)
    → Safe E (λ s'. data_in s'.buf ≡ drop message_head_len (data_in s.buf)) (pop message_head_len s)
take_back E s w h = elim (Option-cases s.buf) [
  | inl e ↦ absurd (ground (arith, ap (λ o. length (data_in o)) e))
  | inr (b, e) ↦ Safe-exit _ _ _ (pop message_head_len s) absurd (
      Safe-mono _ _ _ (pop message_head_len s)
        (λ s' p. p.1 ∙ ap (λ o. drop message_head_len (data_in o)) (sym e))
        (pop-Popped message_head_len b s e w (omega (arith, ap length_in e, length-data_in s.buf))))
]

body_sent :
    (E : Type 0) (head xs : List ℕ) (c : TcpConn) (s : ReactorBuf) (r : Bool × ReactorBuf)
    → length head ≡ message_head_len
    → IsWell s
    → data_in s.buf ≡ data_in c.obuf ++ head
    → Sent xs s r
    → Safe E (Queued head xs c) (elim r.0 [
      | true ↦
          done (
            true,
            record (with_output c r.1) { writing = (buf_length (output c) == 0) || c.writing },
          )
      | false ↦ (do s' ← pop message_head_len r.1; done (false, with_output c s'))
    ])
unfolding buf_length
body_sent E head xs c s (true, s') n w d (w', f, e) =
    (e ∙ ap (λ l. l ++ xs) d ∙ append_assoc (data_in c.obuf) head xs, f, w', refl)
body_sent E head xs c s (false, s') n w d (same, large) =
    Safe->>= _ _ _ (pop message_head_len s') _
      (take_back _ s' (subst IsWell (sym same) w) (
        omega (
          arith,
          ap (λ t. length (data_in t.buf)) same,
          ap length d,
          length-append (data_in c.obuf) head,
        )))
      λ s2 p. (
        omega (
          arith,
          length-data_in s.buf,
          length-data_in c.obuf,
          ap length d,
          length-append (data_in c.obuf) head,
        ),
        refl,
        inr (
            p
            ∙ ap (λ t. drop message_head_len (data_in t.buf)) same
            ∙ ap (drop message_head_len) d),
      )

-- `send_message` on a connection whose output is in order, with its data at the start of its block,
-- does what `Queued` says, or the process ends with a class of the pool used up.
pub send_message-Queued :
    (garbage : ℕ → ℕ) (xs : List ℕ) (msgid : ℕ) (c : TcpConn)
    → IsWell (output c)
    → AtFront c.obuf
    → Safe
        (EndsSending garbage (head_bytes (record { msgid = msgid; msglen = length xs })) c)
        (Queued (head_bytes (record { msgid = msgid; msglen = length xs })) xs c)
        (send_message garbage xs msgid c)
unfolding send_message
send_message-Queued garbage xs msgid c w f =
    Safe-bind _ _ _ (send_data garbage head (output c)) _
      (Safe-exit _ _ _ (send_data garbage head (output c)) inl
        (send_data-Sent garbage head (output c) w f))
      sent
  where
    head : List ℕ
    head = head_bytes (record { msgid = msgid; msglen = length xs })

    sent :
        (r : Bool × ReactorBuf)
        → send_data garbage head (output c) ≡ done r
        → Sent head (output c) r
        → Safe (EndsSending garbage head c) (Queued head xs c) (send_body garbage xs c r)
    sent (false, s) ran (same, large) = (omega arith, refl, inl (ap (λ t. data_in t.buf) same))
    sent (true, s) ran (w', f', e) =
        Safe->>= _ _ _ (send_data garbage xs s) _
          (Safe-exit _ _ _ (send_data garbage xs s) (λ x. inr ((true, s), ran, x))
            (send_data-Sent garbage xs s w' f'))
          λ r h. body_sent _ head xs c s r refl w' e h
