-- ===== src/Reactor/TcpConn/Receives.antt =====
-- `do_read` of tcp_conn.cpp, from the socket to the functions of the messages.
use mathlib.Core.Path.{subst}
use lars_system.Base.{
  ℕ, ◌+◌, ◌≤◌, ◌<◌, ◌≡◌, ◌≢◌, refl, sym, ap, ◌∙◌, ◌==◌, false, Option, none, some, List, [], ◌∷◌,
  ◌++◌, length, length-append, arith, Bool-cases, Option-cases, inl, inr,
}
use lars_system.Base.Run.{Safe-exit, Sys, retried, Safe, Safe->>=}
use lars_system.Reactor.IoBuf.{IoBuf, adjust}
use lars_system.Reactor.IoBuf.Bytes.{contents-adjust}
use lars_system.Reactor.BufPool.Stock.{IsExhausted}
use lars_system.Reactor.BufPool.{m8m, BufPool}
use lars_system.Reactor.ReactorBuf.{
  read_data, ReactorBuf, data_in, length_in, buf_length, adjust_input, Read,
}
use lars_system.Reactor.ReactorBuf.Room.{
  BlockOk, GivesAll, IsWell, AtFront, Received, read_data-Received,
}
use lars_system.Reactor.ReactorBuf.Drain.{length-data_in}
use lars_system.Reactor.Message.{message_head_len, Message, MsgHead, head_bytes, int_bytes}
use lars_system.Reactor.TcpConn.{
  TcpConn, Parse, input, read_messages, after_parse, after_read_data, Delivered, do_read,
}
use lars_system.Reactor.TcpConn.Framing.{frames, wire, AllSendable, frames-wire, head_of}
use lars_system.Reactor.TcpConn.Reads.{Parsed, read_messages-Parsed}

adjust-head : (b : IoBuf) → (adjust b).head ≡ 0
unfolding adjust
adjust-head b = elim (Bool-cases (b.head == 0)) [
  | inl front ↦ rw front (ground (arith, front))
  | inr back ↦ rw back refl
]

pub adjusted :
    (o : Option IoBuf) (pool : BufPool)
    → let s = adjust_input (record { buf = o; pool = pool }) in
      (data_in s.buf ≡ data_in o) × AtFront s.buf
unfolding adjust_input
adjusted none pool = (refl, tt)
adjusted (some b) pool = (contents-adjust b, adjust-head b)

adjust-BlockOk : (b : IoBuf) → BlockOk (some b) → BlockOk (some (adjust b))
unfolding adjust
adjust-BlockOk b (fits, c) = elim (Bool-cases (b.head == 0)) [
  | inl front ↦ rw front (fits, c)
  | inr back ↦ rw back (omega arith, c)
]

pub adjust_input-IsWell : (s : ReactorBuf) → IsWell s → IsWell (adjust_input s)
unfolding adjust_input
adjust_input-IsWell s w = elim (Option-cases s.buf) [
  | inl e ↦ rw e (record { stocked = w.stocked; block = tt })
  | inr (b, e) ↦
      rw e (record { stocked = w.stocked; block = adjust-BlockOk b (subst BlockOk e w.block) })
]

pub length_head : (h : MsgHead) → length (head_bytes h) ≡ 8
unfolding head_bytes int_bytes
length_head h = refl

length-wire : (ms : List Message) → AllSendable ms → length ms ≤ length (wire ms)
unfolding wire
length-wire [] h = omega arith
length-wire (m ∷ ms) (h, hs) = omega (
  arith,
  length-wire ms hs,
  length-append (head_bytes (head_of m)) (m.body ++ wire ms),
  length-append m.body (wire ms),
  length_head (head_of m),
)

-- The messages were handed on, and the rest waits at the start of the buffer.
abbrev pub HandedOn : List Message → List ℕ → TcpConn → Delivered → Type 0
HandedOn ms rest c (calls, c') =
    (calls ≡ ms)
    × (data_in c'.ibuf ≡ rest)
    × AtFront c'.ibuf
    × (c'.obuf ≡ c.obuf)
    × (c'.is_open ≡ c.is_open)

after_parse-HandedOn :
    (ms : List Message) (rest : List ℕ) (c : TcpConn) (p : Parse)
    → p.calls ≡ ms
    → p.format_error ≡ false
    → data_in p.rest.buf ≡ rest
    → Safe ⊥ (HandedOn ms rest c) (after_parse c p)
unfolding after_parse
after_parse-HandedOn ms rest c p e good left =
    let moved = adjusted p.rest.buf p.rest.pool in rw good (e, moved.0 ∙ left, moved.1, refl, refl)

pub counted : (ret : ℕ) (xs : List ℕ) → ret ≡ length xs → xs ≢ [] → (ret == 0) ≡ false
counted ret [] e h = absurd (h refl)
counted ret (x ∷ xs) e h = ground (arith, e)

length-whole :
    (ms : List Message) (rest : List ℕ) (s : ReactorBuf)
    → AllSendable ms
    → data_in s.buf ≡ wire ms ++ rest
    → length ms ≤ buf_length s
unfolding buf_length
length-whole ms rest s a e =
    omega (arith, length-wire ms a, length-append (wire ms) rest, ap length e, length-data_in s.buf)

-- The bytes of whole messages, that came in by this read and the earlier ones.
after_read_data-HandedOn :
    (need : ℕ) (ms : List Message) (rest xs : List ℕ) (c : TcpConn) (r : Read)
    → AllSendable ms
    → length rest < message_head_len
    → data_in c.ibuf ++ xs ≡ wire ms ++ rest
    → xs ≢ []
    → length_in c.ibuf + need ≤ m8m
    → Received need (some xs) (input c) r
    → Safe ⊥ (HandedOn ms rest c) (after_read_data c r)
unfolding after_read_data
after_read_data-HandedOn need ms rest xs c (none, s) a short e ne room (w, f, d, large) =
    absurd (omega arith)
after_read_data-HandedOn need ms rest xs c (some ret, s) a short e ne room (w, f, d, n) =
    let some_bytes : (ret == 0) ≡ false = counted ret xs n ne in
    let whole : data_in s.buf ≡ wire ms ++ rest = d ∙ e in
    let fuel : length ms ≤ buf_length s = length-whole ms rest s a whole in
    rw some_bytes (
      Safe->>= _ _ _ (read_messages (buf_length s) s) _
        (subst (λ o. Parsed o (read_messages (buf_length s) s))
          (ap (frames (buf_length s)) whole ∙ frames-wire (buf_length s) ms rest a short fuel)
          (read_messages-Parsed (buf_length s) s w))
        λ p h. after_parse-HandedOn ms rest c p h.0 h.1 h.2)

-- A read that gives `need` bytes, where the buffer can hold them, and after which the buffer has
-- whole messages with bodies within the limit and less than a head after them: just these messages
-- are handed on, in order, the rest waits at the start of the buffer, and the connection stays open;
-- the process ends only with a class of the pool used up.
pub do_read-HandedOn :
    (garbage : ℕ → ℕ) (need : ℕ) (sys : Sys (Option (List ℕ))) (ms : List Message)
    (rest xs : List ℕ) (c : TcpConn)
    → IsWell (input c)
    → AtFront c.ibuf
    → need ≢ 0
    → retried sys ≡ some xs
    → length xs ≡ need
    → length_in c.ibuf + need ≤ m8m
    → AllSendable ms
    → length rest < message_head_len
    → data_in c.ibuf ++ xs ≡ wire ms ++ rest
    → Safe (IsExhausted c.pool) (HandedOn ms rest c) (do_read garbage (some need) sys c)
unfolding do_read
do_read-HandedOn garbage need sys ms rest xs c w f ne got_bytes len room a short e =
    Safe->>= _ _ _ (read_data garbage (some need) sys (input c)) _
      (read_data-Received garbage need sys (input c) w f ne
        (subst (GivesAll need) (sym got_bytes) (inr len)))
      λ r h. Safe-exit _ _ _ (after_read_data c r) absurd (
        after_read_data-HandedOn need ms rest xs c r a short e
          (λ none_read. ne (ground (arith, len, ap length none_read))) room
          (subst (λ o. Received need o (input c) r) got_bytes h))
