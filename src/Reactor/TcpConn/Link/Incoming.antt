-- ===== src/Reactor/TcpConn/Link/Incoming.antt =====
-- What is read is handed on in order.
use mathlib.Core.Path.{subst}
use mathlib.Core.List.{append_assoc}
use lars_system.Base.{
  ℕ, ◌+◌, ◌≤◌, ◌≡◌, ◌≢◌, refl, sym, ap, ◌∙◌, ◌==◌, false, Option, none, some, List, [], ◌∷◌, ◌++◌,
  length, arith, inr,
}
use lars_system.Base.Run.{done, Safe-done, Safe, Safe->>=, Safe-exit, Sys, retried}
use lars_system.Reactor.BufPool.{m8m}
use lars_system.Reactor.BufPool.Stock.{IsExhausted}
use lars_system.Reactor.ReactorBuf.{data_in, length_in, buf_length, read_data, Read}
use lars_system.Reactor.ReactorBuf.Room.{GivesAll, IsWell, AtFront, Received, read_data-Received}
use lars_system.Reactor.ReactorBuf.Drain.{length-data_in}
use lars_system.Reactor.Message.{Message}
use lars_system.Reactor.TcpConn.{
  TcpConn, input, Parse, read_messages, after_parse, after_read_data, do_read,
}
use lars_system.Reactor.TcpConn.Framing.{frames, AllSendable}
use lars_system.Reactor.TcpConn.Reads.{Parsed, read_messages-Parsed}
use lars_system.Reactor.TcpConn.Receives.{adjusted, adjust_input-IsWell, counted}
use lars_system.Reactor.TcpConn.Prefixes.{frames-Arrived}
use lars_system.Reactor.TcpConn.Link.{Link, InOrder}

AllSendable-right : (ms ns : List Message) → AllSendable (ms ++ ns) → AllSendable ns
AllSendable-right [] ns a = a
AllSendable-right (m ∷ ms) ns (_, h) = AllSendable-right ms ns h

-- Bytes moved from between the ends to the receiver.
regroup_read : (b f o xs ys : List ℕ) → f ≡ xs ++ ys → (b ++ xs) ++ (ys ++ o) ≡ b ++ (f ++ o)
regroup_read b f o xs ys e =
    append_assoc b xs (ys ++ o)
    ∙ ap (λ x. b ++ x) (sym (append_assoc xs ys o) ∙ ap (λ x. x ++ o) (sym e))

-- The messages were handed on, and the rest waits in an input buffer in order.
abbrev HandsOn : List Message → List ℕ → TcpConn → List Message × TcpConn → Type 0
HandsOn whole left c (calls, c') =
    (calls ≡ whole)
    × (data_in c'.ibuf ≡ left)
    × AtFront c'.ibuf
    × IsWell (input c')
    × (c'.is_open ≡ c.is_open)

after_parse-HandsOn :
    (whole : List Message) (left : List ℕ) (c : TcpConn) (p : Parse)
    → p.calls ≡ whole
    → p.format_error ≡ false
    → data_in p.rest.buf ≡ left
    → IsWell p.rest
    → Safe ⊥ (HandsOn whole left c) (after_parse c p)
unfolding after_parse
after_parse-HandsOn whole left c p e good d w =
    let moved = adjusted p.rest.buf p.rest.pool in
    rw good (e, moved.0 ∙ d, moved.1, adjust_input-IsWell p.rest w, refl)

after_read_data-HandsOn :
    (need : ℕ) (whole : List Message) (left xs : List ℕ) (c : TcpConn) (r : Read)
    → xs ≢ []
    → length_in c.ibuf + need ≤ m8m
    → frames (length (data_in c.ibuf ++ xs)) (data_in c.ibuf ++ xs)
      ≡ some (record { messages = whole; is_bad = false; left = left })
    → Received need (some xs) (input c) r
    → Safe ⊥ (HandsOn whole left c) (after_read_data c r)
unfolding after_read_data buf_length
after_read_data-HandsOn need whole left xs c (none, s) ne room cut (w, f, d, large) =
    absurd (omega arith)
after_read_data-HandsOn need whole left xs c (some ret, s) ne room cut (w, f, d, n) =
    let some_bytes : (ret == 0) ≡ false = counted ret xs n ne in
    rw some_bytes (
      Safe->>= _ _ _ (read_messages (length_in s.buf) s) _
        (subst (λ o. Parsed o (read_messages (length_in s.buf) s))
          (ap (λ k. frames k (data_in s.buf)) (sym (length-data_in s.buf))
            ∙ ap (λ b. frames (length b) b) d
            ∙ cut)
          (read_messages-Parsed (length_in s.buf) s w))
        λ p h. after_parse-HandsOn whole left c p h.0 h.1 h.2 h.3)

do_read-HandsOn :
    (garbage : ℕ → ℕ) (need : ℕ) (sys : Sys (Option (List ℕ))) (whole : List Message)
    (left xs : List ℕ) (c : TcpConn)
    → IsWell (input c)
    → AtFront c.ibuf
    → need ≢ 0
    → retried sys ≡ some xs
    → length xs ≡ need
    → length_in c.ibuf + need ≤ m8m
    → frames (length (data_in c.ibuf ++ xs)) (data_in c.ibuf ++ xs)
      ≡ some (record { messages = whole; is_bad = false; left = left })
    → Safe (IsExhausted c.pool) (HandsOn whole left c) (do_read garbage (some need) sys c)
unfolding do_read
do_read-HandsOn garbage need sys whole left xs c w f ne got_bytes len room cut =
    Safe->>= _ _ _ (read_data garbage (some need) sys (input c)) _
      (read_data-Received garbage need sys (input c) w f ne
        (subst (GivesAll need) (sym got_bytes) (inr len)))
      λ r h. Safe-exit _ _ _ (after_read_data c r) absurd (
        after_read_data-HandsOn need whole left xs c r
          (λ none_read. ne (ground (arith, len, ap length none_read))) room cut
          (subst (λ o. Received need o (input c) r) got_bytes h))

pub reads-InOrder :
    (garbage : ℕ → ℕ) (need : ℕ) (sys : Sys (Option (List ℕ))) (xs ys : List ℕ) (l : Link)
    (ms : List Message) (c : TcpConn)
    → l.in_flight ≡ xs ++ ys
    → need ≢ 0
    → retried sys ≡ some xs
    → length xs ≡ need
    → length_in l.receiver.ibuf + need ≤ m8m
    → do_read garbage (some need) sys l.receiver ≡ done (ms, c)
    → InOrder l
    → InOrder (record l { receiver = c; in_flight = ys; handed_on = l.handed_on ++ ms })
reads-InOrder garbage need sys xs ys l ms c split ne got len room run v =
    let b = data_in l.receiver.ibuf in
    let out = data_in l.sender.obuf in
    let (whole, others, left, cut, all, more) =
      frames-Arrived (length (b ++ xs)) v.on_the_way (b ++ xs) (ys ++ out) v.sendable
        (regroup_read b l.in_flight out xs ys split ∙ v.bytes) (omega arith) in
    let (e, d, front, w, same) =
      Safe-done (IsExhausted l.receiver.pool) (HandsOn whole left l.receiver)
        (do_read garbage (some need) sys l.receiver) (ms, c) run
        (do_read-HandsOn garbage need sys whole left xs l.receiver v.receiver_well v.receiver_front
          ne got len room cut) in
    record {
      sender_well = v.sender_well;
      sender_front = v.sender_front;
      receiver_well = w;
      receiver_front = front;
      receiver_open = same ∙ v.receiver_open;
      on_the_way = others;
      sendable = AllSendable-right whole others (subst AllSendable all v.sendable);
      messages =
          v.messages
          ∙ ap (λ x. l.handed_on ++ x) all
          ∙ sym (append_assoc l.handed_on whole others)
          ∙ ap (λ x. (l.handed_on ++ x) ++ others) (sym e);
      bytes = ap (λ x. x ++ (ys ++ out)) d ∙ more;
    }
