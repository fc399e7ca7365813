-- ===== src/Reactor/TcpConn/Link/Outgoing.antt =====
-- What is sent and written keeps the messages on their way in order.

use mathlib.Core.List.{append_assoc, append-nil}
use lars_system.Base.{
  ℕ, ◌≡◌, refl, sym, ap, ◌∙◌, ◌==◌, Bool, true, false, List, [], ◌∷◌, ◌++◌, arith, Bool-cases, inl,
  inr,
}
use lars_system.Base.Run.{done, Safe-done, Safe, Safe->>=, Sys}
use lars_system.Reactor.ReactorBuf.{ReactorBuf, data_in, length_in, buf_length, WriteResult}
use lars_system.Reactor.ReactorBuf.Room.{IsWell, AtFront}
use lars_system.Reactor.Message.{Message, head_bytes}
use lars_system.Reactor.TcpConn.{
  TcpConn, output, write_all, after_write_all, do_write, send_message,
}
use lars_system.Reactor.TcpConn.Framing.{wire, head_of, Sendable, AllSendable}
use lars_system.Reactor.TcpConn.Sends.{Queued, send_message-Queued, EndsSending}
use lars_system.Reactor.TcpConn.Writes.{
  Flush, flush, flush-append, AllTake, Flushed, write_all-Flushed,
}
use lars_system.Reactor.TcpConn.Link.{Link, InOrder}

wire-append : (ms ns : List Message) → wire (ms ++ ns) ≡ wire ms ++ wire ns
unfolding wire
wire-append [] ns = refl
wire-append (m ∷ ms) ns =
    ap (λ l. head_bytes (head_of m) ++ (m.body ++ l)) (wire-append ms ns)
    ∙ ap (λ l. head_bytes (head_of m) ++ l) (sym (append_assoc m.body (wire ms) (wire ns)))
    ∙ sym (append_assoc (head_bytes (head_of m)) (m.body ++ wire ms) (wire ns))

wire_one : (m : Message) → wire (m ∷ []) ≡ head_bytes (head_of m) ++ m.body
unfolding wire
wire_one m = ap (λ l. head_bytes (head_of m) ++ l) (append-nil m.body)

AllSendable-append :
    (ms ns : List Message) → AllSendable ms → AllSendable ns → AllSendable (ms ++ ns)
AllSendable-append [] ns a b = b
AllSendable-append (m ∷ ms) ns (a, h) b = (a, AllSendable-append ms ns h b)

-- Bytes put at the end of the sender's output.
regroup_sent : (b f o o' h : List ℕ) → o' ≡ o ++ h → b ++ (f ++ o') ≡ (b ++ (f ++ o)) ++ h
regroup_sent b f o o' h e =
    ap (λ x. b ++ (f ++ x)) e
    ∙ ap (λ x. b ++ x) (sym (append_assoc f o h))
    ∙ sym (append_assoc b (f ++ o) h)

-- Bytes taken from the front of the output.
regroup_written : (b f o t o' : List ℕ) → t ++ o' ≡ o → b ++ ((f ++ t) ++ o') ≡ b ++ (f ++ o)
regroup_written b f o t o' e = ap (λ x. b ++ x) (append_assoc f t o' ∙ ap (λ x. f ++ x) e)

pub sends-InOrder :
    (garbage : ℕ → ℕ) (m : Message) (l : Link) (c : TcpConn)
    → Sendable m
    → send_message garbage m.body m.msgid l.sender ≡ done (true, c)
    → InOrder l
    → InOrder (record l { sender = c; sent = l.sent ++ m ∷ [] })
sends-InOrder garbage m l c a run v =
    let head = head_bytes (head_of m) in
    let (d, f, w, _) : Queued head m.body l.sender (true, c) =
      Safe-done (EndsSending garbage head l.sender) (Queued head m.body l.sender)
        (send_message garbage m.body m.msgid l.sender) (true, c) run
        (send_message-Queued garbage m.body m.msgid l.sender v.sender_well v.sender_front) in
    record {
      sender_well = w;
      sender_front = f;
      receiver_well = v.receiver_well;
      receiver_front = v.receiver_front;
      receiver_open = v.receiver_open;
      on_the_way = v.on_the_way ++ m ∷ [];
      sendable = AllSendable-append v.on_the_way (m ∷ []) v.sendable (a, tt);
      messages = ap (λ x. x ++ m ∷ []) v.messages ∙ append_assoc l.handed_on v.on_the_way (m ∷ []);
      bytes =
          regroup_sent (data_in l.receiver.ibuf) l.in_flight (data_in l.sender.obuf)
            (data_in c.obuf) (head ++ m.body) d
          ∙ ap (λ x. x ++ (head ++ m.body)) v.bytes
          ∙ ap (λ x. wire v.on_the_way ++ x) (sym (wire_one m))
          ∙ sym (wire-append v.on_the_way (m ∷ []));
    }

-- The output after a writing that did not fail.
abbrev Left : Flush → TcpConn → Type 0
Left f c = (data_in c.obuf ≡ f.left) × AtFront c.obuf × IsWell (output c)

after_write_all-Left :
    (f : Flush) (c : TcpConn) (w : Bool × ReactorBuf)
    → f.is_ok ≡ true
    → Flushed f w
    → Safe ⊥ (Left f) (after_write_all c w)
unfolding after_write_all buf_length
after_write_all-Left f c (false, s) good (ok, d, v, front) = absurd (ground (arith, ok, good))
after_write_all-Left f c (true, s) good (ok, d, v, front) =
    elim (Bool-cases (length_in s.buf == 0)) [
      | inl nothing ↦ rw nothing (d, front, v)
      | inr something ↦ rw something (d, front, v)
    ]

do_write-Left :
    (calls : List (Sys WriteResult)) (c : TcpConn)
    → IsWell (output c)
    → AtFront c.obuf
    → AllTake calls (data_in c.obuf)
    → (flush calls (data_in c.obuf)).is_ok ≡ true
    → Safe ⊥ (Left (flush calls (data_in c.obuf))) (do_write calls c)
unfolding do_write
do_write-Left calls c w front t good =
    Safe->>= _ (Flushed (flush calls (data_in c.obuf))) _ (write_all calls (output c)) _
      (write_all-Flushed calls (output c) w front t)
      λ r h. after_write_all-Left (flush calls (data_in c.obuf)) c r good h

pub writes-InOrder :
    (calls : List (Sys WriteResult)) (l : Link) (c : TcpConn)
    → AllTake calls (data_in l.sender.obuf)
    → (flush calls (data_in l.sender.obuf)).is_ok ≡ true
    → do_write calls l.sender ≡ done c
    → InOrder l
    → InOrder (record l {
      sender = c;
      in_flight = l.in_flight ++ (flush calls (data_in l.sender.obuf)).taken;
    })
writes-InOrder calls l c t good run v =
    let out = data_in l.sender.obuf in
    let f = flush calls out in
    let (d, front, w) =
      Safe-done ⊥ (Left f) (do_write calls l.sender) c run
        (do_write-Left calls l.sender v.sender_well v.sender_front t good) in
    record {
      sender_well = w;
      sender_front = front;
      receiver_well = v.receiver_well;
      receiver_front = v.receiver_front;
      receiver_open = v.receiver_open;
      on_the_way = v.on_the_way;
      sendable = v.sendable;
      messages = v.messages;
      bytes =
          regroup_written (data_in l.receiver.ibuf) l.in_flight out f.taken (data_in c.obuf)
            (ap (λ x. f.taken ++ x) d ∙ flush-append calls out)
          ∙ v.bytes;
    }
