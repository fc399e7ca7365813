-- ===== src/Reactor/TcpConn/Link/Delivers.antt =====
-- A stream of messages arrives as it was sent.
use mathlib.Core.Path.{subst}
use mathlib.Core.List.{append-nil}
use lars_system.Base.{
  ◌≡◌, refl, sym, ap, ◌∙◌, true, List, [], ◌∷◌, ◌++◌, length, length-append, arith,
}
use lars_system.Reactor.ReactorBuf.{data_in}
use lars_system.Reactor.ReactorBuf.Room.{AtFront}
use lars_system.Reactor.Message.{Message, head_bytes}
use lars_system.Reactor.TcpConn.Framing.{wire, head_of}
use lars_system.Reactor.TcpConn.Receives.{length_head}
use lars_system.Reactor.TcpConn.Link.Outgoing.{sends-InOrder, writes-InOrder}
use lars_system.Reactor.TcpConn.Link.Incoming.{reads-InOrder}
use lars_system.Reactor.TcpConn.Link.{
  Link, Step, sends, writes, reads, Reach, here, next, InOrder, IsIdle,
}

Step-InOrder : {l l' : Link} → Step l l' → InOrder l → InOrder l'
Step-InOrder (sends garbage m l c a run) v = sends-InOrder garbage m l c a run v
Step-InOrder (writes calls l c t good run) v = writes-InOrder calls l c t good run v
Step-InOrder (reads garbage need sys xs ys l ms c split ne got len room run) v =
    reads-InOrder garbage need sys xs ys l ms c split ne got len room run v

Reach-InOrder : {k l : Link} → InOrder k → Reach k l → InOrder l
Reach-InOrder v here = v
Reach-InOrder v (next r st) = Step-InOrder st (Reach-InOrder v r)

IsIdle-InOrder : (l : Link) → IsIdle l → InOrder l
unfolding wire
IsIdle-InOrder l v = record {
  sender_well = v.sender_well;
  sender_front = subst AtFront (sym v.no_output) tt;
  receiver_well = v.receiver_well;
  receiver_front = subst AtFront (sym v.no_input) tt;
  receiver_open = v.receiver_open;
  on_the_way = [];
  sendable = tt;
  messages = v.nothing_sent ∙ ap (λ x. x ++ []) (sym v.nothing_handed_on);
  bytes =
      ap (λ o. data_in o ++ (l.in_flight ++ data_in l.sender.obuf)) v.no_input
      ∙ ap (λ x. x ++ data_in l.sender.obuf) v.nothing_between
      ∙ ap data_in v.no_output;
}

wire_nil : (ms : List Message) → length (wire ms) ≡ 0 → ms ≡ []
unfolding wire
wire_nil [] e = refl
wire_nil (m ∷ ms) e = absurd (
    omega (
      arith,
      e,
      length-append (head_bytes (head_of m)) (m.body ++ wire ms),
      length_head (head_of m),
    ))

pub Reach-delivers :
    (k l : Link)
    → IsIdle k
    → Reach k l
    → ((others : List Message) × (l.sent ≡ l.handed_on ++ others)
        × (data_in l.receiver.ibuf ++ (l.in_flight ++ data_in l.sender.obuf) ≡ wire others))
      × (l.receiver.is_open ≡ true)
Reach-delivers k l idle r =
    let v = Reach-InOrder (IsIdle-InOrder k idle) r in
    ((v.on_the_way, v.messages, v.bytes), v.receiver_open)

-- When no bytes are left, all messages that were sent were handed on.
pub Reach-all_handed_on :
    (k l : Link)
    → IsIdle k
    → Reach k l
    → length (data_in l.receiver.ibuf ++ (l.in_flight ++ data_in l.sender.obuf)) ≡ 0
    → l.handed_on ≡ l.sent
Reach-all_handed_on k l idle r e =
    let ((others, messages, bytes), _) = Reach-delivers k l idle r in
    let none_left = wire_nil others (ap length (sym bytes) ∙ e) in
    sym (messages ∙ ap (λ x. l.handed_on ++ x) none_left ∙ append-nil l.handed_on)
