-- ===== src/Reactor/TcpConn/Link.antt =====
-- Two connections with a stream between them: what one side sends by `send_message` and `do_write`
-- of tcp_conn.cpp, the other side hands on by `do_read`, however the kernel cuts the stream.
pub mod Outgoing
pub mod Incoming
pub mod Delivers
use mathlib.Core.Path.{subst}
use mathlib.Core.List.{append_assoc, append-nil}
use lars_system.Base.{
  ℕ, ◌+◌, ◌≤◌, ◌≡◌, ◌≢◌, refl, sym, ap, ◌∙◌, ◌==◌, Bool, true, false, Option, none, some, List, [],
  ◌∷◌, ◌++◌, length, length-append, arith, Bool-cases, inl, inr,
}
use lars_system.Base.Run.{Run, done, Safe-done, Safe, Safe->>=, Safe-exit, Sys, retried}
use lars_system.Reactor.BufPool.{m8m}
use lars_system.Reactor.BufPool.Stock.{IsExhausted}
use lars_system.Reactor.ReactorBuf.{
  ReactorBuf, data_in, length_in, buf_length, read_data, Read, WriteResult,
}
use lars_system.Reactor.ReactorBuf.Room.{GivesAll, IsWell, AtFront, Received, read_data-Received}
use lars_system.Reactor.ReactorBuf.Drain.{length-data_in}
use lars_system.Reactor.Message.{Message, head_bytes}
use lars_system.Reactor.TcpConn.{
  TcpConn, input, output, Parse, read_messages, write_all, after_parse, after_read_data,
  after_write_all, do_read, do_write, send_message,
}
use lars_system.Reactor.TcpConn.Framing.{frames, wire, head_of, Sendable, AllSendable}
use lars_system.Reactor.TcpConn.Reads.{Parsed, read_messages-Parsed}
use lars_system.Reactor.TcpConn.Receives.{adjusted, adjust_input-IsWell, counted, length_head}
use lars_system.Reactor.TcpConn.Sends.{Queued, send_message-Queued, EndsSending}
use lars_system.Reactor.TcpConn.Writes.{
  Flush, flush, flush-append, AllTake, Flushed, write_all-Flushed,
}
use lars_system.Reactor.TcpConn.Prefixes.{frames-Arrived}

-- The two ends, the bytes between them, the messages that `send_message` took, and those that
-- `do_read` handed on.
pub record Link : Type 0 where
  pub sender : TcpConn
  pub in_flight : List ℕ
  pub receiver : TcpConn
  pub sent : List Message
  pub handed_on : List Message

-- What can happen while neither end fails: a message is sent; `write`s take some bytes; a read gives
-- some of the bytes between the ends, all that were reported to wait.
pub data Step : Link → Link → Type 0 where
  sends :
      (garbage : ℕ → ℕ) (m : Message) (l : Link) (c : TcpConn)
      → Sendable m
      → send_message garbage m.body m.msgid l.sender ≡ done (true, c)
      → Step l (record l { sender = c; sent = l.sent ++ m ∷ [] })
  writes :
      (calls : List (Sys WriteResult)) (l : Link) (c : TcpConn)
      → AllTake calls (data_in l.sender.obuf)
      → (flush calls (data_in l.sender.obuf)).is_ok ≡ true
      → do_write calls l.sender ≡ done c
      → Step l (record l {
        sender = c;
        in_flight = l.in_flight ++ (flush calls (data_in l.sender.obuf)).taken;
      })
  reads :
      (garbage : ℕ → ℕ) (need : ℕ) (sys : Sys (Option (List ℕ))) (xs ys : List ℕ) (l : Link)
      (ms : List Message) (c : TcpConn)
      → l.in_flight ≡ xs ++ ys
      → need ≢ 0
      → retried sys ≡ some xs
      → length xs ≡ need
      → length_in l.receiver.ibuf + need ≤ m8m
      → do_read garbage (some need) sys l.receiver ≡ done (ms, c)
      → Step l (record l { receiver = c; in_flight = ys; handed_on = l.handed_on ++ ms })

pub data Reach (k : Link) : Link → Type 0 where
  here : Reach k k
  next : {l l' : Link} → Reach k l → Step l l' → Reach k l'

-- The messages that are on their way are the bytes that are on their way: those that the receiver
-- has, those between the ends, and those that the sender has.
pub record InOrder (l : Link) : Type 0 where
  pub sender_well : IsWell (output l.sender)
  pub sender_front : AtFront l.sender.obuf
  pub receiver_well : IsWell (input l.receiver)
  pub receiver_front : AtFront l.receiver.ibuf
  pub receiver_open : l.receiver.is_open ≡ true
  pub on_the_way : List Message
  pub sendable : AllSendable on_the_way
  pub messages : l.sent ≡ l.handed_on ++ on_the_way
  pub bytes : data_in l.receiver.ibuf ++ (l.in_flight ++ data_in l.sender.obuf) ≡ wire on_the_way

-- Nothing was sent yet, and the buffers in use are empty and in order.
pub record IsIdle (l : Link) : Type 0 where
  pub sender_well : IsWell (output l.sender)
  pub receiver_well : IsWell (input l.receiver)
  pub receiver_open : l.receiver.is_open ≡ true
  pub no_output : l.sender.obuf ≡ none
  pub no_input : l.receiver.ibuf ≡ none
  pub nothing_between : l.in_flight ≡ []
  pub nothing_sent : l.sent ≡ []
  pub nothing_handed_on : l.handed_on ≡ []
