-- ===== src/Reactor/TcpConn.antt =====
-- tcp_conn.h and tcp_conn.cpp: a connection of the server, its two buffers, and whether its loop
-- watches the socket for writing. The pool of blocks is the program's. The client of tcp_client.cpp
-- reads, writes and sends by the same code.
pub mod Enough
pub mod Framing
pub mod Reads
pub mod Receives
pub mod Sends
pub mod Writes
pub mod Prefixes
pub mod Link
use lars_system.Base.{
  ℕ, zero, suc, ◌+◌, ◌-◌, ◌^◌, ◌≡◌, ◌==◌, ltb, leb, ◌||◌, Bool, true, false, if◌then◌else◌, Option,
  none, some, List, [], ◌∷◌, ◌++◌, length, take,
}
use lars_system.Base.Run.{Run, done, dies, faults, ◌>>=◌, Sys}
use lars_system.Reactor.IoBuf.{IoBuf}
use lars_system.Reactor.BufPool.{BufPool}
use lars_system.Reactor.ReactorBuf.{
  ReactorBuf, data_in, buf_length, pop, clear, adjust_input, send_data, WriteResult, write2fd,
  Written, read_data, Read,
}
use lars_system.Reactor.Message.{
  message_head_len, message_length_limit, MsgHead, head_bytes, head_at, Message,
}

pub record TcpConn : Type 0 where
  pub ibuf : Option IoBuf
  pub obuf : Option IoBuf
  pub pool : BufPool
  pub writing : Bool
  pub is_open : Bool

-- One of the buffers with the pool, and the connection after an operation on it.
abbrev pub input : TcpConn → ReactorBuf
input c = record { buf = c.ibuf; pool = c.pool }

abbrev pub with_input : TcpConn → ReactorBuf → TcpConn
with_input c s = record c { ibuf = s.buf; pool = s.pool }

abbrev pub output : TcpConn → ReactorBuf
output c = record { buf = c.obuf; pool = c.pool }

abbrev pub with_output : TcpConn → ReactorBuf → TcpConn
with_output c s = record c { obuf = s.buf; pool = s.pool }

-- The last part of `clean_conn`: the loop no longer watches the socket, the blocks go back, and the
-- socket is closed. The hook and `decrease_conn`, which come before, are in TcpServer.
unfoldable pub clean_conn : TcpConn → Run TcpConn
unfolding clear
clean_conn c = do
  i ← clear (input c)
  o ← clear (output (with_input c i))
  done (record (with_output (with_input c i) o) { writing = false; is_open = false })

-- What the loop of `do_read` comes to: the messages that were handed on, whether the format was
-- wrong, and the buffer.
pub record Parse : Type 0 where
  pub calls : List Message
  pub format_error : Bool
  pub rest : ReactorBuf

abbrev pub stop : ReactorBuf → Parse
stop s = record { calls = []; format_error = false; rest = s }

abbrev pub bad : ReactorBuf → Parse
bad s = record { calls = []; format_error = true; rest = s }

abbrev pub with_call : Message → Parse → Parse
with_call m p = record p { calls = m ∷ p.calls }

-- One message: the head leaves the buffer, the body is handed on, the body leaves the buffer.
unfoldable pub take_message : MsgHead → ReactorBuf → Run (Message × ReactorBuf)
unfolding pop
take_message h s = do
  s1 ← pop message_head_len s
  s2 ← pop h.msglen s1
  done (record { msgid = h.msgid; body = take h.msglen (data_in s1.buf) }, s2)

-- `msglen` is out of its bounds: above the limit, which a negative one, as a pattern, is too.
unfoldable pub is_bad_head : MsgHead → Bool
is_bad_head h = ltb message_length_limit h.msglen

-- The tests at the start of a turn of the loop: the buffer has no complete message, the length is
-- out of its bounds, or there is a message with this head.
pub data Turn : Type 0 where
  incomplete : Turn
  malformed : Turn
  complete : MsgHead → Turn

unfoldable pub next_turn : ReactorBuf → Turn
unfolding buf_length head_at is_bad_head
next_turn s =
    let h = head_at (data_in s.buf) in
    if leb message_head_len (buf_length s)
    then if is_bad_head h
      then malformed
      else if leb (message_head_len + h.msglen) (buf_length s)
      then complete h
      else incomplete
    else incomplete

-- The rest of the turn; `more` are the turns that follow.
unfoldable pub run_turn : (ReactorBuf → Run Parse) → ReactorBuf → Turn → Run Parse
unfolding take_message
run_turn more s incomplete = done (stop s)
run_turn more s malformed = done (bad s)
run_turn more s (complete h) = do
  taken ← take_message h s
  p ← more taken.1
  done (with_call taken.0 p)

-- The loop of `do_read`, on fuel; a turn takes eight bytes at least.
unfoldable pub read_messages : ℕ → ReactorBuf → Run Parse
unfolding next_turn run_turn
read_messages zero s = done (stop s)
read_messages (suc fuel) s = run_turn (read_messages fuel) s (next_turn s)

-- The messages and the connection after `do_read`.
abbrev pub Delivered : Type 0
Delivered = List Message × TcpConn

-- The end of `do_read`: a connection with a format error is cleaned.
unfoldable pub after_parse : TcpConn → Parse → Run Delivered
unfolding clean_conn adjust_input
after_parse c p =
    if p.format_error
    then (do
      c' ← clean_conn (with_input c p.rest)
      done (p.calls, with_input c' (adjust_input (input c'))))
    else done (p.calls, with_input c (adjust_input p.rest))

unfoldable pub after_read_data : TcpConn → Read → Run Delivered
unfolding read_messages buf_length clean_conn after_parse
after_read_data c (none, s) = do c' ← clean_conn (with_input c s); done ([], c')
after_read_data c (some ret, s) =
    if ret == 0
    then (do c' ← clean_conn (with_input c s); done ([], c'))
    else (do p ← read_messages (buf_length s) s; after_parse c p)

-- What the callbacks of the router do is not part of it: they get the messages afterwards, as a list,
-- and do not send on this connection.
unfoldable pub do_read : (ℕ → ℕ) → Option ℕ → Sys (Option (List ℕ)) → TcpConn → Run Delivered
unfolding read_data after_read_data
do_read garbage ready sys c = do r ← read_data garbage ready sys (input c); after_read_data c r

-- What follows a `write`: the next turn, `more`, if it took some bytes.
unfoldable pub after_write_one :
    (ReactorBuf → Run (Bool × ReactorBuf)) → Written → Run (Bool × ReactorBuf)
after_write_one more (none, s) = done (false, s)
after_write_one more (some ret, s) = if ret == 0 then done (true, s) else more s

-- The loop of `do_write`, over what the calls of `write` give; a call beyond them meets EAGAIN. True
-- if `write` did not fail.
unfoldable pub write_all : List (Sys WriteResult) → ReactorBuf → Run (Bool × ReactorBuf)
unfolding write2fd buf_length after_write_one
write_all [] s = done (true, s)
write_all (sys ∷ more) s =
    if buf_length s == 0
    then done (true, s)
    else (do w ← write2fd sys s; after_write_one (write_all more) w)

unfoldable pub after_write_all : TcpConn → Bool × ReactorBuf → Run TcpConn
unfolding clean_conn buf_length
after_write_all c (false, s) = clean_conn (with_output c s)
after_write_all c (true, s) =
    done
      (if buf_length s == 0 then record (with_output c s) { writing = false } else with_output c s)

unfoldable pub do_write : List (Sys WriteResult) → TcpConn → Run TcpConn
unfolding write_all after_write_all
do_write calls c = do w ← write_all calls (output c); after_write_all c w

-- After the head went into the buffer, or did not.
unfoldable pub send_body : (ℕ → ℕ) → List ℕ → TcpConn → Bool × ReactorBuf → Run (Bool × TcpConn)
unfolding send_data pop buf_length
send_body garbage xs c (false, s) = done (false, with_output c s)
send_body garbage xs c (true, s) = do
  r ← send_data garbage xs s
  elim r.0 [
    | true ↦
        done
          (true, record (with_output c r.1) { writing = (buf_length (output c) == 0) || c.writing })
    | false ↦ (do s' ← pop message_head_len r.1; done (false, with_output c s'))
  ]

-- True for 0, false for -1.
unfoldable pub send_message : (ℕ → ℕ) → List ℕ → ℕ → TcpConn → Run (Bool × TcpConn)
unfolding send_data head_bytes send_body
send_message garbage xs msgid c = do
  r ← send_data garbage (head_bytes (record { msgid = msgid; msglen = length xs })) (output c)
  send_body garbage xs c r
