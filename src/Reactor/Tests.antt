-- ===== src/Reactor/Tests.antt =====
-- The reactor library on concrete inputs: its theorems at inputs that meet their hypotheses.
use lars_system.Reactor.ReactorBuf.{
  buf_length, ReactorBuf, WriteResult, wrote, send_data, read_data,
}
use lars_system.Reactor.TcpConn.Enough.{Ended, read_messages-Ended}
use native.Mathlib.Omega.{arith}
use lars_system.Base.{◌≡◌, ℕ, refl, inr, true, Option, none, some, List, [], ◌∷◌, ◌++◌}
use lars_system.Base.Run.{Sys, interrupted, returns, retried, Safe}
use lars_system.Reactor.IoBuf.{IoBuf, contents, append, new_io_buf, bytes}
use lars_system.Reactor.BufPool.{BufPool, new_buf_pool, alloc_buf, size_class, m4k}
use lars_system.Reactor.BufPool.Stock.{
  IsExhausted, Granted, new_buf_pool-IsStocked, alloc_buf-Granted,
}
use lars_system.Reactor.ReactorBuf.Room.{IsWell, Sent, Received, send_data-Sent, read_data-Received}
use lars_system.Reactor.Message.{Message, head_bytes, int_bytes}
use lars_system.Reactor.TcpConn.{TcpConn, do_read, send_message, read_messages}
use lars_system.Reactor.TcpConn.Framing.{wire, frames}
use lars_system.Reactor.TcpConn.Reads.{Parsed, read_messages-Parsed}
use lars_system.Reactor.TcpConn.Receives.{HandedOn, do_read-HandedOn}
use lars_system.Reactor.TcpConn.Sends.{EndsSending, Queued, send_message-Queued}

abbrev blank : ℕ → ℕ
blank i = 0

abbrev full_pool : BufPool
full_pool = new_buf_pool blank

abbrev no_data : ReactorBuf
no_data = record { buf = none; pool = full_pool }

no_data-IsWell : IsWell no_data
no_data-IsWell = record { stocked = new_buf_pool-IsStocked blank; block = tt }

-- A block of 4 KB with two bytes.
abbrev two_bytes : IoBuf
two_bytes = append (5 ∷ 6 ∷ []) (new_io_buf blank m4k)

abbrev some_data : ReactorBuf
some_data = record { buf = some two_bytes; pool = full_pool }

some_data-IsWell : IsWell some_data
unfolding append new_io_buf size_class
some_data-IsWell = record { stocked = new_buf_pool-IsStocked blank; block = (omega arith, refl) }

alloc_buf-Granted_example : Granted 5000 16384 full_pool (alloc_buf blank 5000 full_pool)
unfolding size_class
alloc_buf-Granted_example =
    alloc_buf-Granted blank 5000 16384 full_pool (new_buf_pool-IsStocked blank) refl

send_data-Sent_example :
    Safe
      (IsExhausted full_pool)
      (Sent (7 ∷ 8 ∷ []) some_data)
      (send_data blank (7 ∷ 8 ∷ []) some_data)
unfolding append new_io_buf
send_data-Sent_example = send_data-Sent blank (7 ∷ 8 ∷ []) some_data some_data-IsWell refl

abbrev three_read : Sys (Option (List ℕ))
three_read = interrupted (returns (some (1 ∷ 2 ∷ 3 ∷ [])))

read_data-Received_example :
    Safe
      (IsExhausted full_pool)
      (Received 3 (retried three_read) some_data)
      (read_data blank (some 3) three_read some_data)
unfolding append new_io_buf retried
read_data-Received_example =
    read_data-Received blank 3 three_read some_data some_data-IsWell refl (λ e. ground (arith, e))
      (inr refl)

abbrev one_written : Sys WriteResult
one_written = interrupted (returns (wrote 1))

-- A message of kind 3 with two bytes, and half a head after it.
abbrev one_message : List Message
one_message = record { msgid = 3; body = 65 ∷ 66 ∷ [] } ∷ []

abbrev half_head : List ℕ
half_head = 1 ∷ 0 ∷ 0 ∷ []

read_messages-Parsed_example : Parsed (frames 4 (5 ∷ 6 ∷ [])) (read_messages 4 some_data)
unfolding append new_io_buf contents bytes
read_messages-Parsed_example = read_messages-Parsed 4 some_data some_data-IsWell

read_messages-Ended_example :
    (read_messages 9 some_data ≡ read_messages (buf_length some_data) some_data)
    × Ended (frames 9 (5 ∷ 6 ∷ [])) (read_messages 9 some_data)
unfolding append new_io_buf buf_length contents bytes
read_messages-Ended_example = read_messages-Ended 9 some_data some_data-IsWell (omega arith)

abbrev new_conn : TcpConn
new_conn = record {
  ibuf = none;
  obuf = some two_bytes;
  pool = full_pool;
  writing = true;
  is_open = true;
}

abbrev message_read : Sys (Option (List ℕ))
message_read = returns (some (wire one_message ++ half_head))

do_read-HandedOn_example :
    Safe
      (IsExhausted full_pool)
      (HandedOn one_message half_head new_conn)
      (do_read blank (some 13) message_read new_conn)
unfolding wire head_bytes int_bytes retried
do_read-HandedOn_example =
    do_read-HandedOn blank 13 message_read one_message half_head (wire one_message ++ half_head)
      new_conn no_data-IsWell tt (λ e. ground (arith, e)) refl refl (omega arith)
      ((omega arith, (λ e. ground (arith, e)), omega arith), tt) (omega arith) refl

send_message-Queued_example :
    Safe
      (EndsSending blank (head_bytes (record { msgid = 3; msglen = 2 })) new_conn)
      (Queued (head_bytes (record { msgid = 3; msglen = 2 })) (65 ∷ 66 ∷ []) new_conn)
      (send_message blank (65 ∷ 66 ∷ []) 3 new_conn)
unfolding append new_io_buf
send_message-Queued_example =
    send_message-Queued blank (65 ∷ 66 ∷ []) 3 new_conn some_data-IsWell refl
