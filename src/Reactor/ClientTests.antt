-- ===== src/Reactor/ClientTests.antt =====
-- The client, the writing of a connection and the datagrams on concrete inputs.
use native.Mathlib.Omega.{arith}
use lars_system.Base.{ℕ, ◌+◌, ◌≡◌, refl, inr, true, none, some, List, [], ◌∷◌, ◌++◌, length}
use lars_system.Base.Run.{Sys, interrupted, returns, retried, Safe, done}
use lars_system.Reactor.IoBuf.{IoBuf, append, new_io_buf, contents, bytes}
use lars_system.Reactor.BufPool.{BufPool, new_buf_pool, m4k, size_class}
use lars_system.Reactor.BufPool.Stock.{new_buf_pool-IsStocked, IsExhausted}
use lars_system.Reactor.ReactorBuf.{WriteResult, wrote, data_in}
use lars_system.Reactor.ReactorBuf.Room.{IsWell}
use lars_system.Reactor.Message.{Message, message_head_len, head_at, int_at}
use lars_system.Reactor.EventLoop.{new_event_loop}
use lars_system.Reactor.TcpConn
use lars_system.Reactor.TcpConn.{TcpConn, is_bad_head}
use lars_system.Reactor.TcpConn.Writes.{Outcome, flush, do_write-Outcome}
use lars_system.Reactor.TcpClient.{
  TcpClient, connected, in_progress, connection_made, clean_conn, do_read,
}
use lars_system.Reactor.TcpClient.Connects.{no_hooks, Reconnected, clean_conn-Reconnected}
use lars_system.Reactor.TcpClient.Stuck.{IsStuck, StaysStuck, do_read-StaysStuck}
use lars_system.Reactor.Udp
use lars_system.Reactor.Udp.{Recv, UdpServer, datagram, receive, client_send_message}
use lars_system.Reactor.Udp.Reads.{arrivals, do_read-arrivals}
use lars_system.Reactor.Udp.Sends.{packet, client_send_message-do_read}

abbrev blank : ℕ → ℕ
blank i = 0

abbrev full_pool : BufPool
full_pool = new_buf_pool blank

no_data-IsWell : IsWell (record { buf = none; pool = full_pool })
no_data-IsWell = record { stocked = new_buf_pool-IsStocked blank; block = tt }

abbrev two_bytes : IoBuf
two_bytes = append (5 ∷ 6 ∷ []) (new_io_buf blank m4k)

two_bytes-IsWell : IsWell (record { buf = some two_bytes; pool = full_pool })
unfolding append new_io_buf size_class
two_bytes-IsWell = record { stocked = new_buf_pool-IsStocked blank; block = (omega arith, refl) }

abbrev writer : TcpConn
writer = record {
  ibuf = none;
  obuf = some two_bytes;
  pool = full_pool;
  writing = true;
  is_open = true;
}

abbrev byte_by_byte : List (Sys WriteResult)
byte_by_byte = returns (wrote 1) ∷ interrupted (returns (wrote 1)) ∷ []

do_write-Outcome_example :
    ((flush byte_by_byte (data_in writer.obuf)).taken
        ++ (flush byte_by_byte (data_in writer.obuf)).left
      ≡ data_in writer.obuf)
    × Safe ⊥
        (Outcome (flush byte_by_byte (data_in writer.obuf)) writer)
        (TcpConn.do_write byte_by_byte writer)
unfolding retried append new_io_buf contents bytes
do_write-Outcome_example =
    do_write-Outcome byte_by_byte writer no_data-IsWell two_bytes-IsWell refl
      (omega arith, (omega arith, tt))

-- A length of more than the limit.
abbrev bad_head : IoBuf
bad_head = append (1 ∷ 0 ∷ 0 ∷ 0 ∷ 255 ∷ 255 ∷ 255 ∷ 255 ∷ []) (new_io_buf blank m4k)

abbrev client : TcpClient Unit Unit
client = record {
  sockfd = some 5;
  ibuf = some bad_head;
  obuf = some two_bytes;
  pool = full_pool;
  loop = new_event_loop;
  closed = [];
}

clean_conn-Reconnected_example :
    Safe ⊥ (Reconnected 6 5 client) (clean_conn no_hooks (connected 6 true) client)
    × Safe ⊥
        (λ c'. Reconnected 6 5 client (connection_made no_hooks true 6 c'))
        (clean_conn no_hooks (in_progress 6) client)
clean_conn-Reconnected_example = clean_conn-Reconnected 6 5 client refl

client-IsStuck : IsStuck client
unfolding append new_io_buf size_class contents bytes head_at int_at is_bad_head
client-IsStuck = record {
  has_socket = λ e. ground (arith, e);
  in_order = record { stocked = new_buf_pool-IsStocked blank; block = (omega arith, refl) };
  at_front = refl;
  malformed = record { whole_head = omega arith; bad_head = refl };
}

do_read-StaysStuck_example :
    Safe
      (IsExhausted full_pool)
      (StaysStuck 6)
      (do_read no_hooks (connected 6 true) blank (some 2) (returns (some (7 ∷ 8 ∷ []))) client)
unfolding retried
do_read-StaysStuck_example =
    do_read-StaysStuck blank 6 2 (returns (some (7 ∷ 8 ∷ []))) client client-IsStuck
      (λ e. ground (arith, e)) (inr refl)

abbrev udp : UdpServer
udp = record { read_buf = blank; cli_addr = 0 }

abbrev letter : Message
letter = record { msgid = 3; body = 65 ∷ 66 ∷ [] }

abbrev two_arrive : List Recv
two_arrive = datagram 10 (1 ∷ 2 ∷ []) ∷ Recv.interrupted ∷ datagram 11 (packet letter) ∷ []

do_read-arrivals_example : (Udp.do_read two_arrive udp).0 ≡ arrivals two_arrive
do_read-arrivals_example = do_read-arrivals two_arrive udp

client_send_message-do_read_example :
    (client_send_message true letter.body letter.msgid
      ≡ done (some (message_head_len + length letter.body), some (packet letter)))
    × ((Udp.do_read (datagram 11 (packet letter) ∷ two_arrive) udp).0
        ≡ record { message = letter; reply_to = 11 }
          ∷ (Udp.do_read two_arrive (receive 11 (packet letter) udp)).0)
client_send_message-do_read_example =
    client_send_message-do_read letter 11 two_arrive udp (omega arith, omega arith)
