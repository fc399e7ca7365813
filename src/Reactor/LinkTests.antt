-- ===== src/Reactor/LinkTests.antt =====
-- A stream of messages between two connections on concrete inputs.
use lars_system.Base.{ℕ, true, false, Option, none, some, List, [], ◌∷◌}
use lars_system.Base.Run.{Run, done, dies, faults, Sys, interrupted, returns}
use lars_system.Reactor.BufPool.{BufPool, new_buf_pool}
use lars_system.Reactor.ReactorBuf.{WriteResult, wrote}
use lars_system.Reactor.Message.{Message}
use lars_system.Reactor.TcpConn.{TcpConn, do_read, do_write, send_message}
use lars_system.Reactor.TcpConn.Link.{Link}

abbrev blank : ℕ → ℕ
blank i = 0

abbrev full_pool : BufPool
full_pool = new_buf_pool blank

abbrev idle_conn : TcpConn
idle_conn = record { ibuf = none; obuf = none; pool = full_pool; writing = false; is_open = true }

abbrev result_of {ℓ} : {A : Type ℓ} → A → Run A → A
result_of d (done a) = a
result_of d dies = d
result_of d faults = d

abbrev letter : Message
letter = record { msgid = 3; body = 65 ∷ 66 ∷ [] }

abbrev sent_conn : TcpConn
unfolding send_message
sent_conn = (result_of (false, idle_conn) (send_message blank letter.body letter.msgid idle_conn)).1

abbrev ten_written : List (Sys WriteResult)
ten_written = interrupted (returns (wrote 10)) ∷ []

unfoldable idle_again : TcpConn
idle_again = result_of idle_conn (do_write ten_written sent_conn)

abbrev ten_read : Sys (Option (List ℕ))
ten_read = returns (some (3 ∷ 0 ∷ 0 ∷ 0 ∷ 2 ∷ 0 ∷ 0 ∷ 0 ∷ 65 ∷ 66 ∷ []))

unfoldable reader : TcpConn
reader = (result_of ([], idle_conn) (do_read blank (some 10) ten_read idle_conn)).1

abbrev idle_link : Link
idle_link = record {
  sender = idle_conn;
  in_flight = [];
  receiver = idle_conn;
  sent = [];
  handed_on = [];
}

-- After a message was sent, written and read.
abbrev delivered : Link
delivered = record {
  sender = idle_again;
  in_flight = [];
  receiver = reader;
  sent = letter ∷ [];
  handed_on = letter ∷ [];
}
