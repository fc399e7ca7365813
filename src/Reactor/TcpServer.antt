-- ===== src/Reactor/TcpServer.antt =====
-- The connections of tcp_server.h and tcp_server.cpp: the array `conns`, as the descriptors that
-- have one, the count, and the loop that accepts; and `clean_conn` of tcp_conn.cpp as a whole. A
-- mutex makes each operation on the array and the count one step.
pub mod Limits
use lars_system.Base.{
  ℕ, zero, suc, ◌+◌, ◌*◌, ◌-◌, ◌≡◌, ◌==◌, leb, ltb, Bool, true, false, if◌then◌else◌, Option, none,
  some, List, [], ◌∷◌, insert, remove,
}
use lars_system.Base.Int.{ℤ}
use lars_system.Base.Run.{Run, done, dies, faults, ◌>>=◌}
use lars_system.Reactor.TcpConn
use lars_system.Reactor.TcpConn.{TcpConn}
use lars_system.Reactor.ThreadPool.{TaskMsg, new_conn, ThreadPool, get_thread, send_to}

-- `capacity` is the length of the array, which the constructor makes larger than the limit.
pub record Conns : Type 0 where
  pub conns : List ℕ
  pub cur_conns : ℕ
  pub max_conns : ℕ
  pub capacity : ℕ

-- The part of the constructor that makes the array.
unfoldable pub new_conns : ℕ → ℕ → Conns
new_conns max_conns thread_cnt = record {
  conns = [];
  cur_conns = 0;
  max_conns = max_conns;
  capacity = max_conns + 5 + 2 * thread_cnt;
}

-- A descriptor that is past the array is written past it.
unfoldable pub increase_conn : ℕ → Conns → Run Conns
increase_conn fd s =
    if ltb fd s.capacity
    then done (record s { conns = insert fd s.conns; cur_conns = suc s.cur_conns })
    else faults

-- For a connection that was counted: the count is not zero.
unfoldable pub decrease_conn : ℕ → Conns → Run Conns
decrease_conn fd s =
    if ltb fd s.capacity
    then done (record s { conns = remove fd s.conns; cur_conns = s.cur_conns - 1 })
    else faults

-- The hook that is called before a connection goes; it may use the server and the connection.
abbrev pub CloseHook : Type 0
CloseHook = Conns × TcpConn → Conns × TcpConn

unfoldable pub call_hook : Option CloseHook → Conns × TcpConn → Conns × TcpConn
call_hook none w = w
call_hook (some hook) w = hook w

-- `clean_conn` of a connection with this descriptor: the hook, the count, and the connection itself.
unfoldable pub clean_conn : Option CloseHook → ℕ → Conns × TcpConn → Run (Conns × TcpConn)
unfolding call_hook decrease_conn TcpConn.clean_conn
clean_conn conn_close_cb fd w =
    let called = call_hook conn_close_cb w in
    (do s ← decrease_conn fd called.0; c ← TcpConn.clean_conn called.1; done (s, c))

-- What a call of `accept` gives.
pub data Accept : Type 0 where
  accepted : ℕ → Accept
  eintr : Accept
  emfile : Accept
  eagain : Accept
  failed : Accept

-- Where a new connection goes: to the main loop, or to a thread of the pool. `none` is a null pointer
-- for the pool: the constructor sets it only for a positive number of threads.
pub record Server {κ} (T : Type κ) : Type κ where
  pub state : Conns
  pub thread_pool : Option (ThreadPool T)
  pub closed : List ℕ

module _ {κ} {T : Type κ} where
  -- What a thread does with a connection that it finds in its queue, and the main loop without a pool.
  unfoldable pub take_over : ℕ → Server T → Run (Server T)
  unfolding increase_conn
  take_over fd s = do c ← increase_conn fd s.state; done (record s { state = c })

  unfoldable pub hand_over : ℕ → Option (ThreadPool T) → Server T → Run (Server T)
  unfolding take_over get_thread send_to
  hand_over fd none s = take_over fd s
  hand_over fd (some p) s =
      let r = get_thread p in
      done (record s {
        thread_pool = some (record r.1 { queues = send_to r.0 (new_conn fd) r.1.queues });
      })

  -- A connection beyond the limit is closed at once.
  unfoldable pub admit : ℕ → Server T → Run (Server T)
  unfolding hand_over
  admit fd s =
      if leb s.state.max_conns s.state.cur_conns
      then done (record s { closed = fd ∷ s.closed })
      else hand_over fd s.thread_pool s

  -- `do_accept`, over what the calls of `accept` give; with none left, it meets EAGAIN. It goes on
  -- after EINTR and after EMFILE, and accepts one connection at most.
  unfoldable pub do_accept : List Accept → Server T → Run (Server T)
  unfolding admit
  do_accept [] s = done s
  do_accept (accepted fd ∷ more) s = admit fd s
  do_accept (eintr ∷ more) s = do_accept more s
  do_accept (emfile ∷ more) s = do_accept more s
  do_accept (eagain ∷ more) s = done s
  do_accept (failed ∷ more) s = dies
