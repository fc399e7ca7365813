-- ===== src/Reactor/TcpClient.antt =====
-- tcp_client.h and tcp_client.cpp: a client with its loop, whose connection is made anew when it
-- ends. What the kernel answers to `socket` and `connect` is an argument, and so are the hooks of the
-- user; calls of `epoll_ctl` succeed. The reading loop, `do_write` and the buffers are those of
-- tcp_conn.cpp, line by line, and share their definitions. `C` is a callback of others on the loop.
pub mod Agrees
pub mod Connects
pub mod Stuck
use lars_system.Base.{
  ℕ, ◌==◌, not, Bool, true, false, if◌then◌else◌, Option, none, some, List, [], ◌∷◌, ◌++◌, length,
}
use lars_system.Base.Run.{Run, done, dies, ◌>>=◌, Sys}
use lars_system.Reactor.IoBuf.{IoBuf}
use lars_system.Reactor.BufPool.{BufPool}
use lars_system.Reactor.ReactorBuf.{
  ReactorBuf, buf_length, adjust_input, send_data, WriteResult, read_data, Read, pop,
}
use lars_system.Reactor.Message.{message_head_len, head_bytes, Message}
use lars_system.Reactor.EventLoop.{
  EventLoop, epollin, epollout, add_io_event, del_io_event, del_io_event_mask,
}
use lars_system.Reactor.TcpConn.{Parse, read_messages, write_all}

-- The callbacks of the client, and those of others on its loop.
pub data Callback (C : Type 0) : Type 0 where
  client_rd : Callback C
  client_wr : Callback C
  connection_succ : Callback C
  other : C → Callback C

-- `closed` has the descriptors that the client passed to `close`, the last one first.
pub record TcpClient (C T : Type 0) : Type 0 where
  pub sockfd : Option ℕ
  pub ibuf : Option IoBuf
  pub obuf : Option IoBuf
  pub pool : BufPool
  pub loop : EventLoop (Callback C) T
  pub closed : List ℕ

-- What `socket` and `connect` answer, and whether SO_ERROR is 0.
pub data Connect : Type 0 where
  no_socket : Connect
  refused : ℕ → Connect
  in_progress : ℕ → Connect
  connected : ℕ → Bool → Connect

-- The hooks at the start and the end of a connection; none is the identity.
pub record Hooks (C T : Type 0) : Type 0 where
  pub conn_start : TcpClient C T → TcpClient C T
  pub conn_close : TcpClient C T → TcpClient C T

module _ {C T : Type 0} where
  abbrev pub input : TcpClient C T → ReactorBuf
  input c = record { buf = c.ibuf; pool = c.pool }

  abbrev pub with_input : TcpClient C T → ReactorBuf → TcpClient C T
  with_input c s = record c { ibuf = s.buf; pool = s.pool }

  abbrev pub output : TcpClient C T → ReactorBuf
  output c = record { buf = c.obuf; pool = c.pool }

  abbrev pub with_output : TcpClient C T → ReactorBuf → TcpClient C T
  with_output c s = record c { obuf = s.buf; pool = s.pool }

  -- The registrations of a connection that was made: for reading, and for writing if there is output.
  unfoldable pub watch_loop : Bool → ℕ → EventLoop (Callback C) T → EventLoop (Callback C) T
  unfolding add_io_event epollin epollout
  watch_loop no_output fd l =
      let l' = add_io_event true fd client_rd epollin l in
      if no_output then l' else add_io_event true fd client_wr epollout l'

  unfoldable pub watch : ℕ → TcpClient C T → TcpClient C T
  unfolding watch_loop buf_length
  watch fd c = record c { loop = watch_loop (buf_length (output c) == 0) fd c.loop }

  -- The static function `connection_succ`.
  unfoldable pub connection_made : Hooks C T → Bool → ℕ → TcpClient C T → TcpClient C T
  unfolding del_io_event watch
  connection_made hooks no_error fd c =
      let c' : TcpClient C T = record c { loop = del_io_event fd c.loop } in
      if no_error then watch fd (hooks.conn_start c') else c'

  -- `close` of the present descriptor, if there is one.
  unfoldable pub close_present : TcpClient C T → TcpClient C T
  close_present c = elim c.sockfd [ none ↦ c | some fd ↦ record c { closed = fd ∷ c.closed } ]

  -- `do_connect` from the call of `connect` on.
  unfoldable pub after_connect : Hooks C T → Connect → TcpClient C T → Run (TcpClient C T)
  unfolding add_io_event epollout watch connection_made
  after_connect hooks no_socket c = dies
  after_connect hooks (refused fd) c = dies
  after_connect hooks (in_progress fd) c =
      let c' : TcpClient C T = record c { sockfd = some fd } in
      done (record c' { loop = add_io_event true fd connection_succ epollout c'.loop })
  after_connect hooks (connected fd no_error) c =
      let c' : TcpClient C T = record c { sockfd = some fd } in
      done (connection_made hooks no_error fd (watch fd (hooks.conn_start c')))

  unfoldable pub do_connect : Hooks C T → Connect → TcpClient C T → Run (TcpClient C T)
  unfolding close_present after_connect
  do_connect hooks net c = after_connect hooks net (close_present c)

  -- The constructor, on a pool and a loop; no hooks are set yet.
  unfoldable pub new_tcp_client : Connect → BufPool → EventLoop (Callback C) T → Run (TcpClient C T)
  unfolding do_connect
  new_tcp_client net pool loop =
      do_connect (record { conn_start = λ c. c; conn_close = λ c. c }) net
        (record { sockfd = none; ibuf = none; obuf = none; pool = pool; loop = loop; closed = [] })

  -- The registrations of the present descriptor go, and it is closed.
  unfoldable pub forget : TcpClient C T → TcpClient C T
  unfolding del_io_event
  forget c = elim c.sockfd [
    | none ↦ c
    | some fd ↦ record c { loop = del_io_event fd c.loop; closed = fd ∷ c.closed }
  ]

  -- `clean_conn`: the buffers stay as they are.
  unfoldable pub clean_conn : Hooks C T → Connect → TcpClient C T → Run (TcpClient C T)
  unfolding forget do_connect
  clean_conn hooks net c = do_connect hooks net (hooks.conn_close (forget c))

  -- The end of `do_read`: the messages that were handed on, and the client.
  unfoldable pub after_parse :
      Hooks C T → Connect → TcpClient C T → Parse → Run (List Message × TcpClient C T)
  unfolding clean_conn adjust_input
  after_parse hooks net c p =
      if p.format_error
      then (do
        c' ← clean_conn hooks net (with_input c p.rest)
        done (p.calls, with_input c' (adjust_input (input c'))))
      else done (p.calls, with_input c (adjust_input p.rest))

  unfoldable pub after_read_data :
      Hooks C T → Connect → TcpClient C T → Read → Run (List Message × TcpClient C T)
  unfolding read_messages buf_length clean_conn after_parse
  after_read_data hooks net c (none, s) = do
    c' ← clean_conn hooks net (with_input c s)
    done ([], c')
  after_read_data hooks net c (some ret, s) =
      if ret == 0
      then (do c' ← clean_conn hooks net (with_input c s); done ([], c'))
      else (do p ← read_messages (buf_length s) s; after_parse hooks net c p)

  -- `net` is what the kernel answers if the connection is made anew.
  unfoldable pub do_read :
      Hooks C T
      → Connect
      → (ℕ → ℕ)
      → Option ℕ
      → Sys (Option (List ℕ))
      → TcpClient C T
      → Run (List Message × TcpClient C T)
  unfolding read_data after_read_data
  do_read hooks net garbage ready sys c = do
    r ← read_data garbage ready sys (input c)
    after_read_data hooks net c r

  -- `del_io_event(_sockfd, EPOLLOUT)`.
  unfoldable pub unwatch_write : TcpClient C T → TcpClient C T
  unfolding del_io_event_mask epollout
  unwatch_write c = elim c.sockfd [
    | none ↦ c
    | some fd ↦ record c { loop = del_io_event_mask fd epollout c.loop }
  ]

  unfoldable pub after_write_all :
      Hooks C T → Connect → TcpClient C T → Bool × ReactorBuf → Run (TcpClient C T)
  unfolding clean_conn buf_length unwatch_write
  after_write_all hooks net c (false, s) = clean_conn hooks net (with_output c s)
  after_write_all hooks net c (true, s) =
      done (if buf_length s == 0 then unwatch_write (with_output c s) else with_output c s)

  unfoldable pub do_write :
      Hooks C T → Connect → List (Sys WriteResult) → TcpClient C T → Run (TcpClient C T)
  unfolding write_all after_write_all
  do_write hooks net calls c = do w ← write_all calls (output c); after_write_all hooks net c w

  -- The present descriptor is watched for writing. Without one, -1 is given to the loop, whose table
  -- has an entry for it after that; a client has a descriptor from its constructor on.
  unfoldable pub activate : Bool → TcpClient C T → TcpClient C T
  unfolding add_io_event epollout
  activate false c = c
  activate true c = elim c.sockfd [
    | none ↦ c
    | some fd ↦ record c { loop = add_io_event true fd client_wr epollout c.loop }
  ]

  unfoldable pub send_body :
      (ℕ → ℕ) → List ℕ → TcpClient C T → Bool × ReactorBuf → Run (Bool × TcpClient C T)
  unfolding send_data pop buf_length activate
  send_body garbage xs c (false, s) = done (false, with_output c s)
  send_body garbage xs c (true, s) = do
    r ← send_data garbage xs s
    elim r.0 [
      | true ↦ done (true, activate (buf_length (output c) == 0) (with_output c r.1))
      | false ↦ (do s' ← pop message_head_len r.1; done (false, with_output c s'))
    ]

  -- True for 0, false for -1.
  unfoldable pub send_message : (ℕ → ℕ) → List ℕ → ℕ → TcpClient C T → Run (Bool × TcpClient C T)
  unfolding send_data head_bytes send_body
  send_message garbage xs msgid c = do
    r ← send_data garbage (head_bytes (record { msgid = msgid; msglen = length xs })) (output c)
    send_body garbage xs c r
