-- ===== src/Reactor/TcpClient/Agrees.antt =====
-- tcp_client.cpp repeats the code of tcp_conn.cpp: its messages are sent as those of a connection of
-- the server with the same buffers.
use mathlib.Core.Path.{subst}
use lars_system.Base.{
  ℕ, ◌+◌, ◌≡◌, refl, sym, ◌<◌, ◌==◌, ◌&&◌, Bool, true, false, List, ◌++◌, length, Option-cases, inl,
  inr,
}
use lars_system.Base.Run.{done, ◌>>=◌, Run-cases, Safe, Safe->>=}
use lars_system.Reactor.ReactorBuf.{ReactorBuf, data_in, length_in, buf_length, send_data, pop}
use lars_system.Reactor.ReactorBuf.Room.{IsWell, AtFront}
use lars_system.Reactor.BufPool.{m8m}
use lars_system.Reactor.Message.{message_head_len, head_bytes}
use lars_system.Reactor.TcpConn.{TcpConn}
use lars_system.Reactor.TcpConn
use lars_system.Reactor.TcpConn.Sends.{EndsSending, Queued, send_message-Queued}
use lars_system.Reactor.TcpClient.{
  TcpClient, output, with_output, activate, send_body, send_message,
}

module _ {C T : Type 0} where
  -- A connection of the server with the client's buffers.
  abbrev pub conn_of : TcpClient C T → TcpConn
  conn_of c = record {
    ibuf = c.ibuf;
    obuf = c.obuf;
    pool = c.pool;
    writing = false;
    is_open = true;
  }

  -- The client with the buffers of the connection; after a success it is watched for writing if it
  -- had no output.
  abbrev pub taken_back : TcpClient C T → Bool × TcpConn → Bool × TcpClient C T
  taken_back c (ok, conn) = (
    ok,
    activate (ok && (buf_length (output c) == 0))
        (with_output c (record { buf = conn.obuf; pool = conn.pool })),
  )

  send_body-agrees :
      (garbage : ℕ → ℕ) (xs : List ℕ) (c : TcpClient C T) (r : Bool × ReactorBuf)
      → send_body garbage xs c r
        ≡ (TcpConn.send_body garbage xs (conn_of c) r >>= λ r'. done (taken_back c r'))
  unfolding send_body TcpConn.send_body activate
  send_body-agrees garbage xs c (false, s) = refl
  send_body-agrees garbage xs c (true, s) = elim (Run-cases (send_data garbage xs s)) [
    | inl ((true, s'), e) ↦ rw e refl
    | inl ((false, s'), e) ↦ rw e (elim (Run-cases (pop message_head_len s')) [
      | inl (s2, e2) ↦ rw e2 refl
      | inr (inl e2) ↦ rw e2 refl
      | inr (inr e2) ↦ rw e2 refl
    ])
    | inr (inl e) ↦ rw e refl
    | inr (inr e) ↦ rw e refl
  ]

  -- `send_message` of the client does to its buffers what that of a connection of the server does, and
  -- returns the same; after a success the socket is watched for writing if there was no output.
  pub send_message-agrees :
      (garbage : ℕ → ℕ) (xs : List ℕ) (msgid : ℕ) (c : TcpClient C T)
      → send_message garbage xs msgid c
        ≡ (TcpConn.send_message garbage xs msgid (conn_of c) >>= λ r. done (taken_back c r))
  unfolding send_message TcpConn.send_message
  send_message-agrees garbage xs msgid c =
      elim (Run-cases (
        send_data garbage (head_bytes (record { msgid = msgid; msglen = length xs })) (output c))) [
          | inl (r, e) ↦ rw e (send_body-agrees garbage xs c r)
          | inr (inl e) ↦ rw e refl
          | inr (inr e) ↦ rw e refl
        ]

  activate-output : (now : Bool) (c : TcpClient C T) → output (activate now c) ≡ output c
  unfolding activate
  activate-output false c = refl
  activate-output true c = elim (Option-cases c.sockfd) [
    | inl e ↦ rw e refl
    | inr (fd, e) ↦ rw e refl
  ]

  -- On success the head and the body end the output; on failure there was no room for them.
  abbrev pub ClientQueued : List ℕ → List ℕ → TcpClient C T → Bool × TcpClient C T → Type 0
  ClientQueued head xs c (true, c') =
      (data_in c'.obuf ≡ data_in c.obuf ++ (head ++ xs)) × AtFront c'.obuf × IsWell (output c')
  ClientQueued head xs c (false, c') = m8m < length_in c.obuf + (message_head_len + length xs)

  taken_back-ClientQueued :
      (head xs : List ℕ) (c : TcpClient C T) (r : Bool × TcpConn)
      → Queued head xs (conn_of c) r
      → ClientQueued head xs c (taken_back c r)
  taken_back-ClientQueued head xs c (false, conn) h = h.0
  taken_back-ClientQueued head xs c (true, conn) (d, f, w, _) =
      let now = buf_length (output c) == 0 in
      let s : ReactorBuf = record { buf = conn.obuf; pool = conn.pool } in
      subst
        (λ (o : ReactorBuf).
          (data_in o.buf ≡ data_in c.obuf ++ (head ++ xs)) × AtFront o.buf × IsWell o)
        (sym (activate-output now (with_output c s))) (d, f, w)

  pub send_message-ClientQueued :
      (garbage : ℕ → ℕ) (xs : List ℕ) (msgid : ℕ) (c : TcpClient C T)
      → IsWell (output c)
      → AtFront c.obuf
      → let head = head_bytes (record { msgid = msgid; msglen = length xs }) in
        Safe
          (EndsSending garbage head (conn_of c))
          (ClientQueued head xs c)
          (send_message garbage xs msgid c)
  send_message-ClientQueued garbage xs msgid c w f =
      let head = head_bytes (record { msgid = msgid; msglen = length xs }) in
      subst (Safe (EndsSending garbage head (conn_of c)) (ClientQueued head xs c))
        (sym (send_message-agrees garbage xs msgid c))
        (Safe->>= _ (Queued head xs (conn_of c)) (ClientQueued head xs c)
          (TcpConn.send_message garbage xs msgid (conn_of c)) (λ r. done (taken_back c r))
          (send_message-Queued garbage xs msgid (conn_of c) w f)
          λ r h. taken_back-ClientQueued head xs c r h)
