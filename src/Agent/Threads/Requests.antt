-- ===== src/Agent/Threads/Requests.antt =====
-- The queue of requests to the DNS service goes into the output of its client, in order.

use mathlib.Core.List.{append_assoc, append-nil}
use lars_system.Base.{
  ℕ, ◌+◌, ◌≤◌, ◌≡◌, refl, sym, ap, ◌∙◌, ◌⊎◌, inl, inr, Bool, true, false, List, [], ◌∷◌, ◌++◌,
  length, length-append, arith,
}
use lars_system.Base.Run.{Run, done, Safe, Safe->>=, Safe-bind, Safe-mono, Safe-exit}
use lars_system.Reactor.BufPool.{m8m}
use lars_system.Reactor.ReactorBuf.{data_in, length_in}
use lars_system.Reactor.ReactorBuf.Room.{IsWell, AtFront}
use lars_system.Reactor.ReactorBuf.Drain.{length-data_in}
use lars_system.Reactor.Message.{message_head_len, head_bytes, Message}
use lars_system.Reactor.TcpConn.Framing.{wire, head_of}
use lars_system.Reactor.TcpConn.Receives.{length_head}
use lars_system.Reactor.TcpConn.Sends.{EndsSending}
use lars_system.Reactor.TcpClient.{TcpClient, output, send_message}
use lars_system.Reactor.TcpClient.Agrees.{conn_of, ClientQueued, send_message-ClientQueued}
use lars_system.Agent.Messages.{GetRouteRequest}
use lars_system.Agent.Threads.{Agent, send_each, new_dns_request, id_get_route_request}

module _ {ℓ} {M : Type ℓ} where
  -- The messages that things become.
  abbrev pub messages_of : (M → List ℕ) → ℕ → List M → List Message
  messages_of serialize msgid [] = []
  messages_of serialize msgid (m ∷ ms) =
      record { msgid = msgid; body = serialize m } ∷ messages_of serialize msgid ms

-- The requests that the agent's queue holds, as messages.
abbrev pub waiting_requests : (GetRouteRequest → List ℕ) → Agent → List Message
waiting_requests serialize a = messages_of serialize id_get_route_request a.dns_queue

length-wire_cons :
    (m : Message) (ms : List Message)
    → length (wire (m ∷ ms)) ≡ message_head_len + length m.body + length (wire ms)
unfolding wire
length-wire_cons m ms = omega (
  arith,
  length-append (head_bytes (head_of m)) (m.body ++ wire ms),
  length-append m.body (wire ms),
  length_head (head_of m),
)

module _ {C T : Type 0} where
  -- One of the sends ends the process, with a class of the pool used up.
  abbrev pub EndsEach : (ℕ → ℕ) → List Message → TcpClient C T → Type 0
  EndsEach garbage [] c = ⊥
  EndsEach garbage (m ∷ ms) c =
      EndsSending garbage (head_bytes (head_of m)) (conn_of c)
      ⊎ ((r : Bool × TcpClient C T) × (send_message garbage m.body m.msgid c ≡ done r)
          × EndsEach garbage ms r.1)

  -- The messages end the output.
  abbrev pub AllQueued : List Message → TcpClient C T → TcpClient C T → Type 0
  AllQueued ms c c' =
      (data_in c'.obuf ≡ data_in c.obuf ++ wire ms) × AtFront c'.obuf × IsWell (output c')

  -- The output after a message, and then after the others.
  AllQueued_cons :
      (m : Message) (ms : List Message) (c c1 c2 : TcpClient C T)
      → data_in c1.obuf ≡ data_in c.obuf ++ (head_bytes (head_of m) ++ m.body)
      → AllQueued ms c1 c2
      → AllQueued (m ∷ ms) c c2
  unfolding wire
  AllQueued_cons m ms c c1 c2 d (e, f, w) = (
    e
        ∙ ap (λ l. l ++ wire ms) d
        ∙ append_assoc (data_in c.obuf) (head_bytes (head_of m) ++ m.body) (wire ms)
        ∙ ap (λ l. data_in c.obuf ++ l) (append_assoc (head_bytes (head_of m)) m.body (wire ms)),
    f,
    w,
  )

  -- The message had room, and the run goes on with the others.
  after_one :
      (garbage : ℕ → ℕ) (m : Message) (ms : List Message) (c : TcpClient C T)
      (r : Bool × TcpClient C T) (run : Run (TcpClient C T))
      → length_in c.obuf + length (wire (m ∷ ms)) ≤ m8m
      → send_message garbage m.body m.msgid c ≡ done r
      → ClientQueued (head_bytes (head_of m)) m.body c r
      → (IsWell (output r.1)
          → AtFront r.1.obuf
          → length_in r.1.obuf + length (wire ms) ≤ m8m
          → Safe (EndsEach garbage ms r.1) (AllQueued ms r.1) run)
      → Safe (EndsEach garbage (m ∷ ms) c) (AllQueued (m ∷ ms) c) run
  after_one garbage m ms c (false, c1) run room ran h rest =
      absurd (omega (arith, length-wire_cons m ms))
  after_one garbage m ms c (true, c1) run room ran (d, f, w) rest =
      let n : length_in c1.obuf + length (wire ms) ≤ m8m = omega (
        arith,
        length-wire_cons m ms,
        length-data_in c.obuf,
        length-data_in c1.obuf,
        ap length d,
        length-append (data_in c.obuf) (head_bytes (head_of m) ++ m.body),
        length-append (head_bytes (head_of m)) m.body,
        length_head (head_of m),
      ) in
      Safe-exit (EndsEach garbage ms c1) (EndsEach garbage (m ∷ ms) c) (AllQueued (m ∷ ms) c) run
        (λ x. inr ((true, c1), ran, x))
        (Safe-mono (EndsEach garbage ms c1) (AllQueued ms c1) (AllQueued (m ∷ ms) c) run
          (λ c2 q. AllQueued_cons m ms c c1 c2 d q) (rest w f n))

  send_each-AllQueued {ℓ} :
      {M : Type ℓ} (serialize : M → List ℕ) (garbage : ℕ → ℕ) (msgid : ℕ) (ms : List M)
      (c : TcpClient C T)
      → IsWell (output c)
      → AtFront c.obuf
      → length_in c.obuf + length (wire (messages_of serialize msgid ms)) ≤ m8m
      → Safe
          (EndsEach garbage (messages_of serialize msgid ms) c)
          (AllQueued (messages_of serialize msgid ms) c)
          (send_each serialize garbage msgid ms c)
  unfolding send_each wire
  send_each-AllQueued serialize garbage msgid [] c w f room =
      (sym (append-nil (data_in c.obuf)), f, w)
  send_each-AllQueued serialize garbage msgid (m ∷ ms) c w f room =
      let xs = serialize m in
      let msg : Message = record { msgid = msgid; body = xs } in
      let rest = messages_of serialize msgid ms in
      Safe-bind (EndsEach garbage (msg ∷ rest) c) (ClientQueued (head_bytes (head_of msg)) xs c)
        (AllQueued (msg ∷ rest) c) (send_message garbage xs msgid c)
        (λ r. send_each serialize garbage msgid ms r.1)
        (Safe-exit _ _ (ClientQueued (head_bytes (head_of msg)) xs c)
          (send_message garbage xs msgid c) inl (send_message-ClientQueued garbage xs msgid c w f))
        λ r ran h.
          after_one garbage msg rest c r (send_each serialize garbage msgid ms r.1) room ran h
            (λ w1 f1 n1. send_each-AllQueued serialize garbage msgid ms r.1 w1 f1 n1)

  -- On a client whose output is in order and has room for all of them, `new_dns_request` puts the
  -- requests of the queue at the end of the output, in order, and leaves the queue empty and the
  -- tables as they were; the process ends only with a class of the pool used up.
  pub new_dns_request-AllQueued :
      (serialize : GetRouteRequest → List ℕ) (garbage : ℕ → ℕ) (a : Agent) (c : TcpClient C T)
      → IsWell (output c)
      → AtFront c.obuf
      → length_in c.obuf + length (wire (waiting_requests serialize a)) ≤ m8m
      → Safe
          (EndsEach garbage (waiting_requests serialize a) c)
          (λ r.
            (r.0 ≡ record a { dns_queue = [] }) × AllQueued (waiting_requests serialize a) c r.1)
          (new_dns_request serialize garbage a c)
  unfolding new_dns_request
  new_dns_request-AllQueued serialize garbage a c w f room =
      Safe->>= _ _ _ (send_each serialize garbage id_get_route_request a.dns_queue c) _
        (send_each-AllQueued serialize garbage id_get_route_request a.dns_queue c w f room)
        λ c' q. (refl, q)
