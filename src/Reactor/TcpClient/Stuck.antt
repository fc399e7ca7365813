-- ===== src/Reactor/TcpClient/Stuck.antt =====
-- A message out of format stays in the input buffer of a client of tcp_client.cpp over every
-- reconnection, so that the client never reads again.
use mathlib.Core.Path.{ap₂, subst}
use lars_system.Base.{
  ℕ, suc, ◌≤◌, ◌≡◌, ◌≢◌, refl, sym, ap, ◌∙◌, ◌==◌, leb, true, Option, none, some, List, [], ◌∷◌,
  ◌++◌, length, length-append, arith, Bool-cases, Option-cases, ◌-◌, inl, inr,
}
use lars_system.Base.Run.{done, ◌>>=◌, Safe, Safe->>=, Safe-exit, Sys, retried}
use lars_system.Reactor.BufPool.Stock.{IsExhausted}
use lars_system.Reactor.ReactorBuf.{
  ReactorBuf, data_in, length_in, buf_length, adjust_input, read_data, Read,
}
use lars_system.Reactor.ReactorBuf.Room.{GivesAll, IsWell, AtFront, Received, read_data-Received}
use lars_system.Reactor.ReactorBuf.Drain.{length-data_in}
use lars_system.Reactor.Message.{message_head_len, head_at, int_at, Message}
use lars_system.Reactor.TcpConn.{Parse, read_messages, is_bad_head}
use lars_system.Reactor.TcpConn.Framing.{frames}
use lars_system.Reactor.TcpConn.Reads.{Parsed, read_messages-Parsed}
use lars_system.Reactor.TcpConn.Receives.{adjusted, adjust_input-IsWell}
use lars_system.Reactor.TcpClient.{
  TcpClient, connected, input, with_input, clean_conn, after_parse, after_read_data, do_read,
}
use lars_system.Reactor.TcpClient.Connects.{no_hooks, Reconnected, clean_conn-Reconnected}

-- The data starts with a head whose length is out of its bounds.
pub record IsMalformed (xs : List ℕ) : Type 0 where
  pub whole_head : message_head_len ≤ length xs
  pub bad_head : is_bad_head (head_at xs) ≡ true

head_at-append : (xs ys : List ℕ) → message_head_len ≤ length xs → head_at (xs ++ ys) ≡ head_at xs
unfolding head_at int_at
head_at-append (a ∷ b ∷ c ∷ d ∷ e ∷ f ∷ g ∷ h ∷ xs) ys long = refl
head_at-append xs ys long = absurd (omega arith)

IsMalformed-append : (xs ys : List ℕ) → IsMalformed xs → IsMalformed (xs ++ ys)
IsMalformed-append xs ys m = record {
  whole_head = omega (arith, m.whole_head, length-append xs ys);
  bad_head = ap is_bad_head (head_at-append xs ys m.whole_head) ∙ m.bad_head;
}

frames_malformed :
    (fuel : ℕ) (xs : List ℕ)
    → IsMalformed xs
    → frames (suc fuel) xs ≡ some (record { messages = []; is_bad = true; left = xs })
unfolding frames
frames_malformed fuel xs m =
    let long : leb message_head_len (length xs) ≡ true = ground (arith, m.whole_head) in
    rw (long, m.bad_head) refl

module _ {C T : Type 0} where
  -- A client whose input buffer is in order and starts with a bad head.
  pub record IsStuck (c : TcpClient C T) : Type 0 where
    pub has_socket : c.sockfd ≢ none
    pub in_order : IsWell (input c)
    pub at_front : AtFront c.ibuf
    pub malformed : IsMalformed (data_in c.ibuf)

  -- Nothing is handed on, the client is stuck as before, and it has made a new connection.
  abbrev pub StaysStuck : ℕ → List Message × TcpClient C T → Type 0
  StaysStuck fd (calls, c') = (calls ≡ []) × IsStuck c' × (c'.sockfd ≡ some fd)

  -- The client once its input buffer is `s` again, with a socket.
  IsStuck-with :
      (fd : ℕ) (c' : TcpClient C T) (s : ReactorBuf)
      → input c' ≡ s
      → c'.sockfd ≡ some fd
      → IsWell s
      → AtFront s.buf
      → IsMalformed (data_in s.buf)
      → IsStuck c'
  IsStuck-with fd c' s e open_fd w f m = record {
    has_socket = λ h. absurd (ground (arith, open_fd, h));
    in_order = subst IsWell (sym e) w;
    at_front = subst (λ (s : ReactorBuf). AtFront s.buf) (sym e) f;
    malformed = subst (λ (s : ReactorBuf). IsMalformed (data_in s.buf)) (sym e) m;
  }

  -- `clean_conn` keeps the input buffer.
  same_input :
      (fd gone : ℕ) (c c' : TcpClient C T) (s : ReactorBuf)
      → Reconnected fd gone (with_input c s) c'
      → input c' ≡ s
  same_input fd gone c c' s r = ap₂ (λ b p. record { buf = b; pool = p }) r.2 r.4

  reconnect-StaysStuck :
      (fd : ℕ) (c : TcpClient C T) (s : ReactorBuf)
      → c.sockfd ≢ none
      → IsWell s
      → AtFront s.buf
      → IsMalformed (data_in s.buf)
      → Safe ⊥
          (StaysStuck fd)
          (clean_conn no_hooks (connected fd true) (with_input c s) >>= λ c'. done ([], c'))
  reconnect-StaysStuck fd c s open_fd w f m = elim (Option-cases c.sockfd) [
    | inl e ↦ absurd (open_fd e)
    | inr (gone, e) ↦
        Safe->>= ⊥ (Reconnected fd gone (with_input c s)) _
          (clean_conn no_hooks (connected fd true) (with_input c s)) _
          (clean_conn-Reconnected fd gone (with_input c s) e).0
          λ c' r. (refl, IsStuck-with fd c' s (same_input fd gone c c' s r) r.0 w f m, r.0)
  ]

  after_parse-StaysStuck :
      (fd : ℕ) (c : TcpClient C T) (p : Parse)
      → c.sockfd ≢ none
      → p.calls ≡ []
      → p.format_error ≡ true
      → IsWell p.rest
      → IsMalformed (data_in p.rest.buf)
      → Safe ⊥ (StaysStuck fd) (after_parse no_hooks (connected fd true) c p)
  unfolding after_parse
  after_parse-StaysStuck fd c p open_fd none_called bad w m = elim (Option-cases c.sockfd) [
    | inl e ↦ absurd (open_fd e)
    | inr (gone, e) ↦ rw bad (
        Safe->>= ⊥ (Reconnected fd gone (with_input c p.rest)) (StaysStuck fd)
          (clean_conn no_hooks (connected fd true) (with_input c p.rest))
          (λ c'. done (p.calls, with_input c' (adjust_input (input c'))))
          (clean_conn-Reconnected fd gone (with_input c p.rest) e).0
          λ c' r.
            let moved = adjusted p.rest.buf p.rest.pool in
            (
              none_called,
              IsStuck-with fd (with_input c' (adjust_input (input c'))) (adjust_input p.rest)
                  (ap adjust_input (same_input fd gone c c' p.rest r)) r.0
                  (adjust_input-IsWell p.rest w) moved.1 (subst IsMalformed (sym moved.0) m),
              r.0,
            ))
  ]

  after_read_data-StaysStuck :
      (fd need : ℕ) (got : Option (List ℕ)) (c : TcpClient C T) (r : Read)
      → IsStuck c
      → Received need got (input c) r
      → Safe ⊥ (StaysStuck fd) (after_read_data no_hooks (connected fd true) c r)
  unfolding after_read_data buf_length
  after_read_data-StaysStuck fd need none c (none, s) k (w, f, d) =
      reconnect-StaysStuck fd c s k.has_socket w f (subst IsMalformed (sym d) k.malformed)
  after_read_data-StaysStuck fd need (some xs) c (none, s) k (w, f, d, _) =
      reconnect-StaysStuck fd c s k.has_socket w f (subst IsMalformed (sym d) k.malformed)
  after_read_data-StaysStuck fd need none c (some ret, s) k h = absurd h
  after_read_data-StaysStuck fd need (some xs) c (some ret, s) k (w, f, d, n) =
      let m = subst IsMalformed (sym d) (IsMalformed-append (data_in c.ibuf) xs k.malformed) in
      let long : length_in s.buf ≡ suc (length_in s.buf - 1) =
        omega (arith, m.whole_head, length-data_in s.buf) in
      elim (Bool-cases (ret == 0)) [
        | inl nothing ↦ rw nothing (reconnect-StaysStuck fd c s k.has_socket w f m)
        | inr something ↦ rw something (
            Safe->>= ⊥
              (λ p.
                (p.calls ≡ [])
                × (p.format_error ≡ true)
                × (data_in p.rest.buf ≡ data_in s.buf)
                × IsWell p.rest)
              _ (read_messages (length_in s.buf) s) _
              (subst (λ o. Parsed o (read_messages (length_in s.buf) s))
                (ap (λ n. frames n (data_in s.buf)) long
                  ∙ frames_malformed (length_in s.buf - 1) (data_in s.buf) m)
                (read_messages-Parsed (length_in s.buf) s w))
              λ p h.
                after_parse-StaysStuck fd c p k.has_socket h.0 h.1 h.3
                  (subst IsMalformed (sym h.2) m))
      ]

  -- Where no hooks are set and every new connection is made at once: a client whose input starts with
  -- a bad head hands on nothing in a read for which bytes wait, whether the read fails, meets the end
  -- of the connection, or gives all of these bytes; it makes a new connection, and is as before. The
  -- process ends only with a class of the pool used up.
  pub do_read-StaysStuck :
      (garbage : ℕ → ℕ) (fd need : ℕ) (sys : Sys (Option (List ℕ))) (c : TcpClient C T)
      → IsStuck c
      → need ≢ 0
      → GivesAll need (retried sys)
      → Safe
          (IsExhausted c.pool)
          (StaysStuck fd)
          (do_read no_hooks (connected fd true) garbage (some need) sys c)
  unfolding do_read
  do_read-StaysStuck garbage fd need sys c k ne gives =
      Safe->>= _ _ _ (read_data garbage (some need) sys (input c)) _
        (read_data-Received garbage need sys (input c) k.in_order k.at_front ne gives)
        λ r h.
          Safe-exit _ _ _ (after_read_data no_hooks (connected fd true) c r) absurd
            (after_read_data-StaysStuck fd need (retried sys) c r k h)
