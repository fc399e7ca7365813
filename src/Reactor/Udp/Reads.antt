-- ===== src/Reactor/Udp/Reads.antt =====
-- `do_read` of udp_server.cpp and udp_client.cpp against the datagrams alone: what an earlier
-- datagram left in the buffer is never handed on.
use lars_system.Base.{
  ℕ, ◌+◌, ◌-◌, ◌≤◌, ◌<◌, ◌≡◌, refl, sym, ap, ◌∙◌, leb, ◌&&◌, not, true, false, if◌then◌else◌, List,
  [], ◌∷◌, ◌++◌, length, drop, arith, Bool-cases, inl, inr,
}
use lars_system.Reactor.IoBuf.{poke, bytes}
use lars_system.Reactor.IoBuf.Bytes.{bytes-add, bytes-poke_at, drop-bytes}
use lars_system.Reactor.Message.{message_head_len, MsgHead, head_at, int_at}
use lars_system.Reactor.Udp.{
  Recv, interrupted, again, failed, datagram, UdpServer, Delivery, stored, receive, is_wrong,
  deliver_body, deliver, do_read,
}

-- The message that a datagram is, if it is one: there is a head, and its length is that of the rest.
unfoldable pub read_datagram : ℕ → List ℕ → List Delivery
unfolding is_wrong head_at
read_datagram from xs =
    if leb message_head_len (length xs) && not (is_wrong (head_at xs) (length xs))
    then record {
      message = record { msgid = (head_at xs).msgid; body = drop message_head_len xs };
      reply_to = from;
    }
      ∷ []
    else []

-- The messages of the datagrams up to the first EAGAIN or error.
unfoldable pub arrivals : List Recv → List Delivery
unfolding read_datagram stored
arrivals [] = []
arrivals (interrupted ∷ rs) = arrivals rs
arrivals (again ∷ rs) = []
arrivals (failed ∷ rs) = []
arrivals (datagram from xs ∷ rs) = read_datagram from (stored xs) ++ arrivals rs

head_at-bytes-append :
    (f : ℕ → ℕ) (xs : List ℕ) → head_at (bytes f 0 8 ++ xs) ≡ head_at (bytes f 0 8)
unfolding head_at int_at bytes
head_at-bytes-append f xs = refl

-- A datagram that is longer than a head is in the buffer from the start on.
head_at-poke :
    (f : ℕ → ℕ) (xs : List ℕ)
    → message_head_len ≤ length xs
    → head_at (bytes (poke f 0 xs) 0 8) ≡ head_at xs
head_at-poke f xs h =
    let g = poke f 0 xs in
    let n : 8 + (length xs - 8) ≡ length xs = omega arith in
    sym (head_at-bytes-append g (bytes g 8 (length xs - 8)))
    ∙ ap head_at (sym (bytes-add g 0 8 (length xs - 8)) ∙ ap (bytes g 0) n ∙ bytes-poke_at f 0 xs)

body-poke :
    (f : ℕ → ℕ) (xs : List ℕ) (n : ℕ)
    → n + message_head_len ≡ length xs
    → bytes (poke f 0 xs) 8 n ≡ drop 8 xs
body-poke f xs n e =
    let m : length xs - 8 ≡ n = omega arith in
    ap (bytes (poke f 0 xs) 8) (sym m)
    ∙ sym (drop-bytes (poke f 0 xs) 0 (length xs) 8 (omega arith))
    ∙ ap (drop 8) (bytes-poke_at f 0 xs)

right_length : (h : MsgHead) (n : ℕ) → is_wrong h n ≡ false → h.msglen + message_head_len ≡ n
unfolding is_wrong
right_length h n e = ground (arith, e)

deliver-head :
    (s : UdpServer) (n : ℕ) → deliver s n ≡ deliver_body (head_at (bytes s.read_buf 0 8)) s n
unfolding deliver
deliver-head s n = refl

-- With the right head at hand, the body is the rest of the datagram.
deliver_body-read_datagram :
    (from : ℕ) (ys : List ℕ) (f : ℕ → ℕ)
    → message_head_len ≤ length ys
    → deliver_body (head_at ys) (record { read_buf = poke f 0 ys; cli_addr = from }) (length ys)
      ≡ read_datagram from ys
unfolding deliver_body read_datagram
deliver_body-read_datagram from ys f h =
    let long : leb message_head_len (length ys) ≡ true = ground arith in
    elim (Bool-cases (is_wrong (head_at ys) (length ys))) [
      | inl wrong ↦ rw (wrong, long) refl
      | inr right ↦
          let e =
            body-poke f ys (head_at ys).msglen (right_length (head_at ys) (length ys) right) in
          rw (right, long, e) refl
    ]

-- No head fits a datagram that is shorter than one.
deliver_body_short :
    (h : MsgHead) (from : ℕ) (ys : List ℕ) (s : UdpServer)
    → length ys < message_head_len
    → deliver_body h s (length ys) ≡ read_datagram from ys
unfolding deliver_body read_datagram
deliver_body_short h from ys s short =
    let no_head : leb message_head_len (length ys) ≡ false = ground arith in
    elim (Bool-cases (is_wrong h (length ys))) [
      | inl wrong ↦ rw (wrong, no_head) refl
      | inr right ↦ absurd (omega (arith, right_length h (length ys) right))
    ]

deliver-read_datagram :
    (from : ℕ) (ys : List ℕ) (f : ℕ → ℕ)
    → deliver (record { read_buf = poke f 0 ys; cli_addr = from }) (length ys)
      ≡ read_datagram from ys
deliver-read_datagram from ys f =
    let s : UdpServer = record { read_buf = poke f 0 ys; cli_addr = from } in
    deliver-head s (length ys) ∙ elim (Bool-cases (leb message_head_len (length ys))) [
      | inl long ↦
          ap (λ h. deliver_body h s (length ys)) (head_at-poke f ys (ground (arith, long)))
          ∙ deliver_body-read_datagram from ys f (ground (arith, long))
      | inr short ↦
          deliver_body_short (head_at (bytes s.read_buf 0 8)) from ys s (ground (arith, short))
    ]

deliver-receive :
    (from : ℕ) (xs : List ℕ) (s : UdpServer)
    → deliver (receive from xs s) (length (stored xs)) ≡ read_datagram from (stored xs)
unfolding receive
deliver-receive from xs s = deliver-read_datagram from (stored xs) s.read_buf

-- Whatever the buffer holds from earlier datagrams, `do_read` hands on the messages of the datagrams
-- that it gets before it meets EAGAIN or an error, in order, each with the address it came from for
-- a reply; a datagram that is no message, or is shorter than a head, is passed over.
pub do_read-arrivals : (rs : List Recv) (s : UdpServer) → (do_read rs s).0 ≡ arrivals rs
unfolding do_read arrivals
do_read-arrivals [] s = refl
do_read-arrivals (interrupted ∷ rs) s = do_read-arrivals rs s
do_read-arrivals (again ∷ rs) s = refl
do_read-arrivals (failed ∷ rs) s = refl
do_read-arrivals (datagram from xs ∷ rs) s =
    rw (deliver-receive from xs s, do_read-arrivals rs (receive from xs s)) refl
