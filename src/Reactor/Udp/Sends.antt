-- ===== src/Reactor/Udp/Sends.antt =====
-- What udp_client.cpp sends, udp_server.cpp reads; what udp_server.cpp sends is not what it was given.

use mathlib.Core.Path.{ap₂}
use lars_system.Base.{
  ℕ, ◌+◌, ◌^◌, ◌≤◌, ◌<◌, ◌≡◌, refl, sym, ap, ◌∙◌, ◌==◌, leb, ltb, Bool, true, false, some, List, [],
  ◌∷◌, ◌++◌, length, take_all, length-append, arith,
}
use lars_system.Base.Run.{done, faults}
use lars_system.Reactor.Message.{
  message_head_len, message_length_limit, MsgHead, head_bytes, Message,
}
use lars_system.Reactor.Message.Wire.{head_at-head_bytes}
use lars_system.Reactor.Udp.{
  Recv, datagram, UdpServer, stored, receive, is_wrong, do_read, client_send_message,
  server_send_message, after_sendto,
}
use lars_system.Reactor.Udp.Reads.{read_datagram, arrivals, do_read-arrivals}

-- The datagram of a message.
abbrev pub packet : Message → List ℕ
packet m = head_bytes (record { msgid = m.msgid; msglen = length m.body }) ++ m.body

-- A message that fits in a datagram.
abbrev pub Fits : Message → Type 0
Fits m = (m.msgid < 2 ^ 32) × (message_head_len + length m.body ≤ message_length_limit)

length-packet : (m : Message) → Fits m → length (packet m) ≡ message_head_len + length m.body
length-packet m (small, room) =
    length-append (head_bytes (record { msgid = m.msgid; msglen = length m.body })) m.body
    ∙ ap (λ n. n + length m.body)
        ((head_at-head_bytes (record { msgid = m.msgid; msglen = length m.body }) [] small
          (omega arith)).1)

read_datagram-packet :
    (from : ℕ) (m : Message)
    → Fits m
    → read_datagram from (packet m) ≡ record { message = m; reply_to = from } ∷ []
unfolding read_datagram is_wrong
read_datagram-packet from m (small, room) =
    let h : MsgHead = record { msgid = m.msgid; msglen = length m.body } in
    let front = head_at-head_bytes h m.body small (omega arith) in
    let n = length-packet m (small, room) in
    let long : leb message_head_len (length (packet m)) ≡ true = ground (arith, n) in
    let good : ltb message_length_limit (length m.body) ≡ false = ground arith in
    let whole : ((length m.body + message_head_len) == length (packet m)) ≡ true =
      ground (arith, n) in
    rw (long, front.0, good, whole, front.2) refl

-- A message that fits in a datagram, head and all, is sent by `udp_client` whole, and the server
-- that gets the datagram hands the message on, with the client's address for a reply, before what
-- the later datagrams bring.
pub client_send_message-do_read :
    (m : Message) (from : ℕ) (rs : List Recv) (s : UdpServer)
    → Fits m
    → (client_send_message true m.body m.msgid
        ≡ done (some (message_head_len + length m.body), some (packet m)))
      × ((do_read (datagram from (packet m) ∷ rs) s).0
          ≡ record { message = m; reply_to = from } ∷ (do_read rs (receive from (packet m) s)).0)
unfolding client_send_message after_sendto arrivals stored
client_send_message-do_read m from rs s fits =
    let n = length-packet m fits in
    let small : ltb message_length_limit (length m.body) ≡ false = ground arith in
    let room : ltb message_length_limit (message_head_len + length m.body) ≡ false = ground arith in
    (
      rw (small, room, n) refl,
      do_read-arrivals (datagram from (packet m) ∷ rs) s
          ∙ ap₂ ◌++◌
              (ap (read_datagram from) (take_all message_length_limit (packet m) (omega (arith, n)))
                ∙ read_datagram-packet from m fits)
              (sym (do_read-arrivals rs (receive from (packet m) s))),
    )

-- What `udp_server::send_message` sends does not depend on the body that it is given, only on its
-- length.
pub server_send_message_blind :
    (stack : ℕ → ℕ) (sent : Bool) (xs ys : List ℕ) (msgid : ℕ)
    → length xs ≡ length ys
    → server_send_message stack sent xs msgid ≡ server_send_message stack sent ys msgid
unfolding server_send_message
server_send_message_blind stack sent xs ys msgid e = rw e refl

-- A body of more than eight bytes, within the limit, makes it read past the pointer to the body.
pub server_send_message_faults :
    (stack : ℕ → ℕ) (sent : Bool) (xs : List ℕ) (msgid : ℕ)
    → 8 < length xs
    → length xs ≤ message_length_limit
    → server_send_message stack sent xs msgid ≡ faults
unfolding server_send_message
server_send_message_faults stack sent xs msgid long small =
    let within : ltb message_length_limit (length xs) ≡ false = ground arith in
    let past : ltb 8 (length xs) ≡ true = ground arith in rw (within, past) refl
