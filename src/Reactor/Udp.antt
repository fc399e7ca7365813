-- ===== src/Reactor/Udp.antt =====
-- udp_server.cpp, udp_client.cpp and their headers: one message in a datagram. The sockets are
-- arguments: what `recvfrom` gives, and whether `sendto` succeeds. An address is a number. The
-- buffers of both classes have as many bytes as the limit of a message.
pub mod Reads
pub mod Sends
use lars_system.Base.{
  ℕ, suc, ◌+◌, ◌==◌, ltb, ◌||◌, not, Bool, true, false, if◌then◌else◌, Option, none, some, List, [],
  ◌∷◌, ◌++◌, length, take,
}
use lars_system.Base.Run.{Run, done, faults}
use lars_system.Reactor.IoBuf.{poke, bytes}
use lars_system.Reactor.Message.{
  message_head_len, message_length_limit, MsgHead, head_bytes, head_at, Message,
}

-- What one `recvfrom` comes to: a signal, no datagram yet, another error, or a datagram with the
-- address that it came from.
pub data Recv : Type 0 where
  interrupted : Recv
  again : Recv
  failed : Recv
  datagram : ℕ → List ℕ → Recv

-- `_read_buf` with what is left in it of earlier datagrams, and `_cli_addr`. The client has no
-- `_cli_addr`, since its socket is connected.
pub record UdpServer : Type 0 where
  pub read_buf : ℕ → ℕ
  pub cli_addr : ℕ

-- A call of the router, and the address that a reply of the callback goes to.
pub record Delivery : Type 0 where
  pub message : Message
  pub reply_to : ℕ

-- The bytes that `recvfrom` stores: a longer datagram is cut.
unfoldable pub stored : List ℕ → List ℕ
stored xs = take message_length_limit xs

unfoldable pub receive : ℕ → List ℕ → UdpServer → UdpServer
unfolding stored poke
receive from xs s = record { read_buf = poke s.read_buf 0 (stored xs); cli_addr = from }

-- The test on the head and on the length of the datagram. A negative `msglen` is, as a pattern,
-- above the limit.
unfoldable pub is_wrong : MsgHead → ℕ → Bool
is_wrong h pkg_len =
    ltb message_length_limit h.msglen || not ((h.msglen + message_head_len) == pkg_len)

-- What is handed on of a datagram in the buffer, which has this head.
unfoldable pub deliver_body : MsgHead → UdpServer → ℕ → List Delivery
unfolding bytes is_wrong
deliver_body h s pkg_len =
    if is_wrong h pkg_len
    then []
    else record {
      message = record { msgid = h.msgid; body = bytes s.read_buf message_head_len h.msglen };
      reply_to = s.cli_addr;
    }
      ∷ []

unfoldable pub deliver : UdpServer → ℕ → List Delivery
unfolding head_at bytes deliver_body
deliver s pkg_len = deliver_body (head_at (bytes s.read_buf 0 message_head_len)) s pkg_len

-- `do_read`, over what the calls of `recvfrom` give; a call beyond them meets EAGAIN.
unfoldable pub do_read : List Recv → UdpServer → List Delivery × UdpServer
unfolding receive deliver stored
do_read [] s = ([], s)
do_read (interrupted ∷ rs) s = do_read rs s
do_read (again ∷ rs) s = ([], s)
do_read (failed ∷ rs) s = ([], s)
do_read (datagram from xs ∷ rs) s =
    let s' = receive from xs s in
    let rest = do_read rs s' in (deliver s' (length (stored xs)) ++ rest.0, rest.1)

-- The return value, with `none` for -1, and the datagram that was sent, if one was.
abbrev pub Outcome : Type 0
Outcome = Option ℕ × Option (List ℕ)

unfoldable pub after_sendto : Bool → List ℕ → Outcome
after_sendto true xs = (some (length xs), some xs)
after_sendto false xs = (none, none)

-- `udp_client::send_message`. A body that leaves no place for the head in `_write_buf` is within the
-- limit, and is written past the end of the buffer.
unfoldable pub client_send_message : Bool → List ℕ → ℕ → Run Outcome
unfolding after_sendto head_bytes
client_send_message sent xs msgid =
    if ltb message_length_limit (length xs)
    then done (none, none)
    else if ltb message_length_limit (message_head_len + length xs)
    then faults
    else done (after_sendto sent (head_bytes (record { msgid = msgid; msglen = length xs }) ++ xs))

-- `udp_server::send_message` copies from `&data`, the variable that holds the pointer: `stack` is the
-- memory there, of which the first eight bytes are the pointer. A longer body is read past the
-- variable.
unfoldable pub server_send_message : (ℕ → ℕ) → Bool → List ℕ → ℕ → Run Outcome
unfolding after_sendto head_bytes bytes
server_send_message stack sent xs msgid =
    if ltb message_length_limit (length xs)
    then done (none, none)
    else if ltb 8 (length xs) || ltb message_length_limit (message_head_len + length xs)
    then faults
    else done (
        after_sendto sent
          (head_bytes (record { msgid = msgid; msglen = length xs }) ++ bytes stack 0 (length xs)))
