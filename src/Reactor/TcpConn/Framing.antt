-- ===== src/Reactor/TcpConn/Framing.antt =====
-- How tcp_conn.cpp cuts the bytes of a connection into messages, on the bytes alone.
use mathlib.Core.Path.{ap₂}
use mathlib.Core.List.{append_assoc}
use lars_system.Base.{
  ℕ, zero, suc, ◌+◌, ◌^◌, ◌≤◌, ◌<◌, ◌≡◌, ◌≢◌, refl, ap, ◌∙◌, ◌==◌, ltb, leb, ◌&&◌, Bool, true,
  false, if◌then◌else◌, Option, none, some, List, [], ◌∷◌, ◌++◌, length, take, drop,
  take-append_left, drop-append_left, length-append, arith,
}
use lars_system.Reactor.Message.{
  message_head_len, message_length_limit, MsgHead, head_bytes, head_at, Message,
}
use lars_system.Reactor.Message.Wire.{head_at-head_bytes}
use lars_system.Reactor.TcpConn.{is_bad_head}

-- The messages, whether a head was bad, and the bytes that are left.
pub record Cut : Type 0 where
  pub messages : List Message
  pub is_bad : Bool
  pub left : List ℕ

-- A message before the others; no result for the rest is no result.
abbrev pub before : Message → Option Cut → Option Cut
before m none = none
before m (some c) = some (record c { messages = m ∷ c.messages })

-- Complete messages are cut off until fewer bytes are left than the next one needs, or a length is
-- out of its bounds. `none`: a message without a body ends the bytes.
unfoldable pub frames : ℕ → List ℕ → Option Cut
unfolding is_bad_head
frames zero xs = some (record { messages = []; is_bad = false; left = xs })
frames (suc fuel) xs =
    let h = head_at xs in
    if leb message_head_len (length xs)
    then if is_bad_head h
      then some (record { messages = []; is_bad = true; left = xs })
      else if leb (message_head_len + h.msglen) (length xs)
      then if (h.msglen == 0) && (length xs == message_head_len)
        then none
        else before (record { msgid = h.msgid; body = take h.msglen (drop message_head_len xs) })
            (frames fuel (drop h.msglen (drop message_head_len xs)))
      else some (record { messages = []; is_bad = false; left = xs })
    else some (record { messages = []; is_bad = false; left = xs })

abbrev pub head_of : Message → MsgHead
head_of m = record { msgid = m.msgid; msglen = length m.body }

-- Messages as they are sent, one after the other.
unfoldable pub wire : List Message → List ℕ
wire [] = []
wire (m ∷ ms) = head_bytes (head_of m) ++ (m.body ++ wire ms)

-- A message that is sent and read without loss.
abbrev pub Sendable : Message → Type 0
Sendable m = (m.msgid < 2 ^ 32) × (m.body ≢ []) × (length m.body ≤ message_length_limit)

abbrev pub AllSendable : List Message → Type 0
AllSendable [] = Unit {0}
AllSendable (m ∷ ms) = Sendable m × AllSendable ms

pub frames_short :
    (fuel : ℕ) (xs : List ℕ)
    → length xs < message_head_len
    → frames fuel xs ≡ some (record { messages = []; is_bad = false; left = xs })
unfolding frames
frames_short zero xs h = refl
frames_short (suc fuel) xs h =
    let short : leb message_head_len (length xs) ≡ false = ground arith in rw short refl

frames_cut :
    (fuel : ℕ) (ys : List ℕ) (h : MsgHead)
    → head_at ys ≡ h
    → h.msglen ≤ message_length_limit
    → message_head_len + h.msglen ≤ length ys
    → h.msglen ≢ 0
    → frames (suc fuel) ys
      ≡ before
          (record { msgid = h.msgid; body = take h.msglen (drop message_head_len ys) })
          (frames fuel (drop h.msglen (drop message_head_len ys)))
unfolding frames is_bad_head
frames_cut fuel ys h e limit complete body =
    let has_head : leb message_head_len (length ys) ≡ true = ground arith in
    let good : ltb message_length_limit h.msglen ≡ false = ground arith in
    let all : leb (message_head_len + h.msglen) (length ys) ≡ true = ground arith in
    let some_body : ((h.msglen == 0) && (length ys == message_head_len)) ≡ false = ground arith in
    rw (e, has_head, good, all, some_body) refl

pub frames_next :
    (fuel : ℕ) (m : Message) (xs : List ℕ)
    → Sendable m
    → frames (suc fuel) (head_bytes (head_of m) ++ (m.body ++ xs)) ≡ before m (frames fuel xs)
frames_next fuel m xs (small, body, limit) =
    let ys : List ℕ = m.body ++ xs in
    let front = head_at-head_bytes (head_of m) ys small (omega arith) in
    let total =
      length-append (head_bytes (head_of m)) ys ∙ ap₂ ◌+◌ front.1 (length-append m.body xs) in
    frames_cut fuel (head_bytes (head_of m) ++ ys) (head_of m) front.0 limit (omega (arith, total))
      (λ e. body (ground (arith, e)))
    ∙ rw (front.2, take-append_left m.body xs, drop-append_left m.body xs) refl

-- Messages with bodies within the limit, followed by less than a head, are cut into just these
-- messages, and the rest is left; as much fuel as there are messages is enough.
pub frames-wire :
    (fuel : ℕ) (ms : List Message) (rest : List ℕ)
    → AllSendable ms
    → length rest < message_head_len
    → length ms ≤ fuel
    → frames fuel (wire ms ++ rest) ≡ some (record { messages = ms; is_bad = false; left = rest })
unfolding wire
frames-wire fuel [] rest a short enough = frames_short fuel rest short
frames-wire zero (m ∷ ms) rest a short enough = absurd (omega arith)
frames-wire (suc fuel) (m ∷ ms) rest (a, others) short enough =
    ap (λ ys. frames (suc fuel) ys)
      (append_assoc (head_bytes (head_of m)) (m.body ++ wire ms) rest
        ∙ ap (λ ys. head_bytes (head_of m) ++ ys) (append_assoc m.body (wire ms) rest))
    ∙ frames_next fuel m (wire ms ++ rest) a
    ∙ ap (before m) (frames-wire fuel ms rest others short (omega arith))
