-- ===== src/Reactor/TcpConn/Prefixes.antt =====
-- What the framing of tcp_conn.cpp makes of the part of a stream of messages that has come in.
use mathlib.Core.List.{append_assoc}
use lars_system.Base.{
  ℕ, zero, suc, ◌+◌, ◌≤◌, ◌<◌, ◌≡◌, refl, sym, ap, ◌∙◌, ltb, leb, false, Option, some, List, [],
  ◌∷◌, ◌++◌, length, length-append, arith, Bool-cases, inl, inr,
}
use lars_system.Reactor.Message.{
  message_head_len, message_length_limit, MsgHead, head_bytes, head_at, Message,
}
use lars_system.Reactor.Message.Wire.{head_at-head_bytes}
use lars_system.Reactor.TcpConn.{is_bad_head}
use lars_system.Reactor.TcpConn.Framing.{
  Cut, before, frames, frames_short, frames_next, wire, head_of, Sendable, AllSendable,
}

-- Two ways to cut a list: the longer first part starts with the shorter one.
pub append_split {ℓ} :
    {A : Type ℓ} (xs ys p q : List A)
    → xs ++ ys ≡ p ++ q
    → length p ≤ length xs
    → (zs : List A) × (xs ≡ p ++ zs) × (zs ++ ys ≡ q)
append_split xs ys [] q e h = (xs, refl, e)
append_split [] ys (a ∷ p) q e h = absurd (omega arith)
append_split (x ∷ xs) ys (a ∷ p) q e h =
    let (zs, f, g) = append_split xs ys p q (cc e) (omega arith) in (zs, cc (e, f), g)

-- A stream of messages, of which `xs` has come in and `ys` has not: the messages that are complete,
-- the others, and the bytes of the first of them that are there.
abbrev pub Arrived : Option Cut → List Message → List ℕ → Type 0
Arrived o ms ys =
    (whole others : List Message) × (left : List ℕ) × (o
      ≡ some (record { messages = whole; is_bad = false; left = left }))
    × (ms ≡ whole ++ others)
    × (left ++ ys ≡ wire others)

frames_incomplete :
    (fuel : ℕ) (xs : List ℕ) (h : MsgHead)
    → head_at xs ≡ h
    → h.msglen ≤ message_length_limit
    → length xs < message_head_len + h.msglen
    → frames fuel xs ≡ some (record { messages = []; is_bad = false; left = xs })
unfolding frames is_bad_head
frames_incomplete zero xs h e limit part = refl
frames_incomplete (suc fuel) xs h e limit part =
    elim (Bool-cases (leb message_head_len (length xs))) [
      | inr short ↦ rw short refl
      | inl long ↦
          let good : ltb message_length_limit h.msglen ≡ false = ground arith in
          let some_missing : leb (message_head_len + h.msglen) (length xs) ≡ false = ground arith in
          rw (e, long, good, some_missing) refl
    ]

-- The first message is not there in full.
first_incomplete :
    (fuel : ℕ) (m : Message) (xs ys rest : List ℕ)
    → Sendable m
    → xs ++ ys ≡ head_bytes (head_of m) ++ (m.body ++ rest)
    → length xs < message_head_len + length m.body
    → frames fuel xs ≡ some (record { messages = []; is_bad = false; left = xs })
first_incomplete fuel m xs ys rest (small, _, limit) e part =
    elim (Bool-cases (leb message_head_len (length xs))) [
      | inr short ↦ frames_short fuel xs (ground (arith, short))
      | inl long ↦
          let n = (head_at-head_bytes (head_of m) [] small (omega arith)).1 in
          let (zs, f, _) =
            append_split xs ys (head_bytes (head_of m)) (m.body ++ rest) e
              (ground (arith, long, n)) in
          frames_incomplete fuel xs (head_of m)
            (ap head_at f ∙ (head_at-head_bytes (head_of m) zs small (omega arith)).0) limit part
    ]

-- The first message is there in full, and the framing goes on with the bytes after it.
first_whole :
    (fuel : ℕ) (m : Message) (ms : List Message) (xs ys : List ℕ)
    → Sendable m
    → xs ++ ys ≡ head_bytes (head_of m) ++ (m.body ++ wire ms)
    → message_head_len + length m.body ≤ length xs
    → length xs ≤ suc fuel
    → ((zs : List ℕ) → zs ++ ys ≡ wire ms → length zs ≤ fuel → Arrived (frames fuel zs) ms ys)
    → Arrived (frames (suc fuel) xs) (m ∷ ms) ys
first_whole fuel m ms xs ys (small, body, limit) e whole enough rest =
    let head = head_bytes (head_of m) in
    let n = (head_at-head_bytes (head_of m) [] small (omega arith)).1 in
    let k = length-append head m.body in
    let (zs, f, g) =
      append_split xs ys (head ++ m.body) (wire ms) (e ∙ sym (append_assoc head m.body (wire ms)))
        (omega (arith, n, k)) in
    let (done, others, left, cut, all, more) =
      rest zs g (omega (arith, ap length f, length-append (head ++ m.body) zs, n, k)) in
    (
      m ∷ done,
      others,
      left,
      ap (frames (suc fuel)) (f ∙ append_assoc head m.body zs)
          ∙ frames_next fuel m zs (small, body, limit)
          ∙ ap (before m) cut,
      ap (λ l. m ∷ l) all,
      more,
    )

-- Of a stream of sendable messages, the framing cuts off those that are there in full, finds no bad
-- head, and leaves a part of the next one.
pub frames-Arrived :
    (fuel : ℕ) (ms : List Message) (xs ys : List ℕ)
    → AllSendable ms
    → xs ++ ys ≡ wire ms
    → length xs ≤ fuel
    → Arrived (frames fuel xs) ms ys
unfolding wire
frames-Arrived fuel [] xs ys a e enough =
    let nothing : length xs ≡ 0 = omega (arith, ap length e, length-append xs ys) in
    ([], [], xs, frames_short fuel xs (omega arith), refl, e)
frames-Arrived zero (m ∷ ms) xs ys (a, others) e enough =
    ([], m ∷ ms, xs, first_incomplete zero m xs ys (wire ms) a e (omega arith), refl, e)
frames-Arrived (suc fuel) (m ∷ ms) xs ys (a, others) e enough =
    elim (Bool-cases (leb (message_head_len + length m.body) (length xs))) [
      | inr part ↦ (
        [],
        m ∷ ms,
        xs,
        first_incomplete (suc fuel) m xs ys (wire ms) a e (ground (arith, part)),
        refl,
        e,
      )
      | inl whole ↦
          first_whole fuel m ms xs ys a e (ground (arith, whole)) enough
            (λ zs g n. frames-Arrived fuel ms zs ys others g n)
    ]
