-- ===== src/Reactor/Message.antt =====
-- message.h: the head of a message on the wire, two `int` fields of four bytes each, least byte first
-- as on the machines the library is built for; and the router, which calls the function that was
-- registered for the kind of a message.
pub mod Wire
use lars_system.Base.{
  ℕ, ◌+◌, ◌-◌, ◌*◌, ◌/◌, ◌%◌, ◌^◌, ◌≡◌, Bool, true, false, if◌then◌else◌, Option, none, some, List,
  [], ◌∷◌, ◌++◌, length, lookup, put, is_some,
}

abbrev pub message_head_len : ℕ
message_head_len = 8

abbrev pub message_length_limit : ℕ
message_length_limit = 65535 - message_head_len

-- The bytes of an `int`, and the `int` at the start of some bytes.
unfoldable pub int_bytes : ℕ → List ℕ
int_bytes n = n % 256 ∷ n / 256 % 256 ∷ n / 65536 % 256 ∷ n / 16777216 % 256 ∷ []

unfoldable pub int_at : List ℕ → ℕ
int_at (a ∷ b ∷ c ∷ d ∷ _) = a + 256 * b + 65536 * c + 16777216 * d
int_at _ = 0

pub record MsgHead : Type 0 where
  pub msgid : ℕ
  pub msglen : ℕ

unfoldable pub head_bytes : MsgHead → List ℕ
unfolding int_bytes
head_bytes h = int_bytes h.msgid ++ int_bytes h.msglen

-- The head that `memcpy` reads from the start of the data.
unfoldable pub head_at : List ℕ → MsgHead
unfolding int_at
head_at (a ∷ b ∷ c ∷ d ∷ rest) = record {
  msgid = int_at (a ∷ b ∷ c ∷ d ∷ []);
  msglen = int_at rest;
}
head_at _ = record { msgid = 0; msglen = 0 }

-- A message as it is handed to its function.
pub record Message : Type 0 where
  pub msgid : ℕ
  pub body : List ℕ

module _ {ℓ} {F : Type ℓ} where
  -- The router has the functions and their arguments, by kind. False for -1: a kind that has a
  -- function keeps it.
  unfoldable pub regist_msg_router : ℕ → F → List (ℕ × F) → Bool × List (ℕ × F)
  regist_msg_router msgid f router =
      if is_some (lookup msgid router) then (false, router) else (true, put msgid f router)

  -- The function that `call` calls, if there is one.
  unfoldable pub call : ℕ → List (ℕ × F) → Option F
  call msgid router = lookup msgid router
