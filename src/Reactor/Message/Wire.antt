-- ===== src/Reactor/Message/Wire.antt =====
-- Heads of messages go through the wire unchanged, and the router keeps its first entries.
use mathlib.Core.Path.{ap₂}
use lars_system.Base.{
  ◌≢◌, ℕ, ◌^◌, ◌<◌, ◌≡◌, refl, ◌==◌, true, false, if◌then◌else◌, none, some, List, ◌++◌, length,
  drop, lookup, lookup-put, arith, Option-cases, inl, inr,
}
use lars_system.Reactor.Message.{
  MsgHead, int_bytes, int_at, head_bytes, head_at, regist_msg_router, call,
}

int_at-int_bytes : (n : ℕ) → n < 2 ^ 32 → int_at (int_bytes n) ≡ n
unfolding int_at int_bytes
int_at-int_bytes n h = omega arith

pub int_at-append : (n : ℕ) (xs : List ℕ) → n < 2 ^ 32 → int_at (int_bytes n ++ xs) ≡ n
unfolding int_at int_bytes
int_at-append n xs h = omega arith

-- The head that was put before some data is the head that is read.
pub head_at-head_bytes :
    (h : MsgHead) (xs : List ℕ)
    → h.msgid < 2 ^ 32
    → h.msglen < 2 ^ 32
    → (head_at (head_bytes h ++ xs) ≡ h)
      × (length (head_bytes h) ≡ 8)
      × (drop 8 (head_bytes h ++ xs) ≡ xs)
unfolding head_at head_bytes int_at int_bytes
head_at-head_bytes h xs a b = (
  ap₂ (λ i l. record { msgid = i; msglen = l }) (int_at-int_bytes h.msgid a)
      (int_at-int_bytes h.msglen b),
  refl,
  refl,
)

module _ {ℓ} {F : Type ℓ} where
  -- The first registration of a kind counts; every other kind keeps its function.
  pub call-regist_msg_router :
      (msgid : ℕ) (f : F) (router : List (ℕ × F)) (k : ℕ)
      → let r = regist_msg_router msgid f router in
        (r.0 ≡ true → call k r.1 ≡ (if msgid == k then some f else call k router))
        × (r.0 ≡ false → (call k r.1 ≡ call k router) × (call msgid router ≢ none))
  unfolding regist_msg_router call
  call-regist_msg_router msgid f router k = elim (Option-cases (lookup msgid router)) [
    | inl e ↦ rw e (λ t. lookup-put msgid k f router, λ t. absurd (ground arith))
    | inr (g, e) ↦ rw e (λ t. absurd (ground arith), λ t. (refl, ground arith))
  ]
