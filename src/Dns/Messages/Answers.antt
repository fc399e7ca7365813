-- ===== src/Dns/Messages/Answers.antt =====
-- What a response of the DNS service has to say, without the code that makes it.
use mathlib.Core.Path.{subst}
use lars_system.Base.{
  ℕ, ◌≡◌, refl, ◌∙◌, ◌/◌, ◌%◌, ◌^◌, ◌<◌, List, [], ◌∷◌, key_high, key_low, pack_key,
  key_high-pack_key, key_low-pack_key, ltb, true, arith,
}
use lars_system.Dns.Messages.{HostAddr, GetRouteResponse, add_hosts}

-- Each host has the address and the port that stand in the halves of a number, in order.
abbrev pub Unpacks : List ℕ → List HostAddr → Type 0
Unpacks [] [] = Unit {0}
Unpacks [] (h ∷ hs) = ⊥
Unpacks (x ∷ xs) [] = ⊥
Unpacks (x ∷ xs) (h ∷ hs) = (h.ip ≡ x / 2 ^ 32 % 2 ^ 32) × (h.port ≡ x % 2 ^ 32) × Unpacks xs hs

-- The response is about this pair, with these hosts.
abbrev pub Answers : (ℕ → ℕ → List ℕ) → ℕ → ℕ → GetRouteResponse → Type 0
Answers get_hosts modid cmdid r =
    (r.modid ≡ modid) × (r.cmdid ≡ cmdid) × Unpacks (get_hosts modid cmdid) r.host

-- The response is about the pair whose numbers are the halves of the key.
abbrev pub Tells : (ℕ → ℕ → List ℕ) → ℕ → GetRouteResponse → Type 0
Tells get_hosts key r = Answers get_hosts (key / 2 ^ 32 % 2 ^ 32) (key % 2 ^ 32) r

pub add_hosts-Unpacks : (xs : List ℕ) → Unpacks xs (add_hosts xs)
unfolding add_hosts key_high key_low
add_hosts-Unpacks [] = tt
add_hosts-Unpacks (x ∷ xs) = (refl, refl, add_hosts-Unpacks xs)

-- The halves of the key of a pair are its numbers, if the second is not negative.
pub Tells-Answers :
    (get_hosts : ℕ → ℕ → List ℕ) (modid cmdid : ℕ) (r : GetRouteResponse)
    → modid < 2 ^ 32
    → cmdid < 2 ^ 31
    → Tells get_hosts (pack_key modid cmdid) r
    → Answers get_hosts modid cmdid r
unfolding key_high key_low
Tells-Answers get_hosts modid cmdid r a b t =
    let positive : ltb cmdid (2 ^ 31) ≡ true = ground arith in
    let high : pack_key modid cmdid / 2 ^ 32 % 2 ^ 32 ≡ modid =
      key_high-pack_key modid cmdid a (omega arith) ∙ rw positive refl in
    let low : pack_key modid cmdid % 2 ^ 32 ≡ cmdid =
      key_low-pack_key modid cmdid a (omega arith) in
    subst (λ n. Answers get_hosts n cmdid r) high
      (subst (λ n. Answers get_hosts (pack_key modid cmdid / 2 ^ 32 % 2 ^ 32) n r) low t)
