-- ===== src/Dns/Service/Sessions.antt =====
-- A connection of the DNS service: what it has asked for is what it is subscribed to.
use mathlib.Core.Path.{subst}
use lars_system.Dns.Messages.Answers.{Answers, add_hosts-Unpacks}
use lars_system.Base.{
  sym, ℕ, ◌≡◌, ◌≢◌, refl, ◌∙◌, ◌==◌, true, false, not, ◌&&◌, Option, none, some, List, [], ◌∷◌,
  contains, contains-insert, arith, Bool-cases, inl, inr, pack_key, Returns,
}
use lars_system.Dns.SubscribeList.{SubscribeList, unsubscribe}
use lars_system.Dns.SubscribeList.Subscriptions.{
  subscribed, subscribed-subscribe, subscribed-unsubscribe,
}
use lars_system.Dns.Route.{Route, get_hosts}
use lars_system.Dns.Service.{
  route_response, Session, clear_subscribe, unsubscribe_all, note_request, get_request,
}

abbrev pub Knows : Option (List ℕ) → ℕ → SubscribeList → Type 0
Knows none fd s = Unit {0}
Knows (some keys) fd s = (m : ℕ) → subscribed m fd s ≡ contains m keys

-- The session's set and the subscriptions of its client agree.
abbrev pub Agrees : Session → SubscribeList → Type 0
Agrees c s = Knows c.param c.fd s

-- No client but the session's has other subscriptions than before.
unfoldable pub OthersKeep : ℕ → SubscribeList → SubscribeList → Type 0
OthersKeep fd s s' = (f m : ℕ) → f ≢ fd → subscribed m f s' ≡ subscribed m f s

note_request-Agrees :
    (key : ℕ) (c : Session) (keys : List ℕ) (s : SubscribeList)
    → c.param ≡ some keys
    → Agrees c s
    → let r = note_request key c (some keys) s in
      Agrees r.0 r.1 × OthersKeep c.fd s r.1 × (subscribed key c.fd r.1 ≡ true)
unfolding note_request OthersKeep
note_request-Agrees key c keys s e a =
    let known : Knows (some keys) c.fd s = subst (λ o. Knows o c.fd s) e a in
    elim (Bool-cases (contains key keys)) [
      | inl old ↦ rw old (a, λ f m h. refl, known key ∙ old)
      | inr new ↦ rw new (
        λ m. ground (
          arith,
          (subscribed-subscribe key c.fd m c.fd s).0,
          contains-insert m key keys,
          known m,
        ),
        λ f m h. ground (arith, (subscribed-subscribe key c.fd m f s).0, h),
        ground (arith, (subscribed-subscribe key c.fd key c.fd s).0),
      )
    ]

subscribed-unsubscribe_all :
    (fd : ℕ) (keys : List ℕ) (m f : ℕ) (s : SubscribeList)
    → subscribed m f (unsubscribe_all fd keys s)
      ≡ (not (contains m keys && (fd == f)) && subscribed m f s)
unfolding unsubscribe_all contains
subscribed-unsubscribe_all fd [] m f s = ground arith
subscribed-unsubscribe_all fd (key ∷ keys) m f s = ground (
  arith,
  subscribed-unsubscribe_all fd keys m f (unsubscribe key fd s),
  (subscribed-unsubscribe key fd m f s).0,
)

-- A request on a connection whose set was made: the set and the subscriptions of the client still
-- agree, the module asked for is among them, no other client's subscriptions change, and the
-- response has the pair that was asked for and, unpacked, the hosts that the route has for it.
pub get_request-Agrees :
    (r : Route) (modid cmdid : ℕ) (c : Session) (keys : List ℕ) (s : SubscribeList)
    → c.param ≡ some keys
    → Agrees c s
    → let out = get_request r modid cmdid c s in
      Agrees out.1.0 out.1.1
      × OthersKeep c.fd s out.1.1
      × (subscribed (pack_key modid cmdid) c.fd out.1.1 ≡ true)
      × Answers (get_hosts r) modid cmdid out.0
unfolding get_request route_response
get_request-Agrees r modid cmdid c keys s e a =
    let noted = note_request-Agrees (pack_key modid cmdid) c keys s e a in
    subst
      (λ o.
        let p = note_request (pack_key modid cmdid) c o s in
        Agrees p.0 p.1
        × OthersKeep c.fd s p.1
        × (subscribed (pack_key modid cmdid) c.fd p.1 ≡ true)
        × Answers (get_hosts r) modid cmdid (route_response r modid cmdid))
      (sym e) (noted.0, noted.1, noted.2, (refl, refl, add_hosts-Unpacks (get_hosts r modid cmdid)))

-- When the connection ends, its client has no subscription left, and no other client's change.
pub clear_subscribe-leaves_none :
    (c : Session) (keys : List ℕ) (s : SubscribeList)
    → c.param ≡ some keys
    → Agrees c s
    → Returns
        (λ out. ((m : ℕ) → subscribed m c.fd out.1 ≡ false) × OthersKeep c.fd s out.1)
        (clear_subscribe c s)
unfolding clear_subscribe OthersKeep
clear_subscribe-leaves_none c keys s e a =
    let known : Knows (some keys) c.fd s = subst (λ o. Knows o c.fd s) e a in
    rw e (
      λ m. ground (arith, subscribed-unsubscribe_all c.fd keys m c.fd s, known m),
      λ f m h. ground (arith, subscribed-unsubscribe_all c.fd keys m f s, h),
    )
