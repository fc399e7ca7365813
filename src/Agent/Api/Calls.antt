-- ===== src/Agent/Api/Calls.antt =====
-- A call of the API and its answer by the agent belong together.
use lars_system.Base.{
  is_nil, lookup, pack_key, ℕ, ◌<◌, ◌≡◌, refl, ◌∙◌, ◌==◌, true, if◌then◌else◌, Option, none, some,
  List, [], ◌∷◌, ◌++◌, ◌>>=◌, inc32, arith, Bool-cases, Option-cases, inl, inr, Returns,
  Returns->>=,
}
use lars_system.Base.Int.{ℤ}
use lars_system.Agent.Messages.{GetHostResponse}
use lars_system.Agent.HostInfo.{Config}
use lars_system.Agent.LoadBalance.{
  Heap, Ptr, empty, probe_due, reset_access, count_access, LoadBalance, get_host_from_list,
  take_idle, take_overloaded, choose_overloaded, choose_mixed, choice_one_host, succeed,
}
use lars_system.Agent.RouteLb.{is_pulling, RouteLb, get_host, get_host_known, get_host_new}
use lars_system.Agent.RouteLb.Invariant.{AllReady, get_host-AllReady}
use lars_system.Agent.Api.{
  GetHostRequest, Receipt, response, await_response, is_for, read_response, host_or_default,
  api_get_host, get_host_cb,
}

-- Responses to earlier calls.
abbrev pub AllOlder : ℕ → List GetHostResponse → Type 0
AllOlder seq [] = Unit {0}
AllOlder seq (r ∷ rs) = (r.seq < seq) × AllOlder seq rs

unfoldable pub responses : List GetHostResponse → List Receipt
responses [] = []
responses (r ∷ rs) = response r ∷ responses rs

await_response-older :
    (seq : ℕ) (old : List GetHostResponse) (rsp : GetHostResponse) (more : List Receipt)
    → AllOlder seq old
    → rsp.seq ≡ seq
    → await_response seq (responses old ++ response rsp ∷ more) ≡ some (some rsp)
unfolding await_response responses
await_response-older seq [] rsp more h e = ground arith
await_response-older seq (r ∷ old) rsp more (h, hs) e =
    ground (arith, await_response-older seq old rsp more hs e)

-- A call passes over the responses to earlier calls, and takes the code and the host of the one that
-- is for it, whatever comes after that.
pub api_get_host-answered :
    (modid cmdid seqid : ℕ) (old : List GetHostResponse) (rsp : GetHostResponse)
    (more : List Receipt)
    → AllOlder seqid old
    → is_for (record { seq = seqid; modid = modid; cmdid = cmdid }) rsp ≡ true
    → api_get_host modid cmdid true (responses old ++ response rsp ∷ more) seqid
      ≡ some (
        (rsp.retcode, if rsp.retcode == 0 then some (host_or_default rsp.host) else none),
        inc32 seqid,
      )
unfolding api_get_host read_response is_for
api_get_host-answered modid cmdid seqid old rsp more older mine =
    rw (await_response-older seqid old rsp more older (ground (arith, mine))) (ground (arith, mine))

-- The fields that tell which call a response is for.
SameCall : GetHostResponse → GetHostResponse → Type 0
SameCall rsp rsp' = (rsp'.seq ≡ rsp.seq) × (rsp'.modid ≡ rsp.modid) × (rsp'.cmdid ≡ rsp.cmdid)

-- If the step succeeds, its result has the property.
abbrev Always {ℓ} : {A : Type ℓ} → (A → Type 0) → Option A → Type 0
Always P none = Unit {0}
Always P (some a) = P a

Always->>= {ℓ κ} :
    {A : Type ℓ} {B : Type κ} {P : A → Type 0} (Q : B → Type 0) (m : Option A) (f : A → Option B)
    → Always P m
    → ((a : A) → P a → Always Q (f a))
    → Always Q (m >>= f)
Always->>= Q none f h k = tt
Always->>= Q (some a) f h k = k a h

get_host_from_list-SameCall :
    (heap : Heap) (rsp : GetHostResponse) (l : List Ptr)
    → Always (λ r. SameCall rsp r.0) (get_host_from_list heap rsp l)
unfolding get_host_from_list SameCall
get_host_from_list-SameCall heap rsp [] = tt
get_host_from_list-SameCall heap rsp (p ∷ l) = elim (Option-cases (heap p)) [
  | inl e ↦ rw e tt
  | inr (hi, e) ↦ rw e (refl, refl, refl)
]

take_idle-SameCall :
    (lb : LoadBalance) (rsp : GetHostResponse) → Always (λ r. SameCall rsp r.1) (take_idle lb rsp)
unfolding take_idle
take_idle-SameCall lb rsp =
    Always->>= _ (get_host_from_list lb.heap rsp lb.idle_list) _
      (get_host_from_list-SameCall lb.heap rsp lb.idle_list) λ r h. h

take_overloaded-SameCall :
    (lb : LoadBalance) (rsp : GetHostResponse)
    → Always (λ r. SameCall rsp r.1) (take_overloaded lb rsp)
unfolding take_overloaded
take_overloaded-SameCall lb rsp =
    Always->>= _ (get_host_from_list lb.heap rsp lb.overload_list) _
      (get_host_from_list-SameCall lb.heap rsp lb.overload_list) λ r h. h

choose_overloaded-SameCall :
    (cfg : Config) (lb : LoadBalance) (rsp : GetHostResponse)
    → Always (λ r. SameCall rsp r.2) (choose_overloaded cfg lb rsp)
unfolding choose_overloaded SameCall
choose_overloaded-SameCall cfg lb rsp = elim (Bool-cases (probe_due cfg lb)) [
  | inl e ↦ rw e (
      Always->>= _ (take_overloaded (reset_access lb) rsp) _
        (take_overloaded-SameCall (reset_access lb) rsp) λ r h. h)
  | inr e ↦ rw e (refl, refl, refl)
]

choose_mixed-SameCall :
    (cfg : Config) (lb : LoadBalance) (rsp : GetHostResponse)
    → Always (λ r. SameCall rsp r.2) (choose_mixed cfg lb rsp)
unfolding choose_mixed SameCall
choose_mixed-SameCall cfg lb rsp = elim (Bool-cases (probe_due cfg lb)) [
  | inl e ↦ rw e (
      Always->>= _ (take_overloaded (reset_access lb) rsp) _
        (take_overloaded-SameCall (reset_access lb) rsp) (second rsp))
  | inr e ↦ rw e (
      Always->>= _ (take_idle (count_access lb) rsp) _ (take_idle-SameCall (count_access lb) rsp)
        (second rsp))
]
  where
    second :
        (rsp : GetHostResponse) (r : LoadBalance × GetHostResponse)
        → SameCall rsp r.1
        → Always (λ a. SameCall rsp a.2) (take_idle r.0 r.1 >>= succeed)
    second rsp r h =
        Always->>= _ (take_idle r.0 r.1) succeed (take_idle-SameCall r.0 r.1)
          λ q k. (k.0 ∙ h.0, k.1 ∙ h.1, k.2 ∙ h.2)

choice_one_host-SameCall :
    (cfg : Config) (lb : LoadBalance) (rsp : GetHostResponse)
    → Always (λ r. SameCall rsp r.2) (choice_one_host cfg lb rsp)
unfolding choice_one_host
choice_one_host-SameCall cfg lb rsp = elim (Bool-cases (is_nil lb.idle_list)) [
  | inl e ↦ rw e (choose_overloaded-SameCall cfg lb rsp)
  | inr e ↦ elim (Bool-cases (is_nil lb.overload_list)) [
    | inl o ↦
        rw (e, o) (Always->>= _ (take_idle lb rsp) succeed (take_idle-SameCall lb rsp) λ r h. h)
    | inr o ↦ rw (e, o) (choose_mixed-SameCall cfg lb rsp)
  ]
]

get_host_known-SameCall :
    (cfg : Config) (key : ℕ) (lb : LoadBalance) (s : RouteLb) (rsp : GetHostResponse)
    → Always (λ r. SameCall rsp r.2) (get_host_known cfg key lb s rsp)
unfolding get_host_known SameCall
get_host_known-SameCall cfg key lb s rsp = elim (Bool-cases (empty lb)) [
  | inl e ↦ elim (Bool-cases (is_pulling lb.status)) [
    | inl p ↦ rw (e, p) (refl, refl, refl)
    | inr p ↦ rw (e, p) tt
  ]
  | inr e ↦
      rw e
        (Always->>= _ (choice_one_host cfg lb rsp) _ (choice_one_host-SameCall cfg lb rsp) λ r h. h)
]

get_host-SameCall :
    (cfg : Config) (garbage : ℤ) (modid cmdid : ℕ) (s : RouteLb) (rsp : GetHostResponse)
    → Always (λ r. SameCall rsp r.2) (get_host cfg garbage modid cmdid s rsp)
unfolding get_host get_host_new SameCall
get_host-SameCall cfg garbage modid cmdid s rsp =
    elim (Option-cases (lookup (pack_key modid cmdid) s.route_lb_map)) [
      | inl e ↦ rw (e, Always, get_host) (refl, refl, refl)
      | inr (lb, e) ↦
          rw (e, Always, get_host) (get_host_known-SameCall cfg (pack_key modid cmdid) lb s rsp)
    ]

Always-Returns {ℓ} :
    {A : Type ℓ} (P Q R : A → Type 0) (m : Option A)
    → Always P m
    → Returns Q m
    → ((a : A) → P a → Q a → R a)
    → Returns R m
Always-Returns P Q R none h k f = k
Always-Returns P Q R (some a) h k f = f a h k

-- On a table of sound load balancers the agent answers every request, the response is for the call
-- that made the request, and the table stays one.
pub get_host_cb-answers :
    (cfg : Config) (garbage : ℤ) (req : GetHostRequest) (s : RouteLb)
    → AllReady s
    → Returns (λ r. AllReady r.0 × (is_for req r.1 ≡ true)) (get_host_cb cfg garbage req s)
unfolding get_host_cb is_for SameCall
get_host_cb-answers cfg garbage req s all =
    let rsp : GetHostResponse = record {
      seq = req.seq;
      modid = req.modid;
      cmdid = req.cmdid;
      retcode = 0;
      host = none;
    } in
    Returns->>= _ (get_host cfg garbage req.modid req.cmdid s rsp) _
      (Always-Returns _ _ (λ r. SameCall rsp r.2 × AllReady r.0)
        (get_host cfg garbage req.modid req.cmdid s rsp)
        (get_host-SameCall cfg garbage req.modid req.cmdid s rsp)
        (get_host-AllReady cfg s all garbage req.modid req.cmdid rsp) λ a p q. (p, q))
      λ r h. (h.1, ground (arith, h.0.0, h.0.1, h.0.2))
