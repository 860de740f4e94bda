-- ===== src/Gateway/Authorize/Served.antt =====
-- The key that an answer of `authorize` names, when the request was counted.
use api_provider.Prelude.{ℕ, ◌≡◌, sym, ap, ◌∙◌, inl, inr, String, Bool, true, Option, some, arith}
use api_provider.Prelude.Tests.{is_some}
use api_provider.Env.{Env}
use api_provider.Result.{ok}
use api_provider.Schema.{ApiKey, State}
use api_provider.Convex.Docs.{Doc}
use api_provider.Convex.Database.{Database}
use api_provider.Convex.Queries.{unique-get, get-id}
use api_provider.Gateway.Credential.{
  Kind, key, playground, Args, Response, invalid, expired, revoked, payment_required,
  endpoint_not_allowed, rate_limited, quota_exceeded, accepted, Principal, Admitted, principal,
  has_key_hash,
}
use api_provider.Gateway.Credential.Admission.{Admits, Presents}
use api_provider.Gateway.Credential.Refusals.{BeforeCounting}
use api_provider.Gateway.Authorize.{authorize}
use api_provider.Gateway.Authorize.Outcomes.{Counted}
use api_provider.Gateway.Authorize.Safety.{authorize_sound}

Counted-apart : (answer : Response) (p : Principal) → Counted answer p → BeforeCounting answer → ⊥
Counted-apart invalid p c b = c
Counted-apart expired p c b = c
Counted-apart revoked p c b = c
Counted-apart payment_required p c b = c
Counted-apart (endpoint_not_allowed q es) p c b = c
Counted-apart (rate_limited q r) p c b = b
Counted-apart (quota_exceeded q r) p c b = b
Counted-apart (accepted q r) p c b = b

Counted-same : (answer : Response) (p q : Principal) → Counted answer p → Counted answer q → p ≡ q
Counted-same invalid p q c d = absurd c
Counted-same expired p q c d = absurd c
Counted-same revoked p q c d = absurd c
Counted-same payment_required p q c d = absurd c
Counted-same (endpoint_not_allowed r es) p q c d = absurd c
Counted-same (rate_limited r l) p q c d = sym c ∙ d
Counted-same (quota_exceeded r l) p q c d = sym c ∙ d
Counted-same (accepted r l) p q c d = sym c ∙ d

module _ ⦃db : Database⦄ where
  open db use {get}

  Presents-get :
      (kind : Kind) (hash : String) (now : ℕ) (s : State) (k : Doc ApiKey) (via : Bool)
      → Presents kind hash now s k via
      → get k.id s.api_keys ≡ some k
  Presents-get key hash now s k via (direct, found) =
      (unique-get (has_key_hash hash) s.api_keys k found).0
  Presents-get playground hash now s k via (by_token, t, found, live, bound, same) =
      ap (λ i. get i s.api_keys) (get-id t.value.api_key_id s.api_keys k bound) ∙ bound

  -- A counted request was admitted, with the key that its answer names.
  pub served :
      (env : Env) (args : Args) (now : ℕ) (s s' : State) (answer : Response) (p : Principal)
      → authorize env args now s ≡ ok (answer, s')
      → Counted answer p
      → (a : Admitted) × Admits args now s a
        × (p ≡ principal a)
        × (get p.key_id s.api_keys ≡ some a.key)
  served env args now s s' answer p h counted = elim (authorize_sound env args now s s' answer h) [
    | inl (before, same) ↦ absurd (Counted-apart answer p counted before)
    | inr (a, admits, named) ↦
        let is_p = Counted-same answer p (principal a) counted named in
        (
          a,
          admits,
          is_p,
          ap (λ (q : Principal). get q.key_id s.api_keys) is_p
              ∙ Presents-get args.kind args.hash now s a.key a.via_playground admits.presents,
        )
  ]

  -- A revoked key serves no request.
  pub revoked_key_unserved :
      (env : Env) (args : Args) (now : ℕ) (s s' : State) (answer : Response) (p : Principal)
      (k : Doc ApiKey)
      → get p.key_id s.api_keys ≡ some k
      → is_some k.value.revoked_at ≡ true
      → authorize env args now s ≡ ok (answer, s')
      → Counted answer p
      → ⊥
  revoked_key_unserved env args now s s' answer p k there is_revoked h counted =
      let (a, admits, is_p, found) = served env args now s s' answer p h counted in
      let same : ◌≡◌ {A = Option (Doc ApiKey)} (some a.key) (some k) = sym found ∙ there in
      ground (arith, same, admits.not_revoked)
