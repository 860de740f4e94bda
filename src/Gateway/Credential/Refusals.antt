-- ===== src/Gateway/Credential/Refusals.antt =====
-- The answers of the checks: each of the five refusals before counting, and no other.
use api_provider.Prelude.{
  ℕ, ◌≡◌, refl, subst, String, Bool, true, false, Option, none, some, List, arith,
}
use api_provider.Prelude.Tests.{if◌then◌else◌}
use api_provider.Plans.{User}
use api_provider.Result.{Result, ok, err}
use api_provider.Schema.{ApiKey, PlaygroundToken, State}
use api_provider.Convex.Docs.{Doc}
use api_provider.Convex.Database.{Database}
use api_provider.Gateway.Credential
use api_provider.Gateway.Credential.{
  Kind, key, playground, Args, Admitted, Response, invalid, expired, revoked, payment_required,
  endpoint_not_allowed, rate_limited, quota_exceeded, accepted, Refusal, Verdict, pass, refuse,
  throws, ◌>>=◌, ◌>>◌, refuse_if, bound_key, found_key, key_of_token, credential, active_owner,
  owner_of, check_endpoint, admit_owner, admit,
}

-- A status that `authorize` returns before it counts the request.
abbrev pub BeforeCounting : Response → Type 0
BeforeCounting (rate_limited p r) = ⊥
BeforeCounting (quota_exceeded p r) = ⊥
BeforeCounting (accepted p r) = ⊥
BeforeCounting _ = Unit {0}

record RefusesEarly {ℓ} {A : Type ℓ} (v : Verdict A) : Type ℓ where
  at : (r : Refusal) → v ≡ refuse r → BeforeCounting r.response

RefusesEarly-pass {ℓ} : {A : Type ℓ} (a : A) → RefusesEarly (pass a)
RefusesEarly-pass a = record { at = λ r h. cc }

RefusesEarly-refuse {ℓ} :
    {A : Type ℓ} (r : Refusal) → BeforeCounting r.response → RefusesEarly {A = A} (refuse r)
RefusesEarly-refuse r h = record {
  at = λ q e.
      let same : r ≡ q = ground arith in subst (λ (x : Refusal). BeforeCounting x.response) same h;
}

RefusesEarly-bind {ℓ} :
    {A B : Type ℓ} (m : Verdict A) (f : A → Verdict B)
    → RefusesEarly m
    → ((a : A) → RefusesEarly (f a))
    → RefusesEarly (m >>= f)
RefusesEarly-bind (pass a) f h k = k a
RefusesEarly-bind (refuse r) f h k = RefusesEarly-refuse r (h.at r refl)
RefusesEarly-bind (throws e) f h k = record { at = λ r h. cc }

RefusesEarly-then {κ} :
    {B : Type κ} (m : Verdict (Unit {0})) (k : Verdict B)
    → RefusesEarly m
    → RefusesEarly k
    → RefusesEarly (m >> k)
RefusesEarly-then (pass u) k h l = l
RefusesEarly-then (refuse r) k h l = RefusesEarly-refuse r (h.at r refl)
RefusesEarly-then (throws e) k h l = record { at = λ r h. cc }

RefusesEarly-if :
    (b : Bool) (r : Refusal) → BeforeCounting r.response → RefusesEarly (refuse_if b r)
RefusesEarly-if true r h = RefusesEarly-refuse r h
RefusesEarly-if false r h = RefusesEarly-pass tt

RefusesEarly-read : {A : Type 0} (r : Result A) → RefusesEarly (Credential.read r)
RefusesEarly-read (ok a) = RefusesEarly-pass a
RefusesEarly-read (err e) = record { at = λ r h. cc }

RefusesEarly-choice {ℓ} :
    {A : Type ℓ} (b : Bool) (m n : Verdict A)
    → RefusesEarly m
    → RefusesEarly n
    → RefusesEarly (if b then m else n)
RefusesEarly-choice true m n h k = h
RefusesEarly-choice false m n h k = k

ruleset early_rules = (
  RefusesEarly-pass, RefusesEarly-refuse, RefusesEarly-bind, RefusesEarly-then, RefusesEarly-if,
  RefusesEarly-read, RefusesEarly-choice,
)

bound_key-early : (u : ℕ) (o : Option (Doc ApiKey)) → RefusesEarly (bound_key u o)
unfolding bound_key
bound_key-early u none = search early_rules
bound_key-early u (some k) = search early_rules

found_key-early : (o : Option (Doc ApiKey)) → RefusesEarly (found_key o)
unfolding found_key
found_key-early none = search early_rules
found_key-early (some k) = search early_rules

check_endpoint-early :
    (args : Args) (a : Admitted) (o : Option (List String)) → RefusesEarly (check_endpoint args a o)
unfolding check_endpoint
check_endpoint-early args a none = search early_rules
check_endpoint-early args a (some stored) = search early_rules

active_owner-early : (k : Doc ApiKey) (o : Option (Doc User)) → RefusesEarly (active_owner k o)
unfolding active_owner
active_owner-early k none = search early_rules
active_owner-early k (some d) = search early_rules

admit_owner-early :
    (args : Args) (now : ℕ) (k : Doc ApiKey) (via : Bool) (owner : Doc User)
    → RefusesEarly (admit_owner args now k via owner)
unfolding admit_owner
admit_owner-early args now k via owner = search (early_rules, check_endpoint-early)

module _ ⦃db : Database⦄ where
  key_of_token-early :
      (now : ℕ) (o : Option (Doc PlaygroundToken)) (s : State) → RefusesEarly (key_of_token now o s)
  unfolding key_of_token
  key_of_token-early now none s = search early_rules
  key_of_token-early now (some t) s = search (early_rules, bound_key-early)

  credential-early :
      (kind : Kind) (hash : String) (now : ℕ) (s : State)
      → RefusesEarly (credential kind hash now s)
  unfolding credential
  credential-early key hash now s = search (early_rules, found_key-early)
  credential-early playground hash now s = search (early_rules, key_of_token-early)

  owner_of-early : (k : Doc ApiKey) (now : ℕ) (s : State) → RefusesEarly (owner_of k now s)
  unfolding owner_of
  owner_of-early k now s = search (early_rules, active_owner-early)

  admit-early : (args : Args) (now : ℕ) (s : State) → RefusesEarly (admit args now s)
  unfolding admit
  admit-early args now s = search (early_rules, credential-early, owner_of-early, admit_owner-early)

  pub refusal-BeforeCounting :
      (args : Args) (now : ℕ) (s : State) (r : Refusal)
      → admit args now s ≡ refuse r
      → BeforeCounting r.response
  refusal-BeforeCounting args now s r h = (admit-early args now s).at r h
