-- ===== src/Gateway/Describe/Agreement.antt =====
-- The cached lookup and the checks of `authorize` decide alike.
use api_provider.Prelude.{
  ℕ, ◌≡◌, refl, sym, subst, inl, inr, String, false, Option, none, some, List,
}
use api_provider.Prelude.Tests.{is_some, Bool-cases}
use api_provider.Endpoints.{name, normalize_endpoints}
use api_provider.Prelude.Lists.{any}
use api_provider.Env.{Env}
use api_provider.Plans.{User, has_key_access}
use api_provider.Result.{Result, ok, err, ◌>>=◌ as then_read}
use api_provider.Schema.{ApiKey, State}
use api_provider.Convex.Docs.{Doc}
use api_provider.Convex.Database.{Database}
use api_provider.Convex.Queries.{unique}
use api_provider.Gateway.Credential
use api_provider.Gateway.Credential.{
  Args, key, Response, Refusal, Admitted, Verdict, pass, refuse, throws, is_expired, has_key_hash,
  same_text, ◌>>=◌, ◌>>◌, check_endpoint, active_owner, owner_of, admit_owner, found_key,
  credential, admit,
}
use api_provider.Gateway.Describe.{
  Description, invalid, revoked, expired, payment_required, known, known_key, describe_owner,
  describe_key, describe,
}

abbrev NotInScope : Response → Type 0
NotInScope (Response.endpoint_not_allowed p es) = Unit {0}
NotInScope _ = ⊥

-- `authorize` refuses for the same reason; a key that the lookup knows is the one it admits, or is
-- refused for its scope, which depends on the endpoint of the call.
abbrev pub Agrees : Env → Result Description → Verdict Admitted → Type 0
Agrees env (err e) (throws e') = e ≡ e'
Agrees env (ok (known k)) (pass a) = k ≡ known_key env a.key
Agrees env (ok (known k)) (refuse r) = NotInScope r.response
Agrees env (ok invalid) (refuse r) = r.response ≡ Response.invalid
Agrees env (ok revoked) (refuse r) = r.response ≡ Response.revoked
Agrees env (ok expired) (refuse r) = r.response ≡ Response.expired
Agrees env (ok payment_required) (refuse r) = r.response ≡ Response.payment_required
Agrees env _ _ = ⊥

scope-Agrees :
    (env : Env) (args : Args) (a : Admitted) (o : Option (List String))
    → Agrees env (ok (known (known_key env a.key))) (check_endpoint args a o >> pass a)
unfolding check_endpoint
scope-Agrees env args a none = refl
scope-Agrees env args a (some stored) =
    elim (Bool-cases (any (λ e. same_text args.endpoint (name e)) (normalize_endpoints stored))) [
      | inl in_scope ↦ rw in_scope refl
      | inr out ↦ rw out tt
    ]

owner-Agrees :
    (env : Env) (args : Args) (now : ℕ) (k : Doc ApiKey) (o : Option (Doc User))
    → Agrees env
        (ok (describe_owner env now k o))
        (active_owner k o >>= admit_owner args now k false)
unfolding describe_owner active_owner admit_owner
owner-Agrees env args now k none = refl
owner-Agrees env args now k (some owner) = elim (Bool-cases (is_some owner.value.disabled_at)) [
  | inl disabled ↦ rw disabled refl
  | inr enabled ↦ elim (Bool-cases k.value.is_site_key) [
    | inl site ↦ rw (enabled, site) (scope-Agrees env args _ k.value.endpoints)
    | inr customer_key ↦ elim (Bool-cases (has_key_access owner.value now)) [
      | inl access ↦ rw (enabled, customer_key, access) (scope-Agrees env args _ k.value.endpoints)
      | inr without ↦ rw (enabled, customer_key, without) refl
    ]
  ]
]

module _ ⦃db : Database⦄ where
  open db use {get}

  key-Agrees :
      (env : Env) (args : Args) (now : ℕ) (s : State) (found : Option (Doc ApiKey))
      → Agrees env
          (ok (describe_key env now s found))
          (found_key found >>= λ kv. owner_of kv.0 now s >>= admit_owner args now kv.0 kv.1)
  unfolding describe_key found_key owner_of
  key-Agrees env args now s none = refl
  key-Agrees env args now s (some k) = elim (Bool-cases (is_some k.value.revoked_at)) [
    | inl is_revoked ↦ rw is_revoked refl
    | inr not_revoked ↦ elim (Bool-cases (is_expired k.value.expires_at now)) [
      | inl is_late ↦ rw (not_revoked, is_late) refl
      | inr in_time ↦
          rw (not_revoked, in_time) (owner-Agrees env args now k (get k.value.user_id s.users))
    ]
  ]

  -- For a call with a key, `describe` and the checks of `authorize` agree at the same time and state:
  -- they throw alike, refuse for the same reason, or name the same key with its limits and scope;
  -- beyond that `authorize` refuses only a key that is not allowed the endpoint.
  pub describe-Agrees :
      (env : Env) (args : Args) (now : ℕ) (s : State)
      → args.kind ≡ key
      → Agrees env (describe env args.hash now s) (admit args now s)
  unfolding describe admit credential
  describe-Agrees env args now s is_key =
      subst
        (λ kind. Agrees env (describe env args.hash now s) (
          credential kind args.hash now s >>= λ kv.
          owner_of kv.0 now s >>= admit_owner args now kv.0 kv.1))
        (sym is_key) (go (unique (has_key_hash args.hash) s.api_keys))
    where
      go :
          (r : Result (Option (Doc ApiKey)))
          → Agrees env (then_read r (λ found. ok (describe_key env now s found))) (
              Credential.read r >>= found_key >>= λ kv.
              owner_of kv.0 now s >>= admit_owner args now kv.0 kv.1)
      go (err e) = refl
      go (ok found) = key-Agrees env args now s found
