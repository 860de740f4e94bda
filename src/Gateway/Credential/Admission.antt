-- ===== src/Gateway/Credential/Admission.antt =====
-- What the checks have established of a request that they pass.
use api_provider.Prelude.{
  ℕ, ◌<◌, ◌≡◌, refl, sym, subst, ◌⊎◌, String, Bool, true, false, not, ◌&&◌, Option, none, some,
  List, arith,
}
use api_provider.Prelude.Lists.{any}
use api_provider.Endpoints.{name, normalize_endpoints}
use api_provider.Plans.{User, has_key_access}
use api_provider.Result.{Result, ok, err}
use api_provider.Schema.{ApiKey, PlaygroundToken, State}
use api_provider.Convex.Docs.{Doc}
use api_provider.Convex.Database.{Database}
use api_provider.Convex.Queries.{unique}
use api_provider.Gateway.Credential
use api_provider.Gateway.Credential.{
  Kind, key, playground, Args, Admitted, Verdict, refuse_if, pass, refuse, throws, >>=-eq-pass,
  ◌>>=◌, plan_of, same_text, has_key_hash, has_token_hash, is_expired, bound_key, found_key,
  key_of_token, credential, active_owner, owner_of, check_endpoint, admitted, admit_owner, admit,
}

-- The endpoint of the call is one that the key allows, or the key names none.
abbrev pub InScope : Option String → Option (List String) → Type 0
InScope endpoint none = Unit {0}
InScope endpoint (some stored) =
    any (λ e. same_text endpoint (name e)) (normalize_endpoints stored) ≡ true

abbrev pub NotExpired : ℕ → Option ℕ → Type 0
NotExpired now none = Unit {0}
NotExpired now (some t) = now < t

pub record OwnerChecks (args : Args) (now : ℕ) (a : Admitted) : Type 0 where
  pub site_key : a.is_site_key ≡ (a.key.value.is_site_key && not a.via_playground)
  pub access : (a.is_site_key ≡ true) ⊎ (has_key_access a.owner.value now ≡ true)
  pub plan : a.plan ≡ plan_of a.is_site_key a.owner.value now
  pub in_scope : InScope args.endpoint a.key.value.endpoints

check_endpoint-InScope :
    (args : Args) (a : Admitted) (o : Option (List String)) (u : Unit {0})
    → check_endpoint args a o ≡ pass u
    → InScope args.endpoint o
unfolding check_endpoint
check_endpoint-InScope args a none u h = tt
check_endpoint-InScope args a (some stored) u h = ground arith

module _ ⦃db : Database⦄ where
  open db use {get}

  -- Which documents led to the key.
  abbrev pub Presents : Kind → String → ℕ → State → Doc ApiKey → Bool → Type 0
  Presents key hash now s k via =
      (via ≡ false) × (unique (has_key_hash hash) s.api_keys ≡ ok (some k))
  Presents playground hash now s k via =
      (via ≡ true)
      × (t : Doc PlaygroundToken) × (unique (has_token_hash hash) s.playground_tokens ≡ ok (some t))
      × (now < t.value.expires_at)
      × (get t.value.api_key_id s.api_keys ≡ some k)
      × (k.value.user_id ≡ t.value.user_id)

  pub record Admits (args : Args) (now : ℕ) (s : State) (a : Admitted) : Type 0 where
    pub presents : Presents args.kind args.hash now s a.key a.via_playground
    pub not_revoked : a.key.value.revoked_at ≡ none
    pub not_expired : NotExpired now a.key.value.expires_at
    pub owned : get a.key.value.user_id s.users ≡ some a.owner
    pub enabled : a.owner.value.disabled_at ≡ none
    pub checks : OwnerChecks args now a

  NotExpired-lem : (o : Option ℕ) (now : ℕ) → is_expired o now ≡ false → NotExpired now o
  NotExpired-lem none now h = tt
  NotExpired-lem (some t) now h = ground arith

  active_owner-pass :
      (k : Doc ApiKey) (o : Option (Doc User)) (owner : Doc User)
      → active_owner k o ≡ pass owner
      → (o ≡ some owner) × (owner.value.disabled_at ≡ none)
  unfolding active_owner
  active_owner-pass k none owner h = cc
  active_owner-pass k (some d) owner h = (ground arith, ground arith)

  admit_owner-pass :
      (args : Args) (now : ℕ) (k : Doc ApiKey) (via : Bool) (owner : Doc User) (a : Admitted)
      → admit_owner args now k via owner ≡ pass a
      → (a ≡ admitted now k via owner) × OwnerChecks args now a
  unfolding admit_owner
  admit_owner-pass args now k via owner a h =
      let same : admitted now k via owner ≡ a = ground arith in
      (
        sym same,
        subst (OwnerChecks args now) same (record {
          site_key = refl;
          access = ground arith;
          plan = refl;
          in_scope = in_scope k.value.endpoints refl;
        }),
      )
    where
      in_scope :
          (o : Option (List String))
          → k.value.endpoints ≡ o
          → InScope args.endpoint k.value.endpoints
      in_scope none e = rw e tt
      in_scope (some stored) e = rw e (ground arith)

  owner_of-pass :
      (k : Doc ApiKey) (now : ℕ) (s : State) (owner : Doc User)
      → owner_of k now s ≡ pass owner
      → (k.value.revoked_at ≡ none)
        × NotExpired now k.value.expires_at
        × (get k.value.user_id s.users ≡ some owner)
        × (owner.value.disabled_at ≡ none)
  unfolding owner_of
  owner_of-pass k now s owner h =
      let d = active_owner-pass k (get k.value.user_id s.users) owner (ground arith) in
      (ground arith, NotExpired-lem k.value.expires_at now (ground arith), d.0, d.1)

  bound_key-pass :
      (user_id : ℕ) (o : Option (Doc ApiKey)) (k : Doc ApiKey) (via : Bool)
      → bound_key user_id o ≡ pass (k, via)
      → (via ≡ true) × (o ≡ some k) × (k.value.user_id ≡ user_id)
  unfolding bound_key
  bound_key-pass user_id none k via h = cc
  bound_key-pass user_id (some d) k via h = (ground arith, ground arith, ground arith)

  token_key-pass :
      (r : Result (Option (Doc PlaygroundToken))) (now : ℕ) (s : State) (k : Doc ApiKey)
      (via : Bool)
      → (Credential.read r >>= λ o. key_of_token now o s) ≡ pass (k, via)
      → (via ≡ true)
        × (t : Doc PlaygroundToken) × (r ≡ ok (some t))
        × (now < t.value.expires_at)
        × (get t.value.api_key_id s.api_keys ≡ some k)
        × (k.value.user_id ≡ t.value.user_id)
  unfolding key_of_token
  token_key-pass (err e) now s k via h = cc
  token_key-pass (ok none) now s k via h = cc
  token_key-pass (ok (some t)) now s k via h =
      let bound =
        bound_key-pass t.value.user_id (get t.value.api_key_id s.api_keys) k via (ground arith) in
      (bound.0, t, refl, ground arith, bound.1, bound.2)

  credential-pass :
      (kind : Kind) (hash : String) (now : ℕ) (s : State) (k : Doc ApiKey) (via : Bool)
      → credential kind hash now s ≡ pass (k, via)
      → Presents kind hash now s k via
  unfolding credential
  credential-pass key hash now s k via h = ground arith
  credential-pass playground hash now s k via h =
      token_key-pass (unique (has_token_hash hash) s.playground_tokens) now s k via h

  pub admit-Admits :
      (args : Args) (now : ℕ) (s : State) (a : Admitted)
      → admit args now s ≡ pass a
      → Admits args now s a
  unfolding admit
  admit-Admits args now s a h =
      let ((k, via), is_key, h') =
        >>=-eq-pass (credential args.kind args.hash now s)
          (λ kv. owner_of kv.0 now s >>= admit_owner args now kv.0 kv.1) h in
      let (owner, is_owner, h'') = >>=-eq-pass (owner_of k now s) (admit_owner args now k via) h' in
      let (not_revoked, not_expired, owned, enabled) = owner_of-pass k now s owner is_owner in
      let (same, checks) = admit_owner-pass args now k via owner a h'' in
      record {
        presents = rw same (credential-pass args.kind args.hash now s k via is_key);
        not_revoked = rw same not_revoked;
        not_expired = rw same not_expired;
        owned = rw same owned;
        enabled = rw same enabled;
        checks = checks;
      }
