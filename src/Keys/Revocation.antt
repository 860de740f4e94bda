-- ===== src/Keys/Revocation.antt =====
-- What revoking and replacing a secret stop.
use text.Mathlib.TextEquality.{eq_iff}
use api_provider.Prelude.{
  ℕ, ◌≡◌, refl, sym, ap, ◌∙◌, subst, inl, inr, String, Bool, true, Option, some, [], arith,
}
use api_provider.Prelude.Tests.{Bool-cases, is_some}
use api_provider.Env.{Env}
use api_provider.Result.{ok, >>=-eq-ok}
use api_provider.Schema.{ApiKey, State, warning, success}
use api_provider.Audit.{write_audit}
use api_provider.Convex.Docs.{Doc}
use api_provider.Convex.Database.{Database}
use api_provider.Convex.Queries.{unique-get, get-id, get-patch-same, query-empty}
use api_provider.Keys.{
  key_event, of_api_key, require_owned_key, revoke, revoke_active, revoke_at, with_secret,
  replace_secret, delete_playground_tokens,
}
use api_provider.Keys.Tokens.{delete_playground_tokens_all}
use api_provider.Gateway.Credential.{Kind, key, playground, Args, Response, Principal, has_key_hash}
use api_provider.Gateway.Credential.Admission.{Presents}
use api_provider.Gateway.Authorize.{authorize}
use api_provider.Gateway.Authorize.Outcomes.{Counted}
use api_provider.Gateway.Authorize.Served.{served, revoked_key_unserved}

module _ ⦃db : Database⦄ where
  open db use {get, query, patch}

  abbrev pub Revoked : ℕ → State → Type 0
  Revoked i s = (k : Doc ApiKey) × (get i s.api_keys ≡ some k) × (is_some k.value.revoked_at ≡ true)

  pub revoke_active-Revoked :
      (now : ℕ) (i : ℕ) (k : Doc ApiKey) (s : State)
      → get i s.api_keys ≡ some k
      → Revoked i (revoke_active now k s)
  revoke_active-Revoked now i k s there =
      let same = get-id i s.api_keys k there in
      elim (Bool-cases (is_some k.value.revoked_at)) [
        | inl already ↦ rw already (k, there, already)
        | inr active ↦
            rw (active, same)
              (
                record k { value = revoke_at now k.value },
                get-patch-same i (revoke_at now) s.api_keys k there,
                refl,
              )
      ]

  require_owned_key-owned :
      (key_id user_id : ℕ) (s : State) (k : Doc ApiKey)
      → require_owned_key key_id user_id s ≡ ok k
      → get key_id s.api_keys ≡ some k
  require_owned_key-owned key_id user_id s k h = ground arith

  revoke-Revoked :
      (key_id user_id now : ℕ) (s s' : State)
      → revoke key_id user_id now s ≡ ok s'
      → Revoked key_id s'
  unfolding revoke write_audit delete_playground_tokens
  revoke-Revoked key_id user_id now s s' h =
      let (k, owned, h') = >>=-eq-ok (require_owned_key key_id user_id s) _ h in
      let (k', there, is_revoked) =
        revoke_active-Revoked now key_id k s (require_owned_key-owned key_id user_id s k owned) in
      (k', ground (arith, h', there), is_revoked)

  -- After its owner has revoked a key, no request is counted for it: whatever credential, endpoint
  -- and time a call of `authorize` has, its answer is a refusal before counting or names another key.
  pub revoke_stops :
      (key_id user_id now : ℕ) (s s' t : State) (env : Env) (args : Args) (later : ℕ)
      (answer : Response) (p : Principal)
      → revoke key_id user_id now s ≡ ok s'
      → authorize env args later s' ≡ ok (answer, t)
      → Counted answer p
      → ¬ (p.key_id ≡ key_id)
  revoke_stops key_id user_id now s s' t env args later answer p h call counted same =
      let (k, there, is_revoked) = revoke-Revoked key_id user_id now s s' h in
      revoked_key_unserved env args later s' t answer p k (ap (λ i. get i s'.api_keys) same ∙ there)
        is_revoked call counted

  Replaced : ℕ → String → State → Type 0
  Replaced key_id hash s =
      (k : Doc ApiKey) × (get key_id s.api_keys ≡ some k)
      × (k.value.key_hash ≡ hash)
      × (query (of_api_key key_id) s.playground_tokens ≡ [])

  replace_secret-Replaced :
      (key_id user_id : ℕ) (prefix hash : String) (now : ℕ) (s s' : State)
      → replace_secret key_id user_id prefix hash now s ≡ ok s'
      → Replaced key_id hash s'
  unfolding replace_secret write_audit Replaced
  replace_secret-Replaced key_id user_id prefix hash now s s' h =
      let (k, owned, h') = >>=-eq-ok (require_owned_key key_id user_id s) _ h in
      let there = require_owned_key-owned key_id user_id s k owned in
      let change = with_secret prefix hash in
      let changed : State = record s { api_keys = patch key_id change s.api_keys } in
      let left : State =
        write_audit now "api_key_rotated" warning success (key_event user_id key_id)
          (delete_playground_tokens key_id changed) in
      let is_left : left ≡ s' = ground (arith, h') in
      let kept : get key_id changed.api_keys ≡ some (record k { value = change k.value }) =
        get-patch-same key_id change s.api_keys k there in
      (
        record k { value = change k.value },
        ground (arith, is_left, kept),
        refl,
        ground (arith, is_left, delete_playground_tokens_all key_id changed),
      )

  Presents-Replaced :
      (kind : Kind) (secret hash : String) (now : ℕ) (s : State) (k : Doc ApiKey) (via : Bool)
      → Presents kind secret now s k via
      → Replaced k.id hash s
      → (kind ≡ key) × (secret ≡ hash)
  unfolding Replaced
  Presents-Replaced key secret hash now s k via (direct, found) (k', there, has_hash, empty) =
      let (mine, matches) = unique-get (has_key_hash secret) s.api_keys k found in
      let same : ◌≡◌ {A = Option (Doc ApiKey)} (some k) (some k') = sym mine ∙ there in
      let is_k' : k ≡ k' = ground (arith, same) in
      (
        refl,
        sym ((eq_iff k.value.key_hash secret).0 matches)
            ∙ ap (λ (x : Doc ApiKey). x.value.key_hash) is_k'
            ∙ has_hash,
      )
  Presents-Replaced playground secret hash now s k via (by_token, t, found, live, bound, same)
        (k', there, has_hash, empty) =
      let is_id = get-id t.value.api_key_id s.api_keys k bound in
      let (mine, matches) = unique-get _ s.playground_tokens t found in
      absurd (
        ground
          (arith, is_id, (query-empty (of_api_key k.id) s.playground_tokens t.id t empty mine)))

  -- After the secret of a key has been replaced, a request is counted for the key only if it
  -- presents the new secret itself: the old secret and the playground tokens issued for it have
  -- stopped.
  pub replace_secret_stops :
      (key_id user_id : ℕ) (prefix hash : String) (now : ℕ) (s s' t : State) (env : Env)
      (args : Args) (later : ℕ) (answer : Response) (p : Principal)
      → replace_secret key_id user_id prefix hash now s ≡ ok s'
      → authorize env args later s' ≡ ok (answer, t)
      → Counted answer p
      → p.key_id ≡ key_id
      → (args.kind ≡ key) × (args.hash ≡ hash)
  replace_secret_stops key_id user_id prefix hash now s s' t env args later answer p h call counted
        same =
      let (a, admits, is_p, found) = served env args later s' t answer p call counted in
      let is_key : a.key.id ≡ key_id = sym (ap (λ (q : Principal). q.key_id) is_p) ∙ same in
      Presents-Replaced args.kind args.hash hash later s' a.key a.via_playground admits.presents (
        subst (λ i. Replaced i hash s') (sym is_key)
          (replace_secret-Replaced key_id user_id prefix hash now s s' h))
