-- ===== src/Keys.antt =====
-- apiKeys.ts: the mutations of keys and playground tokens, with the limits of lib/keys.ts. The user
-- id that the session gives is an argument, and so are the hash and the prefix of a new secret.
-- `now` is the `Date.now()` of the transaction.
pub mod Limits
pub mod Expiry
pub mod Lifetime
pub mod Revocation
pub mod Tokens
pub mod Format
pub mod Actions
pub mod Ownership
pub mod Listing
use api_provider.Prelude.{
  ℕ, ◌+◌, ◌-◌, ◌*◌, String, Bool, true, false, not, Option, none, some, List, [], ◌∷◌, map,
}
use api_provider.Prelude.Tests.{ltb, leb, ◌==◌, if◌then◌else◌, is_some}
use api_provider.Prelude.Lists.{filter, length, take}
use api_provider.Number.{Number, nan, infinite, finite, negative, floor}
use api_provider.Endpoints.{ApiEndpoint, name}
use api_provider.Plans.{User, has_key_access}
use api_provider.Result.{
  Result, Error, convex_error, failure, ok, err, ◌>>=◌, ◌>>◌, require, or_throw,
}
use api_provider.Schema.{ApiKey, PlaygroundToken, info, warning, success, State}
use api_provider.Audit.{AuditFields, write_audit}
use api_provider.Convex.Docs.{Doc}
use api_provider.Convex.Database.{Database}
use api_provider.Convex.Queries.{delete_each}

abbrev pub max_active_keys_per_user : ℕ
max_active_keys_per_user = 25

abbrev pub max_total_keys_per_user : ℕ
max_total_keys_per_user = 200

abbrev pub max_playground_tokens_per_key : ℕ
max_playground_tokens_per_key = 5

-- The arguments of `insertKey`.
pub record NewKey : Type 0 where
  pub user_id : ℕ
  pub name : String
  pub key_prefix : String
  pub key_hash : String
  pub endpoints : List ApiEndpoint
  pub expires_at : Option ℕ

abbrev pub stored_key : NewKey → ApiKey
stored_key args = record {
  user_id = args.user_id;
  name = args.name;
  key_prefix = args.key_prefix;
  key_hash = args.key_hash;
  endpoints = some (map name args.endpoints);
  rate_limit_per_minute = none;
  is_site_key = false;
  last_used_at = none;
  expires_at = args.expires_at;
  revoked_at = none;
}

abbrev pub of_user : ℕ → ApiKey → Bool
of_user user_id k = k.user_id == user_id

abbrev pub is_active : Doc ApiKey → Bool
is_active k = not (is_some k.value.revoked_at)

abbrev pub of_api_key : ℕ → PlaygroundToken → Bool
of_api_key key_id t = t.api_key_id == key_id

abbrev pub key_event : ℕ → ℕ → AuditFields
key_event user_id key_id = record {
  tenant_id = some user_id;
  api_key_id = some key_id;
  detail = none;
}

abbrev pub has_access : Option (Doc User) → ℕ → Bool
has_access none now = false
has_access (some u) now = has_key_access u.value now

abbrev pub has_passed : Option ℕ → ℕ → Bool
has_passed none now = false
has_passed (some t) now = leb t now

abbrev pub revoke_at : ℕ → ApiKey → ApiKey
revoke_at now k = record k { revoked_at = some now }

abbrev pub with_secret : String → String → ApiKey → ApiKey
with_secret prefix hash k = record k { key_prefix = prefix; key_hash = hash }

-- The order of `sort((a, b) => a.expiresAt - b.expiresAt)`, which is stable.
abbrev pub insert_by_expiry :
    Doc PlaygroundToken → List (Doc PlaygroundToken) → List (Doc PlaygroundToken)
insert_by_expiry t [] = t ∷ []
insert_by_expiry t (u ∷ us) =
    let rest = insert_by_expiry t us in
    if leb t.value.expires_at u.value.expires_at then t ∷ u ∷ us else u ∷ rest

abbrev pub oldest_first : List (Doc PlaygroundToken) → List (Doc PlaygroundToken)
oldest_first [] = []
oldest_first (t ∷ ts) = insert_by_expiry t (oldest_first ts)

module _ ⦃db : Database⦄ where
  open db use {Table, get, query, insert, patch, delete, new_id}

  unfoldable pub owned_key : ℕ → ℕ → State → Option (Doc ApiKey)
  owned_key key_id user_id s = elim (get key_id s.api_keys) [
    | none ↦ none
    | some k ↦ if k.value.user_id == user_id then some k else none
  ]

  abbrev pub require_owned_key : ℕ → ℕ → State → Result (Doc ApiKey)
  require_owned_key key_id user_id s = do
    k ← or_throw (get key_id s.api_keys) (convex_error "API key not found.")
    require (k.value.user_id == user_id) (convex_error "API key not found.")
    ok k

  -- `insertKey`, once the keys of the account are read.
  unfoldable pub insert_within : NewKey → ℕ → State → List (Doc ApiKey) → Result (ℕ × State)
  insert_within args now s all = do
    require (ltb (length all) max_total_keys_per_user)
        (convex_error "This account has reached the maximum number of API keys. Contact support.")
    require (ltb (length (filter is_active all)) max_active_keys_per_user)
        (convex_error "You can have at most 25 active API keys. Revoke one first.")
    let key_id : ℕ = new_id s.api_keys
    ok (
      key_id,
      write_audit now "api_key_created" info success (key_event args.user_id key_id)
          (record s { api_keys = insert (stored_key args) s.api_keys }),
    )

  unfoldable pub insert_key : NewKey → ℕ → State → Result (ℕ × State)
  unfolding insert_within
  insert_key args now s = do
    require (has_access (get args.user_id s.users) now)
        (convex_error "Activate the free tier or a paid plan to create API keys.")
    insert_within args now s
        (take (max_total_keys_per_user + 1) (query (of_user args.user_id) s.api_keys))

  unfoldable pub delete_playground_tokens : ℕ → State → State
  delete_playground_tokens key_id s = record s {
    playground_tokens =
        delete_each (query (of_api_key key_id) s.playground_tokens) s.playground_tokens;
  }

  abbrev pub revoke_active : ℕ → Doc ApiKey → State → State
  revoke_active now k s =
      if is_some k.value.revoked_at
      then s
      else record s { api_keys = patch k.id (revoke_at now) s.api_keys }

  unfoldable pub revoke : ℕ → ℕ → ℕ → State → Result State
  unfolding delete_playground_tokens
  revoke key_id user_id now s = do
    k ← require_owned_key key_id user_id s
    ok (
        write_audit now "api_key_revoked" warning success (key_event user_id key_id)
          (delete_playground_tokens key_id (revoke_active now k s)))

  unfoldable pub replace_secret : ℕ → ℕ → String → String → ℕ → State → Result State
  unfolding delete_playground_tokens
  replace_secret key_id user_id prefix hash now s = do
    k ← require_owned_key key_id user_id s
    require (has_access (get user_id s.users) now)
        (convex_error "Activate the free tier or a paid plan to regenerate API keys.")
    require (not (is_some k.value.revoked_at)) (convex_error "A revoked key cannot be regenerated.")
    require (not (has_passed k.value.expires_at now))
        (convex_error "This key has expired. Create a new key instead.")
    ok (
        write_audit now "api_key_rotated" warning success (key_event user_id key_id) (
          delete_playground_tokens key_id
            (record s { api_keys = patch key_id (with_secret prefix hash) s.api_keys })))

  -- Deletes all but the newest tokens of the key, to make room for one more.
  abbrev pub drop_oldest : ℕ → Table PlaygroundToken → Table PlaygroundToken
  drop_oldest key_id t =
      let existing = oldest_first (query (of_api_key key_id) t) in
      delete_each (take (length existing - (max_playground_tokens_per_key - 1)) existing) t

  unfoldable pub insert_playground_token : PlaygroundToken → ℕ → State → Result State
  insert_playground_token args now s = do
    require (has_access (get args.user_id s.users) now)
        (convex_error "Activate the free tier or a paid plan to use API keys.")
    ok (record s {
      playground_tokens = insert args (drop_oldest args.api_key_id s.playground_tokens);
    })
