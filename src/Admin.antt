-- ===== src/Admin.antt =====
-- admin.ts: the operator's mutations. `now` is the `Date.now()` of the transaction.
pub mod Lockout
use api_provider.Prelude.{ℕ, String, Bool, true, false, not, Option, none, some, List, [], ◌∷◌, map}
use api_provider.Prelude.Lists.{filter, length}
use api_provider.Plans.{User}
use api_provider.Result.{Result, failure, ok, err, ◌>>=◌, ◌>>◌, require, or_throw}
use api_provider.Schema.{ApiKey, high, critical, success, State}
use api_provider.Audit.{AuditFields, write_audit}
use api_provider.Convex.Docs.{Doc}
use api_provider.Convex.Database.{Database}
use api_provider.Convex.Queries.{first}
use api_provider.Text.{trim}
use api_provider.Platform.{has_email}
use api_provider.Keys.{key_event, is_active, of_user, revoke_active, delete_playground_tokens}

abbrev pub locked_at : ℕ → User → User
locked_at now u = record u { disabled_at = some now }

abbrev unlocked : User → User
unlocked u = record u { disabled_at = none }

-- What `findUser` tells of a key, and of an account.
pub record FoundKey : Type 0 where
  pub id : ℕ
  pub name : String
  pub key_prefix : String
  pub revoked_at : Option ℕ
  pub last_used_at : Option ℕ

pub record FoundUser : Type 0 where
  pub id : ℕ
  pub email : Option String
  pub disabled_at : Option ℕ
  pub is_system : Bool
  pub keys : List FoundKey

abbrev listed_key : Doc ApiKey → FoundKey
listed_key k = record {
  id = k.id;
  name = k.value.name;
  key_prefix = k.value.key_prefix;
  revoked_at = k.value.revoked_at;
  last_used_at = k.value.last_used_at;
}

abbrev user_event : ℕ → AuditFields
user_event user_id = record { tenant_id = some user_id; api_key_id = none; detail = none }

module _ ⦃db : Database⦄ where
  open db use {get, query, patch}

  unfoldable pub revoke_key : ℕ → ℕ → State → Result (ℕ × State)
  unfolding delete_playground_tokens
  revoke_key key_id now s = do
    k ← or_throw (get key_id s.api_keys) (failure "No such key.")
    ok (
      key_id,
      write_audit now "operator_api_key_revoked" high success (key_event k.value.user_id k.id)
          (delete_playground_tokens key_id (revoke_active now k s)),
    )

  -- The loop over the keys of the account, as they were read.
  unfoldable pub revoke_each : ℕ → List (Doc ApiKey) → State → State
  unfolding delete_playground_tokens
  revoke_each now [] s = s
  revoke_each now (k ∷ ks) s =
      revoke_each now ks (delete_playground_tokens k.id (revoke_active now k s))

  unfoldable pub lock_user : ℕ → ℕ → State → Result (ℕ × State)
  unfolding revoke_each
  lock_user user_id now s = do
    user ← or_throw (get user_id s.users) (failure "No such user.")
    require (not user.value.is_system)
        (failure "Refusing to disable the system account; rotate SITE_API_KEY instead.")
    let keys : List (Doc ApiKey) = query (of_user user_id) s.api_keys
    ok (
      length (filter is_active keys),
      write_audit now "tenant_disabled" critical success (user_event user_id)
          (revoke_each now keys (record s { users = patch user_id (locked_at now) s.users })),
    )

  -- `email.trim().toLowerCase()`; lower case is a parameter.
  abbrev pub normalized_email : (String → String) → String → String
  normalized_email lower email = lower (trim email)

  unfoldable pub find_user : (String → String) → String → State → Option FoundUser
  find_user lower email s = elim (first (has_email (normalized_email lower email)) s.users) [
    | none ↦ none
    | some u ↦ some (record {
      id = u.id;
      email = u.value.email;
      disabled_at = u.value.disabled_at;
      is_system = u.value.is_system;
      keys = map listed_key (query (of_user u.id) s.api_keys);
    })
  ]

  -- The action looks the account up on `s` and locks it in a later transaction, on `t`. The sessions
  -- that it ends then are the auth library's.
  unfoldable pub disable_user :
      (String → String) → String → ℕ → State → State → Result ((ℕ × ℕ) × State)
  unfolding find_user lock_user
  disable_user lower email now s t = do
    user ← or_throw (find_user lower email s) (failure "No user with that email.")
    (revoked, t') ← lock_user user.id now t
    ok ((user.id, revoked), t')

  unfoldable pub enable_user : (String → String) → String → ℕ → State → Result (ℕ × State)
  enable_user lower email now s = do
    user ←
        or_throw (first (has_email (normalized_email lower email)) s.users)
          (failure "No user with that email.")
    ok (
      user.id,
      write_audit now "tenant_enabled" high success (user_event user.id)
          (record s { users = patch user.id unlocked s.users }),
    )
