-- ===== src/Platform.antt =====
-- platform.ts: the account of the platform and its keys, which deployment sets up. `now` is the
-- `Date.now()` of the transaction.
pub mod SiteKey
pub mod Setup
use Prim.Native.String.{◌++◌ as str_append}
use text.Mathlib.Text.{◌==◌ as str_eq}
use api_provider.Prelude.{
  ℕ, String, Bool, true, false, not, ◌&&◌, ◌||◌, Option, none, some, List, [], ◌∷◌,
}
use api_provider.Prelude.Tests.{◌==◌, if◌then◌else◌, is_some}
use api_provider.Plans.{User}
use api_provider.Env.{Env, require_env}
use api_provider.Result.{Result, failure, ok, err, ◌>>=◌, ◌>>◌, require}
use api_provider.Schema.{ApiKey, State}
use api_provider.Convex.Docs.{Doc}
use api_provider.Convex.Database.{Database}
use api_provider.Convex.Queries.{unique, first}
use api_provider.Keys.{of_user, revoke_at}
use api_provider.Gateway.Credential.{has_key_hash}

abbrev pub system_email : String
system_email = "platform@system.internal"

abbrev pub site_key_name : String
site_key_name = "Website (public map)"

abbrev pub demo_key_name : String
demo_key_name = "Development key"

abbrev pub has_email : String → User → Bool
has_email email u = elim u.email [ none ↦ false | some e ↦ str_eq e email ]

abbrev pub is_system_account : User → Bool
is_system_account u = u.is_system

abbrev pub system_account : User
system_account = record {
  name = some "Ubhub Location Service";
  email = some system_email;
  is_system = true;
  disabled_at = none;
  updated_at = none;
  plan = none;
  plan_expires_at = none;
  free_tier_activated_at = none;
  free_requests_used = none;
}

-- The arguments of `upsertKey`.
pub record PlatformKey : Type 0 where
  pub user_id : ℕ
  pub name : String
  pub key_hash : String
  pub key_prefix : String
  pub is_site_key : Bool

abbrev pub platform_key : PlatformKey → ApiKey
platform_key args = record {
  user_id = args.user_id;
  name = args.name;
  key_prefix = args.key_prefix;
  key_hash = args.key_hash;
  endpoints = none;
  rate_limit_per_minute = none;
  is_site_key = args.is_site_key;
  last_used_at = none;
  expires_at = none;
  revoked_at = none;
}

-- A site key in force that the one with this hash replaces.
abbrev pub is_replaced : String → ApiKey → Bool
is_replaced hash k = k.is_site_key && not (str_eq k.key_hash hash) && not (is_some k.revoked_at)

-- The source's message names the key.
abbrev pub key_taken : String → String
key_taken name =
    str_append "Key \""
      (str_append name "\" exists but is revoked or owned by another account; choose a new secret.")

module _ ⦃db : Database⦄ where
  open db use {Table, query, insert, patch, new_id}

  unfoldable pub user_by_email : String → State → Option (Doc User)
  user_by_email email s = first (has_email email) s.users

  unfoldable pub upsert_system_user : State → Result (ℕ × State)
  upsert_system_user s = elim (first is_system_account s.users) [
    | some system ↦ ok (system.id, s)
    | none ↦ elim (first (has_email system_email) s.users) [
      | some impostor ↦
          err (failure "A regular account uses the reserved address platform@system.internal.")
      | none ↦ ok (new_id s.users, record s { users = insert system_account s.users })
    ]
  ]

  -- The key with this hash is inserted, unless it is there.
  abbrev pub upsert_row : PlatformKey → Option (Doc ApiKey) → Table ApiKey → Result (Table ApiKey)
  upsert_row args none t = ok (insert (platform_key args) t)
  upsert_row args (some k) t = do
    require (not (is_some k.value.revoked_at || not (k.value.user_id == args.user_id)))
        (failure (key_taken args.name))
    ok t

  unfoldable pub revoke_replaced : String → ℕ → List (Doc ApiKey) → Table ApiKey → Table ApiKey
  revoke_replaced hash now [] t = t
  revoke_replaced hash now (k ∷ ks) t =
      revoke_replaced hash now ks
        (if is_replaced hash k.value then patch k.id (revoke_at now) t else t)

  unfoldable pub upsert_key : PlatformKey → ℕ → State → Result State
  unfolding revoke_replaced
  upsert_key args now s = do
    existing ← unique (has_key_hash args.key_hash) s.api_keys
    t ← upsert_row args existing s.api_keys
    ok (record s {
      api_keys =
          if args.is_site_key
          then revoke_replaced args.key_hash now (query (of_user args.user_id) t) t
          else t;
    })
