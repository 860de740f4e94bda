-- ===== src/Keys/Actions.antt =====
-- apiKeys.ts: the functions that the dashboard calls, which run the mutations of Keys as the user
-- who has signed in. `now` is the time of the call, and a new secret's random part an argument.
use Prim.Native.String.{◌++◌ as str_append}
use api_provider.Prelude.{ℕ, ◌+◌, String, not, Option, List}
use api_provider.Prelude.Tests.{is_some, get_or}
use api_provider.Number.{Number}
use api_provider.Endpoints.{ApiEndpoint, name, api_endpoints}
use api_provider.Prelude.{map}
use api_provider.Env.{Env, require_env}
use api_provider.Result.{Result, convex_error, ok, ◌>>=◌, ◌>>◌, require, or_throw}
use api_provider.Schema.{ApiKey, State}
use api_provider.Session.{Auth, require_user_id}
use api_provider.Convex.Database.{Database}
use api_provider.Keys.{
  has_passed, owned_key, require_owned_key, insert_key, replace_secret, insert_playground_token,
}
use api_provider.Endpoints.{clean_endpoints}
use api_provider.Keys.Expiry.{clean_expires_at}
use api_provider.Keys.Format.{
  key_start, playground_token_start, playground_token_ttl_ms, key_prefix, masked_key,
  clean_key_name,
}

-- What `create` and `regenerate` return.
pub record Created : Type 0 where
  pub id : ℕ
  pub secret : String
  pub masked_key : String

pub record Token : Type 0 where
  pub token : String
  pub expires_at : ℕ

abbrev with_name : String → ApiKey → ApiKey
with_name cleaned k = record k { name = cleaned }

module _ ⦃db : Database⦄ where
  open db use {patch}

  unfoldable pub rename : Auth → ℕ → String → ℕ → State → Result State
  rename auth key_id chosen now s = do
    user_id ← require_user_id auth now s
    k ← require_owned_key key_id user_id s
    cleaned ← clean_key_name chosen
    ok (record s { api_keys = patch key_id (with_name cleaned) s.api_keys })

  -- The hash under which a secret is stored.
  abbrev pub hash_secret : Env → String → Result String
  hash_secret env secret = require_env "API_KEY_PEPPER" env.api_key_pepper >>= λ pepper.
      ok (env.hmac_sha256_hex pepper secret)

  -- The secret of a new key, and the mutation that stores its hash.
  unfoldable pub store_key :
      Env → ℕ → String → List ApiEndpoint → Option ℕ → String → ℕ → State → Result (Created × State)
  store_key env user_id cleaned endpoints expires_at random now t = do
    let secret : String = str_append key_start random
    let prefix : String = key_prefix secret
    hash ← hash_secret env secret
    (key_id, t') ←
        insert_key
          (record {
            user_id = user_id;
            name = cleaned;
            key_prefix = prefix;
            key_hash = hash;
            endpoints = endpoints;
            expires_at = expires_at;
          })
          now t
    ok (record { id = key_id; secret = secret; masked_key = masked_key prefix }, t')

  -- An action reads in one transaction, on `s`, and writes in a later one, on `t`.
  unfoldable pub create :
      Env
      → Auth
      → String
      → Option (List String)
      → Option Number
      → String
      → ℕ
      → State
      → State
      → Result (Created × State)
  unfolding store_key
  create env auth chosen scope expiry random now s t = do
    user_id ← require_user_id auth now s
    cleaned ← clean_key_name chosen
    endpoints ← clean_endpoints (get_or scope (map name api_endpoints))
    expires_at ← clean_expires_at expiry now
    store_key env user_id cleaned endpoints expires_at random now t

  unfoldable pub regenerate : Env → Auth → ℕ → String → ℕ → State → State → Result (Created × State)
  regenerate env auth key_id random now s t = do
    user_id ← require_user_id auth now s
    k ← or_throw (owned_key key_id user_id s) (convex_error "API key not found.")
    let secret : String = str_append key_start random
    let prefix : String = key_prefix secret
    hash ← hash_secret env secret
    t' ← replace_secret key_id user_id prefix hash now t
    ok (record { id = key_id; secret = secret; masked_key = masked_key prefix }, t')

  -- A new token, and the mutation that stores its hash.
  unfoldable pub store_token : Env → ℕ → ℕ → String → ℕ → State → Result (Token × State)
  store_token env key_id user_id random now t = do
    let token : String = str_append playground_token_start random
    let expires_at : ℕ = now + playground_token_ttl_ms
    hash ← hash_secret env token
    t' ←
        insert_playground_token
          (record {
            token_hash = hash;
            api_key_id = key_id;
            user_id = user_id;
            expires_at = expires_at;
          })
          now t
    ok (record { token = token; expires_at = expires_at }, t')

  unfoldable pub create_playground_token :
      Env → Auth → ℕ → String → ℕ → State → State → Result (Token × State)
  unfolding store_token
  create_playground_token env auth key_id random now s t = do
    user_id ← require_user_id auth now s
    k ← or_throw (owned_key key_id user_id s) (convex_error "API key not found.")
    require (not (is_some k.value.revoked_at))
        (convex_error "A revoked key cannot be used in the playground.")
    require (not (has_passed k.value.expires_at now))
        (convex_error "An expired key cannot be used in the playground.")
    store_token env key_id user_id random now t
