-- ===== src/Platform/Setup.antt =====
-- platform.ts: the two actions that deployment runs. The variables SITE_API_KEY, ENVIRONMENT,
-- DEMO_EMAIL, DEMO_PASSWORD and DEMO_API_KEY are arguments, and so are lower case and the account that
-- the auth library creates.
use text.Mathlib.Text.{◌==◌ as str_eq}
use api_provider.Prelude.{ℕ, String, Bool, true, false, not, ◌&&◌, Option, none, some}
use api_provider.Prelude.Tests.{get_or}
use api_provider.Text.{trim}
use api_provider.Env.{Env, require_env}
use api_provider.Result.{Result, failure, ok, require, attempt}
use api_provider.Schema.{State}
use api_provider.Convex.Docs.{Doc}
use api_provider.Convex.Database.{Database}
use api_provider.Plans.{User}
use api_provider.Keys.Format.{key_prefix, is_valid_api_key}
use api_provider.Keys.Actions.{hash_secret}
use api_provider.Platform.{
  site_key_name, demo_key_name, user_by_email, upsert_system_user, upsert_key,
}

-- `isProduction`: anything but an explicit "development" or "test".
unfoldable pub is_production : (String → String) → Option String → Bool
unfolding trim
is_production lower environment =
    let name = lower (trim (get_or environment "")) in
    not (str_eq name "development") && not (str_eq name "test")

pub data SiteKeyAnswer : Type 0 where
  not_configured registered : SiteKeyAnswer

module _ ⦃db : Database⦄ where
  -- A key that is stored by its hash, for an account.
  unfoldable pub register_key :
      Env → ℕ → String → String → Bool → ℕ → State → Result (Unit {0}) × State
  register_key env user_id name secret is_site_key now s =
      attempt (hash_secret env secret) s (λ hash.
        attempt
          (upsert_key
            (record {
              user_id = user_id;
              name = name;
              key_hash = hash;
              key_prefix = key_prefix secret;
              is_site_key = is_site_key;
            })
            now s)
          s (λ s'. (ok tt, s')))

  unfoldable pub ensure_site_key : Env → Option String → ℕ → State → Result SiteKeyAnswer × State
  unfolding register_key
  ensure_site_key env none now s = attempt (upsert_system_user s) s (λ r. (ok not_configured, r.1))
  ensure_site_key env (some secret) now s = attempt (upsert_system_user s) s (λ r.
      attempt
        (require (is_valid_api_key secret)
          (failure "SITE_API_KEY must look like geo_ followed by 32 letters/digits."))
        r.1
        (λ passed.
          let done = register_key env r.0 site_key_name secret true now r.1 in
          attempt done.0 done.1 (λ passed. (ok registered, done.1))))

  abbrev demo_user :
      (String → String → State → Result (ℕ × State))
      → String
      → String
      → Option (Doc User)
      → State
      → Result (ℕ × State)
  demo_user create_account email password (some user) s = ok (user.id, s)
  demo_user create_account email password none s = create_account email password s

  unfoldable pub seed_development :
      Env
      → (String → String)
      → (String → String → State → Result (ℕ × State))
      → Option String
      → Option String
      → Option String
      → Option String
      → ℕ
      → State
      → Result String × State
  unfolding is_production register_key
  seed_development env lower create_account environment demo_email demo_password demo_key now s =
      let email = lower (get_or demo_email "demo@example.com") in
      attempt
        (require (not (is_production lower environment))
          (failure "Refusing to seed development data in production."))
        s
        (λ passed. attempt (require_env "DEMO_PASSWORD" demo_password) s (λ password.
          attempt (require_env "DEMO_API_KEY" demo_key) s (λ secret.
            attempt
              (require (is_valid_api_key secret)
                (failure "DEMO_API_KEY must look like geo_ followed by 32 letters/digits."))
              s
              (λ passed.
                attempt (demo_user create_account email password (user_by_email email s) s) s (λ r.
                  let done = register_key env r.0 demo_key_name secret false now r.1 in
                  attempt done.0 done.1 (λ passed. (ok email, done.1)))))))
