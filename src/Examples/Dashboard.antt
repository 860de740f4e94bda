-- ===== src/Examples/Dashboard.antt =====
-- What a developer who has signed in does.
use api_provider.Prelude.{ℕ, ◌+◌, ◌≤◌, ◌≡◌, refl, ◌⊎◌, String, false, none, some, List, [], ◌∷◌}
use api_provider.Prelude.Tests.{is_some}
use api_provider.Number.{nan, finite, units}
use api_provider.Text.{utf16_size, trim, trim_start, trim_end, collapse, slice_to}
use api_provider.Env.{require_env}
use api_provider.Plans.{has_key_access, active_plan, free_requests_remaining}
use api_provider.Result.{ok, err}
use api_provider.Schema.{ApiKey, PlaygroundToken, State}
use api_provider.Audit.{write_audit}
use api_provider.Convex.Docs.{Doc}
use api_provider.Convex.Memory.{memory}
use api_provider.Endpoints.{clean_endpoints}
use api_provider.Session.{Auth, is_session_active, current_user_id, require_user_id}
use api_provider.Admin.{lock_user, revoke_each}
use api_provider.Accounts.Signout.{lock_user_signs_out}
use api_provider.Keys.{
  owned_key, has_passed, insert_key, insert_within, insert_playground_token,
  delete_playground_tokens,
}
use api_provider.Keys.Expiry.{clean_expires_at}
use api_provider.Keys.Format.{
  key_prefix, head_length, after_start, clean_key_name, max_key_name_length,
  playground_token_ttl_ms,
}
use api_provider.Keys.Actions.{
  Created, Token, hash_secret, create, store_key, create_playground_token, store_token,
}
use api_provider.Keys.Ownership.{create_lem, create_playground_token_lem}
use api_provider.Reports.{Counts, invalid_time, daily_report}
use api_provider.Reports.Series.{Asked, IsReport, daily_report_lem}
use api_provider.Examples.{now, deployment, variables, result}

-- Alice, in a session that runs for a day.
abbrev signed_in : Auth
signed_in = record {
  user_id = some 0;
  session_id = some 5;
  session = λ i. some (record { user_id = 0; expiration_time = 86400000 });
}

is_alice : require_user_id signed_in now deployment ≡ ok 0
unfolding require_user_id current_user_id is_session_active
is_alice = refl

abbrev locked : ℕ × State
locked = result (0, deployment) (lock_user 0 now deployment)

locks : lock_user 0 now deployment ≡ ok (locked.0, locked.1)
unfolding lock_user revoke_each delete_playground_tokens write_audit
locks = refl

lock_user_signs_out_example : ¬ (current_user_id signed_in now locked.1 ≡ some 0)
lock_user_signs_out_example =
    lock_user_signs_out 0 now deployment locked.1 locked.0 signed_in now locks

abbrev random : String
random = "abcdefghijklmnopqrstuvwxyzABCDEF"

abbrev made : Created × State
made =
    result (record { id = 9; secret = ""; masked_key = "" }, deployment)
      (create variables signed_in " new  key " none none random now deployment deployment)

makes :
    create variables signed_in " new  key " none none random now deployment deployment
    ≡ ok (made.0, made.1)
unfolding create store_key require_user_id current_user_id is_session_active clean_key_name trim
    trim_start trim_end collapse utf16_size clean_endpoints clean_expires_at key_prefix head_length
    after_start slice_to require_env insert_key insert_within has_key_access active_plan
    free_requests_remaining write_audit
makes = refl

create_lem_example :
    (user_id : ℕ) × (require_user_id signed_in now deployment ≡ ok user_id)
    × (k : Doc ApiKey) × (memory.get made.0.id made.1.api_keys ≡ some k)
    × (k.value.user_id ≡ user_id)
    × (hash_secret variables made.0.secret ≡ ok k.value.key_hash)
    × (k.value.key_prefix ≡ key_prefix made.0.secret)
    × (k.value.revoked_at ≡ none)
    × (1 ≤ utf16_size k.value.name)
    × (utf16_size k.value.name ≤ max_key_name_length)
create_lem_example =
    create_lem variables signed_in " new  key " none none random now deployment deployment made.1
      made.0 makes

abbrev token : Token × State
token =
    result (record { token = ""; expires_at = 0 }, deployment)
      (create_playground_token variables signed_in 0 random now deployment deployment)

gives_token :
    create_playground_token variables signed_in 0 random now deployment deployment
    ≡ ok (token.0, token.1)
unfolding create_playground_token store_token require_user_id current_user_id is_session_active
    owned_key require_env insert_playground_token has_key_access active_plan free_requests_remaining
gives_token = refl

create_playground_token_lem_example :
    (user_id : ℕ) × (require_user_id signed_in now deployment ≡ ok user_id)
    × (k : Doc ApiKey) × (owned_key 0 user_id deployment ≡ some k)
    × (is_some k.value.revoked_at ≡ false)
    × (has_passed k.value.expires_at now ≡ false)
    × (row : Doc PlaygroundToken) × (memory.get row.id token.1.playground_tokens ≡ some row)
    × (row.value.api_key_id ≡ 0)
    × (row.value.user_id ≡ user_id)
    × (hash_secret variables token.0.token ≡ ok row.value.token_hash)
    × (row.value.expires_at ≡ now + playground_token_ttl_ms)
create_playground_token_lem_example =
    create_playground_token_lem variables signed_in 0 random now deployment deployment token.1
      token.0 gives_token

abbrev report_time : ℕ
report_time = 8640000000 + now

abbrev long_session : Auth
long_session = record signed_in {
  session = λ i. some (record { user_id = 0; expiration_time = 9000000000 });
}

-- Two requests on the day of the report.
abbrev used : State
used = record deployment {
  usage_daily =
      some (record {
        user_id = 0;
        api_key_id = 0;
        endpoint = "/v1/geocode";
        day = 100;
        total = 2;
        successful = 1;
        failed = 1;
        total_response_time_ms = 40;
      })
      ∷ [];
}

still_alice : require_user_id long_session report_time used ≡ ok 0
unfolding require_user_id current_user_id is_session_active
still_alice = refl

daily_report_lem_example :
    ((finite (units 2) ≡ nan)
      × (daily_report long_session (finite (units 2)) none report_time used ≡ err invalid_time))
    ⊎ ((span : ℕ) × (report : List (ℕ × Counts)) × Asked (finite (units 2)) span
        × (daily_report long_session (finite (units 2)) none report_time used ≡ ok report)
        × IsReport none report_time used 0 span report)
daily_report_lem_example =
    daily_report_lem long_session (finite (units 2)) none report_time used 0 still_alice
