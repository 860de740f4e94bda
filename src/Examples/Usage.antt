-- ===== src/Examples/Usage.antt =====
-- A batch of usage records of the gateway.
use text.Mathlib.Text.{◌==◌ as str_eq}
use api_provider.Prelude.{ℕ, ◌&&◌, String, ◌≡◌, refl, ◌+◌, ◌≤◌, none, some, List, [], ◌∷◌}
use api_provider.Prelude.Tests.{◌==◌, leb, if◌then◌else◌}
use api_provider.Prelude.Lists.{All, length, take}
use api_provider.Number.{one, finite, negative, units}
use api_provider.Result.{ok}
use api_provider.Schema.{ApiRequest, State}
use api_provider.Convex.Memory.{memory}
use api_provider.Convex.Queries.{patch_or_insert}
use api_provider.Gateway.Usage.{
  Ids, Entry, Recorded, record_usage, gather_all, gather, request_of, status_of, time_of,
  response_time_of, write_rollups, write_rollup, mark_used, max_usage_entries,
}
use api_provider.Gateway.Usage.Batch.{requests_of, insert_each}
use api_provider.Gateway.Usage.Rollups.{Column, daily, sum_of, record_usage_lem}
use api_provider.Gateway.Usage.Plausible.{Plausible, record_usage-Plausible}
use api_provider.Env.{require_env}
use api_provider.Gateway.RateLimit.Windows.{counted}
use api_provider.Gateway.Demo.{
  DemoArgs, DemoAnswer, demo_cost, demo_limit, ip_hash, minute_bucket, hour_bucket, endpoint_bucket,
  global_bucket, authorize_demo,
}
use api_provider.Gateway.Demo.Windows.{is_admitted, authorize_demo_lem}
use api_provider.Examples.{now, deployment, variables, result}

-- Ids that are written as one letter.
abbrev pub letters : Ids
letters = record {
  text = λ i. if i == 0 then "a" else "b";
  normalize_id =
      λ name. if str_eq name "a" then some 0 else if str_eq name "b" then some 1 else none;
}

abbrev served : Entry
served = record {
  key_id = "a";
  user_id = "a";
  endpoint = "/v1/geocode";
  method = "GET";
  status_code = finite (units 200);
  response_time_ms = finite (units 20);
  timestamp = finite (units 86400000);
}

-- Two requests, an unknown key, and a time before 1970.
abbrev batch : List Entry
batch =
    served
    ∷ record served { status_code = finite (units 404) }
    ∷ record served { key_id = "c" }
    ∷ record served { timestamp = negative 1 }
    ∷ []

-- The second day of 1970.
abbrev pub later : ℕ
later = 86400000 + now

abbrev recorded : Recorded × State
recorded =
    result (record { written = 0; dropped = 0 }, deployment)
      (record_usage letters batch later deployment)

records : record_usage letters batch later deployment ≡ ok (recorded.0, recorded.1)
unfolding record_usage gather_all gather request_of status_of time_of response_time_of write_rollups
    write_rollup patch_or_insert mark_used one
records = refl

two_written : recorded.0 ≡ record { written = 2; dropped = 2 }
unfolding record_usage gather_all gather request_of status_of time_of response_time_of write_rollups
    write_rollup patch_or_insert mark_used one
two_written = refl

no_daily_rows :
    (c : Column) (key_id : ℕ) (endpoint : String) (day : ℕ)
    → daily c key_id endpoint day deployment.usage_daily ≡ ok 0
no_daily_rows c key_id endpoint day = refl

record_usage_lem_example :
    (answer : Recorded) × (s' : State) × (record_usage letters batch later deployment
      ≡ ok (answer, s'))
    × (answer.written
        ≡ length (requests_of letters later deployment.api_keys (take max_usage_entries batch)))
    × (answer.written + answer.dropped ≡ length batch)
    × (answer.written ≤ max_usage_entries)
    × (s'.api_requests
        ≡ insert_each
            (requests_of letters later deployment.api_keys (take max_usage_entries batch))
            deployment.api_requests)
    × ((c : Column) (key_id : ℕ) (endpoint : String) (day : ℕ)
        → daily c key_id endpoint day s'.usage_daily
          ≡ ok (
              0
              + sum_of c key_id endpoint day
                  (requests_of letters later deployment.api_keys (take max_usage_entries batch))))
record_usage_lem_example =
    record_usage_lem letters batch later deployment (λ c key_id endpoint day. 0) no_daily_rows

record_usage-Plausible_example :
    (new : List ApiRequest) × (recorded.1.api_requests ≡ insert_each new deployment.api_requests)
    × All (Plausible later deployment.api_keys) new
record_usage-Plausible_example =
    record_usage-Plausible letters batch later deployment recorded.1 recorded.0 records

-- A request of the demo, which costs two.
abbrev demo_args : DemoArgs
demo_args = record {
  client_ip = "10.0.0.1";
  endpoint = "geocode";
  cost = units 2;
  minute_limit = units 20;
  hour_limit = units 100;
  global_minute_limit = units 5000;
}

authorize_demo_lem_example :
    (answer : DemoAnswer) × (s' : State) × (authorize_demo variables demo_args now deployment
      ≡ ok (answer, s'))
    × (is_admitted answer ≡ (
        leb (units (0 + demo_cost (units 2))) (demo_limit (units 20) 20)
        && (leb (units (0 + demo_cost (units 2))) (demo_limit (units 100) 100)
            && (leb (units (0 + demo_cost (units 2))) (demo_limit (units 20) 20)
                && leb (units (0 + demo_cost (units 2))) (demo_limit (units 5000) 5000)))))
    × (counted (minute_bucket (ip_hash variables "secret" demo_args)) 60000 s'
        ≡ ok (0 + demo_cost (units 2)))
    × (counted (hour_bucket (ip_hash variables "secret" demo_args)) 0 s'
        ≡ ok (0 + demo_cost (units 2)))
    × (counted (endpoint_bucket (ip_hash variables "secret" demo_args) "geocode") 60000 s'
        ≡ ok (0 + demo_cost (units 2)))
    × (counted global_bucket 60000 s' ≡ ok (0 + demo_cost (units 2)))
    × (s' ≡ record deployment {
      rate_limit_windows = s'.rate_limit_windows;
      security_audit_events = s'.security_audit_events;
    })
    × (1 ≤ demo_cost (units 2))
    × (demo_cost (units 2) ≤ 100)
unfolding require_env
authorize_demo_lem_example =
    authorize_demo_lem variables demo_args now deployment "secret" 0 0 0 0 refl refl refl refl refl
