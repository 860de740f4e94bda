-- ===== src/Examples/Limits.antt =====
-- Rate limits and quotas.
use api_provider.Prelude.{
  ℕ, ◌+◌, ◌-◌, ◌/◌, ◌≤◌, ◌<◌, ◌≡◌, refl, ◌⊎◌, true, false, none, some, [], ◌∷◌, min,
}
use api_provider.Prelude.Tests.{leb}
use api_provider.Prelude.Lists.{All, all}
use api_provider.Number.{one, units}
use api_provider.Bucket.{Bucket, word, id}
use api_provider.Time.{minute_ms, month, quota_period}
use api_provider.Time.Calendar.{IsPeriod, quota_period_lem}
use api_provider.Result.{ok}
use api_provider.Schema.{ApiKey, State}
use api_provider.Convex.Docs.{Doc}
use api_provider.Convex.Memory.{memory}
use api_provider.Gateway.RateLimit.{RateLimitState, combine, hit_window, window_state}
use api_provider.Gateway.RateLimit.Windows.{counted, hit_window_lem, hits, hits_allowed}
use api_provider.Gateway.RateLimit.Binding.{Binds, combine-Binds}
use api_provider.Gateway.Quota.{quota_specs, consume_customer_quotas}
use api_provider.Gateway.Quota.Atomic.{consume_customer_quotas_lem}
use api_provider.Gateway.Quota.Writes.{used}
use api_provider.Examples.{now, alice_key, deployment, variables}

abbrev bucket : Bucket
bucket = word "key" ∷ id 0 ∷ []

abbrev key_document : Doc ApiKey
key_document = record { id = 0; created = 0; value = alice_key }

hit_window_lem_example :
    (s' : State) × (hit_window bucket (units 2) now minute_ms 1 deployment
      ≡ ok (window_state (units 2) (0 + 1) (60000 + minute_ms), s'))
    × (counted bucket 60000 s' ≡ ok (0 + 1))
    × ((b' : Bucket) (start' : ℕ)
        → ((bucket ≡ b') × (60000 ≡ start') → ⊥)
        → counted b' start' s' ≡ counted b' start' deployment)
    × (s' ≡ record deployment { rate_limit_windows = s'.rate_limit_windows })
hit_window_lem_example = hit_window_lem bucket (units 2) now minute_ms 1 0 deployment refl

hits_allowed_example :
    (s' : State) × (hits bucket (units 1) (90000 ∷ 91000 ∷ []) deployment
      ≡ ok (min 2 (units 1 / one - 0), s'))
    × (counted bucket 60000 s' ≡ ok (0 + 2))
hits_allowed_example =
    hits_allowed bucket (units 1) 60000 0 (90000 ∷ 91000 ∷ []) deployment (refl, (refl, tt)) refl

abbrev roomy : RateLimitState
roomy = record { limit = 10; remaining = 7; reset = 60; allowed = true }

abbrev full : RateLimitState
full = record { limit = 5; remaining = 0; reset = 60; allowed = false }

combine-Binds_example : Binds (combine (roomy ∷ full ∷ [])) (roomy ∷ full ∷ [])
combine-Binds_example = combine-Binds roomy (full ∷ [])

-- A customer of the free tier, whose counters have not begun.
consume_customer_quotas_lem_example :
    let specs = quota_specs variables key_document (some "geocode") none in
    let within = all (λ spec. leb (0 + 1) spec.limit) specs in
    (r : RateLimitState) × (s' : State) × (consume_customer_quotas variables key_document
        (some "geocode")
        now
        none
        deployment
      ≡ ok (r, s'))
    × (r.allowed ≡ within)
    × (((within ≡ false) × (s' ≡ deployment))
        ⊎ ((within ≡ true) × All (λ spec. used now spec s'.quota_windows ≡ ok (0 + 1)) specs))
unfolding quota_specs
consume_customer_quotas_lem_example =
    consume_customer_quotas_lem variables key_document (some "geocode") now none deployment (λ _. 0)
      (refl, (refl, (refl, (refl, (refl, tt)))))

quota_period_lem_example :
    IsPeriod month (quota_period now month)
    × ((quota_period now month).start ≤ now)
    × (now < (quota_period now month).reset)
quota_period_lem_example = quota_period_lem now month
