-- ===== src/Gateway/RateLimit.antt =====
-- gateway.ts: `clampLimit`, `hit`, `hitWindow` and `combine`. A limit and what remains of it are
-- in units of the least number, since a configured rate need not be whole; a count is whole.
pub mod Windows
pub mod Binding
use api_provider.Prelude.{
  ℕ, ◌+◌, ◌-◌, ◌*◌, ◌/◌, String, Bool, true, false, ◌&&◌, Option, none, some, List, [], ◌∷◌, min,
}
use api_provider.Prelude.Tests.{ltb, leb, ◌==◌, if◌then◌else◌}
use api_provider.Prelude.Lists.{all}
use api_provider.Number.{Number, finite, one, units, floor}
use api_provider.Bucket.{Bucket, same_bucket}
use api_provider.Time.{minute_ms}
use api_provider.Result.{Result, ok, err, ◌>>=◌}
use api_provider.Schema.{RateLimitWindow, State}
use api_provider.Convex.Docs.{Doc}
use api_provider.Convex.Database.{Database}
use api_provider.Convex.Queries.{unique, patch_or_insert}

pub record RateLimitState : Type 0 where
  pub limit : ℕ
  pub remaining : ℕ
  pub reset : ℕ
  pub allowed : Bool

abbrev pub max_limit : ℕ
max_limit = 100000

unfoldable pub clamp_limit : Option Number → ℕ → ℕ
clamp_limit (some (finite n)) fallback =
    if leb one n then min (floor n) (units max_limit) else fallback
clamp_limit _ fallback = fallback

abbrev pub in_window : Bucket → ℕ → RateLimitWindow → Bool
in_window bucket start w = same_bucket w.bucket bucket && w.window_start == start

-- `existing?.count ?? 0`
abbrev pub count_or_zero : Option (Doc RateLimitWindow) → ℕ
count_or_zero none = 0
count_or_zero (some d) = d.value.count

abbrev pub window_state : ℕ → ℕ → ℕ → RateLimitState
window_state limit count end = record {
  limit = limit;
  remaining = limit - units count;
  reset = end / 1000;
  allowed = leb (units count) limit;
}

module _ ⦃db : Database⦄ where
  unfoldable pub hit_window : Bucket → ℕ → ℕ → ℕ → ℕ → State → Result (RateLimitState × State)
  hit_window bucket limit now duration_ms cost s = do
    let start : ℕ = now / duration_ms * duration_ms
    existing ← unique (in_window bucket start) s.rate_limit_windows
    let count : ℕ = count_or_zero existing + cost
    let windows =
        patch_or_insert existing (λ w. record w { count = count })
          (record { bucket = bucket; window_start = start; count = count }) s.rate_limit_windows
    ok (window_state limit count (start + duration_ms), record s { rate_limit_windows = windows })

  unfoldable pub hit : Bucket → ℕ → ℕ → State → Result (RateLimitState × State)
  unfolding hit_window
  hit bucket limit now s = hit_window bucket limit now minute_ms 1 s

-- The comparator of `combine`, rest "`b` comes strictly before `a`".
abbrev pub comes_before : RateLimitState → RateLimitState → Bool
comes_before b a =
    if b.allowed
    then (if a.allowed then ltb b.remaining a.remaining else false)
    else (if a.allowed then true else ltb b.remaining a.remaining)

-- The stable `sort` of JavaScript's arrays, over that comparator.
unfoldable pub insert_sorted : RateLimitState → List RateLimitState → List RateLimitState
insert_sorted a [] = a ∷ []
insert_sorted a (b ∷ bs) =
    let later = insert_sorted a bs in if comes_before b a then b ∷ later else a ∷ b ∷ bs

unfoldable pub sorted : List RateLimitState → List RateLimitState
unfolding insert_sorted
sorted [] = []
sorted (a ∷ rest) = insert_sorted a (sorted rest)

-- `{ ...binding, allowed }`, of at least one state (the source gives two or more).
abbrev nothing_binds : RateLimitState
nothing_binds = record { limit = 0; remaining = 0; reset = 0; allowed = true }

abbrev pub first_or : RateLimitState → List RateLimitState → RateLimitState
first_or a [] = a
first_or a (b ∷ bs) = b

unfoldable pub combine : List RateLimitState → RateLimitState
unfolding sorted
combine states =
    let binding = first_or nothing_binds (sorted states) in
    record binding { allowed = all (λ s. s.allowed) states }
