-- ===== src/Gateway/RateLimit/Windows.antt =====
-- The counter of a bucket and a window, and what a hit does to the counters.
use api_provider.Prelude.{
  ℕ, suc, ◌+◌, ◌-◌, ◌*◌, ◌/◌, ◌≡◌, refl, ◌∙◌, sym, inl, inr, true, false, Option, List, [], ◌∷◌,
  min, arith,
}
use api_provider.Prelude.Tests.{leb, if◌then◌else◌, Bool-cases}
use api_provider.Prelude.Lists.{length, All}
use api_provider.Number.{one, units, le-of-units, units-le}
use api_provider.Time.{minute_ms}
use api_provider.Bucket.{Bucket, same_bucket_refl, same_bucket_sound}
use api_provider.Result.{Result, ok, ◌>>=◌, >>=-eq-ok}
use api_provider.Schema.{RateLimitWindow, State}
use api_provider.Convex.Docs.{Doc}
use api_provider.Convex.Database.{Database}
use api_provider.Convex.Queries.{
  unique, patch_or_insert, value-patch_or_insert, query-patch_or_insert,
}
use api_provider.Gateway.RateLimit.{in_window, count_or_zero, window_state, hit_window, hit}

pub in_window_apart :
    (b b' : Bucket) (start start' : ℕ)
    → ((b ≡ b') × (start ≡ start') → ⊥)
    → (w : RateLimitWindow) → in_window b start w ≡ true
    → in_window b' start' w ≡ false
in_window_apart b b' start start' apart w h = elim (Bool-cases (in_window b' start' w)) [
  | inl there ↦ absurd (
      apart (
        sym (same_bucket_sound w.bucket b (ground arith))
            ∙ same_bucket_sound w.bucket b' (ground arith),
        ground arith,
      ))
  | inr not_there ↦ not_there
]

abbrev row : Bucket → ℕ → ℕ → RateLimitWindow
row b start count = record { bucket = b; window_start = start; count = count }

abbrev counting : ℕ → RateLimitWindow → RateLimitWindow
counting count w = record w { count = count }

pub own_window : (b : Bucket) (start count : ℕ) → in_window b start (row b start count) ≡ true
own_window b start count = ground (arith, same_bucket_refl b)

one_more :
    (limit n m : ℕ)
    → (if leb (units (n + 1)) limit
        then suc (min m (limit / one - (n + 1)))
        else min m (limit / one - (n + 1)))
      ≡ min (suc m) (limit / one - n)
one_more limit n m = ground (arith, le-of-units (n + 1) limit, units-le (n + 1) limit)

module _ ⦃db : Database⦄ where
  -- How often a bucket has been hit in the window that begins at `start`.
  abbrev pub counted : Bucket → ℕ → State → Result ℕ
  counted b start s = unique (in_window b start) s.rate_limit_windows >>= λ d. ok (count_or_zero d)

  abbrev written : Option (Doc RateLimitWindow) → Bucket → ℕ → ℕ → State → State
  written found b start count s = record s {
    rate_limit_windows =
        patch_or_insert found (counting count) (row b start count) s.rate_limit_windows;
  }

  module _ (b : Bucket) (start count : ℕ) (s : State) where
    counted-written :
        (found : Option (Doc RateLimitWindow))
        → unique (in_window b start) s.rate_limit_windows ≡ ok found
        → counted b start (written found b start count s) ≡ ok count
    counted-written found is_found =
        let (d, is_d, has_count) =
          value-patch_or_insert (λ w. w.count) count (in_window b start) (counting count)
            (row b start count) s.rate_limit_windows found is_found (λ x. refl)
            (own_window b start count) (λ x. refl) refl in
        rw (is_d, has_count)

    counted-written_apart :
        (found : Option (Doc RateLimitWindow)) (b' : Bucket) (start' : ℕ)
        → unique (in_window b start) s.rate_limit_windows ≡ ok found
        → ((b ≡ b') × (start ≡ start') → ⊥)
        → counted b' start' (written found b start count s) ≡ counted b' start' s
    counted-written_apart found b' start' is_found apart = rw (
        query-patch_or_insert (in_window b start) (in_window b' start') (counting count)
          (row b start count) s.rate_limit_windows found is_found
          (in_window_apart b b' start start' apart) (λ x. refl) (own_window b start count))

  -- Where the counter of the bucket in the window of `now` can be read, a hit returns, reports the
  -- count with its cost added, sets that counter to it, and leaves every other counter and every
  -- other table alone.
  pub hit_window_lem :
      (b : Bucket) (limit now duration cost n : ℕ) (s : State)
      → let start = now / duration * duration in
        counted b start s ≡ ok n
        → (s' : State) × (hit_window b limit now duration cost s
            ≡ ok (window_state limit (n + cost) (start + duration), s'))
          × (counted b start s' ≡ ok (n + cost))
          × ((b' : Bucket) (start' : ℕ)
              → ((b ≡ b') × (start ≡ start') → ⊥)
              → counted b' start' s' ≡ counted b' start' s)
          × (s' ≡ record s { rate_limit_windows = s'.rate_limit_windows })
  unfolding hit_window
  hit_window_lem b limit now duration cost n s h =
      let start = now / duration * duration in
      let (found, is_found, is_n) =
        >>=-eq-ok (unique (in_window b start) s.rate_limit_windows) _ h in
      let same : count_or_zero found ≡ n = ground arith in
      (
        written found b start (n + cost) s,
        rw (is_found, same),
        counted-written b start (n + cost) s found is_found,
        λ b' start' apart.
            counted-written_apart b start (n + cost) s found b' start' is_found apart,
        refl,
      )

  -- Hits of cost one, one after another, and how many of them are allowed.
  pub hits : Bucket → ℕ → List ℕ → State → Result (ℕ × State)
  hits b limit [] s = ok (0, s)
  hits b limit (now ∷ later) s = do
    (state, s') ← hit b limit now s
    (more, s'') ← hits b limit later s'
    ok (if state.allowed then suc more else more, s'')

  -- Of the hits in one window, exactly as many are allowed as the limit has left.
  pub hits_allowed :
      (b : Bucket) (limit start n : ℕ) (times : List ℕ) (s : State)
      → All (λ now. now / minute_ms * minute_ms ≡ start) times
      → counted b start s ≡ ok n
      → (s' : State) × (hits b limit times s ≡ ok (min (length times) (limit / one - n), s'))
        × (counted b start s' ≡ ok (n + length times))
  unfolding hits hit
  hits_allowed b limit start n [] s same h = (s, ground arith, rw h (ground arith))
  hits_allowed b limit start n (now ∷ later) s same h =
      let (s1, hit_now, counted_now, _, _) =
        hit_window_lem b limit now minute_ms 1 n s (rw (same.0) h) in
      let (s2, hit_later, counted_later) =
        hits_allowed b limit start (n + 1) later s1 same.1 (rw (← same.0) counted_now) in
      (
        s2,
        rw (hit_now, hit_later, one_more limit n (length later)),
        rw counted_later (ground arith),
      )
