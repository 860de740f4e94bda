-- ===== src/Examples/Upkeep.antt =====
-- The cron job that deletes what has expired.
use api_provider.Prelude.{ℕ, ◌≡◌, refl, none, some, [], ◌∷◌}
use api_provider.Schema.{State}
use api_provider.Bucket.{word}
use api_provider.Convex.Memory.{memory}
use api_provider.Maintenance.{prune}
use api_provider.Maintenance.Retention.{Retained, prune-Retained}
use api_provider.Examples.{deployment, variables}

-- Ten minutes later, with a window of the first minute and a token that has expired.
abbrev late : ℕ
late = 600000

abbrev stale : State
stale = record deployment {
  rate_limit_windows =
      some (record { bucket = word "key" ∷ []; window_start = 60000; count = 30 })
      ∷ some (record { bucket = word "key" ∷ []; window_start = 540000; count = 1 })
      ∷ [];
  playground_tokens =
      some (record { token_hash = "t"; api_key_id = 0; user_id = 0; expires_at = 90000 }) ∷ [];
}

prune-Retained_example :
    Retained variables late stale 0 (prune variables late stale).0 (prune variables late stale).1
prune-Retained_example = prune-Retained variables late stale 0

abbrev after_prune : State
after_prune = (prune variables late stale).1

one_window_left : memory.get 0 after_prune.rate_limit_windows ≡ none
unfolding prune
one_window_left = refl
