-- ===== src/Keys/Expiry.antt =====
-- lib/keys.ts, `cleanExpiresAt`.
use api_provider.Prelude.{ℕ, ◌+◌, ◌*◌, ◌/◌, Option, none, some}
use api_provider.Prelude.Tests.{ltb, if◌then◌else◌}
use api_provider.Number.{Number, finite, one, units}
use api_provider.Result.{Result, ok, err, failure}

abbrev pub min_key_lifetime_ms : ℕ
min_key_lifetime_ms = 60 * 60 * 1000

abbrev pub max_key_lifetime_ms : ℕ
max_key_lifetime_ms = 5 * 366 * 24 * 60 * 60 * 1000

-- A finite time, in units of the least number.
abbrev pub expiry_of : ℕ → ℕ → Result (Option ℕ)
expiry_of n now =
    if ltb n (units (now + min_key_lifetime_ms))
    then err (failure "The expiry date must be in the future.")
    else if ltb (units (now + max_key_lifetime_ms)) n
    then err (failure "The expiry date can be at most 5 years ahead.")
    else ok (some (n / one))

unfoldable pub clean_expires_at : Option Number → ℕ → Result (Option ℕ)
clean_expires_at none now = ok none
clean_expires_at (some (finite n)) now = expiry_of n now
clean_expires_at (some _) now = err (failure "The expiry date must be in the future.")
