-- ===== src/Keys/Lifetime.antt =====
-- How long a key lasts for which `cleanExpiresAt` of lib/keys.ts accepts an expiry.
use native.Mathlib.Decide.{dec_le}
use api_provider.Prelude.{
  ℕ, ◌+◌, ◌*◌, ◌/◌, ◌≤◌, ◌<◌, ◌≡◌, refl, ◌⊎◌, inl, inr, false, Option, none, some, arith,
}
use api_provider.Prelude.Tests.{ltb, Bool-cases}
use api_provider.Number.{
  Number, nan, infinite, minus_infinite, finite, negative, one, units, le-of-units, units-le,
}
use api_provider.Result.{Error, failure, ok, err}
use api_provider.Gateway.Credential.{is_expired}
use api_provider.Keys.Expiry.{expiry_of, clean_expires_at, min_key_lifetime_ms, max_key_lifetime_ms}

is_expired-floor : (n later : ℕ) → is_expired (some (n / one)) later ≡ ltb n (units (later + 1))
is_expired-floor n later = elim (dec_le (units (later + 1)) n) [
  | yes p ↦ ground (arith, p, le-of-units (later + 1) n p)
  | no p ↦ elim (dec_le (later + 1) (n / one)) [
    | yes q ↦ absurd (p (units-le (later + 1) n q))
    | no q ↦ ground (arith, p, q)
  ]
]

-- What `cleanExpiresAt` refuses: what is no finite time, less than an hour ahead, or more than 1830 days.
pub data Refused (now : ℕ) : Number → Type 0 where
  not_a_number : Refused now nan
  never : Refused now infinite
  always : Refused now minus_infinite
  before_1970 : (n : ℕ) → Refused now (negative n)
  too_soon : (n : ℕ) → n < units (now + 3600000) → Refused now (finite n)
  too_far : (n : ℕ) → units (now + 1830 * 86400000) < n → Refused now (finite n)

-- A time that it accepts, as the key stores it: at `later` the key has expired exactly when the whole
-- millisecond after it lies past the time that was asked for.
pub record Lasts (now later : ℕ) (requested : Number) (expiry : ℕ) : Type 0 where
  pub time : ℕ
  pub is_time : requested ≡ finite time
  pub ahead : units (now + 3600000) ≤ time
  pub within : time ≤ units (now + 1830 * 86400000)
  pub expires : is_expired (some expiry) later ≡ ltb time (units (later + 1))

expiry_of_lem :
    (n now later : ℕ)
    → ((t : ℕ) × (expiry_of n now ≡ ok (some t)) × Lasts now later (finite n) t)
      ⊎ (Refused now (finite n) × (e : Error) × (expiry_of n now ≡ err e))
expiry_of_lem n now later = elim (Bool-cases (ltb n (units (now + min_key_lifetime_ms)))) [
  | inl early ↦ inr (
    too_soon n (ground (arith, early)),
    failure "The expiry date must be in the future.",
    rw early refl,
  )
  | inr ahead ↦ elim (Bool-cases (ltb (units (now + max_key_lifetime_ms)) n)) [
    | inl late ↦ inr (
      too_far n (ground (arith, late)),
      failure "The expiry date can be at most 5 years ahead.",
      rw (ahead, late) refl,
    )
    | inr within ↦ inl (
      n / one,
      rw (ahead, within) refl,
      record {
        time = n;
        is_time = refl;
        ahead = ground (arith, ahead);
        within = ground (arith, within);
        expires = is_expired-floor n later;
      },
    )
  ]
]

-- A key for which no expiry is asked never expires. An expiry is refused if it is no finite time, less than
-- an hour ahead or more than 1830 days ahead. Any other is accepted, and then `authorize` takes the key as
-- expired from the millisecond on in which the time that was asked for lies, and not before.
pub clean_expires_at-is_expired :
    (requested : Option Number) (now later : ℕ)
    → ((requested ≡ none)
        × (clean_expires_at requested now ≡ ok none)
        × (is_expired none later ≡ false))
      ⊎ ((r : Number) × (requested ≡ some r)
          × (((t : ℕ) × (clean_expires_at requested now ≡ ok (some t)) × Lasts now later r t)
              ⊎ (Refused now r × (e : Error) × (clean_expires_at requested now ≡ err e))))
unfolding clean_expires_at
clean_expires_at-is_expired none now later = inl (refl, refl, refl)
clean_expires_at-is_expired (some (finite n)) now later =
    inr (finite n, refl, expiry_of_lem n now later)
clean_expires_at-is_expired (some nan) now later = inr (nan, refl, inr (not_a_number, _, refl))
clean_expires_at-is_expired (some infinite) now later = inr (infinite, refl, inr (never, _, refl))
clean_expires_at-is_expired (some minus_infinite) now later =
    inr (minus_infinite, refl, inr (always, _, refl))
clean_expires_at-is_expired (some (negative n)) now later =
    inr (negative n, refl, inr (before_1970 n, _, refl))
