-- ===== src/Time/Calendar.antt =====
-- The periods of `quotaPeriod` in gateway.ts, against the rules of the Gregorian calendar.
use api_provider.Prelude.{
  ℕ, zero, suc, ◌+◌, ◌-◌, ◌*◌, ◌/◌, ◌≤◌, ◌<◌, ◌≡◌, refl, ap, inl, inr, Bool, true, false, List, [],
  ◌∷◌, arith,
}
use api_provider.Prelude.Tests.{ltb, Bool-cases}
use api_provider.Prelude.Lists.{length}
use api_provider.Time.{
  is_leap, year_length, month_lengths, year_from, month_span, month_of, Period, day, month, Span,
  quota_period,
}

-- The leap years from year 1 to year `y`.
abbrev leap_years : ℕ → ℕ
leap_years y = y / 4 + y / 400 - y / 100

-- The days from 1970-01-01 to the first day of a year; there are 477 leap years before 1970.
abbrev first_day : ℕ → ℕ
first_day y = 365 * (y - 1970) + leap_years (y - 1) - 477

-- The days of a year that lie before each of its months, and all of them.
abbrev days_before : Bool → List ℕ
days_before true = 0 ∷ 31 ∷ 60 ∷ 91 ∷ 121 ∷ 152 ∷ 182 ∷ 213 ∷ 244 ∷ 274 ∷ 305 ∷ 335 ∷ 366 ∷ []
days_before false = 0 ∷ 31 ∷ 59 ∷ 90 ∷ 120 ∷ 151 ∷ 181 ∷ 212 ∷ 243 ∷ 273 ∷ 304 ∷ 334 ∷ 365 ∷ []

abbrev at : ℕ → List ℕ → ℕ
at i [] = 0
at zero (n ∷ ns) = n
at (suc i) (n ∷ ns) = at i ns

-- The first day of month `m` of a year, where January is 0 and the next year is month 12.
abbrev pub month_day : ℕ → ℕ → ℕ
month_day y m = first_day y + at m (days_before (is_leap y))

-- A day of 86400000 milliseconds from midnight, or a month from its first midnight to the next one's.
abbrev pub IsPeriod : Period → Span → Type 0
IsPeriod day span = (n : ℕ) × (span.start ≡ n * 86400000) × (span.reset ≡ (n + 1) * 86400000)
IsPeriod month span =
    (y : ℕ) × (m : ℕ) × (1970 ≤ y)
    × (m < 12)
    × (span.start ≡ month_day y m * 86400000)
    × (span.reset ≡ month_day y (suc m) * 86400000)

year_length-pos : (y : ℕ) → 0 < year_length y
unfolding year_length
year_length-pos y = ground arith

first_day-suc : (y : ℕ) → 1970 ≤ y → first_day (y + 1) ≡ first_day y + year_length y
unfolding year_length is_leap
first_day-suc y h = ground arith

-- The walk over the years stops in a year that begins on its first day and holds the day.
year_from_lem :
    (fuel y start rest : ℕ)
    → rest < fuel
    → 1970 ≤ y
    → start ≡ first_day y
    → let (y', first, into) = year_from fuel y start rest in
      (1970 ≤ y') × (first ≡ first_day y') × (first + into ≡ start + rest) × (into < year_length y')
unfolding year_from
year_from_lem zero y start rest h late begins = absurd (omega arith)
year_from_lem (suc fuel) y start rest h late begins = elim (Bool-cases (ltb rest (year_length y))) [
  | inl within ↦ rw within (late, begins, refl, ground arith)
  | inr beyond ↦
      let after =
        year_from_lem fuel (y + 1) (start + year_length y) (rest - year_length y)
          (ground (arith, year_length-pos y)) (omega arith) (omega (arith, first_day-suc y late)) in
      rw beyond (after.0, after.1, ground arith, after.3)
]

-- The first days of months of these lengths, from day `a`.
abbrev starts : ℕ → List ℕ → List ℕ
starts a [] = a ∷ []
starts a (n ∷ ns) = a ∷ starts (a + n) ns

at-starts : (a : ℕ) (ns : List ℕ) → at 0 (starts a ns) ≡ a
at-starts a [] = refl
at-starts a (n ∷ ns) = refl

sum : List ℕ → ℕ
sum [] = 0
sum (n ∷ ns) = n + sum ns

month_span_lem :
    (ns : List ℕ) (first a start rest : ℕ)
    → start ≡ first + a
    → rest < sum ns
    → let (begins, days) = month_span ns start rest in
      (m : ℕ) × (m < length ns)
      × (begins ≡ first + at m (starts a ns))
      × (begins + days ≡ first + at (suc m) (starts a ns))
      × (begins ≤ start + rest)
      × (start + rest < begins + days)
unfolding month_span sum
month_span_lem [] first a start rest same h = absurd (omega arith)
month_span_lem (n ∷ ns) first a start rest same h = elim (Bool-cases (ltb rest n)) [
  | inl within ↦
      rw within
        (0, omega arith, same, omega (arith, at-starts (a + n) ns), omega arith, ground arith)
  | inr beyond ↦
      let (m, few, begins, ends, low, high) =
        month_span_lem ns first (a + n) (start + n) (rest - n) (omega arith) (ground arith) in
      rw beyond (suc m, omega arith, begins, ends, ground arith, ground arith)
]

starts-month_lengths : (y : ℕ) → starts 0 (month_lengths y) ≡ days_before (is_leap y)
unfolding month_lengths
starts-month_lengths y = elim (Bool-cases (is_leap y)) [
  | inl leap ↦ rw leap refl
  | inr common ↦ rw common refl
]

sum-month_lengths : (y : ℕ) → sum (month_lengths y) ≡ year_length y
unfolding month_lengths year_length sum
sum-month_lengths y = elim (Bool-cases (is_leap y)) [
  | inl leap ↦ rw leap refl
  | inr common ↦ rw common refl
]

length-month_lengths : (y : ℕ) → length (month_lengths y) ≡ 12
unfolding month_lengths
length-month_lengths y = refl

month_of_lem :
    (d : ℕ)
    → (y : ℕ) × (m : ℕ) × (1970 ≤ y)
      × (m < 12)
      × ((month_of d).0 ≡ month_day y m)
      × ((month_of d).1 ≡ month_day y (suc m))
      × ((month_of d).0 ≤ d)
      × (d < (month_of d).1)
unfolding month_of
month_of_lem d =
    let year = year_from (suc d) 1970 0 d in
    let (late, first, held, into) =
      year_from_lem (suc d) 1970 0 d (omega arith) (omega arith) refl in
    let (m, few, begins, ends, low, high) =
      month_span_lem (month_lengths year.0) (first_day year.0) 0 year.1 year.2
        (omega (arith, first)) (omega (arith, into, sum-month_lengths year.0)) in
    (
      year.0,
      m,
      late,
      omega (arith, few, length-month_lengths year.0),
      rw (starts-month_lengths year.0) at begins,
      rw (starts-month_lengths year.0) at ends,
      omega (arith, low, held),
      omega (arith, high, held),
    )

-- The period of a day is the day that the time lies in, from midnight to midnight, and that of a month is
-- its month of the Gregorian calendar, from the first midnight to that of the next month. So the
-- counter that a request reads has begun, and resets later.
pub quota_period_lem :
    (now : ℕ) (p : Period)
    → IsPeriod p (quota_period now p)
      × ((quota_period now p).start ≤ now)
      × (now < (quota_period now p).reset)
unfolding quota_period
quota_period_lem now day = ((now / 86400000, refl, omega arith), omega arith, omega arith)
quota_period_lem now month =
    let (y, m, late, few, begins, ends, low, high) = month_of_lem (now / 86400000) in
    (
      (y, m, late, few, ap (λ n. n * 86400000) begins, ap (λ n. n * 86400000) ends),
      omega (arith, low),
      omega (arith, high),
    )
