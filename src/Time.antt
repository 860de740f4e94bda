-- ===== src/Time.antt =====
-- lib/time.ts, and the UTC calendar of `quotaPeriod` in gateway.ts. `year_from` and `month_span`
-- stand for JavaScript's Date: they walk the years and the months from 1970.
pub mod Calendar
use api_provider.Prelude.{
  ℕ, zero, suc, ◌+◌, ◌-◌, ◌*◌, ◌/◌, ◌%◌, Bool, ◌&&◌, ◌||◌, not, List, [], ◌∷◌,
}
use api_provider.Prelude.Tests.{ltb, ◌==◌, if◌then◌else◌}

abbrev pub minute_ms : ℕ
minute_ms = 60000

abbrev pub day_ms : ℕ
day_ms = 86400000

-- The day that a time falls on, for `utcDay`, which prints it.
abbrev pub utc_day : ℕ → ℕ
utc_day timestamp = timestamp / day_ms

unfoldable pub window_start : ℕ → ℕ → ℕ
window_start timestamp window_ms = timestamp / window_ms * window_ms

unfoldable pub is_leap : ℕ → Bool
is_leap y = y % 4 == 0 && (not (y % 100 == 0) || y % 400 == 0)

unfoldable pub year_length : ℕ → ℕ
year_length y = if is_leap y then 366 else 365

unfoldable pub month_lengths : ℕ → List ℕ
month_lengths y =
    31 ∷ (if is_leap y then 29 else 28) ∷ 31 ∷ 30 ∷ 31 ∷ 30 ∷ 31 ∷ 31 ∷ 30 ∷ 31 ∷ 30 ∷ 31 ∷ []

-- From year `y`, which begins on day `start`, to the year of the day `rest` days later: the year,
-- its first day, and the days into it.
unfoldable pub year_from : ℕ → ℕ → ℕ → ℕ → ℕ × ℕ × ℕ
year_from zero y start rest = (y, start, rest)
year_from (suc fuel) y start rest =
    let later = year_from fuel (y + 1) (start + year_length y) (rest - year_length y) in
    if ltb rest (year_length y) then (y, start, rest) else later

-- The first day and the length of the month that holds the day; a year has months enough.
unfoldable pub month_span : List ℕ → ℕ → ℕ → ℕ × ℕ
month_span [] start rest = (start, 0)
month_span (n ∷ ns) start rest =
    if ltb rest n then (start, n) else month_span ns (start + n) (rest - n)

-- `Date.UTC(year, month, 1)` and `Date.UTC(year, month + 1, 1)`, in days.
unfoldable pub month_of : ℕ → ℕ × ℕ
month_of day =
    let (y, start, rest) = year_from (suc day) 1970 0 day in
    let (first, days) = month_span (month_lengths y) start rest in (first, first + days)

-- The first day of the month that a time falls in, for `utcMonthStartDay`, which prints it.
unfoldable pub utc_month_start_day : ℕ → ℕ
unfolding month_of
utc_month_start_day timestamp = (month_of (timestamp / day_ms)).0

pub data Period : Type 0 where
  day month : Period

pub record Span : Type 0 where
  pub start : ℕ
  pub reset : ℕ

unfoldable pub quota_period : ℕ → Period → Span
quota_period now day =
    let start = now / day_ms * day_ms in
    record { start = start; reset = start + 24 * 60 * minute_ms }
quota_period now month =
    let (first, next) = month_of (now / day_ms) in
    record { start = first * day_ms; reset = next * day_ms }
