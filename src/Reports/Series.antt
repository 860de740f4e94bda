-- ===== src/Reports/Series.antt =====
-- What the report of the days shows.
use native.Mathlib.Decide.{dec_le}
use api_provider.Prelude.{
  ℕ, zero, suc, ◌+◌, ◌-◌, ◌*◌, ◌/◌, min, max, subst, none, some, ◌⊎◌, ◌≤◌, ◌<◌, ◌≡◌, refl, ap, ◌∙◌,
  inl, inr, Bool, ◌&&◌, Option, List, [], ◌∷◌, arith,
}
use api_provider.Prelude.Tests.{◌==◌, if◌then◌else◌, Bool-cases}
use api_provider.Prelude.Lists.{filter, length, All}
use api_provider.Number.{
  Number, nan, infinite, minus_infinite, finite, negative, one, units, floor-le, le-of-units,
  units-le,
}
use api_provider.Result.{ok, err}
use api_provider.Schema.{UsageDaily, State}
use api_provider.Session.{Auth, require_user_id}
use api_provider.Convex.Docs.{Doc}
use api_provider.Convex.Database.{Database}
use api_provider.Reports.{
  Counts, empty, add_row, add_rows, span_of, invalid_time, day_from, of_chosen_key, counts_on,
  add_on, by_day, series, rows_since, daily_report, max_series_days,
}

-- The rows of a day, of the chosen key where one is chosen.
abbrev pub is_counted : Option ℕ → ℕ → Doc UsageDaily → Bool
is_counted key_id at d = of_chosen_key key_id d.value && d.value.day == at

counts_on-add_on :
    (at : ℕ) (row : UsageDaily) (m : List (ℕ × Counts))
    → counts_on at (add_on row m)
      ≡ (if row.day == at then add_row row (counts_on at m) else counts_on at m)
counts_on-add_on at row [] = ground arith
counts_on-add_on at row ((other, c) ∷ more) = ground (arith, counts_on-add_on at row more)

counts_on-by_day :
    (key_id : Option ℕ) (at : ℕ) (rows : List (Doc UsageDaily)) (m : List (ℕ × Counts))
    → counts_on at (by_day key_id rows m)
      ≡ add_rows (filter (is_counted key_id at) rows) (counts_on at m)
counts_on-by_day key_id at [] m = refl
counts_on-by_day key_id at (d ∷ rows) m = elim (Bool-cases (of_chosen_key key_id d.value)) [
  | inl chosen ↦ elim (Bool-cases (d.value.day == at)) [
    | inl here ↦
        rw (chosen, here)
          (counts_on-by_day key_id at rows (add_on d.value m)
            ∙ ap (add_rows (filter (is_counted key_id at) rows))
                (rw here at (counts_on-add_on at d.value m)))
    | inr there ↦
        rw (chosen, there)
          (counts_on-by_day key_id at rows (add_on d.value m)
            ∙ ap (add_rows (filter (is_counted key_id at) rows))
                (rw there at (counts_on-add_on at d.value m)))
  ]
  | inr other ↦ rw other (counts_on-by_day key_id at rows m)
]

module _ (key_id : Option ℕ) (rows : List (Doc UsageDaily)) where
  -- An entry of a report: a day, and the sums of its rows.
  abbrev pub IsSum : ℕ × Counts → Type 0
  IsSum entry = entry.1 ≡ add_rows (filter (is_counted key_id entry.0) rows) empty

  series-IsSum : (n first : ℕ) → All IsSum (series n first (by_day key_id rows []))
  series-IsSum zero first = tt
  series-IsSum (suc n) first = (counts_on-by_day key_id first rows [], series-IsSum n (first + 1))

  length-series : (n first : ℕ) (m : List (ℕ × Counts)) → length (series n first m) ≡ n
  length-series zero first m = refl
  length-series (suc n) first m = omega (arith, length-series n (first + 1) m)

  -- The days of a report follow each other.
  abbrev pub Consecutive : ℕ → List (ℕ × Counts) → Type 0
  Consecutive first [] = Unit
  Consecutive first (entry ∷ more) = (entry.0 ≡ first) × Consecutive (first + 1) more

  series-Consecutive : (n first : ℕ) (m : List (ℕ × Counts)) → Consecutive first (series n first m)
  series-Consecutive zero first m = tt
  series-Consecutive (suc n) first m = (refl, series-Consecutive n (first + 1) m)

-- How many days a report has: the whole part of what was asked for, but at least 1 and at most 90.
pub data Asked : Number → ℕ → Type 0 where
  some_days : (n d : ℕ) → units d ≤ n → n < units (d + 1) → 1 ≤ d → d ≤ 90 → Asked (finite n) d
  too_many : (n : ℕ) → units 90 ≤ n → Asked (finite n) 90
  too_few : (n : ℕ) → n < units 1 → Asked (finite n) 1
  below_zero : (n : ℕ) → Asked (negative n) 1
  all_days : Asked infinite 90
  no_days : Asked minus_infinite 1

above : (k n : ℕ) → n / one < k → n < units k
above k n h = elim (dec_le (units k) n) [
  | yes p ↦ absurd (omega (arith, h, le-of-units k n p))
  | no p ↦ omega (arith, p)
]

Asked-finite : (n : ℕ) → Asked (finite n) (min (max 1 (n / one)) max_series_days)
Asked-finite n = elim (dec_le 1 (n / one)) [
  | no p ↦ subst (Asked (finite n)) (omega (arith, p)) (too_few n (above 1 n (omega (arith, p))))
  | yes p ↦ elim (dec_le (n / one) 90) [
    | yes q ↦
        subst (Asked (finite n)) (omega (arith, p, q))
          (some_days n (n / one) (floor-le n) (above (n / one + 1) n (omega arith)) p q)
    | no q ↦
        subst (Asked (finite n)) (omega (arith, p, q))
          (too_many n (units-le 90 n (omega (arith, q))))
  ]
]

Asked-bounds : (days : Number) (span : ℕ) → Asked days span → (1 ≤ span) × (span ≤ 90)
Asked-bounds _ _ (some_days n d low high p q) = (p, q)
Asked-bounds _ _ (too_many n low) = (omega arith, omega arith)
Asked-bounds _ _ (too_few n high) = (omega arith, omega arith)
Asked-bounds _ _ (below_zero n) = (omega arith, omega arith)
Asked-bounds _ _ all_days = (omega arith, omega arith)
Asked-bounds _ _ no_days = (omega arith, omega arith)

-- The span of a report, unless NaN was asked for.
span_of-Asked :
    (days : Number)
    → ((days ≡ nan) × (span_of days ≡ none))
      ⊎ ((span : ℕ) × (span_of days ≡ some span) × Asked days span)
span_of-Asked nan = inl (refl, refl)
span_of-Asked infinite = inr (90, refl, all_days)
span_of-Asked minus_infinite = inr (1, refl, no_days)
span_of-Asked (negative n) = inr (1, refl, below_zero n)
span_of-Asked (finite n) = inr (min (max 1 (n / one)) max_series_days, refl, Asked-finite n)

module _ ⦃db : Database⦄ where
  -- The rows of an account from a day on, as the index gives them.
  abbrev pub own_rows : ℕ → ℕ → State → List (Doc UsageDaily)
  own_rows user_id first s =
      db.query_from (λ (row : UsageDaily). row.user_id == user_id) (λ (row : UsageDaily). row.day)
        first s.usage_daily

  -- A report of `span` days in a row, up to today. Each has the sums of the rows of that day, of the
  -- chosen key or of all keys, and of no other.
  pub record IsReport (key_id : Option ℕ) (now : ℕ) (s : State) (user_id span : ℕ)
      (report : List (ℕ × Counts)) : Type 0 where
    pub size : length report ≡ span
    pub bounds : (1 ≤ span) × (span ≤ max_series_days)
    -- The days end with today's, unless they would begin before 1970.
    pub first : ℕ
    pub up_to_today : (now < (span - 1) * 86400000) ⊎ (first + span ≡ now / 86400000 + 1)
    pub in_a_row : Consecutive key_id (own_rows user_id first s) first report
    pub sums : All (IsSum key_id (own_rows user_id first s)) report

  ends_today :
      (now span : ℕ)
      → 1 ≤ span
      → (now < (span - 1) * 86400000) ⊎ (day_from now span + span ≡ now / 86400000 + 1)
  ends_today now span some_day = elim (dec_le ((span - 1) * 86400000) now) [
    | yes p ↦ inr (omega (arith, p))
    | no p ↦ inl (omega (arith, p))
  ]

  series-IsReport :
      (key_id : Option ℕ) (now : ℕ) (s : State) (user_id span : ℕ)
      → 1 ≤ span
      → span ≤ max_series_days
      → let rows = rows_since user_id (day_from now span) s in
        IsReport key_id now s user_id span (series span (day_from now span) (by_day key_id rows []))
  series-IsReport key_id now s user_id span some_day few =
      let first = day_from now span in
      let rows = rows_since user_id first s in
      record {
        size = length-series key_id rows span first (by_day key_id rows []);
        bounds = (some_day, few);
        first = first;
        up_to_today = ends_today now span some_day;
        in_a_row = series-Consecutive key_id rows span first (by_day key_id rows []);
        sums = series-IsSum key_id rows span first;
      }

  -- For a developer who has signed in, the report has 1 to 90 days in a row up to today, as many as
  -- were asked for between these bounds. Each has the sums of the rows of that day, of the chosen key or
  -- of all keys, and of no other. Where NaN days are asked for, the query throws.
  pub daily_report_lem :
      (auth : Auth) (days : Number) (key_id : Option ℕ) (now : ℕ) (s : State) (user_id : ℕ)
      → require_user_id auth now s ≡ ok user_id
      → ((days ≡ nan) × (daily_report auth days key_id now s ≡ err invalid_time))
        ⊎ ((span : ℕ) × (report : List (ℕ × Counts)) × Asked days span
            × (daily_report auth days key_id now s ≡ ok report)
            × IsReport key_id now s user_id span report)
  unfolding daily_report
  daily_report_lem auth days key_id now s user_id signed_in = elim (span_of-Asked days) [
    | inl (is_nan, no_span) ↦ inl (is_nan, rw (signed_in, no_span) refl)
    | inr (span, is_span, asked) ↦
        let bounds = Asked-bounds days span asked in
        inr (
          span,
          _,
          asked,
          rw (signed_in, is_span) refl,
          series-IsReport key_id now s user_id span bounds.0 bounds.1,
        )
  ]
