-- ===== src/Gateway/Usage/Rollups.antt =====
-- The daily rows are the counts of the request rows.
use text.Mathlib.Text.{◌==◌ as str_eq}
use text.Mathlib.TextEquality.{eq_iff}
use text.Mathlib.TextPositions.{eq_refl}
use api_provider.Prelude.{
  ℕ, ◌+◌, ◌-◌, ◌≤◌, ◌≡◌, refl, ap, ◌∙◌, inl, inr, String, Bool, true, false, ◌&&◌, Option, none,
  some, List, [], ◌∷◌, arith,
}
use api_provider.Prelude.Tests.{◌==◌, if◌then◌else◌, Bool-cases}
use api_provider.Prelude.Lists.{length, take, length-take}
use api_provider.Result.{Result, ok, ◌>>=◌, >>=-eq-ok}
use api_provider.Schema.{ApiRequest, UsageDaily, State}
use api_provider.Convex.Docs.{Doc}
use api_provider.Convex.Database.{Database}
use api_provider.Convex.Queries.{
  unique, at_most_one, patch_or_insert, unique-patch_or_insert, query-patch_or_insert,
}
use api_provider.Gateway.Usage.{
  Entry, Ids, Recorded, day_of, in_daily, is_failed, count_request, empty_rollup, add_rollup,
  merged, write_rollup, write_rollups, gather_all, none_gathered, max_usage_entries, record_usage,
  mark_used,
}
use api_provider.Gateway.Usage.Batch.{
  add_rollups, requests_of, insert_each, gather_all-Adds, length-requests_of,
}

-- The columns of a daily row.
pub data Column : Type 0 where
  requests successes failures time_spent : Column

abbrev pub cell : Column → UsageDaily → ℕ
cell requests u = u.total
cell successes u = u.successful
cell failures u = u.failed
cell time_spent u = u.total_response_time_ms

-- What a request adds to a column.
abbrev pub weight : Column → ApiRequest → ℕ
weight requests r = 1
weight successes r = if is_failed r.status_code then 0 else 1
weight failures r = if is_failed r.status_code then 1 else 0
weight time_spent r = r.response_time_ms

cell-count_request :
    (c : Column) (r : ApiRequest) (u : UsageDaily)
    → cell c (count_request r u) ≡ cell c u + weight c r
cell-count_request requests r u = refl
cell-count_request successes r u = ground arith
cell-count_request failures r u = ground arith
cell-count_request time_spent r u = refl

cell-merged : (c : Column) (r u : UsageDaily) → cell c (merged r u) ≡ cell c u + cell c r
cell-merged requests r u = refl
cell-merged successes r u = refl
cell-merged failures r u = refl
cell-merged time_spent r u = refl

cell-empty_rollup : (c : Column) (r : ApiRequest) → cell c (empty_rollup r) ≡ 0
cell-empty_rollup requests r = refl
cell-empty_rollup successes r = refl
cell-empty_rollup failures r = refl
cell-empty_rollup time_spent r = refl

abbrev pub is_on : ℕ → String → ℕ → ApiRequest → Bool
is_on key_id endpoint day r =
    r.api_key_id == key_id && str_eq r.endpoint endpoint && day_of r == day

abbrev pub only : Bool → ℕ → ℕ
only b n = if b then n else 0

-- A column over the requests of a key, an endpoint and a day, and over the gathered rollups.
abbrev pub sum_of : Column → ℕ → String → ℕ → List ApiRequest → ℕ
sum_of c key_id endpoint day [] = 0
sum_of c key_id endpoint day (r ∷ rs) =
    only (is_on key_id endpoint day r) (weight c r) + sum_of c key_id endpoint day rs

abbrev sum_in : Column → ℕ → String → ℕ → List UsageDaily → ℕ
sum_in c key_id endpoint day [] = 0
sum_in c key_id endpoint day (u ∷ us) =
    only (in_daily key_id endpoint day u) (cell c u) + sum_in c key_id endpoint day us

-- Whether two rows are of one key, endpoint and day.
abbrev same_row : ℕ → String → ℕ → ℕ → String → ℕ → Bool
same_row key_id endpoint day key_id' endpoint' day' =
    key_id == key_id' && str_eq endpoint endpoint' && day == day'

same_row_sound :
    (key_id key_id' : ℕ) (endpoint endpoint' : String) (day day' : ℕ)
    → same_row key_id endpoint day key_id' endpoint' day' ≡ true
    → (key_id ≡ key_id') × (endpoint ≡ endpoint') × (day ≡ day')
same_row_sound key_id key_id' endpoint endpoint' day day' h =
    (ground (arith, h), (eq_iff endpoint endpoint').0 (ground (arith, h)), ground (arith, h))

in_daily_same :
    (r : ApiRequest) (u : UsageDaily) (key_id : ℕ) (endpoint : String) (day : ℕ)
    → in_daily r.api_key_id r.endpoint (day_of r) u ≡ true
    → in_daily key_id endpoint day u ≡ is_on key_id endpoint day r
in_daily_same r u key_id endpoint day h =
    let (same_key, same_endpoint, same_day) =
      same_row_sound u.api_key_id r.api_key_id u.endpoint r.endpoint u.day (day_of r) h in
    rw (same_key, same_endpoint, same_day)

only_add : (b : Bool) (m n k : ℕ) → only b (m + n) + k ≡ only b m + k + only b n
only_add true m n k = omega arith
only_add false m n k = omega arith

sum_in-add_rollup :
    (c : Column) (key_id : ℕ) (endpoint : String) (day : ℕ) (r : ApiRequest) (us : List UsageDaily)
    → sum_in c key_id endpoint day (add_rollup r us)
      ≡ sum_in c key_id endpoint day us + only (is_on key_id endpoint day r) (weight c r)
sum_in-add_rollup c key_id endpoint day r [] =
    ground (arith, cell-count_request c r (empty_rollup r), cell-empty_rollup c r)
sum_in-add_rollup c key_id endpoint day r (u ∷ us) =
    elim (Bool-cases (in_daily r.api_key_id r.endpoint (day_of r) u)) [
      | inl same ↦
          rw (same, in_daily_same r u key_id endpoint day same, cell-count_request c r u)
            (only_add (is_on key_id endpoint day r) (cell c u) (weight c r)
              (sum_in c key_id endpoint day us))
      | inr other ↦ rw other (omega (arith, sum_in-add_rollup c key_id endpoint day r us))
    ]

sum_in-add_rollups :
    (c : Column) (key_id : ℕ) (endpoint : String) (day : ℕ) (rs : List ApiRequest)
    (us : List UsageDaily)
    → sum_in c key_id endpoint day (add_rollups rs us)
      ≡ sum_in c key_id endpoint day us + sum_of c key_id endpoint day rs
sum_in-add_rollups c key_id endpoint day [] us = omega arith
sum_in-add_rollups c key_id endpoint day (r ∷ rs) us = omega (
  arith,
  sum_in-add_rollups c key_id endpoint day rs (add_rollup r us),
  sum_in-add_rollup c key_id endpoint day r us,
)

module _ ⦃db : Database⦄ where
  open db use {Table}

  abbrev cell_or_zero : Column → Option (Doc UsageDaily) → ℕ
  cell_or_zero c none = 0
  cell_or_zero c (some d) = cell c d.value

  -- A column of the daily row of a key, an endpoint and a day; 0 where there is no row.
  abbrev pub daily : Column → ℕ → String → ℕ → Table UsageDaily → Result ℕ
  daily c key_id endpoint day t =
      unique (in_daily key_id endpoint day) t >>= λ o. ok (cell_or_zero c o)

  daily-found :
      (c : Column) (key_id : ℕ) (endpoint : String) (day n : ℕ) (t : Table UsageDaily)
      → daily c key_id endpoint day t ≡ ok n
      → (o : Option (Doc UsageDaily)) × (unique (in_daily key_id endpoint day) t ≡ ok o)
        × (cell_or_zero c o ≡ n)
  daily-found c key_id endpoint day n t h =
      let (o, is_o, h') =
        >>=-eq-ok (unique (in_daily key_id endpoint day) t) (λ o. ok (cell_or_zero c o)) h in
      (o, is_o, ground (arith, h'))

  own_row : (r : UsageDaily) → in_daily r.api_key_id r.endpoint r.day r ≡ true
  own_row r = ground (arith, eq_refl r.endpoint)

  daily-written :
      (c : Column) (r : UsageDaily) (t : Table UsageDaily) (o : Option (Doc UsageDaily))
      → unique (in_daily r.api_key_id r.endpoint r.day) t ≡ ok o
      → daily c r.api_key_id r.endpoint r.day (patch_or_insert o (merged r) r t)
        ≡ ok (cell_or_zero c o + cell c r)
  daily-written c r t none h =
      rw
        (unique-patch_or_insert (in_daily r.api_key_id r.endpoint r.day) (merged r) r t none h
          (λ x. refl) (own_row r))
        (ground arith)
  daily-written c r t (some d) h = rw (
    unique-patch_or_insert (in_daily r.api_key_id r.endpoint r.day) (merged r) r t (some d) h
        (λ x. refl) (own_row r),
    cell-merged c r d.value,
  )

  row_apart :
      (r : UsageDaily) (key_id : ℕ) (endpoint : String) (day : ℕ)
      → same_row r.api_key_id r.endpoint r.day key_id endpoint day ≡ false
      → (u : UsageDaily) → in_daily r.api_key_id r.endpoint r.day u ≡ true
      → in_daily key_id endpoint day u ≡ false
  row_apart r key_id endpoint day apart u h =
      let (same_key, same_endpoint, same_day) =
        same_row_sound u.api_key_id r.api_key_id u.endpoint r.endpoint u.day r.day h in
      rw (same_key, same_endpoint, same_day) apart

  own_before :
      (c : Column) (o : Option (Doc UsageDaily)) {n : ℕ}
      → ◌≡◌ {A = Result ℕ} (ok (cell_or_zero c o)) (ok n)
      → cell_or_zero c o ≡ n
  own_before c o h = ground arith

  -- One rollup adds its cells to its own row, and to no other.
  daily-write_rollup :
      (r : UsageDaily) (t : Table UsageDaily) (before : Column → ℕ → String → ℕ → ℕ)
      → ((c : Column) (key_id : ℕ) (endpoint : String) (day : ℕ)
          → daily c key_id endpoint day t ≡ ok (before c key_id endpoint day))
      → (t' : Table UsageDaily) × (write_rollup r t ≡ ok t')
        × ((c : Column) (key_id : ℕ) (endpoint : String) (day : ℕ)
            → daily c key_id endpoint day t'
              ≡ ok
                  (before c key_id endpoint day + only (in_daily key_id endpoint day r) (cell c r)))
  unfolding write_rollup
  daily-write_rollup r t before h =
      let (o, is_o, is_before) =
        daily-found requests r.api_key_id r.endpoint r.day _ t
          (h requests r.api_key_id r.endpoint r.day) in
      (
        patch_or_insert o (merged r) r t,
        rw is_o refl,
        λ c key_id endpoint day.
            elim (Bool-cases (same_row r.api_key_id r.endpoint r.day key_id endpoint day)) [
              | inl same ↦
                  let (same_key, same_endpoint, same_day) =
                    same_row_sound r.api_key_id key_id r.endpoint endpoint r.day day same in
                  rw (← same_key, ← same_endpoint, ← same_day, own_row r)
                    (daily-written c r t o is_o
                      ∙ ap (λ n. ok (n + cell c r))
                          (own_before c o (rw is_o at (h c r.api_key_id r.endpoint r.day))))
              | inr other ↦ rw other (
                  ap (λ m. m >>= λ x. ok (cell_or_zero c x))
                    (ap at_most_one (
                      query-patch_or_insert (in_daily r.api_key_id r.endpoint r.day)
                        (in_daily key_id endpoint day) (merged r) r t o is_o
                        (row_apart r key_id endpoint day other) (λ x. refl) (own_row r)))
                  ∙ h c key_id endpoint day
                  ∙ ap ok (omega arith))
            ],
      )

  daily-write_rollups :
      (rs : List UsageDaily) (t : Table UsageDaily) (before : Column → ℕ → String → ℕ → ℕ)
      → ((c : Column) (key_id : ℕ) (endpoint : String) (day : ℕ)
          → daily c key_id endpoint day t ≡ ok (before c key_id endpoint day))
      → (t' : Table UsageDaily) × (write_rollups rs t ≡ ok t')
        × ((c : Column) (key_id : ℕ) (endpoint : String) (day : ℕ)
            → daily c key_id endpoint day t'
              ≡ ok (before c key_id endpoint day + sum_in c key_id endpoint day rs))
  unfolding write_rollups
  daily-write_rollups [] t before h =
      (t, refl, λ c key_id endpoint day. h c key_id endpoint day ∙ ap ok (omega arith))
  daily-write_rollups (r ∷ rs) t before h =
      let (t1, first, after) = daily-write_rollup r t before h in
      let (t2, later, after') =
        daily-write_rollups rs t1
          (λ c key_id endpoint day.
            before c key_id endpoint day + only (in_daily key_id endpoint day r) (cell c r))
          after in
      (
        t2,
        rw (first, later),
        λ c key_id endpoint day. after' c key_id endpoint day ∙ ap ok (omega arith),
      )

  -- Where each daily row can be read, `recordUsage` returns. It appends a request row for each entry
  -- that passes among the first 200, answers how many these are and how many were dropped, and every
  -- column of every daily row grows by exactly what these requests add to it.
  pub record_usage_lem :
      (ids : Ids) (entries : List Entry) (now : ℕ) (s : State)
      (before : Column → ℕ → String → ℕ → ℕ)
      → ((c : Column) (key_id : ℕ) (endpoint : String) (day : ℕ)
          → daily c key_id endpoint day s.usage_daily ≡ ok (before c key_id endpoint day))
      → let new = requests_of ids now s.api_keys (take max_usage_entries entries) in
        (answer : Recorded) × (s' : State) × (record_usage ids entries now s ≡ ok (answer, s'))
        × (answer.written ≡ length new)
        × (answer.written + answer.dropped ≡ length entries)
        × (answer.written ≤ max_usage_entries)
        × (s'.api_requests ≡ insert_each new s.api_requests)
        × ((c : Column) (key_id : ℕ) (endpoint : String) (day : ℕ)
            → daily c key_id endpoint day s'.usage_daily
              ≡ ok (before c key_id endpoint day + sum_of c key_id endpoint day new))
  unfolding record_usage
  record_usage_lem ids entries now s before h =
      let taken = take max_usage_entries entries in
      let new = requests_of ids now s.api_keys taken in
      let b = gather_all ids now s.api_keys taken (none_gathered s.api_requests) in
      let adds = gather_all-Adds ids now s.api_keys taken (none_gathered s.api_requests) tt in
      let (t, written, after) = daily-write_rollups b.rollups s.usage_daily before h in
      let count : b.written ≡ length new = omega (arith, adds.counted) in
      let few = length-requests_of ids now s.api_keys taken in
      let size = length-take max_usage_entries entries in
      (
        record { written = b.written; dropped = length entries - b.written },
        record s {
          api_requests = b.api_requests;
          usage_daily = t;
          api_keys = mark_used ids b.keys b.last_used s.api_keys;
        },
        rw written,
        count,
        omega (arith, count, few, size),
        omega (arith, count, few, size),
        adds.inserted,
        λ c key_id endpoint day.
            after c key_id endpoint day
            ∙ ap (λ n. ok (before c key_id endpoint day + n))
                (ap (sum_in c key_id endpoint day) adds.rolled_up
                  ∙ sum_in-add_rollups c key_id endpoint day new []
                  ∙ omega arith),
      )
