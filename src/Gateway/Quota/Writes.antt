-- ===== src/Gateway/Quota/Writes.antt =====
-- What the second pass of `consumeCustomerQuotas` writes: each quota its own row.
use api_provider.Prelude.{
  ℕ, ◌≡◌, refl, ◌∙◌, inl, inr, String, Bool, true, false, ◌&&◌, Option, none, some, List, [], ◌∷◌,
  arith,
}
use api_provider.Prelude.Tests.{Bool-cases}
use api_provider.Prelude.Lists.{All}
use api_provider.Bucket.{same_bucket, same_bucket_refl, same_bucket_sound}
use api_provider.Time.{Period, quota_period}
use api_provider.Result.{Result, ok, ◌>>=◌}
use api_provider.Env.{Env}
use api_provider.Plans.{PaidPlan}
use api_provider.Schema.{ApiKey, QuotaWindow}
use api_provider.Convex.Docs.{Doc}
use api_provider.Convex.Database.{Database}
use api_provider.Convex.Queries.{unique, value-patch_or_insert, query-patch_or_insert}
use api_provider.Gateway.Quota.{
  QuotaSpec, Checked, same_period, in_quota, units_or_zero, quota_specs, write_quota, write_quotas,
}

abbrev same_quota : QuotaSpec → QuotaSpec → Bool
same_quota c d = same_bucket c.bucket d.bucket && same_period c.period d.period

same_period_sound : (p q : Period) → same_period p q ≡ true → p ≡ q
same_period_sound p q h = ground arith

same_period_refl : (p : Period) → same_period p p ≡ true
same_period_refl p = ground arith

-- Rows of one quota are not rows of another.
in_quota_apart :
    (c d : QuotaSpec) (i j : ℕ)
    → same_quota c d ≡ false
    → (q : QuotaWindow) → in_quota c.bucket c.period i q ≡ true
    → in_quota d.bucket d.period j q ≡ false
in_quota_apart c d i j apart q h = elim (Bool-cases (in_quota d.bucket d.period j q)) [
  | inl there ↦ ground (
    arith,
    same_bucket_sound q.bucket c.bucket,
    same_bucket_sound q.bucket d.bucket,
    same_period_sound q.period c.period,
    same_period_sound q.period d.period,
    same_bucket_refl q.bucket,
    same_period_refl q.period,
  )
  | inr not_there ↦ not_there
]

same_quota_symm : (c d : QuotaSpec) → same_quota c d ≡ false → same_quota d c ≡ false
same_quota_symm c d h = elim (Bool-cases (same_quota d c)) [
  | inl same ↦ ground (
    arith,
    same_bucket_sound d.bucket c.bucket,
    same_period_sound d.period c.period,
    same_bucket_refl c.bucket,
    same_period_refl c.period,
  )
  | inr apart ↦ apart
]

-- No quota of the list is `spec`.
abbrev pub Apart : QuotaSpec → List QuotaSpec → Type 0
Apart spec = All (λ d. same_quota spec d ≡ false)

abbrev pub Distinct : List QuotaSpec → Type 0
Distinct [] = Unit
Distinct (c ∷ cs) = Apart c cs × Distinct cs

pub quota_specs-Distinct :
    (env : Env) (key : Doc ApiKey) (endpoint : Option String) (plan : Option PaidPlan)
    → Distinct (quota_specs env key endpoint plan)
unfolding quota_specs
quota_specs-Distinct env key endpoint none = ground arith
quota_specs-Distinct env key endpoint (some p) = ground arith

module _ ⦃db : Database⦄ where
  open db use {Table, query}

  abbrev pub used_in : QuotaSpec → ℕ → Table QuotaWindow → Result ℕ
  used_in spec start t =
      unique (in_quota spec.bucket spec.period start) t >>= λ d. ok (units_or_zero d)

  -- What a quota has used, in the period of `now`.
  abbrev pub used : ℕ → QuotaSpec → Table QuotaWindow → Result ℕ
  used now spec t = used_in spec (quota_period now spec.period).start t

  -- What the first pass read of a quota still holds of the table.
  abbrev pub IsRead : Table QuotaWindow → Checked → Type 0
  IsRead t c = unique (in_quota c.spec.bucket c.spec.period c.span.start) t ≡ ok c.existing

  abbrev row : Checked → QuotaWindow
  row c = record {
    bucket = c.bucket;
    period = c.period;
    period_start = c.span.start;
    units = c.next;
  }

  abbrev charging : ℕ → QuotaWindow → QuotaWindow
  charging n q = record q { units = n }

  own_row : (c : Checked) → in_quota c.spec.bucket c.spec.period c.span.start (row c) ≡ true
  own_row c = ground (arith, same_bucket_refl c.bucket, same_period_refl c.period)

  write_quota-other :
      (c : Checked) (d : QuotaSpec) (j : ℕ) (t : Table QuotaWindow)
      → IsRead t c
      → same_quota c.spec d ≡ false
      → query (in_quota d.bucket d.period j) (write_quota c t)
        ≡ query (in_quota d.bucket d.period j) t
  unfolding write_quota
  write_quota-other c d j t read apart =
      query-patch_or_insert (in_quota c.spec.bucket c.spec.period c.span.start)
        (in_quota d.bucket d.period j) (charging c.next) (row c) t c.existing read
        (in_quota_apart c.spec d c.span.start j apart) (λ x. refl) (own_row c)

  write_quota_self :
      (c : Checked) (t : Table QuotaWindow)
      → IsRead t c
      → used_in c.spec c.span.start (write_quota c t) ≡ ok c.next
  unfolding write_quota
  write_quota_self c t read =
      let (d, is_d, has_units) =
        value-patch_or_insert (λ q. q.units) c.next
          (in_quota c.spec.bucket c.spec.period c.span.start) (charging c.next) (row c) t c.existing
          read (λ x. refl) (own_row c) (λ x. refl) refl in
      rw (is_d, has_units)

  abbrev pub specs_of : List Checked → List QuotaSpec
  specs_of [] = []
  specs_of (c ∷ cs) = c.spec ∷ specs_of cs

  IsRead-write_quota :
      (c : Checked) (cs : List Checked) (t : Table QuotaWindow)
      → IsRead t c
      → Apart c.spec (specs_of cs)
      → All (IsRead t) cs
      → All (IsRead (write_quota c t)) cs
  IsRead-write_quota c [] t read apart reads = tt
  IsRead-write_quota c (d ∷ cs) t read apart reads = (
    rw (write_quota-other c d.spec d.span.start t read apart.0) reads.0,
    IsRead-write_quota c cs t read apart.1 reads.1,
  )

  write_quotas-other :
      (cs : List Checked) (d : QuotaSpec) (j : ℕ) (t : Table QuotaWindow)
      → All (IsRead t) cs
      → Distinct (specs_of cs)
      → Apart d (specs_of cs)
      → query (in_quota d.bucket d.period j) (write_quotas cs t)
        ≡ query (in_quota d.bucket d.period j) t
  unfolding write_quotas
  write_quotas-other [] d j t reads distinct apart = refl
  write_quotas-other (c ∷ cs) d j t reads distinct apart =
      write_quotas-other cs d j (write_quota c t)
        (IsRead-write_quota c cs t reads.0 distinct.0 reads.1) distinct.1 apart.1
      ∙ write_quota-other c d j t reads.0 (same_quota_symm d c.spec apart.0)

  pub write_quotas_self :
      (cs : List Checked) (t : Table QuotaWindow)
      → All (IsRead t) cs
      → Distinct (specs_of cs)
      → All (λ (c : Checked). used_in c.spec c.span.start (write_quotas cs t) ≡ ok c.next) cs
  unfolding write_quotas
  write_quotas_self [] t reads distinct = tt
  write_quotas_self (c ∷ cs) t reads distinct =
      let reads' = IsRead-write_quota c cs t reads.0 distinct.0 reads.1 in
      (
        rw
            (write_quotas-other cs c.spec c.span.start (write_quota c t) reads' distinct.1
              distinct.0)
            (write_quota_self c t reads.0),
        write_quotas_self cs (write_quota c t) reads' distinct.1,
      )
