-- ===== src/Gateway/Quota/Atomic.antt =====
-- All the quotas of a request are charged, or none is.
use api_provider.Prelude.{
  ℕ, ◌+◌, ◌≡◌, refl, sym, ap, subst, ◌∙◌, ◌⊎◌, inl, inr, String, true, false, Option, List, [], ◌∷◌,
  map, arith,
}
use mathlib.Core.Path.{ap₂}
use api_provider.Prelude.Tests.{leb, if◌then◌else◌, Bool-cases}
use api_provider.Prelude.Lists.{All, all}
use api_provider.Time.{quota_period}
use api_provider.Result.{ok, >>=-eq-ok}
use api_provider.Env.{Env}
use api_provider.Plans.{PaidPlan}
use api_provider.Schema.{ApiKey, QuotaWindow, State}
use api_provider.Convex.Docs.{Doc}
use api_provider.Convex.Database.{Database}
use api_provider.Convex.Queries.{unique}
use api_provider.Gateway.RateLimit.{RateLimitState, combine}
use api_provider.Gateway.Quota.{
  QuotaSpec, Checked, in_quota, units_or_zero, quota_specs, check_quota, check_quotas, write_quotas,
  quota_state, consume_customer_quotas,
}
use api_provider.Gateway.Quota.Writes.{
  Distinct, quota_specs-Distinct, used_in, used, IsRead, specs_of, write_quotas_self,
}

module _ ⦃db : Database⦄ where
  open db use {Table, query}

  -- What the first pass finds of a quota with the given usage.
  pub record Finds (now : ℕ) (usage : QuotaSpec → ℕ) (c : Checked) : Type 0 where
    pub in_period : c.span ≡ quota_period now c.spec.period
    pub one_more : c.next ≡ usage c.spec + 1
    pub test : c.allowed ≡ leb (usage c.spec + 1) c.spec.limit

  module _ (now : ℕ) (usage : QuotaSpec → ℕ) where
    abbrev reading : QuotaSpec → Option (Doc QuotaWindow) → Checked
    reading spec found = record {
      spec = spec;
      span = quota_period now spec.period;
      existing = found;
      next = units_or_zero found + 1;
      allowed = leb (units_or_zero found + 1) spec.limit;
    }

    check_quota_lem :
        (spec : QuotaSpec) (t : Table QuotaWindow)
        → used now spec t ≡ ok (usage spec)
        → (c : Checked) × (check_quota now spec t ≡ ok c)
          × (c.spec ≡ spec)
          × IsRead t c
          × Finds now usage c
    unfolding check_quota
    check_quota_lem spec t h =
        let (found, is_found, is_n) =
          >>=-eq-ok
            (unique (in_quota spec.bucket spec.period (quota_period now spec.period).start) t) _
            h in
        (
          reading spec found,
          rw is_found,
          refl,
          is_found,
          record { in_period = refl; one_more = ground arith; test = ground arith },
        )

    check_quotas_lem :
        (specs : List QuotaSpec) (t : Table QuotaWindow)
        → All (λ spec. used now spec t ≡ ok (usage spec)) specs
        → (cs : List Checked) × (check_quotas now specs t ≡ ok cs)
          × (specs_of cs ≡ specs)
          × All (IsRead t) cs
          × All (Finds now usage) cs
    unfolding check_quotas
    check_quotas_lem [] t h = ([], refl, refl, tt, tt)
    check_quotas_lem (spec ∷ specs) t h =
        let (c, e, same, read, finds) = check_quota_lem spec t h.0 in
        let (cs, e', same', reads, all_find) = check_quotas_lem specs t h.1 in
        (c ∷ cs, rw (e, e'), ap₂ (◌∷◌) same same', (read, reads), (finds, all_find))

    all_within :
        (cs : List Checked)
        → All (Finds now usage) cs
        → all (λ (s : RateLimitState). s.allowed) (map quota_state cs)
          ≡ all (λ spec. leb (usage spec + 1) spec.limit) (specs_of cs)
    all_within [] finds = refl
    all_within (c ∷ cs) finds = ground (arith, all_within cs finds.1)

    All-charged :
        (cs : List Checked) (t : Table QuotaWindow)
        → All (Finds now usage) cs
        → All (λ (c : Checked). used_in c.spec c.span.start t ≡ ok c.next) cs
        → All (λ spec. used now spec t ≡ ok (usage spec + 1)) (specs_of cs)
    All-charged [] t finds h = tt
    All-charged (c ∷ cs) t finds h =
        (rw (← finds.0.one_more, ← finds.0.in_period) h.0, All-charged cs t finds.1 h.1)

  -- Where each quota of the request has one counter, with usage `usage spec`, the call returns. It
  -- allows the request exactly when every quota has room for one unit more; then each is charged one
  -- unit, whatever the endpoint, and otherwise nothing changes.
  pub consume_customer_quotas_lem :
      (env : Env) (key : Doc ApiKey) (endpoint : Option String) (now : ℕ) (plan : Option PaidPlan)
      (s : State) (usage : QuotaSpec → ℕ)
      → let specs = quota_specs env key endpoint plan in
        let within = all (λ spec. leb (usage spec + 1) spec.limit) specs in
        All (λ spec. used now spec s.quota_windows ≡ ok (usage spec)) specs
        → (r : RateLimitState) × (s' : State) × (consume_customer_quotas env key endpoint now plan s
            ≡ ok (r, s'))
          × (r.allowed ≡ within)
          × (((within ≡ false) × (s' ≡ s))
              ⊎ ((within ≡ true)
                  × All (λ spec. used now spec s'.quota_windows ≡ ok (usage spec + 1)) specs))
  unfolding consume_customer_quotas combine
  consume_customer_quotas_lem env key endpoint now plan s usage h =
      let specs = quota_specs env key endpoint plan in
      let (cs, e, same, reads, finds) = check_quotas_lem now usage specs s.quota_windows h in
      let charged = record s { quota_windows = write_quotas cs s.quota_windows } in
      let r = combine (map quota_state cs) in
      let answer =
        all_within now usage cs finds ∙ ap (all (λ spec. leb (usage spec + 1) spec.limit)) same in
      let distinct = subst Distinct (sym same) (quota_specs-Distinct env key endpoint plan) in
      (
        r,
        if r.allowed then charged else s,
        rw e,
        answer,
        elim (Bool-cases (all (λ spec. leb (usage spec + 1) spec.limit) specs)) [
          | inl room ↦ inr (
            room,
            rw (answer ∙ room) (
                subst (All (λ spec. used now spec charged.quota_windows ≡ ok (usage spec + 1))) same
                  (All-charged now usage cs charged.quota_windows finds
                    (write_quotas_self cs s.quota_windows reads distinct))),
          )
          | inr full ↦ inl (full, rw (answer ∙ full))
        ],
      )
