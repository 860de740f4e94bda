-- ===== src/Gateway/Authorize/Returns.antt =====
-- `authorize` returns: what it reads by `unique` has at most one row.
use api_provider.Prelude.{
  ℕ, ◌+◌, ◌/◌, ◌*◌, ◌≡◌, refl, sym, ap, ◌∙◌, subst, inl, inr, String, Bool, true, false, not, ◌&&◌,
  Option, List, [], ◌∷◌, map, arith,
}
use api_provider.Prelude.Tests.{leb, ◌==◌, if◌then◌else◌, Bool-cases}
use api_provider.Bucket.{Bucket, same_bucket, same_bucket_refl, same_bucket_sound}
use api_provider.Env.{Env, require_env}
use api_provider.Time.{Period, minute_ms, quota_period}
use api_provider.Result.{Result, ok}
use api_provider.Schema.{ApiKey, PlaygroundToken, RateLimitWindow, QuotaWindow, State, failure}
use api_provider.Plans.{PaidPlan}
use api_provider.Convex.Docs.{Doc}
use api_provider.Convex.Database.{Database}
use api_provider.Convex.Queries.{
  unique, at_most_one, patch_or_insert, unique-patch_or_insert, query-patch_or_insert,
}
use api_provider.Gateway.RateLimit.{
  RateLimitState, in_window, count_or_zero, hit, hit_window, window_state, combine,
}
use api_provider.Gateway.RateLimit.Windows.{in_window_apart, own_window}
use api_provider.Gateway.Quota.{
  QuotaSpec, Checked, in_quota, units_or_zero, quota_specs, check_quota, check_quotas, quota_state,
  write_quotas, consume_customer_quotas,
}
use api_provider.Gateway.Credential.{
  Args, Response, Verdict, Admitted, has_key_hash, has_token_hash, Kind, key, playground, pass,
  refuse, throws, admit,
}
use api_provider.Gateway.Authorize.{
  succeed, site_buckets, buckets, hit_all, decide, charge, meter, authorize,
}
use api_provider.Gateway.Authorize.Outcomes.{hit_all-others}
use api_provider.Gateway.Credential.Steady.{Found, admit_steady}
use api_provider.Audit.{write_audit}

-- The call does not throw.
abbrev pub Returns {ℓ} : {A : Type ℓ} → Result A → Type ℓ
Returns {A} m = (a : A) × (m ≡ ok a)

if-Returns {ℓ} :
    {A : Type ℓ} (b : Bool) (m n : Result A) → Returns m → Returns n → Returns (if b then m else n)
if-Returns true m n h k = h
if-Returns false m n h k = k

module _ ⦃db : Database⦄ where
  open db use {Table}

  -- A bucket has one counter for each window.
  abbrev pub OneWindow : Table RateLimitWindow → Type 0
  OneWindow t =
      (b : Bucket) (start : ℕ)
      → (found : Option (Doc RateLimitWindow)) × (unique (in_window b start) t ≡ ok found)

  -- A quota has one counter for each period.
  abbrev pub OneQuota : Table QuotaWindow → Type 0
  OneQuota t =
      (b : Bucket) (p : Period) (start : ℕ)
      → (found : Option (Doc QuotaWindow)) × (unique (in_quota b p start) t ≡ ok found)

  -- Every lookup of `authorize` finds one row at most.
  pub record Readable (s : State) : Type 0 where
    pub one_key :
        (h : String)
        → (found : Option (Doc ApiKey)) × (unique (has_key_hash h) s.api_keys ≡ ok found)
    pub one_token :
        (h : String)
        → (found : Option (Doc PlaygroundToken)) × (unique (has_token_hash h) s.playground_tokens
            ≡ ok found)
    pub one_window : OneWindow s.rate_limit_windows
    pub one_quota : OneQuota s.quota_windows

  write-OneWindow :
      (b : Bucket) (start count : ℕ) (t : Table RateLimitWindow)
      (found : Option (Doc RateLimitWindow))
      → unique (in_window b start) t ≡ ok found
      → OneWindow t
      → OneWindow (
          patch_or_insert found
            (λ w. record w { count = count })
            (record { bucket = b; window_start = start; count = count })
            t)
  write-OneWindow b start count t found is_found one b' start' =
      let change = λ (w : RateLimitWindow). record w { count = count } in
      let row : RateLimitWindow = record { bucket = b; window_start = start; count = count } in
      elim (Bool-cases (same_bucket b b' && start == start')) [
        | inl same ↦
            let is_b : b ≡ b' = same_bucket_sound b b' (ground (arith, same)) in
            let is_start : start ≡ start' = ground (arith, same) in
            subst
              (λ c.
                (f : Option (Doc RateLimitWindow)) × (unique (in_window c start')
                    (patch_or_insert found change row t)
                  ≡ ok f))
              is_b
              (subst
                (λ i.
                  (f : Option (Doc RateLimitWindow)) × (unique (in_window b i)
                      (patch_or_insert found change row t)
                    ≡ ok f))
                is_start
                (
                  _,
                  unique-patch_or_insert (in_window b start) change row t found is_found (λ x. refl)
                      (own_window b start count),
                ))
        | inr other ↦
            let apart : ((b ≡ b') × (start ≡ start')) → ⊥ = λ h.
              ground
                (arith, subst (λ c. same_bucket b c ≡ true) h.0 (same_bucket_refl b), h.1, other) in
            let (f, is_f) = one b' start' in
            (
              f,
              ap at_most_one (
                    query-patch_or_insert (in_window b start) (in_window b' start') change row t
                      found is_found (in_window_apart b b' start start' apart) (λ x. refl)
                      (own_window b start count))
                  ∙ is_f,
            )
      ]

  hit-returns :
      (b : Bucket) (limit now : ℕ) (s : State)
      → OneWindow s.rate_limit_windows
      → (r : RateLimitState) × (s' : State) × (hit b limit now s ≡ ok (r, s'))
        × OneWindow s'.rate_limit_windows
  unfolding hit hit_window
  hit-returns b limit now s one =
      let start = now / minute_ms * minute_ms in
      let (found, is_found) = one b start in
      let count = count_or_zero found + 1 in
      let written : State = record s {
        rate_limit_windows =
            patch_or_insert found (λ w. record w { count = count })
              (record { bucket = b; window_start = start; count = count }) s.rate_limit_windows;
      } in
      (
        window_state limit count (start + minute_ms),
        written,
        rw is_found,
        write-OneWindow b start _ s.rate_limit_windows found is_found one,
      )

  hit_all-returns :
      (limits : List (Bucket × ℕ)) (now : ℕ) (s : State)
      → OneWindow s.rate_limit_windows
      → (r : List RateLimitState) × (s' : State) × (hit_all limits now s ≡ ok (r, s'))
  unfolding hit_all
  hit_all-returns [] now s one = ([], s, refl)
  hit_all-returns ((b, limit) ∷ more) now s one =
      let (r, s1, first, one1) = hit-returns b limit now s one in
      let (rs, s2, later) = hit_all-returns more now s1 one1 in (r ∷ rs, s2, rw (first, later))

  check_quotas-returns :
      (now : ℕ) (specs : List QuotaSpec) (s : State)
      → OneQuota s.quota_windows
      → (cs : List Checked) × (check_quotas now specs s.quota_windows ≡ ok cs)
  unfolding check_quotas check_quota
  check_quotas-returns now [] s h = ([], refl)
  check_quotas-returns now (spec ∷ specs) s h =
      let (found, is_found) = h spec.bucket spec.period (quota_period now spec.period).start in
      let (cs, later) = check_quotas-returns now specs s h in
      let next = units_or_zero found + 1 in
      let c : Checked = record {
        spec = spec;
        span = quota_period now spec.period;
        existing = found;
        next = next;
        allowed = leb next spec.limit;
      } in
      (c ∷ cs, rw (is_found, later))

  consume-returns :
      (env : Env) (k : Doc ApiKey) (endpoint : Option String) (now : ℕ) (plan : Option PaidPlan)
      (s : State)
      → OneQuota s.quota_windows
      → (r : RateLimitState) × (s' : State) × (consume_customer_quotas env k endpoint now plan s
          ≡ ok (r, s'))
  unfolding consume_customer_quotas
  consume-returns env k endpoint now plan s h =
      let (cs, read) = check_quotas-returns now (quota_specs env k endpoint plan) s h in
      let r = combine (map quota_state cs) in
      (
        r,
        if r.allowed then record s { quota_windows = write_quotas cs s.quota_windows } else s,
        rw read,
      )

  charge-Returns :
      (env : Env) (args : Args) (now : ℕ) (a : Admitted) (state : RateLimitState) (s : State)
      → OneQuota s.quota_windows
      → Returns (charge env args now a state s)
  unfolding charge succeed
  charge-Returns env args now a state s h =
      let (r, t, consumed) = consume-returns env a.key args.endpoint now a.plan s h in
      rw consumed (if-Returns r.allowed _ _ (_, refl) (_, refl))

  decide-Returns :
      (env : Env) (args : Args) (now : ℕ) (a : Admitted) (state : RateLimitState) (s : State)
      → OneQuota s.quota_windows
      → Returns (decide env args now a state s)
  unfolding decide succeed
  decide-Returns env args now a state s h =
      if-Returns (not state.allowed) _ _ (_, refl)
        (if-Returns a.is_site_key _ _ (_, refl) (charge-Returns env args now a state s h))

  buckets-Returns :
      (env : Env) (args : Args) (a : Admitted) (secret : String)
      → require_env "GATEWAY_SECRET" env.gateway_secret ≡ ok secret
      → Returns (buckets env args a)
  unfolding buckets site_buckets
  buckets-Returns env args a secret h = if-Returns a.is_site_key _ _ (rw h (_, refl)) (_, refl)

  meter-Returns :
      (env : Env) (args : Args) (now : ℕ) (a : Admitted) (s : State) (secret : String)
      → require_env "GATEWAY_SECRET" env.gateway_secret ≡ ok secret
      → Readable s
      → Returns (meter env args now a s)
  unfolding meter
  meter-Returns env args now a s secret h readable =
      let (limits, are_limits) = buckets-Returns env args a secret h in
      let (states, t, hit_them) = hit_all-returns limits now s readable.one_window in
      let same =
        ap (λ (x : State). x.quota_windows) (hit_all-others limits now s t states hit_them) in
      rw (are_limits, hit_them)
        (decide-Returns env args now a (combine states) t
          (subst OneQuota (sym same) readable.one_quota))

  -- Where every lookup finds one row at most and the gateway's secret is set, `authorize` returns an
  -- answer.
  pub authorize_returns :
      (env : Env) (args : Args) (now : ℕ) (s : State) (secret : String)
      → require_env "GATEWAY_SECRET" env.gateway_secret ≡ ok secret
      → Readable s
      → (answer : Response) × (s' : State) × (authorize env args now s ≡ ok (answer, s'))
  unfolding authorize
  authorize_returns env args now s secret h readable = go (admit args now s) refl
    where
      found : (kind : Kind) → Found kind args.hash s
      found key = readable.one_key args.hash
      found playground = readable.one_token args.hash

      go :
          (v : Verdict Admitted)
          → admit args now s ≡ v
          → (answer : Response) × (s' : State) × (authorize env args now s ≡ ok (answer, s'))
      go (pass a) e =
          let (result, returned) = meter-Returns env args now a s secret h readable in
          (result.0, result.1, rw (authorize, e) returned)
      go (refuse r) e =
          (r.response, write_audit now r.event r.severity failure r.fields s, rw (authorize, e))
      go (throws x) e = absurd (admit_steady args now s x (found args.kind) e)
