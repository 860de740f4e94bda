-- ===== src/Gateway/Authorize/Outcomes.antt =====
-- What each answer of `authorize` says of the request, and of the state that it leaves.
use api_provider.Prelude.{
  ℕ, ◌≡◌, refl, sym, ap, ◌⊎◌, inl, inr, String, true, false, Option, none, some, List, [], ◌∷◌,
  arith,
}
use mathlib.Core.Path.{subst₂}
use api_provider.Prelude.Tests.{Bool-cases, then_branch, else_branch}
use api_provider.Bucket.{Bucket}
use api_provider.Env.{Env}
use api_provider.Plans.{PaidPlan, User}
use api_provider.Result.{ok, ◌>>=◌, >>=-eq-ok, ok-injective}
use api_provider.Schema.{ApiKey, State, failure}
use api_provider.Audit.{write_audit}
use api_provider.Convex.Docs.{Doc}
use api_provider.Convex.Database.{Database}
use api_provider.Gateway.RateLimit.{RateLimitState, hit, combine}
use api_provider.Gateway.Quota.{consume_customer_quotas}
use api_provider.Gateway.Credential.{
  Args, Principal, RateLimit, Response, rate_limited, quota_exceeded, accepted, Refusal, Admitted,
  Verdict, pass, refuse, throws, principal, admit,
}
use api_provider.Gateway.Authorize.{buckets, hit_all, count_free, charge, decide, meter, authorize}

-- The principal of an answer that was counted.
abbrev pub Counted : Response → Principal → Type 0
Counted (rate_limited p r) q = p ≡ q
Counted (quota_exceeded p r) q = p ≡ q
Counted (accepted p r) q = p ≡ q
Counted _ q = ⊥

module _ ⦃db : Database⦄ where
  -- What the metering does to quotas and accounts, for each of its answers.
  pub data Metered (env : Env) (args : Args) (now : ℕ) (a : Admitted) (s s' : State)
      : Response → Type 0 where
    over_rate :
        {r : RateLimit}
        → s'.quota_windows ≡ s.quota_windows
        → s'.users ≡ s.users
        → Metered env args now a s s' (rate_limited (principal a) r)
    over_quota :
        {r : RateLimit}
        → s'.quota_windows ≡ s.quota_windows
        → s'.users ≡ s.users
        → Metered env args now a s s' (quota_exceeded (principal a) r)
    site_key :
        {r : RateLimit}
        → a.is_site_key ≡ true
        → s'.quota_windows ≡ s.quota_windows
        → s'.users ≡ s.users
        → Metered env args now a s s' (accepted (principal a) r)
    customer :
        {r : RateLimit} (q : RateLimitState) (t : State)
        → a.is_site_key ≡ false
        → consume_customer_quotas env a.key args.endpoint now a.plan s ≡ ok (q, t)
        → q.allowed ≡ true
        → s'.quota_windows ≡ t.quota_windows
        → s'.users ≡ (count_free a.owner a.plan t).users
        → Metered env args now a s s' (accepted (principal a) r)

  pub hit-others :
      (b : Bucket) (limit now : ℕ) (s s' : State) (r : RateLimitState)
      → hit b limit now s ≡ ok (r, s')
      → s' ≡ record s { rate_limit_windows = s'.rate_limit_windows }
  unfolding hit
  hit-others b limit now s s' r h = ground arith

  pub hit_all-others :
      (limits : List (Bucket × ℕ)) (now : ℕ) (s s' : State) (states : List RateLimitState)
      → hit_all limits now s ≡ ok (states, s')
      → s' ≡ record s { rate_limit_windows = s'.rate_limit_windows }
  unfolding hit_all
  hit_all-others [] now s s' states h = ground arith
  hit_all-others ((b, limit) ∷ more) now s s' states h =
      let ((r, s1), first, h') =
        >>=-eq-ok (hit b limit now s) (λ p. hit_all more now p.1 >>= λ q. ok (p.0 ∷ q.0, q.1)) h in
      let ((rs, s2), later, h'') = >>=-eq-ok (hit_all more now s1) (λ q. ok (r ∷ q.0, q.1)) h' in
      ground (arith, hit-others b limit now s s1 r first, hit_all-others more now s1 s2 rs later)

  consume-refused :
      (env : Env) (key : Doc ApiKey) (endpoint : Option String) (now : ℕ) (plan : Option PaidPlan)
      (s s' : State) (r : RateLimitState)
      → consume_customer_quotas env key endpoint now plan s ≡ ok (r, s')
      → r.allowed ≡ false
      → s' ≡ s
  unfolding consume_customer_quotas
  consume-refused env key endpoint now plan s s' r h fails = ground arith

  pub consume-users :
      (env : Env) (key : Doc ApiKey) (endpoint : Option String) (now : ℕ) (plan : Option PaidPlan)
      (s s' : State) (r : RateLimitState)
      → consume_customer_quotas env key endpoint now plan s ≡ ok (r, s')
      → s'.users ≡ s.users
  unfolding consume_customer_quotas
  consume-users env key endpoint now plan s s' r h = ground arith

  count_free-quotas :
      (owner : Doc User) (plan : Option PaidPlan) (s : State)
      → (count_free owner plan s).quota_windows ≡ s.quota_windows
  unfolding count_free
  count_free-quotas owner none s = refl
  count_free-quotas owner (some p) s = refl

  charge-Metered :
      (env : Env) (args : Args) (now : ℕ) (a : Admitted) (state : RateLimitState) (s s' : State)
      (answer : Response)
      → a.is_site_key ≡ false
      → charge env args now a state s ≡ ok (answer, s')
      → Metered env args now a s s' answer
  unfolding charge write_audit
  charge-Metered env args now a state s s' answer customer_key h =
      let ((q, t), consumed, h') =
        >>=-eq-ok (consume_customer_quotas env a.key args.endpoint now a.plan s) _ h in
      elim (Bool-cases q.allowed) [
        | inl room ↦
            let (is_answer, is_left) = ok-injective (rw room at h') in
            subst₂ (λ x y. Metered env args now a s y x) is_answer is_left
              (customer q t customer_key consumed room (count_free-quotas a.owner a.plan t) refl)
        | inr full ↦
            let (is_answer, is_left) = ok-injective (rw full at h') in
            let same = consume-refused env a.key args.endpoint now a.plan s t q consumed full in
            subst₂ (λ x y. Metered env args now a s y x) is_answer is_left
              (over_quota (ap (λ (x : State). x.quota_windows) same)
                (ap (λ (x : State). x.users) same))
      ]

  decide-Metered :
      (env : Env) (args : Args) (now : ℕ) (a : Admitted) (state : RateLimitState) (s s' : State)
      (answer : Response)
      → decide env args now a state s ≡ ok (answer, s')
      → Metered env args now a s s' answer
  unfolding decide write_audit
  decide-Metered env args now a state s s' answer h = elim (Bool-cases state.allowed) [
    | inl within ↦ elim (Bool-cases a.is_site_key) [
      | inl site ↦
          let (is_answer, is_left) = ok-injective (then_branch _ _ site (rw within at h)) in
          subst₂ (λ x y. Metered env args now a s y x) is_answer is_left (site_key site refl refl)
      | inr customer_key ↦
          charge-Metered env args now a state s s' answer customer_key
            (else_branch _ _ customer_key (rw within at h))
    ]
    | inr over ↦
        let (is_answer, is_left) = ok-injective (rw over at h) in
        subst₂ (λ x y. Metered env args now a s y x) is_answer is_left (over_rate refl refl)
  ]

  -- The shape of a run of `authorize`: the checks refuse, or pass and the request is metered.
  pub authorize_cases :
      (env : Env) (args : Args) (now : ℕ) (s s' : State) (answer : Response)
      → authorize env args now s ≡ ok (answer, s')
      → ((r : Refusal) × (admit args now s ≡ refuse r)
          × (answer ≡ r.response)
          × (s' ≡ write_audit now r.event r.severity failure r.fields s))
        ⊎ ((a : Admitted) × (admit args now s ≡ pass a)
            × (meter env args now a s ≡ ok (answer, s')))
  unfolding authorize
  authorize_cases env args now s s' answer h = go (admit args now s) refl
    where
      go :
          (v : Verdict Admitted)
          → admit args now s ≡ v
          → ((r : Refusal) × (admit args now s ≡ refuse r)
              × (answer ≡ r.response)
              × (s' ≡ write_audit now r.event r.severity failure r.fields s))
            ⊎ ((a : Admitted) × (admit args now s ≡ pass a)
                × (meter env args now a s ≡ ok (answer, s')))
      go (pass a) e = inr (a, e, rw (e, authorize) at h)
      go (refuse r) e =
          let (is_answer, is_left) = ok-injective (rw (e, authorize) at h) in
          inl (r, e, sym is_answer, sym is_left)
      go (throws x) e = cc (rw (e, authorize) at h)

  -- The metering, after the hits.
  pub meter-Metered :
      (env : Env) (args : Args) (now : ℕ) (a : Admitted) (s s' : State) (answer : Response)
      → meter env args now a s ≡ ok (answer, s')
      → (t : State) × (t ≡ record s { rate_limit_windows = t.rate_limit_windows })
        × Metered env args now a t s' answer
  unfolding meter
  meter-Metered env args now a s s' answer h =
      let (limits, is_limits, h') = >>=-eq-ok (buckets env args a) _ h in
      let ((states, t), hit_them, h'') = >>=-eq-ok (hit_all limits now s) _ h' in
      (
        t,
        hit_all-others limits now s t states hit_them,
        decide-Metered env args now a (combine states) t s' answer h'',
      )
