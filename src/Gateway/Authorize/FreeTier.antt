-- ===== src/Gateway/Authorize/FreeTier.antt =====
-- The lifetime allowance of free requests.
use api_provider.Prelude.{
  ℕ, ◌+◌, ◌≤◌, ◌<◌, ◌≡◌, refl, sym, ap, ◌∙◌, subst, ◌⊎◌, inl, inr, true, false, Option, none, some,
  arith,
}
use api_provider.Prelude.Tests.{Bool-cases, Option-cases, get_or}
use api_provider.Env.{Env}
use api_provider.Plans.{PaidPlan, User, free_total_requests, has_key_access, active_plan}
use api_provider.Result.{ok}
use api_provider.Schema.{State}
use api_provider.Audit.{write_audit}
use api_provider.Convex.Docs.{Doc}
use api_provider.Convex.Database.{Database}
use api_provider.Convex.Queries.{get-patch, get-id}
use api_provider.Gateway.Credential.{
  Args, RateLimit, Response, accepted, Admitted, Principal, principal,
}
use api_provider.Gateway.Credential.Admission.{Admits, admit-Admits}
use api_provider.Gateway.Authorize.{count_free, authorize}
use api_provider.Gateway.Authorize.Safety.{is_accepted, Metered-Counted}
use api_provider.Gateway.Credential.Refusals.{BeforeCounting, refusal-BeforeCounting}
use api_provider.Gateway.Authorize.Outcomes.{
  Metered, over_rate, over_quota, site_key, customer, authorize_cases, meter-Metered, consume-users,
}

abbrev pub free_used : User → ℕ
free_used u = get_or u.free_requests_used 0

free_access :
    (u : User) (now : ℕ)
    → has_key_access u now ≡ true
    → active_plan u now ≡ none
    → free_used u < free_total_requests
unfolding has_key_access
free_access u now access free = ground arith

module _ ⦃db : Database⦄ where
  open db use {get}

  -- No account has used more than its free requests.
  abbrev pub FreeBounded : State → Type 0
  FreeBounded s =
      (i : ℕ) (d : Doc User) → get i s.users ≡ some d → free_used d.value ≤ free_total_requests

  Admits-free :
      {args : Args} {now : ℕ} {s : State} {a : Admitted}
      → Admits args now s a
      → a.is_site_key ≡ false
      → a.plan ≡ none
      → free_used a.owner.value < free_total_requests
  Admits-free {now} {a} h customer_key free = elim h.checks.access [
    | inl site ↦ absurd (cc (sym customer_key ∙ site))
    | inr access ↦ free_access a.owner.value now access (ground (arith, h.checks.plan))
  ]

  count_free-bounded :
      (owner : Doc User) (plan : Option PaidPlan) (s : State)
      → (plan ≡ none → free_used owner.value < free_total_requests)
      → FreeBounded s
      → FreeBounded (count_free owner plan s)
  unfolding count_free
  count_free-bounded owner (some p) s below h i d e = h i d e
  count_free-bounded owner none s below h i d e =
      let counted =
        λ (u : User). record u { free_requests_used = some (free_used owner.value + 1) } in
      elim (Option-cases (get i s.users)) [
        | inl absent ↦ cc (sym e ∙ (rw absent at (get-patch owner.id i counted s.users)))
        | inr (was, there) ↦ ground (
          arith,
          h i was there,
          below refl,
          sym e ∙ (rw there at (get-patch owner.id i counted s.users)),
        )
      ]

  Metered-bounded :
      {env : Env} {args : Args} {now : ℕ} {a : Admitted} {s s' : State} {answer : Response}
      → (a.is_site_key ≡ false → a.plan ≡ none → free_used a.owner.value < free_total_requests)
      → Metered env args now a s s' answer
      → FreeBounded s
      → FreeBounded s'
  Metered-bounded below (over_rate q u) h = λ i d e. h i d (ap (get i) (sym u) ∙ e)
  Metered-bounded below (over_quota q u) h = λ i d e. h i d (ap (get i) (sym u) ∙ e)
  Metered-bounded below (site_key c q u) h = λ i d e. h i d (ap (get i) (sym u) ∙ e)
  Metered-bounded {env} {args} {now} {a} {s} below (customer r t c consumed k q u) h =
      let same = consume-users env a.key args.endpoint now a.plan s t r consumed in
      let bounded : FreeBounded t = λ i d e. h i d (ap (get i) (sym same) ∙ e) in
      λ i d e. count_free-bounded a.owner a.plan t (below c) bounded i d (ap (get i) (sym u) ∙ e)

  -- If no account is over its 500 free requests, then none is after any call of `authorize` that
  -- returns.
  pub authorize-FreeBounded :
      (env : Env) (args : Args) (now : ℕ) (s s' : State) (answer : Response)
      → FreeBounded s
      → authorize env args now s ≡ ok (answer, s')
      → FreeBounded s'
  unfolding write_audit
  authorize-FreeBounded env args now s s' answer bounded h =
      elim (authorize_cases env args now s s' answer h) [
        | inl (r, refused, is_answer, is_left) ↦
            λ i d e. bounded i d (ap (λ (x : State). get i x.users) (sym is_left) ∙ e)
        | inr (a, passed, metered) ↦
            let (t, others, m) = meter-Metered env args now a s s' answer metered in
            Metered-bounded (Admits-free (admit-Admits args now s a passed)) m
              (λ i d e. bounded i d (ap (λ (x : State). get i x.users) (sym others) ∙ e))
      ]

  count_free-counts :
      (owner : Doc User) (s : State)
      → get owner.id s.users ≡ some owner
      → (u : Doc User) × (get owner.id (count_free owner none s).users ≡ some u)
        × (free_used u.value ≡ free_used owner.value + 1)
  unfolding count_free
  count_free-counts owner s there =
      let counted =
        λ (u : User). record u { free_requests_used = some (free_used owner.value + 1) } in
      (
        record owner { value = counted owner.value },
        ground (arith, rw there at (get-patch owner.id owner.id counted s.users)),
        refl,
      )

  Metered-counts :
      {env : Env} {args : Args} {now : ℕ} {a : Admitted} {s s' : State} {answer : Response}
      → a.is_site_key ≡ false
      → a.plan ≡ none
      → get a.owner.id s.users ≡ some a.owner
      → Metered env args now a s s' answer
      → is_accepted answer ≡ true
      → (u : Doc User) × (get a.owner.id s'.users ≡ some u)
        × (free_used u.value ≡ free_used a.owner.value + 1)
  Metered-counts customer_key free there (over_rate q u) h = cc
  Metered-counts customer_key free there (over_quota q u) h = cc
  Metered-counts customer_key free there (site_key e q u) h = cc
  Metered-counts {env} {args} {now} {a} {s} customer_key free there (customer r t c consumed k q u)
        h =
      let same = consume-users env a.key args.endpoint now a.plan s t r consumed in
      let (d, is_d, counted) = count_free-counts a.owner t (ap (get a.owner.id) same ∙ there) in
      (d, ap (get a.owner.id) (u ∙ ap (λ o. (count_free a.owner o t).users) free) ∙ is_d, counted)

  -- An accepted request was admitted, and it is the site key's, or its owner has a paid plan, or
  -- its owner had used fewer than 500 free requests and has now used one more.
  pub free_request_counted :
      (env : Env) (args : Args) (now : ℕ) (s s' : State) (p : Principal) (r : RateLimit)
      → authorize env args now s ≡ ok (accepted p r, s')
      → (a : Admitted) × Admits args now s a
        × (p ≡ principal a)
        × ((a.is_site_key ≡ true)
            ⊎ ((plan : PaidPlan) × (a.plan ≡ some plan))
            ⊎ ((free_used a.owner.value < free_total_requests)
                × (u : Doc User) × (get a.owner.id s'.users ≡ some u)
                × (free_used u.value ≡ free_used a.owner.value + 1)))
  unfolding write_audit
  free_request_counted env args now s s' p r h =
      elim (authorize_cases env args now s s' (accepted p r) h) [
        | inl (x, refused, is_answer, is_left) ↦
            absurd
              (subst BeforeCounting (sym is_answer) (refusal-BeforeCounting args now s x refused))
        | inr (a, passed, metered) ↦
            let (t, others, m) = meter-Metered env args now a s s' (accepted p r) metered in
            let admits = admit-Admits args now s a passed in
            (
              a,
              admits,
              Metered-Counted m,
              elim (Bool-cases a.is_site_key) [
                | inl site ↦ inl site
                | inr customer_key ↦ elim (Option-cases a.plan) [
                  | inr paid ↦ inr (inl paid)
                  | inl free ↦
                      let (u, is_u, counted) =
                        Metered-counts customer_key free
                          (ap (λ (x : State). get a.owner.id x.users) others
                            ∙ ap (λ i. get i s.users) (get-id _ s.users a.owner admits.owned)
                            ∙ admits.owned)
                          m refl in
                      inr (inr (Admits-free admits customer_key free, u, is_u, counted))
                ]
              ],
            )
      ]
