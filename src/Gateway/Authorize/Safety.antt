-- ===== src/Gateway/Authorize/Safety.antt =====
-- Who passes `authorize`, and what an answer leaves alone.
use api_provider.Prelude.{
  ℕ, ◌≡◌, refl, sym, ap, ◌∙◌, subst, ◌⊎◌, inl, inr, Bool, true, false, arith,
}
use api_provider.Env.{Env}
use api_provider.Result.{ok}
use api_provider.Schema.{State}
use api_provider.Audit.{write_audit}
use api_provider.Convex.Database.{Database}
use api_provider.Gateway.Credential.{Args, Response, accepted, Admitted, principal}
use api_provider.Gateway.Credential.Admission.{Admits, admit-Admits}
use api_provider.Gateway.Credential.Refusals.{BeforeCounting, refusal-BeforeCounting}
use api_provider.Gateway.Authorize.{authorize}
use api_provider.Gateway.Authorize.Outcomes.{
  Counted, Metered, over_rate, over_quota, site_key, customer, authorize_cases, meter-Metered,
}

abbrev pub is_accepted : Response → Bool
is_accepted (accepted p r) = true
is_accepted _ = false

module _ ⦃db : Database⦄ where
  open db use {get}

  pub Metered-Counted :
      {env : Env} {args : Args} {now : ℕ} {a : Admitted} {s s' : State} {answer : Response}
      → Metered env args now a s s' answer
      → Counted answer (principal a)
  Metered-Counted (over_rate q u) = refl
  Metered-Counted (over_quota q u) = refl
  Metered-Counted (site_key e q u) = refl
  Metered-Counted (customer r t e c k q u) = refl

  -- An answer of `authorize` is of one of two kinds. Either it is one of the five refusals before
  -- counting, and the state changes in nothing but its audit events; or the request is counted, and
  -- its credential leads to a key that is not revoked and not expired, whose owner exists and is
  -- enabled and has access (or the key is the site key), with the endpoint in its scope, and the
  -- answer names that key.
  pub authorize_sound :
      (env : Env) (args : Args) (now : ℕ) (s s' : State) (answer : Response)
      → authorize env args now s ≡ ok (answer, s')
      → (BeforeCounting answer
          × (s' ≡ record s { security_audit_events = s'.security_audit_events }))
        ⊎ ((a : Admitted) × Admits args now s a × Counted answer (principal a))
  unfolding write_audit
  authorize_sound env args now s s' answer h = elim (authorize_cases env args now s s' answer h) [
    | inl (r, refused, is_answer, is_left) ↦ inl (
      subst BeforeCounting (sym is_answer) (refusal-BeforeCounting args now s r refused),
      ground arith,
    )
    | inr (a, passed, metered) ↦
        let (t, others, m) = meter-Metered env args now a s s' answer metered in
        inr (a, admit-Admits args now s a passed, Metered-Counted m)
  ]

  Metered-uncharged :
      {env : Env} {args : Args} {now : ℕ} {a : Admitted} {s s' : State} {answer : Response}
      → Metered env args now a s s' answer
      → is_accepted answer ≡ false
      → (s'.quota_windows ≡ s.quota_windows) × (s'.users ≡ s.users)
  Metered-uncharged (over_rate q u) h = (q, u)
  Metered-uncharged (over_quota q u) h = (q, u)
  Metered-uncharged (site_key e q u) h = cc
  Metered-uncharged (customer r t e c k q u) h = cc

  -- A request that is not accepted charges no quota and uses no free request.
  pub refused_charges_nothing :
      (env : Env) (args : Args) (now : ℕ) (s s' : State) (answer : Response)
      → authorize env args now s ≡ ok (answer, s')
      → is_accepted answer ≡ false
      → (s'.quota_windows ≡ s.quota_windows) × (s'.users ≡ s.users)
  unfolding write_audit
  refused_charges_nothing env args now s s' answer h fails =
      elim (authorize_cases env args now s s' answer h) [
        | inl (r, refused, is_answer, is_left) ↦ (rw is_left, rw is_left)
        | inr (a, passed, metered) ↦
            let (t, others, m) = meter-Metered env args now a s s' answer metered in
            let (quotas, users) = Metered-uncharged m fails in
            (
              quotas ∙ ap (λ (x : State). x.quota_windows) others,
              users ∙ ap (λ (x : State). x.users) others,
            )
      ]
