-- ===== src/Payments/Access.antt =====
-- What a payment gives its account, and what activation gives it.
use api_provider.Prelude.{
  ℕ, ◌+◌, ◌*◌, ◌≤◌, ◌<◌, ◌≡◌, refl, sym, ap, ◌∙◌, ◌⊎◌, inl, inr, Bool, true, false, Option, none,
  some, arith,
}
use api_provider.Prelude.Tests.{ltb, Bool-cases, Option-cases, get_or, is_some}
use api_provider.Plans.{PaidPlan, User, active_plan, plan_duration_ms}
use api_provider.Result.{ok}
use api_provider.Schema.{Payment, State}
use api_provider.Convex.Docs.{Doc}
use api_provider.Convex.Database.{Database}
use api_provider.Convex.Queries.{unique, get-patch-same, get-patch-other, get-id}
use api_provider.Payments.{
  paid, unpaid, Settle, has_intent, settles, settle, paid_now, settle_pending, grant, with_plan,
  new_expiry, activate_free_tier,
}
use api_provider.Payments.Lifecycle.{settle-settled, settle-unsettled}

active_plan-later :
    (u : User) (now : ℕ) → is_some (active_plan u now) ≡ true → now ≤ get_or u.plan_expires_at now
unfolding active_plan
active_plan-later u now h = ground arith

new_expiry-later : (now : ℕ) (u : User) → now + plan_duration_ms ≤ new_expiry now u
unfolding new_expiry
new_expiry-later now u = elim (Bool-cases (is_some (active_plan u now))) [
  | inl active ↦ ground (arith, active_plan-later u now active)
  | inr inactive ↦ rw inactive (ground arith)
]

-- From when a bought plan is counted: from the end of a plan that is still active, or else from now.
pub data Counted (now : ℕ) (u : User) : ℕ → Type 0 where
  after_active :
      (p : PaidPlan) (expiry : ℕ)
      → u.plan ≡ some p
      → u.plan_expires_at ≡ some expiry
      → now < expiry
      → Counted now u expiry
  after_ended : (expiry : ℕ) → u.plan_expires_at ≡ some expiry → expiry ≤ now → Counted now u now
  with_no_plan : u.plan ≡ none → Counted now u now
  with_no_expiry : u.plan_expires_at ≡ none → Counted now u now

new_expiry-Counted :
    (now : ℕ) (u : User)
    → (start : ℕ) × (new_expiry now u ≡ start + 30 * 86400000) × Counted now u start
unfolding new_expiry active_plan
new_expiry-Counted now u = elim (Option-cases u.plan) [
  | inl no_plan ↦ (now, rw no_plan refl, with_no_plan no_plan)
  | inr (p, a_plan) ↦ elim (Option-cases u.plan_expires_at) [
    | inl no_expiry ↦ (now, rw (a_plan, no_expiry) refl, with_no_expiry no_expiry)
    | inr (expiry, expires) ↦ elim (Bool-cases (ltb now expiry)) [
      | inl active ↦ (
        expiry,
        rw (a_plan, expires, active) refl,
        after_active p expiry a_plan expires (ground (arith, active)),
      )
      | inr ended ↦ (
        now,
        rw (a_plan, expires, ended) refl,
        after_ended expiry expires (ground (arith, ended)),
      )
    ]
  ]
]

-- A bought plan is active for 30 days at least.
with_plan-active :
    (plan : PaidPlan) (now later : ℕ) (u : User)
    → later < now + plan_duration_ms
    → active_plan (with_plan plan (new_expiry now u) u) later ≡ some plan
unfolding active_plan
with_plan-active plan now later u h = ground (arith, new_expiry-later now u)

module _ ⦃db : Database⦄ where
  open db use {get, patch}

  grant-lem :
      (payment : Doc Payment) (now : ℕ) (s s' : State) (o : Option (Doc User))
      → get payment.value.user_id s.users ≡ o
      → grant payment now s o ≡ (true, s')
      → (u : Doc User) × (get payment.value.user_id s.users ≡ some u)
        × (s'.users
            ≡ patch payment.value.user_id
                (with_plan payment.value.plan (new_expiry now u.value))
                s.users)
  unfolding grant
  grant-lem payment now s s' none there h = cc (ap (λ (x : Bool × State). x.0) h)
  grant-lem payment now s s' (some u) there h =
      let same = get-id payment.value.user_id s.users u there in
      (u, there, ground (arith, sym same))

  -- What an account gets when a payment is settled as paid.
  pub record Grants (args : Settle) (now : ℕ) (s s' : State) (payment : Doc Payment) (u : Doc User)
      : Type 0 where
    -- The payment was the pending one of the intent, for this amount and currency.
    pub found : unique (has_intent args.payment_intent_id) s.payments ≡ ok (some payment)
    pub matches : settles args payment ≡ true
    pub owner : get payment.value.user_id s.users ≡ some u
    -- It is marked as paid.
    pub marked : s'.payments ≡ patch payment.id (paid_now now) s.payments
    -- Its owner has the plan for 30 days after what was left of an active plan, and no other field of
    -- the account changes.
    pub given :
        (u' : Doc User) × (start : ℕ) × (get payment.value.user_id s'.users ≡ some u')
        × (u'.value ≡ record u.value {
          plan = some payment.value.plan;
          plan_expires_at = some (start + 30 * 86400000);
        })
        × Counted now u.value start
        × ((later : ℕ)
            → later < now + plan_duration_ms
            → active_plan u'.value later ≡ some payment.value.plan)
    -- No other account changes.
    pub others : (j : ℕ) → (j ≡ payment.value.user_id → ⊥) → get j s'.users ≡ get j s.users

  -- When a settlement as paid settles a payment, the payment was pending with the settled amount and
  -- currency and is now marked as paid, its owner has the payment's plan, which ends 30 days after the
  -- end of a plan that was still active, or else after now, and no other account changes.
  pub settle-Grants :
      (args : Settle) (now : ℕ) (s s' : State)
      → args.status ≡ paid
      → settle args now s ≡ ok (true, s')
      → (payment : Doc Payment) × (u : Doc User) × Grants args now s s' payment u
  unfolding settle_pending
  settle-Grants args now s s' is_paid h =
      let (payment, found, matches, settling, payments) = settle-settled args now s s' h in
      let (u, owner, users) =
        grant-lem payment now s s' (get payment.value.user_id s.users) refl
          (rw is_paid at settling) in
      let given = with_plan payment.value.plan (new_expiry now u.value) in
      let (start, expires, counted) = new_expiry-Counted now u.value in
      (
        payment,
        u,
        record {
          found = found;
          matches = matches;
          owner = owner;
          marked = ground (arith, payments, is_paid);
          given = (
            record u { value = given u.value },
            start,
            ap (get payment.value.user_id) users
                ∙ get-patch-same payment.value.user_id given s.users u owner,
            ap (λ expiry. with_plan payment.value.plan expiry u.value) expires,
            counted,
            λ later below. with_plan-active payment.value.plan now later u.value below,
          );
          others = λ j other.
              ap (get j) users ∙ get-patch-other payment.value.user_id j given s.users other;
        },
      )

  -- A settlement that settles nothing, or settles a payment as failed, leaves every account alone.
  pub settle_unpaid :
      (args : Settle) (now : ℕ) (b : Bool) (s s' : State)
      → settle args now s ≡ ok (b, s')
      → (b ≡ false) ⊎ (args.status ≡ unpaid)
      → s'.users ≡ s.users
  unfolding settle_pending
  settle_unpaid args now false s s' h why =
      ap (λ (x : State). x.users) (settle-unsettled args now s s' h)
  settle_unpaid args now true s s' h (inl impossible) = cc
  settle_unpaid args now true s s' h (inr is_unpaid) =
      let (payment, found, matches, settling, payments) = settle-settled args now s s' h in
      ground (arith, (rw is_unpaid at settling))

  -- Activating the free tier of an account that has it changes nothing: the requests it has used
  -- stay used.
  pub activate_once :
      (user_id now : ℕ) (s s' : State) (u : Doc User)
      → get user_id s.users ≡ some u
      → is_some u.value.free_tier_activated_at ≡ true
      → activate_free_tier user_id now s ≡ ok s'
      → s' ≡ s
  unfolding activate_free_tier
  activate_once user_id now s s' u there active h = ground (arith, (rw there at h))
