-- ===== src/Payments.antt =====
-- payments.ts: the free tier, the payment rows and their settlement, and the checks of a checkout
-- that decide which settlement runs. `now` is the `Date.now()` of the transaction. The answers of
-- Wire are arguments.
pub mod Access
pub mod Lifecycle
pub mod Purchase
pub mod Checkout
pub mod Actions
use text.Mathlib.Text.{◌==◌ as str_eq}
use api_provider.Prelude.{ℕ, ◌+◌, String, Bool, true, false, not, ◌&&◌, ◌||◌, Option, none, some}
use api_provider.Prelude.Tests.{◌==◌, if◌then◌else◌, is_some, get_or}
use api_provider.Plans.{
  PaidPlan, starter, essentials, pro, User, active_plan, plan_wire_amount, plan_duration_ms,
}
use api_provider.Result.{
  Result, Error, convex_error, failure, ok, err, ◌>>=◌, ◌>>◌, require, or_throw,
}
use api_provider.Schema.{Payment, PaymentStatus, pending, succeeded, failed, State}
use api_provider.Convex.Docs.{Doc}
use api_provider.Convex.Database.{Database}
use api_provider.Convex.Queries.{unique}

abbrev pub same_plan : PaidPlan → PaidPlan → Bool
same_plan starter starter = true
same_plan essentials essentials = true
same_plan pro pro = true
same_plan _ _ = false

-- `status: v.union(v.literal("succeeded"), v.literal("failed"))`
pub data Settlement : Type 0 where
  paid unpaid : Settlement

abbrev pub is_pending : PaymentStatus → Bool
is_pending pending = true
is_pending _ = false

abbrev pub has_intent : String → Payment → Bool
has_intent intent p = str_eq p.payment_intent_id intent

-- The arguments of `_settle`.
pub record Settle : Type 0 where
  pub payment_intent_id : String
  pub status : Settlement
  pub amount : ℕ
  pub currency : String

abbrev pub new_payment : ℕ → PaidPlan → String → ℕ → Payment
new_payment user_id plan intent now = record {
  user_id = user_id;
  plan = plan;
  payment_intent_id = intent;
  amount_minor = plan_wire_amount;
  currency = "MNT";
  status = pending;
  created_at = now;
  paid_at = none;
}

-- The plan runs on from the expiry of a plan that is still active.
unfoldable pub new_expiry : ℕ → User → ℕ
new_expiry now u =
    let existing_expiry : ℕ =
      if is_some (active_plan u now) then get_or u.plan_expires_at now else now in
    existing_expiry + plan_duration_ms

abbrev pub with_plan : PaidPlan → ℕ → User → User
with_plan plan expiry u = record u { plan = some plan; plan_expires_at = some expiry }

abbrev pub paid_now : ℕ → Payment → Payment
paid_now now p = record p { status = succeeded; paid_at = some now }

abbrev pub not_paid : Payment → Payment
not_paid p = record p { status = failed }

-- The answer of Wire about a payment intent.
pub record WireIntent : Type 0 where
  pub id : String
  pub status : String
  pub amount : ℕ
  pub currency : String

module _ ⦃db : Database⦄ where
  open db use {get, insert, patch, new_id}

  unfoldable pub activate_free_tier : ℕ → ℕ → State → Result State
  activate_free_tier user_id now s = do
    user ← or_throw (get user_id s.users) (convex_error "Account not found.")
    require (not (user.value.is_system || is_some user.value.disabled_at))
        (convex_error "Account not found.")
    ok (
        if is_some user.value.free_tier_activated_at then s else record s {
          users =
              patch user_id
                (λ u. record u { free_tier_activated_at = some now; free_requests_used = some 0 })
                s.users;
        })

  unfoldable pub payment_status : ℕ → ℕ → State → Result PaymentStatus
  payment_status user_id payment_id s = do
    payment ← or_throw (get payment_id s.payments) (convex_error "Payment not found.")
    require (payment.value.user_id == user_id) (convex_error "Payment not found.")
    ok payment.value.status

  -- The row of the intent is reused for the same checkout and refused for another one.
  abbrev pub reused : ℕ → PaidPlan → String → ℕ → State → Option (Doc Payment) → Result (ℕ × State)
  reused user_id plan intent now s none = ok (
    new_id s.payments,
    record s { payments = insert (new_payment user_id plan intent now) s.payments },
  )
  reused user_id plan intent now s (some existing) = do
    require (existing.value.user_id == user_id && same_plan existing.value.plan plan)
        (failure "Payment intent already belongs to another checkout.")
    ok (existing.id, s)

  unfoldable pub record_pending : ℕ → PaidPlan → String → ℕ → State → Result (ℕ × State)
  record_pending user_id plan intent now s = do
    existing ← unique (has_intent intent) s.payments
    reused user_id plan intent now s existing

  unfoldable pub grant : Doc Payment → ℕ → State → Option (Doc User) → Bool × State
  unfolding new_expiry
  grant payment now s none = (false, s)
  grant payment now s (some user) = (
    true,
    record s {
      users = patch user.id (with_plan payment.value.plan (new_expiry now user.value)) s.users;
      payments = patch payment.id (paid_now now) s.payments;
    },
  )

  -- `_settle` on a payment that is pending, with the amount and the currency of the payment.
  unfoldable pub settle_pending : Settlement → Doc Payment → ℕ → State → Bool × State
  unfolding grant
  settle_pending unpaid payment now s =
      (true, record s { payments = patch payment.id not_paid s.payments })
  settle_pending paid payment now s = grant payment now s (get payment.value.user_id s.users)

  abbrev pub settles : Settle → Doc Payment → Bool
  settles args payment =
      is_pending payment.value.status
      && args.amount == payment.value.amount_minor
      && str_eq args.currency payment.value.currency

  unfoldable pub settle_found : Settle → ℕ → State → Option (Doc Payment) → Bool × State
  unfolding settle_pending
  settle_found args now s none = (false, s)
  settle_found args now s (some payment) =
      if settles args payment then settle_pending args.status payment now s else (false, s)

  unfoldable pub settle : Settle → ℕ → State → Result (Bool × State)
  unfolding settle_found
  settle args now s = do
    payment ← unique (has_intent args.payment_intent_id) s.payments
    ok (settle_found args now s payment)

  unfoldable pub user_for_checkout : ℕ → State → Option ℕ
  user_for_checkout user_id s = elim (get user_id s.users) [
    | none ↦ none
    | some u ↦
        if not (elim u.value.disabled_at [ none ↦ false | some t ↦ not (t == 0) ])
          && not u.value.is_system
        then some user_id
        else none
  ]

  abbrev settlement_of : String → Option Settlement
  settlement_of status =
      if str_eq status "succeeded"
      then some paid
      else if str_eq status "failed" || str_eq status "canceled" || str_eq status "expired"
      then some unpaid
      else none

  abbrev run_settlement : String → WireIntent → ℕ → State → Option Settlement → Result State
  run_settlement intent answer now s none = ok s
  run_settlement intent answer now s (some status) = do
    (settled, s') ←
        settle
          (record {
            payment_intent_id = intent;
            status = status;
            amount = answer.amount;
            currency = answer.currency;
          })
          now s
    ok s'

  -- `checkIntent`, with the answer of Wire.
  unfoldable pub check_intent : String → WireIntent → ℕ → State → Result (String × State)
  unfolding settle
  check_intent intent answer now s = do
    require (str_eq answer.id intent) (failure "Wire returned an unexpected payment intent.")
    s' ← run_settlement intent answer now s (settlement_of answer.status)
    ok (answer.status, s')
