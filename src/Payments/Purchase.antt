-- ===== src/Payments/Purchase.antt =====
-- payments.ts: what it takes for `startCheckout` to change an account.
use text.Mathlib.Text.{◌==◌ as str_eq}
use text.Mathlib.TextEquality.{eq_iff}
use mathlib.Core.Bool.{and-eq-true_iff}
use api_provider.Prelude.{
  ℕ, ◌≡◌, refl, ◌∙◌, subst, inl, inr, ◌⊎◌, String, Bool, true, false, ◌&&◌, Option, none, some,
  arith,
}
use api_provider.Prelude.Tests.{◌==◌, Bool-cases, else_branch}
use api_provider.Plans.{PaidPlan, plan_wire_amount}
use api_provider.Result.{Result, Error, err, ok, require, attempt, >>=-eq-ok, ok-cancel}
use api_provider.Schema.{Payment, State}
use api_provider.Session.{Auth}
use api_provider.Convex.Database.{Database}
use api_provider.Convex.Queries.{unique}
use api_provider.Convex.Docs.{Doc}
use api_provider.Payments.{WireIntent, record_pending, reused, has_intent}
use api_provider.Payments.Actions.{
  Wire, WireAnswer, created, refused, is_priced, settle_confirmed, checkout_recorded,
  checkout_created, start_checkout,
}

-- What holds of the state before an attempt, and of every state that can come after it.
attempt-keeps {ℓ κ μ} :
    {Value : Type ℓ} {Answer : Type κ} {Kept : Type μ} (P : Kept → Type 0) (r : Result Value)
    (t : Kept) (next : Value → Result Answer × Kept)
    → P t
    → ((v : Value) → r ≡ ok v → P (next v).1)
    → P (attempt r t next).1
unfolding attempt
attempt-keeps P (err e) t next before after = before
attempt-keeps P (ok v) t next before after = after v refl

-- Wire created an intent for the plan and confirmed the same intent as paid, for the price of a plan.
pub record Bought (wire : Wire) (plan : PaidPlan) (request : String) : Type 0 where
  pub intent : WireIntent
  pub confirmed : WireIntent
  pub is_created : wire.create plan request ≡ ok (created intent)
  pub is_confirmed : wire.confirm intent.id request ≡ ok confirmed
  pub same : confirmed.id ≡ intent.id
  pub is_paid : confirmed.status ≡ "succeeded"
  pub priced : (confirmed.amount ≡ plan_wire_amount) × (confirmed.currency ≡ "MNT")

module _ ⦃db : Database⦄ where
  reused-users :
      (user_id : ℕ) (plan : PaidPlan) (intent : String) (now : ℕ) (t : State)
      (found : Option (Doc Payment)) (r : ℕ × State)
      → reused user_id plan intent now t found ≡ ok r
      → r.1.users ≡ t.users
  reused-users user_id plan intent now t none r h = ground arith
  reused-users user_id plan intent now t (some d) r h = ground arith

  record_pending-users :
      (user_id : ℕ) (plan : PaidPlan) (intent : String) (now : ℕ) (t : State) (r : ℕ × State)
      → record_pending user_id plan intent now t ≡ ok r
      → r.1.users ≡ t.users
  unfolding record_pending
  record_pending-users user_id plan intent now t r h =
      let (found, is_found, h') =
        >>=-eq-ok (unique (has_intent intent) t.payments) (reused user_id plan intent now t) h in
      reused-users user_id plan intent now t found r h'

  -- From here on an account is changed only by a purchase that is confirmed.
  module _ (wire : Wire) (plan : PaidPlan) (request : String) (now : ℕ) (start : State) where
    abbrev Kept : State → Type 0
    Kept t = (t.users ≡ start.users) ⊎ Bought wire plan request

    bought :
        (intent confirmed : WireIntent)
        → wire.create plan request ≡ ok (created intent)
        → wire.confirm intent.id request ≡ ok confirmed
        → (str_eq confirmed.id intent.id && is_priced confirmed) ≡ true
        → str_eq confirmed.status "succeeded" ≡ true
        → Bought wire plan request
    bought intent confirmed is_created is_confirmed passes succeeds =
        let (same, priced) =
          (and-eq-true_iff (str_eq confirmed.id intent.id) (is_priced confirmed)).0 passes in
        let (amount, currency) =
          (and-eq-true_iff (confirmed.amount == plan_wire_amount)
              (str_eq confirmed.currency "MNT")).0
            priced in
        record {
          intent = intent;
          confirmed = confirmed;
          is_created = is_created;
          is_confirmed = is_confirmed;
          same = (eq_iff confirmed.id intent.id).0 same;
          is_paid = (eq_iff confirmed.status "succeeded").0 succeeds;
          priced = (ground arith, (eq_iff confirmed.currency "MNT").0 currency);
        }

    settle_confirmed-Kept :
        (intent confirmed : WireIntent) (t t' : State)
        → wire.create plan request ≡ ok (created intent)
        → wire.confirm intent.id request ≡ ok confirmed
        → (str_eq confirmed.id intent.id && is_priced confirmed) ≡ true
        → Kept t
        → settle_confirmed intent.id confirmed now t ≡ ok t'
        → Kept t'
    settle_confirmed-Kept intent confirmed t t' is_created is_confirmed passes before h =
        elim (Bool-cases (str_eq confirmed.status "succeeded")) [
          | inl succeeds ↦ inr (bought intent confirmed is_created is_confirmed passes succeeds)
          | inr waits ↦ subst Kept (ok-cancel (else_branch _ _ waits h)) before
        ]

    require-true : (test : Bool) (e : Error) (v : Unit {0}) → require test e ≡ ok v → test ≡ true
    require-true true e v h = refl
    require-true false e v h = cc

    checkout_recorded-Kept :
        (payment_id : ℕ) (intent : WireIntent) (t : State)
        → wire.create plan request ≡ ok (created intent)
        → Kept t
        → Kept (checkout_recorded wire payment_id intent request now t).1
    unfolding checkout_recorded
    checkout_recorded-Kept payment_id intent t is_created before =
        attempt-keeps Kept (wire.confirm intent.id request) t _ before (λ confirmed is_confirmed.
          attempt-keeps Kept _ t _ before (λ v passes.
            attempt-keeps Kept (settle_confirmed intent.id confirmed now t) t _ before
              (λ t' settled.
                settle_confirmed-Kept intent confirmed t t' is_created is_confirmed
                  (require-true _ _ v passes) before settled)))

    checkout_created-Kept :
        (user_id : ℕ) (t : State) (answer : WireAnswer)
        → wire.create plan request ≡ ok answer
        → Kept t
        → Kept (checkout_created wire user_id plan request now t answer).1
    unfolding checkout_created
    checkout_created-Kept user_id t (refused code) is_created before = before
    checkout_created-Kept user_id t (created intent) is_created before =
        attempt-keeps Kept _ t _ before (λ v passes.
          attempt-keeps Kept (record_pending user_id plan intent.id now t) t _ before (λ r recorded.
            checkout_recorded-Kept r.0 intent r.1 is_created (elim before [
              | inl same ↦ inl (record_pending-users user_id plan intent.id now t r recorded ∙ same)
              | inr paid_for ↦ inr paid_for
            ])))

  -- `startCheckout` changes no account, unless Wire has created an intent for the plan and has confirmed
  -- this intent as succeeded, for the price of a plan in MNT.
  pub start_checkout_lem :
      (wire : Wire) (auth : Auth) (key : Option String) (production : Bool) (plan : PaidPlan)
      (request : String) (now : ℕ) (s t : State)
      → ((start_checkout wire auth key production plan request now s t).1.users ≡ t.users)
        ⊎ Bought wire plan request
  unfolding start_checkout
  start_checkout_lem wire auth key production plan request now s t =
      let Same = Kept wire plan request now t in
      attempt-keeps Same _ t _ (inl refl) (λ user_id a. attempt-keeps Same _ t _ (inl refl) (λ v b.
        attempt-keeps Same _ t _ (inl refl) (λ v c. attempt-keeps Same _ t _ (inl refl) (λ secret d.
          attempt-keeps Same _ t _ (inl refl) (λ v e.
            attempt-keeps Same (wire.create plan request) t _ (inl refl) (λ answer is_created.
              checkout_created-Kept wire plan request now t user_id t answer is_created
                (inl refl)))))))
