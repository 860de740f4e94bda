-- ===== src/Payments/Checkout.antt =====
-- Recording a checkout again, as a retry does.
use text.Mathlib.TextPositions.{eq_refl}
use api_provider.Prelude.{
  ℕ, ◌≡◌, refl, sym, ap, ◌∙◌, inl, inr, String, true, ◌&&◌, Option, none, some, arith,
}
use api_provider.Prelude.Tests.{◌==◌, Bool-cases}
use api_provider.Plans.{PaidPlan, starter, essentials, pro}
use api_provider.Result.{ok, >>=-eq-ok, ok-injective}
use api_provider.Schema.{Payment, State}
use api_provider.Convex.Docs.{Doc}
use api_provider.Convex.Database.{Database}
use api_provider.Convex.Queries.{unique, patch_or_insert, unique-patch_or_insert}
use api_provider.Payments.{has_intent, new_payment, same_plan, reused, record_pending}

same_plan_refl : (p : PaidPlan) → same_plan p p ≡ true
same_plan_refl starter = refl
same_plan_refl essentials = refl
same_plan_refl pro = refl

module _ ⦃db : Database⦄ where
  open db use {insert, new_id}

  record_pending-found :
      (user_id : ℕ) (plan : PaidPlan) (intent : String) (now : ℕ) (s : State) (payment_id : ℕ)
      (d : Doc Payment)
      → unique (has_intent intent) s.payments ≡ ok (some d)
      → (d.value.user_id == user_id && same_plan d.value.plan plan) ≡ true
      → d.id ≡ payment_id
      → record_pending user_id plan intent now s ≡ ok (payment_id, s)
  unfolding record_pending
  record_pending-found user_id plan intent now s payment_id d found mine is_id =
      rw (found, mine) (ap (λ i. ok (i, s)) is_id)

  reused-again :
      (user_id : ℕ) (plan : PaidPlan) (intent : String) (now later : ℕ) (s s' : State)
      (payment_id : ℕ) (found : Option (Doc Payment))
      → unique (has_intent intent) s.payments ≡ ok found
      → reused user_id plan intent now s found ≡ ok (payment_id, s')
      → record_pending user_id plan intent later s' ≡ ok (payment_id, s')
  unfolding patch_or_insert
  reused-again user_id plan intent now later s s' payment_id none is_found h =
      let row = new_payment user_id plan intent now in
      let (same_id, same) = ok-injective h in
      let written =
        unique-patch_or_insert (has_intent intent) (λ p. p) row s.payments none is_found (λ x. refl)
          (eq_refl intent) in
      let is_row = ap (λ (x : State). unique (has_intent intent) x.payments) (sym same) ∙ written in
      record_pending-found user_id plan intent later s' payment_id _ is_row
        (ground (arith, same_plan_refl plan)) same_id
  reused-again user_id plan intent now later s s' payment_id (some d) is_found h =
      elim (Bool-cases (d.value.user_id == user_id && same_plan d.value.plan plan)) [
        | inl mine ↦
            let (same_id, same) = ok-injective (rw mine at h) in
            record_pending-found user_id plan intent later s' payment_id d
              (ap (λ (x : State). unique (has_intent intent) x.payments) (sym same) ∙ is_found) mine
              same_id
        | inr other ↦ cc (rw other at h)
      ]

  -- A checkout that was recorded is not recorded twice: the same intent, account and plan give the
  -- same payment and change nothing.
  pub record_pending_again :
      (user_id : ℕ) (plan : PaidPlan) (intent : String) (now later : ℕ) (s s' : State)
      (payment_id : ℕ)
      → record_pending user_id plan intent now s ≡ ok (payment_id, s')
      → record_pending user_id plan intent later s' ≡ ok (payment_id, s')
  unfolding record_pending
  record_pending_again user_id plan intent now later s s' payment_id h =
      let (found, is_found, h') =
        >>=-eq-ok (unique (has_intent intent) s.payments) (reused user_id plan intent now s) h in
      reused-again user_id plan intent now later s s' payment_id found is_found h'
