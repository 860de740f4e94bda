-- ===== src/Payments/Lifecycle.antt =====
-- The life of a payment row: it is settled once, and a settled row never changes.
use api_provider.Prelude.{
  ℕ, ◌≡◌, refl, sym, ap, ◌∙◌, inl, inr, String, Bool, true, false, Option, none, some, arith,
}
use api_provider.Prelude.Tests.{◌==◌, Bool-cases}
use api_provider.Plans.{PaidPlan, User}
use api_provider.Result.{ok, >>=-eq-ok, ok-injective}
use api_provider.Schema.{Payment, State}
use api_provider.Convex.Docs.{Doc}
use api_provider.Convex.Database.{Database}
use api_provider.Convex.Queries.{unique, unique-get, unique-patch, get-patch, get-insert}
use api_provider.Payments.{
  Settlement, paid, unpaid, Settle, is_pending, has_intent, settles, paid_now, not_paid, settle,
  settle_found, settle_pending, grant, new_payment, reused, record_pending, activate_free_tier,
}

-- What settling does to the payment row.
abbrev pub settled_by : Settlement → ℕ → Payment → Payment
settled_by paid now = paid_now now
settled_by unpaid now = not_paid

settled_by-terminal :
    (status : Settlement) (now : ℕ) (p : Payment)
    → is_pending (settled_by status now p).status ≡ false
settled_by-terminal paid now p = refl
settled_by-terminal unpaid now p = refl

settled_by-intent :
    (intent : String) (status : Settlement) (now : ℕ) (p : Payment)
    → has_intent intent (settled_by status now p) ≡ has_intent intent p
settled_by-intent intent paid now p = refl
settled_by-intent intent unpaid now p = refl

module _ ⦃db : Database⦄ where
  open db use {get, patch}

  settle_pending-payments :
      (status : Settlement) (payment : Doc Payment) (now : ℕ) (s s' : State)
      → settle_pending status payment now s ≡ (true, s')
      → s'.payments ≡ patch payment.id (settled_by status now) s.payments
  unfolding settle_pending grant
  settle_pending-payments unpaid payment now s s' h = ground arith
  settle_pending-payments paid payment now s s' h = go (get payment.value.user_id s.users) h
    where
      go :
          (o : Option (Doc User))
          → grant payment now s o ≡ (true, s')
          → s'.payments ≡ patch payment.id (paid_now now) s.payments
      go none e = cc
      go (some u) e = ground arith

  -- The row that a settlement settled, and what it did to the payments.
  pub settle-settled :
      (args : Settle) (now : ℕ) (s s' : State)
      → settle args now s ≡ ok (true, s')
      → (payment : Doc Payment) × (unique (has_intent args.payment_intent_id) s.payments
          ≡ ok (some payment))
        × (settles args payment ≡ true)
        × (settle_pending args.status payment now s ≡ (true, s'))
        × (s'.payments ≡ patch payment.id (settled_by args.status now) s.payments)
  unfolding settle settle_found
  settle-settled args now s s' h =
      let (found, is_found, h') =
        >>=-eq-ok (unique (has_intent args.payment_intent_id) s.payments)
          (λ o. ok (settle_found args now s o)) h in
      let (payment, is_some, passes, settling) = go found (ground (arith, h')) in
      (
        payment,
        is_found ∙ ap ok is_some,
        passes,
        settling,
        settle_pending-payments args.status payment now s s' settling,
      )
    where
      go :
          (o : Option (Doc Payment))
          → settle_found args now s o ≡ (true, s')
          → (payment : Doc Payment) × (o ≡ some payment)
            × (settles args payment ≡ true)
            × (settle_pending args.status payment now s ≡ (true, s'))
      go none e = cc
      go (some payment) e = elim (Bool-cases (settles args payment)) [
        | inl passes ↦ (payment, refl, passes, rw passes at e)
        | inr fails ↦ cc (rw fails at e)
      ]

  settle-refused :
      (args : Settle) (now : ℕ) (s : State) (payment : Doc Payment)
      → unique (has_intent args.payment_intent_id) s.payments ≡ ok (some payment)
      → is_pending payment.value.status ≡ false
      → settle args now s ≡ ok (false, s)
  unfolding settle settle_found
  settle-refused args now s payment found terminal = rw (found, terminal)

  -- After a settlement that settled a payment, settling the same intent again, with whatever
  -- outcome, amount and time, answers false and changes nothing.
  pub settle_once :
      (args again : Settle) (now later : ℕ) (s s' : State)
      → settle args now s ≡ ok (true, s')
      → again.payment_intent_id ≡ args.payment_intent_id
      → settle again later s' ≡ ok (false, s')
  settle_once args again now later s s' h same =
      let (payment, found, passes, is_pending, payments) = settle-settled args now s s' h in
      settle-refused again later s'
        (record payment { value = settled_by args.status now payment.value })
        (rw (same, payments)
          (unique-patch (has_intent args.payment_intent_id) (settled_by args.status now) s.payments
            payment found (settled_by-intent args.payment_intent_id args.status now)))
        (settled_by-terminal args.status now payment.value)

  reused-keeps :
      (user_id : ℕ) (plan : PaidPlan) (intent : String) (now : ℕ) (s s' : State) (payment_id : ℕ)
      (found : Option (Doc Payment))
      → reused user_id plan intent now s found ≡ ok (payment_id, s')
      → (i : ℕ) (p : Doc Payment) → get i s.payments ≡ some p
      → get i s'.payments ≡ some p
  reused-keeps user_id plan intent now s s' payment_id none h i p there =
      let kept = get-insert i (new_payment user_id plan intent now) s.payments p there in
      let (same_id, same) = ok-injective h in ap (λ (x : State). get i x.payments) (sym same) ∙ kept
  reused-keeps user_id plan intent now s s' payment_id (some d) h i p there = ground arith

  -- One transaction that writes payments or plans.
  pub data Step (s s' : State) : Type 0 where
    recorded :
        (user_id : ℕ) (plan : PaidPlan) (intent : String) (now payment_id : ℕ)
        → record_pending user_id plan intent now s ≡ ok (payment_id, s')
        → Step s s'
    settled : (args : Settle) (now : ℕ) (b : Bool) → settle args now s ≡ ok (b, s') → Step s s'
    activated : (user_id now : ℕ) → activate_free_tier user_id now s ≡ ok s' → Step s s'

  pub data Steps (s : State) : State → Type 0 where
    done : Steps s s
    then_step : {t u : State} → Steps s t → Step t u → Steps s u

  grant-false :
      (payment : Doc Payment) (now : ℕ) (s s' : State) (o : Option (Doc User))
      → grant payment now s o ≡ (false, s')
      → s' ≡ s
  unfolding grant
  grant-false payment now s s' none h = ground arith
  grant-false payment now s s' (some u) h = cc (ap (λ (x : Bool × State). x.0) h)

  settle_found-false :
      (args : Settle) (now : ℕ) (s s' : State) (o : Option (Doc Payment))
      → settle_found args now s o ≡ (false, s')
      → s' ≡ s
  unfolding settle_found settle_pending
  settle_found-false args now s s' none h = ground arith
  settle_found-false args now s s' (some payment) h = elim (Bool-cases (settles args payment)) [
    | inl passes ↦ pending_false args.status (rw passes at h)
    | inr fails ↦ ground (arith, (rw fails at h))
  ]
    where
      pending_false :
          (status : Settlement) → settle_pending status payment now s ≡ (false, s') → s' ≡ s
      pending_false unpaid e = cc (ap (λ (x : Bool × State). x.0) e)
      pending_false paid e = grant-false payment now s s' (get payment.value.user_id s.users) e

  pub settle-unsettled :
      (args : Settle) (now : ℕ) (s s' : State) → settle args now s ≡ ok (false, s') → s' ≡ s
  unfolding settle
  settle-unsettled args now s s' h =
      let (found, is_found, h') =
        >>=-eq-ok (unique (has_intent args.payment_intent_id) s.payments)
          (λ o. ok (settle_found args now s o)) h in
      settle_found-false args now s s' found (ground (arith, h'))

  settle-terminal :
      (args : Settle) (now : ℕ) (b : Bool) (s s' : State)
      → settle args now s ≡ ok (b, s')
      → (i : ℕ) (p : Doc Payment) → get i s.payments ≡ some p
      → is_pending p.value.status ≡ false
      → get i s'.payments ≡ some p
  settle-terminal args now false s s' h i p there terminal =
      ap (λ (x : State). get i x.payments) (settle-unsettled args now s s' h) ∙ there
  settle-terminal args now true s s' h i p there terminal =
      let (payment, found, passes, settling, payments) = settle-settled args now s s' h in
      let (mine, intent) =
        unique-get (has_intent args.payment_intent_id) s.payments payment found in
      let patched = rw there at (get-patch payment.id i (settled_by args.status now) s.payments) in
      elim (Bool-cases (payment.id == i)) [
        | inl same ↦
            let is_i : payment.id ≡ i = ground arith in
            let is_p : ◌≡◌ {A = Option (Doc Payment)} (some p) (some payment) =
              sym there ∙ ap (λ j. get j s.payments) (sym is_i) ∙ mine in
            absurd (ground (arith, is_p))
        | inr other ↦ ap (get i) payments ∙ (rw other at patched)
      ]

  Step-terminal :
      (s s' : State) (i : ℕ) (p : Doc Payment)
      → Step s s'
      → get i s.payments ≡ some p
      → is_pending p.value.status ≡ false
      → get i s'.payments ≡ some p
  unfolding record_pending activate_free_tier
  Step-terminal s s' i p (recorded user_id plan intent now payment_id h) there terminal =
      let (found, is_found, h') =
        >>=-eq-ok (unique (has_intent intent) s.payments) (reused user_id plan intent now s) h in
      reused-keeps user_id plan intent now s s' payment_id found h' i p there
  Step-terminal s s' i p (settled args now b h) there terminal =
      settle-terminal args now b s s' h i p there terminal
  Step-terminal s s' i p (activated user_id now h) there terminal = ground arith

  -- A payment that has succeeded or failed is never written again, whatever payments are recorded
  -- and settled and whatever accounts are activated after it.
  pub terminal_stays :
      (s s' : State) (i : ℕ) (p : Doc Payment)
      → Steps s s'
      → get i s.payments ≡ some p
      → is_pending p.value.status ≡ false
      → get i s'.payments ≡ some p
  terminal_stays s s' i p done there terminal = there
  terminal_stays s s' i p (then_step {t} before step) there terminal =
      Step-terminal t s' i p step (terminal_stays s t i p before there terminal) terminal
