-- ===== src/Payments/Actions.antt =====
-- payments.ts: what a developer and the cron job call, with Wire's API as a parameter. An action reads
-- in one transaction, on `s`, and writes in later ones, on `t`.
use Prim.Native.Char.{code}
use text.Mathlib.Text.{◌==◌ as str_eq}
use api_provider.Prelude.{
  ℕ, String, Bool, true, false, not, ◌&&◌, ◌||◌, Option, none, List, [], ◌∷◌, map,
}
use api_provider.Prelude.Tests.{◌==◌, leb, if◌then◌else◌, is_some}
use api_provider.Prelude.Lists.{take}
use api_provider.Plans.{
  PaidPlan, active_plan, free_requests_remaining, free_total_requests, has_key_access,
  plan_wire_amount,
}
use api_provider.Result.{
  Result, convex_error, failure, ok, err, ◌>>=◌, ◌>>◌, require, or_throw, attempt,
}
use api_provider.Schema.{Payment, PaymentStatus, pending, succeeded, failed, State}
use api_provider.Keys.Format.{after_start}
use api_provider.Wire.{hex_digit}
use api_provider.Session.{Auth, require_user_id}
use api_provider.Convex.Docs.{Doc}
use api_provider.Convex.Database.{Database}
use api_provider.Payments.{
  WireIntent, paid, is_pending, user_for_checkout, record_pending, settle, check_intent,
}

-- What Wire answers: to the creation of an intent, to its confirmation, and when it is asked for one.
-- A creation may be refused with a code.
pub data WireAnswer : Type 0 where
  created : WireIntent → WireAnswer
  refused : String → WireAnswer

pub record Wire : Type 0 where
  pub create : PaidPlan → String → Result WireAnswer
  pub confirm : String → String → Result WireIntent
  pub retrieve : String → Result WireIntent

-- A row of `myBilling`.
pub record PaymentRow : Type 0 where
  pub id : ℕ
  pub plan : PaidPlan
  pub status : PaymentStatus
  pub amount_minor : ℕ
  pub created_at : ℕ
  pub paid_at : Option ℕ

pub record Billing : Type 0 where
  pub plan : Option PaidPlan
  pub plan_expires_at : Option ℕ
  pub can_use_api_keys : Bool
  pub free_activated : Bool
  pub free_remaining : ℕ
  pub free_total : ℕ
  pub payments : List PaymentRow

abbrev payment_row : Doc Payment → PaymentRow
payment_row p = record {
  id = p.id;
  plan = p.value.plan;
  status = p.value.status;
  amount_minor = p.value.amount_minor;
  created_at = p.value.created_at;
  paid_at = p.value.paid_at;
}

abbrev is_succeeded : PaymentStatus → Bool
is_succeeded succeeded = true
is_succeeded _ = false

abbrev paid_by : ℕ → Payment → Bool
paid_by user_id p = p.user_id == user_id && is_succeeded p.status

abbrev awaits : Payment → Bool
awaits p = is_pending p.status

-- The codes with which a checkout is not available.
abbrev is_unavailable : String → Bool
is_unavailable code =
    str_eq code "connector_required"
    || str_eq code "settlement_account_required"
    || str_eq code "dan_verification_required"

-- The intent is for the amount and the currency of a plan.
abbrev pub is_priced : WireIntent → Bool
is_priced intent = intent.amount == plan_wire_amount && str_eq intent.currency "MNT"

-- Whether a character is one that a letter of the pattern stands for: h is [a-f0-9], v is [1-8] and r is
-- [89ab], in either case, and any other letter stands for itself.
abbrev is_letter_of : ℕ → ℕ → Bool
is_letter_of p c =
    if p == b'h'
    then is_some (hex_digit c)
    else if p == b'v'
    then leb b'1' c && leb c b'8'
    else if p == b'r'
    then c == b'8' || c == b'9' || c == b'a' || c == b'b' || c == b'A' || c == b'B'
    else p == c

unfoldable is_of_pattern : String → String → Bool
is_of_pattern String.[] String.[] = true
is_of_pattern String.[] (String.◌∷◌ c s) = false
is_of_pattern (String.◌∷◌ p more) String.[] = false
is_of_pattern (String.◌∷◌ p more) (String.◌∷◌ c s) =
    is_letter_of (code p) (code c) && is_of_pattern more s

-- The regular expression of a request id.
unfoldable pub is_request_id : String → Bool
unfolding is_of_pattern
is_request_id s = is_of_pattern "hhhhhhhh-hhhh-vhhh-rhhh-hhhhhhhhhhhh" s

unfoldable pub is_test_key : String → Bool
unfolding after_start
is_test_key key = is_some (after_start "sk_test_" key)

pub data Checkout : Type 0 where
  ready : ℕ → Checkout
  unavailable : Checkout

abbrev pub status_text : PaymentStatus → String
status_text pending = "pending"
status_text succeeded = "succeeded"
status_text failed = "failed"

module _ ⦃db : Database⦄ where
  open db use {get, query_newest}

  unfoldable pub my_billing : Auth → ℕ → State → Result Billing
  my_billing auth now s = do
    user_id ← require_user_id auth now s
    user ← or_throw (get user_id s.users) (convex_error "Account not found.")
    ok (record {
      plan = active_plan user.value now;
      plan_expires_at =
          if is_some (active_plan user.value now) then user.value.plan_expires_at else none;
      can_use_api_keys = has_key_access user.value now;
      free_activated = is_some user.value.free_tier_activated_at;
      free_remaining = free_requests_remaining user.value;
      free_total = free_total_requests;
      payments =
          map payment_row
            (take 20 (query_newest (paid_by user_id) (λ (p : Payment). p.created_at) s.payments));
    })

  -- `_pending`: the newest hundred.
  unfoldable pub pending_payments : State → List (Doc Payment)
  pending_payments s = take 100 (query_newest awaits (λ (p : Payment). p.created_at) s.payments)

  unfoldable pub settle_from_webhook : Wire → String → ℕ → State → Result (String × State)
  settle_from_webhook wire intent now t =
      wire.retrieve intent >>= λ answer. check_intent intent answer now t

  unfoldable pub refresh_payment : Wire → Auth → ℕ → ℕ → State → State → Result (String × State)
  unfolding settle_from_webhook
  refresh_payment wire auth payment_id now s t = do
    user_id ← require_user_id auth now s
    payment ← or_throw (get payment_id s.payments) (convex_error "Payment not found.")
    require (payment.value.user_id == user_id) (convex_error "Payment not found.")
    if is_pending payment.value.status
        then (settle_from_webhook wire payment.value.payment_intent_id now t >>= λ r.
            ok ("checked", r.1))
        else ok (status_text payment.value.status, t)

  -- `try { await checkIntent(…) } catch {}`: a transaction that throws leaves the state.
  abbrev pub or_keep : State → Result (String × State) → State
  or_keep t (err e) = t
  or_keep t (ok r) = r.1

  -- The loop of `reconcilePending`; `clock` is the time at which each intent is settled.
  unfoldable pub reconcile_each : Wire → (String → ℕ) → List (Doc Payment) → State → State
  unfolding settle_from_webhook
  reconcile_each wire clock [] t = t
  reconcile_each wire clock (p ∷ ps) t =
      let intent = p.value.payment_intent_id in
      reconcile_each wire clock ps (or_keep t (settle_from_webhook wire intent (clock intent) t))

  unfoldable pub reconcile_pending : Wire → (String → ℕ) → State → State
  unfolding pending_payments reconcile_each
  reconcile_pending wire clock s = reconcile_each wire clock (pending_payments s) s

  -- The settlement of an intent that is confirmed as paid at once.
  abbrev pub settle_confirmed : String → WireIntent → ℕ → State → Result State
  settle_confirmed intent_id confirmed now t =
      if str_eq confirmed.status "succeeded"
      then (settle
            (record {
              payment_intent_id = intent_id;
              status = paid;
              amount = confirmed.amount;
              currency = confirmed.currency;
            })
            now t
          >>= λ r. ok r.1)
      else ok t

  -- Once the payment is recorded, on `t`.
  unfoldable pub checkout_recorded :
      Wire → ℕ → WireIntent → String → ℕ → State → Result Checkout × State
  checkout_recorded wire payment_id intent request now t =
      attempt (wire.confirm intent.id request) t (λ confirmed.
        attempt
          (require (str_eq confirmed.id intent.id && is_priced confirmed)
            (failure "Invalid confirmed Wire payment intent."))
          t
          (λ passed.
            attempt (settle_confirmed intent.id confirmed now t) t
              (λ t'. (ok (ready payment_id), t'))))

  unfoldable pub checkout_created :
      Wire → ℕ → PaidPlan → String → ℕ → State → WireAnswer → Result Checkout × State
  unfolding checkout_recorded
  checkout_created wire user_id plan request now t (refused code) =
      (require (is_unavailable code) (failure code) >>= λ passed. ok unavailable, t)
  checkout_created wire user_id plan request now t (created intent) =
      attempt
        (require (not (str_eq intent.id "") && is_priced intent)
          (failure "Invalid Wire payment intent."))
        t
        (λ passed.
          attempt (record_pending user_id plan intent.id now t) t
            (λ r. checkout_recorded wire r.0 intent request now r.1))

  -- `key` is the variable WIREPAYMENT_SECRET_KEY, none where it is empty too. `production` is what
  -- `isProduction` answers.
  unfoldable pub start_checkout :
      Wire
      → Auth
      → Option String
      → Bool
      → PaidPlan
      → String
      → ℕ
      → State
      → State
      → Result Checkout × State
  unfolding checkout_created is_request_id is_test_key
  start_checkout wire auth key production plan request now s t =
      attempt (require_user_id auth now s) t (λ user_id.
        attempt (require (is_request_id request) (convex_error "Invalid checkout request.")) t
          (λ passed.
            attempt
              (require (is_some (user_for_checkout user_id s)) (convex_error "Account not found."))
              t
              (λ passed.
                attempt (or_throw key (convex_error "Payments are not configured yet.")) t
                  (λ secret.
                    attempt
                      (require (not (production && is_test_key secret))
                        (convex_error "Live payments are not configured yet."))
                      t
                      (λ passed.
                        attempt (wire.create plan request) t
                          (checkout_created wire user_id plan request now t))))))
