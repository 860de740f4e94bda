-- ===== src/Http/Webhook.antt =====
-- http.ts: the webhook of the payment provider. `signature` is the request's header
-- WirePayment-Signature and `body` its text; `secret` is the variable WIREPAYMENT_WEBHOOK_SECRET, and
-- none where it is empty too.
use text.Mathlib.Text.{◌==◌ as str_eq}
use api_provider.Prelude.{
  ℕ, ◌*◌, ◌≡◌, refl, sym, ap, inl, inr, ◌⊎◌, String, Bool, true, false, not, ◌||◌, Option, none,
  some, List,
}
use api_provider.Prelude.Tests.{ltb, ◌==◌, if◌then◌else◌, Bool-cases, then_branch, else_branch}
use api_provider.Number.{nan, finite}
use api_provider.Text.{utf16_size}
use api_provider.Json.{Json, Javascript, null, boolean, number, string, array, object, field}
use api_provider.Result.{Result, failure, ok, err, ◌>>=◌, ok-injective}
use api_provider.Schema.{State}
use api_provider.Convex.Database.{Database}
use api_provider.Wire.{entries_of, verify_wire_signature}
use api_provider.Wire.Signature.{Signed, verify_wire_signature-Signed}
use api_provider.Payments.Actions.{Wire, settle_from_webhook}

-- The answers 503, 413, 400, 400 and 200.
pub data Received : Type 0 where
  not_configured too_large invalid_signature invalid_body received : Received

abbrev pub max_webhook_size : ℕ
max_webhook_size = 64 * 1024

-- `value?.name`, of a value that is not null; undefined and null are both none.
abbrev present : Option Json → Option Json
present (some null) = none
present o = o

abbrev pub member_of : String → Option Json → Option Json
member_of name (some (object m)) = present (field name m)
member_of name _ = none

-- `event.data?.object?.id ?? event.data?.id`
abbrev pub intent_id : Json → Option Json
intent_id event =
    let data_value = member_of "data" (some event) in
    elim (member_of "id" (member_of "object" data_value)) [
      | none ↦ member_of "id" data_value
      | some value ↦ some value
    ]

abbrev pub is_truthy : Json → Bool
is_truthy null = false
is_truthy (boolean b) = b
is_truthy (number nan) = false
is_truthy (number (finite n)) = not (n == 0)
is_truthy (number n) = true
is_truthy (string s) = not (str_eq s "")
is_truthy (array items) = true
is_truthy (object m) = true

abbrev pub settles_intent : Option Json → Bool
settles_intent (some (string s)) =
    str_eq s "payment_intent.succeeded"
    || str_eq s "payment_intent.payment_failed"
    || str_eq s "payment_intent.canceled"
settles_intent _ = false

module _ ⦃db : Database⦄ where
  -- The action takes a text; any other id does not pass its validator.
  abbrev pub settle_intent : Wire → Json → ℕ → State → Result (Received × State)
  settle_intent wire (string intent) now t =
      settle_from_webhook wire intent now t >>= λ r. ok (received, r.1)
  settle_intent wire _ now t = err (failure "ArgumentValidationError")

  abbrev pub settle_chosen : Wire → Bool → Option Json → ℕ → State → Result (Received × State)
  settle_chosen wire wanted none now t = ok (received, t)
  settle_chosen wire wanted (some intent) now t =
      let settled = settle_intent wire intent now t in
      if is_truthy intent then (if wanted then settled else ok (received, t)) else ok (received, t)

  -- Reading a field of null throws.
  unfoldable pub settle_event : Wire → Json → ℕ → State → Result (Received × State)
  settle_event wire null now t = err (failure "Cannot read properties of null")
  settle_event wire event now t =
      settle_chosen wire (settles_intent (member_of "type" (some event))) (intent_id event) now t

  abbrev pub settle_parsed : Wire → Option Json → ℕ → State → Result (Received × State)
  settle_parsed wire none now t = ok (invalid_body, t)
  settle_parsed wire (some event) now t = settle_event wire event now t

  unfoldable pub webhook_route :
      Javascript
      → Wire
      → (String → String → List ℕ)
      → Option String
      → Option String
      → String
      → ℕ
      → State
      → Result (Received × State)
  unfolding settle_event
  webhook_route js wire hmac none signature body now t = ok (not_configured, t)
  webhook_route js wire hmac (some secret) signature body now t =
      if ltb max_webhook_size (utf16_size body)
      then ok (too_large, t)
      else if not (verify_wire_signature hmac body signature secret now)
      then ok (invalid_signature, t)
      else settle_parsed wire (js.parse body) now t

  verified_lem :
      (hmac : String → String → List ℕ) (secret body : String) (signature : Option String) (now : ℕ)
      → verify_wire_signature hmac body signature secret now ≡ true
      → (header : String) × (signature ≡ some header)
        × Signed hmac body (entries_of header) secret now
  unfolding verify_wire_signature
  verified_lem hmac secret body none now h = cc
  verified_lem hmac secret body (some header) now h =
      (header, refl, verify_wire_signature-Signed hmac body header secret now h)

  -- A webhook changes nothing, unless its header has a signature that is the HMAC, under the
  -- configured secret, of its body and of a time that is at most 300 seconds from now.
  pub webhook_route_lem :
      (js : Javascript) (wire : Wire) (hmac : String → String → List ℕ) (secret : String)
      (signature : Option String) (body : String) (now : ℕ) (t t' : State) (answer : Received)
      → webhook_route js wire hmac (some secret) signature body now t ≡ ok (answer, t')
      → (t' ≡ t)
        ⊎ ((header : String) × (signature ≡ some header)
            × Signed hmac body (entries_of header) secret now)
  unfolding webhook_route
  webhook_route_lem js wire hmac secret signature body now t t' answer h =
      elim (Bool-cases (verify_wire_signature hmac body signature secret now)) [
        | inl verified ↦ inr (verified_lem hmac secret body signature now verified)
        | inr refused ↦ elim (Bool-cases (ltb max_webhook_size (utf16_size body))) [
          | inl large ↦ inl (sym (ok-injective (then_branch _ _ large h)).1)
          | inr small ↦
              inl
                (sym (ok-injective (then_branch _ _ (ap not refused) (else_branch _ _ small h))).1)
        ]
      ]
