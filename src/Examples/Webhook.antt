-- ===== src/Examples/Webhook.antt =====
-- A webhook of the payment provider.
use api_provider.Prelude.{ℕ, ◌≡◌, refl, ◌⊎◌, String, Option, some, List, [], ◌∷◌}
use api_provider.Text.{trim, trim_start, trim_end}
use api_provider.Crypto.{diff_bytes}
use api_provider.Wire.{
  bytes_equal, split, entries_of, decimal_from, seconds_of, hex_bytes, signature_bytes, signed_time,
  verify_wire_signature,
}
use api_provider.Wire.Signature.{Signed}
use api_provider.Number.{nan}
use api_provider.Json.{Json, Javascript, object, string, no_members, member}
use api_provider.Result.{ok}
use api_provider.Schema.{State}
use api_provider.Text.{utf16_size}
use api_provider.Plans.{active_plan}
use api_provider.Payments.{
  WireIntent, settle, settle_found, settle_pending, grant, new_expiry, check_intent,
}
use api_provider.Payments.Actions.{Wire, created, settle_from_webhook}
use api_provider.Http.Webhook.{Received, received, settle_event, webhook_route, webhook_route_lem}
use api_provider.Convex.Memory.{memory}
use api_provider.Examples.{deployment, result}

-- A stand-in for HMAC-SHA256, with 32 bytes.
abbrev mac : String → String → List ℕ
mac secret text =
    1 ∷ 2 ∷ 3 ∷ 4 ∷ 5 ∷ 6 ∷ 7 ∷ 8 ∷ 9 ∷ 10 ∷ 11 ∷ 12 ∷ 13 ∷ 14 ∷ 15 ∷ 16 ∷ 17 ∷ 18 ∷ 19 ∷ 20 ∷ 21
    ∷ 22 ∷ 23 ∷ 24 ∷ 25 ∷ 26 ∷ 27 ∷ 28 ∷ 29 ∷ 30 ∷ 31 ∷ 171 ∷ []

abbrev signature_header : String
signature_header = "t=100, v1=0102030405060708090a0b0c0d0e0f101112131415161718191a1b1c1d1e1fAB"

-- An event that settles the payment of the deployment, and Wire's answer about it.
abbrev event : Json
event = object (
    member "type" (string "payment_intent.succeeded") (
      member "data"
        (object (member "object" (object (member "id" (string "pi_1") no_members)) no_members))
        no_members))

abbrev script : Javascript
script = record { parse = λ s. some event; number_of = λ value. nan }

abbrev intent : WireIntent
intent = record { id = "pi_1"; status = "succeeded"; amount = 1000; currency = "MNT" }

abbrev wire : Wire
wire = record {
  create = λ plan request. ok (created intent);
  confirm = λ id request. ok intent;
  retrieve = λ id. ok intent;
}

abbrev settled : Received × State
settled =
    result (received, deployment)
      (webhook_route script wire mac (some "whsec") (some signature_header) "{}" 90000 deployment)

settles_payment :
    webhook_route script wire mac (some "whsec") (some signature_header) "{}" 90000 deployment
    ≡ ok (settled.0, settled.1)
unfolding webhook_route settle_event settle_from_webhook check_intent settle settle_found
    settle_pending grant new_expiry active_plan utf16_size verify_wire_signature signed_time
    entries_of split trim trim_start trim_end signature_bytes hex_bytes seconds_of decimal_from
    bytes_equal diff_bytes
settles_payment = refl

webhook_route_lem_example :
    (settled.1 ≡ deployment)
    ⊎ ((header : String) × (◌≡◌ {A = Option String} (some signature_header) (some header))
        × Signed mac "{}" (entries_of header) "whsec" 90000)
webhook_route_lem_example =
    webhook_route_lem script wire mac "whsec" (some signature_header) "{}" 90000 deployment
      settled.1 settled.0 settles_payment
