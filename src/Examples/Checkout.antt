-- ===== src/Examples/Checkout.antt =====
-- A checkout that is recorded twice, and one that Wire confirms as paid at once.
use api_provider.Prelude.{ℕ, ◌+◌, ◌≡◌, refl, ◌⊎◌, String, true, some}
use api_provider.Plans.{pro}
use api_provider.Result.{Result, ok, attempt}
use api_provider.Session.{Auth, require_user_id, current_user_id, is_session_active}
use api_provider.Schema.{State}
use api_provider.Convex.Memory.{memory}
use api_provider.Payments.{WireIntent, record_pending, user_for_checkout, settle}
use api_provider.Payments.Actions.{
  Wire, created, Checkout, ready, is_request_id, is_test_key, checkout_recorded, checkout_created,
  start_checkout,
}
use api_provider.Payments.Purchase.{Bought, start_checkout_lem}
use api_provider.Payments.Checkout.{record_pending_again}
use api_provider.Examples.{now, deployment, result}

abbrev recorded_pro : ℕ × State
recorded_pro = result (9, deployment) (record_pending 0 pro "pi_2" now deployment)

records : record_pending 0 pro "pi_2" now deployment ≡ ok (1, recorded_pro.1)
unfolding record_pending
records = refl

record_pending_again_example :
    record_pending 0 pro "pi_2" (now + 1) recorded_pro.1 ≡ ok (1, recorded_pro.1)
record_pending_again_example =
    record_pending_again 0 pro "pi_2" now (now + 1) deployment recorded_pro.1 1 records

abbrev signed_in : Auth
signed_in = record {
  user_id = some 0;
  session_id = some 5;
  session = λ i. some (record { user_id = 0; expiration_time = 86400000 });
}

abbrev intent : WireIntent
intent = record { id = "pi_3"; status = "succeeded"; amount = 1000; currency = "MNT" }

abbrev wire : Wire
wire = record {
  create = λ plan request. ok (created intent);
  confirm = λ id request. ok intent;
  retrieve = λ id. ok intent;
}

abbrev checkout_id : String
checkout_id = "0123abcd-4567-4abc-8def-0123456789AB"

abbrev outcome : Result Checkout × State
outcome =
    start_checkout wire signed_in (some "sk_live_1") true pro checkout_id now deployment deployment

buys : outcome.0 ≡ ok (ready 1)
unfolding start_checkout attempt is_request_id is_test_key checkout_created checkout_recorded settle
    record_pending user_for_checkout require_user_id current_user_id is_session_active
buys = refl

start_checkout_lem_example : (outcome.1.users ≡ deployment.users) ⊎ Bought wire pro checkout_id
start_checkout_lem_example =
    start_checkout_lem wire signed_in (some "sk_live_1") true pro checkout_id now deployment
      deployment
