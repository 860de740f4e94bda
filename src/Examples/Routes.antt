-- ===== src/Examples/Routes.antt =====
-- Requests to the routes, and the helpers of lib/crypto.ts.
use Prim.Native.String.{◌++◌ as str_append}
use api_provider.Prelude.{
  ℕ, ◌+◌, ◌≤◌, ◌≡◌, refl, ◌⊎◌, ◌↔◌, String, true, false, none, some, List, [], ◌∷◌, arith,
}
use api_provider.Prelude.Tests.{get_or}
use api_provider.Prelude.Lists.{length, All}
use api_provider.Number.{nan, finite, units}
use api_provider.Text.{utf16_size}
use api_provider.Json.{
  Items, Members, Javascript, null, number, string, array, object, no_items, item, no_members,
  member,
}
use api_provider.Env.{Env}
use api_provider.Crypto.{
  decimal, timing_safe_equal, diff_bytes, utf8, utf8_char, pick, random_string,
}
use api_provider.Crypto.Equality.{timing_safe_equal_lem}
use api_provider.Crypto.Random.{is_letter_of, random_string_lem, random_string_returns}
use api_provider.Result.{ok}
use api_provider.Schema.{ApiKey, State}
use api_provider.Convex.Docs.{Doc}
use api_provider.Convex.Memory.{memory}
use api_provider.Gateway.Usage.{Recorded}
use api_provider.Http.{
  Request, served, min_secret_length, accepts, authorized, read_json, well_formed, health,
  usage_path, serve, health_route, usage_route,
}
use api_provider.Http.Secrets.{authorized_lem, serve_lem, unauthorized_lem}
use api_provider.Http.Usage.{Stored, usage_route_lem}
use api_provider.Platform.{PlatformKey, is_replaced, revoke_replaced, upsert_key}
use api_provider.Platform.SiteKey.{upsert_key-replaces}
use api_provider.Examples.{now, deployment, variables, result}
use api_provider.Examples.Usage.{letters, later}

abbrev guarded : Env
guarded = record variables { gateway_secret = some "0123456789abcdef0123456789abcdef" }

abbrev sent_entry : Members
sent_entry = member "keyId" (string "a") (
    member "userId" (string "a") (
      member "endpoint" (string "/v1/geocode") (
        member "method" (string "GET") (
          member "statusCode" (number (finite (units 200))) (
            member "responseTimeMs" (number (finite (units 20)))
              (member "timestamp" (number (finite (units 86400000))) no_members))))))

-- One good entry and one that is none.
abbrev sent : Items
sent = item (object sent_entry) (item null no_items)

abbrev javascript : Javascript
javascript = record {
  parse = λ s. some (object (member "entries" (array sent) no_members));
  number_of = λ value. elim value [ number n ↦ n | _ ↦ nan ];
}

abbrev with_secret : Request
with_secret = record {
  authorization = some "Bearer 0123456789abcdef0123456789abcdef";
  declared_length = 2;
  text = "{}";
}

abbrev without : Request
without = record with_secret { authorization = none }

is_authorized : authorized guarded with_secret ≡ true
unfolding authorized accepts utf16_size timing_safe_equal diff_bytes utf8 utf8_char
is_authorized = refl

not_authorized : authorized guarded without ≡ false
unfolding authorized accepts utf16_size timing_safe_equal diff_bytes utf8 utf8_char
not_authorized = refl

authorized_lem_example :
    (secret : String) × ((guarded.gateway_secret ≡ some secret)
      ⊎ (guarded.gateway_secret_previous ≡ some secret))
    × (min_secret_length ≤ utf16_size secret)
    × (get_or with_secret.authorization "" ≡ str_append "Bearer " secret)
authorized_lem_example = authorized_lem guarded with_secret is_authorized

unauthorized_lem_example :
    serve usage_path javascript letters guarded without later deployment ≡ ok (401, deployment)
unauthorized_lem_example =
    unauthorized_lem usage_path javascript letters guarded without later deployment not_authorized

is_healthy :
    serve health javascript letters guarded with_secret later deployment ≡ ok (200, deployment)
unfolding serve health_route authorized accepts utf16_size timing_safe_equal diff_bytes utf8
    utf8_char
is_healthy = refl

abbrev answered : ℕ
answered = 200

serve_lem_example :
    ((answered ≡ 200) × (authorized guarded with_secret ≡ true))
    ⊎ (((answered ≡ 401) ⊎ (answered ≡ 400)) × (deployment ≡ deployment))
serve_lem_example =
    serve_lem health javascript letters guarded with_secret later deployment deployment answered
      is_healthy

reads : read_json javascript with_secret ≡ some (member "entries" (array sent) no_members)
unfolding read_json utf16_size
reads = refl

usage_route_lem_example :
    (answer : Recorded) × (s' : State) × (usage_route javascript letters guarded with_secret later
        deployment
      ≡ ok (served answer, s'))
    × (answer.written + answer.dropped ≡ 2)
    × (answer.written ≤ length (well_formed javascript sent))
    × Stored deployment s' answer.written (λ c key_id endpoint day. 0)
usage_route_lem_example =
    usage_route_lem javascript letters guarded with_secret later deployment
      (member "entries" (array sent) no_members) sent (λ c key_id endpoint day. 0) is_authorized
      reads refl (omega arith) (λ c key_id endpoint day. refl)

abbrev header : String
header = "Bearer 1"

timing_safe_equal_lem_example : (timing_safe_equal header "Bearer 2" ≡ true) ↔ (header ≡ "Bearer 2")
timing_safe_equal_lem_example = timing_safe_equal_lem header "Bearer 2"

abbrev batches : List (List ℕ)
batches = (255 ∷ 7 ∷ []) ∷ (13 ∷ 1 ∷ []) ∷ []

abbrev code_digits : List ℕ
code_digits = b'7' ∷ b'3' ∷ []

picked : random_string decimal 2 batches ≡ some code_digits
unfolding random_string pick
picked = refl

random_string_lem_example :
    (length code_digits ≡ 2) × All (λ c. is_letter_of decimal c ≡ true) code_digits
random_string_lem_example = random_string_lem decimal 2 batches code_digits picked

random_string_returns_example :
    (out : List ℕ) × (random_string decimal 2 batches ≡ some out) × (length out ≡ 2)
random_string_returns_example = random_string_returns decimal 2 batches (omega arith)

-- A deployment whose site key is replaced.
abbrev old_site : State
old_site = record deployment {
  api_keys =
      some (record {
        user_id = 0;
        name = "site";
        key_prefix = "geo_abcd";
        key_hash = "old";
        endpoints = none;
        rate_limit_per_minute = none;
        is_site_key = true;
        last_used_at = none;
        expires_at = none;
        revoked_at = none;
      })
      ∷ [];
}

abbrev site_key : PlatformKey
site_key = record {
  user_id = 0;
  name = "site";
  key_hash = "new";
  key_prefix = "geo_efgh";
  is_site_key = true;
}

abbrev rotated : State
rotated = result deployment (upsert_key site_key now old_site)

abbrev new_key : Doc ApiKey
new_key = record {
  id = 1;
  created = 1;
  value = record {
    user_id = 0;
    name = "site";
    key_prefix = "geo_efgh";
    key_hash = "new";
    endpoints = none;
    rate_limit_per_minute = none;
    is_site_key = true;
    last_used_at = none;
    expires_at = none;
    revoked_at = none;
  };
}

rotates : upsert_key site_key now old_site ≡ ok rotated
unfolding upsert_key revoke_replaced
rotates = refl

has_new_key : memory.get 1 rotated.api_keys ≡ some new_key
unfolding upsert_key revoke_replaced
has_new_key = refl

upsert_key-replaces_example : is_replaced "new" new_key.value ≡ false
upsert_key-replaces_example =
    upsert_key-replaces site_key now old_site rotated 1 new_key rotates refl has_new_key refl
