-- ===== src/Http.antt =====
-- http.ts: the routes of the API gateway. `now` is the `Date.now()` of the transactions. A request is
-- its Authorization header, its declared length (`Content-Length`, a whole number, or zero) and its
-- text.
pub mod Secrets
pub mod Usage
pub mod Webhook
use Prim.Native.String.{◌++◌ as str_append, count}
use Prim.Native.Char.{code}
use text.Mathlib.Text.{◌==◌ as str_eq}
use api_provider.Prelude.{
  ℕ, zero, suc, ◌+◌, ◌-◌, ◌*◌, String, Bool, true, false, not, ◌&&◌, ◌||◌, Option, none, some, List,
  [], ◌∷◌,
}
use api_provider.Prelude.Tests.{ltb, leb, ◌==◌, if◌then◌else◌, get_or, and_then, only_if}
use api_provider.Prelude.Lists.{any, length, take, drop}
use api_provider.Number.{Number, finite, one}
use api_provider.Text.{slice_to, utf16_size}
use api_provider.Json.{
  Json, Items, Members, Javascript, null, boolean, number, string, array, object, no_items, item,
  field, text_field, number_field,
}
use api_provider.Env.{Env}
use api_provider.Crypto.{timing_safe_equal}
use api_provider.Result.{Result, convex_error, ok, err, ◌>>=◌}
use api_provider.Schema.{State}
use api_provider.Convex.Database.{Database}
use api_provider.Gateway.Credential.{Kind, playground, Args, Response}
use api_provider.Gateway.Authorize.{authorize}
use api_provider.Gateway.Describe.{Description, describe}
use api_provider.Gateway.Demo.{DemoArgs, DemoAnswer, authorize_demo}
use api_provider.Gateway.Usage.{Entry, Ids, Recorded, record_usage}

pub record Request : Type 0 where
  pub authorization : Option String
  pub declared_length : ℕ
  pub text : String

-- `json(…)`: 200 with a body, 401 "unauthorized", 400 "invalid body".
pub data Reply {ℓ} (Body : Type ℓ) : Type ℓ where
  served : Body → Reply Body
  unauthorized invalid_body : Reply Body

abbrev pub status {ℓ} : {Body : Type ℓ} → Reply Body → ℕ
status (served body) = 200
status unauthorized = 401
status invalid_body = 400

abbrev pub max_usage_batch : ℕ
max_usage_batch = 200

abbrev pub max_request_entries : ℕ
max_request_entries = 1000

abbrev pub max_body_bytes : ℕ
max_body_bytes = 256 * 1024

abbrev pub min_secret_length : ℕ
min_secret_length = 32

-- One configured secret; an empty one is shorter than the least length.
unfoldable pub accepts : String → Option String → Bool
accepts header none = false
accepts header (some secret) =
    leb min_secret_length (utf16_size secret)
    && timing_safe_equal header (str_append "Bearer " secret)

unfoldable pub authorized : Env → Request → Bool
unfolding accepts
authorized env request =
    let header = get_or request.authorization "" in
    any (accepts header) (env.gateway_secret ∷ env.gateway_secret_previous ∷ [])

-- `readJson`, whose errors the routes catch.
unfoldable pub read_json : Javascript → Request → Option Members
read_json js request =
    if ltb max_body_bytes request.declared_length || ltb max_body_bytes (utf16_size request.text)
    then none
    else elim (js.parse request.text) [ some (object body) ↦ some body | _ ↦ none ]

abbrev pub is_finite : Number → Bool
is_finite (finite n) = true
is_finite (Number.negative n) = true
is_finite _ = false

-- The entry, where each of its fields is of its type.
abbrev pub entry_of : Javascript → Members → Option Entry
entry_of js raw = and_then (text_field "keyId" raw) (λ key_id.
    and_then (text_field "userId" raw) (λ user_id. and_then (text_field "endpoint" raw) (λ endpoint.
      and_then (text_field "method" raw) (λ method.
        let status_code = number_field js "statusCode" raw in
        let response_time_ms = number_field js "responseTimeMs" raw in
        let timestamp = number_field js "timestamp" raw in
        only_if (is_finite status_code && is_finite response_time_ms && is_finite timestamp) (
          some (record {
            key_id = slice_to 64 key_id;
            user_id = slice_to 64 user_id;
            endpoint = slice_to 100 endpoint;
            method = slice_to 10 method;
            status_code = status_code;
            response_time_ms = response_time_ms;
            timestamp = timestamp;
          }))))))

-- An array is an object too, without these fields.
unfoldable pub to_usage_entry : Javascript → Json → Option Entry
to_usage_entry js (object raw) = entry_of js raw
to_usage_entry js _ = none

abbrev is_hex : ℕ → Bool
is_hex c = (leb b'0' c && leb c b'9') || (leb b'a' c && leb c b'f')

all_hex : String → Bool
all_hex String.[] = true
all_hex (String.◌∷◌ c s) = is_hex (code c) && all_hex s

-- `/^[0-9a-f]{64}$/`
unfoldable pub is_hash : String → Bool
unfolding all_hex
is_hash s = all_hex s && count s == 64

abbrev pub kind_of : Option String → Option Kind
kind_of none = none
kind_of (some s) =
    if str_eq s "playground"
    then some playground
    else if str_eq s "key"
    then some Kind.key
    else none

abbrev pub hash_of : Members → Option String
hash_of body = and_then (text_field "hash" body) (λ hash. only_if (is_hash hash) (some hash))

-- A number of at least one.
abbrev pub positive_field : Javascript → String → Members → Option ℕ
positive_field js name body = elim (number_field js name body) [
  | finite n ↦ if ltb n one then none else some n
  | _ ↦ none
]

abbrev pub finite_or_none : Number → Option Number
finite_or_none n = if is_finite n then some n else none

abbrev pub short_field : ℕ → String → Members → Option String
short_field n name body = and_then (text_field name body) (λ s. some (slice_to n s))

-- The arguments of `authorize` that a body gives, and those of `authorizeDemo`.
unfoldable pub authorize_args : Javascript → Members → Option Args
authorize_args js body = and_then (kind_of (text_field "kind" body)) (λ kind.
    and_then (hash_of body) (λ hash.
      and_then (positive_field js "defaultLimit" body) (λ default_limit. some (record {
        kind = kind;
        hash = hash;
        endpoint = short_field 64 "endpoint" body;
        default_limit = finite default_limit;
        client_ip = short_field 64 "clientIp" body;
        per_ip_limit = finite_or_none (number_field js "perIpLimit" body);
      }))))

unfoldable pub demo_args : Javascript → Members → Option DemoArgs
demo_args js body = and_then (positive_field js "cost" body) (λ cost.
    and_then (positive_field js "minuteLimit" body) (λ minute_limit.
      and_then (positive_field js "hourLimit" body) (λ hour_limit.
        and_then (positive_field js "globalMinuteLimit" body) (λ global_minute_limit. some (record {
          client_ip = get_or (short_field 64 "clientIp" body) "unknown";
          endpoint = get_or (short_field 32 "endpoint" body) "unknown";
          cost = cost;
          minute_limit = minute_limit;
          hour_limit = hour_limit;
          global_minute_limit = global_minute_limit;
        })))))

-- The parsed entries, how many there are, and those that are well formed.
abbrev pub usage_entries : Members → Option Items
usage_entries body = elim (field "entries" body) [ some (array entries) ↦ some entries | _ ↦ none ]

abbrev pub item_count : Items → ℕ
item_count no_items = 0
item_count (item raw more) = suc (item_count more)

abbrev pub kept : Option Entry → List Entry → List Entry
kept none rest = rest
kept (some entry) rest = entry ∷ rest

abbrev pub well_formed : Javascript → Items → List Entry
well_formed js no_items = []
well_formed js (item raw more) = kept (to_usage_entry js raw) (well_formed js more)

-- The input of a route that reads no body.
abbrev no_input : Option (Unit {0})
no_input = some tt

module _ ⦃db : Database⦄ where
  -- What a route does once a body of this form has been read.
  abbrev pub respond {ℓ κ} :
      {Input : Type ℓ} {Body : Type κ}
      → Bool
      → Option Input
      → (Input → State → Result (Body × State))
      → State
      → Result (Reply Body × State)
  respond false input handler s = ok (unauthorized, s)
  respond true none handler s = ok (invalid_body, s)
  respond true (some input) handler s = do (body, s') ← handler input s; ok (served body, s')

  unfoldable pub health_route : Env → Request → State → Result (Reply (Unit {0}) × State)
  unfolding authorized
  health_route env request s = respond (authorized env request) no_input (λ input s. ok (tt, s)) s

  unfoldable pub authorize_route :
      Javascript → Env → Request → ℕ → State → Result (Reply Response × State)
  unfolding authorized read_json authorize_args
  authorize_route js env request now s =
      respond (authorized env request) (and_then (read_json js request) (authorize_args js))
        (λ args s. authorize env args now s) s

  unfoldable pub demo_route :
      Javascript → Env → Request → ℕ → State → Result (Reply DemoAnswer × State)
  unfolding authorized read_json demo_args
  demo_route js env request now s =
      respond (authorized env request) (and_then (read_json js request) (demo_args js))
        (λ args s. authorize_demo env args now s) s

  unfoldable pub describe_route :
      Javascript → Env → Request → ℕ → State → Result (Reply Description × State)
  unfolding authorized read_json
  describe_route js env request now s =
      respond (authorized env request) (and_then (read_json js request) hash_of)
        (λ hash s. describe env hash now s >>= λ known. ok (known, s)) s

  -- The loop over batches of 200; there are no more batches than entries. Where a batch throws, the
  -- earlier ones stay written, which this leaves open.
  unfoldable pub record_batches : ℕ → Ids → List Entry → ℕ → State → Result (ℕ × State)
  record_batches zero ids valid now s = ok (0, s)
  record_batches (suc fuel) ids [] now s = ok (0, s)
  record_batches (suc fuel) ids (e ∷ es) now s = do
    (answer, s') ← record_usage ids (take max_usage_batch (e ∷ es)) now s
    (more, s'') ← record_batches fuel ids (drop max_usage_batch (e ∷ es)) now s'
    ok (answer.written + more, s'')

  unfoldable pub store_usage : Javascript → Ids → ℕ → Items → State → Result (Recorded × State)
  unfolding record_batches
  store_usage js ids now entries s = do
    let valid : List Entry = well_formed js entries
    (written, s') ← record_batches (length valid) ids valid now s
    ok (record { written = written; dropped = item_count entries - written }, s')

  unfoldable pub usage_route :
      Javascript → Ids → Env → Request → ℕ → State → Result (Reply Recorded × State)
  unfolding authorized read_json store_usage
  usage_route js ids env request now s =
      respond (authorized env request)
        (and_then (read_json js request) (λ body.
          and_then (usage_entries body)
            (λ entries. only_if (leb (item_count entries) max_request_entries) (some entries))))
        (store_usage js ids now) s

  -- What the router calls for each path, and the status it answers.
  pub data Endpoint : Type 0 where
    health authorize_path demo_path describe_path usage_path : Endpoint

  abbrev pub with_status {ℓ} : {Body : Type ℓ} → Result (Reply Body × State) → Result (ℕ × State)
  with_status answer = answer >>= λ r. ok (status r.0, r.1)

  unfoldable pub serve :
      Endpoint → Javascript → Ids → Env → Request → ℕ → State → Result (ℕ × State)
  unfolding health_route authorize_route demo_route describe_route usage_route
  serve health js ids env request now s = with_status (health_route env request s)
  serve authorize_path js ids env request now s = with_status (authorize_route js env request now s)
  serve demo_path js ids env request now s = with_status (demo_route js env request now s)
  serve describe_path js ids env request now s = with_status (describe_route js env request now s)
  serve usage_path js ids env request now s = with_status (usage_route js ids env request now s)
