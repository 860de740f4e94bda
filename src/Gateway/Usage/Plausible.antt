-- ===== src/Gateway/Usage/Plausible.antt =====
-- What holds of every request row that is recorded.
use text.Mathlib.Text.{◌==◌ as str_eq}
use mathlib.Core.Bool.{and-eq-true_iff}
use mathlib.Core.Option.{some-injective}
use api_provider.Prelude.{
  subst, ℕ, ◌+◌, ◌≤◌, ◌≡◌, refl, sym, ap, ◌∙◌, inl, inr, true, ◌&&◌, Option, none, some, List, [],
  ◌∷◌, arith,
}
use api_provider.Prelude.Tests.{Option-cases, and_then-eq-some, only_if-eq-some}
use api_provider.Prelude.Lists.{All, take}
use api_provider.Number.{Number, nan, infinite, minus_infinite, finite, negative, units}
use api_provider.Result.{ok, >>=-eq-ok, ok-injective}
use api_provider.Schema.{ApiKey, ApiRequest, State}
use api_provider.Convex.Docs.{Doc}
use api_provider.Convex.Database.{Database}
use api_provider.Convex.Queries.{get-id}
use api_provider.Gateway.Usage.{
  Entry, Ids, Recorded, is_endpoint_path, is_method, status_of, time_of, response_time_of,
  request_of, read_key, gather_all, none_gathered, write_rollups, max_usage_entries,
  max_record_age_ms, max_response_time_ms, record_usage,
}
use api_provider.Gateway.Usage.Batch.{requests_of, insert_each, gather_all-Adds}

status_of-bounds : (n : Number) (c : ℕ) → status_of n ≡ some c → (100 ≤ c) × (c ≤ 599)
unfolding status_of
status_of-bounds (finite n) c h = ground arith
status_of-bounds nan c h = cc
status_of-bounds infinite c h = cc
status_of-bounds minus_infinite c h = cc
status_of-bounds (negative n) c h = cc

time_of-bounds :
    (now : ℕ) (n : Number) (t : ℕ)
    → time_of now n ≡ some t
    → (t ≤ units now) × (units now ≤ t + units max_record_age_ms)
unfolding time_of
time_of-bounds now (finite n) t h = ground arith
time_of-bounds now nan t h = cc
time_of-bounds now infinite t h = cc
time_of-bounds now minus_infinite t h = cc
time_of-bounds now (negative n) t h = cc

response_time_of-le : (n : Number) → response_time_of n ≤ max_response_time_ms
unfolding response_time_of
response_time_of-le (finite n) = ground arith
response_time_of-le nan = omega arith
response_time_of-le infinite = omega arith
response_time_of-le minus_infinite = omega arith
response_time_of-le (negative n) = omega arith

module _ ⦃db : Database⦄ where
  open db use {Table, get}

  -- A request of a key that exists and belongs to the user that the row names, for an endpoint of the
  -- API, with values in range.
  pub record Plausible (now : ℕ) (t : Table ApiKey) (r : ApiRequest) : Type 0 where
    pub owned : (k : Doc ApiKey) × (get r.api_key_id t ≡ some k) × (k.value.user_id ≡ r.user_id)
    pub endpoint : is_endpoint_path r.endpoint ≡ true
    pub method : is_method r.method ≡ true
    pub status : (100 ≤ r.status_code) × (r.status_code ≤ 599)
    pub duration : r.response_time_ms ≤ max_response_time_ms
    pub time : (r.timestamp ≤ units now) × (units now ≤ r.timestamp + units max_record_age_ms)

  request_of-Plausible :
      (ids : Ids) (now : ℕ) (t : Table ApiKey) (e : Entry) (o : Option (Doc ApiKey))
      (r : ApiRequest)
      → read_key ids e.key_id t ≡ o
      → request_of ids now e o ≡ some r
      → Plausible now t r
  unfolding request_of
  request_of-Plausible ids now t e none r read h = cc
  request_of-Plausible ids now t e (some k) r read h =
      let (guards, h1) =
        only_if-eq-some
          (str_eq (ids.text k.value.user_id) e.user_id
            && is_endpoint_path e.endpoint
            && is_method e.method)
          _ h in
      let owned = str_eq (ids.text k.value.user_id) e.user_id in
      let (front, is_read) =
        (and-eq-true_iff (owned && is_endpoint_path e.endpoint) (is_method e.method)).0 guards in
      let (_, is_endpoint) = (and-eq-true_iff owned (is_endpoint_path e.endpoint)).0 front in
      let (status, is_status, h2) = and_then-eq-some (status_of e.status_code) _ h1 in
      let (time, is_time, h3) = and_then-eq-some (time_of now e.timestamp) _ h2 in
      let (i, names, found) = and_then-eq-some (ids.normalize_id e.key_id) _ read in
      subst (Plausible now t) (some-injective _ _ h3) (record {
        owned = (k, ap (λ j. get j t) (get-id i t k found) ∙ found, refl);
        endpoint = is_endpoint;
        method = is_read;
        status = status_of-bounds e.status_code status is_status;
        duration = response_time_of-le e.response_time_ms;
        time = time_of-bounds now e.timestamp time is_time;
      })

  requests_of-Plausible :
      (ids : Ids) (now : ℕ) (t : Table ApiKey) (es : List Entry)
      → All (Plausible now t) (requests_of ids now t es)
  unfolding requests_of
  requests_of-Plausible ids now t [] = tt
  requests_of-Plausible ids now t (e ∷ es) =
      elim (Option-cases (request_of ids now e (read_key ids e.key_id t))) [
        | inl drops ↦ rw drops (requests_of-Plausible ids now t es)
        | inr (r, passes) ↦ rw passes (
          request_of-Plausible ids now t e (read_key ids e.key_id t) r refl passes,
          requests_of-Plausible ids now t es,
        )
      ]

  -- Every request row that `recordUsage` adds is of a key that exists and belongs to the user it
  -- names, for an endpoint and a method of the API, with a status from 100 to 599, a duration of at
  -- most ten minutes, and a time that is not ahead and not more than a day ago. The rows that were
  -- there stay.
  pub record_usage-Plausible :
      (ids : Ids) (entries : List Entry) (now : ℕ) (s s' : State) (answer : Recorded)
      → record_usage ids entries now s ≡ ok (answer, s')
      → (new : List ApiRequest) × (s'.api_requests ≡ insert_each new s.api_requests)
        × All (Plausible now s.api_keys) new
  unfolding record_usage
  record_usage-Plausible ids entries now s s' answer h =
      let taken = take max_usage_entries entries in
      let b = gather_all ids now s.api_keys taken (none_gathered s.api_requests) in
      let (t, written, h') = >>=-eq-ok (write_rollups b.rollups s.usage_daily) _ h in
      let (same_answer, same) = ok-injective h' in
      (
        requests_of ids now s.api_keys taken,
        ap (λ (x : State). x.api_requests) (sym same)
            ∙ (gather_all-Adds ids now s.api_keys taken (none_gathered s.api_requests) tt).inserted,
        requests_of-Plausible ids now s.api_keys taken,
      )
