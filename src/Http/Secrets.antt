-- ===== src/Http/Secrets.antt =====
-- Who the routes of the gateway answer.
use Prim.Native.String.{◌++◌ as str_append}
use api_provider.Prelude.{
  ℕ, ◌≤◌, ◌≡◌, refl, sym, inl, inr, ◌⊎◌, String, Bool, true, false, ◌||◌, Option, none, some, arith,
}
use api_provider.Prelude.Tests.{leb, get_or, leb→le, Bool-cases}
use mathlib.Core.Bool.{and-eq-true_iff}
use api_provider.Text.{utf16_size}
use api_provider.Json.{Javascript}
use api_provider.Env.{Env}
use api_provider.Crypto.{timing_safe_equal}
use api_provider.Crypto.Equality.{timing_safe_equal_lem}
use api_provider.Result.{Result, ok, err, ◌>>=◌, ok-injective}
use api_provider.Schema.{State}
use api_provider.Convex.Database.{Database}
use api_provider.Gateway.Usage.{Ids}
use api_provider.Http.{
  Request, served, min_secret_length, accepts, authorized, respond, with_status, Endpoint, health,
  authorize_path, demo_path, describe_path, usage_path, serve, health_route, authorize_route,
  demo_route, describe_route, usage_route,
}

accepts_lem :
    (header : String) (o : Option String)
    → accepts header o ≡ true
    → (secret : String) × (o ≡ some secret)
      × (min_secret_length ≤ utf16_size secret)
      × (header ≡ str_append "Bearer " secret)
unfolding accepts
accepts_lem header none h = cc
accepts_lem header (some secret) h =
    let (long, same) =
      (and-eq-true_iff (leb min_secret_length (utf16_size secret))
          (timing_safe_equal header (str_append "Bearer " secret))).0
        h in
    (
      secret,
      refl,
      leb→le _ _ long,
      (timing_safe_equal_lem header (str_append "Bearer " secret)).0 same,
    )

second : (a b : Bool) → a ≡ false → (a || (b || false)) ≡ true → b ≡ true
second a true none_first h = refl
second a false none_first h = ground (arith, none_first, h)

-- A request is authorized only by a configured secret of at least 32 characters, which its header
-- presents.
pub authorized_lem :
    (env : Env) (request : Request)
    → authorized env request ≡ true
    → (secret : String) × ((env.gateway_secret ≡ some secret)
        ⊎ (env.gateway_secret_previous ≡ some secret))
      × (min_secret_length ≤ utf16_size secret)
      × (get_or request.authorization "" ≡ str_append "Bearer " secret)
unfolding authorized
authorized_lem env request h =
    elim (Bool-cases (accepts (get_or request.authorization "") env.gateway_secret)) [
      | inl current ↦
          let (secret, configured, long, presented) = accepts_lem _ _ current in
          (secret, inl configured, long, presented)
      | inr other ↦
          let (secret, configured, long, presented) =
            accepts_lem (get_or request.authorization "") env.gateway_secret_previous
              (second _ _ other h) in
          (secret, inr configured, long, presented)
    ]

module _ ⦃db : Database⦄ where
  handled {κ} :
      {Body : Type κ} {s' : State} {n : ℕ} (r : Result (Body × State))
      → with_status (r >>= λ q. ok (served q.0, q.1)) ≡ ok (n, s')
      → n ≡ 200
  handled (err e) h = cc
  handled (ok p) h = sym (ok-injective h).0

  respond_lem {ℓ κ} :
      {Input : Type ℓ} {Body : Type κ} (allowed : Bool) (input : Option Input)
      (handler : Input → State → Result (Body × State)) (s s' : State) (n : ℕ)
      → with_status (respond allowed input handler s) ≡ ok (n, s')
      → ((n ≡ 200) × (allowed ≡ true)) ⊎ (((n ≡ 401) ⊎ (n ≡ 400)) × (s' ≡ s))
  respond_lem false input handler s s' n h =
      inr (inl (sym (ok-injective h).0), sym (ok-injective h).1)
  respond_lem true none handler s s' n h =
      inr (inr (sym (ok-injective h).0), sym (ok-injective h).1)
  respond_lem true (some input) handler s s' n h = inl (handled (handler input s) h, refl)

  -- A route of the gateway that answers gives 200 to an authorized request, or 401 or 400 and changes
  -- nothing.
  pub serve_lem :
      (path : Endpoint) (js : Javascript) (ids : Ids) (env : Env) (request : Request) (now : ℕ)
      (s s' : State) (n : ℕ)
      → serve path js ids env request now s ≡ ok (n, s')
      → ((n ≡ 200) × (authorized env request ≡ true)) ⊎ (((n ≡ 401) ⊎ (n ≡ 400)) × (s' ≡ s))
  unfolding serve health_route authorize_route demo_route describe_route usage_route
  serve_lem health js ids env request now s s' n h = respond_lem _ _ _ s s' n h
  serve_lem authorize_path js ids env request now s s' n h = respond_lem _ _ _ s s' n h
  serve_lem demo_path js ids env request now s s' n h = respond_lem _ _ _ s s' n h
  serve_lem describe_path js ids env request now s s' n h = respond_lem _ _ _ s s' n h
  serve_lem usage_path js ids env request now s s' n h = respond_lem _ _ _ s s' n h

  -- An unauthorized request never throws: each route answers it with 401, and changes nothing.
  pub unauthorized_lem :
      (path : Endpoint) (js : Javascript) (ids : Ids) (env : Env) (request : Request) (now : ℕ)
      (s : State)
      → authorized env request ≡ false
      → serve path js ids env request now s ≡ ok (401, s)
  unfolding serve health_route authorize_route demo_route describe_route usage_route
  unauthorized_lem health js ids env request now s h = rw h
  unauthorized_lem authorize_path js ids env request now s h = rw h
  unauthorized_lem demo_path js ids env request now s h = rw h
  unauthorized_lem describe_path js ids env request now s h = rw h
  unauthorized_lem usage_path js ids env request now s h = rw h
