-- ===== src/Gateway/Demo/Windows.antt =====
-- What a request of the demo counts, and when it is served.
use mathlib.Core.Bool.{and-true}
use api_provider.Prelude.{
  ℕ, ◌+◌, ◌*◌, ◌/◌, ◌≤◌, ◌≡◌, refl, sym, ◌∙◌, ap, inl, inr, String, Bool, true, false, ◌&&◌, [],
  ◌∷◌, arith,
}
use api_provider.Prelude.Tests.{leb, Bool-cases}
use api_provider.Number.{units}
use api_provider.Bucket.{Bucket}
use api_provider.Env.{Env, require_env}
use api_provider.Time.{minute_ms}
use api_provider.Result.{ok, >>=-ok}
use api_provider.Schema.{State}
use api_provider.Audit.{write_audit}
use api_provider.Convex.Database.{Database}
use api_provider.Gateway.RateLimit.{RateLimitState, window_state, hit_window, combine}
use api_provider.Gateway.RateLimit.Windows.{counted, hit_window_lem}
use api_provider.Gateway.Demo.{
  DemoArgs, DemoAnswer, admitted, refused, demo_endpoint, demo_cost, demo_limit, hour_ms, ip_hash,
  minute_bucket, hour_bucket, endpoint_bucket, global_bucket, answer_demo, hit_demo, authorize_demo,
}

abbrev pub is_admitted : DemoAnswer → Bool
is_admitted (admitted r) = true
is_admitted (refused r) = false

four_allow :
    (a b c d : RateLimitState)
    → (combine (a ∷ b ∷ c ∷ d ∷ [])).allowed
      ≡ (a.allowed && (b.allowed && (c.allowed && d.allowed)))
unfolding combine
four_allow a b c d = ap (λ x. a.allowed && (b.allowed && (c.allowed && x))) (and-true d.allowed)

module _ ⦃db : Database⦄ where
  abbrev pub begun : ℕ → ℕ → ℕ
  begun now duration = now / duration * duration

  through :
      (s t u : State)
      → t ≡ record s { rate_limit_windows = t.rate_limit_windows }
      → u ≡ record t { rate_limit_windows = u.rate_limit_windows }
      → u ≡ record s { rate_limit_windows = u.rate_limit_windows }
  through s t u e e' =
      e' ∙ ap {B = State} (λ (x : State). record x { rate_limit_windows = u.rate_limit_windows }) e

  through_audit :
      (s t u : State)
      → t ≡ record s { rate_limit_windows = t.rate_limit_windows }
      → u ≡ record t { security_audit_events = u.security_audit_events }
      → u ≡ record s {
        rate_limit_windows = u.rate_limit_windows;
        security_audit_events = u.security_audit_events;
      }
  through_audit s t u e e' =
      e'
      ∙ ap {B = State} (λ (x : State). record x { security_audit_events = u.security_audit_events })
          e
      ∙ ap {B = State}
          (λ w. record s {
            rate_limit_windows = w;
            security_audit_events = u.security_audit_events;
          })
          (sym (ap (λ (x : State). x.rate_limit_windows) e'))

  answered :
      (endpoint : String) (now : ℕ) (r : RateLimitState) (t : State)
      → (is_admitted (answer_demo endpoint now r t).0 ≡ r.allowed)
        × ((answer_demo endpoint now r t).1 ≡ record t {
          security_audit_events = (answer_demo endpoint now r t).1.security_audit_events;
        })
  unfolding write_audit
  answered endpoint now r t = elim (Bool-cases r.allowed) [
    | inl yes_ ↦ rw yes_ (refl, refl)
    | inr no_ ↦ rw no_ (refl, refl)
  ]

  -- One of the four hits, from the state before it to the state after it.
  record Step (b : Bucket) (limit now duration cost n : ℕ) (s s' : State) : Type 0 where
    returned :
        hit_window b limit now duration cost s
        ≡ ok (window_state limit (n + cost) (begun now duration + duration), s')
    own : counted b (begun now duration) s' ≡ ok (n + cost)
    others :
        (b' : Bucket) (start : ℕ)
        → ((b ≡ b') × (begun now duration ≡ start) → ⊥)
        → counted b' start s' ≡ counted b' start s
    frame : s' ≡ record s { rate_limit_windows = s'.rate_limit_windows }

  hit_window-Step :
      (b : Bucket) (limit now duration cost n : ℕ) (s : State)
      → counted b (begun now duration) s ≡ ok n
      → (s' : State) × Step b limit now duration cost n s s'
  hit_window-Step b limit now duration cost n s h =
      let (s', returned, own, others, frame) = hit_window_lem b limit now duration cost n s h in
      (s', record { returned = returned; own = own; others = others; frame = frame })

  module _ (hash endpoint : String)
      (cost minute_limit hour_limit global_limit now n_ip n_hour n_endpoint n_all : ℕ)
      (s : State) where
    record DemoHits : Type 0 where
      state : RateLimitState
      left : State
      returned :
          hit_demo hash endpoint cost minute_limit hour_limit global_limit now s ≡ ok (state, left)
      allows : state.allowed ≡ (
          leb (units (n_ip + cost)) minute_limit
          && (leb (units (n_hour + cost)) hour_limit
              && (leb (units (n_endpoint + cost)) minute_limit
                  && leb (units (n_all + cost)) global_limit)))
      by_ip : counted (minute_bucket hash) (begun now minute_ms) left ≡ ok (n_ip + cost)
      by_hour : counted (hour_bucket hash) (begun now hour_ms) left ≡ ok (n_hour + cost)
      by_endpoint :
          counted (endpoint_bucket hash endpoint) (begun now minute_ms) left
          ≡ ok (n_endpoint + cost)
      overall : counted global_bucket (begun now minute_ms) left ≡ ok (n_all + cost)
      frame : left ≡ record s { rate_limit_windows = left.rate_limit_windows }

    module _ (s1 : State)
        (a1 : Step (minute_bucket hash) minute_limit now minute_ms cost n_ip s s1) where
      module _ (s2 : State)
          (a2 : Step (hour_bucket hash) hour_limit now hour_ms cost n_hour s1 s2) where
        module _ (s3 : State)
            (a3 : Step
              (endpoint_bucket hash endpoint)
              minute_limit
              now
              minute_ms
              cost
              n_endpoint
              s2
              s3) where
          after_four :
              (s4 : State)
              → Step global_bucket global_limit now minute_ms cost n_all s3 s4
              → DemoHits
          unfolding hit_demo
          after_four s4 a4 = record {
            state = combine (
                window_state minute_limit (n_ip + cost) (begun now minute_ms + minute_ms)
                ∷ window_state hour_limit (n_hour + cost) (begun now hour_ms + hour_ms)
                ∷ window_state minute_limit (n_endpoint + cost) (begun now minute_ms + minute_ms)
                ∷ window_state global_limit (n_all + cost) (begun now minute_ms + minute_ms)
                ∷ []);
            left = s4;
            returned =
                >>=-ok _ _ a1.returned
                ∙ >>=-ok _ _ a2.returned
                ∙ >>=-ok _ _ a3.returned
                ∙ >>=-ok _ _ a4.returned;
            allows = four_allow _ _ _ _;
            by_ip =
                a4.others _ _ (λ e. cc)
                ∙ a3.others _ _ (λ e. cc)
                ∙ a2.others _ _ (λ e. cc)
                ∙ a1.own;
            by_hour = a4.others _ _ (λ e. cc) ∙ a3.others _ _ (λ e. cc) ∙ a2.own;
            by_endpoint = a4.others _ _ (λ e. cc) ∙ a3.own;
            overall = a4.own;
            frame =
                through s s3 s4 (through s s2 s3 (through s s1 s2 a1.frame a2.frame) a3.frame)
                  a4.frame;
          }

          after_three : counted global_bucket (begun now minute_ms) s ≡ ok n_all → DemoHits
          after_three h4 =
              let (s4, a4) =
                hit_window-Step global_bucket global_limit now minute_ms cost n_all s3 (
                  a3.others _ _ (λ e. cc)
                  ∙ a2.others _ _ (λ e. cc)
                  ∙ a1.others _ _ (λ e. cc)
                  ∙ h4) in
              after_four s4 a4

        after_two :
            counted (endpoint_bucket hash endpoint) (begun now minute_ms) s ≡ ok n_endpoint
            → counted global_bucket (begun now minute_ms) s ≡ ok n_all
            → DemoHits
        after_two h3 h4 =
            let (s3, a3) =
              hit_window-Step (endpoint_bucket hash endpoint) minute_limit now minute_ms cost
                n_endpoint s2 (a2.others _ _ (λ e. cc) ∙ a1.others _ _ (λ e. cc) ∙ h3) in
            after_three s3 a3 h4

      after_one :
          counted (hour_bucket hash) (begun now hour_ms) s ≡ ok n_hour
          → counted (endpoint_bucket hash endpoint) (begun now minute_ms) s ≡ ok n_endpoint
          → counted global_bucket (begun now minute_ms) s ≡ ok n_all
          → DemoHits
      after_one h2 h3 h4 =
          let (s2, a2) =
            hit_window-Step (hour_bucket hash) hour_limit now hour_ms cost n_hour s1
              (a1.others _ _ (λ e. cc) ∙ h2) in
          after_two s2 a2 h3 h4

    hit_demo_lem :
        counted (minute_bucket hash) (begun now minute_ms) s ≡ ok n_ip
        → counted (hour_bucket hash) (begun now hour_ms) s ≡ ok n_hour
        → counted (endpoint_bucket hash endpoint) (begun now minute_ms) s ≡ ok n_endpoint
        → counted global_bucket (begun now minute_ms) s ≡ ok n_all
        → DemoHits
    hit_demo_lem h1 h2 h3 h4 =
        let (s1, a1) =
          hit_window-Step (minute_bucket hash) minute_limit now minute_ms cost n_ip s h1 in
        after_one s1 a1 h2 h3 h4

  -- Where the secret is set and the four counters can be read, `authorizeDemo` returns. It adds its
  -- cost, from 1 to 100, to each of them, and admits the request exactly when none then exceeds its
  -- limit. No table but the rate limit windows and the audit log changes.
  pub authorize_demo_lem :
      (env : Env) (args : DemoArgs) (now : ℕ) (s : State) (secret : String)
      (n_ip n_hour n_endpoint n_all : ℕ)
      → require_env "GATEWAY_SECRET" env.gateway_secret ≡ ok secret
      → counted (minute_bucket (ip_hash env secret args)) (begun now minute_ms) s ≡ ok n_ip
      → counted (hour_bucket (ip_hash env secret args)) (begun now hour_ms) s ≡ ok n_hour
      → counted
          (endpoint_bucket (ip_hash env secret args) (demo_endpoint args.endpoint))
          (begun now minute_ms)
          s
        ≡ ok n_endpoint
      → counted global_bucket (begun now minute_ms) s ≡ ok n_all
      → let cost = demo_cost args.cost in
        let hash = ip_hash env secret args in
        (answer : DemoAnswer) × (s' : State) × (authorize_demo env args now s ≡ ok (answer, s'))
        × (is_admitted answer ≡ (
            leb (units (n_ip + cost)) (demo_limit args.minute_limit 20)
            && (leb (units (n_hour + cost)) (demo_limit args.hour_limit 100)
                && (leb (units (n_endpoint + cost)) (demo_limit args.minute_limit 20)
                    && leb (units (n_all + cost)) (demo_limit args.global_minute_limit 5000)))))
        × (counted (minute_bucket hash) (begun now minute_ms) s' ≡ ok (n_ip + cost))
        × (counted (hour_bucket hash) (begun now hour_ms) s' ≡ ok (n_hour + cost))
        × (counted (endpoint_bucket hash (demo_endpoint args.endpoint)) (begun now minute_ms) s'
            ≡ ok (n_endpoint + cost))
        × (counted global_bucket (begun now minute_ms) s' ≡ ok (n_all + cost))
        × (s' ≡ record s {
          rate_limit_windows = s'.rate_limit_windows;
          security_audit_events = s'.security_audit_events;
        })
        × (1 ≤ cost)
        × (cost ≤ 100)
  unfolding authorize_demo
  authorize_demo_lem env args now s secret n_ip n_hour n_endpoint n_all set h1 h2 h3 h4 =
      let cost = demo_cost args.cost in
      let hash = ip_hash env secret args in
      let endpoint = demo_endpoint args.endpoint in
      let hits =
        hit_demo_lem hash endpoint cost (demo_limit args.minute_limit 20)
          (demo_limit args.hour_limit 100) (demo_limit args.global_minute_limit 5000) now n_ip
          n_hour n_endpoint n_all s h1 h2 h3 h4 in
      let answer = answer_demo endpoint now hits.state hits.left in
      let (says, frame) = answered endpoint now hits.state hits.left in
      let still : (b : Bucket) (start : ℕ) → counted b start answer.1 ≡ counted b start hits.left =
        λ b start. ap (λ (x : State). counted b start x) frame in
      (
        answer.0,
        answer.1,
        >>=-ok _ _ set ∙ >>=-ok _ _ hits.returned,
        says ∙ hits.allows,
        still _ _ ∙ hits.by_ip,
        still _ _ ∙ hits.by_hour,
        still _ _ ∙ hits.by_endpoint,
        still _ _ ∙ hits.overall,
        through_audit s hits.left answer.1 hits.frame frame,
        omega arith,
        omega arith,
      )
