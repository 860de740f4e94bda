-- ===== src/Examples/Keys.antt =====
-- Lookups of keys, and the input of a new key.
use api_provider.Text.{slice_to}
use api_provider.Prelude.{inl, inr, ◌⊎◌, ◌↔◌, false, none, ℕ, ◌≡◌, ◌≤◌, refl, some, [], ◌∷◌, map}
use api_provider.Prelude.Lists.{length}
use api_provider.Number.{Number, finite, units}
use api_provider.Result.{Error, ok, err}
use api_provider.Schema.{PlaygroundToken, State}
use api_provider.Plans.{has_key_access, active_plan, free_requests_remaining}
use api_provider.Endpoints.{ApiEndpoint, route, name, normalize_endpoints, clean_endpoints}
use api_provider.Endpoints.Scope.{IsAmong, clean_endpoints-scope}
use api_provider.Convex.Memory.{memory}
use api_provider.Gateway.Credential.{is_expired, admit, Response, has_key_hash}
use api_provider.Gateway.Describe.{describe}
use api_provider.Gateway.Describe.Agreement.{Agrees, describe-Agrees}
use api_provider.Env.{require_env}
use api_provider.Gateway.Authorize.{authorize}
use api_provider.Gateway.Authorize.Returns.{Readable, authorize_returns}
use api_provider.Prelude.Tests.{Bool-cases}
use api_provider.Keys.{of_api_key, insert_playground_token, max_playground_tokens_per_key}
use api_provider.Keys.Tokens.{insert_playground_token_lem}
use api_provider.Keys.Expiry.{clean_expires_at}
use api_provider.Keys.Lifetime.{Refused, Lasts, clean_expires_at-is_expired}
use api_provider.Examples.{now, deployment, variables, request, result, alice_key}

describe-Agrees_example :
    Agrees variables (describe variables request.hash now deployment) (admit request now deployment)
describe-Agrees_example = describe-Agrees variables request now deployment refl

-- Alice's first key has six tokens.
abbrev token : ℕ → PlaygroundToken
token t = record { token_hash = "token"; api_key_id = 0; user_id = 0; expires_at = t }

abbrev crowded : State
crowded = record deployment {
  playground_tokens =
      some (token 5)
      ∷ some (token 2)
      ∷ some (token 9)
      ∷ some (token 1)
      ∷ some (token 7)
      ∷ some (token 3)
      ∷ [];
}

abbrev issued : State
issued = result crowded (insert_playground_token (token 950000) now crowded)

issues : insert_playground_token (token 950000) now crowded ≡ ok issued
unfolding insert_playground_token has_key_access active_plan free_requests_remaining
issues = refl

insert_playground_token_lem_example :
    length (memory.query (of_api_key 0) issued.playground_tokens) ≤ max_playground_tokens_per_key
insert_playground_token_lem_example =
    insert_playground_token_lem (token 950000) now crowded issued issues

-- A key for routes alone.
cleans : clean_endpoints ("route" ∷ []) ≡ ok (route ∷ [])
unfolding clean_endpoints
cleans = refl

clean_endpoints-scope_example :
    ((e : ApiEndpoint) → IsAmong e (route ∷ []) ↔ IsAmong (name e) ("route" ∷ []))
    × (normalize_endpoints (map name (route ∷ [])) ≡ route ∷ [])
    × ¬ (route ∷ [] ≡ [])
clean_endpoints-scope_example = clean_endpoints-scope ("route" ∷ []) (route ∷ []) cleans

-- A key that expires a day from now, at its last millisecond.
clean_expires_at-is_expired_example :
    ((some (finite (units 86490000)) ≡ none)
      × (clean_expires_at (some (finite (units 86490000))) now ≡ ok none)
      × (is_expired none 86489999 ≡ false))
    ⊎ ((r : Number) × (some (finite (units 86490000)) ≡ some r)
        × (((t : ℕ) × (clean_expires_at (some (finite (units 86490000))) now ≡ ok (some t))
              × Lasts now 86489999 r t)
            ⊎ (Refused now r
                × (e : Error) × (clean_expires_at (some (finite (units 86490000))) now ≡ err e))))
clean_expires_at-is_expired_example =
    clean_expires_at-is_expired (some (finite (units 86490000))) now 86489999

-- A deployment with one key.
abbrev solo : State
solo = record deployment { api_keys = some alice_key ∷ [] }

solo-Readable : Readable solo
solo-Readable = record {
  one_key = λ h. elim (Bool-cases (has_key_hash h alice_key)) [
    | inl same ↦ (some (record { id = 0; created = 0; value = alice_key }), rw same)
    | inr other ↦ (none, rw other)
  ];
  one_token = λ h. (none, refl);
  one_window = λ b start. (none, refl);
  one_quota = λ b p start. (none, refl);
}

has_secret : require_env "GATEWAY_SECRET" variables.gateway_secret ≡ ok "secret"
unfolding require_env
has_secret = refl

authorize_returns_example :
    (answer : Response) × (s' : State) × (authorize variables request now solo ≡ ok (answer, s'))
authorize_returns_example =
    authorize_returns variables request now solo "secret" has_secret solo-Readable

slices : slice_to 3 "éé😀a" ≡ "éé"
unfolding slice_to
slices = refl
