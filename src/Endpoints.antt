-- ===== src/Endpoints.antt =====
-- lib/endpoints.ts, and `cleanEndpoints` of lib/keys.ts.
pub mod Scope
use text.Mathlib.Text.{◌==◌}
use api_provider.Prelude.{String, Bool, true, false, Option, none, some, List, [], ◌∷◌}
use api_provider.Prelude.Tests.{if◌then◌else◌}
use api_provider.Prelude.Lists.{filter, any}
use api_provider.Result.{Result, ok, err, failure}

pub data ApiEndpoint : Type 0 where
  geocode route : ApiEndpoint

-- The endpoint's text.
abbrev pub name : ApiEndpoint → String
name geocode = "geocode"
name route = "route"

abbrev pub api_endpoints : List ApiEndpoint
api_endpoints = geocode ∷ route ∷ []

abbrev pub is_endpoint : String → Bool
is_endpoint s = any (λ e. name e == s) api_endpoints

unfoldable pub normalize_endpoint : String → Option ApiEndpoint
normalize_endpoint s =
    if s == "reverse-geocode"
    then some geocode
    else if "geocode" == s
    then some geocode
    else if "route" == s
    then some route
    else none

abbrev pub same_endpoint : ApiEndpoint → ApiEndpoint → Bool
same_endpoint geocode geocode = true
same_endpoint route route = true
same_endpoint _ _ = false

-- The set `out` after the loop.
pub normalized : List String → List ApiEndpoint
normalized [] = []
normalized (s ∷ ss) = elim (normalize_endpoint s) [
  | none ↦ normalized ss
  | some e ↦ e ∷ normalized ss
]

unfoldable pub normalize_endpoints : List String → List ApiEndpoint
unfolding normalized
normalize_endpoints ss = filter (λ e. any (same_endpoint e) (normalized ss)) api_endpoints

-- `endpoints.includes(endpoint)`
abbrev pub is_chosen : List String → ApiEndpoint → Bool
is_chosen ss e = any (λ s. s == name e) ss

abbrev pub at_least_one : List ApiEndpoint → Result (List ApiEndpoint)
at_least_one [] = err (failure "Choose at least one endpoint for the key.")
at_least_one (e ∷ es) = ok (e ∷ es)

unfoldable pub clean_endpoints : List String → Result (List ApiEndpoint)
clean_endpoints ss = at_least_one (filter (is_chosen ss) api_endpoints)
