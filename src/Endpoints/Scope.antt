-- ===== src/Endpoints/Scope.antt =====
-- The endpoints of a key, from the choice to the check.
use text.Mathlib.Text.{◌==◌}
use text.Mathlib.TextEquality.{eq_iff}
use api_provider.Prelude.{
  ◌≡◌, refl, sym, ◌∙◌, inl, inr, ◌⊎◌, ◌↔◌, String, Bool, true, false, List, [], ◌∷◌, map, arith,
}
use api_provider.Prelude.Tests.{Bool-cases}
use api_provider.Prelude.Lists.{filter}
use api_provider.Result.{Result, ok}
use api_provider.Endpoints.{
  ApiEndpoint, geocode, route, name, api_endpoints, normalize_endpoint, normalized,
  normalize_endpoints, clean_endpoints, is_chosen, at_least_one,
}

-- The endpoints that the choice `b` and `c` of the two gives.
abbrev both : Bool → Bool → List ApiEndpoint
both true true = geocode ∷ route ∷ []
both true false = geocode ∷ []
both false true = route ∷ []
both false false = []

normalize_endpoints-both : (b c : Bool) → normalize_endpoints (map name (both b c)) ≡ both b c
unfolding normalize_endpoints normalized normalize_endpoint
normalize_endpoints-both true true = refl
normalize_endpoints-both true false = refl
normalize_endpoints-both false true = refl
normalize_endpoints-both false false = refl

filter-both : (p : ApiEndpoint → Bool) → filter p api_endpoints ≡ both (p geocode) (p route)
filter-both p = ground arith

chosen :
    {xs : List ApiEndpoint} (es : List ApiEndpoint)
    → ◌≡◌ {A = Result (List ApiEndpoint)} (ok xs) (ok es)
    → xs ≡ es
chosen es h = ground arith

at_least_one-some :
    (b c : Bool) (es : List ApiEndpoint)
    → at_least_one (both b c) ≡ ok es
    → (normalize_endpoints (map name es) ≡ es) × ¬ (es ≡ [])
at_least_one-some false false es h = cc
at_least_one-some true true es h = rw (← chosen es h) (normalize_endpoints-both true true, λ e. cc)
at_least_one-some true false es h =
    rw (← chosen es h) (normalize_endpoints-both true false, λ e. cc)
at_least_one-some false true es h =
    rw (← chosen es h) (normalize_endpoints-both false true, λ e. cc)

module _ {A : Type 0} where
  -- One of a list.
  abbrev pub IsAmong : A → List A → Type 0
  IsAmong a [] = ⊥
  IsAmong a (b ∷ bs) = (b ≡ a) ⊎ IsAmong a bs

is_chosen-IsAmong :
    (ss : List String) (e : ApiEndpoint) → is_chosen ss e ≡ true → IsAmong (name e) ss
is_chosen-IsAmong [] e h = cc
is_chosen-IsAmong (s ∷ ss) e h = elim (Bool-cases (s == name e)) [
  | inl same ↦ inl ((eq_iff s (name e)).0 same)
  | inr other ↦ inr (is_chosen-IsAmong ss e (rw other at h))
]

IsAmong-is_chosen :
    (ss : List String) (e : ApiEndpoint) → IsAmong (name e) ss → is_chosen ss e ≡ true
IsAmong-is_chosen [] e h = absurd h
IsAmong-is_chosen (s ∷ ss) e (inl same) = rw ((eq_iff s (name e)).1 same) refl
IsAmong-is_chosen (s ∷ ss) e (inr later) = ground (arith, IsAmong-is_chosen ss e later)

-- The choice of one endpoint.
abbrev chosen_of : Bool → Bool → ApiEndpoint → Bool
chosen_of b c geocode = b
chosen_of b c route = c

both-IsAmong : (b c : Bool) (e : ApiEndpoint) → (IsAmong e (both b c)) ↔ (chosen_of b c e ≡ true)
both-IsAmong true true geocode = (λ h. refl, λ h. inl refl)
both-IsAmong true true route = (λ h. refl, λ h. inr (inl refl))
both-IsAmong true false geocode = (λ h. refl, λ h. inl refl)
both-IsAmong true false route = (λ h. ground arith, λ h. cc)
both-IsAmong false true geocode = (λ h. ground arith, λ h. cc)
both-IsAmong false true route = (λ h. refl, λ h. inl refl)
both-IsAmong false false e = (λ h. absurd h, λ h. ground arith)

at_least_one-same : (es es' : List ApiEndpoint) → at_least_one es ≡ ok es' → es ≡ es'
at_least_one-same [] es' h = cc
at_least_one-same (e ∷ es) es' h = chosen es' h

clean_endpoints-IsAmong :
    (ss : List String) (es : List ApiEndpoint) (e : ApiEndpoint)
    → clean_endpoints ss ≡ ok es
    → IsAmong e es ↔ IsAmong (name e) ss
unfolding clean_endpoints
clean_endpoints-IsAmong ss es e h =
    let same = at_least_one-same _ es (rw (filter-both (is_chosen ss)) at h) in
    let picks : chosen_of (is_chosen ss geocode) (is_chosen ss route) e ≡ is_chosen ss e =
      picked e in
    let there = both-IsAmong (is_chosen ss geocode) (is_chosen ss route) e in
    rw (← same) (
      λ h. is_chosen-IsAmong ss e (sym picks ∙ there.0 h),
      λ h. there.1 (picks ∙ IsAmong-is_chosen ss e h),
    )
  where
    picked :
        (e : ApiEndpoint) → chosen_of (is_chosen ss geocode) (is_chosen ss route) e ≡ is_chosen ss e
    picked geocode = refl
    picked route = refl

-- The endpoints of a new key are exactly those whose names were chosen, and there is at least one. They
-- are also those that `authorize` reads back from the stored key, so none stands twice.
pub clean_endpoints-scope :
    (ss : List String) (es : List ApiEndpoint)
    → clean_endpoints ss ≡ ok es
    → ((e : ApiEndpoint) → IsAmong e es ↔ IsAmong (name e) ss)
      × (normalize_endpoints (map name es) ≡ es)
      × ¬ (es ≡ [])
unfolding clean_endpoints
clean_endpoints-scope ss es h =
    let (read, some_one) =
      at_least_one-some (is_chosen ss geocode) (is_chosen ss route) es
        (rw (filter-both (is_chosen ss)) at h) in
    (λ e. clean_endpoints-IsAmong ss es e h, read, some_one)
