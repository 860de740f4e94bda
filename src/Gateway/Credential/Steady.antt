-- ===== src/Gateway/Credential/Steady.antt =====
-- The checks return where the credential is found by `unique`.
use api_provider.Prelude.{ℕ, ◌≡◌, refl, String, Bool, true, false, Option, none, some, List}
use api_provider.Prelude.Tests.{if◌then◌else◌}
use api_provider.Plans.{User}
use api_provider.Result.{Error, ok}
use api_provider.Schema.{ApiKey, PlaygroundToken, State}
use api_provider.Convex.Docs.{Doc}
use api_provider.Convex.Database.{Database}
use api_provider.Convex.Queries.{unique}
use api_provider.Gateway.Credential.{
  has_key_hash, has_token_hash, Kind, key, playground, Args, Admitted, Refusal, Verdict, pass,
  refuse, throws, ◌>>=◌, ◌>>◌, refuse_if, bound_key, found_key, key_of_token, credential,
  active_owner, owner_of, check_endpoint, admit_owner, admit,
}

-- The check does not throw.
record Steady {ℓ} {A : Type ℓ} (v : Verdict A) : Type ℓ where
  at : (e : Error) → v ≡ throws e → ⊥

Steady-pass {ℓ} : {A : Type ℓ} (a : A) → Steady (pass a)
Steady-pass a = record { at = λ e h. cc }

Steady-refuse {ℓ} : {A : Type ℓ} (r : Refusal) → Steady {A = A} (refuse r)
Steady-refuse r = record { at = λ e h. cc }

Steady-bind {ℓ} :
    {A B : Type ℓ} (m : Verdict A) (f : A → Verdict B)
    → Steady m
    → ((a : A) → Steady (f a))
    → Steady (m >>= f)
Steady-bind (pass a) f h k = k a
Steady-bind (refuse r) f h k = Steady-refuse r
Steady-bind (throws e) f h k = absurd (h.at e refl)

Steady-then {ℓ} :
    {B : Type ℓ} (m : Verdict (Unit {0})) (f : Verdict B) → Steady m → Steady f → Steady (m >> f)
Steady-then (pass a) f h k = k
Steady-then (refuse r) f h k = Steady-refuse r
Steady-then (throws e) f h k = absurd (h.at e refl)

Steady-if : (b : Bool) (r : Refusal) → Steady (refuse_if b r)
Steady-if true r = Steady-refuse r
Steady-if false r = Steady-pass tt

Steady-choice {ℓ} :
    {A : Type ℓ} (b : Bool) (m n : Verdict A) → Steady m → Steady n → Steady (if b then m else n)
Steady-choice true m n h k = h
Steady-choice false m n h k = k

ruleset steady_rules =
    (Steady-pass, Steady-refuse, Steady-bind, Steady-then, Steady-if, Steady-choice)

bound_key-Steady : (u : ℕ) (o : Option (Doc ApiKey)) → Steady (bound_key u o)
unfolding bound_key
bound_key-Steady u none = search steady_rules
bound_key-Steady u (some k) = search steady_rules

found_key-Steady : (o : Option (Doc ApiKey)) → Steady (found_key o)
unfolding found_key
found_key-Steady none = search steady_rules
found_key-Steady (some k) = search steady_rules

check_endpoint-Steady :
    (args : Args) (a : Admitted) (o : Option (List String)) → Steady (check_endpoint args a o)
unfolding check_endpoint
check_endpoint-Steady args a none = search steady_rules
check_endpoint-Steady args a (some stored) = search steady_rules

active_owner-Steady : (k : Doc ApiKey) (o : Option (Doc User)) → Steady (active_owner k o)
unfolding active_owner
active_owner-Steady k none = search steady_rules
active_owner-Steady k (some d) = search steady_rules

admit_owner-Steady :
    (args : Args) (now : ℕ) (k : Doc ApiKey) (via : Bool) (owner : Doc User)
    → Steady (admit_owner args now k via owner)
unfolding admit_owner
admit_owner-Steady args now k via owner = search (steady_rules, check_endpoint-Steady)

module _ ⦃db : Database⦄ where
  key_of_token-Steady :
      (now : ℕ) (o : Option (Doc PlaygroundToken)) (s : State) → Steady (key_of_token now o s)
  unfolding key_of_token
  key_of_token-Steady now none s = search steady_rules
  key_of_token-Steady now (some t) s = search (steady_rules, bound_key-Steady)

  -- The row that the credential names, if any, is found.
  abbrev pub Found : Kind → String → State → Type 0
  Found key hash s = (d : Option (Doc ApiKey)) × (unique (has_key_hash hash) s.api_keys ≡ ok d)
  Found playground hash s =
      (d : Option (Doc PlaygroundToken)) × (unique (has_token_hash hash) s.playground_tokens ≡ ok d)

  credential-Steady :
      (kind : Kind) (hash : String) (now : ℕ) (s : State)
      → Found kind hash s
      → Steady (credential kind hash now s)
  unfolding credential
  credential-Steady key hash now s (d, h) = rw h (found_key-Steady d)
  credential-Steady playground hash now s (d, h) = rw h (key_of_token-Steady now d s)

  owner_of-Steady : (k : Doc ApiKey) (now : ℕ) (s : State) → Steady (owner_of k now s)
  unfolding owner_of
  owner_of-Steady k now s = search (steady_rules, active_owner-Steady)

  pub admit_steady :
      (args : Args) (now : ℕ) (s : State) (e : Error)
      → Found args.kind args.hash s
      → admit args now s ≡ throws e
      → ⊥
  unfolding admit
  admit_steady args now s e found h =
      (Steady-bind _ _ (credential-Steady args.kind args.hash now s found) (λ kv.
          Steady-bind _ _ (owner_of-Steady kv.0 now s)
            (λ owner. admit_owner-Steady args now kv.0 kv.1 owner))).at
        e h
