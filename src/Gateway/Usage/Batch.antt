-- ===== src/Gateway/Usage/Batch.antt =====
-- What the loop over the entries gathers: the request rows of the entries that pass, and their
-- number, with each key read at most once.
use text.Mathlib.Text.{◌==◌ as str_eq}
use text.Mathlib.TextEquality.{eq_iff}
use api_provider.Prelude.{
  ℕ, ◌+◌, ◌≤◌, ◌≡◌, refl, sym, ap, subst, ◌∙◌, inl, inr, String, Option, none, some, List, [], ◌∷◌,
  arith,
}
use api_provider.Prelude.Tests.{Bool-cases, Option-cases}
use api_provider.Prelude.Lists.{All, length}
use api_provider.Schema.{ApiKey, ApiRequest, UsageDaily}
use api_provider.Convex.Docs.{Doc}
use api_provider.Convex.Database.{Database}
use api_provider.Gateway.Usage.{
  Entry, Ids, request_of, cached, know, read_key, Gathered, gather_request, gather, gather_all,
  add_rollup,
}

abbrev maybe_cons {ℓ} : {A : Type ℓ} → Option A → List A → List A
maybe_cons none xs = xs
maybe_cons (some x) xs = x ∷ xs

abbrev pub add_rollups : List ApiRequest → List UsageDaily → List UsageDaily
add_rollups [] us = us
add_rollups (r ∷ rs) us = add_rollups rs (add_rollup r us)

module _ ⦃db : Database⦄ where
  open db use {Table, insert}

  -- The rows of the entries that pass, by a reading of the key for each.
  unfoldable pub requests_of : Ids → ℕ → Table ApiKey → List Entry → List ApiRequest
  requests_of ids now t [] = []
  requests_of ids now t (e ∷ es) =
      maybe_cons (request_of ids now e (read_key ids e.key_id t)) (requests_of ids now t es)

  abbrev pub insert_each : {A : Type 0} → List A → Table A → Table A
  insert_each [] t = t
  insert_each (a ∷ more) t = insert_each more (insert a t)

  -- The keys that are known are those of the table.
  abbrev Coherent : Ids → Table ApiKey → List (String × Option (Doc ApiKey)) → Type 0
  Coherent ids t = All (λ p. p.1 ≡ read_key ids p.0 t)

  cached-Coherent :
      (ids : Ids) (t : Table ApiKey) (name : String) (keys : List (String × Option (Doc ApiKey)))
      (k : Option (Doc ApiKey))
      → Coherent ids t keys
      → cached name keys ≡ some k
      → k ≡ read_key ids name t
  cached-Coherent ids t name [] k h e = cc
  cached-Coherent ids t name ((other, k') ∷ more) k (here, later) e =
      elim (Bool-cases (str_eq other name)) [
        | inl same ↦
            let is_k : ◌≡◌ {A = Option (Option (Doc ApiKey))} (some k') (some k) = rw same at e in
            let k_same : k' ≡ k = ground (arith, is_k) in
            sym k_same ∙ here ∙ ap (λ n. read_key ids n t) ((eq_iff other name).0 same)
        | inr apart ↦ cached-Coherent ids t name more k later (rw apart at e)
      ]

  know-Coherent :
      (ids : Ids) (t : Table ApiKey) (name : String) (keys : List (String × Option (Doc ApiKey)))
      (o : Option (Option (Doc ApiKey)))
      → Coherent ids t keys
      → cached name keys ≡ o
      → ((know ids t name keys o).0 ≡ read_key ids name t)
        × Coherent ids t (know ids t name keys o).1
  know-Coherent ids t name keys none h e = (refl, (refl, h))
  know-Coherent ids t name keys (some k) h e = (cached-Coherent ids t name keys k h e, h)

  -- What the gathering has added to `b`: the rows `new`.
  pub record Adds (new : List ApiRequest) (b b' : Gathered) : Type 0 where
    pub inserted : b'.api_requests ≡ insert_each new b.api_requests
    pub counted : b'.written ≡ b.written + length new
    pub rolled_up : b'.rollups ≡ add_rollups new b.rollups

  gather_request-Adds :
      (o : Option ApiRequest) (new : List ApiRequest) (b b' : Gathered)
      → Adds new (gather_request o b) b'
      → Adds (maybe_cons o new) b b'
  gather_request-Adds none new b b' h = h
  gather_request-Adds (some r) new b b' h = record {
    inserted = h.inserted;
    counted = omega (arith, h.counted);
    rolled_up = h.rolled_up;
  }

  gather_request-keys : (o : Option ApiRequest) (b : Gathered) → (gather_request o b).keys ≡ b.keys
  gather_request-keys none b = refl
  gather_request-keys (some r) b = refl

  pub gather_all-Adds :
      (ids : Ids) (now : ℕ) (t : Table ApiKey) (es : List Entry) (b : Gathered)
      → Coherent ids t b.keys
      → Adds (requests_of ids now t es) b (gather_all ids now t es b)
  unfolding gather_all gather requests_of
  gather_all-Adds ids now t [] b h = record {
    inserted = refl;
    counted = omega arith;
    rolled_up = refl;
  }
  gather_all-Adds ids now t (e ∷ es) b h =
      let (is_key, coherent) =
        know-Coherent ids t e.key_id b.keys (cached e.key_id b.keys) h refl in
      let known = know ids t e.key_id b.keys (cached e.key_id b.keys) in
      let start : Gathered = record b { keys = known.1 } in
      let passed = request_of ids now e known.0 in
      let rest =
        gather_all-Adds ids now t es (gather_request passed start)
          (subst (Coherent ids t) (sym (gather_request-keys passed start)) coherent) in
      let added = gather_request-Adds passed (requests_of ids now t es) start _ rest in
      rw (← is_key)
        (record { inserted = added.inserted; counted = added.counted; rolled_up = added.rolled_up })

  pub length-requests_of :
      (ids : Ids) (now : ℕ) (t : Table ApiKey) (es : List Entry)
      → length (requests_of ids now t es) ≤ length es
  unfolding requests_of
  length-requests_of ids now t [] = omega arith
  length-requests_of ids now t (e ∷ es) =
      elim (Option-cases (request_of ids now e (read_key ids e.key_id t))) [
        | inl drops ↦ rw drops (omega (arith, length-requests_of ids now t es))
        | inr (r, passes) ↦ rw passes (omega (arith, length-requests_of ids now t es))
      ]
