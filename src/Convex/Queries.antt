-- ===== src/Convex/Queries.antt =====
-- `.unique()`, and what the laws of the database give for the queries of the handlers.
use api_provider.Prelude.{
  ℕ, ◌≡◌, refl, sym, ap, ◌∙◌, inl, inr, Bool, true, false, Option, none, some, List, [], ◌∷◌, ◌++◌,
  arith,
}
use api_provider.Prelude.Tests.{◌==◌, if◌then◌else◌, Option-cases, Bool-cases}
use api_provider.Prelude.Lists.{All, All-map, filter-append}
use api_provider.Result.{Result, ok, err, not_unique}
use mathlib.Core.List.{append-nil}
use api_provider.Convex.Docs.{
  Doc, update, remove, select, find-id, find-append, find-append-new, select-of-find, find-update,
  find-remove, select-update, select-remove, update-absent, All-select, select-holds,
}
use api_provider.Convex.Database.{Database}

abbrev pub at_most_one : {A : Type 0} → List (Doc A) → Result (Option (Doc A))
at_most_one [] = ok none
at_most_one (d ∷ []) = ok (some d)
at_most_one (d ∷ e ∷ ds) = err not_unique

module _ {A : Type 0} where
  abbrev pub head : List (Doc A) → Option (Doc A)
  head [] = none
  head (d ∷ ds) = some d

  at_most_one-some : (ds : List (Doc A)) (d : Doc A) → at_most_one ds ≡ ok (some d) → ds ≡ d ∷ []
  at_most_one-some [] d h = cc
  at_most_one-some (e ∷ []) d h = ground arith
  at_most_one-some (e ∷ e' ∷ ds) d h = cc

  at_most_one-none : (ds : List (Doc A)) → at_most_one ds ≡ ok none → ds ≡ []
  at_most_one-none [] h = refl
  at_most_one-none (e ∷ []) h = cc
  at_most_one-none (e ∷ e' ∷ ds) h = cc

module _ ⦃db : Database⦄ {A : Type 0} where
  open db use {Table, docs, new_id, creation_time, get, query, insert, patch, delete}

  -- `ctx.db.query(t).withIndex(p).unique()`
  abbrev pub unique : (A → Bool) → Table A → Result (Option (Doc A))
  unique p t = at_most_one (query p t)

  -- `ctx.db.query(t).withIndex(p).first()`
  abbrev pub first : (A → Bool) → Table A → Option (Doc A)
  first p t = head (query p t)

  -- Writes the document that was read, or a new one where there was none.
  unfoldable pub patch_or_insert : Option (Doc A) → (A → A) → A → Table A → Table A
  patch_or_insert none f a t = insert a t
  patch_or_insert (some d) f a t = patch d.id f t

  -- `for (const doc of docs) await ctx.db.delete(doc._id)`
  abbrev pub delete_each : List (Doc A) → Table A → Table A
  delete_each [] t = t
  delete_each (d ∷ ds) t = delete_each ds (delete d.id t)

  pub get-id : (i : ℕ) (t : Table A) (d : Doc A) → get i t ≡ some d → d.id ≡ i
  get-id i t d h = find-id i (docs t) d (sym (db.get-docs i t) ∙ h)

  pub get-patch :
      (i j : ℕ) (f : A → A) (t : Table A)
      → get j (patch i f t) ≡ elim (get j t) [
        | none ↦ none
        | some d ↦ some (if i == j then record d { value = f d.value } else d)
      ]
  get-patch i j f t =
      rw (db.get-docs j (patch i f t), db.docs-patch i f t, db.get-docs j t)
        (find-update i j f (docs t))

  pub get-patch-same :
      (i : ℕ) (f : A → A) (t : Table A) (d : Doc A)
      → get i t ≡ some d
      → get i (patch i f t) ≡ some (record d { value = f d.value })
  get-patch-same i f t d there = ground (arith, (rw there at (get-patch i i f t)))

  pub get-patch-other :
      (i j : ℕ) (f : A → A) (t : Table A) → (j ≡ i → ⊥) → get j (patch i f t) ≡ get j t
  get-patch-other i j f t other = elim (Option-cases (get j t)) [
    | inl absent ↦ (rw absent at (get-patch i j f t)) ∙ sym absent
    | inr (d, there) ↦ ground (arith, other, there, (rw there at (get-patch i j f t)))
  ]

  -- Insertion keeps the documents that are there.
  pub get-insert :
      (i : ℕ) (a : A) (t : Table A) (d : Doc A) → get i t ≡ some d → get i (insert a t) ≡ some d
  get-insert i a t d h =
      rw (db.get-docs i (insert a t), db.docs-insert a t)
        (find-append i (docs t) _ d (sym (db.get-docs i t) ∙ h))

  -- The document that was inserted, under the id it was given.
  pub get-new :
      (a : A) (t : Table A)
      → get (new_id t) (insert a t)
        ≡ some (record { id = new_id t; created = creation_time t; value = a })
  get-new a t =
      rw (db.get-docs (new_id t) (insert a t), db.docs-insert a t)
        (find-append-new (docs t) (record { id = new_id t; created = creation_time t; value = a })
          (db.new_id-fresh t))

  pub get-delete : (i j : ℕ) (t : Table A) → get j (delete i t) ≡ (if i == j then none else get j t)
  get-delete i j t =
      rw (db.get-docs j (delete i t), db.docs-delete i t, db.get-docs j t)
        (find-remove i j (docs t))

  pub query-insert :
      (p : A → Bool) (a : A) (t : Table A)
      → query p (insert a t)
        ≡ query p t
          ++ (if p a
              then record { id = new_id t; created = creation_time t; value = a } ∷ []
              else [])
  query-insert p a t =
      rw (db.query-docs p (insert a t), db.docs-insert a t, db.query-docs p t)
        (filter-append (λ (d : Doc A). p d.value) (docs t) _)

  pub query-patch :
      (p : A → Bool) (i : ℕ) (f : A → A) (t : Table A)
      → ((a : A) → p (f a) ≡ p a)
      → query p (patch i f t) ≡ update i f (query p t)
  query-patch p i f t h =
      rw (db.query-docs p (patch i f t), db.docs-patch i f t, db.query-docs p t)
        (select-update p i f (docs t) h)

  pub query-delete :
      (p : A → Bool) (i : ℕ) (t : Table A) → query p (delete i t) ≡ remove i (query p t)
  query-delete p i t =
      rw (db.query-docs p (delete i t), db.docs-delete i t, db.query-docs p t)
        (select-remove p i (docs t))

  -- A document that a query returns passes its test, and is the one that its id names.
  pub query-get : (p : A → Bool) (t : Table A) → All (λ d. get d.id t ≡ some d) (query p t)
  query-get p t = rw (db.query-docs p t) (
      All-map (select p (docs t)) (λ d h. db.get-docs d.id t ∙ h)
        (All-select _ p (docs t) (db.ids_unique t)))

  pub query-holds : (p : A → Bool) (t : Table A) → All (λ d. p d.value ≡ true) (query p t)
  query-holds p t = rw (db.query-docs p t) (select-holds p (docs t))

  found_eq :
      (p : A → Bool) (t : Table A) (found : Option (Doc A))
      → unique p t ≡ ok found
      → query p t ≡ elim found [ none ↦ [] | some d ↦ d ∷ [] ]
  found_eq p t none h = at_most_one-none (query p t) h
  found_eq p t (some d) h = at_most_one-some (query p t) d h

  -- The document that `unique` finds.
  pub unique-get :
      (p : A → Bool) (t : Table A) (d : Doc A)
      → unique p t ≡ ok (some d)
      → (get d.id t ≡ some d) × (p d.value ≡ true)
  unique-get p t d h = (
    (rw (found_eq p t (some d) h) at (query-get p t)).0,
    (rw (found_eq p t (some d) h) at (query-holds p t)).0,
  )

  others_apart :
      (q : A → Bool) (t : Table A) (d : Doc A) (es : List (Doc A))
      → get d.id t ≡ some d
      → q d.value ≡ false
      → All (λ e. get e.id t ≡ some e) es
      → All (λ e. q e.value ≡ true) es
      → All (λ e. e.id ≡ d.id → ⊥) es
  others_apart q t d [] mine fails all_get all_hold = tt
  others_apart q t d (e ∷ es) mine fails all_get all_hold =
      (λ same. cc (ap (λ i. get i t) same), others_apart q t d es mine fails all_get.1 all_hold.1)

  -- The written document is the one that the next query finds.
  pub unique-patch_or_insert :
      (p : A → Bool) (f : A → A) (a : A) (t : Table A) (found : Option (Doc A))
      → unique p t ≡ ok found
      → ((x : A) → p (f x) ≡ p x)
      → p a ≡ true
      → unique p (patch_or_insert found f a t)
        ≡ ok (
            some (elim found [
              | none ↦ record { id = new_id t; created = creation_time t; value = a }
              | some d ↦ record d { value = f d.value }
            ]))
  unfolding patch_or_insert
  unique-patch_or_insert p f a t none h keep here =
      rw (query-insert p a t, found_eq p t none h, here)
  unique-patch_or_insert p f a t (some d) h keep here =
      rw (query-patch p d.id f t keep, found_eq p t (some d) h) (ground arith)

  -- A patch that keeps the test is seen by the query.
  pub unique-patch :
      (p : A → Bool) (f : A → A) (t : Table A) (d : Doc A)
      → unique p t ≡ ok (some d)
      → ((x : A) → p (f x) ≡ p x)
      → unique p (patch d.id f t) ≡ ok (some (record d { value = f d.value }))
  unique-patch p f t d h keep =
      rw (query-patch p d.id f t keep, found_eq p t (some d) h) (ground arith)

  -- The same for one reading of the document, which both ways of writing it set.
  pub value-patch_or_insert :
      {B : Type 0} (v : A → B) (c : B) (p : A → Bool) (f : A → A) (a : A) (t : Table A)
      (found : Option (Doc A))
      → unique p t ≡ ok found
      → ((x : A) → p (f x) ≡ p x)
      → p a ≡ true
      → ((x : A) → v (f x) ≡ c)
      → v a ≡ c
      → (d : Doc A) × (unique p (patch_or_insert found f a t) ≡ ok (some d)) × (v d.value ≡ c)
  value-patch_or_insert v c p f a t none h keep here set_f set_a =
      (_, unique-patch_or_insert p f a t none h keep here, set_a)
  value-patch_or_insert v c p f a t (some d) h keep here set_f set_a =
      (_, unique-patch_or_insert p f a t (some d) h keep here, set_f d.value)

  -- Other documents are not touched.
  pub query-patch_or_insert :
      (p q : A → Bool) (f : A → A) (a : A) (t : Table A) (found : Option (Doc A))
      → unique p t ≡ ok found
      → ((x : A) → p x ≡ true → q x ≡ false)
      → ((x : A) → q (f x) ≡ q x)
      → p a ≡ true
      → query q (patch_or_insert found f a t) ≡ query q t
  unfolding patch_or_insert
  query-patch_or_insert p q f a t none h apart keep here =
      rw (query-insert q a t, apart a here) (append-nil (query q t))
  query-patch_or_insert p q f a t (some d) h apart keep here =
      let mine = unique-get p t d h in
      rw (query-patch q d.id f t keep) (
        update-absent d.id f (query q t) (
          others_apart q t d (query q t) mine.0 (apart d.value mine.1) (query-get q t)
            (query-holds q t)))

  -- A query that finds nothing: no document passes its test.
  pub query-empty :
      (p : A → Bool) (t : Table A) (i : ℕ) (d : Doc A)
      → query p t ≡ []
      → get i t ≡ some d
      → p d.value ≡ false
  query-empty p t i d empty there = elim (Bool-cases (p d.value)) [
    | inl passes ↦ absurd (
        select-of-find p i (docs t) d (sym (db.get-docs i t) ∙ there) passes
          (sym (db.query-docs p t) ∙ empty))
    | inr fails ↦ fails
  ]
