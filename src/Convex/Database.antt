-- ===== src/Convex/Database.antt =====
-- `ctx.db` as an interface. A table is seen through `docs`, its documents in creation order.
-- `query p t` is `ctx.db.query(t).withIndex(…).collect()` with the index on exactly the fields that
-- `p` tests for equality, which Convex answers in creation order. `query_below index bound t` is such a
-- query with `q.lt` on the one field of the index, and `query_from p index bound t` one with `q.gte` on
-- the field after those that `p` tests; Convex answers both in the index's order.
-- `query_newest p index t` is a query on fields tested by `p` with `.order("desc")` on the next one.
use mathlib.Core.List.{reverse}
use api_provider.Prelude.{ℕ, ◌≡◌, Bool, ◌&&◌, Option, none, some, List, [], ◌∷◌, ◌++◌}
use api_provider.Prelude.Tests.{ltb, leb}
use api_provider.Prelude.Lists.{All}
use api_provider.Convex.Docs.{Doc, find, update, remove, select, order_by}

pub record Database : Type 1 where
  pub Table : Type 0 → Type 0
  pub docs : {A : Type 0} → Table A → List (Doc A)
  -- The id and the creation time that the next insertion gets.
  pub new_id : {A : Type 0} → Table A → ℕ
  pub creation_time : {A : Type 0} → Table A → ℕ
  pub get : {A : Type 0} → ℕ → Table A → Option (Doc A)
  pub query : {A : Type 0} → (A → Bool) → Table A → List (Doc A)
  pub query_below : {A : Type 0} → (A → ℕ) → ℕ → Table A → List (Doc A)
  pub query_from : {A : Type 0} → (A → Bool) → (A → ℕ) → ℕ → Table A → List (Doc A)
  pub query_newest : {A : Type 0} → (A → Bool) → (A → ℕ) → Table A → List (Doc A)
  pub insert : {A : Type 0} → A → Table A → Table A
  pub patch : {A : Type 0} → ℕ → (A → A) → Table A → Table A
  pub delete : {A : Type 0} → ℕ → Table A → Table A
  pub get-docs : {A : Type 0} (i : ℕ) (t : Table A) → get i t ≡ find i (docs t)
  pub query-docs : {A : Type 0} (p : A → Bool) (t : Table A) → query p t ≡ select p (docs t)
  pub query_below-docs :
      {A : Type 0} (index : A → ℕ) (bound : ℕ) (t : Table A)
      → query_below index bound t ≡ order_by index (select (λ a. ltb (index a) bound) (docs t))
  pub query_from-docs :
      {A : Type 0} (p : A → Bool) (index : A → ℕ) (bound : ℕ) (t : Table A)
      → query_from p index bound t
        ≡ order_by index (select (λ a. p a && leb bound (index a)) (docs t))
  pub query_newest-docs :
      {A : Type 0} (p : A → Bool) (index : A → ℕ) (t : Table A)
      → query_newest p index t ≡ reverse (order_by index (select p (docs t)))
  pub docs-insert :
      {A : Type 0} (a : A) (t : Table A)
      → docs (insert a t)
        ≡ docs t ++ record { id = new_id t; created = creation_time t; value = a } ∷ []
  pub docs-patch :
      {A : Type 0} (i : ℕ) (f : A → A) (t : Table A) → docs (patch i f t) ≡ update i f (docs t)
  pub docs-delete : {A : Type 0} (i : ℕ) (t : Table A) → docs (delete i t) ≡ remove i (docs t)
  -- A new id is not in use, and an id belongs to one document.
  pub new_id-fresh : {A : Type 0} (t : Table A) → find (new_id t) (docs t) ≡ none
  pub ids_unique : {A : Type 0} (t : Table A) → All (λ d. find d.id (docs t) ≡ some d) (docs t)
