-- ===== src/Convex/Memory.antt =====
-- A database in memory: a document's id is its place, and a deleted document leaves a gap.
use mathlib.Core.List.{reverse}
use api_provider.Prelude.{
  ℕ, suc, ◌+◌, ◌≤◌, ◌≡◌, refl, ◌&&◌, Option, none, some, List, [], ◌∷◌, ◌++◌, arith,
}
use api_provider.Prelude.Tests.{ltb, leb, ◌==◌, if◌then◌else◌}
use api_provider.Prelude.Lists.{length, All}
use native.Mathlib.Nat.{le_refl}
use api_provider.Convex.Docs.{Doc, find, update, remove, select, order_by}
use api_provider.Convex.Database.{Database}

module _ {A : Type 0} where
  abbrev pub docs_from : ℕ → List (Option A) → List (Doc A)
  docs_from n [] = []
  docs_from n (none ∷ r) = docs_from (suc n) r
  docs_from n (some a ∷ r) = record { id = n; created = n; value = a } ∷ docs_from (suc n) r

  abbrev pub patch_from : ℕ → ℕ → (A → A) → List (Option A) → List (Option A)
  patch_from n i f [] = []
  patch_from n i f (none ∷ r) = none ∷ patch_from (suc n) i f r
  patch_from n i f (some a ∷ r) = some (if n == i then f a else a) ∷ patch_from (suc n) i f r

  abbrev pub delete_from : ℕ → ℕ → List (Option A) → List (Option A)
  delete_from n i [] = []
  delete_from n i (x ∷ r) = (if n == i then none else x) ∷ delete_from (suc n) i r

  pub docs_from-append :
      (n : ℕ) (a : A) (r : List (Option A))
      → docs_from n (r ++ some a ∷ [])
        ≡ docs_from n r ++ record { id = n + length r; created = n + length r; value = a } ∷ []
  docs_from-append n a [] = ground arith
  docs_from-append n a (none ∷ r) = ground (arith, docs_from-append (suc n) a r)
  docs_from-append n a (some b ∷ r) = ground (arith, docs_from-append (suc n) a r)

  pub docs_from-patch :
      (n i : ℕ) (f : A → A) (r : List (Option A))
      → docs_from n (patch_from n i f r) ≡ update i f (docs_from n r)
  docs_from-patch n i f [] = refl
  docs_from-patch n i f (none ∷ r) = docs_from-patch (suc n) i f r
  docs_from-patch n i f (some a ∷ r) = ground (arith, docs_from-patch (suc n) i f r)

  pub docs_from-delete :
      (n i : ℕ) (r : List (Option A)) → docs_from n (delete_from n i r) ≡ remove i (docs_from n r)
  docs_from-delete n i [] = refl
  docs_from-delete n i (none ∷ r) = ground (arith, docs_from-delete (suc n) i r)
  docs_from-delete n i (some a ∷ r) = ground (arith, docs_from-delete (suc n) i r)

  pub find-docs_from :
      (n i : ℕ) (r : List (Option A)) → n + length r ≤ i → find i (docs_from n r) ≡ none
  find-docs_from n i [] h = refl
  find-docs_from n i (none ∷ r) h = ground (arith, find-docs_from (suc n) i r)
  find-docs_from n i (some a ∷ r) h = ground (arith, find-docs_from (suc n) i r)

  -- The later documents are still found behind one with a smaller id.
  ids_behind :
      (n : ℕ) (d : Doc A) (ds es : List (Doc A))
      → d.id + 1 ≤ n
      → All (λ e. n ≤ e.id) es
      → All (λ e. find e.id ds ≡ some e) es
      → All (λ e. find e.id (d ∷ ds) ≡ some e) es
  ids_behind n d ds [] h low h' = tt
  ids_behind n d ds (e ∷ es) h low h' = (ground arith, ids_behind n d ds es h low.1 h'.1)

  docs_from-above : (m n : ℕ) (r : List (Option A)) → m ≤ n → All (λ e. m ≤ e.id) (docs_from n r)
  docs_from-above m n [] h = tt
  docs_from-above m n (none ∷ r) h = docs_from-above m (suc n) r (omega arith)
  docs_from-above m n (some a ∷ r) h = (h, docs_from-above m (suc n) r (omega arith))

  pub docs_from_unique :
      (n : ℕ) (r : List (Option A)) → All (λ d. find d.id (docs_from n r) ≡ some d) (docs_from n r)
  docs_from_unique n [] = tt
  docs_from_unique n (none ∷ r) = docs_from_unique (suc n) r
  docs_from_unique n (some a ∷ r) = (
    ground arith,
    ids_behind (suc n) _ (docs_from (suc n) r) (docs_from (suc n) r) (omega arith)
        (docs_from-above (suc n) (suc n) r (omega arith)) (docs_from_unique (suc n) r),
  )

instance abbrev pub memory : Database
memory = record {
  Table = λ A. List (Option A);
  docs = docs_from 0;
  new_id = λ t. 0 + length t;
  creation_time = λ t. 0 + length t;
  get = λ i t. find i (docs_from 0 t);
  query = λ p t. select p (docs_from 0 t);
  query_below = λ index bound t. order_by index (select (λ a. ltb (index a) bound) (docs_from 0 t));
  query_from =
      λ p index bound t. order_by index (select (λ a. p a && leb bound (index a)) (docs_from 0 t));
  query_newest = λ p index t. reverse (order_by index (select p (docs_from 0 t)));
  insert = λ a t. t ++ some a ∷ [];
  patch = patch_from 0;
  delete = delete_from 0;
  get-docs = λ i t. refl;
  query-docs = λ p t. refl;
  query_newest-docs = λ p index t. refl;
  query_from-docs = λ p index bound t. refl;
  query_below-docs = λ index bound t. refl;
  docs-insert = docs_from-append 0;
  docs-patch = docs_from-patch 0;
  docs-delete = docs_from-delete 0;
  new_id-fresh = λ t. find-docs_from 0 (0 + length t) t (le_refl _);
  ids_unique = docs_from_unique 0;
}
