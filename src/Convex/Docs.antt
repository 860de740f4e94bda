-- ===== src/Convex/Docs.antt =====
-- Documents, and lists of them in creation order.
use mathlib.Core.Option.{some-injective}
use api_provider.Prelude.{
  subst, inl, inr, ℕ, ◌≡◌, refl, Bool, true, Option, none, some, List, [], ◌∷◌, ◌++◌, arith,
}
use api_provider.Prelude.Tests.{leb, ◌==◌, if◌then◌else◌, Bool-cases, then_branch, else_branch}
use api_provider.Prelude.Lists.{filter, All}

-- `_id`, `_creationTime` and the fields of the table's schema.
pub record Doc (A : Type 0) : Type 0 where
  pub id : ℕ
  pub created : ℕ
  pub value : A

module _ {A : Type 0} where
  abbrev pub find : ℕ → List (Doc A) → Option (Doc A)
  find i [] = none
  find i (d ∷ ds) = if d.id == i then some d else find i ds

  abbrev pub update : ℕ → (A → A) → List (Doc A) → List (Doc A)
  update i f [] = []
  update i f (d ∷ ds) = (if d.id == i then record d { value = f d.value } else d) ∷ update i f ds

  abbrev pub remove : ℕ → List (Doc A) → List (Doc A)
  remove i [] = []
  remove i (d ∷ ds) = let rest = remove i ds in if d.id == i then rest else d ∷ rest

  abbrev pub select : (A → Bool) → List (Doc A) → List (Doc A)
  select p = filter (λ d. p d.value)

  pub find-append :
      (i : ℕ) (ds es : List (Doc A)) (d : Doc A) → find i ds ≡ some d → find i (ds ++ es) ≡ some d
  find-append i [] es d h = cc
  find-append i (x ∷ ds) es d h = ground (arith, find-append i ds es d)

  pub find-append-new :
      (ds : List (Doc A)) (d : Doc A) → find d.id ds ≡ none → find d.id (ds ++ d ∷ []) ≡ some d
  find-append-new [] d h = ground arith
  find-append-new (e ∷ ds) d h = ground (arith, find-append-new ds d)

  pub find-update :
      (i j : ℕ) (f : A → A) (ds : List (Doc A))
      → find j (update i f ds) ≡ elim (find j ds) [
        | none ↦ none
        | some d ↦ some (if i == j then record d { value = f d.value } else d)
      ]
  find-update i j f [] = refl
  find-update i j f (d ∷ ds) = ground (arith, find-update i j f ds)

  pub find-remove :
      (i j : ℕ) (ds : List (Doc A)) → find j (remove i ds) ≡ (if i == j then none else find j ds)
  find-remove i j [] = ground arith
  find-remove i j (d ∷ ds) = ground (arith, find-remove i j ds)

  -- A change that the test does not see.
  pub select-update :
      (p : A → Bool) (i : ℕ) (f : A → A) (ds : List (Doc A))
      → ((a : A) → p (f a) ≡ p a)
      → select p (update i f ds) ≡ update i f (select p ds)
  select-update p i f [] h = refl
  select-update p i f (d ∷ ds) h = ground (arith, h d.value, select-update p i f ds h)

  pub update-absent :
      (i : ℕ) (f : A → A) (ds : List (Doc A)) → All (λ d. d.id ≡ i → ⊥) ds → update i f ds ≡ ds
  update-absent i f [] h = refl
  update-absent i f (d ∷ ds) h = ground (arith, update-absent i f ds h.1)

  pub All-select {κ} :
      (P : Doc A → Type κ) (p : A → Bool) (ds : List (Doc A)) → All P ds → All P (select p ds)
  All-select P p [] h = tt
  All-select P p (d ∷ ds) h = ground (arith, All-select P p ds h.1)

  pub select-holds : (p : A → Bool) (ds : List (Doc A)) → All (λ d. p d.value ≡ true) (select p ds)
  select-holds p [] = tt
  select-holds p (d ∷ ds) = ground (arith, select-holds p ds)

  pub select-remove :
      (p : A → Bool) (i : ℕ) (ds : List (Doc A)) → select p (remove i ds) ≡ remove i (select p ds)
  select-remove p i [] = refl
  select-remove p i (d ∷ ds) = ground (arith, select-remove p i ds)

  pub find-id : (i : ℕ) (ds : List (Doc A)) (d : Doc A) → find i ds ≡ some d → d.id ≡ i
  find-id i [] d h = cc
  find-id i (e ∷ ds) d h = ground (arith, find-id i ds d)

  pub select-of-find :
      (p : A → Bool) (i : ℕ) (ds : List (Doc A)) (d : Doc A)
      → find i ds ≡ some d
      → p d.value ≡ true
      → select p ds ≡ []
      → ⊥
  select-of-find p i [] d h passes none_left = cc
  select-of-find p i (e ∷ ds) d h passes none_left = ground (arith, select-of-find p i ds d)

  -- The order of an index on one number: by that number, and then as created.
  abbrev pub insert_by : (A → ℕ) → Doc A → List (Doc A) → List (Doc A)
  insert_by index d [] = d ∷ []
  insert_by index d (e ∷ es) =
      let rest = insert_by index d es in
      if leb (index d.value) (index e.value) then d ∷ e ∷ es else e ∷ rest

  abbrev pub order_by : (A → ℕ) → List (Doc A) → List (Doc A)
  order_by index [] = []
  order_by index (d ∷ ds) = insert_by index d (order_by index ds)

  insert_by-All {κ} :
      (P : Doc A → Type κ) (index : A → ℕ) (d : Doc A) (ds : List (Doc A))
      → P d
      → All P ds
      → All P (insert_by index d ds)
  insert_by-All P index d [] h hs = (h, tt)
  insert_by-All P index d (e ∷ es) h hs = ground (arith, insert_by-All P index d es h hs.1)

  pub order_by-All {κ} :
      (P : Doc A → Type κ) (index : A → ℕ) (ds : List (Doc A))
      → All P ds
      → All P (order_by index ds)
  order_by-All P index [] h = tt
  order_by-All P index (d ∷ ds) h =
      insert_by-All P index d (order_by index ds) h.0 (order_by-All P index ds h.1)

  pub find-insert_by :
      (index : A → ℕ) (i : ℕ) (d : Doc A) (ds : List (Doc A))
      → find i (insert_by index d ds) ≡ none
      → (d.id ≡ i → ⊥) × (find i ds ≡ none)
  find-insert_by index i d [] h = ground arith
  find-insert_by index i d (e ∷ es) h = ground (arith, find-insert_by index i d es)

  -- What is not in an index's order is not in the table.
  pub find-order_by :
      (index : A → ℕ) (i : ℕ) (ds : List (Doc A))
      → find i (order_by index ds) ≡ none
      → find i ds ≡ none
  find-order_by index i [] h = refl
  find-order_by index i (d ∷ ds) h =
      ground (arith, find-insert_by index i d (order_by index ds) h, find-order_by index i ds)

  pub find-All {κ} :
      (P : Doc A → Type κ) (i : ℕ) (ds : List (Doc A)) (d : Doc A)
      → All P ds
      → find i ds ≡ some d
      → P d
  find-All P i [] d h found = cc
  find-All P i (e ∷ ds) d h found = elim (Bool-cases (e.id == i)) [
    | inl here ↦ subst P (some-injective e d (then_branch _ _ here found)) h.0
    | inr there ↦ find-All P i ds d h.1 (else_branch _ _ there found)
  ]

  pub find-select :
      (p : A → Bool) (i : ℕ) (ds : List (Doc A)) (d : Doc A)
      → find i ds ≡ some d
      → p d.value ≡ true
      → find i (select p ds) ≡ some d
  find-select p i [] d h passes = cc
  find-select p i (e ∷ ds) d h passes = ground (arith, find-select p i ds d)
