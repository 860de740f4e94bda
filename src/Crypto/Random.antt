-- ===== src/Crypto/Random.antt =====
-- What `randomString` gives.
use mathlib.Core.Option.{some-injective}
use api_provider.Prelude.{
  subst, ℕ, zero, suc, ◌+◌, ◌-◌, ◌≤◌, ◌≡◌, refl, inl, inr, Bool, true, ◌&&◌, ◌||◌, some, List, [],
  ◌∷◌, ◌++◌, ◌%◌, arith,
}
use api_provider.Prelude.Tests.{ltb, leb, Bool-cases, and_then-eq-some}
use api_provider.Prelude.Lists.{length, length-append, All, filter}
use api_provider.Crypto.{Alphabet, base62, decimal, size, letter, byte_limit, pick, random_string}

-- A letter or a digit, or a digit.
abbrev pub is_letter_of : Alphabet → ℕ → Bool
is_letter_of decimal c = leb b'0' c && leb c b'9'
is_letter_of base62 c =
    (leb b'A' c && leb c b'Z') || (leb b'a' c && leb c b'z') || (leb b'0' c && leb c b'9')

letter_lem : (a : Alphabet) (b : ℕ) → is_letter_of a (letter a (b % size a)) ≡ true
letter_lem base62 b = ground arith
letter_lem decimal b = ground arith

pick_lem :
    (alphabet : Alphabet) (n : ℕ) (bytes : List ℕ)
    → (length (pick alphabet n bytes).0 + (pick alphabet n bytes).1 ≡ n)
      × All (λ c. is_letter_of alphabet c ≡ true) (pick alphabet n bytes).0
unfolding pick
pick_lem alphabet zero bytes = (refl, tt)
pick_lem alphabet (suc n) [] = (omega arith, tt)
pick_lem alphabet (suc n) (b ∷ bytes) = elim (Bool-cases (ltb b (byte_limit alphabet))) [
  | inl taken ↦ rw taken (
    omega (arith, (pick_lem alphabet n bytes).0),
    (letter_lem alphabet b, (pick_lem alphabet n bytes).1),
  )
  | inr skipped ↦ rw skipped (pick_lem alphabet (suc n) bytes)
]

All-append {κ} :
    {A : Type 0} (P : A → Type κ) (xs ys : List A) → All P xs → All P ys → All P (xs ++ ys)
All-append P [] ys h h' = h'
All-append P (x ∷ xs) ys h h' = (h.0, All-append P xs ys h.1 h')

-- A random string has the length that was asked for, and only characters of the alphabet.
pub random_string_lem :
    (alphabet : Alphabet) (n : ℕ) (batches : List (List ℕ)) (out : List ℕ)
    → random_string alphabet n batches ≡ some out
    → (length out ≡ n) × All (λ c. is_letter_of alphabet c ≡ true) out
unfolding random_string
random_string_lem alphabet zero batches out h =
    subst (λ o. (length o ≡ 0) × All (λ c. is_letter_of alphabet c ≡ true) o) (some-injective _ _ h)
      (refl, tt)
random_string_lem alphabet (suc n) [] out h = cc
random_string_lem alphabet (suc n) (bytes ∷ batches) out h =
    let (found, rest) = pick alphabet (suc n) bytes in
    let (size, letters) = pick_lem alphabet (suc n) bytes in
    let (more, is_more, h') =
      and_then-eq-some (random_string alphabet (pick alphabet (suc n) bytes).1 batches) _ h in
    let (size', letters') =
      random_string_lem alphabet (pick alphabet (suc n) bytes).1 batches more is_more in
    subst (λ o. (length o ≡ suc n) × All (λ c. is_letter_of alphabet c ≡ true) o)
      (some-injective _ _ h')
      (
        omega (arith, length-append (pick alphabet (suc n) bytes).0 more, size, size'),
        All-append _ (pick alphabet (suc n) bytes).0 more letters letters',
      )

abbrev pub is_unbiased : Alphabet → ℕ → Bool
is_unbiased alphabet b = ltb b (byte_limit alphabet)

pick-left :
    (alphabet : Alphabet) (n : ℕ) (bytes : List ℕ)
    → (pick alphabet n bytes).1 ≤ n - length (filter (is_unbiased alphabet) bytes)
unfolding pick
pick-left alphabet zero bytes = omega arith
pick-left alphabet (suc n) [] = omega arith
pick-left alphabet (suc n) (b ∷ bytes) = elim (Bool-cases (ltb b (byte_limit alphabet))) [
  | inl taken ↦ rw taken (omega (arith, pick-left alphabet n bytes))
  | inr skipped ↦ rw skipped (pick-left alphabet (suc n) bytes)
]

abbrev pub unbiased : Alphabet → List (List ℕ) → ℕ
unbiased alphabet [] = 0
unbiased alphabet (bytes ∷ batches) =
    length (filter (is_unbiased alphabet) bytes) + unbiased alphabet batches

-- The loop ends: batches with as many bytes that are kept as characters are wanted give the string.
pub random_string_returns :
    (alphabet : Alphabet) (n : ℕ) (batches : List (List ℕ))
    → n ≤ unbiased alphabet batches
    → (out : List ℕ) × (random_string alphabet n batches ≡ some out) × (length out ≡ n)
unfolding random_string
random_string_returns alphabet zero batches enough = ([], refl, refl)
random_string_returns alphabet (suc n) [] enough = absurd (omega arith)
random_string_returns alphabet (suc n) (bytes ∷ batches) enough =
    let (more, is_more, size) =
      random_string_returns alphabet (pick alphabet (suc n) bytes).1 batches
        (omega (arith, enough, pick-left alphabet (suc n) bytes)) in
    (
      (pick alphabet (suc n) bytes).0 ++ more,
      rw is_more,
      omega (
        arith,
        length-append (pick alphabet (suc n) bytes).0 more,
        (pick_lem alphabet (suc n) bytes).0,
        size,
      ),
    )
