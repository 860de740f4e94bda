-- ===== src/Bucket.antt =====
-- The bucket names of counters, such as `key:${key._id}:endpoint:${name}`, as the list of their
-- segments. Ids and hashes hold no colon, and only a last segment is free text, so two names are
-- equal when their segments are.
use text.Mathlib.Text.{◌==◌ as str_eq}
use text.Mathlib.TextEquality.{eq_iff}
use text.Mathlib.TextPositions.{eq_refl}
use api_provider.Prelude.{ℕ, ◌≡◌, refl, ap, String, Bool, true, false, ◌&&◌, List, [], ◌∷◌, arith}
use api_provider.Prelude.Tests.{◌==◌}

pub data Segment : Type 0 where
  word : String → Segment
  id : ℕ → Segment

abbrev pub Bucket : Type 0
Bucket = List Segment

abbrev pub same_segment : Segment → Segment → Bool
same_segment (word s) (word t) = str_eq s t
same_segment (id i) (id j) = i == j
same_segment _ _ = false

abbrev pub same_bucket : Bucket → Bucket → Bool
same_bucket [] [] = true
same_bucket (a ∷ xs) (b ∷ ys) = same_segment a b && same_bucket xs ys
same_bucket _ _ = false

pub same_segment_sound : (a b : Segment) → same_segment a b ≡ true → a ≡ b
same_segment_sound (word s) (word t) h = ap word ((eq_iff s t).0 h)
same_segment_sound (id i) (id j) h = ground arith
same_segment_sound (word s) (id j) h = cc
same_segment_sound (id i) (word t) h = cc

pub same_segment_refl : (a : Segment) → same_segment a a ≡ true
same_segment_refl (word s) = eq_refl s
same_segment_refl (id i) = ground arith

pub same_bucket_refl : (b : Bucket) → same_bucket b b ≡ true
same_bucket_refl [] = refl
same_bucket_refl (a ∷ b) = ground (arith, same_segment_refl a, same_bucket_refl b)

pub same_bucket_sound : (a b : Bucket) → same_bucket a b ≡ true → a ≡ b
same_bucket_sound [] [] h = refl
same_bucket_sound [] (b ∷ ys) h = cc
same_bucket_sound (a ∷ xs) [] h = cc
same_bucket_sound (a ∷ xs) (b ∷ ys) h =
    ground (arith, same_segment_sound a b, same_bucket_sound xs ys)
