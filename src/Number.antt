-- ===== src/Number.antt =====
-- JavaScript numbers, as far as the backend reads them. A finite double is a whole multiple of the
-- least one, 2 ^ -1074: `finite n` is n of these and `negative n` is n below zero. Sums and
-- differences are exact here (the source's stay far below 2 ^ 53).
use api_provider.Prelude.{ℕ, suc, ◌*◌, ◌/◌, ◌^◌, ◌≤◌, ◌<◌, arith}
use native.Mathlib.Decide.{dec_le}
use api_provider.Prelude.Tests.{ltb, leb, if◌then◌else◌}

pub data Number : Type 0 where
  nan infinite minus_infinite : Number
  finite negative : ℕ → Number

-- The number 1.
unfoldable pub one : ℕ
one = 2 ^ 1074

-- A whole number.
abbrev pub units : ℕ → ℕ
units n = n * one

-- `Math.floor` of a number that is not negative.
abbrev pub floor : ℕ → ℕ
floor n = units (n / one)

-- `Number.isFinite(value) && value > 0 ? value : fallback`
unfoldable pub positive_or : ℕ → Number → ℕ
positive_or fallback (finite n) = if ltb 0 n then n else units fallback
positive_or fallback _ = units fallback

-- `Number.isFinite(value) && value >= 1 ? Math.floor(value) : fallback`
unfoldable pub whole_or : ℕ → Number → ℕ
whole_or fallback (finite n) = if leb one n then n / one else fallback
whole_or fallback _ = fallback

pub one-pos : 0 < one
unfolding one
one-pos = omega arith

pub units_mono : (a b : ℕ) → a ≤ b → units a ≤ units b
units_mono a b h = grind arith

pub units-lt : (a b : ℕ) → units a < units b → a < b
units-lt a b h = grind (arith, units_mono)

pub units-cancel : (a b : ℕ) → units a ≤ units b → a ≤ b
units-cancel a b h = elim (dec_le a b) [
  | yes p ↦ p
  | no p ↦ absurd (omega (arith, units_mono (suc b) a (omega arith), one-pos))
]

pub floor-le : (n : ℕ) → floor n ≤ n
floor-le n = grind arith

-- A whole number is within a limit when it is within the limit's whole part.
pub le-of-units : (k limit : ℕ) → units k ≤ limit → k ≤ limit / one
le-of-units k limit h = grind (arith, one-pos)

pub units-le : (k limit : ℕ) → k ≤ limit / one → units k ≤ limit
units-le k limit h = grind (arith, one-pos)
