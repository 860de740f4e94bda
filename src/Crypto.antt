-- ===== src/Crypto.antt =====
-- lib/crypto.ts. The bytes that `crypto.getRandomValues` gives are an argument, batch by batch;
-- `utf8` stands for JavaScript's TextEncoder.
pub mod Equality
pub mod Random
use Prim.Native.Char.{code}
use Prim.Native.Nat.{bit_or, bit_xor}
use api_provider.Prelude.{
  ℕ, zero, suc, ◌+◌, ◌-◌, ◌*◌, ◌/◌, ◌%◌, String, Bool, true, false, Option, none, some, List, [],
  ◌∷◌, ◌++◌,
}
use api_provider.Prelude.Tests.{ltb, leb, ◌==◌, if◌then◌else◌, and_then}
use api_provider.Prelude.Lists.{length}

-- The bytes of a character.
unfoldable pub utf8_char : ℕ → List ℕ
utf8_char c =
    if ltb c 128
    then c ∷ []
    else if ltb c 2048
    then (192 + c / 64) ∷ (128 + c % 64) ∷ []
    else if ltb c 65536
    then (224 + c / 4096) ∷ (128 + c / 64 % 64) ∷ (128 + c % 64) ∷ []
    else (240 + c / 262144) ∷ (128 + c / 4096 % 64) ∷ (128 + c / 64 % 64) ∷ (128 + c % 64) ∷ []

unfoldable pub utf8 : String → List ℕ
utf8 String.[] = []
utf8 (String.◌∷◌ c s) = utf8_char (code c) ++ utf8 s

-- The loop over both, where a list that has ended gives zeros.
unfoldable pub diff_bytes : List ℕ → List ℕ → ℕ → ℕ
diff_bytes [] [] diff = diff
diff_bytes (l ∷ ls) [] diff = diff_bytes ls [] (bit_or diff (bit_xor l 0))
diff_bytes [] (r ∷ rs) diff = diff_bytes [] rs (bit_or diff (bit_xor 0 r))
diff_bytes (l ∷ ls) (r ∷ rs) diff = diff_bytes ls rs (bit_or diff (bit_xor l r))

unfoldable pub timing_safe_equal : String → String → Bool
unfolding diff_bytes utf8 utf8_char
timing_safe_equal a b =
    diff_bytes (utf8 a) (utf8 b) (bit_xor (length (utf8 a)) (length (utf8 b))) == 0

-- The two alphabets that are passed: BASE62 and the ten digits.
pub data Alphabet : Type 0 where
  base62 decimal : Alphabet

abbrev pub size : Alphabet → ℕ
size base62 = 62
size decimal = 10

-- `alphabet[i]`
abbrev pub letter : Alphabet → ℕ → ℕ
letter base62 i =
    if ltb i 26 then b'A' + i else if ltb i 52 then b'a' + (i - 26) else b'0' + (i - 52)
letter decimal i = b'0' + i

abbrev pub unbiased_limit : ℕ
unbiased_limit = 248

abbrev pub byte_limit : Alphabet → ℕ
byte_limit base62 = unbiased_limit
byte_limit decimal = 256 - 256 % size decimal

-- The `for` over one batch: what it gives, and how many characters are still wanted.
unfoldable pub pick : Alphabet → ℕ → List ℕ → List ℕ × ℕ
pick alphabet zero bytes = ([], 0)
pick alphabet (suc n) [] = ([], suc n)
pick alphabet (suc n) (b ∷ bytes) =
    let taken = pick alphabet n bytes in
    let skipped = pick alphabet (suc n) bytes in
    if ltb b (byte_limit alphabet)
    then (letter alphabet (b % size alphabet) ∷ taken.0, taken.1)
    else skipped

-- The `while` over the batches, as far as these go.
unfoldable pub random_string : Alphabet → ℕ → List (List ℕ) → Option (List ℕ)
unfolding pick
random_string alphabet zero batches = some []
random_string alphabet (suc n) [] = none
random_string alphabet (suc n) (bytes ∷ batches) =
    let (found, rest) = pick alphabet (suc n) bytes in
    and_then (random_string alphabet rest batches) (λ more. some (found ++ more))
