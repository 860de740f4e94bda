-- ===== src/Crypto/Equality.antt =====
-- `timingSafeEqual` is equality.
use Prim.Native.Char.{code}
use Prim.Native.Nat.{bit_or, bit_xor, bit_or-bitwise, bit_xor-bitwise, digits, differ}
use text.Mathlib.TextEquality.{Char-path}
use api_provider.Prelude.{
  ℕ, zero, suc, ◌/◌, ◌%◌, ◌≤◌, ◌≡◌, refl, sym, ap, ◌∙◌, subst, String, true, List, [], ◌∷◌, ◌++◌,
  ◌↔◌, max, arith,
}
use api_provider.Prelude.Lists.{length}
use api_provider.Crypto.{utf8_char, utf8, diff_bytes, timing_safe_equal}

differ-zero : (x y : ℕ) → differ x y ≡ 0 → x ≡ y
differ-zero zero y h = sym h
differ-zero (suc x) zero h = h
differ-zero (suc x) (suc y) h = omega (arith, differ-zero x y h)

differ_self : (x : ℕ) → differ x x ≡ 0
differ_self zero = refl
differ_self (suc x) = differ_self x

xor_digits-zero : (n a b : ℕ) → a ≤ n → digits (λ b. b) differ n a b ≡ 0 → a ≡ b
xor_digits-zero zero a b h e = omega arith
xor_digits-zero (suc n) zero b h e = sym e
xor_digits-zero (suc n) (suc a) b h e = omega (
  arith,
  xor_digits-zero n (suc a / 2) (b / 2) (omega arith) (omega arith),
  differ-zero (suc a % 2) (b % 2) (omega arith),
)

xor_digits_self : (n a : ℕ) → a ≤ n → digits (λ b. b) differ n a a ≡ 0
xor_digits_self zero a h = omega arith
xor_digits_self (suc n) zero h = refl
xor_digits_self (suc n) (suc a) h =
    omega (arith, xor_digits_self n (suc a / 2) (omega arith), differ_self (suc a % 2))

or_digits-zero : (n a b : ℕ) → a ≤ n → digits (λ b. b) max n a b ≡ 0 → (a ≡ 0) × (b ≡ 0)
or_digits-zero zero a b h e = (omega arith, e)
or_digits-zero (suc n) zero b h e = (refl, e)
or_digits-zero (suc n) (suc a) b h e =
    omega (arith, or_digits-zero n (suc a / 2) (b / 2) (omega arith) (omega arith))

xor-zero : (a b : ℕ) → bit_xor a b ≡ 0 → a ≡ b
xor-zero a b h = xor_digits-zero a a b (omega arith) (sym (λ i. bit_xor-bitwise a b i) ∙ h)

xor_self : (a : ℕ) → bit_xor a a ≡ 0
xor_self a = (λ i. bit_xor-bitwise a a i) ∙ xor_digits_self a a (omega arith)

or-zero : (a b : ℕ) → bit_or a b ≡ 0 → (a ≡ 0) × (b ≡ 0)
or-zero a b h = or_digits-zero a a b (omega arith) (sym (λ i. bit_or-bitwise a b i) ∙ h)

-- Nothing clears what has been found to differ.
diff_bytes-start : (ls rs : List ℕ) (diff : ℕ) → diff_bytes ls rs diff ≡ 0 → diff ≡ 0
unfolding diff_bytes
diff_bytes-start [] [] diff h = h
diff_bytes-start (l ∷ ls) [] diff h = (or-zero diff _ (diff_bytes-start ls [] _ h)).0
diff_bytes-start [] (r ∷ rs) diff h = (or-zero diff _ (diff_bytes-start [] rs _ h)).0
diff_bytes-start (l ∷ ls) (r ∷ rs) diff h = (or-zero diff _ (diff_bytes-start ls rs _ h)).0

pub diff_bytes-zero :
    (ls rs : List ℕ) (diff : ℕ)
    → diff_bytes ls rs diff ≡ 0
    → length ls ≡ length rs
    → (diff ≡ 0) × (ls ≡ rs)
unfolding diff_bytes
diff_bytes-zero [] [] diff h same = (h, refl)
diff_bytes-zero (l ∷ ls) [] diff h same = absurd (omega (arith, same))
diff_bytes-zero [] (r ∷ rs) diff h same = absurd (omega (arith, same))
diff_bytes-zero (l ∷ ls) (r ∷ rs) diff h same =
    let (none_yet, rest) =
      diff_bytes-zero ls rs (bit_or diff (bit_xor l r)) h (omega (arith, same)) in
    let (before, here) = or-zero diff (bit_xor l r) none_yet in
    (before, ap (λ b. b ∷ ls) (xor-zero l r here) ∙ ap (λ bs. r ∷ bs) rest)

diff_bytes_self : (ls : List ℕ) → diff_bytes ls ls 0 ≡ 0
unfolding diff_bytes
diff_bytes_self [] = refl
diff_bytes_self (l ∷ ls) = rw (xor_self l) (diff_bytes_self ls)

utf8_char-cancel :
    (c d : ℕ) (r r' : List ℕ) → (utf8_char c ++ r) ≡ (utf8_char d ++ r') → (c ≡ d) × (r ≡ r')
unfolding utf8_char
utf8_char-cancel c d r r' h = ground arith

utf8_char-some : (c : ℕ) (r : List ℕ) → ¬ ((utf8_char c ++ r) ≡ [])
unfolding utf8_char
utf8_char-some c r h = ground arith

utf8-injective : (s t : String) → utf8 s ≡ utf8 t → s ≡ t
unfolding utf8
utf8-injective String.[] String.[] h = refl
utf8-injective String.[] (String.◌∷◌ d t) h = absurd (utf8_char-some (code d) (utf8 t) (sym h))
utf8-injective (String.◌∷◌ c s) String.[] h = absurd (utf8_char-some (code c) (utf8 s) h)
utf8-injective (String.◌∷◌ c s) (String.◌∷◌ d t) h =
    let (same, rest) = utf8_char-cancel (code c) (code d) (utf8 s) (utf8 t) h in
    ap (λ x. String.◌∷◌ x s) (Char-path c d same) ∙ ap (String.◌∷◌ d) (utf8-injective s t rest)

-- `timingSafeEqual` answers true on equal strings and on no others.
pub timing_safe_equal_lem : (a b : String) → (timing_safe_equal a b ≡ true) ↔ (a ≡ b)
unfolding timing_safe_equal
timing_safe_equal_lem a b = (to, λ same. subst (λ c. timing_safe_equal a c ≡ true) same itself)
  where
    to : timing_safe_equal a b ≡ true → a ≡ b
    to h =
        let none_differs : diff_bytes (utf8 a) (utf8 b)
              (bit_xor (length (utf8 a)) (length (utf8 b)))
            ≡ 0 =
          ground (arith, h) in
        let same_length = xor-zero _ _ (diff_bytes-start (utf8 a) (utf8 b) _ none_differs) in
        utf8-injective a b (diff_bytes-zero (utf8 a) (utf8 b) _ none_differs same_length).1

    itself : timing_safe_equal a a ≡ true
    itself = rw (xor_self (length (utf8 a)), diff_bytes_self (utf8 a)) refl
