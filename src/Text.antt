-- ===== src/Text.antt =====
-- `slice(0, n)` of JavaScript's strings, which counts UTF-16 units. A character beyond the first
-- 65536 has two, and is left out where only one of them would be kept.
use Prim.Native.Char.{code}
use api_provider.Prelude.{ℕ, ◌+◌, ◌-◌, String, Bool, true, false, ◌&&◌, ◌||◌}
use api_provider.Prelude.Tests.{leb, ◌==◌, if◌then◌else◌}

abbrev utf16_length : ℕ → ℕ
utf16_length c = if leb c 65535 then 1 else 2

unfoldable pub slice_to : ℕ → String → String
slice_to n String.[] = String.[]
slice_to n (String.◌∷◌ c s) =
    let width = utf16_length (code c) in
    let rest = slice_to (n - width) s in if leb width n then String.◌∷◌ c rest else String.[]

-- `length`
unfoldable pub utf16_size : String → ℕ
utf16_size String.[] = 0
utf16_size (String.◌∷◌ c s) = utf16_length (code c) + utf16_size s

-- White space, as `trim` and `\s` have it.
abbrev pub is_space : ℕ → Bool
is_space c =
    (leb 9 c && leb c 13)
    || c == 32
    || c == 160
    || c == 5760
    || (leb 8192 c && leb c 8202)
    || c == 8232
    || c == 8233
    || c == 8239
    || c == 8287
    || c == 12288
    || c == 65279

abbrev is_empty : String → Bool
is_empty String.[] = true
is_empty (String.◌∷◌ c s) = false

unfoldable pub trim_start : String → String
trim_start String.[] = String.[]
trim_start (String.◌∷◌ c s) =
    let rest = trim_start s in if is_space (code c) then rest else String.◌∷◌ c s

unfoldable pub trim_end : String → String
trim_end String.[] = String.[]
trim_end (String.◌∷◌ c s) =
    let rest = trim_end s in
    if is_empty rest && is_space (code c) then String.[] else String.◌∷◌ c rest

unfoldable pub trim : String → String
unfolding trim_start trim_end
trim s = trim_end (trim_start s)

-- `replace(/\s+/g, " ")`; the first argument says whether the character before was a space.
unfoldable pub collapse : Bool → String → String
collapse after_space String.[] = String.[]
collapse after_space (String.◌∷◌ c s) =
    let after = collapse true s in
    let plain = String.◌∷◌ c (collapse false s) in
    if is_space (code c) then (if after_space then after else String.◌∷◌ " " after) else plain
