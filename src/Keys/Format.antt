-- ===== src/Keys/Format.antt =====
-- lib/keys.ts: names, prefixes and the format of keys.
use Prim.Native.Char.{code}
use Prim.Native.String.{◌++◌ as str_append, count}
use api_provider.Prelude.{ℕ, ◌+◌, ◌*◌, String, Bool, true, false, ◌&&◌, ◌||◌, Option, none, some}
use api_provider.Prelude.Tests.{leb, ◌==◌, if◌then◌else◌, get_or}
use api_provider.Text.{slice_to, utf16_size, trim, collapse}
use api_provider.Result.{Result, convex_error, ok, ◌>>◌, require}

abbrev pub key_start : String
key_start = "geo_"

abbrev pub key_secret_length : ℕ
key_secret_length = 32

abbrev pub key_visible_chars : ℕ
key_visible_chars = 4

abbrev pub playground_token_start : String
playground_token_start = "geo_pt_"

abbrev pub playground_token_length : ℕ
playground_token_length = 40

abbrev pub mask : String
mask = "••••••••••••"

abbrev pub max_key_name_length : ℕ
max_key_name_length = 100

abbrev pub playground_token_ttl_ms : ℕ
playground_token_ttl_ms = 15 * 60 * 1000

-- What follows a start, of a text that has it.
unfoldable pub after_start : String → String → Option String
after_start String.[] s = some s
after_start (String.◌∷◌ p more) String.[] = none
after_start (String.◌∷◌ p more) (String.◌∷◌ c s) =
    let rest = after_start more s in if code p == code c then rest else none

-- How long the match of `LEGACY_TYPE_PREFIX` is.
unfoldable pub head_length : String → ℕ
unfolding after_start
head_length secret = elim (after_start "geo_" secret) [
  | none ↦ 0
  | some rest ↦ elim (after_start "live_" rest) [
    | some other ↦ 9
    | none ↦ elim (after_start "test_" rest) [ some other ↦ 9 | none ↦ 4 ]
  ]
]

unfoldable pub key_prefix : String → String
unfolding head_length
key_prefix secret = slice_to (head_length secret + key_visible_chars) secret

abbrev pub masked_key : String → String
masked_key prefix = str_append prefix mask

abbrev is_letter_or_digit : ℕ → Bool
is_letter_or_digit c =
    (leb b'A' c && leb c b'Z') || (leb b'a' c && leb c b'z') || (leb b'0' c && leb c b'9')

all_letters_or_digits : String → Bool
all_letters_or_digits String.[] = true
all_letters_or_digits (String.◌∷◌ c s) = is_letter_or_digit (code c) && all_letters_or_digits s

abbrev is_secret_part : String → Bool
is_secret_part s = all_letters_or_digits s && count s == key_secret_length

-- `/^geo_(?:(?:live|test)_)?[A-Za-z0-9]{32}$/`
unfoldable pub is_valid_api_key : String → Bool
unfolding after_start all_letters_or_digits
is_valid_api_key secret = elim (after_start "geo_" secret) [
  | none ↦ false
  | some rest ↦
      is_secret_part rest
      || is_secret_part (get_or (after_start "live_" rest) "")
      || is_secret_part (get_or (after_start "test_" rest) "")
]

-- The error is the one that `validated` makes of it.
unfoldable pub clean_key_name : String → Result String
unfolding trim collapse utf16_size
clean_key_name name = do
  let cleaned : String = collapse false (trim name)
  require (leb 1 (utf16_size cleaned) && leb (utf16_size cleaned) max_key_name_length)
      (convex_error "Key name must be 1 to 100 characters.")
  ok cleaned
