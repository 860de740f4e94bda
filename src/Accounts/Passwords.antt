-- ===== src/Accounts/Passwords.antt =====
-- auth.ts and lib/commonPasswords.ts: the addresses and the passwords that can be chosen. Lower case is
-- a parameter, and the auth library calls `profile` with what a form has sent.
use Prim.Native.Char.{code}
use Prim.Native.String.{count}
use text.Mathlib.Text.{◌==◌ as str_eq}
use api_provider.Prelude.{
  ℕ, zero, suc, String, Bool, true, false, not, ◌&&◌, ◌||◌, Option, none, some, List, [], ◌∷◌,
}
use api_provider.Prelude.Tests.{leb, ◌==◌, if◌then◌else◌, is_some, get_or}
use api_provider.Prelude.Lists.{any}
use api_provider.Text.{is_space, trim, utf16_size}
use api_provider.Result.{Result, convex_error, ok, ◌>>◌, require}
use api_provider.Keys.Format.{after_start}
use api_provider.Wire.{split}

abbrev min_password_length : ℕ
min_password_length = 10

abbrev max_password_length : ℕ
max_password_length = 128

abbrev max_sign_up_name_length : ℕ
max_sign_up_name_length = 120

abbrev common : List String
common =
    "1234567890" ∷ "12345678910" ∷ "123456789012" ∷ "0123456789" ∷ "0987654321" ∷ "9876543210"
    ∷ "1111111111" ∷ "0000000000" ∷ "1234512345" ∷ "1122334455" ∷ "123123123123" ∷ "1q2w3e4r5t"
    ∷ "1qaz2wsx3edc" ∷ "qwertyuiop" ∷ "qwertyuiop123" ∷ "asdfghjkl1" ∷ "zxcvbnm123" ∷ "qwerty12345"
    ∷ "qwerty123456" ∷ "password12" ∷ "password123" ∷ "password1234" ∷ "password12345"
    ∷ "passw0rd123" ∷ "p@ssword123" ∷ "p@ssw0rd123" ∷ "iloveyou123" ∷ "princess123" ∷ "sunshine123"
    ∷ "football123" ∷ "baseball123" ∷ "superman123" ∷ "trustno1234" ∷ "letmein1234" ∷ "welcome123"
    ∷ "welcome1234" ∷ "changeme123" ∷ "administrator" ∷ "admin123456" ∷ "abcdefghij" ∷ "abcd123456"
    ∷ "abc1234567" ∷ "a1b2c3d4e5" ∷ "qazwsxedcrfv" ∷ "mongolia123" ∷ "ulaanbaatar" ∷ "ulaanbaatar1"
    ∷ "ulaanbaatar123" ∷ "geoplatform" ∷ "geoplatform1" ∷ "geoplatform123" ∷ "ubhub" ∷ "ubhubdev"
    ∷ "ubhubdev1" ∷ "ubhubdev123" ∷ "ubhublocation" ∷ "ubhublocationservice" ∷ "monmap"
    ∷ "monmap123" ∷ []

abbrev sequences : List String
sequences =
    "0123456789012345" ∷ "9876543210987654" ∷ "abcdefghijklmnopqrstuvwxyz"
    ∷ "qwertyuiopasdfghjklzxcvbnm" ∷ []

abbrev reserved_email_domains : List String
reserved_email_domains =
    ".internal" ∷ ".local" ∷ ".localhost" ∷ ".invalid" ∷ ".test" ∷ ".example" ∷ []

-- `text.includes(part)`
unfoldable pub includes : String → String → Bool
unfolding after_start
includes part String.[] = str_eq part ""
includes part (String.◌∷◌ c s) = is_some (after_start part (String.◌∷◌ c s)) || includes part s

-- `text.endsWith(suffix)`
unfoldable pub ends_with : String → String → Bool
ends_with suffix String.[] = str_eq suffix ""
ends_with suffix (String.◌∷◌ c s) = str_eq (String.◌∷◌ c s) suffix || ends_with suffix s

-- Without the characters that are not in [a-z].
unfoldable pub letters_of : String → String
letters_of String.[] = String.[]
letters_of (String.◌∷◌ c s) =
    let rest = letters_of s in
    if leb b'a' (code c) && leb (code c) b'z' then String.◌∷◌ c rest else rest

-- The first characters of a text, at most so many, and what follows them.
unfoldable pub chunk_of : ℕ → String → String × String
chunk_of zero s = (String.[], s)
chunk_of (suc n) String.[] = (String.[], String.[])
chunk_of (suc n) (String.◌∷◌ c s) = let r = chunk_of n s in (String.◌∷◌ c r.0, r.1)

-- Whether the text is what is left of a chunk, and then the chunk any number of times.
unfoldable pub goes_on : String → String → String → Bool
goes_on chunk String.[] String.[] = true
goes_on chunk (String.◌∷◌ p left) String.[] = false
goes_on chunk (String.◌∷◌ p left) (String.◌∷◌ c s) = code p == code c && goes_on chunk left s
goes_on String.[] String.[] (String.◌∷◌ c s) = false
goes_on (String.◌∷◌ p more) String.[] (String.◌∷◌ c s) =
    code p == code c && goes_on (String.◌∷◌ p more) more s

-- None of the line ends, which `.` does not match.
unfoldable pub one_line : String → Bool
one_line String.[] = true
one_line (String.◌∷◌ c s) =
    not (code c == 10 || code c == 13 || code c == 8232 || code c == 8233) && one_line s

-- A chunk of so many characters, twice or more.
unfoldable pub repeats : ℕ → String → Bool
unfolding chunk_of goes_on one_line
repeats n s =
    let (chunk, rest) = chunk_of n s in
    count chunk == n && one_line chunk && not (str_eq rest "") && goes_on chunk chunk rest

abbrev first_piece : List String → String
first_piece [] = ""
first_piece (piece ∷ pieces) = piece

abbrev last_piece : String → List String → String
last_piece default [] = default
last_piece default (piece ∷ pieces) = last_piece piece pieces

abbrev is_from_email : (String → String) → String → String → Bool
is_from_email lower password email =
    let name = lower (first_piece (split b'@' email)) in
    str_eq password (lower email)
    || (leb 4 (utf16_size name) && str_eq (letters_of password) (letters_of name))

unfoldable pub is_common_password : (String → String) → String → Option String → Bool
unfolding includes letters_of repeats split
is_common_password lower password email =
    let name = lower password in
    any (str_eq name) common
    || (repeats 1 name || repeats 2 name || repeats 3 name)
    || any (includes name) sequences
    || elim email [
      | none ↦ false
      | some address ↦ not (str_eq address "") && is_from_email lower name address
    ]

unfoldable pub validate_password : (String → String) → String → Option String → Result (Unit {0})
unfolding is_common_password
validate_password lower password email = do
  require (leb min_password_length (count password) && leb (count password) max_password_length)
      (convex_error "Password must be between 10 and 128 characters.")
  require (not (is_common_password lower password email))
      (convex_error "This password is too common or easy to guess. Choose a different one.")

unfoldable pub normalize_email : (String → String) → Option String → String
unfolding trim
normalize_email lower email = lower (trim (get_or email ""))

-- What comes after the last "@", or all of the address.
unfoldable pub is_reserved_email : String → Bool
unfolding split ends_with
is_reserved_email email =
    let domain = last_piece "" (split b'@' email) in
    any (λ suffix. ends_with suffix domain) reserved_email_domains

-- None of the characters is white space.
unfoldable pub no_space : String → Bool
no_space String.[] = true
no_space (String.◌∷◌ c s) = not (is_space (code c)) && no_space s

-- A dot that has characters on both sides.
unfoldable pub has_inner_dot : String → Bool
has_inner_dot String.[] = false
has_inner_dot (String.◌∷◌ c String.[]) = false
has_inner_dot (String.◌∷◌ c (String.◌∷◌ d s)) =
    (code d == b'.' && not (str_eq s "")) || has_inner_dot (String.◌∷◌ d s)

abbrev is_local_and_domain : List String → Bool
is_local_and_domain (name ∷ domain ∷ []) = not (str_eq name "") && has_inner_dot domain
is_local_and_domain _ = false

-- `EMAIL_PATTERN`: one "@", and no white space.
unfoldable pub is_email : String → Bool
unfolding no_space has_inner_dot split
is_email email = no_space email && is_local_and_domain (split b'@' email)

-- What a form sends. `email` is none where it is null or missing, and so is `name`; a password is none
-- unless it is a text.
pub record Params : Type 0 where
  pub flow : String
  pub email : Option String
  pub password : Option String
  pub new_password : Option String
  pub name : Option String

pub record Profile : Type 0 where
  pub email : String
  pub name : Option String
  pub updated_at : Option ℕ

abbrev chosen_password : Params → Option String
chosen_password params =
    if str_eq params.flow "signUp"
    then params.password
    else if str_eq params.flow "reset-verification"
    then params.new_password
    else none

abbrev check_chosen : (String → String) → String → Option String → Result (Unit {0})
check_chosen lower email none = ok tt
check_chosen lower email (some password) = validate_password lower password (some email)

abbrev sign_up_name : Params → String
sign_up_name params = trim (get_or params.name "")

unfoldable pub profile : (String → String) → Params → ℕ → Result Profile
unfolding normalize_email is_reserved_email is_email validate_password trim
profile lower params now = do
  let email = normalize_email lower params.email
  require (is_email email && leb (utf16_size email) 320 && not (is_reserved_email email))
      (convex_error "Enter a valid email address.")
  check_chosen lower email (chosen_password params)
  if str_eq params.flow "signUp"
      then (require
            (leb 1 (utf16_size (sign_up_name params))
              && leb (utf16_size (sign_up_name params)) max_sign_up_name_length)
            (convex_error "Name must be 1 to 120 characters.")
          >> ok
              (record { email = email; name = some (sign_up_name params); updated_at = some now }))
      else ok (record { email = email; name = none; updated_at = none })
