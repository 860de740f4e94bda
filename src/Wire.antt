-- ===== src/Wire.antt =====
-- lib/wire.ts: the signature of the payment provider's webhook. HMAC-SHA256 of two texts, as bytes, is
-- a parameter: it is Web Crypto's.
pub mod Signature
use Prim.Native.Char.{code}
use Prim.Native.String.{◌++◌ as str_append, count}
use text.Mathlib.Text.{◌==◌ as str_eq}
use api_provider.Prelude.{
  ℕ, ◌+◌, ◌-◌, ◌*◌, ◌^◌, String, Bool, true, false, not, ◌&&◌, ◌||◌, Option, none, some, List, [],
  ◌∷◌, map,
}
use api_provider.Prelude.Tests.{ltb, leb, ◌==◌, if◌then◌else◌, and_then, only_if, is_some}
use api_provider.Prelude.Lists.{length}
use api_provider.Text.{trim}
use api_provider.Crypto.{diff_bytes}

-- `timingSafeEqual` on bytes.
unfoldable pub bytes_equal : List ℕ → List ℕ → Bool
unfolding diff_bytes
bytes_equal a b = length a == length b && diff_bytes a b 0 == 0

-- Puts a character in front of the first piece.
abbrev before_first : String → List String → List String
before_first c [] = c ∷ []
before_first c (piece ∷ pieces) = str_append c piece ∷ pieces

-- `split(separator)`
unfoldable pub split : ℕ → String → List String
split separator String.[] = "" ∷ []
split separator (String.◌∷◌ c s) =
    let rest = split separator s in
    if code c == separator then "" ∷ rest else before_first (String.◌∷◌ c "") rest

-- `entries.find(([name]) => name === wanted)?.[1]`
abbrev second_piece : List String → Option String
second_piece (name ∷ value ∷ more) = some value
second_piece _ = none

abbrev is_named : String → List String → Bool
is_named wanted [] = false
is_named wanted (name ∷ more) = str_eq name wanted

abbrev pub entry : String → List (List String) → Option String
entry wanted [] = none
entry wanted (pieces ∷ entries) =
    let later = entry wanted entries in
    if is_named wanted pieces then second_piece pieces else later

unfoldable pub entries_of : String → List (List String)
unfolding split trim
entries_of header = map (λ s. split b'=' (trim s)) (split b',' header)

-- The number that decimal digits write, if these are all.
unfoldable pub decimal_from : ℕ → String → Option ℕ
decimal_from n String.[] = some n
decimal_from n (String.◌∷◌ c s) =
    let rest = decimal_from (n * 10 + (code c - b'0')) s in
    if leb b'0' (code c) && leb (code c) b'9' then rest else none

-- `/^\d+$/`, and `Number` of it where it is a safe integer.
abbrev pub max_safe_integer : ℕ
max_safe_integer = 2 ^ 53 - 1

unfoldable pub seconds_of : String → Option ℕ
unfolding decimal_from
seconds_of s =
    if str_eq s ""
    then none
    else and_then (decimal_from 0 s) (λ n. if leb n max_safe_integer then some n else none)

abbrev pub hex_digit : ℕ → Option ℕ
hex_digit c =
    if leb b'0' c && leb c b'9'
    then some (c - b'0')
    else if leb b'a' c && leb c b'f'
    then some (c - b'a' + 10)
    else if leb b'A' c && leb c b'F'
    then some (c - b'A' + 10)
    else none

-- The bytes that pairs of hexadecimal digits write, if these are all.
unfoldable pub hex_bytes : String → Option (List ℕ)
hex_bytes String.[] = some []
hex_bytes (String.◌∷◌ c String.[]) = none
hex_bytes (String.◌∷◌ c (String.◌∷◌ d s)) =
    let rest = hex_bytes s in
    and_then (hex_digit (code c)) (λ high.
      and_then (hex_digit (code d))
        (λ low. and_then rest (λ bytes. some ((high * 16 + low) ∷ bytes))))

-- `/^[a-f\d]{64}$/i`
unfoldable pub signature_bytes : String → Option (List ℕ)
unfolding hex_bytes
signature_bytes s = if count s == 64 then hex_bytes s else none

-- Not more than 300 seconds from now.
abbrev pub is_recent : ℕ → ℕ → Bool
is_recent now seconds = leb now (1000 * seconds + 300000) && leb (1000 * seconds) (now + 300000)

abbrev pub signed_by : (String → String → List ℕ) → String → String → String → List ℕ → Bool
signed_by hmac secret timestamp body actual =
    bytes_equal actual (hmac secret (str_append timestamp (str_append "." body)))

-- The time of a header that passes.
unfoldable pub signed_time :
    (String → String → List ℕ) → String → List (List String) → String → ℕ → Option ℕ
unfolding seconds_of signature_bytes bytes_equal
signed_time hmac body entries secret now = and_then (entry "t" entries) (λ timestamp.
    and_then (entry "v1" entries) (λ signature. and_then (signature_bytes signature) (λ actual.
      and_then (seconds_of timestamp) (λ seconds.
        only_if (is_recent now seconds)
          (only_if (signed_by hmac secret timestamp body actual) (some seconds))))))

unfoldable pub verify_wire_signature :
    (String → String → List ℕ) → String → Option String → String → ℕ → Bool
unfolding signed_time entries_of
verify_wire_signature hmac body none secret now = false
verify_wire_signature hmac body (some header) secret now =
    not (str_eq header "")
    && not (str_eq secret "")
    && is_some (signed_time hmac body (entries_of header) secret now)
