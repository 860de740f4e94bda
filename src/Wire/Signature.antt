-- ===== src/Wire/Signature.antt =====
-- What a webhook that is accepted has shown.
use Prim.Native.String.{◌++◌ as str_append}
use text.Mathlib.Text.{◌==◌ as str_eq}
use mathlib.Core.Bool.{and-eq-true_iff}
use api_provider.Prelude.{
  ℕ, ◌+◌, ◌*◌, ◌≤◌, ◌≡◌, refl, ap, ◌∙◌, String, true, not, ◌&&◌, Option, none, some, List, arith,
}
use api_provider.Prelude.Tests.{◌==◌, is_some, and_then-eq-some, only_if-eq-some}
use api_provider.Prelude.Lists.{length}
use api_provider.Crypto.{diff_bytes}
use api_provider.Crypto.Equality.{diff_bytes-zero}
use api_provider.Wire.{
  bytes_equal, entry, entries_of, seconds_of, signature_bytes, is_recent, signed_by, signed_time,
  verify_wire_signature,
}

bytes_equal_lem : (a b : List ℕ) → bytes_equal a b ≡ true → a ≡ b
unfolding bytes_equal
bytes_equal_lem a b h =
    let (same_length, none_differs) =
      (and-eq-true_iff (length a == length b) (diff_bytes a b 0 == 0)).0 h in
    (diff_bytes-zero a b 0 (ground (arith, none_differs)) (ground (arith, same_length))).1

is_recent-bounds :
    (now seconds : ℕ)
    → is_recent now seconds ≡ true
    → (now ≤ 1000 * seconds + 300000) × (1000 * seconds ≤ now + 300000)
is_recent-bounds now seconds h = ground arith

-- What is read of the header: a time and a signature, both of which pass.
pub record Signed (hmac : String → String → List ℕ) (body : String) (entries : List (List String))
    (secret : String) (now : ℕ) : Type 0 where
  pub timestamp : String
  pub signature : String
  pub seconds : ℕ
  pub timed : entry "t" entries ≡ some timestamp
  pub signs : entry "v1" entries ≡ some signature
  pub counted : seconds_of timestamp ≡ some seconds
  pub recent : (now ≤ 1000 * seconds + 300000) × (1000 * seconds ≤ now + 300000)
  pub matches :
      signature_bytes signature ≡ some (hmac secret (str_append timestamp (str_append "." body)))

signed_time-Signed :
    (hmac : String → String → List ℕ) (body : String) (entries : List (List String))
    (secret : String) (now time : ℕ)
    → signed_time hmac body entries secret now ≡ some time
    → Signed hmac body entries secret now
unfolding signed_time
signed_time-Signed hmac body entries secret now time h =
    let (timestamp, timed, h1) = and_then-eq-some (entry "t" entries) _ h in
    let (signature, signs, h2) = and_then-eq-some (entry "v1" entries) _ h1 in
    let (actual, decoded, h3) = and_then-eq-some (signature_bytes signature) _ h2 in
    let (seconds, counted, h4) = and_then-eq-some (seconds_of timestamp) _ h3 in
    let (near, h5) = only_if-eq-some (is_recent now seconds) _ h4 in
    let (same, _) = only_if-eq-some (signed_by hmac secret timestamp body actual) _ h5 in
    record {
      timestamp = timestamp;
      signature = signature;
      seconds = seconds;
      timed = timed;
      signs = signs;
      counted = counted;
      recent = is_recent-bounds now seconds near;
      matches = decoded ∙ ap some (bytes_equal_lem actual _ same);
    }

some_of : {A : Type 0} (o : Option A) → is_some o ≡ true → (a : A) × (o ≡ some a)
some_of none h = cc
some_of (some a) h = (a, refl)

-- A webhook is accepted only with a signature that is the HMAC, under the secret, of the time that the
-- header gives and the body, where that time is at most 300 seconds from now.
pub verify_wire_signature-Signed :
    (hmac : String → String → List ℕ) (body header secret : String) (now : ℕ)
    → verify_wire_signature hmac body (some header) secret now ≡ true
    → Signed hmac body (entries_of header) secret now
unfolding verify_wire_signature
verify_wire_signature-Signed hmac body header secret now h =
    let given = not (str_eq header "") && not (str_eq secret "") in
    let passes =
      ((and-eq-true_iff given (is_some (signed_time hmac body (entries_of header) secret now))).0
        h).1 in
    let (time, found) = some_of (signed_time hmac body (entries_of header) secret now) passes in
    signed_time-Signed hmac body (entries_of header) secret now time found
