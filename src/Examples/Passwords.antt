-- ===== src/Examples/Passwords.antt =====
-- Passwords and addresses that are accepted and refused.
use api_provider.Prelude.{◌≡◌, refl, String, true, false, none, some}
use api_provider.Accounts.Passwords.{
  is_common_password, includes, letters_of, repeats, chunk_of, goes_on, one_line, is_email,
  no_space, has_inner_dot, is_reserved_email, ends_with,
}
use api_provider.Text.{utf16_size}
use api_provider.Wire.{split}
use api_provider.Keys.Format.{after_start}

abbrev unchanged : String → String
unchanged s = s

listed : is_common_password unchanged "administrator" none ≡ true
unfolding is_common_password includes letters_of repeats chunk_of goes_on one_line split after_start
listed = refl

repeated : is_common_password unchanged "abcabcabcabc" none ≡ true
unfolding is_common_password includes letters_of repeats chunk_of goes_on one_line split after_start
repeated = refl

repeated_in_part : is_common_password unchanged "abcabcabcab" none ≡ false
unfolding is_common_password includes letters_of repeats chunk_of goes_on one_line split after_start
repeated_in_part = refl

in_order : is_common_password unchanged "cdefghijklmn" none ≡ true
unfolding is_common_password includes letters_of repeats chunk_of goes_on one_line split after_start
in_order = refl

of_email : is_common_password unchanged "bat.dorj.99" (some "bat.dorj@mail.mn") ≡ true
unfolding is_common_password includes letters_of repeats chunk_of goes_on one_line utf16_size split
    after_start
of_email = refl

of_no_email : is_common_password unchanged "bat.dorj.99" none ≡ false
unfolding is_common_password includes letters_of repeats chunk_of goes_on one_line split after_start
of_no_email = refl

address : is_email "bat@mail.mn" ≡ true
unfolding is_email no_space has_inner_dot split
address = refl

no_dot : is_email "bat@mail" ≡ false
unfolding is_email no_space has_inner_dot split
no_dot = refl

two_signs : is_email "bat@mail@mail.mn" ≡ false
unfolding is_email no_space has_inner_dot split
two_signs = refl

reserved : is_reserved_email "bat@site.internal" ≡ true
unfolding is_reserved_email ends_with split
reserved = refl

free : is_reserved_email "bat@mail.mn" ≡ false
unfolding is_reserved_email ends_with split
free = refl
