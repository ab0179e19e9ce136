-- ===== src/Numerals/Runs.antt =====
-- Numbers as RFC 8785 writes them.
use seam_sdk.Prelude.{◌^◌, ◌≡◌, refl, codes, ok, err, value_error}
use seam_sdk.Prelude.Int.{pos, negsuc, ◌+ℤ◌}
use seam_sdk.Decision.{decimal}
use seam_sdk.Numerals.{jcs_number, jcs_int}
use seam_sdk.Numerals.Reads.{jcs_int-itself}

one : jcs_number 0x3ff0000000000000 ≡ ok (codes "1")
unfolding jcs_number ◌+ℤ◌ decimal
one = refl

tenth : jcs_number 0x3fb999999999999a ≡ ok (codes "0.1")
unfolding jcs_number ◌+ℤ◌ decimal
tenth = refl

smallest : jcs_number 1 ≡ ok (codes "5e-324")
unfolding jcs_number ◌+ℤ◌ decimal
smallest = refl

largest : jcs_number 0x7fefffffffffffff ≡ ok (codes "1.7976931348623157e+308")
unfolding jcs_number ◌+ℤ◌ decimal
largest = refl

negative_zero : jcs_number 0x8000000000000000 ≡ ok (codes "0")
unfolding jcs_number
negative_zero = refl

infinite : jcs_number 0x7ff0000000000000 ≡ err value_error
unfolding jcs_number
infinite = refl

-- 2 ^ 60 is a double, but is written as another number; 10 ^ 20 is written as itself.
skewed : jcs_int (pos 1152921504606846976) ≡ err value_error
unfolding jcs_int ◌+ℤ◌ decimal
skewed = refl

round_number : jcs_int (negsuc 99999999999999999999) ≡ ok (codes "-100000000000000000000")
unfolding jcs_int ◌+ℤ◌ decimal
round_number = refl

sextillion : jcs_int (pos 1000000000000000000000) ≡ err value_error
unfolding jcs_int ◌+ℤ◌ decimal
sextillion = refl

too_large : jcs_int (pos (2 ^ 1024)) ≡ err value_error
unfolding jcs_int
too_large = refl

jcs_int-itself_example : codes "-100000000000000000000" ≡ decimal (negsuc 99999999999999999999)
jcs_int-itself_example =
    jcs_int-itself (negsuc 99999999999999999999) (codes "-100000000000000000000") round_number
