-- ===== src/Numerals.antt =====
-- `_jcs_number` and `_jcs_int` of `python/seam_sdk/crypto.py`: how RFC 8785 writes a number.
pub mod Reads
pub mod Literal
mod Runs
use seam_sdk.Prelude.{
  ℕ, zero, suc, ◌+◌, ◌-◌, ◌*◌, ◌/◌, ◌%◌, ◌^◌, Option, none, some, List, [], ◌∷◌, ◌++◌, length,
  codes, bytes_eq, ltb, leb, ◌==◌, ◌&&◌, not, if◌then◌else◌, Bool, true, false, Result, ok, err,
  value_error, ◌>>=◌,
}
use seam_sdk.Prelude.Int.{ℤ, pos, negsuc, pos_part, neg_part, ◌+ℤ◌}
use seam_sdk.Bytes.{Bytes, Text}
use seam_sdk.Tct.{exponent_of, fraction_of, is_negative}
use seam_sdk.Decision.{decimal}
use seam_sdk.Presentation.{take, drop}

-- A finite double is `significand * 2 ^ (exponent_field - 1075)`.
unfoldable pub exponent_field : ℕ → ℕ
exponent_field bits = if exponent_of bits == 0 then 1 else exponent_of bits

unfoldable pub significand : ℕ → ℕ
significand bits = if exponent_of bits == 0 then fraction_of bits else 2 ^ 52 + fraction_of bits

-- Its magnitude is `numerator / denominator`, and one unit in its last place is `unit / denominator`.
unfoldable pub unit : ℕ → ℕ
unfolding exponent_field
unit bits = 2 ^ (exponent_field bits - 1075)

unfoldable pub denominator : ℕ → ℕ
unfolding exponent_field
denominator bits = 2 ^ (1075 - exponent_field bits)

unfoldable pub numerator : ℕ → ℕ
unfolding significand unit
numerator bits = significand bits * unit bits

-- Four times the ends of what rounds to it. Below a power of two the doubles are twice as dense.
unfoldable pub low_end : ℕ → ℕ
unfolding numerator unit
low_end bits =
    4 * numerator bits
    - (if fraction_of bits == 0 && ltb 1 (exponent_of bits) then unit bits else 2 * unit bits)

unfoldable pub high_end : ℕ → ℕ
unfolding numerator unit
high_end bits = 4 * numerator bits + 2 * unit bits

-- `float(c * 10 ** q)` is this double: a tie goes to the even significand.
unfoldable pub reads_back : ℕ → ℕ → ℤ → Bool
unfolding denominator low_end high_end significand
reads_back bits c q =
    let value = 4 * (c * 10 ^ pos_part q * denominator bits) in
    let low = low_end bits * 10 ^ neg_part q in
    let high = high_end bits * 10 ^ neg_part q in
    if significand bits % 2 == 0
    then leb low value && leb value high
    else ltb low value && ltb value high

-- The magnitude in units of `10 ** q`, as a quotient.
unfoldable pub scaled : ℕ → ℤ → ℕ
unfolding numerator
scaled bits q = numerator bits * 10 ^ neg_part q

unfoldable pub scale_unit : ℕ → ℤ → ℕ
unfolding denominator
scale_unit bits q = denominator bits * 10 ^ pos_part q

-- Of the two multiples around the magnitude the nearer, and the even one of two that are as near.
unfoldable pub nearer : ℕ → ℤ → ℕ → ℕ
unfolding scaled scale_unit
nearer bits q c =
    let twice = 2 * (scaled bits q - c * scale_unit bits q) in
    if ltb twice (scale_unit bits q)
    then c
    else if ltb (scale_unit bits q) twice
    then c + 1
    else if c % 2 == 0
    then c
    else c + 1

-- The multiple of `10 ** q` that reads back as the double, if one does.
unfoldable pub multiple : ℕ → ℤ → Option ℕ
unfolding reads_back nearer scaled scale_unit
multiple bits q =
    let c = scaled bits q / scale_unit bits q in
    let below = ltb 0 c && reads_back bits c q in
    let above = reads_back bits (c + 1) q in
    if below && above
    then some (nearer bits q c)
    else if below
    then some c
    else if above
    then some (c + 1)
    else none

-- All digits of the double.
unfoldable pub exact : ℕ → ℕ × ℤ
unfolding significand unit exponent_field
exact bits = (
  significand bits * unit bits * 5 ^ (1075 - exponent_field bits),
  (if leb 1075 (exponent_field bits) then pos 0 else negsuc (1074 - exponent_field bits)),
)

-- The digits of `repr`: the fewest that read back, so the largest power of ten of which a multiple does.
unfoldable pub search : ℕ → ℕ → ℤ → ℕ × ℤ
unfolding multiple exact
search bits zero q = exact bits
search bits (suc fuel) q = elim (multiple bits q) [
  | some c ↦ (c, q)
  | none ↦ search bits fuel (q +ℤ negsuc 0)
]

-- From 10 ** 309 down; a double has at most seventeen such digits, so 10 ** -341 is far enough.
unfoldable pub shortest : ℕ → ℕ × ℤ
unfolding search
shortest bits = search bits 651 (pos 309)

-- `raw.rstrip("0") or "0"`.
unfoldable pub rstrip_zeros : Text → Text
rstrip_zeros [] = []
rstrip_zeros (c ∷ s) = elim (rstrip_zeros s) [
  | [] ↦ if c == b'0' then [] else c ∷ []
  | d ∷ t ↦ c ∷ d ∷ t
]

unfoldable pub or_zero : Text → Text
or_zero [] = b'0' ∷ []
or_zero (c ∷ s) = c ∷ s

unfoldable pub zeros : ℕ → Text
zeros zero = []
zeros (suc n) = b'0' ∷ zeros n

-- `abs(e)` under its sign.
unfoldable pub exponent_text : ℤ → Text
exponent_text (pos e) = b'+' ∷ decimal (pos e)
exponent_text (negsuc e) = b'-' ∷ decimal (pos (suc e))

unfoldable pub scientific : Text → ℤ → Text
unfolding exponent_text take drop
scientific digits n =
    take 1 digits
    ++ (if ltb 1 (length digits) then b'.' ∷ drop 1 digits else [])
    ++ b'e' ∷ exponent_text (n +ℤ negsuc 0)

-- The value is `0.<digits> * 10 ** n`.
unfoldable pub body : Text → ℤ → Text
unfolding zeros scientific take drop
body digits (pos n) =
    if leb (length digits) n && leb n 21
    then digits ++ zeros (n - length digits)
    else if ltb 0 n && leb n 21
    then take n digits ++ b'.' ∷ drop n digits
    else if n == 0
    then codes "0." ++ digits
    else scientific digits (pos n)
body digits (negsuc n) =
    if ltb n 5 then codes "0." ++ zeros (suc n) ++ digits else scientific digits (negsuc n)

unfoldable pub sign_of : ℕ → Text
sign_of bits = if is_negative bits then b'-' ∷ [] else []

-- The digits `c * 10 ** q` of the double, without zeros at the end.
unfoldable pub magnitude_text : ℕ × ℤ → Text
unfolding rstrip_zeros or_zero body
magnitude_text (c, q) =
    let raw = decimal (pos c) in
    let digits = or_zero (rstrip_zeros raw) in
    body digits (pos (length digits) +ℤ (q +ℤ pos (length raw - length digits)))

-- An exponent field of 2047 is NaN or an infinity.
unfoldable pub jcs_number : ℕ → Result Text
unfolding significand shortest sign_of magnitude_text
jcs_number bits =
    if exponent_of bits == 2047
    then err value_error
    else if significand bits == 0
    then ok (b'0' ∷ [])
    else ok (sign_of bits ++ magnitude_text (shortest bits))

-- `float(n)` of a natural number from 2 ^ 53 on: how far it is shifted to 53 bits.
unfoldable pub shift_of : ℕ → ℕ → ℕ
shift_of zero n = 0
shift_of (suc fuel) n = elim (ltb n (2 ^ 53)) [ true ↦ 0 | false ↦ suc (shift_of fuel (n / 2)) ]

unfoldable pub round_even : ℕ → ℕ → ℕ
round_even n s =
    let q = n / 2 ^ s in
    let twice = 2 * (n % 2 ^ s) in
    if ltb twice (2 ^ s) then q else if ltb (2 ^ s) twice then q + 1 else q + q % 2

-- The largest exponent field is 2046; a number below 2 ^ 1024 is shifted by 971 at most.
unfoldable pub nearest_double : ℕ → Option ℕ
unfolding shift_of round_even
nearest_double n =
    let s = shift_of 1024 n in
    let bits = (s + 1075) * 2 ^ 52 + (round_even n s - 2 ^ 52) in
    if ltb n (2 ^ 1024) && ltb bits (2047 * 2 ^ 52) then some bits else none

unfoldable pub float_of : ℤ → Option ℕ
unfolding nearest_double
float_of (pos n) = nearest_double n
float_of (negsuc n) = elim (nearest_double (suc n)) [
  | none ↦ none
  | some bits ↦ some (2 ^ 63 + bits)
]

abbrev pub max_safe_int : ℕ
max_safe_int = 2 ^ 53

-- `rendered`, where it is the text of the integer itself.
unfoldable pub as_itself : Text → Text → Result Text
as_itself written rendered = if bytes_eq rendered written then ok rendered else err value_error

unfoldable pub jcs_int : ℤ → Result Text
unfolding float_of jcs_number as_itself
jcs_int z =
    if leb (pos_part z) max_safe_int && leb (neg_part z) max_safe_int
    then ok (decimal z)
    else elim (float_of z) [
      | none ↦ err value_error
      | some bits ↦ jcs_number bits >>= as_itself (decimal z)
    ]
