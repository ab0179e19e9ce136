-- ===== src/Checks.antt =====
-- The argument checks of `python/seam_sdk/crypto.py`: `_as_bytes`, `_sub_digest`, `_rd_text`,
-- `_mandatory_text`, `_uint_slot` and `_require_int`.
pub mod Refusals
use seam_sdk.Prelude.{
  ℕ, ◌^◌, Option, none, some, List, [], ◌∷◌, length, ltb, leb, ◌==◌, ◌&&◌, ◌||◌, not, bytes_eq,
  if◌then◌else◌, Bool, true, false, String, Result, ok, err, type_error, value_error, strip_error,
  ◌>>=◌,
}
use seam_sdk.Prelude.Int.{ℤ, pos, negsuc}
use seam_sdk.Bytes.{Bytes, Text}

-- A Python object, as far as the checks tell objects apart. `buffer` is an object whose memory can
-- be read as contiguous bytes; every other object is `other`.
pub data Value : Type 0 where
  null : Value
  bool : Bool → Value
  int : ℤ → Value
  str : Text → Value
  buffer : Bytes → Value
  other : Value

unfoldable pub as_bytes : Value → Option Bytes
as_bytes (buffer b) = some b
as_bytes _ = none

abbrev pub sub_digest_len : ℕ
sub_digest_len = 32

-- `value is None or (not optional and _as_bytes(value) == b"")`.
unfoldable pub is_absent : Value → Bool → Bool
is_absent null is_optional = true
is_absent (buffer b) is_optional = not is_optional && bytes_eq b []
is_absent _ is_optional = false

unfoldable pub sub_digest : String → ℕ → Value → Bool → Result (Option Bytes)
unfolding as_bytes is_absent
sub_digest name tag value is_optional =
    if is_absent value is_optional
    then (if is_optional then ok none else err (strip_error name tag))
    else elim (as_bytes value) [
      | none ↦ err (strip_error name tag)
      | some raw ↦
          if length raw == sub_digest_len then ok (some raw) else err (strip_error name tag)
    ]

-- A mandatory slot, as the preimage frames it: `_frame(None)` is a `TypeError`.
unfoldable pub mandatory_digest : String → ℕ → Value → Result Bytes
unfolding sub_digest
mandatory_digest name tag value = do
  found ← sub_digest name tag value false
  elim found [ none ↦ err type_error | some b ↦ ok b ]

unfoldable pub rd_text : Value → Result Text
rd_text (str s) = ok s
rd_text _ = err type_error

unfoldable pub rd_opt : Value → Result (Option Text)
rd_opt null = ok none
rd_opt (str s) = ok (some s)
rd_opt _ = err type_error

unfoldable pub mandatory_text : String → ℕ → Value → Result Text
unfolding rd_text
mandatory_text name tag null = err (strip_error name tag)
mandatory_text name tag (str []) = err (strip_error name tag)
mandatory_text name tag value = rd_text value

unfoldable pub require_int : Value → Result ℤ
require_int (int v) = ok v
require_int _ = err type_error

-- `0 <= value < (1 << bits)`.
unfoldable pub in_range : ℤ → ℕ → Result ℕ
in_range (pos n) bits = if ltb n (2 ^ bits) then ok n else err value_error
in_range (negsuc n) bits = err value_error

unfoldable pub uint_slot : Value → ℕ → Result ℕ
unfolding require_int in_range
uint_slot value bits = do v ← require_int value; in_range v bits
