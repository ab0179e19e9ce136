-- ===== src/Base64.antt =====
-- `_b64url_nopad` and `_b64url_decode` of `python/seam_sdk/crypto.py`, over the standard library's
-- base64 codec: `urlsafe_b64encode`, and the lenient decoder of `urlsafe_b64decode`.
pub mod RoundTrip
mod Runs
use seam_sdk.Prelude.{
  ℕ, ◌+◌, ◌-◌, ◌*◌, ◌/◌, ◌%◌, List, [], ◌∷◌, ◌++◌, map, length, all, ltb, leb, ◌==◌, ◌&&◌,
  if◌then◌else◌, Option, none, some, Result, ok, err, value_error, ◌>>=◌,
}
use seam_sdk.Bytes.{Bytes, Text}

-- The 64 characters, with `-` and `_` in the last two places.
unfoldable pub urlsafe_char : ℕ → ℕ
urlsafe_char i =
    if ltb i 26
    then b'A' + i
    else if ltb i 52
    then b'a' + (i - 26)
    else if ltb i 62
    then b'0' + (i - 52)
    else if i == 62
    then b'-'
    else b'_'

-- `urlsafe_b64encode`, with its padding.
unfoldable pub urlsafe_b64encode : Bytes → Bytes
urlsafe_b64encode [] = []
urlsafe_b64encode (a ∷ []) = urlsafe_char (a / 4) ∷ urlsafe_char (a % 4 * 16) ∷ b'=' ∷ b'=' ∷ []
urlsafe_b64encode (a ∷ b ∷ []) =
    urlsafe_char (a / 4)
    ∷ urlsafe_char (a % 4 * 16 + b / 16)
    ∷ urlsafe_char (b % 16 * 4)
    ∷ b'='
    ∷ []
urlsafe_b64encode (a ∷ b ∷ c ∷ rest) =
    urlsafe_char (a / 4)
    ∷ urlsafe_char (a % 4 * 16 + b / 16)
    ∷ urlsafe_char (b % 16 * 4 + c / 64)
    ∷ urlsafe_char (c % 64)
    ∷ urlsafe_b64encode rest

-- `.rstrip(b"=")`.
unfoldable pub rstrip_pad : Bytes → Bytes
rstrip_pad [] = []
rstrip_pad (x ∷ xs) = elim (rstrip_pad xs) [
  | [] ↦ if x == b'=' then [] else x ∷ []
  | y ∷ ys ↦ x ∷ y ∷ ys
]

unfoldable pub b64url_nopad : Bytes → Text
b64url_nopad b = rstrip_pad (urlsafe_b64encode b)

-- The value of a character of the decoder's alphabet, after `-` and `_` were translated: the
-- standard `+` and `/` are accepted too.
unfoldable pub char_value : ℕ → Option ℕ
char_value c =
    if leb b'A' c && leb c b'Z'
    then some (c - b'A')
    else if leb b'a' c && leb c b'z'
    then some (c - b'a' + 26)
    else if leb b'0' c && leb c b'9'
    then some (c - b'0' + 52)
    else if c == b'-'
    then some 62
    else if c == b'+'
    then some 62
    else if c == b'_'
    then some 63
    else if c == b'/'
    then some 63
    else none

-- `binascii.a2b_base64`, not strict: the place in the quad, the bits left over and the pads seen.
-- Characters outside the alphabet are skipped, and enough pads end the input.
unfoldable pub a2b_base64 : ℕ → ℕ → ℕ → Bytes → Result Bytes
a2b_base64 quad left pads [] = if quad == 0 then ok [] else err value_error
a2b_base64 quad left pads (ch ∷ rest) =
    let on_pad = a2b_base64 quad left (if leb 2 quad then pads + 1 else pads) rest in
    let skip = a2b_base64 quad left pads rest in
    if ch == b'='
    then (if leb 2 quad && leb 4 (quad + (pads + 1)) then ok [] else on_pad)
    else elim (char_value ch) [
      | none ↦ skip
      | some v ↦
          let first = a2b_base64 1 v 0 rest in
          let second = a2b_base64 2 (v % 16) 0 rest in
          let third = a2b_base64 3 (v % 4) 0 rest in
          let fourth = a2b_base64 0 0 0 rest in
          if quad == 0
          then first
          else if quad == 1
          then (do out ← second; ok ((left * 4 + v / 16) ∷ out))
          else if quad == 2
          then (do out ← third; ok ((left * 16 + v / 4) ∷ out))
          else (do out ← fourth; ok ((left * 64 + v) ∷ out))
    ]

unfoldable pub pad_text : ℕ → Text
pad_text n =
    if n == 0
    then []
    else if n == 1
    then b'=' ∷ []
    else if n == 2
    then b'=' ∷ b'=' ∷ []
    else b'=' ∷ b'=' ∷ b'=' ∷ []

-- `base64.urlsafe_b64decode(s + "=" * (-len(s) % 4))`. Text outside ASCII is a `ValueError`.
unfoldable pub b64url_decode : Text → Result Bytes
unfolding pad_text
b64url_decode s =
    let padded = s ++ pad_text ((4 - length s % 4) % 4) in
    if all (λ c. ltb c 128) padded then a2b_base64 0 0 0 padded else err value_error
