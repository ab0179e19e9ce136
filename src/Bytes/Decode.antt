-- ===== src/Bytes/Decode.antt =====
-- `bytes.decode("utf-8")`, strict: overlong forms, surrogates and what lies above 0x10ffff are refused.
-- What was encoded is decoded to the same text.
use seam_sdk.Prelude.{
  ℕ, zero, suc, ◌+◌, ◌-◌, ◌*◌, [], ◌∷◌, ◌++◌, ◌≡◌, arith, ltb, leb, ◌==◌, ◌&&◌, if◌then◌else◌,
  Result, ok, err, unicode_error, ◌>>=◌, after_bind,
}
use seam_sdk.Bytes.{Bytes, Text, encode_char, encode}

-- Between two bytes: how many bytes the code point still needs, its bits so far, and the bounds of the
-- next byte.
pub data Utf8State : Type 0 where
  between : Utf8State
  inside : ℕ → ℕ → ℕ → ℕ → Utf8State

-- The code point that a byte completes, if any, and the state after it.
unfoldable pub step : Utf8State → ℕ → Result (Text × Utf8State)
step between b =
    if ltb b 0x80
    then ok (b ∷ [], between)
    else if ltb b 0xc2
    then err unicode_error
    else if ltb b 0xe0
    then ok ([], inside 0 (b - 0xc0) 0x80 0xbf)
    else if ltb b 0xf0
    then ok (
      [],
      inside 1 (b - 0xe0) (if b == 0xe0 then 0xa0 else 0x80) (if b == 0xed then 0x9f else 0xbf),
    )
    else if ltb b 0xf5
    then ok (
      [],
      inside 2 (b - 0xf0) (if b == 0xf0 then 0x90 else 0x80) (if b == 0xf4 then 0x8f else 0xbf),
    )
    else err unicode_error
step (inside zero bits low high) b =
    if leb low b && leb b high
    then ok ((bits * 64 + (b - 0x80)) ∷ [], between)
    else err unicode_error
step (inside (suc n) bits low high) b =
    if leb low b && leb b high
    then ok ([], inside n (bits * 64 + (b - 0x80)) 0x80 0xbf)
    else err unicode_error

unfoldable pub decode_from : Utf8State → Bytes → Result Text
unfolding step
decode_from between [] = ok []
decode_from (inside n bits low high) [] = err unicode_error
decode_from state (b ∷ bs) = do
  (out, state') ← step state b
  rest ← decode_from state' bs
  ok (out ++ rest)

unfoldable pub decode : Bytes → Result Text
unfolding decode_from
decode bs = decode_from between bs

decode-encode_char :
    (c : ℕ) (b rest : Bytes) (t : Text)
    → encode_char c ≡ ok b
    → decode rest ≡ ok t
    → decode (b ++ rest) ≡ ok (c ∷ t)
unfolding decode decode_from encode_char step
decode-encode_char c b rest t h k = ground arith

-- Decoding an encoded text gives that text.
pub decode-encode : (t : Text) (b : Bytes) → encode t ≡ ok b → decode b ≡ ok t
unfolding encode
decode-encode [] b h = unfold decode decode_from in ground arith
decode-encode (c ∷ t) b h = after_bind (encode_char c) _ h λ p hp k.
    after_bind (encode t) _ k
      λ q hq e. ground (arith, decode-encode_char c p q t hp (decode-encode t q hq))
