-- ===== src/Base64/Runs.antt =====
-- The codec on concrete bytes.
use seam_sdk.Prelude.{◌<◌, ◌≡◌, refl, [], ◌∷◌, codes, All, arith, ok, err, value_error}
use seam_sdk.Bytes.{Bytes}
use seam_sdk.Base64.{
  b64url_nopad, urlsafe_b64encode, urlsafe_char, rstrip_pad, b64url_decode, a2b_base64, char_value,
}
use seam_sdk.Base64.RoundTrip.{b64url_decode-b64url_nopad}

abbrev sample : Bytes
sample = 0 ∷ 251 ∷ 239 ∷ 255 ∷ []

sample_bytes : All (λ x. x < 256) sample
sample_bytes = (omega arith, (omega arith, (omega arith, (omega arith, _))))

sample_encoded : b64url_nopad sample ≡ codes "APvv_w"
unfolding b64url_nopad urlsafe_b64encode urlsafe_char rstrip_pad
sample_encoded = refl

-- The standard alphabet and a character to skip are decoded too, and a lone character is refused.
decodes_leniently : b64url_decode (codes "APvv/w=") ≡ ok sample
unfolding b64url_decode a2b_base64 char_value
decodes_leniently = refl

lone_char : b64url_decode (codes "A") ≡ err value_error
unfolding b64url_decode a2b_base64 char_value
lone_char = refl

b64url_decode-b64url_nopad_example : b64url_decode (b64url_nopad sample) ≡ ok sample
b64url_decode-b64url_nopad_example = b64url_decode-b64url_nopad sample sample_bytes
