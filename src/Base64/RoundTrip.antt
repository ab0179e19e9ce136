-- ===== src/Base64/RoundTrip.antt =====
-- Decoding what was encoded gives the bytes back, for byte strings of every length.
use seam_sdk.Prelude.{
  ℕ, suc, ◌+◌, ◌-◌, ◌*◌, ◌/◌, ◌%◌, ◌<◌, ◌≡◌, ◌≢◌, refl, ap, ap₂, ◌∙◌, [], ◌∷◌, ◌++◌, length, all,
  All, ltb, Bool, true, some, arith, Result, ok,
}
use seam_sdk.Bytes.{Bytes, Text}
use seam_sdk.Base64.{
  urlsafe_char, urlsafe_b64encode, rstrip_pad, b64url_nopad, char_value, a2b_base64, pad_text,
  b64url_decode,
}

-- The encoding without its padding.
unpadded : Bytes → Bytes
unpadded [] = []
unpadded (a ∷ []) = urlsafe_char (a / 4) ∷ urlsafe_char (a % 4 * 16) ∷ []
unpadded (a ∷ b ∷ []) =
    urlsafe_char (a / 4) ∷ urlsafe_char (a % 4 * 16 + b / 16) ∷ urlsafe_char (b % 16 * 4) ∷ []
unpadded (a ∷ b ∷ c ∷ rest) =
    urlsafe_char (a / 4)
    ∷ urlsafe_char (a % 4 * 16 + b / 16)
    ∷ urlsafe_char (b % 16 * 4 + c / 64)
    ∷ urlsafe_char (c % 64)
    ∷ unpadded rest

char_value-urlsafe_char : (i : ℕ) → i < 64 → char_value (urlsafe_char i) ≡ some i
unfolding char_value urlsafe_char
char_value-urlsafe_char i h = ground arith

urlsafe_char_range : (i : ℕ) → i < 64 → (urlsafe_char i < 128) × (urlsafe_char i ≢ b'=')
unfolding urlsafe_char
urlsafe_char_range i h = ground arith

rstrip_pad-cons : (x : ℕ) (xs : Bytes) → x ≢ b'=' → rstrip_pad (x ∷ xs) ≡ x ∷ rstrip_pad xs
unfolding rstrip_pad
rstrip_pad-cons x xs h = ground arith

b64url_nopad-unpadded : (b : Bytes) → All (λ x. x < 256) b → b64url_nopad b ≡ unpadded b
unfolding b64url_nopad urlsafe_b64encode unpadded
b64url_nopad-unpadded [] h = unfold rstrip_pad in refl
b64url_nopad-unpadded (a ∷ []) (ha, _) =
    rw (rstrip_pad-cons _ _ (urlsafe_char_range (a / 4) (omega arith)).1) (
      rw (rstrip_pad-cons _ _ (urlsafe_char_range (a % 4 * 16) (omega arith)).1)
        (unfold rstrip_pad in refl))
b64url_nopad-unpadded (a ∷ b ∷ []) (ha, (hb, _)) =
    rw (rstrip_pad-cons _ _ (urlsafe_char_range (a / 4) (omega arith)).1) (
      rw (rstrip_pad-cons _ _ (urlsafe_char_range (a % 4 * 16 + b / 16) (omega arith)).1) (
        rw (rstrip_pad-cons _ _ (urlsafe_char_range (b % 16 * 4) (omega arith)).1)
          (unfold rstrip_pad in refl)))
b64url_nopad-unpadded (a ∷ b ∷ c ∷ rest) (ha, (hb, (hc, hr))) =
    rw (rstrip_pad-cons _ _ (urlsafe_char_range (a / 4) (omega arith)).1) (
      rw (rstrip_pad-cons _ _ (urlsafe_char_range (a % 4 * 16 + b / 16) (omega arith)).1) (
        rw (rstrip_pad-cons _ _ (urlsafe_char_range (b % 16 * 4 + c / 64) (omega arith)).1) (
          rw (rstrip_pad-cons _ _ (urlsafe_char_range (c % 64) (omega arith)).1)
            (let r = b64url_nopad-unpadded rest hr in cc))))

-- One character of the alphabet, at each place of a quad.
module _ (left pads : ℕ) (i : ℕ) (rest : Bytes) (h : i < 64) where
  first_place : a2b_base64 0 left pads (urlsafe_char i ∷ rest) ≡ a2b_base64 1 i 0 rest
  unfolding a2b_base64
  first_place = ground (arith, char_value-urlsafe_char i h, urlsafe_char_range i h)

  second_place :
      (out : Bytes)
      → a2b_base64 2 (i % 16) 0 rest ≡ ok out
      → a2b_base64 1 left pads (urlsafe_char i ∷ rest) ≡ ok ((left * 4 + i / 16) ∷ out)
  unfolding a2b_base64
  second_place out e = ground (arith, char_value-urlsafe_char i h, urlsafe_char_range i h)

  third_place :
      (out : Bytes)
      → a2b_base64 3 (i % 4) 0 rest ≡ ok out
      → a2b_base64 2 left pads (urlsafe_char i ∷ rest) ≡ ok ((left * 16 + i / 4) ∷ out)
  unfolding a2b_base64
  third_place out e = ground (arith, char_value-urlsafe_char i h, urlsafe_char_range i h)

  fourth_place :
      (out : Bytes)
      → a2b_base64 0 0 0 rest ≡ ok out
      → a2b_base64 3 left pads (urlsafe_char i ∷ rest) ≡ ok ((left * 64 + i) ∷ out)
  unfolding a2b_base64
  fourth_place out e = ground (arith, char_value-urlsafe_char i h, urlsafe_char_range i h)

-- The pads that the decoder adds for the bytes.
abbrev padding : Bytes → Text
padding [] = []
padding (a ∷ []) = b'=' ∷ b'=' ∷ []
padding (a ∷ b ∷ []) = b'=' ∷ []
padding (a ∷ b ∷ c ∷ rest) = padding rest

padding-pad_text : (b : Bytes) → pad_text ((4 - length (unpadded b) % 4) % 4) ≡ padding b
unfolding pad_text unpadded
padding-pad_text [] = refl
padding-pad_text (a ∷ []) = refl
padding-pad_text (a ∷ b ∷ []) = refl
padding-pad_text (a ∷ b ∷ c ∷ rest) =
    let n = length (unpadded rest) in
    let e : (4 - suc (suc (suc (suc n))) % 4) % 4 ≡ (4 - n % 4) % 4 = omega arith in
    rw e (padding-pad_text rest)

two_pads : (left : ℕ) → a2b_base64 2 left 0 (b'=' ∷ b'=' ∷ []) ≡ ok []
unfolding a2b_base64
two_pads left = refl

one_pad : (left : ℕ) → a2b_base64 3 left 0 (b'=' ∷ []) ≡ ok []
unfolding a2b_base64
one_pad left = refl

a2b-unpadded :
    (b : Bytes) → All (λ x. x < 256) b → a2b_base64 0 0 0 (unpadded b ++ padding b) ≡ ok b
unfolding unpadded
a2b-unpadded [] h = unfold a2b_base64 in refl
a2b-unpadded (a ∷ []) (ha, _) =
    first_place 0 0 (a / 4) _ (omega arith)
    ∙ second_place (a / 4) 0 (a % 4 * 16) _ (omega arith) [] (two_pads (a % 4 * 16 % 16))
    ∙ ap (λ x. ok (x ∷ [])) (omega arith)
a2b-unpadded (a ∷ b ∷ []) (ha, (hb, _)) =
    first_place 0 0 (a / 4) _ (omega arith)
    ∙ second_place (a / 4) 0 (a % 4 * 16 + b / 16) _ (omega arith) _ (
        third_place ((a % 4 * 16 + b / 16) % 16) 0 (b % 16 * 4) _ (omega arith) []
          (one_pad (b % 16 * 4 % 4)))
    ∙ ap₂ (λ x y. ok (x ∷ y ∷ [])) (omega arith) (omega arith)
a2b-unpadded (a ∷ b ∷ c ∷ rest) (ha, (hb, (hc, hr))) =
    first_place 0 0 (a / 4) _ (omega arith)
    ∙ second_place (a / 4) 0 (a % 4 * 16 + b / 16) _ (omega arith) _ (
        third_place ((a % 4 * 16 + b / 16) % 16) 0 (b % 16 * 4 + c / 64) _ (omega arith) _ (
          fourth_place ((b % 16 * 4 + c / 64) % 4) 0 (c % 64) _ (omega arith) rest
            (a2b-unpadded rest hr)))
    ∙ same
  where
    x : a / 4 * 4 + (a % 4 * 16 + b / 16) / 16 ≡ a
    x = omega arith

    y : (a % 4 * 16 + b / 16) % 16 * 16 + (b % 16 * 4 + c / 64) / 4 ≡ b
    y = omega arith

    z : (b % 16 * 4 + c / 64) % 4 * 64 + c % 64 ≡ c
    z = omega arith

    same :
        ◌≡◌ {A = Result Bytes}
          (ok (
            (a / 4 * 4 + (a % 4 * 16 + b / 16) / 16)
            ∷ ((a % 4 * 16 + b / 16) % 16 * 16 + (b % 16 * 4 + c / 64) / 4)
            ∷ ((b % 16 * 4 + c / 64) % 4 * 64 + c % 64)
            ∷ rest))
          (ok (a ∷ b ∷ c ∷ rest))
    same = cc (x, y, z)

all-append :
    (p : ℕ → Bool) (xs ys : Bytes) → all p xs ≡ true → all p ys ≡ true → all p (xs ++ ys) ≡ true
all-append p [] ys h k = k
all-append p (x ∷ xs) ys h k = ground (arith, all-append p xs ys)

unpadded_ascii : (b : Bytes) → All (λ x. x < 256) b → all (λ c. ltb c 128) (unpadded b) ≡ true
unfolding unpadded
unpadded_ascii [] h = refl
unpadded_ascii (a ∷ []) (ha, _) =
    ground (
      arith,
      urlsafe_char_range (a / 4) (omega arith),
      urlsafe_char_range (a % 4 * 16) (omega arith),
    )
unpadded_ascii (a ∷ b ∷ []) (ha, (hb, _)) = ground (
  arith,
  urlsafe_char_range (a / 4) (omega arith),
  urlsafe_char_range (a % 4 * 16 + b / 16) (omega arith),
  urlsafe_char_range (b % 16 * 4) (omega arith),
)
unpadded_ascii (a ∷ b ∷ c ∷ rest) (ha, (hb, (hc, hr))) = ground (
  arith,
  urlsafe_char_range (a / 4) (omega arith),
  urlsafe_char_range (a % 4 * 16 + b / 16) (omega arith),
  urlsafe_char_range (b % 16 * 4 + c / 64) (omega arith),
  urlsafe_char_range (c % 64) (omega arith),
  unpadded_ascii rest hr,
)

padding_ascii : (b : Bytes) → all (λ c. ltb c 128) (padding b) ≡ true
padding_ascii [] = refl
padding_ascii (a ∷ []) = refl
padding_ascii (a ∷ b ∷ []) = refl
padding_ascii (a ∷ b ∷ c ∷ rest) = padding_ascii rest

-- Bytes that were encoded without padding decode to themselves.
pub b64url_decode-b64url_nopad :
    (b : Bytes) → All (λ x. x < 256) b → b64url_decode (b64url_nopad b) ≡ ok b
unfolding b64url_decode
b64url_decode-b64url_nopad b h =
    rw (b64url_nopad-unpadded b h, padding-pad_text b)
      (rw (all-append _ (unpadded b) (padding b) (unpadded_ascii b h) (padding_ascii b))
        (a2b-unpadded b h))
