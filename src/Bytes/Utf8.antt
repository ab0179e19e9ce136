-- ===== src/Bytes/Utf8.antt =====
-- UTF-8 encoding loses nothing: two texts with one encoding are one text.
use seam_sdk.Prelude.{
  ℕ, ◌+◌, ◌-◌, ◌*◌, [], ◌∷◌, ◌++◌, ◌≡◌, refl, ap, arith, Option, none, some, ltb, if◌then◌else◌,
  true, inl, inr, Result-cases, ok,
}
use seam_sdk.Bytes.Codec.{is_scalar, IsCodec, text_cons-ne-nil, text-injective}
use seam_sdk.Bytes.{Bytes, Text, encode_char, encode}

-- The code point that a lead byte starts, and what follows it.
first_char : Bytes → Option (ℕ × Bytes)
first_char (a ∷ []) = if ltb a 0x80 then some (a, []) else none
first_char (a ∷ b ∷ []) =
    if ltb a 0x80
    then some (a, b ∷ [])
    else if ltb a 0xe0
    then some ((a - 0xc0) * 64 + (b - 0x80), [])
    else none
first_char (a ∷ b ∷ c ∷ []) =
    if ltb a 0x80
    then some (a, b ∷ c ∷ [])
    else if ltb a 0xe0
    then some ((a - 0xc0) * 64 + (b - 0x80), c ∷ [])
    else some ((a - 0xe0) * 4096 + (b - 0x80) * 64 + (c - 0x80), [])
first_char (a ∷ b ∷ c ∷ d ∷ r) =
    if ltb a 0x80
    then some (a, b ∷ c ∷ d ∷ r)
    else if ltb a 0xe0
    then some ((a - 0xc0) * 64 + (b - 0x80), c ∷ d ∷ r)
    else if ltb a 0xf0
    then some ((a - 0xe0) * 4096 + (b - 0x80) * 64 + (c - 0x80), d ∷ r)
    else some ((a - 0xf0) * 262144 + (b - 0x80) * 4096 + (c - 0x80) * 64 + (d - 0x80), r)
first_char [] = none

first_char-encode_char :
    (c : ℕ) (b rest : Bytes) → encode_char c ≡ ok b → first_char (b ++ rest) ≡ some (c, rest)
unfolding encode_char first_char
first_char-encode_char c b [] h = ground arith
first_char-encode_char c b (x ∷ []) h = ground arith
first_char-encode_char c b (x ∷ y ∷ []) h = ground arith
first_char-encode_char c b (x ∷ y ∷ z ∷ r) h = ground arith

pub encode_char-cancel :
    (c d : ℕ) (p q r s : Bytes)
    → encode_char c ≡ ok p
    → encode_char d ≡ ok q
    → p ++ r ≡ q ++ s
    → (c ≡ d) × (r ≡ s)
encode_char-cancel c d p q r s h k e =
    ground (arith, first_char-encode_char c p r h, first_char-encode_char d q s k, ap first_char e)

encode_char-nonempty : (c : ℕ) → encode_char c ≡ ok [] → ⊥
unfolding encode_char
encode_char-nonempty c h = ground arith

encode_char_total : (c : ℕ) → is_scalar c ≡ true → (b : Bytes) × (encode_char c ≡ ok b)
encode_char_total c h = elim (Result-cases (encode_char c)) [
  | inl w ↦ w
  | inr (e, k) ↦ absurd (unfold encode_char is_scalar in ground arith)
]

pub encode-IsCodec : IsCodec encode_char encode
unfolding encode
encode-IsCodec = record {
  nil = refl;
  cons = λ c s. refl;
  cancel = encode_char-cancel;
  nonempty = encode_char-nonempty;
  total = encode_char_total;
}

pub encode_cons-ne-nil : (c : ℕ) (s : Text) → encode (c ∷ s) ≡ ok [] → ⊥
encode_cons-ne-nil = text_cons-ne-nil encode_char encode encode-IsCodec

pub encode-injective : (s t : Text) (b : Bytes) → encode s ≡ ok b → encode t ≡ ok b → s ≡ t
encode-injective = text-injective encode_char encode encode-IsCodec
