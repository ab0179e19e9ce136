-- ===== src/Jcs/Units.antt =====
-- UTF-16 loses nothing, so keys that differ are ordered by code units that differ.
use seam_sdk.Prelude.{
  ℕ, ◌+◌, ◌-◌, ◌*◌, ◌≡◌, refl, ap, arith, Option, none, some, [], ◌∷◌, ◌++◌, leb, ◌&&◌,
  if◌then◌else◌, Exn, ok, err, unicode_error, >>=-eq-err, Result-cases, true, inl, inr,
}
use seam_sdk.Bytes.Codec.{is_scalar, IsCodec}
use seam_sdk.Bytes.{Bytes, Text}
use seam_sdk.Jcs.{utf_16_char, utf_16_be}

-- The code point that the first units stand for, and what follows it.
first_char : Bytes → Option (ℕ × Bytes)
first_char (a ∷ b ∷ c ∷ d ∷ r) =
    if leb 0xd800 (a * 256 + b) && leb (a * 256 + b) 0xdfff
    then some (0x10000 + (a * 256 + b - 0xd800) * 1024 + (c * 256 + d - 0xdc00), r)
    else some (a * 256 + b, c ∷ d ∷ r)
first_char (a ∷ b ∷ r) = some (a * 256 + b, r)
first_char _ = none

first_char-utf_16_char :
    (c : ℕ) (b rest : Bytes) → utf_16_char c ≡ ok b → first_char (b ++ rest) ≡ some (c, rest)
unfolding utf_16_char first_char
first_char-utf_16_char c b [] h = ground arith
first_char-utf_16_char c b (x ∷ []) h = ground arith
first_char-utf_16_char c b (x ∷ y ∷ r) h = ground arith

utf_16_char-cancel :
    (c d : ℕ) (p q r s : Bytes)
    → utf_16_char c ≡ ok p
    → utf_16_char d ≡ ok q
    → p ++ r ≡ q ++ s
    → (c ≡ d) × (r ≡ s)
utf_16_char-cancel c d p q r s h k e =
    ground (arith, first_char-utf_16_char c p r h, first_char-utf_16_char d q s k, ap first_char e)

pub utf_16_char-err : (c : ℕ) (e : Exn) → utf_16_char c ≡ err e → e ≡ unicode_error
unfolding utf_16_char
utf_16_char-err c e h = ground arith

utf_16_char-nonempty : (c : ℕ) → utf_16_char c ≡ ok [] → ⊥
unfolding utf_16_char
utf_16_char-nonempty c h = ground arith

utf_16_char_total : (c : ℕ) → is_scalar c ≡ true → (b : Bytes) × (utf_16_char c ≡ ok b)
utf_16_char_total c h = elim (Result-cases (utf_16_char c)) [
  | inl w ↦ w
  | inr (e, k) ↦ absurd (unfold utf_16_char is_scalar in ground arith)
]

pub utf_16_be-IsCodec : IsCodec utf_16_char utf_16_be
unfolding utf_16_be
utf_16_be-IsCodec = record {
  nil = refl;
  cons = λ c s. refl;
  cancel = utf_16_char-cancel;
  nonempty = utf_16_char-nonempty;
  total = utf_16_char_total;
}

pub utf_16_be-err : (s : Text) (e : Exn) → utf_16_be s ≡ err e → e ≡ unicode_error
unfolding utf_16_be
utf_16_be-err [] e h = cc
utf_16_be-err (c ∷ s) e h = elim (>>=-eq-err (utf_16_char c) _ h) [
  | inl k ↦ utf_16_char-err c e k
  | inr (b, k, h1) ↦ elim (>>=-eq-err (utf_16_be s) _ h1) [
    | inl k' ↦ utf_16_be-err s e k'
    | inr (bs, k', h2) ↦ cc
  ]
]
