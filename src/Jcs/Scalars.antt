-- ===== src/Jcs/Scalars.antt =====
-- Texts without surrogates: they have encodings, and what is written from them is such a text.
use seam_sdk.Prelude.{
  ℕ, ◌≡◌, refl, true, both_true, and_true, all-append, List, [], ◌∷◌, ◌++◌, All, all, arith,
}
use seam_sdk.Bytes.Codec.{is_scalar}
use seam_sdk.Bytes.{Text}
use seam_sdk.Client.{hex_digit}
use seam_sdk.Numerals.Literal.{is_literal_char}
use seam_sdk.Jcs.{escaped, escaped_text, jcs_string, commas}

abbrev pub Scalar : Text → Type 0
Scalar s = all is_scalar s ≡ true

pub literal-Scalar : (s : Text) → all is_literal_char s ≡ true → Scalar s
literal-Scalar [] h = refl
literal-Scalar (c ∷ s) h =
    let (a, b) = both_true (is_literal_char c) _ h in and_true (scalar c a) (literal-Scalar s b)
  where
    scalar : (c : ℕ) → is_literal_char c ≡ true → is_scalar c ≡ true
    scalar c h = unfold is_scalar in ground arith

escaped-Scalar : (c : ℕ) → is_scalar c ≡ true → Scalar (escaped c)
unfolding escaped is_scalar hex_digit
escaped-Scalar c h = ground arith

escaped_text-Scalar : (s : Text) → Scalar s → Scalar (escaped_text s)
unfolding escaped_text
escaped_text-Scalar [] h = refl
escaped_text-Scalar (c ∷ s) h =
    let (a, b) = both_true (is_scalar c) _ h in
    all-append is_scalar (escaped c) (escaped_text s) (escaped-Scalar c a) (escaped_text-Scalar s b)

pub jcs_string-Scalar : (s : Text) → Scalar s → Scalar (jcs_string s)
unfolding jcs_string is_scalar
jcs_string-Scalar s h =
    all-append is_scalar (escaped_text s) (b'"' ∷ []) (escaped_text-Scalar s h) refl

commas-Scalar : (ts : List Text) → All Scalar ts → Scalar (commas ts)
unfolding commas is_scalar
commas-Scalar [] a = refl
commas-Scalar (t ∷ []) (h, a) = h
commas-Scalar (t ∷ u ∷ ts) (h, a) =
    all-append is_scalar t (b',' ∷ commas (u ∷ ts)) h (commas-Scalar (u ∷ ts) a)

pub around-Scalar :
    (x y : ℕ) (ts : List Text)
    → is_scalar x ≡ true
    → is_scalar y ≡ true
    → All Scalar ts
    → Scalar (x ∷ commas ts ++ y ∷ [])
around-Scalar x y ts h k a =
    and_true h (all-append is_scalar (commas ts) (y ∷ []) (commas-Scalar ts a) (and_true k refl))
