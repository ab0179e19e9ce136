-- ===== src/Jcs/Strings.antt =====
-- Written strings, read from the front of a text.
use seam_sdk.Prelude.{
  ℕ, ◌+◌, ◌-◌, ◌*◌, ◌/◌, ◌%◌, ◌<◌, ◌≡◌, refl, sym, ap, ◌∙◌, Option, none, some, [], ◌∷◌, ◌++◌, leb,
  ◌==◌, if◌then◌else◌, arith,
}
use mathlib.Core.List.{append_assoc}
use seam_sdk.Bytes.{Text}
use seam_sdk.Client.{hex_digit}
use seam_sdk.Jcs.{escaped, escaped_text, jcs_string}

abbrev hex_number : ℕ → ℕ
hex_number c = if leb b'a' c then c - b'a' + 10 else c - b'0'

abbrev read_hex : Text → Option (ℕ × Text)
read_hex (a ∷ b ∷ c ∷ d ∷ rest) = some (16 * hex_number c + hex_number d, rest)
read_hex _ = none

abbrev read_escape : Text → Option (ℕ × Text)
read_escape [] = none
read_escape (x ∷ rest) =
    if x == b'b'
    then some (0x08, rest)
    else if x == b't'
    then some (0x09, rest)
    else if x == b'n'
    then some (0x0a, rest)
    else if x == b'f'
    then some (0x0c, rest)
    else if x == b'r'
    then some (0x0d, rest)
    else if x == b'u'
    then read_hex rest
    else some (x, rest)

-- The character at the front of the rest of a string; the end of the string is no character.
abbrev read_char : Text → Option (ℕ × Text)
read_char [] = none
read_char (x ∷ rest) =
    if x == 0x5c then read_escape rest else if x == b'"' then none else some (x, rest)

hex_number-hex_digit : (n : ℕ) → n < 16 → hex_number (hex_digit n) ≡ n
unfolding hex_digit
hex_number-hex_digit n h = ground arith

read_char-escaped : (c : ℕ) (r : Text) → read_char (escaped c ++ r) ≡ some (c, r)
unfolding escaped
read_char-escaped c r = ground (arith, hex_number-hex_digit (c / 16), hex_number-hex_digit (c % 16))

escaped_text-cancel :
    (s t r u : Text) → escaped_text s ++ b'"' ∷ r ≡ escaped_text t ++ b'"' ∷ u → (s ≡ t) × (r ≡ u)
unfolding escaped_text
escaped_text-cancel [] [] r u e = (refl, cc)
escaped_text-cancel [] (d ∷ t) r u e = absurd (
    no_char (
      ap read_char e
      ∙ ap read_char (append_assoc (escaped d) (escaped_text t) (b'"' ∷ u))
      ∙ read_char-escaped d (escaped_text t ++ b'"' ∷ u)))
  where
    no_char : ◌≡◌ {A = Option (ℕ × Text)} none (some (d, escaped_text t ++ b'"' ∷ u)) → ⊥
    no_char f = cc
escaped_text-cancel (c ∷ s) [] r u e = absurd (
    no_char (
      ap read_char (sym e)
      ∙ ap read_char (append_assoc (escaped c) (escaped_text s) (b'"' ∷ r))
      ∙ read_char-escaped c (escaped_text s ++ b'"' ∷ r)))
  where
    no_char : ◌≡◌ {A = Option (ℕ × Text)} none (some (c, escaped_text s ++ b'"' ∷ r)) → ⊥
    no_char f = cc
escaped_text-cancel (c ∷ s) (d ∷ t) r u e =
    let f : ◌≡◌ {A = Option (ℕ × Text)} (some (c, escaped_text s ++ b'"' ∷ r))
        (some (d, escaped_text t ++ b'"' ∷ u)) =
      sym (read_char-escaped c (escaped_text s ++ b'"' ∷ r))
      ∙ ap read_char (
          sym (append_assoc (escaped c) (escaped_text s) (b'"' ∷ r))
          ∙ e
          ∙ append_assoc (escaped d) (escaped_text t) (b'"' ∷ u))
      ∙ read_char-escaped d (escaped_text t ++ b'"' ∷ u) in
    let (p, q) = escaped_text-cancel s t r u (cc) in (cc, q)

-- Two written strings at the front of one text.
pub jcs_string-cancel : (s t r u : Text) → jcs_string s ++ r ≡ jcs_string t ++ u → (s ≡ t) × (r ≡ u)
unfolding jcs_string
jcs_string-cancel s t r u e = escaped_text-cancel s t r u (
    cc
      (e, append_assoc (escaped_text s) (b'"' ∷ []) r, append_assoc (escaped_text t) (b'"' ∷ []) u))
