-- ===== src/Jcs/Canon.antt =====
-- Canonical trees: what a canonical text is the text of.
use seam_sdk.Prelude.{
  ℕ, ◌≡◌, refl, ap, ap₂, Bool, true, false, both_true, Option, none, some, List, [], ◌∷◌, ◌++◌, all,
  ◌==◌, ◌||◌, arith,
}
use mathlib.Core.HLevel.{Σ_prop_path}
use mathlib.Core.Bool.{Bool-set}
use seam_sdk.Bytes.{Text}
use seam_sdk.Jcs.{commas, jcs_string}
use seam_sdk.Numerals.Literal.{is_literal, is_literal_char}

-- A number or a word, a string, an array, or an object. An item of an object has its key.
mutual
  pub data Canon : Type 0 where
    literal : (s : Text) → is_literal s ≡ true → Canon
    quoted : Text → Canon
    array object : Items → Canon

  pub data Items : Type 0 where
    no_items : Items
    item : Option Text → Canon → Items → Items

abbrev pub label_text : Option Text → Text
label_text none = []
label_text (some k) = jcs_string k ++ b':' ∷ []

unfoldable mutual
  pub print : Canon → Text
  print (literal s h) = s
  print (quoted s) = jcs_string s
  print (array is) = b'[' ∷ commas (print_items is) ++ b']' ∷ []
  print (object is) = b'{' ∷ commas (print_items is) ++ b'}' ∷ []

  pub print_items : Items → List Text
  print_items no_items = []
  print_items (item k c is) = (label_text k ++ print c) ∷ print_items is

-- What can follow a value.
abbrev pub is_boundary : Text → Bool
is_boundary [] = true
is_boundary (c ∷ r) = c == b',' || c == b']' || c == b'}'

apart :
    (x c : ℕ) → (x == b',' || x == b']' || x == b'}') ≡ true → is_literal_char c ≡ true → x ≡ c → ⊥
apart x c h k e = ground arith

pub word-cancel :
    (s t r u : Text)
    → all is_literal_char s ≡ true
    → all is_literal_char t ≡ true
    → is_boundary r ≡ true
    → is_boundary u ≡ true
    → s ++ r ≡ t ++ u
    → (s ≡ t) × (r ≡ u)
word-cancel [] [] r u h k b d e = (refl, e)
word-cancel [] (c ∷ t) [] u h k b d e = cc
word-cancel [] (c ∷ t) (x ∷ r) u h k b d e = absurd (apart x c b (both_true _ _ k).0 (cc))
word-cancel (c ∷ s) [] r [] h k b d e = cc
word-cancel (c ∷ s) [] r (x ∷ u) h k b d e = absurd (apart x c d (both_true _ _ h).0 (cc))
word-cancel (c ∷ s) (x ∷ t) r u h k b d e =
    let rest : s ++ r ≡ t ++ u = cc in
    let head : c ≡ x = cc in
    let rest : s ++ r ≡ t ++ u = cc in
    let (p, q) = word-cancel s t r u (both_true _ _ h).1 (both_true _ _ k).1 b d rest in
    (ap₂ (λ a v. a ∷ v) head p, q)

pub is_literal-all : (s : Text) → is_literal s ≡ true → all is_literal_char s ≡ true
is_literal-all [] h = cc
is_literal-all (c ∷ s) h = h

pub literal-eq :
    {s t : Text} (h : is_literal s ≡ true) (k : is_literal t ≡ true)
    → s ≡ t
    → literal s h ≡ literal t k
literal-eq h k e =
    ap (λ (p : (s : Text) × (is_literal s ≡ true)). literal p.0 p.1)
      (Σ_prop_path (λ s. Bool-set _ _) e)

-- A literal does not begin as another value does.
pub other_front :
    (s r u : Text) (x : ℕ) → is_literal s ≡ true → is_literal_char x ≡ false → s ++ r ≡ x ∷ u → ⊥
other_front [] r u x h k e = cc
other_front (c ∷ s) r u x h k e = let (a, b) = both_true (is_literal_char c) _ h in cc
