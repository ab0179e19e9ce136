-- ===== src/Checks/Refusals.antt =====
-- What the argument checks accept, and how each refuses.
use seam_sdk.Prelude.{
  ℕ, ◌^◌, ◌<◌, ◌≡◌, ◌≢◌, refl, sym, ap, ◌∙◌, arith, ◌⊎◌, inl, inr, Option, none, some, [], ◌∷◌,
  length, true, String, ok, err, strip_error, Bool-cases, ◌==◌, ==_iff,
}
use seam_sdk.Prelude.Int.{pos}
use seam_sdk.Bytes.{Bytes, Text}
use seam_sdk.Checks.{
  Value, null, bool, int, str, buffer, other, sub_digest, mandatory_digest, rd_text, rd_opt,
  mandatory_text, uint_slot,
}

-- A mandatory sub-digest is 32 bytes of a buffer, and every refusal is a strip that names the field.
pub mandatory_digest_cases :
    (name : String) (tag : ℕ) (v : Value)
    → ((b : Bytes) × (v ≡ buffer b) × (length b ≡ 32) × (mandatory_digest name tag v ≡ ok b))
      ⊎ (mandatory_digest name tag v ≡ err (strip_error name tag))
unfolding mandatory_digest
mandatory_digest_cases name tag null = inr refl
mandatory_digest_cases name tag (bool b) = inr refl
mandatory_digest_cases name tag (int z) = inr refl
mandatory_digest_cases name tag (str s) = inr refl
mandatory_digest_cases name tag other = inr refl
mandatory_digest_cases name tag (buffer []) = inr refl
mandatory_digest_cases name tag (buffer (x ∷ b)) = elim (Bool-cases (length (x ∷ b) == 32)) [
  | inl h ↦ inl (x ∷ b, refl, (==_iff _ _).0 h, rw h)
  | inr h ↦ inr (rw h)
]

pub uint_slot_cases :
    (v : Value) (bits n : ℕ) → uint_slot v bits ≡ ok n → (v ≡ int (pos n)) × (n < 2 ^ bits)
unfolding uint_slot
uint_slot_cases (int (pos m)) bits n h = ground arith
uint_slot_cases _ bits n h = cc

-- An optional sub-digest is absent, or 32 bytes of a buffer, or a strip.
pub sub_digest_cases :
    (name : String) (tag : ℕ) (v : Value)
    → ((v ≡ null) × (sub_digest name tag v true ≡ ok none))
      ⊎ ((b : Bytes) × (v ≡ buffer b)
          × (length b ≡ 32)
          × (sub_digest name tag v true ≡ ok (some b)))
      ⊎ (sub_digest name tag v true ≡ err (strip_error name tag))
unfolding sub_digest
sub_digest_cases name tag null = inl (refl, refl)
sub_digest_cases name tag (bool b) = inr (inr refl)
sub_digest_cases name tag (int z) = inr (inr refl)
sub_digest_cases name tag (str s) = inr (inr refl)
sub_digest_cases name tag other = inr (inr refl)
sub_digest_cases name tag (buffer b) = elim (Bool-cases (length b == 32)) [
  | inl h ↦ inr (inl (b, refl, (==_iff _ _).0 h, rw h))
  | inr h ↦ inr (inr (rw h))
]

-- What each check returned tells the object that it was given.
pub mandatory_digest-eq-ok :
    (name : String) (tag : ℕ) (v : Value) (b : Bytes)
    → mandatory_digest name tag v ≡ ok b
    → (v ≡ buffer b) × (length b ≡ 32)
mandatory_digest-eq-ok name tag v b h = elim (mandatory_digest_cases name tag v) [
  | inl (c, e, l, k) ↦ let same : c ≡ b = cc in (cc, ap length (sym same) ∙ l)
  | inr k ↦ cc
]

abbrev pub optional_buffer : Option Bytes → Value
optional_buffer none = null
optional_buffer (some b) = buffer b

abbrev pub optional_str : Option Text → Value
optional_str none = null
optional_str (some s) = str s

pub sub_digest-eq-ok :
    (name : String) (tag : ℕ) (v : Value) (o : Option Bytes)
    → sub_digest name tag v true ≡ ok o
    → v ≡ optional_buffer o
sub_digest-eq-ok name tag v o h = elim (sub_digest_cases name tag v) [
  | inl (e, k) ↦ let same : none ≡ o = cc in e ∙ ap optional_buffer same
  | inr (inl (c, e, l, k)) ↦ let same : some c ≡ o = cc in e ∙ ap optional_buffer same
  | inr (inr k) ↦ cc
]

pub rd_text-eq-ok : (v : Value) (s : Text) → rd_text v ≡ ok s → v ≡ str s
unfolding rd_text
rd_text-eq-ok (str t) s h = cc
rd_text-eq-ok _ s h = cc

pub rd_opt-eq-ok : (v : Value) (o : Option Text) → rd_opt v ≡ ok o → v ≡ optional_str o
unfolding rd_opt
rd_opt-eq-ok null o h = let e : none ≡ o = cc in ap optional_str e
rd_opt-eq-ok (str t) o h = let e : some t ≡ o = cc in ap optional_str e
rd_opt-eq-ok _ o h = cc

pub mandatory_text-eq-ok :
    (name : String) (tag : ℕ) (v : Value) (s : Text)
    → mandatory_text name tag v ≡ ok s
    → (v ≡ str s) × (s ≢ [])
unfolding mandatory_text
mandatory_text-eq-ok name tag (str []) s h = cc
mandatory_text-eq-ok name tag (str (c ∷ t)) s h = (cc, λ e. cc)
mandatory_text-eq-ok name tag _ s h = (cc, λ e. cc)
