-- ===== src/Presentation/Derived.antt =====
-- The bits of a derived id.
use seam_sdk.Prelude.{
  ℕ, zero, suc, ◌/◌, ◌<◌, ◌≡◌, ◌≢◌, refl, sym, ap, ◌∙◌, subst, [], ◌∷◌, length, ◌==◌, ==_iff,
  Bool-cases, inl, inr, arith, ok, err, value_error, after_bind, ok_injective,
}
use seam_sdk.Bytes.{Bytes, Text}
use seam_sdk.Tct.{encode_ascii}
use seam_sdk.Presentation.{change, version_4, variant, uuid_of, derived_uuid}

abbrev pub byte_at : ℕ → Bytes → ℕ
byte_at i [] = 0
byte_at zero (x ∷ b) = x
byte_at (suc i) (x ∷ b) = byte_at i b

length-change : (i : ℕ) (f : ℕ → ℕ) (b : Bytes) → length (change i f b) ≡ length b
unfolding change
length-change i f [] = refl
length-change zero f (x ∷ b) = refl
length-change (suc i) f (x ∷ b) = ap suc (length-change i f b)

byte_at-change :
    (i : ℕ) (f : ℕ → ℕ) (b : Bytes) → i < length b → byte_at i (change i f b) ≡ f (byte_at i b)
unfolding change
byte_at-change i f [] h = absurd (omega arith)
byte_at-change zero f (x ∷ b) h = refl
byte_at-change (suc i) f (x ∷ b) h = byte_at-change i f b (omega arith)

byte_at-change_other :
    (i j : ℕ) (f : ℕ → ℕ) (b : Bytes) → i ≢ j → byte_at i (change j f b) ≡ byte_at i b
unfolding change
byte_at-change_other i j f [] h = refl
byte_at-change_other zero zero f (x ∷ b) h = absurd (h refl)
byte_at-change_other zero (suc j) f (x ∷ b) h = refl
byte_at-change_other (suc i) zero f (x ∷ b) h = refl
byte_at-change_other (suc i) (suc j) f (x ∷ b) h = byte_at-change_other i j f b (λ e. h (ap suc e))

-- Sixteen bytes, of version 4 and the variant of RFC 9562.
pub record IsVersion4 (u : Bytes) : Type 0 where
  pub size : length u ≡ 16
  pub version : byte_at 6 u / 16 ≡ 4
  pub variant_bits : byte_at 8 u / 64 ≡ 2

forced : (b : Bytes) → length b ≡ 16 → IsVersion4 (change 8 variant (change 6 version_4 b))
forced b h =
    let inner : length (change 6 version_4 b) ≡ 16 = length-change 6 version_4 b ∙ h in
    record {
      size = length-change 8 variant _ ∙ inner;
      version =
          ap (λ x. x / 16)
            (byte_at-change_other 6 8 variant (change 6 version_4 b) (λ e. omega arith)
              ∙ byte_at-change 6 version_4 b (omega arith))
          ∙ version_nibble (byte_at 6 b);
      variant_bits =
          ap (λ x. x / 64) (byte_at-change 8 variant (change 6 version_4 b) (omega arith))
          ∙ variant_pair (byte_at 8 (change 6 version_4 b));
    }
  where
    version_nibble : (x : ℕ) → version_4 x / 16 ≡ 4
    version_nibble x = omega arith

    variant_pair : (x : ℕ) → variant x / 64 ≡ 2
    variant_pair x = omega arith

uuid_of-same : (b u : Bytes) → uuid_of b ≡ ok u → (b ≡ u) × (length b ≡ 16)
unfolding uuid_of
uuid_of-same b u h = elim (Bool-cases (length b == 16)) [
  | inl e ↦ (ok_injective (rw (e, uuid_of) at h), (==_iff (length b) 16).0 e)
  | inr e ↦ absurd (refused (rw (e, uuid_of) at h))
]
  where
    refused : err value_error ≡ ok u → ⊥
    refused e = cc

-- Every id that is derived, under any tag and from any input, is a UUID of version 4 and of the RFC's
-- variant, whatever the hash gives.
pub derived_uuid-IsVersion4 :
    (hash : Bytes → Bytes) (tag : Text) (input u : Bytes)
    → derived_uuid hash tag input ≡ ok u
    → IsVersion4 u
unfolding derived_uuid
derived_uuid-IsVersion4 hash tag input u h = after_bind (encode_ascii tag) _ h λ prefix e r.
    let (same, size) = uuid_of-same _ u r in
    subst IsVersion4 same
      (forced _ (sym (length-change 6 version_4 _) ∙ sym (length-change 8 variant _) ∙ size))
