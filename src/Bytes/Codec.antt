-- ===== src/Bytes/Codec.antt =====
-- An encoding of text that goes code point by code point, as UTF-8 and UTF-16 do.
use seam_sdk.Prelude.{
  ℕ, ◌≡◌, refl, sym, ◌∙◌, ap, ap₂, Bool, all, both_true, ltb, ◌&&◌, ◌||◌, true, [], ◌∷◌, ◌++◌,
  Result, ok, ok_injective, ◌>>=◌, >>=-eq-ok,
}
use seam_sdk.Bytes.{Bytes, Text}

-- A code point that is no surrogate.
unfoldable pub is_scalar : ℕ → Bool
is_scalar c = ltb c 0xd800 || (ltb 0xdfff c && ltb c 0x110000)

-- The encoding of a code point, which ends where it says and exists for every scalar, and that of a text.
pub record IsCodec (char : ℕ → Result Bytes) (text : Text → Result Bytes) : Type 0 where
  pub nil : text [] ≡ ok []
  pub cons : (c : ℕ) (s : Text) → text (c ∷ s) ≡ (char c >>= λ b. text s >>= λ bs. ok (b ++ bs))
  pub cancel :
      (c d : ℕ) (p q r s : Bytes)
      → char c ≡ ok p
      → char d ≡ ok q
      → p ++ r ≡ q ++ s
      → (c ≡ d) × (r ≡ s)
  pub nonempty : (c : ℕ) → char c ≡ ok [] → ⊥
  pub total : (c : ℕ) → is_scalar c ≡ true → (b : Bytes) × (char c ≡ ok b)

append-nonempty : (p q : Bytes) → p ++ q ≡ [] → p ≡ []
append-nonempty [] q e = refl
append-nonempty (x ∷ p) q e = cc

module _ (char : ℕ → Result Bytes) (text : Text → Result Bytes) (codec : IsCodec char text) where
  text-cons :
      (c : ℕ) (s : Text) (b : Bytes)
      → text (c ∷ s) ≡ ok b
      → (p : Bytes) × (q : Bytes) × (char c ≡ ok p) × (text s ≡ ok q) × (p ++ q ≡ b)
  text-cons c s b h =
      let (p, hp, k) = >>=-eq-ok (char c) _ (sym (codec.cons c s) ∙ h) in
      let (q, hq, e) = >>=-eq-ok (text s) _ k in (p, q, hp, hq, ok_injective e)

  pub text_cons-ne-nil : (c : ℕ) (s : Text) → text (c ∷ s) ≡ ok [] → ⊥
  text_cons-ne-nil c s h =
      let (p, q, hp, hq, e) = text-cons c s [] h in
      codec.nonempty c (hp ∙ ap ok (append-nonempty p q e))

  -- Two texts with one encoding are one text.
  pub text-injective : (s t : Text) (b : Bytes) → text s ≡ ok b → text t ≡ ok b → s ≡ t
  text-injective [] [] b h k = refl
  text-injective [] (d ∷ t) b h k = absurd (text_cons-ne-nil d t (k ∙ sym h ∙ codec.nil))
  text-injective (c ∷ s) [] b h k = absurd (text_cons-ne-nil c s (h ∙ sym k ∙ codec.nil))
  text-injective (c ∷ s) (d ∷ t) b h k =
      let (p, q, hp, hq, e) = text-cons c s b h in
      let (p', q', hp', hq', e') = text-cons d t b k in
      let (x, y) = codec.cancel c d p p' q q' hp hp' (e ∙ sym e') in
      ap₂ (λ a v. a ∷ v) x (text-injective s t q hq (hq' ∙ ap ok (sym y)))

  -- Every text without surrogates has an encoding.
  pub text_total : (s : Text) → all is_scalar s ≡ true → (b : Bytes) × (text s ≡ ok b)
  text_total [] h = ([], codec.nil)
  text_total (c ∷ s) h =
      let (a, b) = both_true (is_scalar c) _ h in
      let (p, hp) = codec.total c a in
      let (q, hq) = text_total s b in (p ++ q, codec.cons c s ∙ rw (hp, hq) refl)
