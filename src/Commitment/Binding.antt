-- ===== src/Commitment/Binding.antt =====
-- What the explanation and the commitment digests bind.
use seam_sdk.Prelude.{
  ◌≡◌, refl, sym, ap, ◌∙◌, ◌⊎◌, inl, inr, List, [], ◌∷◌, ◌++◌, length, ok, arith, raise_unless,
  value_error, after_bind, ok_injective,
}
use seam_sdk.Bytes.{Bytes, Text}
use seam_sdk.Hash.{Collision, same_or_Collision}
use seam_sdk.Wire.{Slot, be_framed, be_opt_text, be_count, double, join}
use seam_sdk.Wire.Cancel.{join-append, join-injective}
use seam_sdk.Signing.Inversion.{join-join}
use seam_sdk.Client.{hexdigest}
use seam_sdk.Commitment.{
  explanation_domain, is_kind, is_canonical, Entry, text_slots, entry_bytes, entries_bytes,
  Commitment, committer_text, field_slots, explanation_digest, commitment_explanation_digest,
  seam_commitment_digest,
}

abbrev entry_slots : Entry → List Slot
entry_slots e = text_slots e ++ (double e.confidence ∷ be_opt_text e.rationale_ref ∷ [])

abbrev entries_slots : List Entry → List Slot
entries_slots [] = []
entries_slots (e ∷ es) = entry_slots e ++ entries_slots es

entry_bytes-join : (e : Entry) (b : Bytes) → entry_bytes e ≡ ok b → join (entry_slots e) ≡ ok b
unfolding entry_bytes
entry_bytes-join e b r0 = after_bind (raise_unless (is_kind e.kind) value_error) _ r0 λ known h1 r1.
    after_bind (join (text_slots e)) _ r1 λ texts h2 r2.
      after_bind (raise_unless (is_canonical e.confidence) value_error) _ r2 λ stated h3 r3.
        after_bind (join (double e.confidence ∷ be_opt_text e.rationale_ref ∷ [])) _ r3
          λ rest h4 r4. join-join (text_slots e) _ texts rest h2 h4 ∙ r4

entries_bytes-join :
    (es : List Entry) (b : Bytes) → entries_bytes es ≡ ok b → join (entries_slots es) ≡ ok b
unfolding entries_bytes join
entries_bytes-join [] b h = h
entries_bytes-join (e ∷ es) b r0 = after_bind (entry_bytes e) _ r0 λ c h1 r1.
    after_bind (entries_bytes es) _ r1 λ cs h2 r2.
      join-join (entry_slots e) _ c cs (entry_bytes-join e c h1) (entries_bytes-join es cs h2) ∙ r2

entry-injective : (e f : Entry) → entry_slots e ≡ entry_slots f → e ≡ f
unfolding text_slots
entry-injective e f h = cc

entries-injective :
    (es fs : List Entry) (b : Bytes)
    → length es ≡ length fs
    → join (entries_slots es) ≡ ok b
    → join (entries_slots fs) ≡ ok b
    → es ≡ fs
unfolding text_slots
entries-injective [] [] b n h k = refl
entries-injective [] (f ∷ fs) b n h k = cc
entries-injective (e ∷ es) [] b n h k = cc
entries-injective (e ∷ es) (f ∷ fs) b n h k =
    let (same, c, h', k') = join-append (entry_slots e) (entry_slots f) _ _ b refl h k in
    let m : length es ≡ length fs = omega (arith, n) in
    let rest : es ≡ fs = entries-injective es fs c m h' k' in
    let first : e ≡ f = entry-injective e f same in cc

abbrev head_slots : List Entry → List Slot
head_slots es = be_framed explanation_domain ∷ be_count (length es) ∷ []

explanation-injective :
    (es fs : List Entry) (b : Bytes)
    → join (head_slots es ++ entries_slots es) ≡ ok b
    → join (head_slots fs ++ entries_slots fs) ≡ ok b
    → es ≡ fs
explanation-injective es fs b h k =
    let (same, c, h', k') = join-append (head_slots es) (head_slots fs) _ _ b refl h k in
    entries-injective es fs c (counted same) h' k'
  where
    counted : head_slots es ≡ head_slots fs → length es ≡ length fs
    counted e = cc

module _ (hash : Bytes → Bytes) where
  explanation_preimage :
      (es : List Entry) (d : Bytes)
      → explanation_digest hash es ≡ ok d
      → (b : Bytes) × (join (head_slots es ++ entries_slots es) ≡ ok b) × (hash b ≡ d)
  unfolding explanation_digest
  explanation_preimage es d r0 = after_bind (join (head_slots es)) _ r0 λ head h1 r1.
      after_bind (entries_bytes es) _ r1 λ rest h2 r2. (
        head ++ rest,
        join-join (head_slots es) (entries_slots es) head rest h1 (entries_bytes-join es rest h2),
        ok_injective r2,
      )

  -- Two explanations with one digest are the same entries in the same order, each with the same
  -- confidence and the same reference, stated or absent; or their preimages collide under the hash.
  pub explanation_digest_binds :
      (es fs : List Entry) (d : Bytes)
      → explanation_digest hash es ≡ ok d
      → explanation_digest hash fs ≡ ok d
      → (es ≡ fs) ⊎ Collision hash
  explanation_digest_binds es fs d h k =
      let (b, hb, hd) = explanation_preimage es d h in
      let (c, hc, kd) = explanation_preimage fs d k in
      elim (same_or_Collision hash b c (hd ∙ sym kd)) [
        | inl e ↦ inl (explanation-injective es fs c (hb ∙ ap ok e) hc)
        | inr x ↦ inr x
      ]

  -- The fields of two commitments agree, a missing committer counting as an empty one, and so do
  -- their explanation digests.
  pub record SameCommitment (c d : Commitment) : Type 0 where
    pub id : c.id ≡ d.id
    pub action : c.action ≡ d.action
    pub authority : c.authority ≡ d.authority
    pub supersedes : c.supersedes ≡ d.supersedes
    pub auth_method : c.auth_method ≡ d.auth_method
    pub trust_basis : c.trust_basis ≡ d.trust_basis
    pub committer : committer_text c.committer ≡ committer_text d.committer
    pub explained :
        commitment_explanation_digest hash c.published c.explanation
        ≡ commitment_explanation_digest hash d.published d.explanation

  commitment_preimage :
      (c : Commitment) (t : Text)
      → seam_commitment_digest hash c ≡ ok t
      → (x : Bytes) × (b : Bytes) × (commitment_explanation_digest hash c.published c.explanation
          ≡ ok x)
        × (join (field_slots c ++ (be_framed x ∷ [])) ≡ ok b)
        × (hexdigest (hash b) ≡ t)
  unfolding seam_commitment_digest
  commitment_preimage c t r0 = after_bind (join (field_slots c)) _ r0 λ head h1 r1.
      after_bind (commitment_explanation_digest hash c.published c.explanation) _ r1 λ x h2 r2.
        after_bind (join (be_framed x ∷ [])) _ r2 λ tail h3 r3.
          (x, head ++ tail, h2, join-join (field_slots c) _ head tail h1 h3, ok_injective r3)

  fields-same :
      (c d : Commitment) (x y : Bytes)
      → commitment_explanation_digest hash c.published c.explanation ≡ ok x
      → commitment_explanation_digest hash d.published d.explanation ≡ ok y
      → field_slots c ++ (be_framed x ∷ []) ≡ field_slots d ++ (be_framed y ∷ [])
      → SameCommitment c d
  unfolding field_slots
  fields-same c d x y hx hy e =
      let same : x ≡ y = cc in
      record {
        id = cc;
        action = cc;
        authority = cc;
        supersedes = cc;
        auth_method = cc;
        trust_basis = cc;
        committer = cc;
        explained = hx ∙ ap ok same ∙ sym hy;
      }

  -- Two commitments with one digest agree in every field, and in the digest of their explanations;
  -- or two preimages have one hexadecimal digest. A field cannot run over into the next, and a
  -- missing prior is not an empty one.
  pub seam_commitment_digest_binds :
      (c d : Commitment) (t : Text)
      → seam_commitment_digest hash c ≡ ok t
      → seam_commitment_digest hash d ≡ ok t
      → SameCommitment c d ⊎ Collision (λ b. hexdigest (hash b))
  unfolding field_slots
  seam_commitment_digest_binds c d t h k =
      let (x, b, hx, hb, ht) = commitment_preimage c t h in
      let (y, b', hy, hb', kt) = commitment_preimage d t k in
      elim (same_or_Collision (λ b. hexdigest (hash b)) b b' (ht ∙ sym kt)) [
        | inl e ↦ inl (fields-same c d x y hx hy (join-injective _ _ b' refl (hb ∙ ap ok e) hb'))
        | inr x ↦ inr x
      ]
