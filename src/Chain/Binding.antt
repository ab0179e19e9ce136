-- ===== src/Chain/Binding.antt =====
-- An attestation digest binds every field, the tenant and its absence included.
use seam_sdk.Prelude.{
  ◌≡◌, refl, sym, ap, ◌∙◌, ◌⊎◌, inl, inr, List, ◌∷◌, map, true, false, bytes_eq, Option, none, some,
  ok, >>=-eq-ok,
}
use seam_sdk.Bytes.{Bytes, Text}
use seam_sdk.Hash.{Collision, same_or_Collision}
use seam_sdk.Wire.{framed, join}
use seam_sdk.Wire.Cancel.{
  Kind, kind, framed_kind, packed_kind, text_kind, join-cons, join-injective,
}
use seam_sdk.Chain.{
  Head, tenant_slots, domain_of, chain_domain_v1, chain_domain_v2, head_slots,
  chain_head_attestation_digest,
}

-- The domain tags of the two framings differ.
same_framing :
    (a b : Head) (p : Bytes)
    → join (head_slots a) ≡ ok p
    → join (head_slots b) ≡ ok p
    → domain_of a.tenant ≡ domain_of b.tenant
unfolding head_slots
same_framing a b p h k =
    let (e, _, _, _) =
      join-cons (framed (domain_of a.tenant)) (framed (domain_of b.tenant)) _ _ p refl h k in
    cc

tenant_kinds : Option Text → List Kind
unfolding tenant_slots
tenant_kinds o =
    framed_kind
    ∷ packed_kind 8
    ∷ framed_kind
    ∷ packed_kind 8
    ∷ packed_kind 4
    ∷ text_kind
    ∷ map kind (tenant_slots o)

head_kinds : (a : Head) → map kind (head_slots a) ≡ tenant_kinds a.tenant
unfolding head_slots tenant_kinds
head_kinds a = refl

head_slots-injective : (a b : Head) → a.tenant ≡ b.tenant → head_slots a ≡ head_slots b → a ≡ b
unfolding head_slots
head_slots-injective a b e h = λ i. record {
  attested_len = n i;
  attested_head = x i;
  attested_at = m i;
  digest_schema = k i;
  issuer_aid = s i;
  tenant = e i;
}
  where
    n : a.attested_len ≡ b.attested_len
    n = cc

    x : a.attested_head ≡ b.attested_head
    x = cc

    m : a.attested_at ≡ b.attested_at
    m = cc

    k : a.digest_schema ≡ b.digest_schema
    k = cc

    s : a.issuer_aid ≡ b.issuer_aid
    s = cc

same_head :
    (a b : Head) (p : Bytes)
    → map kind (head_slots a) ≡ map kind (head_slots b)
    → (head_slots a ≡ head_slots b → a.tenant ≡ b.tenant)
    → join (head_slots a) ≡ ok p
    → join (head_slots b) ≡ ok p
    → a ≡ b
same_head a b p w f h k =
    let e : head_slots a ≡ head_slots b = join-injective _ _ p w h k in
    head_slots-injective a b (f e) e

last_tenant :
    (a b : Head) (x y : Text)
    → a.tenant ≡ some x
    → b.tenant ≡ some y
    → head_slots a ≡ head_slots b
    → x ≡ y
unfolding head_slots
last_tenant a b x y es et e =
    let e' : tenant_slots a.tenant ≡ tenant_slots b.tenant = cc in
    let f : tenant_slots (some x) ≡ tenant_slots (some y) =
      ap tenant_slots (sym es) ∙ e' ∙ ap tenant_slots et in
    cc

slots_injective :
    (a b : Head) (p : Bytes) (s t : Option Text)
    → a.tenant ≡ s
    → b.tenant ≡ t
    → join (head_slots a) ≡ ok p
    → join (head_slots b) ≡ ok p
    → a ≡ b
unfolding tenant_kinds domain_of
slots_injective a b p none none es et h k =
    same_head a b p
      (head_kinds a ∙ ap tenant_kinds es ∙ sym (ap tenant_kinds et) ∙ sym (head_kinds b))
      (λ e. es ∙ sym et) h k
slots_injective a b p (some x) (some y) es et h k =
    same_head a b p
      (head_kinds a ∙ ap tenant_kinds es ∙ sym (ap tenant_kinds et) ∙ sym (head_kinds b))
      (λ e. es ∙ ap some (last_tenant a b x y es et e) ∙ sym et) h k
slots_injective a b p none (some y) es et h k =
    let d : chain_domain_v1 ≡ chain_domain_v2 =
      sym (ap domain_of es) ∙ same_framing a b p h k ∙ ap domain_of et in
    let apart : true ≡ false = ap (bytes_eq chain_domain_v1) d in cc
slots_injective a b p (some x) none es et h k =
    let d : chain_domain_v2 ≡ chain_domain_v1 =
      sym (ap domain_of es) ∙ same_framing a b p h k ∙ ap domain_of et in
    let apart : true ≡ false = ap (bytes_eq chain_domain_v2) d in cc

-- Two attested heads with one digest are the same head for the same tenant, or their preimages
-- collide under the hash.
pub chain_head_attestation_digest_binds :
    (hash : Bytes → Bytes) (a b : Head) (d : Bytes)
    → chain_head_attestation_digest hash a ≡ ok d
    → chain_head_attestation_digest hash b ≡ ok d
    → (a ≡ b) ⊎ Collision hash
unfolding chain_head_attestation_digest
chain_head_attestation_digest_binds hash a b d h k =
    let (p, hp, h') = >>=-eq-ok (join (head_slots a)) _ h in
    let (q, hq, k') = >>=-eq-ok (join (head_slots b)) _ k in
    let same : hash p ≡ hash q = cc in
    elim (same_or_Collision hash p q same) [
      | inl e ↦ inl (slots_injective a b q a.tenant b.tenant refl refl (hp ∙ ap ok e) hq)
      | inr x ↦ inr x
    ]
