-- ===== src/Chain/Acceptance.antt =====
-- What an accepted chain-head attestation is bound to.
use seam_sdk.Prelude.{
  ℕ, ◌≡◌, refl, sym, ap, ap₂, ◌∙◌, subst, ◌⊎◌, inl, inr, [], ◌∷◌, arith, Bool, true, false, Result,
  ok, ◌>>=◌, >>=-eq-ok, after_bind, ok_injective, Result-cases,
}
use seam_sdk.Prelude.Int.{ℤ, pos, negsuc}
use seam_sdk.Bytes.{Bytes, Text}
use seam_sdk.Hash.{Collision, Bytes-discrete}
use seam_sdk.Checks.{Value, int, str, buffer, as_bytes, rd_text, require_int, in_range}
use seam_sdk.Checks.Refusals.{rd_text-eq-ok}
use seam_sdk.Keys.{Ed25519, key_of}
use seam_sdk.Chain.{
  Attestation, Typed, Head, framing_tenant, need_bytes, check_types, check_ranges,
  chain_head_attestation_digest, verify_typed, verify_chain_head_attestation,
}
use seam_sdk.Chain.Verdicts.{attestation}
use seam_sdk.Keys.Laws.{Ambiguous}
use seam_sdk.Chain.Binding.{chain_head_attestation_digest_binds}

require_int-eq-ok : (v : Value) (z : ℤ) → require_int v ≡ ok z → v ≡ int z
unfolding require_int
require_int-eq-ok (int y) z h = cc
require_int-eq-ok _ z h = cc

need_bytes-eq-ok : (v : Value) (b : Bytes) → need_bytes v ≡ ok b → v ≡ buffer b
unfolding need_bytes as_bytes
need_bytes-eq-ok (buffer c) b h = cc
need_bytes-eq-ok _ b h = cc

check_types-attestation : (a : Attestation) (t : Typed) → check_types a ≡ ok t → a ≡ attestation t
unfolding check_types
check_types-attestation a t r0 = after_bind (require_int a.attested_len) _ r0 λ z1 h1 r1.
    after_bind (require_int a.attested_at) _ r1 λ z2 h2 r2.
      after_bind (require_int a.digest_schema) _ r2 λ z3 h3 r3.
        after_bind (need_bytes a.attested_head) _ r3 λ b h4 r4.
          after_bind (rd_text a.issuer_aid) _ r4 λ s h5 r5.
            after_bind (rd_text a.tenant) _ r5 λ n h6 r6.
              after_bind (need_bytes a.signature) _ r6 λ g h7 r7.
                subst (λ t. a ≡ attestation t) (ok_injective r7)
                  (λ i. record {
                    issuer_aid = rd_text-eq-ok _ _ h5 i;
                    attested_len = require_int-eq-ok _ _ h1 i;
                    attested_head = need_bytes-eq-ok _ _ h4 i;
                    attested_at = require_int-eq-ok _ _ h2 i;
                    digest_schema = require_int-eq-ok _ _ h3 i;
                    signature = need_bytes-eq-ok _ _ h7 i;
                    tenant = rd_text-eq-ok _ _ h6 i;
                  })

in_range-eq-ok : (z : ℤ) (bits n : ℕ) → in_range z bits ≡ ok n → z ≡ pos n
unfolding in_range
in_range-eq-ok (pos m) bits n h = ground arith
in_range-eq-ok (negsuc m) bits n h = cc

framing_tenant-injective : (s t : Text) → framing_tenant s ≡ framing_tenant t → s ≡ t
unfolding framing_tenant
framing_tenant-injective [] [] e = refl
framing_tenant-injective [] (c ∷ t) e = cc
framing_tenant-injective (c ∷ s) [] e = cc
framing_tenant-injective (c ∷ s) (d ∷ t) e = cc

-- The typed arguments that have a given head, under a signature.
record Heads (t : Typed) (h : Head) : Type 0 where
  attested_len : t.attested_len ≡ pos h.attested_len
  attested_at : t.attested_at ≡ pos h.attested_at
  digest_schema : t.digest_schema ≡ pos h.digest_schema
  attested_head : t.attested_head ≡ h.attested_head
  issuer_aid : t.issuer_aid ≡ h.issuer_aid
  tenant : framing_tenant t.tenant ≡ h.tenant

check_ranges-Heads : (t : Typed) (h : Head) → check_ranges t ≡ ok h → Heads t h
unfolding check_ranges
check_ranges-Heads t h r0 = after_bind (in_range t.attested_len 64) _ r0 λ n e1 r1.
    after_bind (in_range t.attested_at 64) _ r1 λ m e2 r2.
      after_bind (in_range t.digest_schema 32) _ r2 λ k e3 r3.
        subst (Heads t) (ok_injective r3) (record {
          attested_len = in_range-eq-ok _ 64 _ e1;
          attested_at = in_range-eq-ok _ 64 _ e2;
          digest_schema = in_range-eq-ok _ 32 _ e3;
          attested_head = refl;
          issuer_aid = refl;
          tenant = refl;
        })

same_typed :
    (t u : Typed) (h k : Head) → Heads t h → Heads u k → h ≡ k → t.signature ≡ u.signature → t ≡ u
same_typed t u h k a b e s = λ i. record {
  attested_len = (a.attested_len ∙ ap (λ (h : Head). pos h.attested_len) e ∙ sym b.attested_len) i;
  attested_at = (a.attested_at ∙ ap (λ (h : Head). pos h.attested_at) e ∙ sym b.attested_at) i;
  digest_schema =
      (a.digest_schema ∙ ap (λ (h : Head). pos h.digest_schema) e ∙ sym b.digest_schema) i;
  attested_head = (a.attested_head ∙ ap (λ (h : Head). h.attested_head) e ∙ sym b.attested_head) i;
  issuer_aid = (a.issuer_aid ∙ ap (λ (h : Head). h.issuer_aid) e ∙ sym b.issuer_aid) i;
  tenant = framing_tenant-injective _ _ (a.tenant ∙ ap (λ (h : Head). h.tenant) e ∙ sym b.tenant) i;
  signature = s i;
}

str-injective : {s t : Text} → str s ≡ str t → s ≡ t
str-injective e = cc

buffer-injective : {b c : Bytes} → buffer b ≡ buffer c → b ≡ c
buffer-injective e = cc

module _ (ed : Ed25519) (hash : Bytes → Bytes) where
  accepted_typed :
      (t : Typed)
      → verify_typed ed hash t ≡ ok true
      → (h : Head) × (key : Bytes) × (d : Bytes) × (check_ranges t ≡ ok h)
        × (key_of ed t.issuer_aid ≡ ok key)
        × (chain_head_attestation_digest hash h ≡ ok d)
        × (ed.verify key t.signature d ≡ true)
  unfolding verify_typed
  accepted_typed t r = elim (Result-cases (check_ranges t)) [
    | inr (e, he) ↦ absurd (no (rw (he, verify_typed) at r))
    | inl (h, hh) ↦ elim (Result-cases (key_of ed t.issuer_aid)) [
      | inr (e, he) ↦ absurd (no (rw (hh, he, verify_typed) at r))
      | inl (key, hk) ↦
          let r' : (chain_head_attestation_digest hash h >>= λ d. ok (ed.verify key t.signature d))
              ≡ ok true =
            rw (hh, hk, verify_typed) at r in
          let (d, hd, e) = >>=-eq-ok (chain_head_attestation_digest hash h) _ r' in
          (h, key, d, hh, hk, hd, ok_injective e)
    ]
  ]
    where
      no : ◌≡◌ {A = Result Bool} (ok false) (ok true) → ⊥
      no e = cc

  -- Two accepted attestations with one issuer and one signature agree in every field, the tenant
  -- included; or the hash has a collision, or Ed25519 accepts a signature for two messages. So a
  -- v1 attestation that is relabelled to a tenant, or a v2 one to another, is not accepted without
  -- breaking one of the two.
  pub accepted_binds :
      (a b : Attestation)
      → verify_chain_head_attestation ed hash a ≡ ok true
      → verify_chain_head_attestation ed hash b ≡ ok true
      → a.issuer_aid ≡ b.issuer_aid
      → a.signature ≡ b.signature
      → (a ≡ b) ⊎ Collision hash ⊎ Ambiguous ed
  unfolding verify_chain_head_attestation
  accepted_binds a b ha hb ei es = after_bind (check_types a) _ ha λ t ht rt.
      after_bind (check_types b) _ hb λ u hu ru.
        same t u (check_types-attestation a t ht) (check_types-attestation b u hu)
          (accepted_typed t rt) (accepted_typed u ru)
    where
      Accepted : Typed → Type 0
      Accepted t =
          (h : Head) × (key : Bytes) × (d : Bytes) × (check_ranges t ≡ ok h)
          × (key_of ed t.issuer_aid ≡ ok key)
          × (chain_head_attestation_digest hash h ≡ ok d)
          × (ed.verify key t.signature d ≡ true)

      same :
          (t u : Typed)
          → a ≡ attestation t
          → b ≡ attestation u
          → Accepted t
          → Accepted u
          → (a ≡ b) ⊎ Collision hash ⊎ Ambiguous ed
      same t u et eu (h, key, d, hr, hk, hd, hv) (h', key', d', hr', hk', hd', hv') =
          let issuers : t.issuer_aid ≡ u.issuer_aid = str-injective (
            sym (ap (λ (a : Attestation). a.issuer_aid) et)
            ∙ ei
            ∙ ap (λ (a : Attestation). a.issuer_aid) eu) in
          let signatures : t.signature ≡ u.signature = buffer-injective (
            sym (ap (λ (a : Attestation). a.signature) et)
            ∙ es
            ∙ ap (λ (a : Attestation). a.signature) eu) in
          let keys : key' ≡ key = ok_injective (sym hk' ∙ ap (key_of ed) (sym issuers) ∙ hk) in
          let verified : ed.verify key t.signature d' ≡ true =
            ap₂ (λ k s. ed.verify k s d') (sym keys) signatures ∙ hv' in
          elim (Bytes-discrete d d') [
            | yes e ↦ elim (chain_head_attestation_digest_binds hash h h' d' (hd ∙ ap ok e) hd') [
              | inl heads ↦ inl (
                  et
                  ∙ ap attestation (
                      same_typed t u h h' (check_ranges-Heads t h hr) (check_ranges-Heads u h' hr')
                        heads signatures)
                  ∙ sym eu)
              | inr collision ↦ inr (inl collision)
            ]
            | no ne ↦ inr (inr (key, t.signature, d, d', ne, hv, verified))
          ]
