-- ===== src/Record/Binding.antt =====
-- A record digest binds every argument.
use seam_sdk.Prelude.{
  ◌≡◌, refl, sym, ap, subst, ◌∙◌, ◌⊎◌, inl, inr, arith, Bool, true, false, ok, raise_unless,
  unsupported_version, >>=-eq-ok, after_bind, ok_injective,
}
use seam_sdk.Prelude.Int.{pos}
use seam_sdk.Bytes.{Bytes}
use seam_sdk.Checks.{
  Value, str, int, buffer, as_bytes, mandatory_digest, sub_digest, mandatory_text, rd_text, rd_opt,
  uint_slot,
}
use seam_sdk.Checks.Refusals.{
  mandatory_digest-eq-ok, sub_digest-eq-ok, mandatory_text-eq-ok, rd_text-eq-ok, rd_opt-eq-ok,
  uint_slot_cases, optional_buffer, optional_str,
}
use seam_sdk.Hash.{Collision, same_or_Collision}
use seam_sdk.Wire.{join}
use seam_sdk.Wire.Cancel.{join-injective}
use seam_sdk.Record.{
  Sealed, Checked, is_v4, ciphertext_bytes, check, record_slots, record_digest_v4,
}

-- The arguments that pass the checks with a given outcome.
abbrev raw : Checked → Sealed
raw c = record {
  decision_id = str c.decision_id;
  tenant = str c.tenant;
  namespace = str c.namespace;
  ciphertext_digest = buffer c.ciphertext_digest;
  sealed_at = int (pos c.sealed_at);
  outcome = str c.outcome;
  mode = optional_str c.mode;
  policy_version = optional_str c.policy_version;
  supersedes = optional_str c.supersedes;
  context_digest = buffer c.context_digest;
  participation_digest = buffer c.participation_digest;
  policy_rules_digest = optional_buffer c.policy_rules_digest;
  classification = str c.classification;
  participants_digest = buffer c.participants_digest;
  trust_basis_commitment = str c.trust_basis_commitment;
  auth_method = str c.auth_method;
  schema_version = int (pos 4);
}

is_v4-eq : (v : Value) → is_v4 v ≡ true → v ≡ int (pos 4)
unfolding is_v4
is_v4-eq (int (pos n)) h = ground arith
is_v4-eq _ h = cc

ciphertext-eq-ok : (v : Value) (b : Bytes) → ciphertext_bytes v ≡ ok b → v ≡ buffer b
unfolding ciphertext_bytes as_bytes
ciphertext-eq-ok (buffer c) b h = cc
ciphertext-eq-ok _ b h = cc

raise_unless-eq-ok : (b : Bool) → raise_unless b unsupported_version ≡ ok tt → b ≡ true
raise_unless-eq-ok true h = refl
raise_unless-eq-ok false h = cc

check-raw : (s : Sealed) (c : Checked) → check s ≡ ok c → s ≡ raw c
unfolding check
check-raw s c r0 =
    after_bind (raise_unless (is_v4 s.schema_version) unsupported_version) _ r0 λ g h0 r1.
      after_bind (mandatory_digest "context_digest" 11 s.context_digest) _ r1 λ context h1 r2.
        after_bind (mandatory_digest "participation_digest" 12 s.participation_digest) _ r2
          λ participation h2 r3.
            after_bind (sub_digest "policy_rules_digest" 13 s.policy_rules_digest true) _ r3
              λ rules h3 r4.
                after_bind (mandatory_digest "participants_digest" 15 s.participants_digest) _ r4
                  λ participants h4 r5.
                    after_bind (mandatory_text "classification" 14 s.classification) _ r5
                      λ classification h5 r6.
                        after_bind
                          (mandatory_text "trust_basis_commitment" 16 s.trust_basis_commitment) _ r6
                          λ trust h6 r7.
                            after_bind (mandatory_text "auth_method" 17 s.auth_method) _ r7
                              λ auth h7 r8.
                                after_bind (ciphertext_bytes s.ciphertext_digest) _ r8
                                  λ ciphertext h8 r9.
                                    after_bind (rd_text s.decision_id) _ r9 λ decision h9 r10.
                                      after_bind (rd_text s.tenant) _ r10 λ tenant h10 r11.
                                        after_bind (rd_text s.namespace) _ r11 λ namespace h11 r12.
                                          after_bind (rd_text s.outcome) _ r12 λ outcome h12 r13.
                                            after_bind (rd_opt s.mode) _ r13 λ mode h13 r14.
                                              after_bind (rd_opt s.policy_version) _ r14
                                                λ policy h14 r15.
                                                  after_bind (rd_opt s.supersedes) _ r15
                                                    λ supersedes h15 r16.
                                                      after_bind (uint_slot s.sealed_at 64) _ r16
                                                        λ issued h16 r17.
                                                          subst (λ k. s ≡ raw k) (ok_injective r17)
                                                            (λ i. record {
                                                            decision_id = (rd_text-eq-ok _ _ h9) i;
                                                            tenant = (rd_text-eq-ok _ _ h10) i;
                                                            namespace = (rd_text-eq-ok _ _ h11) i;
                                                            ciphertext_digest =
                                                            (ciphertext-eq-ok _ _ h8) i;
                                                            sealed_at =
                                                            ((uint_slot_cases _ 64 _ h16).0) i;
                                                            outcome = (rd_text-eq-ok _ _ h12) i;
                                                            mode = (rd_opt-eq-ok _ _ h13) i;
                                                            policy_version =
                                                            (rd_opt-eq-ok _ _ h14) i;
                                                            supersedes = (rd_opt-eq-ok _ _ h15) i;
                                                            context_digest =
                                                            ((mandatory_digest-eq-ok _ _ _ _ h1).0)
                                                            i;
                                                            participation_digest =
                                                            ((mandatory_digest-eq-ok _ _ _ _ h2).0)
                                                            i;
                                                            policy_rules_digest =
                                                            (sub_digest-eq-ok _ _ _ _ h3) i;
                                                            classification =
                                                            ((mandatory_text-eq-ok _ _ _ _ h5).0) i;
                                                            participants_digest =
                                                            ((mandatory_digest-eq-ok _ _ _ _ h4).0)
                                                            i;
                                                            trust_basis_commitment =
                                                            ((mandatory_text-eq-ok _ _ _ _ h6).0) i;
                                                            auth_method =
                                                            ((mandatory_text-eq-ok _ _ _ _ h7).0) i;
                                                            schema_version =
                                                            (is_v4-eq s.schema_version
                                                            (raise_unless-eq-ok _ h0))
                                                            i;
                                                            })

record_slots-injective : (c d : Checked) → record_slots c ≡ record_slots d → c ≡ d
unfolding record_slots
record_slots-injective c d e = cc

-- Two records with one digest are the same in all seventeen arguments, or the hash has a collision.
pub record_digest_v4_binds :
    (hash : Bytes → Bytes) (s t : Sealed) (d : Bytes)
    → record_digest_v4 hash s ≡ ok d
    → record_digest_v4 hash t ≡ ok d
    → (s ≡ t) ⊎ Collision hash
unfolding record_digest_v4
record_digest_v4_binds hash s t d h k =
    let (c, hc, h1) = >>=-eq-ok (check s) _ h in
    let (p, hp, h2) = >>=-eq-ok (join (record_slots c)) _ h1 in
    let (c', kc, k1) = >>=-eq-ok (check t) _ k in
    let (q, kq, k2) = >>=-eq-ok (join (record_slots c')) _ k1 in
    let same : hash p ≡ hash q = cc in
    elim (same_or_Collision hash p q same) [
      | inl e ↦
          let slots : record_slots c ≡ record_slots c' =
            join-injective _ _ q (unfold record_slots in refl) (hp ∙ ap ok e) kq in
          let r : c ≡ c' = record_slots-injective c c' slots in
          inl (check-raw s c hc ∙ ap raw r ∙ sym (check-raw t c' kc))
      | inr x ↦ inr x
    ]
