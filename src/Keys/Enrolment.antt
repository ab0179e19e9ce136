-- ===== src/Keys/Enrolment.antt =====
-- An enrolment proof verifies for the key that signed it, and for no other binding.
use seam_sdk.Prelude.{
  ◌≡◌, sym, ap, ◌∙◌, ◌⊎◌, true, false, ok, ◌>>=◌, >>=-eq-ok, Result-cases, inl, inr, subst,
}
use seam_sdk.Bytes.{Bytes, Text}
use seam_sdk.Checks.{Value}
use seam_sdk.Signing.{enroll_pop_payload}
use seam_sdk.Signing.Binding.{payload, by_enroll, payload_binds}
use seam_sdk.Keys.{
  Ed25519, EnrollProof, validate_enroll_pop_nonce, aid_from_pubkey, agent_aid, enroll_pop, key_of,
  verify_enroll_pop,
}
use seam_sdk.Hash.{Bytes-discrete}
use seam_sdk.Keys.Laws.{Ambiguous, Ed25519Laws, aid_to_pubkey-aid_from_pubkey}

module _ (ed : Ed25519) where
  enroll_pop_parts :
      (seed : Bytes) (tenant namespace : Text) (issued nonce : Value) (proof : EnrollProof)
      → enroll_pop ed seed tenant namespace issued nonce ≡ ok proof
      → (checked : Text) × (sk : Bytes) × (message : Bytes) × (ed.load_seed seed ≡ ok sk)
        × (enroll_pop_payload (aid_from_pubkey (ed.public_key sk)) tenant namespace issued checked
            ≡ ok message)
        × (proof
            ≡ record { issued_at_ms = issued; nonce = checked; signature = ed.sign sk message })
  unfolding enroll_pop
  enroll_pop_parts seed tenant namespace issued nonce proof h =
      let made = λ (sk checked message : Bytes).
        let p : EnrollProof = record {
          issued_at_ms = issued;
          nonce = checked;
          signature = ed.sign sk message;
        } in
        p in
      let (checked, hc, h') =
        >>=-eq-ok (validate_enroll_pop_nonce nonce)
          (λ checked. ed.load_seed seed >>= λ sk.
            enroll_pop_payload (aid_from_pubkey (ed.public_key sk)) tenant namespace issued checked
            >>= λ m. ok (made sk checked m))
          h in
      let (sk, hs, h'') =
        >>=-eq-ok (ed.load_seed seed)
          (λ sk.
            enroll_pop_payload (aid_from_pubkey (ed.public_key sk)) tenant namespace issued checked
            >>= λ m. ok (made sk checked m))
          h' in
      let (m, hm, e) =
        >>=-eq-ok
          (enroll_pop_payload (aid_from_pubkey (ed.public_key sk)) tenant namespace issued checked)
          (λ m. ok (made sk checked m)) h'' in
      (checked, sk, m, hs, hm, cc)

  key_of_agent :
      Ed25519Laws ed
      → (seed sk : Bytes) → ed.load_seed seed ≡ ok sk
      → key_of ed (aid_from_pubkey (ed.public_key sk)) ≡ ok (ed.public_key sk)
  unfolding key_of
  key_of_agent laws seed sk h =
      rw (aid_to_pubkey-aid_from_pubkey (ed.public_key sk) (laws.public_key_bytes seed sk h))
        (laws.load_public_key seed sk h)

  verify_enroll_pop_of :
      (aid tenant namespace : Text) (issued : Value) (nonce : Text) (signature key m : Bytes)
      → key_of ed aid ≡ ok key
      → enroll_pop_payload aid tenant namespace issued nonce ≡ ok m
      → verify_enroll_pop ed aid tenant namespace issued nonce signature ≡ ed.verify key signature m
  unfolding verify_enroll_pop
  verify_enroll_pop_of aid tenant namespace issued nonce signature key m hk hm =
      rw (hk, hm, verify_enroll_pop)

  verify_enroll_pop_parts :
      (aid tenant namespace : Text) (issued : Value) (nonce : Text) (signature : Bytes)
      → verify_enroll_pop ed aid tenant namespace issued nonce signature ≡ true
      → (key : Bytes) × (m : Bytes) × (key_of ed aid ≡ ok key)
        × (enroll_pop_payload aid tenant namespace issued nonce ≡ ok m)
        × (ed.verify key signature m ≡ true)
  unfolding verify_enroll_pop
  verify_enroll_pop_parts aid tenant namespace issued nonce signature h =
      elim (Result-cases (key_of ed aid)) [
        | inr (e, he) ↦ absurd (refused (rw (he, verify_enroll_pop) at h))
        | inl (key, hk) ↦
            elim (Result-cases (enroll_pop_payload aid tenant namespace issued nonce)) [
              | inr (e, he) ↦ absurd (refused (rw (hk, he, verify_enroll_pop) at h))
              | inl (m, hm) ↦ (
                key,
                m,
                hk,
                hm,
                sym (verify_enroll_pop_of aid tenant namespace issued nonce signature key m hk hm)
                    ∙ h,
              )
            ]
      ]
    where
      refused : false ≡ true → ⊥
      refused e = cc

  -- With the laws of Ed25519: the proof that an agent's seed signs verifies under the AID of that
  -- seed, for the tenant and namespace that it was made for and the proof's own time and nonce.
  pub verify_enroll_pop-enroll_pop :
      Ed25519Laws ed
      → (seed : Bytes) (tenant namespace : Text) (issued nonce : Value) (proof : EnrollProof)
      → enroll_pop ed seed tenant namespace issued nonce ≡ ok proof
      → (aid : Text) × (agent_aid ed seed ≡ ok aid)
        × (verify_enroll_pop ed aid tenant namespace proof.issued_at_ms proof.nonce proof.signature
            ≡ true)
  unfolding agent_aid
  verify_enroll_pop-enroll_pop laws seed tenant namespace issued nonce proof h =
      let (checked, sk, m, hs, hm, e) =
        enroll_pop_parts seed tenant namespace issued nonce proof h in
      let aid : Text = aid_from_pubkey (ed.public_key sk) in
      (
        aid,
        rw hs,
        rw e (
            verify_enroll_pop_of aid tenant namespace issued checked (ed.sign sk m)
              (ed.public_key sk) m (key_of_agent laws seed sk hs) hm
            ∙ laws.verify_sign seed sk m hs),
      )

  -- A signature that verifies for two bindings of one AID: the tenant, the namespace, the time and
  -- the nonce of the bindings are equal, or Ed25519 accepts a signature for two messages.
  pub verify_enroll_pop_binds :
      (aid : Text) (tenant namespace tenant' namespace' : Text) (issued issued' : Value)
      (nonce nonce' : Text) (signature : Bytes)
      → verify_enroll_pop ed aid tenant namespace issued nonce signature ≡ true
      → verify_enroll_pop ed aid tenant' namespace' issued' nonce' signature ≡ true
      → ((tenant ≡ tenant') × (namespace ≡ namespace') × (issued ≡ issued') × (nonce ≡ nonce'))
        ⊎ Ambiguous ed
  verify_enroll_pop_binds aid tenant namespace tenant' namespace' issued issued' nonce nonce'
        signature h k =
      let (key, m, hk, hm, hv) =
        verify_enroll_pop_parts aid tenant namespace issued nonce signature h in
      let (key', m', hk', hm', hv') =
        verify_enroll_pop_parts aid tenant' namespace' issued' nonce' signature k in
      let same : key ≡ key' = cc in
      elim (Bytes-discrete m m') [
        | yes e ↦
            let (_, t, n, i, o) =
              payload_binds (by_enroll aid tenant namespace issued nonce)
                (by_enroll aid tenant' namespace' issued' nonce') m'
                (unfold payload in (hm ∙ ap ok e)) (unfold payload in hm') in
            inl (t, n, i, o)
        | no apart ↦ inr (
          key,
          signature,
          m,
          m',
          apart,
          hv,
          subst (λ k. ed.verify k signature m' ≡ true) (sym same) hv',
        )
      ]
