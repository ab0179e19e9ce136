-- ===== src/Identity/Facts.antt =====
-- The two loaders on one file.
use seam_sdk.Prelude.{
  both_true, ℕ, zero, suc, codes, ◌+◌, ◌<◌, ◌≡◌, refl, sym, ap, ◌∙◌, subst, inl, inr, true,
  Bool-cases, Option, none, some, [], ◌∷◌, length, all, All, ◌==◌, ==_iff, bytes_eq, bytes_eq→eq,
  arith, either_branch, ok,
}
use seam_sdk.Bytes.{Text}
use seam_sdk.Json.{Json, string, object, Fields}
use seam_sdk.Ids.{is_hex}
use seam_sdk.Keys.{Ed25519, agent_aid}
use seam_sdk.Identity.{
  aid_mismatch, seed_length, seed_not_hex, parsed, missing_of, required_fields, check_missing,
  recorded_aid, Loaded, passed, fault, ◌>>=◌, BootstrapFile, seed_text, hex_seed, Validated,
  validate, read_and_validate, hex_value, decode_seed, LoadedIdentity, IdentityFacts, loaded, facts,
  derive_aid, check_aid, load_identity_file, claimed_aid, load_identity_facts, is_schema_version,
  last_item,
}

-- What a sequence that refused nothing went through.
after_passed {τ} :
    {A B : Type 0} {P : Type τ} (first : Loaded A) (rest : A → Loaded B) {b : B}
    → (first >>= rest) ≡ passed b
    → ((a : A) → first ≡ passed a → rest a ≡ passed b → P)
    → P
after_passed (passed a) rest h k = k a refl h
after_passed (fault f) rest h k = cc

passed_injective : {A : Type 0} {a b : A} → passed a ≡ passed b → a ≡ b
passed_injective h = cc

hex_value-bound : (c : ℕ) → is_hex c ≡ true → hex_value c < 16
unfolding hex_value is_hex
hex_value-bound c h = ground arith

decode_seed-length : (k : ℕ) (s : Text) → length s ≡ k + k → length (decode_seed s) ≡ k
unfolding decode_seed
decode_seed-length zero [] h = refl
decode_seed-length zero (a ∷ s) h = absurd (omega arith)
decode_seed-length (suc k) [] h = absurd (omega arith)
decode_seed-length (suc k) (a ∷ []) h = absurd (omega arith)
decode_seed-length (suc k) (a ∷ b ∷ s) h = ap suc (decode_seed-length k s (omega arith))

decode_seed-bytes : (s : Text) → all is_hex s ≡ true → All (λ x. x < 256) (decode_seed s)
unfolding decode_seed
decode_seed-bytes [] h = _
decode_seed-bytes (a ∷ []) h = _
decode_seed-bytes (a ∷ b ∷ s) h =
    let (ha, r) = both_true (is_hex a) _ h in
    let (hb, hs) = both_true (is_hex b) _ r in
    (omega (arith, hex_value-bound a ha, hex_value-bound b hb), decode_seed-bytes s hs)

-- The text of a seed.
record IsSeed (s : Text) : Type 0 where
  size : length s ≡ 64
  digits : all is_hex s ≡ true

seed_text-length : (o : Option Json) (s : Text) → seed_text o ≡ passed s → length s ≡ 64
unfolding seed_text
seed_text-length (some (string t)) s h = elim (Bool-cases (length t == 64)) [
  | inl e ↦ subst (λ s. length s ≡ 64) (passed_injective (rw e at h)) ((==_iff (length t) 64).0 e)
  | inr e ↦ absurd (refused (rw e at h))
]
  where
    refused : fault seed_length ≡ passed s → ⊥
    refused e = cc
seed_text-length none s h = cc
seed_text-length (some _) s h = cc

hex_seed-digits : (t s : Text) → hex_seed t ≡ passed s → (t ≡ s) × (all is_hex s ≡ true)
unfolding hex_seed
hex_seed-digits t s h = elim (Bool-cases (all is_hex t)) [
  | inl e ↦
      let same : t ≡ s = passed_injective (rw (e, hex_seed) at h) in
      (same, subst (λ s. all is_hex s ≡ true) same e)
  | inr e ↦ absurd (refused (rw (e, hex_seed) at h))
]
  where
    refused : fault seed_not_hex ≡ passed s → ⊥
    refused e = cc

validate-IsSeed : (pairs : Fields) (v : Validated) → validate pairs ≡ passed v → IsSeed v.seed_hex
unfolding validate
validate-IsSeed pairs v h =
    either_branch (is_schema_version (last_item pairs (codes "version"))) h
      (λ r. after_passed (seed_text (last_item pairs (codes "seed_hex"))) _ r λ sized e1 r1.
        after_passed (hex_seed sized) _ r1 λ seed e2 r2.
          after_passed (check_missing (missing_of pairs required_fields)) _ r2 λ done e3 r3.
            after_passed (recorded_aid (last_item pairs (codes "aid"))) _ r3 λ aid e4 r4.
              let (same, digits) = hex_seed-digits sized seed e2 in
              subst (λ (v : Validated). IsSeed v.seed_hex) (passed_injective r4)
                (record {
                  size =
                      subst (λ s. length s ≡ 64) same
                        (seed_text-length (last_item pairs (codes "seed_hex")) sized e1);
                  digits = digits;
                }))
      (λ r. cc)

read_and_validate-IsSeed :
    (file : BootstrapFile) (v : Validated) → read_and_validate file ≡ passed v → IsSeed v.seed_hex
unfolding read_and_validate
read_and_validate-IsSeed (parsed (object pairs)) v h = validate-IsSeed pairs v h
read_and_validate-IsSeed _ v h = cc

-- The public facts of a loaded identity, under an AID.
abbrev pub facts_of : LoadedIdentity → Text → IdentityFacts
facts_of id aid = record {
  agent_id = id.agent_id;
  tenant = id.tenant;
  endpoint = id.endpoint;
  aid = aid;
}

module _ (ed : Ed25519) (text : Option Json → Text) where
  derive_aid-ok :
      (s aid : Text) → agent_aid ed (decode_seed s) ≡ ok aid → derive_aid ed text s ≡ passed aid
  unfolding derive_aid
  derive_aid-ok s aid h = rw (h, derive_aid) refl

  claimed_aid-check :
      (o : Option Text) (s aid : Text) (u : Unit {0})
      → check_aid ed text o s ≡ passed u
      → agent_aid ed (decode_seed s) ≡ ok aid
      → claimed_aid ed text o s ≡ passed aid
  unfolding claimed_aid check_aid
  claimed_aid-check none s aid u c h = derive_aid-ok s aid h
  claimed_aid-check (some recorded) s aid u c h =
      after_passed (derive_aid ed text s) _ c λ aid' e r.
        elim (Bool-cases (bytes_eq recorded aid')) [
          | inl same ↦
              ap passed
                (bytes_eq→eq recorded aid' same ∙ passed_injective (sym e ∙ derive_aid-ok s aid h))
          | inr apart ↦ absurd (refused (rw apart at r))
        ]
    where
      refused : fault aid_mismatch ≡ passed u → ⊥
      refused e = cc

  load_identity_facts-passed :
      (file : BootstrapFile) (v : Validated) (aid : Text)
      → read_and_validate file ≡ passed v
      → claimed_aid ed text v.aid v.seed_hex ≡ passed aid
      → load_identity_facts ed text file ≡ passed (facts ed text v aid)
  unfolding load_identity_facts
  load_identity_facts-passed file v aid e c = rw (e, c) refl

  -- A file that loads as a signing identity is read by the other loader to the same three fields and the
  -- AID of the loaded agent, recorded or not; and that agent's seed is 32 bytes.
  pub load_identity_file-facts :
      (file : BootstrapFile) (id : LoadedIdentity) (aid : Text)
      → load_identity_file ed text file ≡ passed id
      → agent_aid ed id.agent ≡ ok aid
      → (load_identity_facts ed text file ≡ passed (facts_of id aid))
        × (length id.agent ≡ 32)
        × All (λ x. x < 256) id.agent
  unfolding load_identity_file loaded facts
  load_identity_file-facts file id aid h = after_passed (read_and_validate file) _ h λ v e1 r1.
      after_passed (check_aid ed text v.aid v.seed_hex) _ r1 λ u e2 r2.
        subst
          (λ (id : LoadedIdentity).
            agent_aid ed id.agent ≡ ok aid
            → (load_identity_facts ed text file ≡ passed (facts_of id aid))
              × (length id.agent ≡ 32)
              × All (λ x. x < 256) id.agent)
          (passed_injective r2)
          (λ named.
            let seed = read_and_validate-IsSeed file v e1 in
            (
              load_identity_facts-passed file v aid e1
                  (claimed_aid-check v.aid v.seed_hex aid u e2 named),
              decode_seed-length 32 v.seed_hex seed.size,
              decode_seed-bytes v.seed_hex seed.digits,
            ))
