-- ===== src/Record.antt =====
-- `participants_digest_v4` and `record_digest_v4` of `python/seam_sdk/crypto.py`.
pub mod Binding
pub mod Strip
mod Runs
use seam_sdk.Prelude.{
  ℕ, Option, none, some, List, [], ◌∷◌, map, length, codes, ◌==◌, if◌then◌else◌, Bool, true, false,
  Result, ok, err, type_error, unsupported_version, ◌>>=◌, ◌>>◌, raise_unless,
}
use seam_sdk.Prelude.Int.{pos}
use seam_sdk.Bytes.{Bytes, Text}
use seam_sdk.Checks.{
  Value, int, buffer, as_bytes, sub_digest, mandatory_digest, rd_text, rd_opt, mandatory_text,
  uint_slot,
}
use seam_sdk.Wire.{Slot, framed, text, packed, optional, opt_text, count, join}

abbrev pub participants_domain : Bytes
participants_domain = codes "seam.audit.participants.v4"

abbrev pub record_domain : Bytes
record_domain = codes "seam.audit.record-digest.v4"

abbrev pub record_digest_schema_version : ℕ
record_digest_schema_version = 4

-- `_rd_text` on each element.
unfoldable pub rd_texts : List Value → Result (List Text)
rd_texts [] = ok []
rd_texts (v ∷ vs) = do s ← rd_text v; rest ← rd_texts vs; ok (s ∷ rest)

unfoldable pub participants_slots : List Text → List Slot
participants_slots ids = framed participants_domain ∷ count (length ids) ∷ map text ids

-- The arguments of `record_digest_v4`, as any objects.
pub record Sealed : Type 0 where
  pub decision_id : Value
  pub tenant : Value
  pub namespace : Value
  pub ciphertext_digest : Value
  pub sealed_at : Value
  pub outcome : Value
  pub mode : Value
  pub policy_version : Value
  pub supersedes : Value
  pub context_digest : Value
  pub participation_digest : Value
  pub policy_rules_digest : Value
  pub classification : Value
  pub participants_digest : Value
  pub trust_basis_commitment : Value
  pub auth_method : Value
  pub schema_version : Value

-- What the checks make of them.
pub record Checked : Type 0 where
  pub decision_id : Text
  pub tenant : Text
  pub namespace : Text
  pub ciphertext_digest : Bytes
  pub sealed_at : ℕ
  pub outcome : Text
  pub mode : Option Text
  pub policy_version : Option Text
  pub supersedes : Option Text
  pub context_digest : Bytes
  pub participation_digest : Bytes
  pub policy_rules_digest : Option Bytes
  pub classification : Text
  pub participants_digest : Bytes
  pub trust_basis_commitment : Text
  pub auth_method : Text

-- `isinstance(v, int)`, not a `bool`, and the one version.
unfoldable pub is_v4 : Value → Bool
is_v4 (int (pos n)) = n == record_digest_schema_version
is_v4 _ = false

unfoldable pub ciphertext_bytes : Value → Result Bytes
ciphertext_bytes value = elim (as_bytes value) [ none ↦ err type_error | some b ↦ ok b ]

-- The checks, in the order of the code.
unfoldable pub check : Sealed → Result Checked
check s = do
  raise_unless (is_v4 s.schema_version) unsupported_version
  context ← mandatory_digest "context_digest" 11 s.context_digest
  participation ← mandatory_digest "participation_digest" 12 s.participation_digest
  rules ← sub_digest "policy_rules_digest" 13 s.policy_rules_digest true
  participants ← mandatory_digest "participants_digest" 15 s.participants_digest
  classification ← mandatory_text "classification" 14 s.classification
  trust_basis ← mandatory_text "trust_basis_commitment" 16 s.trust_basis_commitment
  auth ← mandatory_text "auth_method" 17 s.auth_method
  ciphertext ← ciphertext_bytes s.ciphertext_digest
  decision ← rd_text s.decision_id
  tenant ← rd_text s.tenant
  namespace ← rd_text s.namespace
  outcome ← rd_text s.outcome
  mode ← rd_opt s.mode
  policy ← rd_opt s.policy_version
  supersedes ← rd_opt s.supersedes
  sealed ← uint_slot s.sealed_at 64
  ok (record {
    decision_id = decision;
    tenant = tenant;
    namespace = namespace;
    ciphertext_digest = ciphertext;
    sealed_at = sealed;
    outcome = outcome;
    mode = mode;
    policy_version = policy;
    supersedes = supersedes;
    context_digest = context;
    participation_digest = participation;
    policy_rules_digest = rules;
    classification = classification;
    participants_digest = participants;
    trust_basis_commitment = trust_basis;
    auth_method = auth;
  })

unfoldable pub record_slots : Checked → List Slot
record_slots c =
    framed record_domain
    ∷ text c.decision_id
    ∷ text c.tenant
    ∷ text c.namespace
    ∷ framed c.ciphertext_digest
    ∷ packed 8 c.sealed_at
    ∷ text c.outcome
    ∷ opt_text c.mode
    ∷ opt_text c.policy_version
    ∷ opt_text c.supersedes
    ∷ framed c.context_digest
    ∷ framed c.participation_digest
    ∷ optional c.policy_rules_digest
    ∷ text c.classification
    ∷ framed c.participants_digest
    ∷ text c.trust_basis_commitment
    ∷ text c.auth_method
    ∷ packed 4 record_digest_schema_version
    ∷ []

module _ (hash : Bytes → Bytes) where
  unfoldable pub participants_digest_v4 : List Value → Result Bytes
  participants_digest_v4 participants = do
    ids ← rd_texts participants
    pre ← join (participants_slots ids)
    ok (hash pre)

  unfoldable pub record_digest_v4 : Sealed → Result Bytes
  record_digest_v4 s = do c ← check s; pre ← join (record_slots c); ok (hash pre)
