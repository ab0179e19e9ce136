-- ===== src/Chain.antt =====
-- Chain-head attestations of `python/seam_sdk/crypto.py`: `_chain_head_attestation_digest`,
-- `verify_chain_head_attestation` and `verify_chain_head_attestation_message`.
pub mod Binding
pub mod Verdicts
pub mod Acceptance
mod Runs
use seam_sdk.Prelude.{
  ℕ, Option, none, some, List, [], ◌∷◌, ◌++◌, codes, bytes_eq, if◌then◌else◌, Bool, true, false,
  Result, ok, err, type_error, ◌>>=◌,
}
use seam_sdk.Prelude.Int.{ℤ}
use seam_sdk.Bytes.{Bytes, Text}
use seam_sdk.Checks.{Value, str, as_bytes, rd_text, require_int, in_range}
use seam_sdk.Wire.{Slot, framed, text, packed, join}
use seam_sdk.Keys.{Ed25519, key_of}

abbrev pub chain_domain_v1 : Bytes
chain_domain_v1 = codes "seam.audit.chain-head-attestation.v1"

abbrev pub chain_domain_v2 : Bytes
chain_domain_v2 = codes "seam.audit.chain-head-attestation.v2"

unfoldable pub tenant_slots : Option Text → List Slot
tenant_slots none = []
tenant_slots (some tenant) = text tenant ∷ []

unfoldable pub domain_of : Option Text → Bytes
domain_of none = chain_domain_v1
domain_of (some tenant) = chain_domain_v2

-- The signed content: the length, the head, the time, the digest schema, the issuer and the tenant.
pub record Head : Type 0 where
  pub attested_len : ℕ
  pub attested_head : Bytes
  pub attested_at : ℕ
  pub digest_schema : ℕ
  pub issuer_aid : Text
  pub tenant : Option Text

unfoldable pub head_slots : Head → List Slot
unfolding tenant_slots domain_of
head_slots a =
    framed (domain_of a.tenant)
    ∷ packed 8 a.attested_len
    ∷ framed a.attested_head
    ∷ packed 8 a.attested_at
    ∷ packed 4 a.digest_schema
    ∷ text a.issuer_aid
    ∷ tenant_slots a.tenant

unfoldable pub chain_head_attestation_digest : (Bytes → Bytes) → Head → Result Bytes
chain_head_attestation_digest hash a = do pre ← join (head_slots a); ok (hash pre)

-- `under(tenant) if tenant else under(None)`.
unfoldable pub framing_tenant : Text → Option Text
framing_tenant [] = none
framing_tenant (c ∷ s) = some (c ∷ s)

-- The arguments of the verifier, as any objects.
pub record Attestation : Type 0 where
  pub issuer_aid : Value
  pub attested_len : Value
  pub attested_head : Value
  pub attested_at : Value
  pub digest_schema : Value
  pub signature : Value
  pub tenant : Value

-- The arguments after the type checks.
pub record Typed : Type 0 where
  pub attested_len : ℤ
  pub attested_at : ℤ
  pub digest_schema : ℤ
  pub attested_head : Bytes
  pub issuer_aid : Text
  pub tenant : Text
  pub signature : Bytes

unfoldable pub need_bytes : Value → Result Bytes
need_bytes value = elim (as_bytes value) [ none ↦ err type_error | some b ↦ ok b ]

-- Every type is checked before any range.
unfoldable pub check_types : Attestation → Result Typed
check_types a = do
  len ← require_int a.attested_len
  at ← require_int a.attested_at
  schema ← require_int a.digest_schema
  head ← need_bytes a.attested_head
  issuer ← rd_text a.issuer_aid
  tenant ← rd_text a.tenant
  signature ← need_bytes a.signature
  ok (record {
    attested_len = len;
    attested_at = at;
    digest_schema = schema;
    attested_head = head;
    issuer_aid = issuer;
    tenant = tenant;
    signature = signature;
  })

unfoldable pub check_ranges : Typed → Result Head
check_ranges t = do
  len ← in_range t.attested_len 64
  at ← in_range t.attested_at 64
  schema ← in_range t.digest_schema 32
  ok (record {
    attested_len = len;
    attested_head = t.attested_head;
    attested_at = at;
    digest_schema = schema;
    issuer_aid = t.issuer_aid;
    tenant = framing_tenant t.tenant;
  })

module _ (ed : Ed25519) (hash : Bytes → Bytes) where
  -- The digest is computed outside the `try`, so its exceptions are raised.
  unfoldable pub verify_typed : Typed → Result Bool
  verify_typed t = elim (check_ranges t) [
    | err e ↦ ok false
    | ok head ↦ elim (key_of ed t.issuer_aid) [
      | err e ↦ ok false
      | ok key ↦ (do
        digest ← chain_head_attestation_digest hash head
        ok (ed.verify key t.signature digest))
    ]
  ]

  unfoldable pub verify_chain_head_attestation : Attestation → Result Bool
  verify_chain_head_attestation a = do t ← check_types a; verify_typed t

  -- `attestation.issuer_aid != issuer_aid`, for a pin that is a `str`.
  unfoldable pub names_issuer : Value → Text → Bool
  names_issuer (str s) pin = bytes_eq s pin
  names_issuer _ pin = false

  unfoldable pub verify_chain_head_attestation_message : Value → Attestation → Result Bool
  verify_chain_head_attestation_message issuer_aid a = do
    pin ← rd_text issuer_aid
    let verified = verify_chain_head_attestation (record a { issuer_aid = issuer_aid })
    if names_issuer a.issuer_aid pin then verified else ok false
