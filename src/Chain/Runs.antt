-- ===== src/Chain/Runs.antt =====
-- Attestations of concrete heads.
use seam_sdk.Prelude.{
  ◌≡◌, refl, ◌⊎◌, inl, [], ◌∷◌, codes, bytes_eq, true, false, Option, none, some, ok,
}
use seam_sdk.Prelude.Int.{ℤ, pos, negsuc}
use seam_sdk.Bytes.{Bytes, Text, encode, encode_char, pack_le, le_bytes}
use seam_sdk.Base64.{b64url_decode, a2b_base64, char_value}
use seam_sdk.Hash.{Collision}
use seam_sdk.Checks.{null, as_bytes, rd_text, require_int, in_range}
use seam_sdk.Wire.{frame, frame_text, frame_int, write, join}
use seam_sdk.Keys.{Ed25519, aid_to_pubkey, key_of}
use seam_sdk.Chain.{
  Head, Attestation, Typed, head_slots, framing_tenant, need_bytes, check_types, check_ranges,
  chain_head_attestation_digest, verify_typed, verify_chain_head_attestation,
}
use seam_sdk.Chain.Verdicts.{attestation, verify-OutOfRange}
use seam_sdk.Keys.Laws.{Ambiguous}
use seam_sdk.Chain.Acceptance.{accepted_binds}

-- A key signs a message by itself, under every key that it loads.
abbrev open_keys : Ed25519
open_keys = record {
  load_seed = λ b. ok b;
  load_public = λ b. ok b;
  public_key = λ k. k;
  sign = λ k m. m;
  verify = λ k s m. bytes_eq s m;
}

abbrev constant : Bytes → Bytes
constant b = 0 ∷ []

abbrev head_of : Option Text → Head
head_of named = record {
  attested_len = 3;
  attested_head = 1 ∷ 2 ∷ [];
  attested_at = 1700000000000;
  digest_schema = 4;
  issuer_aid = codes "aid:pubkey:yA";
  tenant = named;
}

digest_v1 : chain_head_attestation_digest constant (head_of none) ≡ ok (0 ∷ [])
unfolding chain_head_attestation_digest head_slots join write frame frame_text frame_int encode
    encode_char pack_le le_bytes
digest_v1 = refl

digest_v2 : chain_head_attestation_digest constant (head_of (some (codes "t"))) ≡ ok (0 ∷ [])
unfolding chain_head_attestation_digest head_slots join write frame frame_text frame_int encode
    encode_char pack_le le_bytes
digest_v2 = refl

abbrev typed : ℤ → Text → Typed
typed len named = record {
  attested_len = len;
  attested_at = pos 1700000000000;
  digest_schema = pos 4;
  attested_head = 1 ∷ 2 ∷ [];
  issuer_aid = codes "aid:pubkey:yA";
  tenant = named;
  signature = 0 ∷ [];
}

accepted_v1 :
    verify_chain_head_attestation open_keys constant (attestation (typed (pos 3) [])) ≡ ok true
unfolding verify_chain_head_attestation check_types require_int need_bytes as_bytes rd_text
    verify_typed check_ranges in_range framing_tenant key_of aid_to_pubkey b64url_decode a2b_base64
    char_value chain_head_attestation_digest head_slots join write frame frame_text frame_int encode
    encode_char pack_le le_bytes
accepted_v1 = refl

accepted_v2 :
    verify_chain_head_attestation open_keys constant (attestation (typed (pos 3) (codes "t")))
    ≡ ok true
unfolding verify_chain_head_attestation check_types require_int need_bytes as_bytes rd_text
    verify_typed check_ranges in_range framing_tenant key_of aid_to_pubkey b64url_decode a2b_base64
    char_value chain_head_attestation_digest head_slots join write frame frame_text frame_int encode
    encode_char pack_le le_bytes
accepted_v2 = refl

accepted_binds_example :
    (attestation (typed (pos 3) []) ≡ attestation (typed (pos 3) (codes "t")))
    ⊎ Collision constant
    ⊎ Ambiguous open_keys
accepted_binds_example =
    accepted_binds open_keys constant (attestation (typed (pos 3) []))
      (attestation (typed (pos 3) (codes "t"))) accepted_v1 accepted_v2 refl refl

out_of_range-answered :
    verify_chain_head_attestation open_keys constant (attestation (typed (negsuc 0) [])) ≡ ok false
out_of_range-answered = verify-OutOfRange open_keys constant (typed (negsuc 0) []) (inl _)

-- The length is out of range, and the tenant is no `str`.
abbrev no_tenant : Attestation
no_tenant = record (attestation (typed (negsuc 0) [])) { tenant = null }
