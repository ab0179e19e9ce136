-- ===== src/Keys.antt =====
-- Agent keys: the Ed25519 primitives that `python/seam_sdk/crypto.py` takes from the `cryptography`
-- package, the AID of a public key, and the signatures over the payloads of `Signing`.
pub mod Laws
pub mod Enrolment
mod Runs
use seam_sdk.Prelude.{
  ℕ, List, [], ◌∷◌, ◌++◌, length, all, codes, ltb, leb, ◌==◌, ◌&&◌, ◌||◌, not, if◌then◌else◌, Bool,
  true, false, Option, none, some, Result, ok, err, type_error, value_error, ◌>>=◌, ◌>>◌,
  raise_unless,
}
use seam_sdk.Bytes.{Bytes, Text}
use seam_sdk.Base64.{b64url_nopad, b64url_decode}
use seam_sdk.Checks.{Value, str}
use seam_sdk.Signing.{
  CallFields, call_sig_payload, request_sig_payload, call_sig_v3_payload, enroll_pop_payload,
}

-- The `cryptography` package. A private key stands for its seed and a public key for its raw bytes;
-- `load_seed` is `from_private_bytes`, `load_public` is `from_public_bytes`, and `verify` answers
-- whether the package's `verify` returns rather than raises.
pub record Ed25519 : Type 0 where
  pub load_seed : Bytes → Result Bytes
  pub load_public : Bytes → Result Bytes
  pub public_key : Bytes → Bytes
  pub sign : Bytes → Bytes → Bytes
  pub verify : Bytes → Bytes → Bytes → Bool

abbrev pub aid_prefix : Text
aid_prefix = codes "aid:pubkey:ed25519:"

abbrev pub short_aid_prefix : Text
short_aid_prefix = codes "aid:pubkey:"

unfoldable pub aid_from_pubkey : Bytes → Text
aid_from_pubkey pubkey = aid_prefix ++ b64url_nopad pubkey

-- `s[len(prefix):]` if `s.startswith(prefix)`.
unfoldable pub strip_prefix : Text → Text → Option Text
strip_prefix [] s = some s
strip_prefix (p ∷ ps) [] = none
strip_prefix (p ∷ ps) (c ∷ s) = let rest = strip_prefix ps s in if p == c then rest else none

unfoldable pub aid_to_pubkey : Text → Result Bytes
unfolding strip_prefix
aid_to_pubkey aid = elim (strip_prefix aid_prefix aid) [
  | some rest ↦ b64url_decode rest
  | none ↦ elim (strip_prefix short_aid_prefix aid) [
    | some rest ↦ b64url_decode rest
    | none ↦ err value_error
  ]
]

abbrev pub enroll_pop_nonce_max_len : ℕ
enroll_pop_nonce_max_len = 128

unfoldable pub is_nonce_char : ℕ → Bool
is_nonce_char c =
    (leb b'A' c && leb c b'Z')
    || (leb b'a' c && leb c b'z')
    || (leb b'0' c && leb c b'9')
    || c == b'_'
    || c == b'-'

unfoldable pub validate_enroll_pop_nonce : Value → Result Text
unfolding is_nonce_char
validate_enroll_pop_nonce (str nonce) =
    if not (leb 1 (length nonce) && leb (length nonce) enroll_pop_nonce_max_len)
    then err value_error
    else if not (all is_nonce_char nonce)
    then err value_error
    else ok nonce
validate_enroll_pop_nonce _ = err type_error

pub record EnrollProof : Type 0 where
  pub issued_at_ms : Value
  pub nonce : Text
  pub signature : Bytes

module _ (ed : Ed25519) where
  unfoldable pub call_sig : Bytes → Bytes → Text → Text → Text → Result Bytes
  call_sig agent_seed ticket digest tool_name agent_id = do
    sk ← ed.load_seed agent_seed
    payload ← call_sig_payload ticket digest tool_name agent_id
    ok (ed.sign sk payload)

  unfoldable pub request_sig : Bytes → Bytes → Text → Text → Text → Result Bytes
  request_sig agent_seed ticket rpc_full_name resource_id body_digest = do
    sk ← ed.load_seed agent_seed
    payload ← request_sig_payload ticket rpc_full_name resource_id body_digest
    ok (ed.sign sk payload)

  unfoldable pub call_sig_v3 : Bytes → Bytes → CallFields → Result Bytes
  call_sig_v3 agent_seed ticket fields = do
    sk ← ed.load_seed agent_seed
    payload ← call_sig_v3_payload ticket fields
    ok (ed.sign sk payload)

  -- `Agent.aid`.
  unfoldable pub agent_aid : Bytes → Result Text
  agent_aid seed = do sk ← ed.load_seed seed; ok (aid_from_pubkey (ed.public_key sk))

  unfoldable pub enroll_pop : Bytes → Text → Text → Value → Value → Result EnrollProof
  enroll_pop agent_seed tenant namespace issued_at_ms nonce = do
    checked ← validate_enroll_pop_nonce nonce
    sk ← ed.load_seed agent_seed
    payload ←
        enroll_pop_payload (aid_from_pubkey (ed.public_key sk)) tenant namespace issued_at_ms
          checked
    ok (record { issued_at_ms = issued_at_ms; nonce = checked; signature = ed.sign sk payload })

  -- The key that an AID names.
  unfoldable pub key_of : Text → Result Bytes
  key_of aid = do raw ← aid_to_pubkey aid; ed.load_public raw

  -- Every exception of the body is caught.
  unfoldable pub verify_enroll_pop : Text → Text → Text → Value → Text → Bytes → Bool
  verify_enroll_pop subject_aid tenant namespace issued_at_ms nonce signature =
      let checked : Result Bool = (do
        key ← key_of subject_aid
        payload ← enroll_pop_payload subject_aid tenant namespace issued_at_ms nonce
        ok (ed.verify key signature payload)) in
      elim checked [ ok b ↦ b | err e ↦ false ]
