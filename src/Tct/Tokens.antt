-- ===== src/Tct/Tokens.antt =====
-- A toy issuer with a token, for the tests.
use seam_sdk.Prelude.{
  ◌==◌, ltb, if◌then◌else◌, [], ◌∷◌, ◌++◌, codes, bytes_eq, none, Result, ok, err, value_error,
}
use seam_sdk.Bytes.{Bytes, Text}
use seam_sdk.Keys.{Ed25519, aid_from_pubkey}
use seam_sdk.Base64.{b64url_nopad}
use seam_sdk.Commitment.{Commitment}
use seam_sdk.Json.{Json, string, array, object, no_items, item, no_fields, field}
use seam_sdk.Tct.{commitment_ext_key, attestation_grant, signed_text}

abbrev pub load_toy : Bytes → Result Bytes
load_toy (b ∷ []) = if ltb b 256 then ok (b ∷ []) else err value_error
load_toy _ = err value_error

-- A key is its own public key, and a signature is the message under the key.
abbrev pub toy : Ed25519
toy = record {
  load_seed = load_toy;
  load_public = load_toy;
  public_key = λ k. k;
  sign = λ k m. k ++ m;
  verify = λ k s m. bytes_eq s (k ++ m);
}

abbrev pub constant : Bytes → Bytes
constant b = 0x5a ∷ []

abbrev pub issuer : Text
issuer = aid_from_pubkey (7 ∷ [])

abbrev pub commitment : Text → Commitment
commitment id = record {
  id = id;
  action = codes "a";
  authority = [];
  supersedes = none;
  auth_method = codes "m";
  trust_basis = codes "t";
  committer = none;
  published = none;
  explanation = none;
}

abbrev pub header : Json
header = object (
    field (codes "alg") (string (codes "EdDSA"))
      (field (codes "typ") (string (codes "aitp-tct+jwt")) no_fields))

abbrev pub statement : Json
statement = object (
    field (codes "commitment_digest") (string (codes "5a"))
      (field (codes "type") (string (codes "seam:commitment")) no_fields))

abbrev pub payload : Json → Json
payload exp = object (
    field (codes "iss") (string issuer) (
      field (codes "sub") (string issuer) (
        field (codes "aud") (string issuer) (
          field (codes "exp") exp (
            field (codes "grants") (array (item (string attestation_grant) no_items)) (
              field (codes "ext") (object (field commitment_ext_key statement no_fields))
                no_fields))))))

-- The texts of the header and of the payload are bytes 0 and 1; byte 2 is a payload with a key twice.
abbrev pub parse : Json → Bytes → Result Json
parse exp (n ∷ []) =
    if n == 0
    then ok header
    else if n == 1
    then ok (payload exp)
    else ok (object (field (codes "iss") exp (field (codes "iss") exp no_fields)))
parse exp _ = err value_error

abbrev pub token : Text → Text
token payload_b64 =
    signed_text (codes "AA")
      (payload_b64 ++ b'.' ∷ b64url_nopad (7 ∷ signed_text (codes "AA") payload_b64))
