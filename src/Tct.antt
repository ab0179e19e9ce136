-- ===== src/Tct.antt =====
-- `verify_tct` of `python/seam_sdk/crypto.py`: the check, in the client, of the token that attests a
-- sealed commitment.
mod Statements
mod Claims
pub mod Soundness
pub mod Tokens
mod Runs
use seam_sdk.Prelude.{
  ℕ, suc, ◌+◌, ◌-◌, ◌*◌, ◌/◌, ◌%◌, ◌^◌, Option, none, some, List, [], ◌∷◌, ◌++◌, all, codes,
  bytes_eq, ltb, leb, ◌==◌, ◌&&◌, ◌||◌, not, if◌then◌else◌, Bool, true, false, Result, ok, err,
  value_error, unicode_error, ◌>>=◌, raise_unless, ◌>>◌,
}
use seam_sdk.Prelude.Int.{ℤ, pos, negsuc, ltb_ℤ}
use seam_sdk.Bytes.{Bytes, Text}
use seam_sdk.Base64.{b64url_decode}
use seam_sdk.Keys.{Ed25519, key_of}
use seam_sdk.Commitment.{Commitment, seam_commitment_digest}
use seam_sdk.Json.{
  Json, null, boolean, integer, real, string, array, object, Elements, no_items, item, Fields,
  no_fields, field, item_of, has_key, loads, get_claim, equals_text,
}

abbrev pub commitment_ext_key : Text
commitment_ext_key = codes "com.zer07labs.seam"

abbrev pub attestation_grant : Text
attestation_grant = codes "aitp.attestation"

-- `s.split(sep)`, for a separator of one character.
unfoldable pub split : ℕ → Text → Text × List Text
split sep [] = ([], [])
split sep (c ∷ s) =
    let (part, parts) = split sep s in if c == sep then ([], part ∷ parts) else (c ∷ part, parts)

-- A token with three parts.
unfoldable pub three_parts : Text × List Text → Option (Text × Text × Text)
three_parts (header, payload ∷ sig ∷ []) = some (header, payload, sig)
three_parts _ = none

-- `s.encode("ascii")`.
unfoldable pub encode_ascii : Text → Result Bytes
encode_ascii s = if all (λ c. ltb c 128) s then ok s else err unicode_error

abbrev pub signed_text : Text → Text → Text
signed_text header_b64 payload_b64 = header_b64 ++ b'.' ∷ payload_b64

-- Of a double: its exponent field, its fraction and its sign.
abbrev pub exponent_of : ℕ → ℕ
exponent_of bits = bits / 2 ^ 52 % 2048

abbrev pub fraction_of : ℕ → ℕ
fraction_of bits = bits % 2 ^ 52

abbrev pub is_negative : ℕ → Bool
is_negative bits = leb (2 ^ 63) bits

-- `-(2**63) <= x < 2**63`: below 2 ^ 63 in magnitude is an exponent field below 1023 + 63, and
-- -(2 ^ 63) itself has that field and no fraction.
unfoldable pub in_int64 : ℕ → Bool
in_int64 bits =
    ltb (exponent_of bits) 1086
    || (is_negative bits && exponent_of bits == 1086 && fraction_of bits == 0)

-- `int(x)` of a double in that range, which cuts its fraction off.
unfoldable pub magnitude : ℕ → ℕ
magnitude bits =
    let m = 2 ^ 52 + fraction_of bits in
    if ltb (exponent_of bits) 1023
    then 0
    else if ltb (exponent_of bits) 1075
    then m / 2 ^ (1075 - exponent_of bits)
    else m * 2 ^ (exponent_of bits - 1075)

unfoldable pub with_sign : Bool → ℕ → ℤ
with_sign true (suc n) = negsuc n
with_sign _ n = pos n

unfoldable pub truncated_double : ℕ → ℤ
unfolding magnitude with_sign
truncated_double bits = with_sign (is_negative bits) (magnitude bits)

unfoldable pub int_in_int64 : ℤ → Bool
int_in_int64 (pos n) = ltb n (2 ^ 63)
int_in_int64 (negsuc n) = ltb n (2 ^ 63)

-- The seconds of `exp`, where it is a number that is not a `bool`, within int64.
unfoldable pub expiry : Json → Option ℤ
unfolding in_int64 truncated_double int_in_int64
expiry (integer z) = if int_in_int64 z then some z else none
expiry (real bits) = if in_int64 bits then some (truncated_double bits) else none
expiry _ = none

-- `now >= int(exp)` is refused.
unfoldable pub is_current : ℤ → Json → Bool
unfolding expiry
is_current now exp = elim (expiry exp) [ none ↦ false | some at ↦ ltb_ℤ now at ]

-- `grants == [ATTESTATION_GRANT]`.
unfoldable pub grants_only : Json → Bool
unfolding equals_text
grants_only (array (item g no_items)) = equals_text g attestation_grant
grants_only _ = false

-- Every key is one of these two.
unfoldable pub only_keys : Fields → Text → Text → Bool
only_keys no_fields a b = true
only_keys (field k v rest) a b =
    let later = only_keys rest a b in (bytes_eq k a || bytes_eq k b) && later

-- The statement's digest, where the statement is of the type of a commitment.
unfoldable pub statement_digest : Json → Option Json
unfolding only_keys has_key item_of equals_text
statement_digest (object stmt) =
    if only_keys stmt (codes "type") (codes "commitment_digest")
      && has_key stmt (codes "type")
      && has_key stmt (codes "commitment_digest")
    then elim (item_of stmt (codes "type")) [
      | none ↦ none
      | some kind ↦
          if equals_text kind (codes "seam:commitment")
          then item_of stmt (codes "commitment_digest")
          else none
    ]
    else none
statement_digest _ = none

-- `ext` is a `dict` with the one key, over the statement.
unfoldable pub ext_statement : Json → Option Json
ext_statement (object (field k stmt no_fields)) =
    if bytes_eq k commitment_ext_key then some stmt else none
ext_statement _ = none

unfoldable pub attested_digest : Json → Option Json
unfolding ext_statement statement_digest
attested_digest ext = elim (ext_statement ext) [ none ↦ none | some stmt ↦ statement_digest stmt ]

unfoldable pub header_ok : Json → Result Bool
unfolding get_claim equals_text
header_ok header = do
  alg ← get_claim header (codes "alg")
  typ ← get_claim header (codes "typ")
  ok (equals_text alg (codes "EdDSA") && equals_text typ (codes "aitp-tct+jwt"))

-- `iss == sub == aud == issuer_aid`, a chain that ends in a `str`.
unfoldable pub self_issued : Json → Text → Result Bool
unfolding get_claim equals_text
self_issued payload issuer_aid = do
  iss ← get_claim payload (codes "iss")
  sub ← get_claim payload (codes "sub")
  aud ← get_claim payload (codes "aud")
  ok (equals_text iss issuer_aid && equals_text sub issuer_aid && equals_text aud issuer_aid)

unfoldable pub claims_ok : Json → ℤ → Result Bool
unfolding get_claim is_current grants_only
claims_ok payload now = do
  exp ← get_claim payload (codes "exp")
  grants ← get_claim payload (codes "grants")
  ok (is_current now exp && grants_only grants)

-- `int(time.time())` where no time is given.
unfoldable pub now_of : Option ℤ → ℤ → ℤ
now_of none clock = clock
now_of (some now) clock = now

module _ (ed : Ed25519) where
  -- The signature, over the text of the first two parts.
  unfoldable pub signature_verifies : Text → Text → Text → Text → Result Bool
  unfolding encode_ascii
  signature_verifies issuer_aid header_b64 payload_b64 sig_b64 = do
    key ← key_of ed issuer_aid
    sig ← b64url_decode sig_b64
    message ← encode_ascii (signed_text header_b64 payload_b64)
    ok (ed.verify key sig message)

-- `parse` is `json.loads` of the standard library, on the bytes of a text.
module _ (parse : Bytes → Result Json) where
  unfoldable pub part : Text → Result Json
  unfolding loads
  part b64 = do raw ← b64url_decode b64; loads parse raw

module _ (hash : Bytes → Bytes) where
  -- `stmt["commitment_digest"] == _seam_commitment_digest(commitment)`.
  unfoldable pub attests : Json → Commitment → Result Bool
  unfolding attested_digest get_claim equals_text
  attests payload commitment = do
    ext ← get_claim payload (codes "ext")
    elim (attested_digest ext) [
      | none ↦ ok false
      | some stated ↦ (do
        digest ← seam_commitment_digest hash commitment
        ok (equals_text stated digest))
    ]

module _ (ed : Ed25519) (hash : Bytes → Bytes) (parse : Bytes → Result Json) where
  -- The tests in the order of the code; each ends the check.
  unfoldable pub token_verdict : Text → Text → Text → Text → Commitment → ℤ → Result Bool
  unfolding signature_verifies part header_ok self_issued claims_ok attests
  token_verdict issuer_aid header_b64 payload_b64 sig_b64 commitment now = do
    verified ← signature_verifies ed issuer_aid header_b64 payload_b64 sig_b64
    raise_unless verified value_error
    header ← part parse header_b64
    payload ← part parse payload_b64
    known ← header_ok header
    raise_unless known value_error
    own ← self_issued payload issuer_aid
    raise_unless own value_error
    current ← claims_ok payload now
    raise_unless current value_error
    attests hash payload commitment

  -- Every exception of the body is caught, and each `return False` of it is one.
  unfoldable pub verify_tct : Text → Text → Commitment → Option ℤ → ℤ → Bool
  unfolding split three_parts token_verdict now_of
  verify_tct issuer_aid tct_jws commitment now_s clock = elim (three_parts (split b'.' tct_jws)) [
    | none ↦ false
    | some (header_b64, payload_b64, sig_b64) ↦
        elim (token_verdict issuer_aid header_b64 payload_b64 sig_b64 commitment
          (now_of now_s clock)) [ ok b ↦ b | err e ↦ false ]
  ]
