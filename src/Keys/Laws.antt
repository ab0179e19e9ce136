-- ===== src/Keys/Laws.antt =====
-- What the code relies on of Ed25519, and the AID as a name of a key.
use seam_sdk.Prelude.{◌<◌, ◌≡◌, ◌≢◌, All, true, ok}
use seam_sdk.Bytes.{Bytes}
use seam_sdk.Base64.RoundTrip.{b64url_decode-b64url_nopad}
use seam_sdk.Keys.{Ed25519, aid_from_pubkey, aid_to_pubkey}

-- The documented behaviour of the package, for every seed that it loads.
pub record Ed25519Laws (ed : Ed25519) : Type 0 where
  pub public_key_bytes :
      (seed k : Bytes) → ed.load_seed seed ≡ ok k → All (λ x. x < 256) (ed.public_key k)
  pub load_public_key :
      (seed k : Bytes)
      → ed.load_seed seed ≡ ok k
      → ed.load_public (ed.public_key k) ≡ ok (ed.public_key k)
  pub verify_sign :
      (seed k message : Bytes)
      → ed.load_seed seed ≡ ok k
      → ed.verify (ed.public_key k) (ed.sign k message) message ≡ true

-- Ed25519 accepts one signature for two messages under one key.
abbrev pub Ambiguous : Ed25519 → Type 0
Ambiguous ed =
    (key : Bytes) × (signature : Bytes) × (m : Bytes) × (m' : Bytes) × (m ≢ m')
    × (ed.verify key signature m ≡ true)
    × (ed.verify key signature m' ≡ true)

-- An AID is decoded to the public key that it was derived from.
pub aid_to_pubkey-aid_from_pubkey :
    (pk : Bytes) → All (λ x. x < 256) pk → aid_to_pubkey (aid_from_pubkey pk) ≡ ok pk
unfolding aid_to_pubkey aid_from_pubkey
aid_to_pubkey-aid_from_pubkey pk h = b64url_decode-b64url_nopad pk h
