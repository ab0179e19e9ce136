-- ===== src/Identity/Runs.antt =====
-- Bootstrap files of a toy seed, with and without its AID.
use seam_sdk.Prelude.{
  ℕ, zero, suc, ◌++◌, ok, ◌<◌, ◌≡◌, refl, Option, some, [], ◌∷◌, length, codes, All,
}
use seam_sdk.Prelude.Int.{pos}
use seam_sdk.Bytes.{Bytes, Text}
use seam_sdk.Keys.{aid_from_pubkey, agent_aid}
use seam_sdk.Base64.{b64url_nopad, urlsafe_b64encode, urlsafe_char, rstrip_pad}
use seam_sdk.Client.Server.{toy}
use seam_sdk.Json.{Json, integer, string, object, Fields, no_fields, field}
use seam_sdk.Identity.{
  passed, fault, aid_mismatch, aid_malformed, missing_fields, parsed, BootstrapFile, LoadedIdentity,
  load_identity_file, load_identity_facts,
}
use seam_sdk.Identity.Facts.{facts_of, load_identity_file-facts}

abbrev text : Option Json → Text
text (some (string s)) = s
text _ = codes "None"

-- The digits of 32 bytes `ab`.
abbrev repeated : ℕ → Text → Text
repeated zero s = []
repeated (suc n) s = s ++ repeated n s

abbrev seed_hex : Text
seed_hex = repeated 32 (codes "aB")

abbrev seed : Bytes
seed = repeated 32 (0xab ∷ [])

abbrev file : Text → Fields → BootstrapFile
file tenant more = parsed (
    object (
      field (codes "version") (integer (pos 1)) (
        field (codes "seed_hex") (string seed_hex) (
          field (codes "agent_id") (string (codes "a")) (
            field (codes "tenant") (string tenant)
              (field (codes "endpoint") (string (codes "h:1")) more))))))

abbrev recorded : Text → Fields
recorded aid = field (codes "aid") (string aid) no_fields

abbrev identity : LoadedIdentity
identity = record { agent = seed; agent_id = codes "a"; tenant = codes "t"; endpoint = codes "h:1" }

with_its_aid :
    load_identity_file toy text (file (codes "t") (recorded (aid_from_pubkey seed)))
    ≡ passed identity
unfolding load_identity_file aid_from_pubkey b64url_nopad rstrip_pad urlsafe_b64encode urlsafe_char
    agent_aid
with_its_aid = refl

with_another_aid :
    load_identity_file toy text
      (file (codes "t") (recorded (aid_from_pubkey (repeated 32 (7 ∷ [])))))
    ≡ fault aid_mismatch
unfolding load_identity_file aid_from_pubkey b64url_nopad rstrip_pad urlsafe_b64encode urlsafe_char
    agent_aid
with_another_aid = refl

with_an_odd_aid :
    load_identity_file toy text (file (codes "t") (recorded (codes "x"))) ≡ fault aid_malformed
unfolding load_identity_file
with_an_odd_aid = refl

without_tenant :
    load_identity_file toy text (file [] no_fields) ≡ fault (missing_fields (codes "tenant" ∷ []))
unfolding load_identity_file
without_tenant = refl

named : agent_aid toy seed ≡ ok (aid_from_pubkey seed)
unfolding agent_aid
named = refl

load_identity_file-facts_example :
    (load_identity_facts toy text (file (codes "t") (recorded (aid_from_pubkey seed)))
      ≡ passed (facts_of identity (aid_from_pubkey seed)))
    × (length seed ≡ 32)
    × All (λ x. x < 256) seed
load_identity_file-facts_example =
    load_identity_file-facts toy text (file (codes "t") (recorded (aid_from_pubkey seed))) identity
      (aid_from_pubkey seed) with_its_aid named
