-- ===== src/Record/Runs.antt =====
-- Digests of concrete records.
use seam_sdk.Prelude.{
  ℕ, ◌≡◌, refl, ◌⊎◌, inr, [], ◌∷◌, ◌++◌, codes, true, ok, err, unsupported_version,
}
use seam_sdk.Prelude.Int.{pos}
use seam_sdk.Bytes.{Bytes, encode, encode_char, pack_le, le_bytes}
use seam_sdk.Hash.{Collision}
use seam_sdk.Checks.{
  Value, null, bool, int, str, buffer, as_bytes, sub_digest, mandatory_digest, rd_text, rd_opt,
  mandatory_text, uint_slot,
}
use seam_sdk.Wire.{frame, opt_bytes, frame_text, frame_int, rd_opt_text, write, join}
use seam_sdk.Record.{
  Sealed, is_v4, ciphertext_bytes, check, record_slots, rd_texts, participants_slots,
  participants_digest_v4, record_digest_v4,
}
use seam_sdk.Record.Binding.{record_digest_v4_binds}
use seam_sdk.Record.Strip.{
  no_classification, IsStrip, record_digest_v4-Stripped, record_digest_v4_version,
}

abbrev repeated : ℕ → Bytes
repeated x =
    let four = x ∷ x ∷ x ∷ x ∷ [] in
    let sixteen = four ++ four ++ four ++ four in sixteen ++ sixteen

abbrev digest : ℕ → Value
digest x = buffer (repeated x)

abbrev record_at : ℕ → Sealed
record_at sealed_at = record {
  decision_id = str (codes "dec:t:s");
  tenant = str (codes "t");
  namespace = str [];
  ciphertext_digest = buffer (9 ∷ []);
  sealed_at = int (pos sealed_at);
  outcome = str (codes "ok");
  mode = null;
  policy_version = str (codes "p");
  supersedes = null;
  context_digest = digest 1;
  participation_digest = digest 2;
  policy_rules_digest = null;
  classification = str (codes "c");
  participants_digest = digest 3;
  trust_basis_commitment = str (codes "tb");
  auth_method = str (codes "m");
  schema_version = int (pos 4);
}

-- A hash with one value.
abbrev constant : Bytes → Bytes
constant b = 0 ∷ []

first_digest : record_digest_v4 constant (record_at 5) ≡ ok (0 ∷ [])
unfolding record_digest_v4 check is_v4 ciphertext_bytes as_bytes sub_digest mandatory_digest rd_text
    rd_opt mandatory_text uint_slot record_slots join write frame opt_bytes frame_text frame_int
    rd_opt_text encode encode_char pack_le le_bytes
first_digest = refl

second_digest : record_digest_v4 constant (record_at 6) ≡ ok (0 ∷ [])
unfolding record_digest_v4 check is_v4 ciphertext_bytes as_bytes sub_digest mandatory_digest rd_text
    rd_opt mandatory_text uint_slot record_slots join write frame opt_bytes frame_text frame_int
    rd_opt_text encode encode_char pack_le le_bytes
second_digest = refl

record_digest_v4_binds_example : (record_at 5 ≡ record_at 6) ⊎ Collision constant
record_digest_v4_binds_example =
    record_digest_v4_binds constant (record_at 5) (record_at 6) (0 ∷ []) first_digest second_digest

abbrev unclassified : Sealed
unclassified = record (record_at 5) { classification = str [] }

record_digest_v4-Stripped_example : IsStrip (record_digest_v4 constant unclassified)
unfolding is_v4
record_digest_v4-Stripped_example =
    record_digest_v4-Stripped constant unclassified refl (inr ([], refl)) (inr (codes "tb", refl))
      (inr (codes "m", refl)) (no_classification (inr (inr refl)))

-- `True` is an `int` of Python, and no version.
abbrev version_true : Sealed
version_true = record (record_at 5) { schema_version = bool true; context_digest = null }

version_true_refused : record_digest_v4 constant version_true ≡ err unsupported_version
unfolding is_v4
version_true_refused = record_digest_v4_version constant version_true refl

-- The participants are written in the order given, with their count before them.
two_participants :
    participants_digest_v4 (λ b. b) (str (codes "b") ∷ str (codes "a") ∷ [])
    ≡ ok (
        26
        ∷ 0
        ∷ 0
        ∷ 0
        ∷ (codes "seam.audit.participants.v4"
            ++ (2 ∷ 0 ∷ 0 ∷ 0 ∷ 1 ∷ 0 ∷ 0 ∷ 0 ∷ b'b' ∷ 1 ∷ 0 ∷ 0 ∷ 0 ∷ b'a' ∷ [])))
unfolding participants_digest_v4 rd_texts rd_text participants_slots join write frame frame_text
    encode encode_char pack_le le_bytes
two_participants = refl
