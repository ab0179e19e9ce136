-- ===== src/Commitment/Runs.antt =====
-- Digests of concrete explanations and commitments.
use seam_sdk.Prelude.{ℕ, ◌≡◌, refl, ◌⊎◌, [], ◌∷◌, codes, Option, none, some, ok, err, value_error}
use seam_sdk.Bytes.{Bytes, Text, encode, encode_char, to_bytes_big, le_bytes}
use seam_sdk.Hash.{Collision}
use seam_sdk.Wire.{be64_frame, be64_text, be64_opt_text, opt_double, write, join}
use seam_sdk.Client.{hexdigest}
use seam_sdk.Commitment.{
  Entry, entry_bytes, entries_bytes, Commitment, field_slots, explanation_digest,
  commitment_explanation_digest, seam_commitment_digest,
}
use seam_sdk.Commitment.Binding.{SameCommitment, seam_commitment_digest_binds}

abbrev constant : Bytes → Bytes
constant b = 0x5a ∷ []

abbrev vote : Option ℕ → Entry
vote confidence = record {
  kind = codes "vote";
  participant = codes "p";
  proposal_id = codes "1";
  value = codes "yes";
  reason = [];
  confidence = confidence;
  rationale_ref = none;
}

unstated : explanation_digest constant (vote none ∷ []) ≡ ok (0x5a ∷ [])
unfolding explanation_digest entries_bytes entry_bytes join write be64_frame be64_text be64_opt_text
    opt_double to_bytes_big le_bytes encode encode_char
unstated = refl

stated_zero : explanation_digest constant (vote (some 0) ∷ []) ≡ ok (0x5a ∷ [])
unfolding explanation_digest entries_bytes entry_bytes join write be64_frame be64_text be64_opt_text
    opt_double to_bytes_big le_bytes encode encode_char
stated_zero = refl

-- The bit pattern of -0.0.
negative_zero : explanation_digest constant (vote (some 0x8000000000000000) ∷ []) ≡ err value_error
unfolding explanation_digest entries_bytes entry_bytes join write be64_frame be64_text be64_opt_text
    opt_double to_bytes_big le_bytes encode encode_char
negative_zero = refl

abbrev commitment : Option Text → Commitment
commitment supersedes = record {
  id = codes "c1";
  action = codes "a";
  authority = [];
  supersedes = supersedes;
  auth_method = codes "m";
  trust_basis = codes "t";
  committer = none;
  published = none;
  explanation = some (vote none ∷ []);
}

first_of_all : seam_commitment_digest constant (commitment none) ≡ ok (codes "5a")
unfolding seam_commitment_digest field_slots commitment_explanation_digest hexdigest
    explanation_digest entries_bytes entry_bytes join write be64_frame be64_text be64_opt_text
    opt_double to_bytes_big le_bytes encode encode_char
first_of_all = refl

after_another : seam_commitment_digest constant (commitment (some [])) ≡ ok (codes "5a")
unfolding seam_commitment_digest field_slots commitment_explanation_digest hexdigest
    explanation_digest entries_bytes entry_bytes join write be64_frame be64_text be64_opt_text
    opt_double to_bytes_big le_bytes encode encode_char
after_another = refl

seam_commitment_digest_binds_example :
    SameCommitment constant (commitment none) (commitment (some []))
    ⊎ Collision (λ b. hexdigest (constant b))
seam_commitment_digest_binds_example =
    seam_commitment_digest_binds constant (commitment none) (commitment (some [])) (codes "5a")
      first_of_all after_another
