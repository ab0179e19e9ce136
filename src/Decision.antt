-- ===== src/Decision.antt =====
-- `SeamClient.verify_decision` and `commitment_view` of `python/seam_sdk/client.py`: a served decision is
-- checked in the client, against the issuer that the caller pinned.
pub mod Pinned
mod Runs
use seam_sdk.Prelude.{
  ℕ, zero, suc, ◌+◌, ◌/◌, ◌%◌, Option, none, some, List, [], ◌∷◌, ◌++◌, map, codes, bytes_eq, ltb,
  if◌then◌else◌, Bool, true, false, Result, ok, err, issuer_mismatch, ◌>>=◌,
}
use seam_sdk.Prelude.Int.{ℤ, pos, negsuc}
use seam_sdk.Bytes.{Bytes, Text}
use seam_sdk.Bytes.Decode.{decode}
use seam_sdk.Keys.{Ed25519}
use seam_sdk.Json.{Json}
use seam_sdk.Commitment.{Commitment, Entry}
use seam_sdk.Tct.{verify_tct}
use seam_sdk.Calls.{Outside, Act, lift}
use seam_sdk.Calls
use seam_sdk.Verbs.{get_commitment_proof, Stubs, perform}

-- The messages of a proof; `other_kind` is any other number of the enumeration.
pub data WireKind : Type 0 where
  vote_kind evaluation_kind objection_kind ballot_kind : WireKind
  other_kind : ℤ → WireKind

pub record WireEntry : Type 0 where
  pub kind : WireKind
  pub participant : Text
  pub proposal_id : Text
  pub value : Text
  pub reason : Text
  pub confidence : Option ℕ
  pub rationale_ref : Option Text

pub record WireCommitment : Type 0 where
  pub id : Text
  pub action : Text
  pub authority : Text
  pub auth_method : Text
  pub trust_basis : Text
  pub supersedes : Option Text
  pub committer : Text
  pub explanation_digest : Bytes
  pub explanation : List WireEntry
  pub signed_artifact : Bytes

pub record CommitmentProof : Type 0 where
  pub issuer_aid : Text
  pub commitment : WireCommitment

-- The decimal digits of a number; a number has fewer digits than itself and one.
unfoldable pub digits : ℕ → ℕ → Text
digits zero n = []
digits (suc fuel) n = elim (ltb n 10) [
  | true ↦ (b'0' + n) ∷ []
  | false ↦ digits fuel (n / 10) ++ (b'0' + n % 10) ∷ []
]

unfoldable pub decimal : ℤ → Text
unfolding digits
decimal (pos n) = digits (suc n) n
decimal (negsuc n) = b'-' ∷ digits (suc (suc n)) (suc n)

unfoldable pub kind_word : WireKind → Text
unfolding decimal
kind_word vote_kind = codes "vote"
kind_word evaluation_kind = codes "evaluation"
kind_word objection_kind = codes "objection"
kind_word ballot_kind = codes "ballot"
kind_word (other_kind n) = codes "<unknown kind " ++ decimal n ++ codes ">"

unfoldable pub entry_view : WireEntry → Entry
unfolding kind_word
entry_view e = record {
  kind = kind_word e.kind;
  participant = e.participant;
  proposal_id = e.proposal_id;
  value = e.value;
  reason = e.reason;
  confidence = e.confidence;
  rationale_ref = e.rationale_ref;
}

-- `bytes(c.explanation_digest) or None`.
unfoldable pub published_of : Bytes → Option Bytes
published_of [] = none
published_of (b ∷ bs) = some (b ∷ bs)

unfoldable pub commitment_view : WireCommitment → Commitment
unfolding entry_view published_of
commitment_view c = record {
  id = c.id;
  action = c.action;
  authority = c.authority;
  supersedes = c.supersedes;
  auth_method = c.auth_method;
  trust_basis = c.trust_basis;
  committer = some c.committer;
  published = published_of c.explanation_digest;
  explanation = some (map entry_view c.explanation);
}

module _ (ed : Ed25519) (hash : Bytes → Bytes) (parse : Bytes → Result Json) where
  -- The check of a fetched proof. `clock` is the time in seconds.
  unfoldable pub verify_proof : CommitmentProof → Text → ℤ → Result Bool
  unfolding commitment_view
  verify_proof proof expected clock =
      let checked = (do
        token ← decode proof.commitment.signed_artifact
        ok (
            verify_tct ed hash parse expected token (commitment_view proof.commitment) none
              clock)) in
      if bytes_eq proof.issuer_aid expected
      then checked
      else err (issuer_mismatch proof.issuer_aid expected)

  unfoldable pub verify_decision :
      {W : Type 0}
      → Outside W
      → Stubs W CommitmentProof
      → Option Bytes
      → Option Bytes
      → Text
      → Text
      → ℤ
      → Act W Bool
  unfolding verify_proof
  verify_decision outside stubs credential bound decision expected clock =
      Calls.◌>>=◌ (perform ed hash outside stubs credential bound (get_commitment_proof decision))
        λ proof. lift (verify_proof proof expected clock)
