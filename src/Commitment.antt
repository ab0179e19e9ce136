-- ===== src/Commitment.antt =====
-- The explanation and commitment digests of `python/seam_sdk/crypto.py`: `explanation_digest`,
-- `_commitment_explanation_digest` and `_seam_commitment_digest`, over mappings whose values have the
-- types that the digests are documented for.
pub mod Binding
mod Runs
use seam_sdk.Prelude.{
  ℕ, Option, none, some, List, [], ◌∷◌, ◌++◌, length, codes, bytes_eq, leb, ◌||◌, if◌then◌else◌,
  Bool, true, false, Result, ok, err, value_error, ◌>>=◌, ◌>>◌, raise_unless,
}
use seam_sdk.Bytes.{Bytes, Text}
use seam_sdk.Wire.{Slot, be_framed, be_text, be_opt_text, be_count, double, join}
use seam_sdk.Client.{hexdigest}

abbrev pub explanation_domain : Bytes
explanation_domain = codes "seam-explanation-digest:v1"

abbrev pub commitment_domain : Bytes
commitment_domain = codes "seam-commitment-digest:v3"

-- One entry of an explanation. A confidence is the bit pattern of its double.
pub record Entry : Type 0 where
  pub kind : Text
  pub participant : Text
  pub proposal_id : Text
  pub value : Text
  pub reason : Text
  pub confidence : Option ℕ
  pub rationale_ref : Option Text

-- `kind in EXPLANATION_KINDS`.
unfoldable pub is_kind : Text → Bool
is_kind kind =
    bytes_eq kind (codes "vote")
    || bytes_eq kind (codes "evaluation")
    || bytes_eq kind (codes "objection")
    || bytes_eq kind (codes "ballot")

-- A double that is finite, in [0.0, 1.0] and not -0.0: its bit pattern is at most that of 1.0.
unfoldable pub is_canonical : Option ℕ → Bool
is_canonical none = true
is_canonical (some bits) = leb bits 0x3ff0000000000000

unfoldable pub text_slots : Entry → List Slot
text_slots e =
    be_text e.kind
    ∷ be_text e.participant
    ∷ be_text e.proposal_id
    ∷ be_text e.value
    ∷ be_text e.reason
    ∷ []

unfoldable pub entry_bytes : Entry → Result Bytes
unfolding is_kind is_canonical text_slots
entry_bytes e = do
  raise_unless (is_kind e.kind) value_error
  texts ← join (text_slots e)
  raise_unless (is_canonical e.confidence) value_error
  rest ← join (double e.confidence ∷ be_opt_text e.rationale_ref ∷ [])
  ok (texts ++ rest)

unfoldable pub entries_bytes : List Entry → Result Bytes
entries_bytes [] = ok []
entries_bytes (e ∷ es) = do b ← entry_bytes e; bs ← entries_bytes es; ok (b ++ bs)

-- A commitment. `published` is its explanation digest as bytes, `explanation` the entries, where they
-- are given.
pub record Commitment : Type 0 where
  pub id : Text
  pub action : Text
  pub authority : Text
  pub supersedes : Option Text
  pub auth_method : Text
  pub trust_basis : Text
  pub committer : Option Text
  pub published : Option Bytes
  pub explanation : Option (List Entry)

-- `commitment.get("committer") or ""`.
unfoldable pub committer_text : Option Text → Text
committer_text none = []
committer_text (some committer) = committer

unfoldable pub field_slots : Commitment → List Slot
unfolding committer_text
field_slots c =
    be_framed commitment_domain
    ∷ be_text c.id
    ∷ be_text c.action
    ∷ be_text c.authority
    ∷ be_opt_text c.supersedes
    ∷ be_text c.auth_method
    ∷ be_text c.trust_basis
    ∷ be_text (committer_text c.committer)
    ∷ []

module _ (hash : Bytes → Bytes) where
  unfoldable pub explanation_digest : List Entry → Result Bytes
  explanation_digest entries = do
    head ← join (be_framed explanation_domain ∷ be_count (length entries) ∷ [])
    rest ← entries_bytes entries
    ok (hash (head ++ rest))

  -- Where both are given, they must agree.
  unfoldable pub agreed : Option Bytes → Bytes → Result Bytes
  agreed none computed = ok computed
  agreed (some published) computed =
      if bytes_eq published computed then ok computed else err value_error

  unfoldable pub commitment_explanation_digest : Option Bytes → Option (List Entry) → Result Bytes
  unfolding agreed
  commitment_explanation_digest (some published) none = ok published
  commitment_explanation_digest none none = explanation_digest []
  commitment_explanation_digest published (some entries) = do
    computed ← explanation_digest entries
    agreed published computed

  -- The explanation digest is computed last, after the other operands.
  unfoldable pub seam_commitment_digest : Commitment → Result Text
  seam_commitment_digest c = do
    head ← join (field_slots c)
    explained ← commitment_explanation_digest c.published c.explanation
    tail ← join (be_framed explained ∷ [])
    ok (hexdigest (hash (head ++ tail)))
