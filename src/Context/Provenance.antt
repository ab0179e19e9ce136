-- ===== src/Context/Provenance.antt =====
-- The refusal of a binding whose receipt and status are not paired.
use seam_sdk.Prelude.{
  ℕ, suc, ◌+◌, ◌≡◌, refl, ap, Option, none, some, List, [], ◌∷◌, ◌++◌, length, ok, err, arith,
  after_bind, context_provenance, Bool-cases, inl, inr,
}
use seam_sdk.Bytes.{Bytes, Text}
use seam_sdk.Context.{
  ContextBinding, ctx_get, Row, is_receipt_key_status, check_receipt, row_of, rows_from, listed,
  context_rows, context_digest_v4,
}
use seam_sdk.Context.Binding.{IsPaired, unreceipted, receipted, RowIsPaired}

check_receipt_unpaired :
    (i : ℕ) (receipt status : Option Text)
    → ¬ IsPaired receipt status
    → check_receipt i receipt status ≡ err (context_provenance i)
unfolding check_receipt
check_receipt_unpaired i none none h = absurd (h unreceipted)
check_receipt_unpaired i none (some s) h = refl
check_receipt_unpaired i (some r) none h = refl
check_receipt_unpaired i (some r) (some s) h = elim (Bool-cases (is_receipt_key_status s)) [
  | inl known ↦ absurd (h (receipted r s known))
  | inr foreign ↦ rw foreign refl
]

rows_from_unpaired :
    (before : List ContextBinding) (i : ℕ) (b : ContextBinding) (after : List ContextBinding)
    (rows : List Row) (row : Row)
    → rows_from i before ≡ ok rows
    → row_of (ctx_get b) ≡ ok row
    → ¬ RowIsPaired row
    → rows_from i (before ++ (b ∷ after)) ≡ err (context_provenance (i + length before))
unfolding rows_from
rows_from_unpaired [] i b after rows row h r u =
    let here : i ≡ i + 0 = omega arith in
    rw (r, check_receipt_unpaired i row.receipt_hash row.receipt_key_status u)
      (ap (λ n. err (context_provenance n)) here)
rows_from_unpaired (a ∷ before) i b after rows row h0 r u =
    after_bind (row_of (ctx_get a)) _ h0 λ first h1 r1.
      after_bind (check_receipt i first.receipt_hash first.receipt_key_status) _ r1 λ done h2 r2.
        after_bind (rows_from (suc i) before) _ r2 λ rest h3 r3.
          let there : suc i + length before ≡ i + suc (length before) = omega arith in
          let later = rows_from_unpaired before (suc i) b after rest row h3 r u in
          rw (h1, h2, later) (ap (λ n. err (context_provenance n)) there)

-- Where the bindings before it pass the checks, a binding that is read but whose status is not there
-- exactly when its receipt is, or is none of the two known ones, is refused with its position, and no
-- digest is computed, whatever follows it.
pub context_digest_v4-Unpaired :
    (hash : Bytes → Bytes) (before : List ContextBinding) (b : ContextBinding)
    (after : List ContextBinding) (rows : List Row) (row : Row)
    → rows_from 0 before ≡ ok rows
    → row_of (ctx_get b) ≡ ok row
    → ¬ RowIsPaired row
    → context_digest_v4 hash (listed (before ++ (b ∷ after)))
      ≡ err (context_provenance (length before))
unfolding context_digest_v4 context_rows
context_digest_v4-Unpaired hash before b after rows row h r u =
    rw (rows_from_unpaired before 0 b after rows row h r u)
      (ap (λ n. err (context_provenance n)) (omega arith))
