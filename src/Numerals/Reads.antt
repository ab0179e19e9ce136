-- ===== src/Numerals/Reads.antt =====
-- What an integer is written as.
use seam_sdk.Prelude.{
  value_error, ℕ, ◌≡◌, sym, ◌∙◌, inl, inr, Bool-cases, Option, none, some, leb, ◌&&◌, either_branch,
  bytes_eq, bytes_eq→eq, ok, err, ok_injective, after_bind, ◌>>=◌,
}
use seam_sdk.Prelude.Int.{ℤ, pos_part, neg_part}
use seam_sdk.Bytes.{Text}
use seam_sdk.Decision.{decimal}
use seam_sdk.Numerals.{jcs_number, float_of, max_safe_int, as_itself, jcs_int}

-- An integer is written as itself or not at all.
pub jcs_int-itself : (z : ℤ) (t : Text) → jcs_int z ≡ ok t → t ≡ decimal z
unfolding jcs_int as_itself
jcs_int-itself z t h =
    either_branch (leb (pos_part z) max_safe_int && leb (neg_part z) max_safe_int) h
      (λ e. sym (ok_injective e)) (λ e. as_float (float_of z) e)
  where
    unchanged : (r : Text) → as_itself (decimal z) r ≡ ok t → t ≡ decimal z
    unchanged r k = elim (Bool-cases (bytes_eq r (decimal z))) [
      | inl e ↦ sym (ok_injective (rw (e, as_itself) at k)) ∙ bytes_eq→eq r (decimal z) e
      | inr e ↦ absurd (refused (rw (e, as_itself) at k))
    ]
      where
        refused : err value_error ≡ ok t → ⊥
        refused f = cc

    as_float :
        (o : Option ℕ)
        → (elim o [
          | none ↦ err value_error
          | some bits ↦ jcs_number bits >>= as_itself (decimal z)
        ])
          ≡ ok t
        → t ≡ decimal z
    as_float none k = cc
    as_float (some bits) k =
        after_bind (jcs_number bits) (as_itself (decimal z)) k λ r e f. unchanged r f
