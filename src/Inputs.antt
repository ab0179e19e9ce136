-- ===== src/Inputs.antt =====
-- `canonicalize_tool_input` and `_resolve_canonical` of `python/seam_sdk/_authorize.py`. An input is a tree that
-- nothing else changes; the number is how deep the writer may recurse.
pub mod Resolves
mod Runs
use seam_sdk.Prelude.{
  ℕ, Option, none, some, List, [], ◌∷◌, Bool, true, false, Result, ok, err, canonicalization_error,
}
use seam_sdk.Bytes.{Bytes}
use seam_sdk.Jcs.{Tree, none_value, dict_value, no_entries, jcs_canonicalize}

-- The argument `canonical`: `bytes`, or another object.
pub data Given : Type 0 where
  bytes_given : Bytes → Given
  other_given : Given

unfoldable pub input_or_empty : Tree → Tree
input_or_empty none_value = dict_value no_entries
input_or_empty t = t

-- Whatever was raised becomes a `CanonicalizationError`.
unfoldable pub typed : Result Bytes → Result Bytes
typed (ok b) = ok b
typed (err e) = err canonicalization_error

unfoldable pub canonicalize_tool_input : ℕ → Tree → Result Bytes
unfolding typed
canonicalize_tool_input frames t = typed (jcs_canonicalize frames (input_or_empty t))

-- The tests of `canonical`.
unfoldable pub accepted : Given → Result Bytes
accepted other_given = err canonicalization_error
accepted (bytes_given []) = err canonicalization_error
accepted (bytes_given (x ∷ b)) = ok (x ∷ b)

unfoldable pub resolve_canonical : ℕ → Tree → Option Given → Result Bytes
unfolding canonicalize_tool_input accepted
resolve_canonical frames t none = canonicalize_tool_input frames t
resolve_canonical frames none_value (some g) = accepted g
resolve_canonical frames t (some g) = err canonicalization_error
