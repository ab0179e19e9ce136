-- ===== src/Inputs/Resolves.antt =====
-- What an input is resolved to.
use seam_sdk.Prelude.{
  ℕ, ◌≡◌, ◌≢◌, refl, ap, ◌∙◌, subst, Option, none, some, [], ◌∷◌, Result, ok, err, Exn,
  canonicalization_error, ok_injective, >>=-eq-ok,
}
use seam_sdk.Bytes.{Bytes, Text, encode}
use seam_sdk.Bytes.Utf8.{encode_cons-ne-nil}
use seam_sdk.Jcs.{Tree, none_value, jcs_string, jcs_write, jcs_canonicalize}
use seam_sdk.Jcs.Canon.{Canon, literal, quoted, array, object, print}
use seam_sdk.Jcs.View.{write-View}
use seam_sdk.Inputs.{
  Given, bytes_given, other_given, input_or_empty, typed, accepted, canonicalize_tool_input,
  resolve_canonical,
}

print-ne-nil : (c : Canon) → print c ≡ [] → ⊥
unfolding print jcs_string
print-ne-nil (literal [] h) e = cc
print-ne-nil (literal (x ∷ s) h) e = cc
print-ne-nil (quoted s) e = cc
print-ne-nil (array is) e = cc
print-ne-nil (object is) e = cc

encode-ne-nil : (s : Text) → encode s ≡ ok [] → s ≡ []
encode-ne-nil [] h = refl
encode-ne-nil (c ∷ s) h = absurd (encode_cons-ne-nil c s h)

jcs_canonicalize-ne-nil : (frames : ℕ) (t : Tree) → jcs_canonicalize frames t ≡ ok [] → ⊥
unfolding jcs_canonicalize
jcs_canonicalize-ne-nil frames t h =
    let (s, hs, h1) = >>=-eq-ok (jcs_write frames t) _ h in
    let (c, e, v) = write-View frames t s hs in print-ne-nil c (e ∙ encode-ne-nil s h1)

typed_ok : (r : Result Bytes) (b : Bytes) → typed r ≡ ok b → r ≡ ok b
unfolding typed
typed_ok (ok a) b h = h
typed_ok (err e) b h = cc

accepted_again : (g : Given) (b : Bytes) → accepted g ≡ ok b → accepted (bytes_given b) ≡ ok b
unfolding accepted
accepted_again other_given b h = cc
accepted_again (bytes_given []) b h = cc
accepted_again (bytes_given (x ∷ a)) b h =
    subst (λ o. accepted (bytes_given o) ≡ ok o) (ok_injective h) refl

refused_ok : (b : Bytes) → err canonicalization_error ≡ ok b → ⊥
refused_ok b h = cc

not_empty :
    (frames : ℕ) (t : Tree) (b : Bytes)
    → jcs_canonicalize frames t ≡ ok b
    → accepted (bytes_given b) ≡ ok b
unfolding accepted
not_empty frames t [] h = absurd (jcs_canonicalize-ne-nil frames t h)
not_empty frames t (x ∷ b) h = refl

resolved_again :
    (frames : ℕ) (t : Tree) (g : Option Given) (b : Bytes)
    → resolve_canonical frames t g ≡ ok b
    → accepted (bytes_given b) ≡ ok b
unfolding resolve_canonical canonicalize_tool_input
resolved_again frames t none b h = not_empty frames (input_or_empty t) b (typed_ok _ b h)
resolved_again frames none_value (some g) b h = accepted_again g b h
resolved_again frames t (some g) b h = absurd (refused_ok b h)

-- Bytes that were resolved once are accepted as they are when they are given.
pub resolve_canonical_idem :
    (frames : ℕ) (t : Tree) (g : Option Given) (b : Bytes)
    → resolve_canonical frames t g ≡ ok b
    → resolve_canonical frames none_value (some (bytes_given b)) ≡ ok b
resolve_canonical_idem frames t g b h = unfold resolve_canonical in resolved_again frames t g b h

-- What may come of an input and given bytes: the canonical JSON of the input or the given bytes, which are not
-- empty, or the error of the taxonomy.
pub data Resolution (frames : ℕ) : Tree → Option Given → Result Bytes → Type 0 where
  from_input :
      (t : Tree) (b : Bytes)
      → jcs_canonicalize frames (input_or_empty t) ≡ ok b
      → b ≢ []
      → Resolution frames t none (ok b)
  from_caller : (b : Bytes) → b ≢ [] → Resolution frames none_value (some (bytes_given b)) (ok b)
  not_canonical :
      (t : Tree) (e : Exn)
      → jcs_canonicalize frames (input_or_empty t) ≡ err e
      → Resolution frames t none (err canonicalization_error)
  both_given :
      (t : Tree) (g : Given)
      → t ≢ none_value
      → Resolution frames t (some g) (err canonicalization_error)
  not_bytes : Resolution frames none_value (some other_given) (err canonicalization_error)
  empty_given : Resolution frames none_value (some (bytes_given [])) (err canonicalization_error)

typed-Resolution :
    (frames : ℕ) (t : Tree) (r : Result Bytes)
    → jcs_canonicalize frames (input_or_empty t) ≡ r
    → Resolution frames t none (typed r)
unfolding typed
typed-Resolution frames t (ok b) h =
    from_input t b h λ e. jcs_canonicalize-ne-nil frames (input_or_empty t) (h ∙ ap ok e)
typed-Resolution frames t (err e) h = not_canonical t e h

accepted-Resolution : (frames : ℕ) (g : Given) → Resolution frames none_value (some g) (accepted g)
unfolding accepted
accepted-Resolution frames other_given = not_bytes
accepted-Resolution frames (bytes_given []) = empty_given
accepted-Resolution frames (bytes_given (x ∷ b)) = from_caller (x ∷ b) λ e. cc

-- What `_resolve_canonical` returns is not empty: it is the canonical JSON of the input, with `None` as `{}`,
-- where no bytes are given, and the caller's own bytes where the input is `None`. It raises where the input is
-- not canonicalized, where both are given, and where what is given is not `bytes` or is empty; all that it raises is
-- `CanonicalizationError`.
pub resolve_canonical-Resolution :
    (frames : ℕ) (t : Tree) (g : Option Given)
    → Resolution frames t g (resolve_canonical frames t g)
unfolding resolve_canonical canonicalize_tool_input
resolve_canonical-Resolution frames t none = typed-Resolution frames t _ refl
resolve_canonical-Resolution frames none_value (some g) = accepted-Resolution frames g
resolve_canonical-Resolution frames t (some g) = both_given t g λ e. cc
