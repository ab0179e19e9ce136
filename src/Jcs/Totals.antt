-- ===== src/Jcs/Totals.antt =====
-- Which objects are written.
use seam_sdk.Prelude.{
  ℕ, zero, suc, ◌≡◌, ◌≢◌, refl, true, false, Bool-cases, all-append, ==_iff, Option, none, some,
  inl, inr, List, [], ◌∷◌, ◌++◌, All, leb, ◌==◌, ◌&&◌, codes, Result, ok,
}
use mathlib.Core.List.Permᴰ
use seam_sdk.Prelude.Int.{ℤ, pos_part, neg_part}
use seam_sdk.Bytes.{Bytes, Text, encode, encode_char}
use seam_sdk.Order.{sort}
use seam_sdk.Order.Sort.{sort-perm, All-perm}
use seam_sdk.Decision.{decimal}
use seam_sdk.Tct.{exponent_of}
use seam_sdk.Numerals.{
  max_safe_int, jcs_number, jcs_int, significand, sign_of, magnitude_text, shortest,
}
use seam_sdk.Numerals.Literal.{jcs_number-literal, jcs_int-literal}
use seam_sdk.Jcs.{
  utf_16_char, utf_16_be, Tree, none_value, bool_value, str_value, int_value, float_value,
  list_value, dict_value, other_value, Trees, no_trees, tree, Entries, no_entries, entry,
  jcs_string, Member, str_keys, with_units, before, sorted_members, member_texts, array_text,
  object_text, jcs_write, write_trees, write_entries, jcs_canonicalize,
}
use seam_sdk.Jcs.Canon.{is_literal-all}
use seam_sdk.Bytes.Codec.{is_scalar, text_total}
use seam_sdk.Bytes.Utf8.{encode-IsCodec}
use seam_sdk.Jcs.Units.{utf_16_be-IsCodec}
use seam_sdk.Jcs.Scalars.{Scalar, literal-Scalar, jcs_string-Scalar, around-Scalar}

-- What is in reach of the writer: scalar text, integers whose doubles are exact, finite floats, `str` keys, and as
-- many objects within each other as the number says, the innermost one counted.
unfoldable mutual
  pub Fits : ℕ → Tree → Type 0
  Fits zero t = ⊥
  Fits (suc d) none_value = Unit
  Fits (suc d) (bool_value b) = Unit
  Fits (suc d) (str_value s) = Scalar s
  Fits (suc d) (int_value z) =
      (leb (pos_part z) max_safe_int && leb (neg_part z) max_safe_int) ≡ true
  Fits (suc d) (float_value bits) = exponent_of bits ≢ 2047
  Fits (suc d) (list_value ts) = AllFit d ts
  Fits (suc d) (dict_value es) = EachFits d es
  Fits (suc d) other_value = ⊥

  AllFit : ℕ → Trees → Type 0
  AllFit d no_trees = Unit
  AllFit d (tree t ts) = Fits d t × AllFit d ts

  EachFits : ℕ → Entries → Type 0
  EachFits d no_entries = Unit
  EachFits d (entry none t es) = ⊥
  EachFits d (entry (some k) t es) = Scalar k × Fits d t × EachFits d es

jcs_number_total : (bits : ℕ) → exponent_of bits ≢ 2047 → (s : Text) × (jcs_number bits ≡ ok s)
unfolding jcs_number
jcs_number_total bits h = elim (Bool-cases (exponent_of bits == 2047)) [
  | inl k ↦ absurd (h ((==_iff (exponent_of bits) 2047).0 k))
  | inr k ↦ elim (Bool-cases (significand bits == 0)) [
    | inl nothing ↦ (b'0' ∷ [], rw (k, nothing) refl)
    | inr other ↦ (sign_of bits ++ magnitude_text (shortest bits), rw (k, other) refl)
  ]
]

jcs_int_total :
    (z : ℤ)
    → (leb (pos_part z) max_safe_int && leb (neg_part z) max_safe_int) ≡ true
    → jcs_int z ≡ ok (decimal z)
unfolding jcs_int
jcs_int_total z h = rw h refl

-- A text that was written, of scalar code points.
WritesScalar : Result Text → Type 0
WritesScalar r = (s : Text) × (r ≡ ok s) × Scalar s

number-WritesScalar : (bits : ℕ) → exponent_of bits ≢ 2047 → WritesScalar (jcs_number bits)
unfolding WritesScalar
number-WritesScalar bits h =
    let (s, e) = jcs_number_total bits h in
    (s, e, literal-Scalar s (is_literal-all s (jcs_number-literal bits s e)))

int-WritesScalar :
    (z : ℤ)
    → (leb (pos_part z) max_safe_int && leb (neg_part z) max_safe_int) ≡ true
    → WritesScalar (jcs_int z)
unfolding WritesScalar
int-WritesScalar z h =
    let e = jcs_int_total z h in
    (
      decimal z,
      e,
      literal-Scalar (decimal z) (is_literal-all (decimal z) (jcs_int-literal z (decimal z) e)),
    )

-- A member whose key and value can be written.
IsSound : Member (Result Text) → Type 0
IsSound m = Scalar m.key × WritesScalar m.value

member_texts_total :
    (ms : List (Member (Result Text)))
    → All IsSound ms
    → (ts : List Text) × (member_texts ms ≡ ok ts) × All Scalar ts
unfolding IsSound WritesScalar member_texts is_scalar
member_texts_total [] a = ([], refl, _)
member_texts_total (m ∷ ms) ((hk, (s, e, h)), a) =
    let (ts, et, ht) = member_texts_total ms a in
    let text : Scalar (jcs_string m.key ++ b':' ∷ s) =
      all-append is_scalar (jcs_string m.key) (b':' ∷ s) (jcs_string-Scalar m.key hk) h in
    ((jcs_string m.key ++ b':' ∷ s) ∷ ts, rw (e, et) refl, (text, ht))

sorted_members_total :
    (es : List (Option Text × Result Text)) (keyed : List (Text × Result Text))
    (members : List (Member (Result Text)))
    → str_keys es ≡ ok keyed
    → with_units keyed ≡ ok members
    → All IsSound members
    → (ms : List (Member (Result Text))) × (sorted_members es ≡ ok ms) × All IsSound ms
unfolding sorted_members
sorted_members_total es keyed members hk hu a = (
  sort before members,
  rw (hk, hu) refl,
  All-perm IsSound (Permᴰ.symm (sort-perm before members)) a,
)

-- What the entries of a dict come to before they are sorted.
Prepared : ℕ → Entries → Type 0
Prepared d es =
    (keyed : List (Text × Result Text)) × (members : List (Member (Result Text))) × (str_keys
        (write_entries d es)
      ≡ ok keyed)
    × (with_units keyed ≡ ok members)
    × All IsSound members

prepare :
    (d : ℕ) (k : Text) (t : Tree) (es : Entries)
    → Scalar k
    → WritesScalar (jcs_write d t)
    → Prepared d es
    → Prepared d (entry (some k) t es)
unfolding Prepared write_entries str_keys with_units IsSound
prepare d k t es hk w (keyed, members, h, g, a) =
    let (u, hu) = text_total utf_16_char utf_16_be utf_16_be-IsCodec k hk in
    (
      (k, jcs_write d t) ∷ keyed,
      record { units = u; key = k; value = jcs_write d t } ∷ members,
      rw h refl,
      rw (hu, g) refl,
      ((hk, w), a),
    )

mutual
  unfolding Fits WritesScalar jcs_write is_scalar Prepared

  writes : (d : ℕ) (t : Tree) → Fits d t → WritesScalar (jcs_write d t)
  writes zero t f = absurd f
  writes (suc d) none_value f = (codes "null", refl, refl)
  writes (suc d) (bool_value true) f = (codes "true", refl, refl)
  writes (suc d) (bool_value false) f = (codes "false", refl, refl)
  writes (suc d) (str_value s) f = (jcs_string s, refl, jcs_string-Scalar s f)
  writes (suc d) (int_value z) f = int-WritesScalar z f
  writes (suc d) (float_value bits) f = number-WritesScalar bits f
  writes (suc d) (list_value ts) f =
      let (texts, e, h) = writes_each d ts f in
      (array_text texts, rw e refl, around-Scalar b'[' b']' texts refl refl h)
  writes (suc d) (dict_value es) f =
      let (keyed, members, hk, hu, a) = prepares d es f in
      let (ms, hm, a') = sorted_members_total (write_entries d es) keyed members hk hu a in
      let (texts, e, h) = member_texts_total ms a' in
      (object_text texts, rw (hm, e) refl, around-Scalar b'{' b'}' texts refl refl h)
  writes (suc d) other_value f = absurd f

  writes_each :
      (d : ℕ) (ts : Trees)
      → AllFit d ts
      → (texts : List Text) × (write_trees d ts ≡ ok texts) × All Scalar texts
  writes_each d no_trees f = ([], refl, _)
  writes_each d (tree t ts) (f, fs) =
      let (s, e, h) = writes d t f in
      let (texts, es, hs) = writes_each d ts fs in (s ∷ texts, rw (e, es) refl, (h, hs))

  prepares : (d : ℕ) (es : Entries) → EachFits d es → Prepared d es
  prepares d no_entries f = ([], [], refl, refl, _)
  prepares d (entry none t es) f = absurd f
  prepares d (entry (some k) t es) (hk, f, fs) =
      prepare d k t es hk (writes d t f) (prepares d es fs)

-- An input of text without surrogates, integers up to 2 ^ 53 either way, finite floats and `str` keys, at every
-- depth, has canonical bytes, where it is nested no deeper than the calls of `_jcs_write` that may be active at once.
pub jcs_canonicalize_total :
    (frames : ℕ) (t : Tree) → Fits frames t → (b : Bytes) × (jcs_canonicalize frames t ≡ ok b)
unfolding jcs_canonicalize WritesScalar
jcs_canonicalize_total frames t f =
    let (s, e, h) = writes frames t f in
    let (b, k) = text_total encode_char encode encode-IsCodec s h in (b, rw e k)
