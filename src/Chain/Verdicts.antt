-- ===== src/Chain/Verdicts.antt =====
-- What the verifier answers: a wrong type raises, a value out of range is a rejection, and what is
-- accepted is bound by its signature.
use seam_sdk.Prelude.{
  ℕ, ◌^◌, ◌≤◌, ◌≡◌, refl, ◌⊎◌, inl, inr, arith, false, Result, ok, err, type_error, value_error,
  ◌>>=◌, Result-cases, Exn,
}
use seam_sdk.Prelude.Int.{ℤ, pos, negsuc}
use seam_sdk.Bytes.{Bytes, Text}
use seam_sdk.Checks.{Value, int, str, buffer, as_bytes, rd_text, require_int, in_range}
use seam_sdk.Keys.{Ed25519}
use seam_sdk.Chain.{
  Attestation, Typed, need_bytes, check_types, check_ranges, verify_typed,
  verify_chain_head_attestation,
}

abbrev pub IsInt : Value → Type 0
IsInt v = (z : ℤ) × (v ≡ int z)

abbrev pub IsStr : Value → Type 0
IsStr v = (s : Text) × (v ≡ str s)

abbrev pub IsBuffer : Value → Type 0
IsBuffer v = (b : Bytes) × (v ≡ buffer b)

-- One of the seven arguments has a wrong type.
pub data WrongType (a : Attestation) : Type 0 where
  len : ¬ IsInt a.attested_len → WrongType a
  at : ¬ IsInt a.attested_at → WrongType a
  schema : ¬ IsInt a.digest_schema → WrongType a
  head : ¬ IsBuffer a.attested_head → WrongType a
  issuer : ¬ IsStr a.issuer_aid → WrongType a
  tenant : ¬ IsStr a.tenant → WrongType a
  signature : ¬ IsBuffer a.signature → WrongType a

module _ {B : Type 0} where
  int_step :
      (v : Value) (f : ℤ → Result B)
      → ((z : ℤ) → v ≡ int z → f z ≡ err type_error)
      → (require_int v >>= f) ≡ err type_error
  unfolding require_int
  int_step (int z) f k = k z refl
  int_step _ f k = refl

  str_step :
      (v : Value) (f : Text → Result B)
      → ((s : Text) → v ≡ str s → f s ≡ err type_error)
      → (rd_text v >>= f) ≡ err type_error
  unfolding rd_text
  str_step (str s) f k = k s refl
  str_step _ f k = refl

  buffer_step :
      (v : Value) (f : Bytes → Result B)
      → ((b : Bytes) → v ≡ buffer b → f b ≡ err type_error)
      → (need_bytes v >>= f) ≡ err type_error
  unfolding need_bytes as_bytes
  buffer_step (buffer b) f k = k b refl
  buffer_step _ f k = refl

check_types_wrong : (a : Attestation) → WrongType a → check_types a ≡ err type_error
unfolding check_types
check_types_wrong a w = int_step a.attested_len _ λ z1 e1. int_step a.attested_at _ λ z2 e2.
    int_step a.digest_schema _ λ z3 e3. buffer_step a.attested_head _ λ b1 e4.
      str_step a.issuer_aid _ λ s1 e5. str_step a.tenant _ λ s2 e6.
        buffer_step a.signature _ λ b2 e7.
          absurd (none_wrong w (z1, e1) (z2, e2) (z3, e3) (b1, e4) (s1, e5) (s2, e6) (b2, e7))
  where
    none_wrong :
        WrongType a
        → IsInt a.attested_len
        → IsInt a.attested_at
        → IsInt a.digest_schema
        → IsBuffer a.attested_head
        → IsStr a.issuer_aid
        → IsStr a.tenant
        → IsBuffer a.signature
        → ⊥
    none_wrong (len h) a1 a2 a3 a4 a5 a6 a7 = h a1
    none_wrong (at h) a1 a2 a3 a4 a5 a6 a7 = h a2
    none_wrong (schema h) a1 a2 a3 a4 a5 a6 a7 = h a3
    none_wrong (head h) a1 a2 a3 a4 a5 a6 a7 = h a4
    none_wrong (issuer h) a1 a2 a3 a4 a5 a6 a7 = h a5
    none_wrong (tenant h) a1 a2 a3 a4 a5 a6 a7 = h a6
    none_wrong (signature h) a1 a2 a3 a4 a5 a6 a7 = h a7

-- An integer that its slot of `bits` bits cannot hold.
abbrev pub OutOfRange : ℤ → ℕ → Type 0
OutOfRange (pos n) bits = 2 ^ bits ≤ n
OutOfRange (negsuc n) bits = Unit

-- Arguments of the right types, as the verifier is called with them.
abbrev pub attestation : Typed → Attestation
attestation t = record {
  issuer_aid = str t.issuer_aid;
  attested_len = int t.attested_len;
  attested_head = buffer t.attested_head;
  attested_at = int t.attested_at;
  digest_schema = int t.digest_schema;
  signature = buffer t.signature;
  tenant = str t.tenant;
}

in_range_refused : (z : ℤ) (bits : ℕ) → OutOfRange z bits → (e : Exn) × (in_range z bits ≡ err e)
unfolding in_range
in_range_refused (pos n) bits h = (value_error, ground arith)
in_range_refused (negsuc n) bits h = (value_error, refl)

range_step :
    {B : Type 0} (z : ℤ) (bits : ℕ) (f : ℕ → Result B)
    → (OutOfRange z bits ⊎ ((n : ℕ) → (e : Exn) × (f n ≡ err e)))
    → (e : Exn) × ((in_range z bits >>= f) ≡ err e)
range_step z bits f (inl h) = let (e, k) = in_range_refused z bits h in (e, rw k)
range_step z bits f (inr h) = elim (Result-cases (in_range z bits)) [
  | inl (n, k) ↦ let (e, q) = h n in (e, rw k q)
  | inr (e, k) ↦ (e, rw k)
]

check_ranges_refused :
    (t : Typed)
    → OutOfRange t.attested_len 64 ⊎ OutOfRange t.attested_at 64 ⊎ OutOfRange t.digest_schema 32
    → (e : Exn) × (check_ranges t ≡ err e)
unfolding check_ranges
check_ranges_refused t (inl h) = range_step t.attested_len 64 _ (inl h)
check_ranges_refused t (inr (inl h)) =
    range_step t.attested_len 64 _ (inr λ n. range_step t.attested_at 64 _ (inl h))
check_ranges_refused t (inr (inr h)) =
    range_step t.attested_len 64 _
      (inr λ n. range_step t.attested_at 64 _ (inr λ m. range_step t.digest_schema 32 _ (inl h)))

module _ (ed : Ed25519) (hash : Bytes → Bytes) where
  -- An argument of a wrong type raises `TypeError`, whatever the other arguments are: a value out
  -- of range in another slot does not mask it.
  pub verify-WrongType :
      (a : Attestation) → WrongType a → verify_chain_head_attestation ed hash a ≡ err type_error
  unfolding verify_chain_head_attestation
  verify-WrongType a w = rw (check_types_wrong a w)

  -- With every type right, an integer out of its slot's range is answered `False`.
  pub verify-OutOfRange :
      (t : Typed)
      → OutOfRange t.attested_len 64 ⊎ OutOfRange t.attested_at 64 ⊎ OutOfRange t.digest_schema 32
      → verify_chain_head_attestation ed hash (attestation t) ≡ ok false
  unfolding verify_chain_head_attestation check_types require_int need_bytes as_bytes rd_text
      verify_typed
  verify-OutOfRange t h = let (e, k) = check_ranges_refused t h in rw (k, verify_typed)
