-- ===== src/Record/Strip.antt =====
-- A v4 record with a stripped field is refused by name, and never digested.
use seam_sdk.Prelude.{
  ℕ, ◌≡◌, ◌≢◌, refl, ap, ◌⊎◌, inl, inr, List, [], ◌∷◌, length, arith, true, false, Option, none,
  some, String, Result, err, ◌>>=◌, strip_error, unsupported_version,
}
use seam_sdk.Bytes.{Bytes, Text}
use seam_sdk.Checks.{Value, null, str, buffer, mandatory_digest, sub_digest, mandatory_text}
use seam_sdk.Checks.Refusals.{mandatory_digest_cases, sub_digest_cases}
use seam_sdk.Record.{Sealed, is_v4, check, record_digest_v4}

abbrev pub IsStrip {ℓ} : {A : Type ℓ} → Result A → Type ℓ
IsStrip r = (name : String) × (tag : ℕ) × (r ≡ err (strip_error name tag))

-- `None`, or the empty value that an unset field of the wire message reads as.
abbrev pub IsAbsent : Value → Type 0
IsAbsent v = (v ≡ null) ⊎ (v ≡ buffer []) ⊎ (v ≡ str [])

-- A text argument as a caller may pass it: `None` or a `str`.
abbrev pub IsText : Value → Type 0
IsText v = (v ≡ null) ⊎ ((t : Text) × (v ≡ str t))

-- One of the six mandatory fields is absent.
pub data Stripped (s : Sealed) : Type 0 where
  no_context : IsAbsent s.context_digest → Stripped s
  no_participation : IsAbsent s.participation_digest → Stripped s
  no_classification : IsAbsent s.classification → Stripped s
  no_participants : IsAbsent s.participants_digest → Stripped s
  no_trust_basis : IsAbsent s.trust_basis_commitment → Stripped s
  no_auth_method : IsAbsent s.auth_method → Stripped s

module _ {B : Type 0} (name : String) (tag : ℕ) where
  digest_step :
      (v : Value) (f : Bytes → Result B)
      → ((b : Bytes) → v ≡ buffer b → length b ≡ 32 → IsStrip (f b))
      → IsStrip (mandatory_digest name tag v >>= f)
  digest_step v f k = elim (mandatory_digest_cases name tag v) [
    | inl (b, e, l, h) ↦ rw h (k b e l)
    | inr h ↦ (name, tag, rw h)
  ]

  optional_step :
      (v : Value) (f : Option Bytes → Result B)
      → ((o : Option Bytes) → IsStrip (f o))
      → IsStrip (sub_digest name tag v true >>= f)
  optional_step v f k = elim (sub_digest_cases name tag v) [
    | inl (e, h) ↦ rw h (k none)
    | inr (inl (b, e, l, h)) ↦ rw h (k (some b))
    | inr (inr h) ↦ (name, tag, rw h)
  ]

  text_step :
      (v : Value) (f : Text → Result B)
      → IsText v
      → ((t : Text) → v ≡ str t → t ≢ [] → IsStrip (f t))
      → IsStrip (mandatory_text name tag v >>= f)
  unfolding mandatory_text
  text_step null f h k = (name, tag, refl)
  text_step (str []) f h k = (name, tag, refl)
  text_step (str (c ∷ t)) f h k = k (c ∷ t) refl (λ e. cc)
  text_step v f (inl e) k = cc
  text_step v f (inr (t, e)) k = cc

not_absent_digest : (v : Value) (b : Bytes) → v ≡ buffer b → length b ≡ 32 → IsAbsent v → ⊥
not_absent_digest v b e l (inl h) = cc
not_absent_digest v b e l (inr (inl h)) = let n : b ≡ [] = cc in absurd (omega (arith, ap length n))
not_absent_digest v b e l (inr (inr h)) = cc

not_absent_text : (v : Value) (t : Text) → v ≡ str t → t ≢ [] → IsAbsent v → ⊥
not_absent_text v t e n (inl h) = cc
not_absent_text v t e n (inr (inl h)) = cc
not_absent_text v t e n (inr (inr h)) = n (cc)

check-Stripped :
    (s : Sealed)
    → is_v4 s.schema_version ≡ true
    → IsText s.classification
    → IsText s.trust_basis_commitment
    → IsText s.auth_method
    → Stripped s
    → IsStrip (check s)
unfolding check
check-Stripped s v tc tt' ta missing = rw v (
    digest_step _ _ s.context_digest _ λ b1 e1 l1.
      digest_step _ _ s.participation_digest _ λ b2 e2 l2.
        optional_step _ _ s.policy_rules_digest _ λ o.
          digest_step _ _ s.participants_digest _ λ b3 e3 l3.
            text_step _ _ s.classification _ tc λ t1 f1 n1.
              text_step _ _ s.trust_basis_commitment _ tt' λ t2 f2 n2.
                text_step _ _ s.auth_method _ ta
                  λ t3 f3 n3. absurd (present missing e1 l1 e2 l2 e3 l3 f1 n1 f2 n2 f3 n3))
  where
    present :
        Stripped s
        → {b1 b2 b3 t1 t2 t3 : List ℕ} → s.context_digest ≡ buffer b1
        → length b1 ≡ 32
        → s.participation_digest ≡ buffer b2
        → length b2 ≡ 32
        → s.participants_digest ≡ buffer b3
        → length b3 ≡ 32
        → s.classification ≡ str t1
        → t1 ≢ []
        → s.trust_basis_commitment ≡ str t2
        → t2 ≢ []
        → s.auth_method ≡ str t3
        → t3 ≢ []
        → ⊥
    present (no_context a) e1 l1 e2 l2 e3 l3 f1 n1 f2 n2 f3 n3 = not_absent_digest _ _ e1 l1 a
    present (no_participation a) e1 l1 e2 l2 e3 l3 f1 n1 f2 n2 f3 n3 = not_absent_digest _ _ e2 l2 a
    present (no_participants a) e1 l1 e2 l2 e3 l3 f1 n1 f2 n2 f3 n3 = not_absent_digest _ _ e3 l3 a
    present (no_classification a) e1 l1 e2 l2 e3 l3 f1 n1 f2 n2 f3 n3 = not_absent_text _ _ f1 n1 a
    present (no_trust_basis a) e1 l1 e2 l2 e3 l3 f1 n1 f2 n2 f3 n3 = not_absent_text _ _ f2 n2 a
    present (no_auth_method a) e1 l1 e2 l2 e3 l3 f1 n1 f2 n2 f3 n3 = not_absent_text _ _ f3 n3 a

-- A record of version 4 whose mandatory texts are each `None` or a `str`, and one of whose six
-- mandatory fields is absent, has no digest: the call raises `RecordDigestStripError`.
pub record_digest_v4-Stripped :
    (hash : Bytes → Bytes) (s : Sealed)
    → is_v4 s.schema_version ≡ true
    → IsText s.classification
    → IsText s.trust_basis_commitment
    → IsText s.auth_method
    → Stripped s
    → IsStrip (record_digest_v4 hash s)
unfolding record_digest_v4
record_digest_v4-Stripped hash s v c t a missing =
    let (name, tag, e) = check-Stripped s v c t a missing in (name, tag, rw (e, record_digest_v4))

-- A record of another version is refused as unknown, whatever its fields hold.
pub record_digest_v4_version :
    (hash : Bytes → Bytes) (s : Sealed)
    → is_v4 s.schema_version ≡ false
    → record_digest_v4 hash s ≡ err unsupported_version
unfolding record_digest_v4 check
record_digest_v4_version hash s v = rw v
