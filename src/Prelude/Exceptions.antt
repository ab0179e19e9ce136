-- ===== src/Prelude/Exceptions.antt =====
-- Python functions that may raise return a `Result`. The exceptions are those that the modelled
-- files raise; an exception's message is left out, its arguments that callers branch on are kept.
use Prim.Native.Nat.{ℕ}
use Prim.Native.String.{String}
use mathlib.Core.Path.{◌≡◌, refl}
use mathlib.Core.Logic.{◌⊎◌, inl, inr}
use mathlib.Core.Bool.{Bool, true, false}
use mathlib.Core.List.{List}
use seam_sdk.Prelude.Int.{ℤ}

pub data Exn : Type 0 where
  type_error value_error struct_error overflow_error unicode_error recursion_error : Exn
  -- `RecordDigestStripError`, with its `field` and `wire_tag`
  strip_error : String → ℕ → Exn
  -- `UnsupportedRecordDigestVersion`
  unsupported_version : Exn
  -- `UnknownVerdictError` and `ProtocolViolationError`
  unknown_verdict protocol_violation : Exn
  -- `_Truncated` of errors.py, a `ValueError`
  truncated : Exn
  -- `ContextProvenanceError`, with the position of the binding
  context_provenance : ℕ → Exn
  key_error attribute_error : Exn
  canonicalization_error : Exn
  -- `UnknownCollectiveVerdictError`, with its `raw_value` and `decision_id`
  unknown_collective_verdict : ℤ → List ℕ → Exn
  -- `IssuerMismatchError`, with its `proof_issuer` and `expected_issuer`
  issuer_mismatch : List ℕ → List ℕ → Exn

pub data Result {ℓ} (A : Type ℓ) : Type ℓ where
  ok : A → Result A
  err : Exn → Result A

-- Statements in sequence: the first exception ends them.
module _ {ρ σ} {X : Type ρ} {Y : Type σ} where
  infixl 5 ◌>>=◌
  abbrev pub ◌>>=◌ : Result X → (X → Result Y) → Result Y
  (ok x) >>= rest = rest x
  (err exn) >>= rest = err exn

  -- What a sequence that raised nothing went through, passed to the rest of a proof.
  pub after_bind {τ} :
      {P : Type τ} (first : Result X) (rest : X → Result Y) {y : Y}
      → (first >>= rest) ≡ ok y
      → ((x : X) → first ≡ ok x → rest x ≡ ok y → P)
      → P
  after_bind (ok x) rest h k = k x refl h
  after_bind (err exn) rest h k = cc

  -- The same, as a triple.
  pub >>=-eq-ok :
      (first : Result X) (rest : X → Result Y) {y : Y}
      → (first >>= rest) ≡ ok y
      → (x : X) × (first ≡ ok x) × (rest x ≡ ok y)
  >>=-eq-ok first rest h = after_bind first rest h λ x e r. (x, e, r)

  -- What a sequence that raised was refused by.
  pub >>=-eq-err :
      (first : Result X) (rest : X → Result Y) {e : Exn}
      → (first >>= rest) ≡ err e
      → (first ≡ err e) ⊎ ((x : X) × (first ≡ ok x) × (rest x ≡ err e))
  >>=-eq-err (ok x) rest h = inr (x, refl, h)
  >>=-eq-err (err d) rest h = inl (cc)

infixl 5 ◌>>◌
abbrev pub ◌>>◌ {σ} : {Y : Type σ} → Result (Unit {0}) → Result Y → Result Y
first >> next = first >>= λ done. next

-- `if not test: raise exn`.
abbrev pub raise_unless : Bool → Exn → Result (Unit {0})
raise_unless test exn = elim test [ true ↦ ok _ | false ↦ err exn ]

pub Result-cases {ℓ} :
    {A : Type ℓ} (r : Result A) → ((a : A) × (r ≡ ok a)) ⊎ ((e : Exn) × (r ≡ err e))
Result-cases (ok a) = inl (a, refl)
Result-cases (err e) = inr (e, refl)

pub ok_injective {ℓ} : {A : Type ℓ} {a b : A} → ok a ≡ ok b → a ≡ b
ok_injective h = cc
