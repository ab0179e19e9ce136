-- ===== src/Proto/RoundTrip.antt =====
-- What `_fields` yields of a written message, and what it leaves of a buffer.
use seam_sdk.Prelude.{
  ℕ, zero, suc, ◌+◌, ◌*◌, ◌/◌, ◌%◌, ◌^◌, ◌≤◌, ◌<◌, List, [], ◌∷◌, ◌++◌, ◌≡◌, refl, sym, ap, ◌∙◌,
  arith, length, ◌==◌, ok, ◌>>=◌, Result-cases, inl, inr, after_bind, either_branch, All,
}
use mathlib.Core.List.{append_assoc}
use native.Mathlib.Nat.{div-add-mod}
use native.Mathlib.Numerals.{towards_suc}
use seam_sdk.Bytes.{Bytes}
use seam_sdk.Proto.Written.{
  groups, write_varint, Part, number, chunk, write_part, write_parts, Fits, field_of, yields,
}
use seam_sdk.Proto.{
  varint_from, varint, split_front, Field, value_of, read_field, next, stream, fields, round,
}

weight : (n s : ℕ) → n * 2 ^ s ≡ n % 128 * 2 ^ s + n / 128 * 2 ^ (s + 7)
weight n s =
    let up : 2 ^ (s + 7) ≡ 128 * 2 ^ s = simp towards_suc (omega arith) in
    omega (arith, ap (λ (m : ℕ). m * 2 ^ s) (div-add-mod n 128), ap (λ (m : ℕ). n / 128 * m) up)

varint_from-groups :
    (k n shift out : ℕ) (rest : Bytes)
    → n < 128 ^ suc k
    → shift + 7 * k ≤ 63
    → varint_from shift out (groups k n ++ rest) ≡ ok (out + n * 2 ^ shift, rest)
unfolding varint_from groups
varint_from-groups zero n shift out rest h room = ground arith
varint_from-groups (suc k) n shift out rest h room = ground (
  arith,
  weight n shift,
  varint_from-groups k (n / 128) (shift + 7) (out + n % 128 * 2 ^ shift) rest (omega arith),
)

pub varint-write_varint :
    (n : ℕ) (rest : Bytes) → n < 2 ^ 64 → varint (write_varint n ++ rest) ≡ ok (n, rest)
unfolding varint
varint-write_varint n rest h = ground (arith, varint_from-groups 9 n 0 0 rest)

split_front-append : (v rest : Bytes) → split_front (length v) (v ++ rest) ≡ ok (v, rest)
unfolding split_front
split_front-append [] rest = refl
split_front-append (b ∷ v) rest = rw (split_front-append v rest) refl

read_field-value_of :
    (key num wt : ℕ) (rest : Bytes)
    → key < 2 ^ 64
    → key / 8 ≡ num
    → key % 8 ≡ wt
    → read_field (write_varint key ++ rest) ≡ value_of num wt rest
unfolding read_field
read_field-value_of key num wt rest n same_num same_wt =
    rw (varint-write_varint key rest n, same_num, same_wt) refl

pub read_field-write_part :
    (p : Part) (rest : Bytes) → Fits p → read_field (write_part p ++ rest) ≡ ok (field_of p, rest)
unfolding value_of
read_field-write_part (number num v) rest (n, h) =
    let key = read_field-value_of (num * 8) num 0 (write_varint v ++ rest) in
    rw append_assoc
      (key (omega arith) (omega arith) (omega arith) ∙ rw (varint-write_varint v rest h) refl)
read_field-write_part (chunk num v) rest (n, h) =
    let key = read_field-value_of (num * 8 + 2) num 2 (write_varint (length v) ++ (v ++ rest)) in
    rw (append_assoc, append_assoc)
      (key (omega arith) (omega arith) (omega arith)
        ∙ rw (varint-write_varint (length v) (v ++ rest) h, split_front-append v rest) refl)

-- A varint, and so a field, takes a byte at least.
varint_from_takes :
    (shift out : ℕ) (buf : Bytes) (v : ℕ) (left : Bytes)
    → varint_from shift out buf ≡ ok (v, left)
    → length left < length buf
unfolding varint_from
varint_from_takes shift out [] v left h = cc
varint_from_takes shift out (b ∷ buf) v left h =
    ground (arith, varint_from_takes (shift + 7) (out + b % 128 * 2 ^ shift) buf v left)

varint_takes :
    (buf : Bytes) (v : ℕ) (left : Bytes) → varint buf ≡ ok (v, left) → length left < length buf
unfolding varint
varint_takes = varint_from_takes 0 0

split_front_takes :
    (n : ℕ) (buf front left : Bytes)
    → split_front n buf ≡ ok (front, left)
    → length left ≤ length buf
unfolding split_front
split_front_takes zero buf front left h = ground arith
split_front_takes (suc n) [] front left h = cc
split_front_takes (suc n) (b ∷ buf) front left h =
    after_bind (split_front n buf) _ h
      λ (v, left') e k. ground (arith, split_front_takes n buf v left' e)

skips_takes :
    (n : ℕ) (buf : Bytes) (skipped field : Field) (left : Bytes)
    → ◌>>=◌ {Y = Field × Bytes} (split_front n buf) (λ (v, l). ok (skipped, l)) ≡ ok (field, left)
    → length left ≤ length buf
skips_takes n buf skipped field left h =
    after_bind (split_front n buf) _ h λ (v, l) e k. ground (arith, split_front_takes n buf v l e)

value_of_takes :
    (num wt : ℕ) (buf : Bytes) (field : Field) (left : Bytes)
    → value_of num wt buf ≡ ok (field, left)
    → length left ≤ length buf
unfolding value_of
value_of_takes num wt buf field left h =
    either_branch (wt == 0) h
      (λ k. after_bind (varint buf) _ k λ (v, l) e q. ground (arith, varint_takes buf v l e))
      λ k.
        either_branch (wt == 2) k
          (λ k. after_bind (varint buf) _ k λ (n, l) e q.
            after_bind (split_front n l) _ q λ (v, l') e' q'.
              ground (arith, varint_takes buf n l e, split_front_takes n l v l' e'))
          λ k.
            either_branch (wt == 1) k (skips_takes 8 buf _ field left)
              λ k. either_branch (wt == 5) k (skips_takes 4 buf _ field left) λ k. cc

pub read_field_takes :
    (buf : Bytes) (field : Field) (left : Bytes)
    → read_field buf ≡ ok (field, left)
    → length left < length buf
unfolding read_field
read_field_takes buf field left h = after_bind (varint buf) _ h λ (key, l) e k.
    omega (arith, varint_takes buf key l e, value_of_takes (key / 8) (key % 8) l field left k)

stream_fuel :
    (f g : ℕ) (buf : Bytes) → length buf ≤ f → length buf ≤ g → stream f buf ≡ stream g buf
unfolding stream
stream_fuel f g [] h k = refl
stream_fuel zero g (b ∷ buf) h k = absurd (omega arith)
stream_fuel (suc f) zero (b ∷ buf) h k = absurd (omega arith)
stream_fuel (suc f) (suc g) (b ∷ buf) h k = elim (Result-cases (read_field (b ∷ buf))) [
  | inl ((field, left), e) ↦
      let short = read_field_takes (b ∷ buf) field left e in
      ap (round (stream f)) e
      ∙ ap (next field) (stream_fuel f g left (omega arith) (omega arith))
      ∙ ap (round (stream g)) (sym e)
  | inr (exn, e) ↦ ap (round (stream f)) e ∙ ap (round (stream g)) (sym e)
]

-- On every buffer that is not empty `_fields` yields the next field and goes on with what that field
-- leaves, or raises: its fuel never runs out.
pub fields-round : (b : ℕ) (buf : Bytes) → fields (b ∷ buf) ≡ round fields (read_field (b ∷ buf))
unfolding fields stream
fields-round b buf = elim (Result-cases (read_field (b ∷ buf))) [
  | inl ((field, left), e) ↦
      let short = read_field_takes (b ∷ buf) field left e in
      ap (round (stream (length buf))) e
      ∙ ap (next field) (stream_fuel (length buf) (length left) left (omega arith) (omega arith))
      ∙ ap (round fields) (sym e)
  | inr (exn, e) ↦ ap (round (stream (length buf))) e ∙ ap (round fields) (sym e)
]

fields-append :
    (buf rest : Bytes) (field : Field)
    → read_field buf ≡ ok (field, rest)
    → fields buf ≡ next field (fields rest)
unfolding read_field varint varint_from
fields-append [] rest field h = cc
fields-append (b ∷ buf) rest field h = fields-round b buf ∙ ap (round fields) h

-- A written message yields its fields, and ends.
pub fields-write_parts : (ps : List Part) → All Fits ps → fields (write_parts ps) ≡ yields ps
fields-write_parts [] h = unfold fields stream in refl
fields-write_parts (p ∷ ps) (h, hs) =
    fields-append _ (write_parts ps) (field_of p) (read_field-write_part p (write_parts ps) h)
    ∙ ap (next (field_of p)) (fields-write_parts ps hs)
