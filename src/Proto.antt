-- ===== src/Proto.antt =====
-- The protobuf reader of `python/seam_sdk/errors.py`: `_varint` and `_fields`. A position in the buffer
-- is the part of the buffer that is left.
pub mod Written
pub mod RoundTrip
use seam_sdk.Prelude.{
  ℕ, zero, suc, ◌+◌, ◌*◌, ◌/◌, ◌%◌, ◌^◌, List, [], ◌∷◌, length, ltb, leb, if◌then◌else◌, ◌==◌,
  Result, ok, err, truncated, ◌>>=◌,
}
use seam_sdk.Bytes.{Bytes}

-- The loop of `_varint`: `out` holds the bits below `shift`, so `|=` is an addition.
unfoldable pub varint_from : ℕ → ℕ → Bytes → Result (ℕ × Bytes)
varint_from shift out [] = err truncated
varint_from shift out (b ∷ buf) =
    let total = out + b % 128 * 2 ^ shift in
    let more = varint_from (shift + 7) total buf in
    if ltb 63 shift then err truncated else if ltb b 128 then ok (total, buf) else more

unfoldable pub varint : Bytes → Result (ℕ × Bytes)
unfolding varint_from
varint = varint_from 0 0

-- The front of a buffer and what is left, where the buffer is long enough.
unfoldable pub split_front : ℕ → Bytes → Result (Bytes × Bytes)
split_front zero buf = ok ([], buf)
split_front (suc n) [] = err truncated
split_front (suc n) (b ∷ buf) = split_front n buf >>= λ (front, left). ok (b ∷ front, left)

-- What `_fields` yields: the number, the wire type and the value, by wire type.
pub data Field : Type 0 where
  number_field : ℕ → ℕ → Field
  bytes_field : ℕ → Bytes → Field
  fixed64_field fixed32_field : ℕ → Field

-- One round of the loop, on a buffer that is not empty.
unfoldable pub value_of : ℕ → ℕ → Bytes → Result (Field × Bytes)
unfolding varint split_front
value_of num wt buf =
    if wt == 0
    then (do (v, left) ← varint buf; ok (number_field num v, left))
    else if wt == 2
    then (do (n, left) ← varint buf; (v, left') ← split_front n left; ok (bytes_field num v, left'))
    else if wt == 1
    then (do (v, left) ← split_front 8 buf; ok (fixed64_field num, left))
    else if wt == 5
    then (do (v, left) ← split_front 4 buf; ok (fixed32_field num, left))
    else err truncated

unfoldable pub read_field : Bytes → Result (Field × Bytes)
unfolding varint value_of
read_field buf = varint buf >>= λ (key, left). value_of (key / 8) (key % 8) left

-- A generator that yields fields and then ends, or raises. A reader that stops early does not see
-- how it ends.
pub data Stream : Type 0 where
  finished broken : Stream
  next : Field → Stream → Stream

-- One round, where `rest` goes on with the buffer that is left.
abbrev pub round : (Bytes → Stream) → Result (Field × Bytes) → Stream
round rest (ok (field, left)) = next field (rest left)
round rest (err e) = broken

-- A round takes a byte at least, so the number of bytes is enough fuel.
unfoldable pub stream : ℕ → Bytes → Stream
stream fuel [] = finished
stream zero (b ∷ buf) = broken
stream (suc fuel) (b ∷ buf) = round (stream fuel) (read_field (b ∷ buf))

unfoldable pub fields : Bytes → Stream
unfolding stream
fields buf = stream (length buf) buf

-- `for num, wt, v in _fields(buf)`, whose body takes the locals that it assigns to.
unfoldable pub each {ℓ} : {S : Type ℓ} → (S → Field → Result S) → S → Stream → Result S
each body s finished = ok s
each body s broken = err truncated
each body s (next field rest) = body s field >>= λ s'. each body s' rest
