-- ===== src/Proto/Written.antt =====
-- The protobuf encoding, as the format's description has it: what a server writes.
use seam_sdk.Prelude.{
  ℕ, zero, suc, ◌+◌, ◌*◌, ◌/◌, ◌%◌, ◌^◌, ◌<◌, List, [], ◌∷◌, ◌++◌, length, ltb, if◌then◌else◌,
}
use seam_sdk.Bytes.{Bytes}
use seam_sdk.Proto.{Field, number_field, bytes_field, Stream, finished, next}

-- A number below 128 ^ (k + 1), seven bits a byte.
unfoldable pub groups : ℕ → ℕ → Bytes
groups zero n = n ∷ []
groups (suc k) n =
    let more = groups k (n / 128) in if ltb n 128 then n ∷ [] else (n % 128 + 128) ∷ more

-- A number of 64 bits.
abbrev pub write_varint : ℕ → Bytes
write_varint n = groups 9 n

-- The fields that the messages read here are made of.
pub data Part : Type 0 where
  number : ℕ → ℕ → Part
  chunk : ℕ → Bytes → Part

abbrev pub write_part : Part → Bytes
write_part (number num v) = write_varint (num * 8) ++ write_varint v
write_part (chunk num v) = write_varint (num * 8 + 2) ++ (write_varint (length v) ++ v)

abbrev pub write_parts : List Part → Bytes
write_parts [] = []
write_parts (p ∷ ps) = write_part p ++ write_parts ps

-- Field numbers have 29 bits and lengths 64.
abbrev pub Fits : Part → Type 0
Fits (number num v) = (num < 2 ^ 29) × (v < 2 ^ 64)
Fits (chunk num v) = (num < 2 ^ 29) × (length v < 2 ^ 64)

abbrev pub field_of : Part → Field
field_of (number num v) = number_field num v
field_of (chunk num v) = bytes_field num v

abbrev pub yields : List Part → Stream
yields [] = finished
yields (p ∷ ps) = next (field_of p) (yields ps)

-- A scalar field of proto3 in front of the others: it is left out at its default.
abbrev pub set_number : ℕ → ℕ → List Part → List Part
set_number num zero ps = ps
set_number num (suc v) ps = number num (suc v) ∷ ps

abbrev pub set_chunk : ℕ → Bytes → List Part → List Part
set_chunk num [] ps = ps
set_chunk num (x ∷ v) ps = chunk num (x ∷ v) ∷ ps
