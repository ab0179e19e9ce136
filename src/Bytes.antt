-- ===== src/Bytes.antt =====
-- Bytes, text and the fixed-width integers that `python/seam_sdk/crypto.py` packs.
-- A byte string is a list of numbers and a `str` a list of code points, surrogates included.
pub mod Codec
pub mod Utf8
pub mod Pack
pub mod Decode
use seam_sdk.Prelude.{
  ℕ, zero, suc, ◌+◌, ◌-◌, ◌*◌, ◌/◌, ◌%◌, ◌^◌, List, [], ◌∷◌, ◌++◌, ltb, leb, ◌&&◌, length,
  if◌then◌else◌, Result, ok, err, Exn, struct_error, overflow_error, unicode_error, ◌>>=◌,
}
use mathlib.Core.List.{reverse}

abbrev pub Bytes : Type 0
Bytes = List ℕ

abbrev pub Text : Type 0
Text = List ℕ

-- The `w` little-endian bytes of a number below 256 ^ w.
unfoldable pub le_bytes : ℕ → ℕ → Bytes
le_bytes zero n = []
le_bytes (suc w) n = (n % 256) ∷ le_bytes w (n / 256)

-- `struct.pack("<I", n)` at width 4 and `struct.pack("<Q", n)` at width 8.
unfoldable pub pack_le : ℕ → ℕ → Result Bytes
pack_le w n = if ltb n (256 ^ w) then ok (le_bytes w n) else err struct_error

-- `n.to_bytes(w, "big")`.
unfoldable pub to_bytes_big : ℕ → ℕ → Result Bytes
to_bytes_big w n = if ltb n (256 ^ w) then ok (reverse (le_bytes w n)) else err overflow_error

-- One code point of `str.encode("utf-8")`: a surrogate has no encoding.
unfoldable pub encode_char : ℕ → Result Bytes
encode_char c =
    if ltb c 0x80
    then ok (c ∷ [])
    else if ltb c 0x800
    then ok ((0xc0 + c / 64) ∷ (0x80 + c % 64) ∷ [])
    else if leb 0xd800 c && leb c 0xdfff
    then err unicode_error
    else if ltb c 0x10000
    then ok ((0xe0 + c / 4096) ∷ (0x80 + c / 64 % 64) ∷ (0x80 + c % 64) ∷ [])
    else if ltb c 0x110000
    then ok
        ((0xf0 + c / 262144) ∷ (0x80 + c / 4096 % 64) ∷ (0x80 + c / 64 % 64) ∷ (0x80 + c % 64) ∷ [])
    else err unicode_error

-- `str.encode(s)`, as `_rd_enc` calls it.
unfoldable pub encode : Text → Result Bytes
encode [] = ok []
encode (c ∷ s) = do b ← encode_char c; bs ← encode s; ok (b ++ bs)
