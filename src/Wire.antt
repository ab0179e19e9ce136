-- ===== src/Wire.antt =====
-- The length-prefixed framings of `python/seam_sdk/crypto.py`: `_frame`, `_opt_bytes`,
-- `_rd_opt_text` and `_be64_frame`. A preimage is a list of slots, written one after the other: the code's
-- `b"".join(...)` and its chains of `+`.
mod Prefix
pub mod Cancel
use seam_sdk.Prelude.{ℕ, ◌+◌, Option, none, some, List, [], ◌∷◌, ◌++◌, length, Result, ok, ◌>>=◌}
use seam_sdk.Bytes.{Bytes, Text, encode, pack_le, to_bytes_big}

-- `_frame`: `u32le(len(b)) || b`.
unfoldable pub frame : Bytes → Result Bytes
frame b = do n ← pack_le 4 (length b); ok (n ++ b)

-- `_opt_bytes`: a presence byte, then the frame.
unfoldable pub opt_bytes : Option Bytes → Result Bytes
opt_bytes none = ok (0 ∷ [])
opt_bytes (some b) = do f ← frame b; ok (1 ∷ f)

-- `_be64_frame`.
unfoldable pub be64_frame : Bytes → Result Bytes
be64_frame field = do n ← to_bytes_big 8 (length field); ok (n ++ field)

-- A frame over UTF-8 text, `_frame(_rd_enc(x))`, and over a packed integer.
unfoldable pub frame_text : Text → Result Bytes
frame_text s = do b ← encode s; frame b

unfoldable pub frame_int : ℕ → ℕ → Result Bytes
frame_int w n = do b ← pack_le w n; frame b

-- `_rd_opt_text`.
unfoldable pub rd_opt_text : Option Text → Result Bytes
rd_opt_text none = ok (0 ∷ [])
rd_opt_text (some s) = do f ← frame_text s; ok (1 ∷ f)

unfoldable pub be64_text : Text → Result Bytes
be64_text s = do b ← encode s; be64_frame b

-- `b"\x00" if x is None else b"\x01" + _be64_frame(x.encode())`.
unfoldable pub be64_opt_text : Option Text → Result Bytes
be64_opt_text none = ok (0 ∷ [])
be64_opt_text (some s) = do f ← be64_text s; ok (1 ∷ f)

-- `b"\x00"` or `b"\x01" + struct.pack(">d", conf)`, over the bit pattern of the double.
unfoldable pub opt_double : Option ℕ → Result Bytes
opt_double none = ok (0 ∷ [])
opt_double (some n) = do b ← to_bytes_big 8 n; ok (1 ∷ b)

-- One operand of a preimage, and the bytes that it adds.
pub data Slot : Type 0 where
  framed : Bytes → Slot
  text : Text → Slot
  packed : ℕ → ℕ → Slot
  optional : Option Bytes → Slot
  opt_text : Option Text → Slot
  count : ℕ → Slot
  be_framed : Bytes → Slot
  be_text : Text → Slot
  be_opt_text : Option Text → Slot
  be_count : ℕ → Slot
  double : Option ℕ → Slot

unfoldable pub write : Slot → Result Bytes
write (framed b) = frame b
write (text s) = frame_text s
write (packed w n) = frame_int w n
write (optional o) = opt_bytes o
write (opt_text o) = rd_opt_text o
write (count n) = pack_le 4 n
write (be_framed b) = be64_frame b
write (be_text s) = be64_text s
write (be_opt_text o) = be64_opt_text o
write (be_count n) = to_bytes_big 8 n
write (double o) = opt_double o

-- The operands are evaluated from left to right, and the first exception ends it.
unfoldable pub join : List Slot → Result Bytes
join [] = ok []
join (s ∷ rest) = do b ← write s; bs ← join rest; ok (b ++ bs)
