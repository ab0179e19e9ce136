-- ===== src/Bytes/Pack.antt =====
-- Packed integers have their width, and tell their numbers apart.
use seam_sdk.Prelude.{
  ℕ, zero, suc, ◌/◌, ◌^◌, ◌<◌, [], ◌∷◌, ◌≡◌, refl, ap, arith, length, length-append, ok,
}
use mathlib.Core.List.{reverse, reverse-reverse, reverse-cons}
use seam_sdk.Bytes.{Bytes, le_bytes, pack_le, to_bytes_big}

pub length-le_bytes : (w n : ℕ) → length (le_bytes w n) ≡ w
unfolding le_bytes
length-le_bytes zero n = refl
length-le_bytes (suc w) n = ap suc (length-le_bytes w (n / 256))

le_bytes-injective : (w n m : ℕ) → n < 256 ^ w → m < 256 ^ w → le_bytes w n ≡ le_bytes w m → n ≡ m
unfolding le_bytes
le_bytes-injective zero n m hn hm e = omega arith
le_bytes-injective (suc w) n m hn hm e =
    ground (arith, le_bytes-injective w (n / 256) (m / 256) (omega arith) (omega arith))

pub length-pack_le : (w n : ℕ) (b : Bytes) → pack_le w n ≡ ok b → length b ≡ w
unfolding pack_le
length-pack_le w n b h = ground (arith, length-le_bytes w n)

pub pack_le-injective : (w n m : ℕ) (b : Bytes) → pack_le w n ≡ ok b → pack_le w m ≡ ok b → n ≡ m
unfolding pack_le
pack_le-injective w n m b h k = ground (arith, le_bytes-injective w n m)

length-reverse : (xs : Bytes) → length (reverse xs) ≡ length xs
length-reverse [] = refl
length-reverse (x ∷ xs) = rw (reverse-cons, length-append) (omega (arith, length-reverse xs))

pub length-to_bytes_big : (w n : ℕ) (b : Bytes) → to_bytes_big w n ≡ ok b → length b ≡ w
unfolding to_bytes_big
length-to_bytes_big w n b h = ground (arith, length-le_bytes w n, length-reverse (le_bytes w n))

pub to_bytes_big-injective :
    (w n m : ℕ) (b : Bytes) → to_bytes_big w n ≡ ok b → to_bytes_big w m ≡ ok b → n ≡ m
unfolding to_bytes_big
to_bytes_big-injective w n m b h k = ground (
  arith,
  le_bytes-injective w n m,
  reverse-reverse (le_bytes w n),
  reverse-reverse (le_bytes w m),
)
