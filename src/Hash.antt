-- ===== src/Hash.antt =====
-- SHA-256 (`hashlib`) enters every digest as a function on byte strings, of which nothing is
-- assumed. What a digest binds is stated up to a collision of that function, which is exhibited.
use seam_sdk.Prelude.{◌≡◌, ◌≢◌, ◌⊎◌, inl, inr}
use native.Mathlib.Decide.{ℕ_discrete}
use seam_sdk.Bytes.{Bytes}

abbrev pub Collision : (Bytes → Bytes) → Type 0
Collision hash = (x : Bytes) × (y : Bytes) × (x ≢ y) × (hash x ≡ hash y)

pub Bytes-discrete : Discrete Bytes
Bytes-discrete = hlevel ℕ_discrete

pub same_or_Collision :
    (hash : Bytes → Bytes) (x y : Bytes) → hash x ≡ hash y → (x ≡ y) ⊎ Collision hash
same_or_Collision hash x y h = elim (Bytes-discrete x y) [
  | yes e ↦ inl e
  | no ne ↦ inr (x, y, ne, h)
]
