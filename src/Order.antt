-- ===== src/Order.antt =====
-- Python's `sorted` on a total order, and the orders of `bytes` and of pairs of `bytes`.
pub mod Sort
pub mod Lex
use seam_sdk.Prelude.{◌+◌, List, [], ◌∷◌, bytes_eq, ltb, ◌==◌, if◌then◌else◌, Bool, true, false}
use seam_sdk.Bytes.{Bytes}

module _ {ℓ} {A : Type ℓ} (le : A → A → Bool) where
  unfoldable pub insert_sorted : A → List A → List A
  insert_sorted x [] = x ∷ []
  insert_sorted x (y ∷ ys) =
      let rest = insert_sorted x ys in if le x y then x ∷ y ∷ ys else y ∷ rest

  unfoldable pub sort : List A → List A
  sort [] = []
  sort (x ∷ xs) = insert_sorted x (sort xs)

unfoldable pub lex_leb : Bytes → Bytes → Bool
lex_leb [] ys = true
lex_leb (x ∷ xs) [] = false
lex_leb (x ∷ xs) (y ∷ ys) = let rest = lex_leb xs ys in if x == y then rest else ltb x y

unfoldable pub pair_leb : Bytes × Bytes → Bytes × Bytes → Bool
pair_leb (k, v) (k', v') = if bytes_eq k k' then lex_leb v v' else lex_leb k k'
