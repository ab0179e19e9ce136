-- ===== src/Order/Lex.antt =====
-- The orders of `bytes` and of pairs are total.
use seam_sdk.Prelude.{◌≡◌, refl, [], ◌∷◌, true, false, arith, bytes_eq→eq, bytes_eq_refl}
use seam_sdk.Bytes.{Bytes}
use seam_sdk.Order.{lex_leb, pair_leb}
use seam_sdk.Order.Sort.{IsTotalOrder}

lex_total : (x y : Bytes) → lex_leb x y ≡ false → lex_leb y x ≡ true
unfolding lex_leb
lex_total [] y h = cc
lex_total (a ∷ x) [] h = refl
lex_total (a ∷ x) (b ∷ y) h = ground (arith, lex_total x y)

lex_antisymm : (x y : Bytes) → lex_leb x y ≡ true → lex_leb y x ≡ true → x ≡ y
unfolding lex_leb
lex_antisymm [] [] h k = refl
lex_antisymm [] (b ∷ y) h k = cc
lex_antisymm (a ∷ x) [] h k = cc
lex_antisymm (a ∷ x) (b ∷ y) h k = ground (arith, lex_antisymm x y)

lex_trans : (x y z : Bytes) → lex_leb x y ≡ true → lex_leb y z ≡ true → lex_leb x z ≡ true
unfolding lex_leb
lex_trans [] y z h k = refl
lex_trans (a ∷ x) [] z h k = cc
lex_trans (a ∷ x) (b ∷ y) [] h k = cc
lex_trans (a ∷ x) (b ∷ y) (c ∷ z) h k = ground (arith, lex_trans x y z)

pub lex_leb-IsTotalOrder : IsTotalOrder lex_leb
lex_leb-IsTotalOrder = record { total = lex_total; antisymm = lex_antisymm; trans = lex_trans }

pair_total : (p q : Bytes × Bytes) → pair_leb p q ≡ false → pair_leb q p ≡ true
unfolding pair_leb
pair_total (k, v) (k', v') h = ground (
  arith,
  bytes_eq→eq k k',
  bytes_eq→eq k' k,
  bytes_eq_refl k,
  bytes_eq_refl k',
  lex_total k k',
  lex_total v v',
)

pair_antisymm : (p q : Bytes × Bytes) → pair_leb p q ≡ true → pair_leb q p ≡ true → p ≡ q
unfolding pair_leb
pair_antisymm (k, v) (k', v') h g = ground (
  arith,
  bytes_eq→eq k k',
  bytes_eq→eq k' k,
  bytes_eq_refl k,
  bytes_eq_refl k',
  lex_antisymm k k',
  lex_antisymm v v',
)

pair_trans :
    (p q r : Bytes × Bytes) → pair_leb p q ≡ true → pair_leb q r ≡ true → pair_leb p r ≡ true
unfolding pair_leb
pair_trans (k, v) (k', v') (k'', v'') h g = ground (
  arith,
  bytes_eq→eq k k',
  bytes_eq→eq k' k'',
  bytes_eq→eq k k'',
  bytes_eq_refl k,
  bytes_eq_refl k',
  bytes_eq_refl k'',
  lex_trans k k' k'',
  lex_trans v v' v'',
  lex_antisymm k k',
  lex_antisymm k' k,
)

pub pair_leb-IsTotalOrder : IsTotalOrder pair_leb
pair_leb-IsTotalOrder = record { total = pair_total; antisymm = pair_antisymm; trans = pair_trans }
