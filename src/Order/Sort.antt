-- ===== src/Order/Sort.antt =====
-- Sorting by a total order gives a permutation, and one result for all orders of the input.
use seam_sdk.Prelude.{
  ◌≡◌, refl, sym, ap, subst, ◌∙◌, inl, inr, List, [], ◌∷◌, map, All, Bool, true, false, Bool-cases,
  arith,
}
use mathlib.Core.List.{Permᴰ}
use mathlib.Core.List.Permᴰ
use seam_sdk.Order.{insert_sorted, sort}

module _ {A : Type 0} (le : A → A → Bool) where
  insert_sorted-perm : (x : A) (ys : List A) → Permᴰ (insert_sorted le x ys) (x ∷ ys)
  unfolding insert_sorted
  insert_sorted-perm x [] = Permᴰ.refl _
  insert_sorted-perm x (y ∷ ys) = elim (Bool-cases (le x y)) [
    | inl h ↦ rw h (Permᴰ.refl _)
    | inr h ↦ rw h (Permᴰ.trans (Permᴰ.cons refl (insert_sorted-perm x ys)) (Permᴰ.swap refl refl))
  ]

  pub sort-perm : (xs : List A) → Permᴰ (sort le xs) xs
  unfolding sort
  sort-perm [] = Permᴰ.nil
  sort-perm (x ∷ xs) =
      Permᴰ.trans (insert_sorted-perm x (sort le xs)) (Permᴰ.cons refl (sort-perm xs))

-- What holds of every element holds in every order of them.
module _ {A : Type 0} (P : A → Type 0) where
  pub All-perm : {xs ys : List A} → Permᴰ xs ys → All P xs → All P ys
  All-perm Permᴰ.nil a = a
  All-perm (Permᴰ.cons e d) (h, a) = (subst P e h, All-perm d a)
  All-perm (Permᴰ.swap e f) (h, r) = (subst P f r.0, (subst P e h, r.1))
  All-perm (Permᴰ.trans d e) a = All-perm e (All-perm d a)

module _ {A B : Type 0} (f : A → B) where
  pub map-perm : {xs ys : List A} → Permᴰ xs ys → Permᴰ (map f xs) (map f ys)
  map-perm Permᴰ.nil = Permᴰ.nil
  map-perm (Permᴰ.cons e d) = Permᴰ.cons (ap f e) (map-perm d)
  map-perm (Permᴰ.swap e e') = Permᴰ.swap (ap f e) (ap f e')
  map-perm (Permᴰ.trans d e) = Permᴰ.trans (map-perm d) (map-perm e)

-- The laws of a total order.
pub record IsTotalOrder {A : Type 0} (le : A → A → Bool) : Type 0 where
  pub total : (x y : A) → le x y ≡ false → le y x ≡ true
  pub antisymm : (x y : A) → le x y ≡ true → le y x ≡ true → x ≡ y
  pub trans : (x y z : A) → le x y ≡ true → le y z ≡ true → le x z ≡ true

module _ {A : Type 0} (le : A → A → Bool) (o : IsTotalOrder le) where
  insert_comm :
      (x y : A) (zs : List A)
      → le x y ≡ true
      → insert_sorted le x (insert_sorted le y zs) ≡ insert_sorted le y (insert_sorted le x zs)
  unfolding insert_sorted
  insert_comm x y [] h = ground (arith, o.antisymm x y)
  insert_comm x y (z ∷ zs) h = ground (
    arith,
    o.antisymm x y,
    o.trans x y z,
    o.antisymm x z,
    o.antisymm y z,
    o.total x z,
    o.total y z,
    insert_comm x y zs,
  )

  insert_swap :
      (x y : A) (zs : List A)
      → insert_sorted le x (insert_sorted le y zs) ≡ insert_sorted le y (insert_sorted le x zs)
  insert_swap x y zs = elim (Bool-cases (le x y)) [
    | inl h ↦ insert_comm x y zs h
    | inr h ↦ sym (insert_comm y x zs (o.total x y h))
  ]

  pub sort-eq_of_perm : {xs ys : List A} → Permᴰ xs ys → sort le xs ≡ sort le ys
  unfolding sort
  sort-eq_of_perm Permᴰ.nil = refl
  sort-eq_of_perm (Permᴰ.cons e d) = cc (e, sort-eq_of_perm d)
  sort-eq_of_perm (Permᴰ.swap {a = a} {b = b} {l = l} e f) = cc (e, f, insert_swap a b (sort le l))
  sort-eq_of_perm (Permᴰ.trans d e) = sort-eq_of_perm d ∙ sort-eq_of_perm e
