-- ===== src/Jcs/Members.antt =====
-- The members of a dict, from its entries in any order.
use seam_sdk.Prelude.{
  ◌≡◌, ◌≢◌, refl, sym, ap, ap₂, subst, ◌∙◌, Option, none, some, List, [], ◌∷◌, All, Result, ok, err,
  Exn, unicode_error, ok_injective, ◌>>=◌, >>=-eq-ok,
}
use mathlib.Core.List.{Permᴰ}
use mathlib.Core.List.Permᴰ
use seam_sdk.Bytes.{Bytes, Text}
use seam_sdk.Order.{sort}
use seam_sdk.Bytes.Codec.{text-injective}
use seam_sdk.Jcs.{utf_16_char, utf_16_be, Member, str_keys, with_units, before, sorted_members}
use seam_sdk.Jcs.Sorting.{Pairwise, sort-eq_of_distinct}
use seam_sdk.Jcs.Units.{utf_16_be-IsCodec, utf_16_be-err}

-- Two lists that are permutations of each other, or two equal errors.
Alike : {A : Type 0} → Result (List A) → Result (List A) → Type 0
Alike (ok xs) (ok ys) = Permᴰ xs ys
Alike (err d) (err e) = d ≡ e
Alike (ok xs) (err e) = ⊥
Alike (err d) (ok ys) = ⊥

module _ {A : Type 0} where
  Alike-refl : (r : Result (List A)) → Alike r r
  unfolding Alike
  Alike-refl (ok xs) = Permᴰ.refl xs
  Alike-refl (err e) = refl

  Alike-trans : (r s t : Result (List A)) → Alike r s → Alike s t → Alike r t
  unfolding Alike
  Alike-trans (ok xs) (ok ys) (ok zs) p q = Permᴰ.trans p q
  Alike-trans (err d) (err e) (err f) p q = p ∙ q
  Alike-trans (ok xs) (err e) t p q = absurd p
  Alike-trans (err d) (ok ys) t p q = absurd p
  Alike-trans (ok xs) (ok ys) (err f) p q = absurd q
  Alike-trans (err d) (err e) (ok zs) p q = absurd q

  abbrev with_head : A → Result (List A) → Result (List A)
  with_head x r = r >>= λ xs. ok (x ∷ xs)

  with_head-Alike :
      (x : A) (r s : Result (List A)) → Alike r s → Alike (with_head x r) (with_head x s)
  unfolding Alike
  with_head-Alike x (ok xs) (ok ys) p = Permᴰ.cons refl p
  with_head-Alike x (err d) (err e) p = p
  with_head-Alike x (ok xs) (err e) p = p
  with_head-Alike x (err d) (ok ys) p = p

  swapped_heads :
      (x y : A) (r : Result (List A))
      → Alike (with_head x (with_head y r)) (with_head y (with_head x r))
  unfolding Alike
  swapped_heads x y (ok xs) = Permᴰ.swap refl refl
  swapped_heads x y (err e) = refl

  Alike-eq :
      {B : Type 0} (k : List A → Result B) (r s : Result (List A))
      → Alike r s
      → ((xs ys : List A) → r ≡ ok xs → Permᴰ xs ys → k xs ≡ k ys)
      → (r >>= k) ≡ (s >>= k)
  unfolding Alike
  Alike-eq k (ok xs) (ok ys) p same = same xs ys refl p
  Alike-eq k (err d) (err e) p same = ap err p
  Alike-eq k (ok xs) (err e) p same = absurd p
  Alike-eq k (err d) (ok ys) p same = absurd p

-- A function on lists that respects a change of the tail and an exchange of two heads.
module _ {X Y : Type 0} (F : List X → Result (List Y))
    (tails : (x : X) (xs ys : List X) → Alike (F xs) (F ys) → Alike (F (x ∷ xs)) (F (x ∷ ys)))
    (heads : (x y : X) (xs : List X) → Alike (F (x ∷ y ∷ xs)) (F (y ∷ x ∷ xs))) where
  perm-Alike : {xs ys : List X} → Permᴰ xs ys → Alike (F xs) (F ys)
  perm-Alike Permᴰ.nil = Alike-refl (F [])
  perm-Alike (Permᴰ.cons {a = x} {l₁ = l} {l₂ = m} e d) =
      subst (λ o. Alike (F (x ∷ l)) (F (o ∷ m))) e (tails x l m (perm-Alike d))
  perm-Alike (Permᴰ.swap {a = x} {b = y} {l = l} e f) =
      subst (λ o. Alike (F (x ∷ y ∷ l)) (F o)) (ap₂ (λ a b. a ∷ b ∷ l) f e) (heads x y l)
  perm-Alike (Permᴰ.trans {l₁ = l} {l₂ = m} {l₃ = n} d e) =
      Alike-trans (F l) (F m) (F n) (perm-Alike d) (perm-Alike e)

abbrev pub Keyed : Type 0
Keyed = Option Text × Result Text

str_keys_tails :
    (p : Keyed) (l m : List Keyed)
    → Alike (str_keys l) (str_keys m)
    → Alike (str_keys (p ∷ l)) (str_keys (p ∷ m))
unfolding str_keys
str_keys_tails (none, a) l m h = Alike-refl _
str_keys_tails (some k, a) l m h = with_head-Alike (k, a) (str_keys l) (str_keys m) h

str_keys_heads :
    (p q : Keyed) (l : List Keyed) → Alike (str_keys (p ∷ q ∷ l)) (str_keys (q ∷ p ∷ l))
unfolding str_keys
str_keys_heads (none, a) (none, b) l = Alike-refl _
str_keys_heads (none, a) (some j, b) l = Alike-refl _
str_keys_heads (some k, a) (none, b) l = Alike-refl _
str_keys_heads (some k, a) (some j, b) l = swapped_heads (k, a) (j, b) (str_keys l)

abbrev NamedValue : Type 0
NamedValue = Text × Result Text

abbrev member : Text → Result Text → Bytes → Member (Result Text)
member k a u = record { units = u; key = k; value = a }

with_units_tails :
    (p : NamedValue) (l m : List NamedValue)
    → Alike (with_units l) (with_units m)
    → Alike (with_units (p ∷ l)) (with_units (p ∷ m))
unfolding with_units
with_units_tails (k, a) l m h = go (utf_16_be k)
  where
    go :
        (u : Result Bytes)
        → Alike
            (u >>= λ x. with_head (member k a x) (with_units l))
            (u >>= λ x. with_head (member k a x) (with_units m))
    go (ok x) = with_head-Alike (member k a x) (with_units l) (with_units m) h
    go (err e) = Alike-refl (err e)

with_units_heads :
    (p q : NamedValue) (l : List NamedValue)
    → Alike (with_units (p ∷ q ∷ l)) (with_units (q ∷ p ∷ l))
unfolding with_units
with_units_heads (k, a) (j, b) l =
    go (utf_16_be k) (utf_16_be j) (utf_16_be-err k) (utf_16_be-err j)
  where
    go :
        (u v : Result Bytes)
        → ((e : Exn) → u ≡ err e → e ≡ unicode_error)
        → ((e : Exn) → v ≡ err e → e ≡ unicode_error)
        → Alike
            (u >>= λ x.
              with_head (member k a x) (v >>= λ y. with_head (member j b y) (with_units l)))
            (v >>= λ y.
              with_head (member j b y) (u >>= λ x. with_head (member k a x) (with_units l)))
    go (ok x) (ok y) h g = swapped_heads (member k a x) (member j b y) (with_units l)
    go (ok x) (err e) h g = Alike-refl (err e)
    go (err d) (ok y) h g = Alike-refl (err d)
    go (err d) (err e) h g = unfold Alike in (h d refl ∙ sym (g e refl))

-- No key occurs twice.
abbrev pub Distinct : List Keyed → Type 0
Distinct es = Pairwise (λ (p q : Keyed). p.0 ≢ q.0) es

str_keys-away :
    (k : Text) (es : List Keyed) (ks : List NamedValue)
    → str_keys es ≡ ok ks
    → All (λ (q : Keyed). some k ≢ q.0) es
    → All (λ (q : NamedValue). k ≢ q.0) ks
unfolding str_keys
str_keys-away k [] ks h a = subst (All (λ (q : NamedValue). k ≢ q.0)) (ok_injective h) _
str_keys-away k ((none, v) ∷ es) ks h a = cc
str_keys-away k ((some j, v) ∷ es) ks h (d, a) =
    let (rest, hr, e) = >>=-eq-ok (str_keys es) _ h in
    subst (All (λ (q : NamedValue). k ≢ q.0)) (ok_injective e)
      ((λ same. d (ap some same)), str_keys-away k es rest hr a)

str_keys-Pairwise :
    (es : List Keyed) (ks : List NamedValue)
    → str_keys es ≡ ok ks
    → Distinct es
    → Pairwise (λ (p q : NamedValue). p.0 ≢ q.0) ks
unfolding str_keys
str_keys-Pairwise [] ks h d = subst (Pairwise (λ (p q : NamedValue). p.0 ≢ q.0)) (ok_injective h) _
str_keys-Pairwise ((none, v) ∷ es) ks h d = cc
str_keys-Pairwise ((some k, v) ∷ es) ks h (a, d) =
    let (rest, hr, e) = >>=-eq-ok (str_keys es) _ h in
    subst (Pairwise (λ (p q : NamedValue). p.0 ≢ q.0)) (ok_injective e)
      (str_keys-away k es rest hr a, str_keys-Pairwise es rest hr d)

with_units-away :
    (k : Text) (u : Bytes) (ks : List NamedValue) (ms : List (Member (Result Text)))
    → utf_16_be k ≡ ok u
    → with_units ks ≡ ok ms
    → All (λ (q : NamedValue). k ≢ q.0) ks
    → All (λ (n : Member (Result Text)). u ≢ n.units) ms
unfolding with_units
with_units-away k u [] ms hu h a =
    subst (All (λ (n : Member (Result Text)). u ≢ n.units)) (ok_injective h) _
with_units-away k u ((j, v) ∷ ks) ms hu h (d, a) =
    let (w, hw, h1) = >>=-eq-ok (utf_16_be j) _ h in
    let (rest, hr, e) = >>=-eq-ok (with_units ks) _ h1 in
    subst (All (λ (n : Member (Result Text)). u ≢ n.units)) (ok_injective e) (
      (λ same.
          d (text-injective utf_16_char utf_16_be utf_16_be-IsCodec k j w (hu ∙ ap ok same) hw)),
      with_units-away k u ks rest hu hr a,
    )

with_units-Pairwise :
    (ks : List NamedValue) (ms : List (Member (Result Text)))
    → with_units ks ≡ ok ms
    → Pairwise (λ (p q : NamedValue). p.0 ≢ q.0) ks
    → Pairwise (λ (m n : Member (Result Text)). m.units ≢ n.units) ms
unfolding with_units
with_units-Pairwise [] ms h d =
    subst (Pairwise (λ (m n : Member (Result Text)). m.units ≢ n.units)) (ok_injective h) _
with_units-Pairwise ((k, v) ∷ ks) ms h (a, d) =
    let (w, hw, h1) = >>=-eq-ok (utf_16_be k) _ h in
    let (rest, hr, e) = >>=-eq-ok (with_units ks) _ h1 in
    subst (Pairwise (λ (m n : Member (Result Text)). m.units ≢ n.units)) (ok_injective e)
      (with_units-away k w ks rest hw hr a, with_units-Pairwise ks rest hr d)

-- What is sorted, or refused, is the same for every order of entries whose keys differ.
pub sorted_members-perm :
    {es fs : List Keyed} → Permᴰ es fs → Distinct es → sorted_members es ≡ sorted_members fs
unfolding sorted_members
sorted_members-perm {es = es} {fs = fs} p d =
    Alike-eq (λ ks. with_units ks >>= λ ms. ok (sort before ms)) (str_keys es) (str_keys fs)
      (perm-Alike str_keys str_keys_tails str_keys_heads p)
      λ ks js hk q.
        Alike-eq (λ ms. ok (sort before ms)) (with_units ks) (with_units js)
          (perm-Alike with_units with_units_tails with_units_heads q)
          λ ms ns hm r.
            ap ok
              (sort-eq_of_distinct r (with_units-Pairwise ks ms hm (str_keys-Pairwise es ks hk d)))
