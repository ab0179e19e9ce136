-- ===== src/Jcs/Sorting.antt =====
-- Members whose keys differ are sorted to one list from all their orders.
use seam_sdk.Prelude.{
  ◌≡◌, ◌≢◌, refl, sym, ap, ap₂, ◌∙◌, Bool-cases, inl, inr, List, [], ◌∷◌, map, All, bytes_eq,
  bytes_eq→eq, bytes_eq_refl, if◌then◌else◌, Result, err, type_error,
}
use mathlib.Core.List.{Permᴰ}
use seam_sdk.Bytes.{Bytes, Text}
use seam_sdk.Order.{insert_sorted, sort, lex_leb}
use seam_sdk.Order.Sort.{sort-eq_of_perm, All-perm, map-perm}
use seam_sdk.Order.Lex.{lex_leb-IsTotalOrder}
use seam_sdk.Jcs.{Member, before}

abbrev M : Type 0
M = Member (Result Text)

-- No two elements are related.
abbrev pub Pairwise : {A : Type 0} → (A → A → Type 0) → List A → Type 0
Pairwise R [] = Unit
Pairwise R (x ∷ xs) = All (R x) xs × Pairwise R xs

units_of : M → Bytes
units_of m = m.units

-- The member with these units.
find : List M → Bytes → M
find [] u = record { units = u; key = []; value = err type_error }
find (m ∷ ms) u = let rest = find ms u in if bytes_eq m.units u then m else rest

find-units : (ms : List M) (u : Bytes) → units_of (find ms u) ≡ u
unfolding find units_of
find-units [] u = refl
find-units (m ∷ ms) u = elim (Bool-cases (bytes_eq m.units u)) [
  | inl h ↦ rw h (bytes_eq→eq m.units u h)
  | inr h ↦ rw h (find-units ms u)
]

module _ (g : Bytes → M) (right : (u : Bytes) → units_of (g u) ≡ u) where
  before_units : (u v : Bytes) → before (g u) (g v) ≡ lex_leb u v
  before_units u v = unfold units_of in ap₂ lex_leb (right u) (right v)

  insert_sorted-map :
      (u : Bytes) (us : List Bytes)
      → insert_sorted before (g u) (map g us) ≡ map g (insert_sorted lex_leb u us)
  unfolding insert_sorted
  insert_sorted-map u [] = refl
  insert_sorted-map u (v ∷ us) = elim (Bool-cases (lex_leb u v)) [
    | inl h ↦ rw (before_units u v ∙ h, h) refl
    | inr h ↦ rw (before_units u v ∙ h, h) (ap (λ o. g v ∷ o) (insert_sorted-map u us))
  ]

  sort-map : (us : List Bytes) → sort before (map g us) ≡ map g (sort lex_leb us)
  unfolding sort
  sort-map [] = refl
  sort-map (u ∷ us) =
      ap (insert_sorted before (g u)) (sort-map us) ∙ insert_sorted-map u (sort lex_leb us)

Finds : List M → M → Type 0
Finds ms m = find ms m.units ≡ m

find-head : (m : M) (ms : List M) → Finds (m ∷ ms) m
unfolding Finds find
find-head m ms = rw (bytes_eq_refl m.units) refl

find-tail :
    (m : M) (ms ns : List M)
    → All (λ n. m.units ≢ n.units) ns
    → All (Finds ms) ns
    → All (Finds (m ∷ ms)) ns
unfolding Finds find
find-tail m ms [] a h = _
find-tail m ms (n ∷ ns) (d, a) (e, h) = (
  elim (Bool-cases (bytes_eq m.units n.units)) [
    | inl k ↦ absurd (d (bytes_eq→eq m.units n.units k))
    | inr k ↦ rw k e
  ],
  find-tail m ms ns a h,
)

find-All : (ms : List M) → Pairwise (λ m n. m.units ≢ n.units) ms → All (Finds ms) ms
find-All [] d = _
find-All (m ∷ ms) (a, d) = (find-head m ms, find-tail m ms ms a (find-All ms d))

map-Finds : (ms ns : List M) → All (Finds ms) ns → map (find ms) (map units_of ns) ≡ ns
unfolding Finds units_of
map-Finds ms [] h = refl
map-Finds ms (n ∷ ns) (e, h) = ap₂ (λ a b. a ∷ b) e (map-Finds ms ns h)

pub sort-eq_of_distinct :
    {ms ns : List M}
    → Permᴰ ms ns
    → Pairwise (λ m n. m.units ≢ n.units) ms
    → sort before ms ≡ sort before ns
sort-eq_of_distinct {ms = ms} {ns = ns} p d =
    let h = find-All ms d in
    let left = map-Finds ms ms h in
    let right = map-Finds ms ns (All-perm (Finds ms) p h) in
    let units = sort-eq_of_perm lex_leb lex_leb-IsTotalOrder (map-perm units_of p) in
    sym (ap (sort before) left)
    ∙ sort-map (find ms) (find-units ms) (map units_of ms)
    ∙ ap (map (find ms)) units
    ∙ sym (sort-map (find ms) (find-units ms) (map units_of ns))
    ∙ ap (sort before) right
