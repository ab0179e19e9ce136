-- ===== src/Json/Keys.antt =====
-- What the hook of `json.loads` lets pass.
use seam_sdk.Prelude.{
  ◌≡◌, refl, sym, ap, ◌∙◌, subst, ap₂, inl, inr, Bool-cases, bytes_eq_refl, true, false, bytes_eq,
  bytes_eq→eq, either_branch, Result, ok, err, Exn, arith, ok_injective, after_bind,
}
use seam_sdk.Bytes.{Bytes, Text}
use seam_sdk.Json.{
  Json, null, boolean, integer, real, string, array, object, Elements, no_items, item, Fields,
  no_fields, field, has_key, set_item, fill, no_duplicate_keys, hooked, hooked_items, hooked_fields,
  loads,
}

-- No key of the object occurs twice.
abbrev pub Distinct : Fields → Type 0
Distinct no_fields = Unit {0}
Distinct (field k v rest) = (has_key rest k ≡ false) × Distinct rest

-- Nor of any object in the value.
unfoldable mutual
  pub DistinctKeys : Json → Type 0
  DistinctKeys (array xs) = DistinctItems xs
  DistinctKeys (object fs) = Distinct fs × DistinctFields fs
  DistinctKeys _ = Unit {0}

  pub DistinctItems : Elements → Type 0
  DistinctItems no_items = Unit {0}
  DistinctItems (item x xs) = DistinctKeys x × DistinctItems xs

  pub DistinctFields : Fields → Type 0
  DistinctFields no_fields = Unit {0}
  DistinctFields (field k v fs) = DistinctKeys v × DistinctFields fs

infixr 60 ◌+++◌
abbrev ◌+++◌ : Fields → Fields → Fields
no_fields +++ gs = gs
(field k v fs) +++ gs = field k v (fs +++ gs)

set_item-append :
    (out rest : Fields) (k : Text) (v : Json) → set_item out k v +++ rest ≡ out +++ field k v rest
unfolding set_item
set_item-append no_fields rest k v = refl
set_item-append (field j w out) rest k v = ap (field j w) (set_item-append out rest k v)

append_no_fields : (out : Fields) → out +++ no_fields ≡ out
append_no_fields no_fields = refl
append_no_fields (field k v out) = ap (field k v) (append_no_fields out)

fill-eq-ok : (pairs out fs : Fields) → fill pairs out ≡ ok fs → fs ≡ out +++ pairs
unfolding fill
fill-eq-ok no_fields out fs h = sym (ok_injective h) ∙ sym (append_no_fields out)
fill-eq-ok (field k v rest) out fs h =
    either_branch (has_key out k) h (λ e. cc)
      (λ e. fill-eq-ok rest (set_item out k v) fs e ∙ set_item-append out rest k v)

true_or_false : true ≡ false → ⊥
true_or_false e = cc

bytes_eq_sym : (s t : Text) → bytes_eq s t ≡ false → bytes_eq t s ≡ false
bytes_eq_sym s t h = elim (Bool-cases (bytes_eq t s)) [
  | inr no_match ↦ no_match
  | inl same ↦
      absurd
        (true_or_false (sym (bytes_eq_refl t) ∙ ap (λ u. bytes_eq u t) (bytes_eq→eq t s same) ∙ h))
]

has_key-set_item :
    (out : Fields) (k j : Text) (v : Json)
    → has_key out j ≡ false
    → bytes_eq k j ≡ false
    → has_key (set_item out k v) j ≡ false
unfolding has_key set_item
has_key-set_item no_fields k j v h e = rw e refl
has_key-set_item (field i w out) k j v h e = ground (arith, has_key-set_item out k j v)

set_item-Distinct :
    (out : Fields) (k : Text) (v : Json)
    → Distinct out
    → has_key out k ≡ false
    → Distinct (set_item out k v)
unfolding set_item has_key
set_item-Distinct no_fields k v d h = (refl, _)
set_item-Distinct (field j w out) k v (absent, d) h = elim (Bool-cases (bytes_eq j k)) [
  | inl same ↦ absurd (true_or_false (rw same at h))
  | inr apart ↦ (
    has_key-set_item out k j v absent (bytes_eq_sym j k apart),
    set_item-Distinct out k v d (rw apart at h),
  )
]

fill-Distinct : (pairs out fs : Fields) → Distinct out → fill pairs out ≡ ok fs → Distinct fs
unfolding fill
fill-Distinct no_fields out fs d h = subst Distinct (ok_injective h) d
fill-Distinct (field k v rest) out fs d h = elim (Bool-cases (has_key out k)) [
  | inl e ↦ absurd (raises (rw e at h))
  | inr e ↦ fill-Distinct rest (set_item out k v) fs (set_item-Distinct out k v d e) (rw e at h)
]
  where
    raises : {v : Exn} → err v ≡ ok fs → ⊥
    raises e = cc

-- What the hook returns is what it was given, in which no key occurs twice.
no_duplicate_keys-Distinct :
    (pairs fs : Fields) → no_duplicate_keys pairs ≡ ok fs → (fs ≡ pairs) × Distinct fs
unfolding no_duplicate_keys
no_duplicate_keys-Distinct pairs fs h =
    (fill-eq-ok pairs no_fields fs h, fill-Distinct pairs no_fields fs _ h)

mutual
  unfolding hooked DistinctKeys

  hooked-value : (j k : Json) → hooked j ≡ ok k → (k ≡ j) × DistinctKeys k
  hooked-value (array xs) k h = after_bind (hooked_items xs) _ h λ ys e r.
      let (same, d) = hooked-items xs ys e in
      subst (λ k. (k ≡ array xs) × DistinctKeys k) (ok_injective r) (ap array same, d)
  hooked-value (object fs) k h = after_bind (hooked_fields fs) _ h λ pairs e r.
      after_bind (no_duplicate_keys pairs) _ r λ out e' r'.
        let (same, d) = hooked-fields fs pairs e in
        let (same', d') = no_duplicate_keys-Distinct pairs out e' in
        subst (λ k. (k ≡ object fs) × DistinctKeys k) (ok_injective r')
          (ap object (same' ∙ same), (d', subst DistinctFields (sym same') d))
  hooked-value null k h = subst (λ k. (k ≡ null) × DistinctKeys k) (ok_injective h) (refl, _)
  hooked-value (boolean b) k h =
      subst (λ k. (k ≡ boolean b) × DistinctKeys k) (ok_injective h) (refl, _)
  hooked-value (integer z) k h =
      subst (λ k. (k ≡ integer z) × DistinctKeys k) (ok_injective h) (refl, _)
  hooked-value (real bits) k h =
      subst (λ k. (k ≡ real bits) × DistinctKeys k) (ok_injective h) (refl, _)
  hooked-value (string s) k h =
      subst (λ k. (k ≡ string s) × DistinctKeys k) (ok_injective h) (refl, _)

  hooked-items : (xs ys : Elements) → hooked_items xs ≡ ok ys → (ys ≡ xs) × DistinctItems ys
  hooked-items no_items ys h =
      subst (λ ys. (ys ≡ no_items) × DistinctItems ys) (ok_injective h) (refl, _)
  hooked-items (item x xs) ys h = after_bind (hooked x) _ h λ y e r.
      after_bind (hooked_items xs) _ r λ zs e' r'.
        let (same, d) = hooked-value x y e in
        let (same', d') = hooked-items xs zs e' in
        subst (λ ys. (ys ≡ item x xs) × DistinctItems ys) (ok_injective r')
          (ap₂ item same same', (d, d'))

  hooked-fields : (fs gs : Fields) → hooked_fields fs ≡ ok gs → (gs ≡ fs) × DistinctFields gs
  hooked-fields no_fields gs h =
      subst (λ gs. (gs ≡ no_fields) × DistinctFields gs) (ok_injective h) (refl, _)
  hooked-fields (field k v fs) gs h = after_bind (hooked v) _ h λ w e r.
      after_bind (hooked_fields fs) _ r λ hs e' r'.
        let (same, d) = hooked-value v w e in
        let (same', d') = hooked-fields fs hs e' in
        subst (λ gs. (gs ≡ field k v fs) × DistinctFields gs) (ok_injective r')
          (ap₂ (field k) same same', (d, d'))

-- A text that `json.loads` with the hook reads has no object, at any depth, with a key that occurs
-- twice, and is read as `json.loads` reads it.
pub loads-DistinctKeys :
    (parse : Bytes → Result Json) (s : Bytes) (j : Json)
    → loads parse s ≡ ok j
    → (parse s ≡ ok j) × DistinctKeys j
unfolding loads
loads-DistinctKeys parse s j h =
    after_bind (parse s) _ h
      λ raw e r. let (same, d) = hooked-value raw j r in (e ∙ ap ok (sym same), d)
