-- ===== src/Jcs/Seen.antt =====
-- The members of a dict, and the canonical trees that their values are written from.
use seam_sdk.Prelude.{
  ◌≡◌, refl, sym, ap₂, ◌∙◌, subst, Option, none, some, List, [], ◌∷◌, ◌++◌, All, Result, ok, err,
  type_error, ok_injective, >>=-eq-ok,
}
use mathlib.Core.List.{Permᴰ, append_assoc}
use mathlib.Core.List.Permᴰ
use seam_sdk.Bytes.{Text}
use seam_sdk.Jcs.{jcs_string, utf_16_be, Member, str_keys, with_units, member_texts}
use seam_sdk.Jcs.Canon.{Canon, Items, no_items, item, label_text, print, print_items}

abbrev pub members_of : List (Text × Canon) → Items
members_of [] = no_items
members_of ((k, c) ∷ ws) = item (some k) c (members_of ws)

-- A member, and the key and the canonical tree that it is written as.
unfoldable pub IsMember : Member (Result Text) → Text × Canon → Type 0
IsMember m (k, c) = (m.key ≡ k) × (m.value ≡ ok (print c))

unfoldable pub Seen : List (Member (Result Text)) → List (Text × Canon) → Type 0
Seen [] [] = Unit
Seen [] (w ∷ ws) = ⊥
Seen (m ∷ ms) [] = ⊥
Seen (m ∷ ms) (w ∷ ws) = IsMember m w × Seen ms ws

unfoldable pub IsWritten : Member (Result Text) → Type 0
IsWritten m = (t : Text) × (m.value ≡ ok t)

pub member_texts-All :
    (ms : List (Member (Result Text))) {ts : List Text} → member_texts ms ≡ ok ts → All IsWritten ms
unfolding member_texts IsWritten
member_texts-All [] h = _
member_texts-All (m ∷ ms) h =
    let (v, hv, h1) = >>=-eq-ok m.value _ h in
    let (rest, hr, h2) = >>=-eq-ok (member_texts ms) _ h1 in ((v, hv), member_texts-All ms hr)

pub Seen-perm :
    {ms ns : List (Member (Result Text))}
    → Permᴰ ms ns
    → (ws : List (Text × Canon)) → Seen ms ws
    → (vs : List (Text × Canon)) × Seen ns vs × Permᴰ ws vs
unfolding Seen
Seen-perm Permᴰ.nil [] s = ([], s, Permᴰ.refl [])
Seen-perm Permᴰ.nil (w ∷ ws) s = absurd s
Seen-perm (Permᴰ.cons e d) [] s = absurd s
Seen-perm (Permᴰ.cons e d) (w ∷ ws) (h, s) =
    let (vs, t, p) = Seen-perm d ws s in
    (w ∷ vs, (subst (λ m. IsMember m w) e h, t), Permᴰ.cons refl p)
Seen-perm (Permᴰ.swap e f) [] s = absurd s
Seen-perm (Permᴰ.swap e f) (w ∷ []) s = absurd s.1
Seen-perm (Permᴰ.swap e f) (w ∷ w' ∷ ws) (h, r) = (
  w' ∷ w ∷ ws,
  (subst (λ m. IsMember m w') f r.0, (subst (λ m. IsMember m w) e h, r.1)),
  Permᴰ.swap refl refl,
)
Seen-perm (Permᴰ.trans d e) ws s =
    let (vs, t, p) = Seen-perm d ws s in
    let (us, u, q) = Seen-perm e vs t in (us, u, Permᴰ.trans p q)

member_eq :
    (m : Member (Result Text)) (k : Text) (c : Canon) (v : Text)
    → IsMember m (k, c)
    → m.value ≡ ok v
    → jcs_string m.key ++ b':' ∷ v ≡ label_text (some k) ++ print c
unfolding IsMember
member_eq m k c v (hk, hv) h =
    let same = ok_injective (sym h ∙ hv) in
    ap₂ (λ j t. jcs_string j ++ b':' ∷ t) hk same ∙ sym (append_assoc _ (b':' ∷ []) (print c))

-- What the members of a dict are written as.
pub Seen-texts :
    (ms : List (Member (Result Text))) (ws : List (Text × Canon)) {ts : List Text}
    → Seen ms ws
    → member_texts ms ≡ ok ts
    → ts ≡ print_items (members_of ws)
unfolding Seen member_texts print
Seen-texts [] [] s h = sym (ok_injective h)
Seen-texts [] (w ∷ ws) s h = absurd s
Seen-texts (m ∷ ms) [] s h = absurd s
Seen-texts (m ∷ ms) ((k, c) ∷ ws) (hm, s) h =
    let (v, hv, h1) = >>=-eq-ok m.value _ h in
    let (rest, hr, h2) = >>=-eq-ok (member_texts ms) _ h1 in
    sym (ok_injective h2) ∙ ap₂ (λ t ts. t ∷ ts) (member_eq m k c v hm hv) (Seen-texts ms ws s hr)

pub no_members :
    (keyed : List (Text × Result Text)) (members : List (Member (Result Text)))
    → str_keys {A = Result Text} [] ≡ ok keyed
    → with_units keyed ≡ ok members
    → members ≡ []
unfolding str_keys with_units
no_members [] members h k = sym (ok_injective k)
no_members (x ∷ keyed) members h k = absurd (cons_nil (ok_injective h))
  where
    cons_nil : [] ≡ x ∷ keyed → ⊥
    cons_nil e = cc

-- The first of the members, before they are sorted.
pub first_member :
    (k : Text) (r : Result Text) (es : List (Option Text × Result Text))
    (keyed : List (Text × Result Text)) (members : List (Member (Result Text)))
    → str_keys ((some k, r) ∷ es) ≡ ok keyed
    → with_units keyed ≡ ok members
    → (m : Member (Result Text)) × (keyed' : List (Text × Result Text)) × (members' : List
        (Member (Result Text)))
      × (members ≡ m ∷ members')
      × (m.key ≡ k)
      × (m.value ≡ r)
      × (str_keys es ≡ ok keyed')
      × (with_units keyed' ≡ ok members')
unfolding str_keys with_units
first_member k r es keyed members h w =
    let (keyed', hk, h1) = >>=-eq-ok (str_keys es) _ h in
    let w' : with_units ((k, r) ∷ keyed') ≡ ok members =
      subst (λ o. with_units o ≡ ok members) (sym (ok_injective h1)) w in
    let (units, hu, w1) = >>=-eq-ok (utf_16_be k) _ w' in
    let (members', hm, w2) = >>=-eq-ok (with_units keyed') _ w1 in
    (
      record { units = units; key = k; value = r },
      keyed',
      members',
      sym (ok_injective w2),
      refl,
      refl,
      hk,
      hm,
    )

pub refused : (s : Text) → err type_error ≡ ok s → ⊥
refused s h = cc

pub not_str :
    (r : Result Text) (es : List (Option Text × Result Text)) (keyed : List (Text × Result Text))
    → str_keys ((none, r) ∷ es) ≡ ok keyed
    → ⊥
unfolding str_keys
not_str r es keyed h = cc
