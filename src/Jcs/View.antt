-- ===== src/Jcs/View.antt =====
-- What canonical tree an object is written as.
use seam_sdk.Prelude.{
  ℕ, zero, suc, ◌≡◌, refl, sym, ap, ap₂, ◌∙◌, subst, true, false, none, some, List, [], ◌∷◌, ◌++◌,
  All, codes, Result, ok, ok_injective, >>=-eq-ok,
}
use mathlib.Core.List.{Permᴰ}
use mathlib.Core.List.Permᴰ
use seam_sdk.Prelude.Int.{ℤ}
use seam_sdk.Bytes.{Bytes, Text}
use seam_sdk.Bytes.Utf8.{encode-injective}
use seam_sdk.Order.Sort.{sort-perm, All-perm}
use seam_sdk.Numerals.{jcs_number, jcs_int}
use seam_sdk.Numerals.Literal.{is_literal, jcs_number-literal, jcs_int-literal}
use seam_sdk.Jcs.{
  Tree, none_value, bool_value, str_value, int_value, float_value, list_value, dict_value,
  other_value, Trees, no_trees, tree, Entries, no_entries, entry, Member, str_keys, with_units,
  before, sorted_members, member_texts, array_text, object_text, jcs_write, write_trees,
  write_entries, jcs_canonicalize,
}
use seam_sdk.Jcs.Canon.{
  Canon, literal, quoted, array, object, Items, no_items, item, print, print_items,
}
use seam_sdk.Jcs.Print.{Cancels, print-cancel}
use seam_sdk.Jcs.Seen.{
  members_of, IsMember, Seen, IsWritten, member_texts-All, Seen-perm, Seen-texts, no_members,
  first_member, refused, not_str,
}

-- The members of an object are the entries of the dict in some order.
mutual
  pub data View : Tree → Canon → Type 0 where
    none_view : (h : is_literal (codes "null") ≡ true) → View none_value (literal (codes "null") h)
    true_view :
        (h : is_literal (codes "true") ≡ true) → View (bool_value true) (literal (codes "true") h)
    false_view :
        (h : is_literal (codes "false") ≡ true)
        → View (bool_value false) (literal (codes "false") h)
    str_view : (s : Text) → View (str_value s) (quoted s)
    int_view :
        (z : ℤ) (s : Text) (h : is_literal s ≡ true)
        → jcs_int z ≡ ok s
        → View (int_value z) (literal s h)
    float_view :
        (bits : ℕ) (s : Text) (h : is_literal s ≡ true)
        → jcs_number bits ≡ ok s
        → View (float_value bits) (literal s h)
    list_view : (ts : Trees) (is : Items) → Views ts is → View (list_value ts) (array is)
    dict_view :
        (es : Entries) (ws vs : List (Text × Canon))
        → Viewed es ws
        → Permᴰ ws vs
        → View (dict_value es) (object (members_of vs))

  pub data Views : Trees → Items → Type 0 where
    no_views : Views no_trees no_items
    views :
        (t : Tree) (ts : Trees) (c : Canon) (is : Items)
        → View t c
        → Views ts is
        → Views (tree t ts) (item none c is)

  pub data Viewed : Entries → List (Text × Canon) → Type 0 where
    no_viewed : Viewed no_entries []
    viewed :
        (k : Text) (t : Tree) (es : Entries) (c : Canon) (ws : List (Text × Canon))
        → View t c
        → Viewed es ws
        → Viewed (entry (some k) t es) ((k, c) ∷ ws)

-- The text of an object is the text of what it is a view of.
abbrev pub Writes : Tree → Text → Type 0
Writes t s = (c : Canon) × (print c ≡ s) × View t c

mutual
  unfolding jcs_write print Seen IsMember IsWritten

  pub write-View : (d : ℕ) (t : Tree) (s : Text) → jcs_write d t ≡ ok s → Writes t s
  write-View zero t s h = cc
  write-View (suc d) none_value s h = (literal (codes "null") refl, ok_injective h, none_view refl)
  write-View (suc d) (bool_value true) s h =
      (literal (codes "true") refl, ok_injective h, true_view refl)
  write-View (suc d) (bool_value false) s h =
      (literal (codes "false") refl, ok_injective h, false_view refl)
  write-View (suc d) (str_value t) s h = (quoted t, ok_injective h, str_view t)
  write-View (suc d) (int_value z) s h = (literal s (jcs_int-literal z s h), refl, int_view z s _ h)
  write-View (suc d) (float_value bits) s h =
      (literal s (jcs_number-literal bits s h), refl, float_view bits s _ h)
  write-View (suc d) (list_value ts) s h =
      let (texts, ht, h1) = >>=-eq-ok (write_trees d ts) _ h in
      let (is, e, v) = trees-View d ts texts ht in
      (array is, ap array_text e ∙ ok_injective h1, list_view ts is v)
  write-View (suc d) (dict_value es) s h =
      let (ms, hm, h1) = >>=-eq-ok (sorted_members (write_entries d es)) _ h in
      let (texts, ht, h2) = >>=-eq-ok (member_texts ms) _ h1 in
      let (keyed, hk, h3) = >>=-eq-ok (str_keys (write_entries d es)) _ hm in
      let (members, hu, h4) = >>=-eq-ok (with_units keyed) _ h3 in
      let p : Permᴰ ms members =
        subst (λ o. Permᴰ o members) (ok_injective h4) (sort-perm before members) in
      let (ws, seen, v) =
        entries-View d es keyed members hk hu (All-perm IsWritten p (member_texts-All ms ht)) in
      let (vs, seen', q) = Seen-perm (Permᴰ.symm p) ws seen in
      let e = Seen-texts ms vs seen' ht in
      (object (members_of vs), ap object_text (sym e) ∙ ok_injective h2, dict_view es ws vs v q)
  write-View (suc d) other_value s h = absurd (refused s h)

  trees-View :
      (d : ℕ) (ts : Trees) (texts : List Text)
      → write_trees d ts ≡ ok texts
      → (is : Items) × (print_items is ≡ texts) × Views ts is
  trees-View d no_trees texts h = (no_items, ok_injective h, no_views)
  trees-View d (tree t ts) texts h =
      let (s, hs, h1) = >>=-eq-ok (jcs_write d t) _ h in
      let (rest, hr, h2) = >>=-eq-ok (write_trees d ts) _ h1 in
      let (c, e, v) = write-View d t s hs in
      let (is, es, vs) = trees-View d ts rest hr in
      (item none c is, ap₂ (λ t ts. t ∷ ts) e es ∙ ok_injective h2, views t ts c is v vs)

  entries-View :
      (d : ℕ) (es : Entries) (keyed : List (Text × Result Text))
      (members : List (Member (Result Text)))
      → str_keys (write_entries d es) ≡ ok keyed
      → with_units keyed ≡ ok members
      → All IsWritten members
      → (ws : List (Text × Canon)) × Seen members ws × Viewed es ws
  entries-View d no_entries keyed members h k a =
      rw (no_members keyed members h k) ([], _, no_viewed)
  entries-View d (entry none t es) keyed members h k a =
      absurd (not_str (jcs_write d t) (write_entries d es) keyed h)
  entries-View d (entry (some x) t es) keyed members h k a =
      let (m, keyed', members', e, hx, hv, h', k') =
        first_member x (jcs_write d t) (write_entries d es) keyed members h k in
      let ((s, hs), a') = subst (All IsWritten) e a in
      let (c, ec, v) = write-View d t s (sym hv ∙ hs) in
      let (ws, seen, vs) = entries-View d es keyed' members' h' k' a' in
      (
        (x, c) ∷ ws,
        subst (λ o. Seen o ((x, c) ∷ ws)) (sym e) ((hx, hs ∙ ap ok (sym ec)), seen),
        viewed x t es c ws v vs,
      )

-- Two objects with the same canonical bytes are views of one canonical tree: they differ at most in the order
-- of the entries of their dicts and in numbers that are written alike.
pub jcs_canonicalize-View :
    (f g : ℕ) (t u : Tree) (b : Bytes)
    → jcs_canonicalize f t ≡ ok b
    → jcs_canonicalize g u ≡ ok b
    → (c : Canon) × View t c × View u c
unfolding jcs_canonicalize Cancels
jcs_canonicalize-View f g t u b h k =
    let (s, hs, h1) = >>=-eq-ok (jcs_write f t) _ h in
    let (r, hr, k1) = >>=-eq-ok (jcs_write g u) _ k in
    let same : s ≡ r = encode-injective s r b h1 k1 in
    let (c, ec, v) = write-View f t s hs in
    let (d, ed, w) = write-View g u r hr in
    let texts : print c ++ [] ≡ print d ++ [] = ap (λ o. o ++ []) (ec ∙ same ∙ sym ed) in
    (c, v, subst (View u) (sym (print-cancel c d [] [] refl refl texts).0) w)
