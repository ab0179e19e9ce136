-- ===== src/Jcs/Print.antt =====
-- Printed canonical trees, read from the front of a text.
use seam_sdk.Prelude.{
  ℕ, ◌≡◌, refl, sym, ap, ◌∙◌, subst, Bool, true, false, Option, none, some, [], ◌∷◌, ◌++◌, ◌==◌,
  ◌||◌, arith,
}
use mathlib.Core.List.{append_assoc}
use seam_sdk.Bytes.{Text}
use seam_sdk.Jcs.{commas, jcs_string}
use seam_sdk.Jcs.Strings.{jcs_string-cancel}
use seam_sdk.Numerals.Literal.{is_literal, is_literal_char}
use seam_sdk.Jcs.Canon.{
  Canon, literal, quoted, array, object, Items, no_items, item, label_text, print, print_items,
  is_boundary, word-cancel, is_literal-all, literal-eq, other_front,
}

abbrev is_close : ℕ → Bool
is_close x = x == b']' || x == b'}'

not_literal : (x : ℕ) → is_close x ≡ true → is_literal_char x ≡ false
not_literal x h = ground arith

-- A value does not begin as the end of an array or an object does.
print_front : (c : Canon) (r u : Text) (x : ℕ) → is_close x ≡ true → print c ++ r ≡ x ∷ u → ⊥
unfolding print jcs_string
print_front (literal s h) r u x k e = other_front s r u x h (not_literal x k) e
print_front (quoted s) r u x k e = ground arith
print_front (array is) r u x k e = ground arith
print_front (object is) r u x k e = ground arith

unfoldable pub Cancels : Canon → Canon → Type 0
Cancels c d =
    (r s : Text)
    → is_boundary r ≡ true
    → is_boundary s ≡ true
    → print c ++ r ≡ print d ++ s
    → (c ≡ d) × (r ≡ s)

abbrev front : Text → ℕ
front [] = 0
front (x ∷ s) = x

quoted_front : (k u s : Text) (x : ℕ) → x ∷ s ≡ jcs_string k ++ u → x ≡ b'"'
unfolding jcs_string
quoted_front k u s x e = ap front e

quoted_literal : (k t r u : Text) → is_literal t ≡ true → t ++ r ≡ jcs_string k ++ u → ⊥
unfolding jcs_string
quoted_literal k t r u h e = other_front t r _ b'"' h refl e

bracket_quote : (x : ℕ) → x ≡ b'[' → x ≡ b'"' → ⊥
bracket_quote x e f = omega arith

brace_quote : (x : ℕ) → x ≡ b'{' → x ≡ b'"' → ⊥
brace_quote x e f = omega arith

brackets : (x : ℕ) → x ≡ b'[' → x ≡ b'{' → ⊥
brackets x e f = omega arith

colon_boundary : (r s : Text) → is_boundary r ≡ true → r ≡ b':' ∷ s → ⊥
colon_boundary r s b e = refused (subst (λ r. is_boundary r ≡ true) e b)
  where
    refused : false ≡ true → ⊥
    refused f = cc

-- A value is not a key with its colon.
no_key :
    (c : Canon) (k r s : Text) → is_boundary r ≡ true → print c ++ r ≡ jcs_string k ++ b':' ∷ s → ⊥
unfolding print
no_key (literal t h) k r s b e = quoted_literal k t r (b':' ∷ s) h e
no_key (quoted t) k r s b e = colon_boundary r s b (jcs_string-cancel t k r (b':' ∷ s) e).1
no_key (array is) k r s b e = bracket_quote _ refl (quoted_front k (b':' ∷ s) _ _ e)
no_key (object is) k r s b e = brace_quote _ refl (quoted_front k (b':' ∷ s) _ _ e)

keyed_assoc : (a b r : Text) → ((a ++ b':' ∷ []) ++ b) ++ r ≡ a ++ b':' ∷ (b ++ r)
keyed_assoc a b r = append_assoc (a ++ b':' ∷ []) b r ∙ append_assoc a (b':' ∷ []) (b ++ r)

label-cancel :
    (k j : Option Text) (c d : Canon) (r s : Text)
    → Cancels c d
    → is_boundary r ≡ true
    → is_boundary s ≡ true
    → (label_text k ++ print c) ++ r ≡ (label_text j ++ print d) ++ s
    → (k ≡ j) × (c ≡ d) × (r ≡ s)
unfolding Cancels
label-cancel none none c d r s cancel b b' e = let (p, q) = cancel r s b b' e in (refl, p, q)
label-cancel (some k) (some j) c d r s cancel b b' e =
    let (p, q) =
      jcs_string-cancel k j (b':' ∷ (print c ++ r)) (b':' ∷ (print d ++ s)) (
        sym (keyed_assoc (jcs_string k) (print c) r)
        ∙ e
        ∙ keyed_assoc (jcs_string j) (print d) s) in
    let values : print c ++ r ≡ print d ++ s = cc in
    let (v, w) = cancel r s b b' values in (ap some p, v, w)
label-cancel none (some j) c d r s cancel b b' e =
    absurd (no_key c j r (print d ++ s) b (e ∙ keyed_assoc (jcs_string j) (print d) s))
label-cancel (some k) none c d r s cancel b b' e =
    absurd (no_key d k s (print c ++ r) b' (sym e ∙ keyed_assoc (jcs_string k) (print c) r))

labelled_front :
    (k : Option Text) (c : Canon) (r u : Text) (x : ℕ)
    → is_close x ≡ true
    → (label_text k ++ print c) ++ r ≡ x ∷ u
    → ⊥
labelled_front none c r u x h e = print_front c r u x h e
labelled_front (some k) c r u x h e =
    print_front (quoted k) (b':' ∷ (print c ++ r)) u x h
      (unfold print in (sym (keyed_assoc (jcs_string k) (print c) r) ∙ e))

close_boundary : (x : ℕ) → is_close x ≡ true → (r : Text) → is_boundary (x ∷ r) ≡ true
close_boundary x h r = ground arith

close_comma : (x : ℕ) (r s : Text) → is_close x ≡ true → x ∷ r ≡ b',' ∷ s → ⊥
close_comma x r s h e = ground arith

-- What follows the first item.
unfoldable after : Items → Text → Text
after no_items rest = rest
after (item k c is) rest = b',' ∷ (commas (print_items (item k c is)) ++ rest)

first_item :
    (k : Option Text) (c : Canon) (is : Items) (rest : Text)
    → commas (print_items (item k c is)) ++ rest ≡ (label_text k ++ print c) ++ after is rest
unfolding commas print after
first_item k c no_items rest = refl
first_item k c (item j d is) rest =
    append_assoc (label_text k ++ print c)
      (b',' ∷ commas ((label_text j ++ print d) ∷ print_items is)) rest

after-boundary :
    (is : Items) (x : ℕ) (r : Text) → is_close x ≡ true → is_boundary (after is (x ∷ r)) ≡ true
unfolding after
after-boundary no_items x r h = close_boundary x h r
after-boundary (item k c is) x r h = refl

ItemsCancel : Items → Items → Type 0
ItemsCancel is js =
    (x : ℕ) (r s : Text)
    → is_close x ≡ true
    → commas (print_items is) ++ x ∷ r ≡ commas (print_items js) ++ x ∷ s
    → (is ≡ js) × (r ≡ s)

after-cancel :
    (is js : Items) (x : ℕ) (r s : Text)
    → ItemsCancel is js
    → is_close x ≡ true
    → after is (x ∷ r) ≡ after js (x ∷ s)
    → (is ≡ js) × (r ≡ s)
unfolding ItemsCancel after
after-cancel no_items no_items x r s cancel h e = (refl, cc)
after-cancel no_items (item j d js) x r s cancel h e = absurd (close_comma x r _ h e)
after-cancel (item k c is) no_items x r s cancel h e = absurd (close_comma x s _ h (sym e))
after-cancel (item k c is) (item j d js) x r s cancel h e = cancel x r s h (cc)

bracketed :
    (a x : ℕ) (t u r s : Text)
    → (a ∷ t ++ x ∷ []) ++ r ≡ (a ∷ u ++ x ∷ []) ++ s
    → t ++ x ∷ r ≡ u ++ x ∷ s
bracketed a x t u r s e =
    let f : (t ++ x ∷ []) ++ r ≡ (u ++ x ∷ []) ++ s = cc in
    sym (append_assoc t (x ∷ []) r) ∙ f ∙ append_assoc u (x ∷ []) s

item_eq :
    {k j : Option Text} {c d : Canon} {is js : Items}
    → k ≡ j
    → c ≡ d
    → is ≡ js
    → item k c is ≡ item j d js
item_eq p q v = cc

nothing : (r : Text) → commas (print_items no_items) ++ r ≡ r
unfolding commas print
nothing r = refl

mutual
  unfolding Cancels ItemsCancel print

  pub print-cancel : (c d : Canon) → Cancels c d
  print-cancel (literal s h) (literal t k) r u b b' e =
      let (p, q) = word-cancel s t r u (is_literal-all s h) (is_literal-all t k) b b' e in
      (literal-eq h k p, q)
  print-cancel (quoted s) (quoted t) r u b b' e =
      let (p, q) = jcs_string-cancel s t r u e in (ap quoted p, q)
  print-cancel (array is) (array js) r u b b' e =
      let (p, q) = items-cancel is js b']' r u refl (bracketed b'[' b']' _ _ r u e) in
      (ap array p, q)
  print-cancel (object is) (object js) r u b b' e =
      let (p, q) = items-cancel is js b'}' r u refl (bracketed b'{' b'}' _ _ r u e) in
      (ap object p, q)
  print-cancel (literal s h) (quoted t) r u b b' e = absurd (quoted_literal t s r u h e)
  print-cancel (quoted s) (literal t k) r u b b' e = absurd (quoted_literal s t u r k (sym e))
  print-cancel (literal s h) (array js) r u b b' e = absurd (other_front s r _ b'[' h refl e)
  print-cancel (literal s h) (object js) r u b b' e = absurd (other_front s r _ b'{' h refl e)
  print-cancel (array is) (literal t k) r u b b' e = absurd (other_front t u _ b'[' k refl (sym e))
  print-cancel (object is) (literal t k) r u b b' e = absurd (other_front t u _ b'{' k refl (sym e))
  print-cancel (quoted s) (array js) r u b b' e =
      absurd (bracket_quote _ refl (quoted_front s r _ _ (sym e)))
  print-cancel (quoted s) (object js) r u b b' e =
      absurd (brace_quote _ refl (quoted_front s r _ _ (sym e)))
  print-cancel (array is) (quoted t) r u b b' e =
      absurd (bracket_quote _ refl (quoted_front t u _ _ e))
  print-cancel (object is) (quoted t) r u b b' e =
      absurd (brace_quote _ refl (quoted_front t u _ _ e))
  print-cancel (array is) (object js) r u b b' e = absurd (brackets b'[' refl (ap front e))
  print-cancel (object is) (array js) r u b b' e = absurd (brackets b'[' refl (sym (ap front e)))

  items-cancel : (is js : Items) → ItemsCancel is js
  items-cancel no_items no_items x r s h e =
      let same : x ∷ r ≡ x ∷ s = sym (nothing (x ∷ r)) ∙ e ∙ nothing (x ∷ s) in (refl, cc)
  items-cancel no_items (item j d js) x r s h e = absurd (
      labelled_front j d (after js (x ∷ s)) r x h
        (sym (first_item j d js (x ∷ s)) ∙ sym e ∙ nothing (x ∷ r)))
  items-cancel (item k c is) no_items x r s h e = absurd (
      labelled_front k c (after is (x ∷ r)) s x h
        (sym (first_item k c is (x ∷ r)) ∙ e ∙ nothing (x ∷ s)))
  items-cancel (item k c is) (item j d js) x r s h e =
      let (p, q, w) =
        label-cancel k j c d (after is (x ∷ r)) (after js (x ∷ s)) (print-cancel c d)
          (after-boundary is x r h) (after-boundary js x s h)
          (sym (first_item k c is (x ∷ r)) ∙ e ∙ first_item j d js (x ∷ s)) in
      let (v, u) = after-cancel is js x r s (items-cancel is js) h w in (item_eq p q v, u)
