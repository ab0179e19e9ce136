-- ===== src/Jcs/Orders.antt =====
-- The order of the entries of a dict is not written.
use seam_sdk.Prelude.{
  ℕ, zero, suc, ◌≡◌, ◌≢◌, refl, sym, ap, ap₂, ◌∙◌, Option, List, [], ◌∷◌, map, All, ok, ◌>>=◌,
}
use mathlib.Core.List.{Permᴰ}
use seam_sdk.Bytes.{Text, encode}
use seam_sdk.Order.Sort.{map-perm}
use seam_sdk.Jcs.{
  Tree, list_value, dict_value, Trees, no_trees, tree, Entries, no_entries, entry, sorted_members,
  member_texts, object_text, array_text, jcs_write, write_trees, write_entries, jcs_canonicalize,
}
use seam_sdk.Jcs.Sorting.{Pairwise}
use seam_sdk.Jcs.Members.{Keyed, Distinct, sorted_members-perm}

-- The entries of a dict as a list.
abbrev pub listed : Entries → List (Option Text × Tree)
listed no_entries = []
listed (entry k t es) = (k, t) ∷ listed es

written : ℕ → Option Text × Tree → Keyed
written d (k, t) = (k, jcs_write d t)

write_entries-map : (d : ℕ) (es : Entries) → write_entries d es ≡ map (written d) (listed es)
unfolding write_entries written
write_entries-map d no_entries = refl
write_entries-map d (entry k t es) = ap (λ o. (k, jcs_write d t) ∷ o) (write_entries-map d es)

-- Objects that differ in the order of the entries of their dicts, at any depth; the keys of a dict are distinct.
mutual
  pub data Reordered : Tree → Tree → Type 0 where
    same_tree : (t : Tree) → Reordered t t
    same_list : (ts us : Trees) → AllReordered ts us → Reordered (list_value ts) (list_value us)
    same_dict :
        (es fs gs : Entries)
        → EachReordered es fs
        → Permᴰ (listed fs) (listed gs)
        → Pairwise (λ (p q : Option Text × Tree). p.0 ≢ q.0) (listed fs)
        → Reordered (dict_value es) (dict_value gs)

  pub data AllReordered : Trees → Trees → Type 0 where
    no_reordered : AllReordered no_trees no_trees
    next_reordered :
        (t u : Tree) (ts us : Trees)
        → Reordered t u
        → AllReordered ts us
        → AllReordered (tree t ts) (tree u us)

  pub data EachReordered : Entries → Entries → Type 0 where
    none_reordered : EachReordered no_entries no_entries
    each_reordered :
        (k : Option Text) (t u : Tree) (es fs : Entries)
        → Reordered t u
        → EachReordered es fs
        → EachReordered (entry k t es) (entry k u fs)

written-away :
    (d : ℕ) (k : Option Text) (ps : List (Option Text × Tree))
    → All (λ (q : Option Text × Tree). k ≢ q.0) ps
    → All (λ (q : Keyed). k ≢ q.0) (map (written d) ps)
unfolding written
written-away d k [] a = _
written-away d k (p ∷ ps) (h, a) = (h, written-away d k ps a)

written-Distinct :
    (d : ℕ) (ps : List (Option Text × Tree))
    → Pairwise (λ (p q : Option Text × Tree). p.0 ≢ q.0) ps
    → Distinct (map (written d) ps)
unfolding written
written-Distinct d [] h = _
written-Distinct d (p ∷ ps) (a, h) = (written-away d p.0 ps a, written-Distinct d ps h)

-- The entries after their values are known to be written alike.
entries_perm :
    (d : ℕ) (fs gs : Entries)
    → Permᴰ (listed fs) (listed gs)
    → Pairwise (λ (p q : Option Text × Tree). p.0 ≢ q.0) (listed fs)
    → sorted_members (write_entries d fs) ≡ sorted_members (write_entries d gs)
entries_perm d fs gs p h =
    ap sorted_members (write_entries-map d fs)
    ∙ sorted_members-perm (map-perm (written d) p) (written-Distinct d (listed fs) h)
    ∙ sym (ap sorted_members (write_entries-map d gs))

mutual
  unfolding jcs_write

  write-Reordered : (d : ℕ) (t u : Tree) → Reordered t u → jcs_write d t ≡ jcs_write d u
  write-Reordered zero t u r = refl
  write-Reordered (suc d) t u (same_tree v) = refl
  write-Reordered (suc d) t u (same_list ts us r) =
      ap (λ o. o >>= λ texts. ok (array_text texts)) (write_all d ts us r)
  write-Reordered (suc d) t u (same_dict es fs gs r p h) =
      ap (λ o. sorted_members o >>= λ ms. member_texts ms >>= λ texts. ok (object_text texts))
        (write_each d es fs r)
      ∙ ap (λ o. o >>= λ ms. member_texts ms >>= λ texts. ok (object_text texts))
          (entries_perm d fs gs p h)

  write_all : (d : ℕ) (ts us : Trees) → AllReordered ts us → write_trees d ts ≡ write_trees d us
  write_all d ts us no_reordered = refl
  write_all d ts us (next_reordered t u ts' us' r rs) =
      ap₂ (λ o os. o >>= λ text. os >>= λ rest. ok (text ∷ rest)) (write-Reordered d t u r)
        (write_all d ts' us' rs)

  write_each :
      (d : ℕ) (es fs : Entries) → EachReordered es fs → write_entries d es ≡ write_entries d fs
  write_each d es fs none_reordered = refl
  write_each d es fs (each_reordered k t u es' fs' r rs) =
      ap₂ (λ o os. (k, o) ∷ os) (write-Reordered d t u r) (write_each d es' fs' rs)

-- Two objects that differ in the order of the entries of their dicts, at any depth, are written as the same bytes,
-- or are refused by the same exception, under one limit on recursion.
pub jcs_canonicalize-Reordered :
    (frames : ℕ) (t u : Tree)
    → Reordered t u
    → jcs_canonicalize frames t ≡ jcs_canonicalize frames u
jcs_canonicalize-Reordered frames t u r =
    unfold jcs_canonicalize in ap (λ o. o >>= encode) (write-Reordered frames t u r)
