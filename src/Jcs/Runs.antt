-- ===== src/Jcs/Runs.antt =====
-- Canonical JSON of small objects.
use seam_sdk.Prelude.{
  ◌≡◌, refl, arith, none, some, [], ◌∷◌, ◌++◌, codes, true, ok, err, type_error, unicode_error,
  recursion_error,
}
use mathlib.Core.List.Permᴰ
use seam_sdk.Prelude.Int.{pos, ◌+ℤ◌}
use seam_sdk.Bytes.{Bytes, encode, encode_char}
use seam_sdk.Jcs.{
  Tree, none_value, bool_value, str_value, int_value, float_value, list_value, dict_value, no_trees,
  tree, Entries, no_entries, entry, jcs_canonicalize,
}
use seam_sdk.Jcs.Canon.{Canon}
use seam_sdk.Jcs.Orders.{
  Reordered, same_tree, same_dict, none_reordered, each_reordered, jcs_canonicalize-Reordered,
}
use seam_sdk.Bytes.Codec.{is_scalar}
use seam_sdk.Jcs.Totals.{Fits, jcs_canonicalize_total}
use seam_sdk.Jcs.View.{View, jcs_canonicalize-View}
use seam_sdk.Order.{insert_sorted, lex_leb}
use seam_sdk.Decision.{decimal}

-- `{"b": [1, True], "a": None}`.
abbrev small : Tree
small = dict_value (
    entry (some (codes "b"))
      (list_value (tree (int_value (pos 1)) (tree (bool_value true) no_trees)))
      (entry (some (codes "a")) none_value no_entries))

abbrev numbers : Tree
numbers = list_value (tree (int_value (pos 1)) (tree (bool_value true) no_trees))

abbrev forwards : Entries
forwards = entry (some (codes "b")) numbers (entry (some (codes "a")) none_value no_entries)

abbrev backwards : Entries
backwards = entry (some (codes "a")) none_value (entry (some (codes "b")) numbers no_entries)

-- `{"a": None, "b": [1.0, True]}`.
abbrev other : Tree
other = dict_value (
    entry (some (codes "a")) none_value (
      entry (some (codes "b"))
        (list_value (tree (float_value 0x3ff0000000000000) (tree (bool_value true) no_trees)))
        no_entries))

abbrev text : Bytes
text = codes "{\"a\":null,\"b\":[1,true]}"

writes_small : jcs_canonicalize 100 small ≡ ok text
unfolding jcs_canonicalize insert_sorted lex_leb encode encode_char decimal
writes_small = refl

writes_other : jcs_canonicalize 50 other ≡ ok text
unfolding jcs_canonicalize insert_sorted lex_leb encode encode_char ◌+ℤ◌ decimal
writes_other = refl

escapes :
    jcs_canonicalize 100 (str_value (0x22 ∷ 0x5c ∷ 0x1f ∷ 0xe9 ∷ []))
    ≡ ok (codes "\"\\\"\\\\\\u001f" ++ 0xc3 ∷ 0xa9 ∷ codes "\"")
unfolding jcs_canonicalize encode encode_char
escapes = refl

key_not_str : jcs_canonicalize 100 (dict_value (entry none none_value no_entries)) ≡ err type_error
unfolding jcs_canonicalize
key_not_str = refl

lone_surrogate : jcs_canonicalize 100 (str_value (0xd800 ∷ [])) ≡ err unicode_error
unfolding jcs_canonicalize encode encode_char
lone_surrogate = refl

jcs_canonicalize-View_example : (c : Canon) × View small c × View other c
jcs_canonicalize-View_example =
    jcs_canonicalize-View 100 50 small other text writes_small writes_other

different : (some (codes "b") ≡ some (codes "a")) → ⊥
different e = ground arith

small-Reordered : Reordered (dict_value forwards) (dict_value backwards)
small-Reordered =
    same_dict forwards forwards backwards
      (each_reordered _ _ _ _ _ (same_tree _)
        (each_reordered _ _ _ _ _ (same_tree _) none_reordered))
      (Permᴰ.swap refl refl) ((different, _), (_, _))

jcs_canonicalize-Reordered_example :
    jcs_canonicalize 100 (dict_value forwards) ≡ jcs_canonicalize 100 (dict_value backwards)
jcs_canonicalize-Reordered_example =
    jcs_canonicalize-Reordered 100 (dict_value forwards) (dict_value backwards) small-Reordered

small-Fits : Fits 100 small
unfolding Fits is_scalar
small-Fits = (refl, (refl, (_, _)), (refl, _, _))

jcs_canonicalize_total_example : (b : Bytes) × (jcs_canonicalize 100 small ≡ ok b)
jcs_canonicalize_total_example = jcs_canonicalize_total 100 small small-Fits

-- `[[[]]]` with room for two calls.
too_deep :
    jcs_canonicalize 2
      (list_value (tree (list_value (tree (list_value no_trees) no_trees)) no_trees))
    ≡ err recursion_error
unfolding jcs_canonicalize
too_deep = refl

deep_enough :
    jcs_canonicalize 3
      (list_value (tree (list_value (tree (list_value no_trees) no_trees)) no_trees))
    ≡ ok (codes "[[[]]]")
unfolding jcs_canonicalize encode encode_char
deep_enough = refl
