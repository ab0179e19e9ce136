-- ===== src/Jcs.antt =====
-- `jcs_canonicalize` of `python/seam_sdk/crypto.py` and its users in `python/seam_sdk/_authorize.py`: the
-- canonical JSON of a tool call's input.
mod Strings
pub mod Canon
mod Print
mod Seen
pub mod View
mod Units
mod Sorting
mod Members
pub mod Orders
mod Scalars
pub mod Totals
mod Runs
use seam_sdk.Prelude.{
  ℕ, zero, suc, ◌+◌, ◌-◌, ◌*◌, ◌/◌, ◌%◌, Option, none, some, List, [], ◌∷◌, ◌++◌, codes, ltb, leb,
  ◌==◌, ◌&&◌, if◌then◌else◌, Bool, true, false, Result, ok, err, type_error, unicode_error,
  recursion_error, ◌>>=◌,
}
use seam_sdk.Prelude.Int.{ℤ}
use seam_sdk.Bytes.{Bytes, Text, encode}
use seam_sdk.Order.{sort, lex_leb}
use seam_sdk.Numerals.{jcs_number, jcs_int}
use seam_sdk.Client.{hex_digit}

-- An object as `_jcs_write` tells objects apart; a key that is not a `str` is `none`. A float is the bit
-- pattern of its double, and a tuple is a list.
mutual
  pub data Tree : Type 0 where
    none_value : Tree
    bool_value : Bool → Tree
    str_value : Text → Tree
    int_value : ℤ → Tree
    float_value : ℕ → Tree
    list_value : Trees → Tree
    dict_value : Entries → Tree
    other_value : Tree

  pub data Trees : Type 0 where
    no_trees : Trees
    tree : Tree → Trees → Trees

  pub data Entries : Type 0 where
    no_entries : Entries
    entry : Option Text → Tree → Entries → Entries

-- A code point, with the escapes that JSON asks for.
unfoldable pub escaped : ℕ → Text
unfolding hex_digit
escaped c =
    if c == 0x08
    then codes "\\b"
    else if c == 0x09
    then codes "\\t"
    else if c == 0x0a
    then codes "\\n"
    else if c == 0x0c
    then codes "\\f"
    else if c == 0x0d
    then codes "\\r"
    else if c == 0x22
    then codes "\\\""
    else if c == 0x5c
    then codes "\\\\"
    else if ltb c 0x20
    then codes "\\u00" ++ hex_digit (c / 16) ∷ hex_digit (c % 16) ∷ []
    else c ∷ []

unfoldable pub escaped_text : Text → Text
unfolding escaped
escaped_text [] = []
escaped_text (c ∷ s) = escaped c ++ escaped_text s

unfoldable pub jcs_string : Text → Text
unfolding escaped_text
jcs_string s = b'"' ∷ escaped_text s ++ b'"' ∷ []

-- One code point of `s.encode("utf-16-be")`: a surrogate has no encoding.
unfoldable pub utf_16_char : ℕ → Result Bytes
utf_16_char c =
    let high = 0xd800 + (c - 0x10000) / 1024 in
    let low = 0xdc00 + (c - 0x10000) % 1024 in
    if leb 0xd800 c && leb c 0xdfff
    then err unicode_error
    else if ltb c 0x10000
    then ok (c / 256 ∷ c % 256 ∷ [])
    else if ltb c 0x110000
    then ok (high / 256 ∷ high % 256 ∷ low / 256 ∷ low % 256 ∷ [])
    else err unicode_error

unfoldable pub utf_16_be : Text → Result Bytes
unfolding utf_16_char
utf_16_be [] = ok []
utf_16_be (c ∷ s) = do b ← utf_16_char c; bs ← utf_16_be s; ok (b ++ bs)

-- A key of a dict, with the code units that it is sorted by and what its value is.
pub record Member (A : Type 0) : Type 0 where
  pub units : Bytes
  pub key : Text
  pub value : A

module _ {A : Type 0} where
  -- Every key is tested before any is encoded.
  unfoldable pub str_keys : List (Option Text × A) → Result (List (Text × A))
  str_keys [] = ok []
  str_keys ((none, a) ∷ es) = err type_error
  str_keys ((some k, a) ∷ es) = do rest ← str_keys es; ok ((k, a) ∷ rest)

  unfoldable pub with_units : List (Text × A) → Result (List (Member A))
  unfolding utf_16_be
  with_units [] = ok []
  with_units ((k, a) ∷ es) = do
    units ← utf_16_be k
    rest ← with_units es
    let m : Member A = record { units = units; key = k; value = a }
    ok (m ∷ rest)

  abbrev pub before : Member A → Member A → Bool
  before m n = lex_leb m.units n.units

  -- `sorted(v, key=lambda k: k.encode("utf-16-be"))`.
  unfoldable pub sorted_members : List (Option Text × A) → Result (List (Member A))
  unfolding str_keys with_units sort
  sorted_members es = do keyed ← str_keys es; members ← with_units keyed; ok (sort before members)

-- The texts, with commas between them.
unfoldable pub commas : List Text → Text
commas [] = []
commas (t ∷ []) = t
commas (t ∷ u ∷ ts) = t ++ b',' ∷ commas (u ∷ ts)

-- The members in their order; the first value that cannot be written raises.
unfoldable pub member_texts : List (Member (Result Text)) → Result (List Text)
unfolding jcs_string
member_texts [] = ok []
member_texts (m ∷ ms) = do
  value ← m.value
  rest ← member_texts ms
  ok ((jcs_string m.key ++ b':' ∷ value) ∷ rest)

unfoldable pub array_text : List Text → Text
unfolding commas
array_text ts = b'[' ∷ commas ts ++ b']' ∷ []

unfoldable pub object_text : List Text → Text
unfolding commas
object_text ts = b'{' ∷ commas ts ++ b'}' ∷ []

-- The number is how many calls of `_jcs_write` may be active at once: the interpreter's recursion limit, less the
-- frames below the first of them. A call beyond it raises. The frames that the functions `_jcs_write` calls take
-- at the limit are not counted.
unfoldable mutual
  unfolding jcs_string jcs_int jcs_number array_text object_text sorted_members member_texts

  pub jcs_write : ℕ → Tree → Result Text
  jcs_write zero t = err recursion_error
  jcs_write (suc d) none_value = ok (codes "null")
  jcs_write (suc d) (bool_value true) = ok (codes "true")
  jcs_write (suc d) (bool_value false) = ok (codes "false")
  jcs_write (suc d) (str_value s) = ok (jcs_string s)
  jcs_write (suc d) (int_value z) = jcs_int z
  jcs_write (suc d) (float_value bits) = jcs_number bits
  jcs_write (suc d) (list_value ts) = do texts ← write_trees d ts; ok (array_text texts)
  jcs_write (suc d) (dict_value es) = do
    members ← sorted_members (write_entries d es)
    texts ← member_texts members
    ok (object_text texts)
  jcs_write (suc d) other_value = err type_error

  pub write_trees : ℕ → Trees → Result (List Text)
  write_trees d no_trees = ok []
  write_trees d (tree t ts) = do text ← jcs_write d t; rest ← write_trees d ts; ok (text ∷ rest)

  pub write_entries : ℕ → Entries → List (Option Text × Result Text)
  write_entries d no_entries = []
  write_entries d (entry k t es) = (k, jcs_write d t) ∷ write_entries d es

unfoldable pub jcs_canonicalize : ℕ → Tree → Result Bytes
unfolding jcs_write
jcs_canonicalize frames t = do text ← jcs_write frames t; encode text
