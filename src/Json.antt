-- ===== src/Json.antt =====
-- The JSON values of `json.loads` as `python/seam_sdk/crypto.py` calls it, with its hook
-- `_no_duplicate_keys`.
pub mod Keys
use seam_sdk.Prelude.{
  ℕ, Bool, true, false, List, [], ◌∷◌, Option, none, some, bytes_eq, if◌then◌else◌, Result, ok, err,
  value_error, attribute_error, ◌>>=◌,
}
use seam_sdk.Prelude.Int.{ℤ}
use seam_sdk.Bytes.{Bytes, Text}

-- A `float` is the bit pattern of its double. An object has its pairs in their order.
mutual
  pub data Json : Type 0 where
    null : Json
    boolean : Bool → Json
    integer : ℤ → Json
    real : ℕ → Json
    string : Text → Json
    array : Elements → Json
    object : Fields → Json

  pub data Elements : Type 0 where
    no_items : Elements
    item : Json → Elements → Elements

  pub data Fields : Type 0 where
    no_fields : Fields
    field : Text → Json → Fields → Fields

unfoldable pub item_of : Fields → Text → Option Json
item_of no_fields k = none
item_of (field j v rest) k = let later = item_of rest k in if bytes_eq j k then some v else later

-- `out[k] = v`, for a key that is not in `out`.
unfoldable pub set_item : Fields → Text → Json → Fields
set_item no_fields k v = field k v no_fields
set_item (field j w rest) k v = field j w (set_item rest k v)

unfoldable pub has_key : Fields → Text → Bool
has_key no_fields k = false
has_key (field j v rest) k = let later = has_key rest k in if bytes_eq j k then true else later

unfoldable pub fill : Fields → Fields → Result Fields
unfolding has_key set_item
fill no_fields out = ok out
fill (field k v rest) out =
    let next = fill rest (set_item out k v) in if has_key out k then err value_error else next

unfoldable pub no_duplicate_keys : Fields → Result Fields
unfolding fill
no_duplicate_keys pairs = fill pairs no_fields

-- The hook is called on the pairs of an object when its values are done.
unfoldable mutual
  unfolding no_duplicate_keys

  pub hooked : Json → Result Json
  hooked (array xs) = do ys ← hooked_items xs; ok (array ys)
  hooked (object fs) = do pairs ← hooked_fields fs; out ← no_duplicate_keys pairs; ok (object out)
  hooked null = ok null
  hooked (boolean b) = ok (boolean b)
  hooked (integer z) = ok (integer z)
  hooked (real bits) = ok (real bits)
  hooked (string s) = ok (string s)

  pub hooked_items : Elements → Result Elements
  hooked_items no_items = ok no_items
  hooked_items (item x xs) = do y ← hooked x; ys ← hooked_items xs; ok (item y ys)

  pub hooked_fields : Fields → Result Fields
  hooked_fields no_fields = ok no_fields
  hooked_fields (field k v fs) = do w ← hooked v; gs ← hooked_fields fs; ok (field k w gs)

-- `json.loads(s, object_pairs_hook=_no_duplicate_keys)`, where `parse` is `json.loads` with a hook
-- that keeps the pairs.
unfoldable pub loads : (Bytes → Result Json) → Bytes → Result Json
unfolding hooked
loads parse s = do j ← parse s; hooked j

-- `value.get(key)`, with `None` for a missing key; only a `dict` has it.
unfoldable pub get_claim : Json → Text → Result Json
unfolding item_of
get_claim (object fs) key = elim (item_of fs key) [ none ↦ ok null | some v ↦ ok v ]
get_claim _ key = err attribute_error

-- `value == text`, for a `str`.
unfoldable pub equals_text : Json → Text → Bool
equals_text (string s) t = bytes_eq s t
equals_text _ t = false
