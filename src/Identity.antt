-- ===== src/Identity.antt =====
-- The loaders of `python/seam_sdk/identity.py`: `_read_and_validate`, `load_identity_file` and
-- `load_identity_facts`.
pub mod Facts
mod Runs
use seam_sdk.Prelude.{
  ℕ, ◌+◌, ◌-◌, ◌*◌, ◌%◌, ◌^◌, bytes_eq, Option, none, some, List, [], ◌∷◌, length, all, codes, leb,
  ◌==◌, ◌&&◌, not, if◌then◌else◌, Bool, true, false, Exn, ok, err,
}
use seam_sdk.Prelude.Int.{pos, negsuc}
use seam_sdk.Bytes.{Bytes, Text}
use seam_sdk.Ids.{is_hex, is_token_char}
use seam_sdk.Keys.{Ed25519, aid_prefix, strip_prefix, agent_aid}
use seam_sdk.Json.{
  Json, null, boolean, integer, real, string, array, object, no_items, item, Fields, no_fields,
  field,
}

-- The refusals of a bootstrap file, and the other exceptions that a loader raises.
pub data Fault : Type 0 where
  no_file not_found not_json not_an_object unsupported_version seed_length seed_not_hex : Fault
  missing_fields : List Text → Fault
  aid_malformed aid_mismatch : Fault
  raises : Exn → Fault

pub data Loaded (A : Type 0) : Type 0 where
  passed : A → Loaded A
  fault : Fault → Loaded A

infixl 5 ◌>>=◌
abbrev pub ◌>>=◌ : {A B : Type 0} → Loaded A → (A → Loaded B) → Loaded B
(passed a) >>= rest = rest a
(fault f) >>= rest = fault f

-- What the path, or the environment's pointer, leads to; `parsed` is what `json.load` reads, an object
-- with all its pairs.
pub data BootstrapFile : Type 0 where
  no_pointer absent undecodable : BootstrapFile
  unreadable : Exn → BootstrapFile
  parsed : Json → BootstrapFile

-- `data.get(key)` of the `dict` of the pairs, where the last value of a key stays.
unfoldable pub last_item : Fields → Text → Option Json
last_item no_fields key = none
last_item (field k v rest) key = elim (last_item rest key) [
  | some later ↦ some later
  | none ↦ if bytes_eq k key then some v else none
]

unfoldable pub is_truthy : Json → Bool
is_truthy null = false
is_truthy (boolean b) = b
is_truthy (integer (pos n)) = not (n == 0)
is_truthy (integer (negsuc n)) = true
is_truthy (real bits) = not (bits % 2 ^ 63 == 0)
is_truthy (string []) = false
is_truthy (array no_items) = false
is_truthy (object no_fields) = false
is_truthy _ = true

-- `value == SCHEMA_VERSION`, which `True` and `1.0` are too.
unfoldable pub is_schema_version : Option Json → Bool
is_schema_version (some (integer (pos n))) = n == 1
is_schema_version (some (boolean b)) = b
is_schema_version (some (real bits)) = bits == 0x3ff0000000000000
is_schema_version _ = false

-- The value of `seed_hex`, where it has the length of one.
unfoldable pub seed_text : Option Json → Loaded Text
seed_text (some (string s)) = if length s == 64 then passed s else fault seed_length
seed_text _ = fault seed_length

unfoldable pub hex_seed : Text → Loaded Text
unfolding is_hex
hex_seed s = if all is_hex s then passed s else fault seed_not_hex

unfoldable pub is_given : Option Json → Bool
unfolding is_truthy
is_given none = false
is_given (some v) = is_truthy v

-- `[k for k in keys if not data.get(k)]`.
unfoldable pub missing_of : Fields → List Text → List Text
unfolding is_given last_item
missing_of pairs [] = []
missing_of pairs (k ∷ keys) =
    let rest = missing_of pairs keys in if is_given (last_item pairs k) then rest else k ∷ rest

abbrev pub required_fields : List Text
required_fields = codes "agent_id" ∷ codes "tenant" ∷ codes "endpoint" ∷ []

unfoldable pub check_missing : List Text → Loaded (Unit {0})
check_missing [] = passed _
check_missing (k ∷ keys) = fault (missing_fields (k ∷ keys))

-- `_AID_RE`: the prefix, and 43 characters of base64url.
unfoldable pub is_aid : Text → Bool
unfolding is_token_char strip_prefix
is_aid s = elim (strip_prefix aid_prefix s) [
  | none ↦ false
  | some rest ↦ length rest == 43 && all is_token_char rest
]

-- The recorded AID, where there is one.
unfoldable pub recorded_aid : Option Json → Loaded (Option Text)
unfolding is_aid
recorded_aid none = passed none
recorded_aid (some (string s)) = if is_aid s then passed (some s) else fault aid_malformed
recorded_aid (some _) = fault aid_malformed

-- What the validated `dict` is read for.
pub record Validated : Type 0 where
  pub pairs : Fields
  pub seed_hex : Text
  pub aid : Option Text

unfoldable pub validate : Fields → Loaded Validated
unfolding is_schema_version last_item seed_text hex_seed missing_of check_missing recorded_aid
validate pairs =
    if is_schema_version (last_item pairs (codes "version"))
    then (do
      sized ← seed_text (last_item pairs (codes "seed_hex"))
      seed ← hex_seed sized
      done ← check_missing (missing_of pairs required_fields)
      aid ← recorded_aid (last_item pairs (codes "aid"))
      passed (record { pairs = pairs; seed_hex = seed; aid = aid }))
    else fault unsupported_version

unfoldable pub read_and_validate : BootstrapFile → Loaded Validated
unfolding validate
read_and_validate no_pointer = fault no_file
read_and_validate absent = fault not_found
read_and_validate undecodable = fault not_json
read_and_validate (unreadable e) = fault (raises e)
read_and_validate (parsed (object pairs)) = validate pairs
read_and_validate (parsed _) = fault not_an_object

-- `bytes.fromhex`, of hexadecimal digits in pairs.
unfoldable pub hex_value : ℕ → ℕ
hex_value c = if leb b'a' c then c - b'a' + 10 else if leb b'A' c then c - b'A' + 10 else c - b'0'

unfoldable pub decode_seed : Text → Bytes
unfolding hex_value
decode_seed (a ∷ b ∷ rest) = (16 * hex_value a + hex_value b) ∷ decode_seed rest
decode_seed _ = []

-- The agent is its seed.
pub record LoadedIdentity : Type 0 where
  pub agent : Bytes
  pub agent_id : Text
  pub tenant : Text
  pub endpoint : Text

pub record IdentityFacts : Type 0 where
  pub agent_id : Text
  pub tenant : Text
  pub endpoint : Text
  pub aid : Text

-- `text` is `str` of Python, on what `json.load` reads.
module _ (ed : Ed25519) (text : Option Json → Text) where
  unfoldable pub loaded : Validated → LoadedIdentity
  unfolding decode_seed last_item
  loaded v = record {
    agent = decode_seed v.seed_hex;
    agent_id = text (last_item v.pairs (codes "agent_id"));
    tenant = text (last_item v.pairs (codes "tenant"));
    endpoint = text (last_item v.pairs (codes "endpoint"));
  }

  unfoldable pub facts : Validated → Text → IdentityFacts
  unfolding last_item
  facts v aid = record {
    agent_id = text (last_item v.pairs (codes "agent_id"));
    tenant = text (last_item v.pairs (codes "tenant"));
    endpoint = text (last_item v.pairs (codes "endpoint"));
    aid = aid;
  }

  -- The AID of the seed.
  unfoldable pub derive_aid : Text → Loaded Text
  unfolding decode_seed
  derive_aid seed_hex = elim (agent_aid ed (decode_seed seed_hex)) [
    | ok aid ↦ passed aid
    | err e ↦ fault (raises e)
  ]

  unfoldable pub check_aid : Option Text → Text → Loaded (Unit {0})
  unfolding derive_aid
  check_aid none seed_hex = passed _
  check_aid (some recorded) seed_hex = do
    aid ← derive_aid seed_hex
    if bytes_eq recorded aid then passed _ else fault aid_mismatch

  unfoldable pub load_identity_file : BootstrapFile → Loaded LoadedIdentity
  unfolding read_and_validate loaded check_aid
  load_identity_file file = do
    v ← read_and_validate file
    done ← check_aid v.aid v.seed_hex
    passed (loaded v)

  unfoldable pub claimed_aid : Option Text → Text → Loaded Text
  unfolding derive_aid
  claimed_aid (some recorded) seed_hex = passed recorded
  claimed_aid none seed_hex = derive_aid seed_hex

  unfoldable pub load_identity_facts : BootstrapFile → Loaded IdentityFacts
  unfolding read_and_validate claimed_aid facts
  load_identity_facts file = do
    v ← read_and_validate file
    aid ← claimed_aid v.aid v.seed_hex
    passed (facts v aid)
