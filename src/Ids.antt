-- ===== src/Ids.antt =====
-- Session and decision identifiers: `python/seam_sdk/ids.py`.
pub mod Sessions
pub mod Decisions
mod Runs
use seam_sdk.Prelude.{
  ℕ, zero, suc, List, [], ◌∷◌, ◌++◌, length, all, codes, ltb, leb, ◌==◌, ◌&&◌, ◌||◌, not,
  if◌then◌else◌, Bool, true, false, Option, none, some, Result, ok, err,
}
use seam_sdk.Bytes.{Bytes, Text, encode}
use seam_sdk.Checks.{Value, str}
use seam_sdk.Keys.{strip_prefix}

abbrev pub decision_id_prefix : Text
decision_id_prefix = codes "dec:"

abbrev pub session_id_max_bytes : ℕ
session_id_max_bytes = 128

abbrev pub session_id_token_min_len : ℕ
session_id_token_min_len = 22

-- `[A-Za-z0-9_-]`.
unfoldable pub is_token_char : ℕ → Bool
is_token_char c =
    (leb b'A' c && leb c b'Z')
    || (leb b'a' c && leb c b'z')
    || (leb b'0' c && leb c b'9')
    || c == b'_'
    || c == b'-'

-- `[0-9a-f]` and `[0-9A-Fa-f]`.
unfoldable pub is_lower_hex : ℕ → Bool
is_lower_hex c = (leb b'0' c && leb c b'9') || (leb b'a' c && leb c b'f')

unfoldable pub is_hex : ℕ → Bool
is_hex c = (leb b'0' c && leb c b'9') || (leb b'A' c && leb c b'F') || (leb b'a' c && leb c b'f')

unfoldable pub is_dash : ℕ → Bool
is_dash c = c == b'-'

-- `[47]`.
unfoldable pub is_version : ℕ → Bool
is_version c = c == b'4' || c == b'7'

abbrev pub times : ℕ → (ℕ → Bool) → List (ℕ → Bool) → List (ℕ → Bool)
times zero p rest = rest
times (suc n) p rest = p ∷ times n p rest

-- `fullmatch` of a pattern that is one class after the other.
unfoldable pub matches : List (ℕ → Bool) → Text → Bool
matches [] [] = true
matches [] (c ∷ s) = false
matches (p ∷ ps) [] = false
matches (p ∷ ps) (c ∷ s) = p c && matches ps s

abbrev pub uuid_shape : List (ℕ → Bool)
uuid_shape = times 8 is_hex (
    is_dash
    ∷ times 4 is_hex
        (is_dash ∷ times 4 is_hex (is_dash ∷ times 4 is_hex (is_dash ∷ times 12 is_hex []))))

abbrev pub canonical_uuid_v4_v7 : List (ℕ → Bool)
canonical_uuid_v4_v7 = times 8 is_lower_hex (
    is_dash
    ∷ times 4 is_lower_hex (
        is_dash
        ∷ is_version
        ∷ times 3 is_lower_hex
            (is_dash ∷ times 4 is_lower_hex (is_dash ∷ times 12 is_lower_hex []))))

-- `_TOKEN.fullmatch`.
unfoldable pub is_token : Text → Bool
is_token s = leb 1 (length s) && all is_token_char s

-- `_TENANT.fullmatch`.
unfoldable pub is_tenant : Text → Bool
is_tenant s = is_token s && leb (length s) 128

-- Which rule refused a session id.
pub data Reason : Type 0 where
  not_a_str not_utf8 over_cap not_canonical bad_characters too_short : Reason

unfoldable pub session_refusal : Value → Option Reason
session_refusal (str s) = elim (encode s) [
  | err e ↦ some not_utf8
  | ok b ↦
      if ltb session_id_max_bytes (length b)
      then some over_cap
      else if matches uuid_shape s
      then (if matches canonical_uuid_v4_v7 s then none else some not_canonical)
      else if not (is_token s)
      then some bad_characters
      else if ltb (length s) session_id_token_min_len
      then some too_short
      else none
]
session_refusal _ = some not_a_str

-- Why a decision id is refused.
pub data IdError : Type 0 where
  bad_prefix no_separator bad_tenant : IdError
  bad_session : Reason → IdError

pub data Parsed (A : Type 0) : Type 0 where
  parsed : A → Parsed A
  refused : IdError → Parsed A

pub record DecisionId : Type 0 where
  pub tenant : Text
  pub session_id : Text

unfoldable pub check_halves : Text → Value → Parsed DecisionId
check_halves tenant session =
    if is_tenant tenant
    then elim (session_refusal session) [
      | some reason ↦ refused (bad_session reason)
      | none ↦ elim session [
        | str s ↦ parsed (record { tenant = tenant; session_id = s })
        | _ ↦ refused (bad_session not_a_str)
      ]
    ]
    else refused bad_tenant

-- `str(DecisionId)`.
unfoldable pub print : DecisionId → Text
print d = decision_id_prefix ++ (d.tenant ++ (b':' ∷ d.session_id))

unfoldable pub decision_id_for_session : Value → Value → Parsed Text
decision_id_for_session (str tenant) session = elim (check_halves tenant session) [
  | refused e ↦ refused e
  | parsed d ↦ parsed (print d)
]
decision_id_for_session _ session = refused bad_tenant

-- `s.partition(":")`, if it finds one.
unfoldable pub partition : Text → Option (Text × Text)
partition [] = none
partition (c ∷ s) =
    let rest = partition s in
    if c == b':' then some ([], s) else elim rest [ none ↦ none | some (a, b) ↦ some (c ∷ a, b) ]

unfoldable pub parse_decision_id : Value → Parsed DecisionId
parse_decision_id (str s) = elim (strip_prefix decision_id_prefix s) [
  | none ↦ refused bad_prefix
  | some rest ↦ elim (partition rest) [
    | none ↦ refused no_separator
    | some (tenant, session) ↦ check_halves tenant (str session)
  ]
]
parse_decision_id _ = refused bad_prefix
