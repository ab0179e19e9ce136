-- ===== src/Reports.antt =====
-- The fields of an outcome report that are checked before it is sent: `python/seam_sdk/_outcome.py`, and
-- `_check_idempotency_key` and `_u32` of `client.py`.
pub mod Bounds
mod Runs
use seam_sdk.Prelude.{
  ℕ, suc, ◌+◌, ◌-◌, ◌*◌, ◌/◌, ◌^◌, Option, none, some, List, [], ◌∷◌, length, bytes_eq, ltb, leb,
  ◌&&◌, ◌||◌, all, Bool, true, false, if◌then◌else◌, Result, ok, err, type_error, value_error,
  ◌>>=◌, ◌>>◌, raise_unless,
}
use seam_sdk.Prelude.Int.{ℤ, pos, negsuc, scale, ◌+ℤ◌, pos_part, neg_part}
use seam_sdk.Bytes.{Text}
use seam_sdk.Checks.{Value, str, uint_slot}

-- An object that is checked to be a number. A finite double is its bit pattern.
pub data Number : Type 0 where
  bool_number : Bool → Number
  int_number : ℤ → Number
  float_number : ℕ → Number
  nan_or_inf not_number : Number

-- A finite `float`: a double, or the nearest one to an `int`.
pub data Finite : Type 0 where
  double : ℕ → Finite
  nearest : ℤ → Finite

-- `float(v)` raises `OverflowError` from halfway between the largest double and 2 ^ 1024 on.
abbrev pub float_limit : ℕ
float_limit = 2 ^ 1024 - 2 ^ 970

unfoldable pub finite : Number → Result Finite
finite (float_number bits) = ok (double bits)
finite nan_or_inf = err value_error
finite (int_number n) =
    if ltb (pos_part n + neg_part n) float_limit then ok (nearest n) else err value_error
finite _ = err type_error

-- The difference of an aware `datetime` to the epoch, as its `timedelta`; a naive one; an `int`.
pub data ObservedAt : Type 0 where
  aware : ℤ → ℕ → ℕ → ObservedAt
  naive : ObservedAt
  millis : ℤ → ObservedAt
  other_moment : ObservedAt

unfoldable pub u64_millis : ℤ → Result ℕ
u64_millis (pos ms) = if ltb ms (2 ^ 64) then ok ms else err value_error
u64_millis (negsuc n) = err value_error

unfoldable pub observed_at_millis : ObservedAt → Result ℕ
unfolding u64_millis
observed_at_millis naive = err value_error
observed_at_millis (aware days seconds micros) =
    u64_millis (scale 1000 (scale 86400 days +ℤ pos seconds) +ℤ pos (micros / 1000))
observed_at_millis (millis ms) = u64_millis ms
observed_at_millis other_moment = err type_error

abbrev pub outcome_metrics_max : ℕ
outcome_metrics_max = 16

abbrev pub is_lower_letter : ℕ → Bool
is_lower_letter c = leb b'a' c && leb c b'z'

abbrev pub is_key_char : ℕ → Bool
is_key_char c = is_lower_letter c || (leb b'0' c && leb c b'9') || bytes_eq (c ∷ []) (b'_' ∷ [])

-- `[a-z][a-z0-9_]{0,62}`.
unfoldable pub is_metric_key : Text → Bool
is_metric_key [] = false
is_metric_key (c ∷ cs) = is_lower_letter c && all is_key_char cs && leb (length cs) 62

-- A mapping's items, whose keys are distinct, or an object that is no mapping.
pub data Metrics : Type 0 where
  mapping : List (Value × Number) → Metrics
  not_mapping : Metrics

unfoldable pub metric_key : Value → Result Text
unfolding is_metric_key
metric_key (str k) = if is_metric_key k then ok k else err value_error
metric_key _ = err value_error

unfoldable pub check_items : List (Value × Number) → Result (List (Text × Finite))
unfolding metric_key finite
check_items [] = ok []
check_items ((k, v) ∷ rest) = do
  key ← metric_key k
  value ← finite v
  more ← check_items rest
  ok ((key, value) ∷ more)

unfoldable pub check_metrics : Option Metrics → Result (List (Text × Finite))
unfolding check_items
check_metrics none = ok []
check_metrics (some not_mapping) = err type_error
check_metrics (some (mapping entries)) =
    raise_unless (leb (length entries) outcome_metrics_max) value_error >> check_items entries

unfoldable pub check_reward : Option Number → Result (Option Finite)
unfolding finite
check_reward none = ok none
check_reward (some v) = do f ← finite v; ok (some f)

unfoldable pub check_moment : Option ObservedAt → Result (Option ℕ)
unfolding observed_at_millis
check_moment none = ok none
check_moment (some m) = do ms ← observed_at_millis m; ok (some ms)

pub record OutcomeFields : Type 0 where
  pub reward : Option Finite
  pub metrics : List (Text × Finite)
  pub observed_at : Option ℕ

unfoldable pub check_outcome_fields :
    Option Number → Option Metrics → Option ObservedAt → Result OutcomeFields
unfolding check_reward check_metrics check_moment
check_outcome_fields reward metrics observed_at = do
  r ← check_reward reward
  m ← check_metrics metrics
  t ← check_moment observed_at
  ok (record { reward = r; metrics = m; observed_at = t })

abbrev pub is_printable : ℕ → Bool
is_printable c = leb 0x20 c && leb c 0x7e

-- 1 to 128 printable ASCII characters.
unfoldable pub check_idempotency_key : Value → Result Text
check_idempotency_key (str key) =
    if leb 1 (length key) && leb (length key) 128 && all is_printable key
    then ok key
    else err value_error
check_idempotency_key _ = err type_error

-- `_u32`: an `int` that is no `bool`, below 2 ^ 32.
unfoldable pub u32 : Value → Result ℕ
unfolding uint_slot
u32 value = uint_slot value 32
