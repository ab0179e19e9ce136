-- ===== src/Details.antt =====
-- The status details of a typed error: the trailing metadata that an error carries and the properties
-- read off it, in `python/seam_sdk/errors.py`.
pub mod Sent
pub mod Reads
pub mod Named
use seam_sdk.Prelude.{
  ℕ, ◌+◌, ◌-◌, ◌*◌, ◌/◌, ◌^◌, Option, none, some, List, [], ◌∷◌, ◌++◌, codes, bytes_eq, leb, ltb,
  ◌&&◌, if◌then◌else◌, ◌==◌, map, Bool, true, false, Result, ok, err, truncated, ◌>>=◌,
}
use seam_sdk.Prelude.Int.{ℤ, pos, sub_ℕ, ◌+ℤ◌, scale}
use seam_sdk.Bytes.{Bytes, Text}
use seam_sdk.Bytes.Decode.{decode}
use seam_sdk.Proto.{Field, number_field, bytes_field, Stream, finished, broken, next, fields, each}

-- A key or a value of the metadata: a `str`, `bytes`, or an object of another type.
pub data Datum : Type 0 where
  str : Text → Datum
  binary : Bytes → Datum
  object : Datum

abbrev pub Metadata : Type 0
Metadata = List (Datum × Datum)

-- What a gRPC error hands back: `None`, something that does not iterate into pairs, or pairs.
pub data RawMetadata : Type 0 where
  absent not_pairs : RawMetadata
  pairs : Metadata → RawMetadata

unfoldable pub normalized_trailing_metadata : RawMetadata → Option Metadata
normalized_trailing_metadata absent = none
normalized_trailing_metadata not_pairs = none
normalized_trailing_metadata (pairs raw) = some raw

abbrev pub seam_error_domain : Text
seam_error_domain = codes "seam.zer07labs.com"

abbrev pub protocol_reason : Text
protocol_reason = codes "PROTOCOL"

abbrev pub status_details_key : Text
status_details_key = codes "grpc-status-details-bin"

abbrev pub error_info_type : Text
error_info_type = codes "type.googleapis.com/google.rpc.ErrorInfo"

abbrev pub retry_info_type : Text
retry_info_type = codes "type.googleapis.com/google.rpc.RetryInfo"

-- `str.lower` on ASCII; no other letter has a lower case in the key.
abbrev pub lower : ℕ → ℕ
lower c = if leb 65 c && leb c 90 then c + 32 else c

unfoldable pub is_status_key : Datum → Bool
is_status_key (str k) = bytes_eq (map lower k) status_details_key
is_status_key _ = false

-- The loop over `trailing`: the last value under the key, after the one found before.
unfoldable pub find_raw : Option Datum → Metadata → Option Datum
unfolding is_status_key
find_raw raw [] = raw
find_raw raw ((k, v) ∷ trailing) = find_raw (if is_status_key k then some v else raw) trailing

-- A detail: its type and its value.
abbrev pub Detail : Type 0
Detail = Text × Bytes

unfoldable pub read_any : Detail → Field → Result Detail
read_any (type_url, value) (bytes_field num v) =
    if num == 1
    then (do u ← decode v; ok (u, value))
    else if num == 2
    then ok (type_url, v)
    else ok (type_url, value)
read_any detail _ = ok detail

unfoldable pub read_status : List Detail → Field → Result (List Detail)
unfolding fields each read_any
read_status out (bytes_field num v) =
    if num == 3 then (do d ← each read_any ([], []) (fields v); ok (out ++ (d ∷ []))) else ok out
read_status out _ = ok out

-- `except (ValueError, UnicodeDecodeError): return []`.
abbrev pub or_empty : Result (List Detail) → List Detail
or_empty (ok out) = out
or_empty (err e) = []

-- A value that is not a byte string, or is malformed, has no details.
unfoldable pub details_of : Option Datum → List Detail
unfolding fields each read_status
details_of (some (binary raw)) = or_empty (each read_status [] (fields raw))
details_of _ = []

unfoldable pub status_details : Option Metadata → List Detail
unfolding find_raw details_of
status_details none = []
status_details (some trailing) = details_of (find_raw none trailing)

-- A `dict` of `str`, in the order of insertion.
abbrev pub Dict : Type 0
Dict = List (Text × Text)

unfoldable pub put : Text → Text → Dict → Dict
put k v [] = (k, v) ∷ []
put k v ((k', v') ∷ d) =
    let rest = put k v d in if bytes_eq k k' then (k', v) ∷ d else (k', v') ∷ rest

unfoldable pub lookup : Text → Dict → Option Text
lookup k [] = none
lookup k ((k', v) ∷ d) = let rest = lookup k d in if bytes_eq k k' then some v else rest

unfoldable pub read_entry : Text × Text → Field → Result (Text × Text)
read_entry (mk, mv) (bytes_field num v) =
    if num == 1
    then (do t ← decode v; ok (t, mv))
    else if num == 2
    then (do t ← decode v; ok (mk, t))
    else ok (mk, mv)
read_entry entry _ = ok entry

pub record ErrorInfo : Type 0 where
  pub reason : Text
  pub domain : Text
  pub metadata : Dict

unfoldable pub read_info : ErrorInfo → Field → Result ErrorInfo
unfolding fields each read_entry put
read_info info (bytes_field num v) =
    if num == 1
    then (do t ← decode v; ok (record info { reason = t }))
    else if num == 2
    then (do t ← decode v; ok (record info { domain = t }))
    else if num == 3
    then (do
      (mk, mv) ← each read_entry ([], []) (fields v)
      ok (record info { metadata = put mk mv info.metadata }))
    else ok info
read_info info _ = ok info

unfoldable pub decode_error_info : Bytes → Result ErrorInfo
unfolding fields each read_info
decode_error_info value =
    each read_info (record { reason = []; domain = []; metadata = [] }) (fields value)

-- A varint as a signed number of 64 bits.
unfoldable pub signed : ℕ → ℤ
signed v = if leb (2 ^ 63) v then sub_ℕ v (2 ^ 64) else pos v

unfoldable pub read_duration : ℤ × ℤ → Field → Result (ℤ × ℤ)
unfolding signed
read_duration (seconds, nanos) (number_field num v) =
    if num == 1
    then ok (signed v, nanos)
    else if num == 2
    then ok (seconds, signed v)
    else ok (seconds, nanos)
read_duration duration _ = ok duration

-- In nanoseconds, where the code has a `float` of seconds.
unfoldable pub delay_of : Bytes → Result (Option ℤ)
unfolding fields each read_duration
delay_of v = do
  (seconds, nanos) ← each read_duration (pos 0, pos 0) (fields v)
  ok (some (scale 1000000000 seconds +ℤ nanos))

-- The loop of `_decode_retry_delay`, which returns at the first delay.
unfoldable pub first_delay : Stream → Result (Option ℤ)
unfolding delay_of
first_delay finished = ok none
first_delay broken = err truncated
first_delay (next (bytes_field num v) rest) =
    let more = first_delay rest in if num == 1 then delay_of v else more
first_delay (next _ rest) = first_delay rest

unfoldable pub decode_retry_delay : Bytes → Result (Option ℤ)
unfolding fields first_delay
decode_retry_delay value = first_delay (fields value)

abbrev answer : Result ErrorInfo → Option (Text × Dict) → Option (Text × Dict)
answer (err e) rest = none
answer (ok info) rest =
    if bytes_eq info.domain seam_error_domain then some (info.reason, info.metadata) else rest

-- `_seam_error_info` on the details: the first `ErrorInfo` of the domain, unless one before it is
-- malformed.
unfoldable pub seam_info : List Detail → Option (Text × Dict)
unfolding decode_error_info
seam_info [] = none
seam_info ((type_url, value) ∷ details) =
    let rest = seam_info details in
    if bytes_eq type_url error_info_type then answer (decode_error_info value) rest else rest

-- The first `RetryInfo`.
unfoldable pub retry_delay : List Detail → Option ℤ
unfolding decode_retry_delay
retry_delay [] = none
retry_delay ((type_url, value) ∷ details) =
    let rest = retry_delay details in
    if bytes_eq type_url retry_info_type
    then elim (decode_retry_delay value) [ ok delay ↦ delay | err e ↦ none ]
    else rest

-- What the properties take from it, where there is one. MACP's code is that of a `PROTOCOL` refusal.
abbrev pub info_reason : Option (Text × Dict) → Option Text
info_reason none = none
info_reason (some (r, md)) = some r

abbrev pub info_metadata : Option (Text × Dict) → Option Dict
info_metadata none = none
info_metadata (some (r, md)) = some md

abbrev pub info_macp_code : Option (Text × Dict) → Option Text
info_macp_code none = none
info_macp_code (some (r, md)) =
    if bytes_eq r protocol_reason then lookup (codes "macp_code") md else none

-- The properties of an error with this trailing metadata.
module _ (trailing : Option Metadata) where
  unfoldable pub seam_error_info : Option (Text × Dict)
  unfolding status_details seam_info
  seam_error_info = seam_info (status_details trailing)

  unfoldable pub reason : Option Text
  unfolding seam_error_info
  reason = info_reason seam_error_info

  unfoldable pub error_metadata : Option Dict
  unfolding seam_error_info
  error_metadata = info_metadata seam_error_info

  unfoldable pub macp_code : Option Text
  unfolding seam_error_info
  macp_code = info_macp_code seam_error_info

  unfoldable pub retry_after : Option ℤ
  unfolding status_details retry_delay
  retry_after = retry_delay (status_details trailing)
