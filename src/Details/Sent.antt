-- ===== src/Details/Sent.antt =====
-- What a server sends: the `google.rpc.Status` of an error, with its details, in the encoding of
-- proto3: the fields in their order, each scalar left out at its default.
use seam_sdk.Prelude.{
  ℕ, ◌-◌, ◌^◌, ◌<◌, ◌≡◌, Option, none, some, List, [], ◌∷◌, ◌++◌, bytes_eq, All, if◌then◌else◌, ok,
  err, Bool, true, false,
}
use seam_sdk.Prelude.Int.{ℤ, pos, negsuc, ◌+ℤ◌, scale}
use seam_sdk.Bytes.{Bytes, Text, encode}
use seam_sdk.Proto.Written.{Part, chunk, set_number, set_chunk, write_parts, Fits}
use seam_sdk.Details.{
  Datum, str, binary, Metadata, is_status_key, Dict, lookup, ErrorInfo, error_info_type,
  retry_info_type, seam_error_domain,
}

-- The encoding of a text that has one.
unfoldable pub utf8 : Text → Bytes
utf8 t = elim (encode t) [ ok b ↦ b | err e ↦ [] ]

abbrev pub IsEncodable : Text → Type 0
IsEncodable t = encode t ≡ ok (utf8 t)

-- A number in two's complement of 64 bits.
abbrev pub unsigned : ℤ → ℕ
unsigned (pos n) = n
unsigned (negsuc n) = 2 ^ 64 - 1 - n

abbrev pub IsI64 : ℤ → Type 0
IsI64 (pos n) = n < 2 ^ 63
IsI64 (negsuc n) = n < 2 ^ 63

-- Two fields of text or bytes, as an entry and an `Any` have.
abbrev pub string_parts : Bytes → Bytes → List Part
string_parts a b = set_chunk 1 a (set_chunk 2 b [])

-- An entry of a map: most writers write both of its fields, some leave out an empty one.
abbrev pub pair_parts : Bool → Text → Text → List Part
pair_parts true k v = chunk 1 (utf8 k) ∷ chunk 2 (utf8 v) ∷ []
pair_parts false k v = string_parts (utf8 k) (utf8 v)

unfoldable pub write_entry : Bool → Text → Text → Bytes
write_entry whole k v = write_parts (pair_parts whole k v)

abbrev pub entry_parts : Bool → Dict → List Part
entry_parts whole [] = []
entry_parts whole ((k, v) ∷ d) = chunk 3 (write_entry whole k v) ∷ entry_parts whole d

-- Keys that are told apart, `seen` those before.
abbrev pub Fresh : Dict → Dict → Type 0
Fresh seen [] = Unit
Fresh seen ((k, v) ∷ d) = (lookup k seen ≡ none) × Fresh (seen ++ ((k, v) ∷ [])) d

-- Each entry is encodable and short enough.
abbrev pub IsEntry : Bool → Text × Text → Type 0
IsEntry whole (k, v) = IsEncodable k × IsEncodable v × All Fits (pair_parts whole k v)

abbrev pub info_parts : Bool → ErrorInfo → List Part
info_parts whole info =
    set_chunk 1 (utf8 info.reason)
      (set_chunk 2 (utf8 info.domain) (entry_parts whole info.metadata))

abbrev pub duration_parts : ℤ → ℤ → List Part
duration_parts seconds nanos = set_number 1 (unsigned seconds) (set_number 2 (unsigned nanos) [])

abbrev pub retry_parts : ℤ → ℤ → List Part
retry_parts seconds nanos = chunk 1 (write_parts (duration_parts seconds nanos)) ∷ []

-- A detail: an `ErrorInfo`, with its map entries whole or not, a `RetryInfo` in seconds and nanoseconds, or one of another type.
pub data Sent : Type 0 where
  error_info : Bool → ErrorInfo → Sent
  retry_info : ℤ → ℤ → Sent
  other : Text → Bytes → Sent

abbrev pub type_of : Sent → Text
type_of (error_info whole info) = error_info_type
type_of (retry_info seconds nanos) = retry_info_type
type_of (other type_url value) = type_url

abbrev pub value_of_sent : Sent → Bytes
value_of_sent (error_info whole info) = write_parts (info_parts whole info)
value_of_sent (retry_info seconds nanos) = write_parts (retry_parts seconds nanos)
value_of_sent (other type_url value) = value

abbrev pub any_parts : Sent → List Part
any_parts sent = string_parts (utf8 (type_of sent)) (value_of_sent sent)

abbrev pub details_parts : List Sent → List Part
details_parts [] = []
details_parts (sent ∷ more) = chunk 3 (write_parts (any_parts sent)) ∷ details_parts more

abbrev pub status_parts : ℕ → Bytes → List Sent → List Part
status_parts code message sent = set_number 1 code (set_chunk 2 message (details_parts sent))

-- What a detail holds can be encoded.
abbrev pub IsSent : Sent → Type 0
IsSent (error_info whole info) =
    IsEncodable info.reason
    × IsEncodable info.domain
    × Fresh [] info.metadata
    × All (IsEntry whole) info.metadata
    × All Fits (info_parts whole info)
IsSent (retry_info seconds nanos) =
    IsI64 seconds × IsI64 nanos × All Fits (retry_parts seconds nanos)
IsSent (other type_url value) =
    IsEncodable type_url
    × (bytes_eq type_url error_info_type ≡ false)
    × (bytes_eq type_url retry_info_type ≡ false)

abbrev pub IsAny : Sent → Type 0
IsAny sent = IsSent sent × All Fits (any_parts sent)

-- The whole payload, as one of the error's metadata, the last under its key.
pub record Payload : Type 0 where
  pub code : ℕ
  pub message : Bytes
  pub sent : List Sent
  pub before : Metadata
  pub after : Metadata
  pub key : Text

abbrev pub trailing_of : Payload → Metadata
trailing_of p =
    p.before ++ ((str p.key, binary (write_parts (status_parts p.code p.message p.sent))) ∷ p.after)

abbrev pub NoStatusKey : Datum × Datum → Type 0
NoStatusKey (k, v) = is_status_key k ≡ false

-- What a server that follows the format sends: one payload under the key, in encodings that fit.
pub record IsPayload (p : Payload) : Type 0 where
  pub key : is_status_key (str p.key) ≡ true
  pub last : All NoStatusKey p.after
  pub fits : All Fits (status_parts p.code p.message p.sent)
  pub details : All IsAny p.sent

-- What the two readers promise of the details sent: the first `ErrorInfo` of Seam's domain, and the
-- first `RetryInfo`.
abbrev pub sent_info : List Sent → Option (Text × Dict)
sent_info [] = none
sent_info (error_info whole info ∷ more) =
    let rest = sent_info more in
    if bytes_eq info.domain seam_error_domain then some (info.reason, info.metadata) else rest
sent_info (_ ∷ more) = sent_info more

abbrev pub sent_delay : List Sent → Option ℤ
sent_delay [] = none
sent_delay (retry_info seconds nanos ∷ more) = some (scale 1000000000 seconds +ℤ nanos)
sent_delay (_ ∷ more) = sent_delay more
