-- ===== src/Details/Reads.antt =====
-- The properties of a typed error give what the server sent in its details.
use seam_sdk.Prelude.{
  Bool, false, ℕ, zero, suc, sym, ok_injective, ◌^◌, ◌<◌, ◌≡◌, refl, ap, ◌∙◌, arith, Option, none,
  some, List, [], ◌∷◌, ◌++◌, All, ok, true,
}
use mathlib.Core.List.{append_assoc, append-nil}
use seam_sdk.Prelude.Int.{ℤ, pos, negsuc, ◌+ℤ◌, scale}
use seam_sdk.Bytes.{Bytes, Text, encode, encode_char}
use seam_sdk.Bytes.Decode.{decode, decode-encode}
use seam_sdk.Proto.{fields, each}
use seam_sdk.Proto.Written.{Part, set_number, set_chunk, write_parts, Fits, yields}
use seam_sdk.Proto.RoundTrip.{fields-write_parts}
use seam_sdk.Details.{
  Datum, str, binary, Metadata, is_status_key, find_raw, Detail, read_any, read_status, details_of,
  status_details, Dict, put, lookup, read_entry, ErrorInfo, read_info, decode_error_info, signed,
  read_duration, delay_of, first_delay, decode_retry_delay, seam_info, retry_delay, seam_error_info,
  retry_after,
}
use seam_sdk.Details.Sent.{
  utf8, string_parts, IsEncodable, unsigned, IsI64, pair_parts, write_entry, entry_parts, Fresh,
  IsEntry, info_parts, duration_parts, retry_parts, Sent, error_info, retry_info, other, type_of,
  value_of_sent, any_parts, details_parts, status_parts, IsSent, IsAny, Payload, trailing_of,
  IsPayload, NoStatusKey, sent_info, sent_delay,
}

decode-utf8 : (t : Text) → IsEncodable t → decode (utf8 t) ≡ ok t
decode-utf8 t h = decode-encode t (utf8 t) h

decode_empty : {t : Text} → decode [] ≡ ok t → t ≡ []
unfolding decode
decode_empty h = sym (ok_injective h)

-- Two fields of text, each of which may be left out.
read_entry-string_parts :
    (a b : Bytes) (k v : Text)
    → decode a ≡ ok k
    → decode b ≡ ok v
    → each read_entry ([], []) (yields (string_parts a b)) ≡ ok (k, v)
unfolding each read_entry
read_entry-string_parts [] [] k v hk hv = rw (decode_empty hk, decode_empty hv) refl
read_entry-string_parts [] (y ∷ b) k v hk hv = rw (decode_empty hk, hv) refl
read_entry-string_parts (x ∷ a) [] k v hk hv = rw (hk, decode_empty hv) refl
read_entry-string_parts (x ∷ a) (y ∷ b) k v hk hv = rw (hk, hv) refl

read_any-string_parts :
    (a b : Bytes) (t : Text)
    → decode a ≡ ok t
    → each read_any ([], []) (yields (string_parts a b)) ≡ ok (t, b)
unfolding each read_any
read_any-string_parts [] [] t h = rw (decode_empty h) refl
read_any-string_parts [] (y ∷ b) t h = rw (decode_empty h) refl
read_any-string_parts (x ∷ a) [] t h = rw h refl
read_any-string_parts (x ∷ a) (y ∷ b) t h = rw h refl

-- The head of an `ErrorInfo`.
read_info-set_chunk :
    (a b : Bytes) (r d : Text) (ps : List Part)
    → decode a ≡ ok r
    → decode b ≡ ok d
    → each read_info
        (record { reason = []; domain = []; metadata = [] })
        (yields (set_chunk 1 a (set_chunk 2 b ps)))
      ≡ each read_info (record { reason = r; domain = d; metadata = [] }) (yields ps)
unfolding each read_info
read_info-set_chunk [] [] r d ps hr hd = rw (decode_empty hr, decode_empty hd) refl
read_info-set_chunk [] (y ∷ b) r d ps hr hd = rw (decode_empty hr, hd) refl
read_info-set_chunk (x ∷ a) [] r d ps hr hd = rw (hr, decode_empty hd) refl
read_info-set_chunk (x ∷ a) (y ∷ b) r d ps hr hd = rw (hr, hd) refl

read_duration-set_number :
    (u v : ℕ)
    → each read_duration (pos 0, pos 0) (yields (set_number 1 u (set_number 2 v [])))
      ≡ ok (signed u, signed v)
unfolding each read_duration signed
read_duration-set_number zero zero = refl
read_duration-set_number zero (suc v) = refl
read_duration-set_number (suc u) zero = refl
read_duration-set_number (suc u) (suc v) = refl

-- The code and the message of a status are passed over.
read_status-set_number :
    (code : ℕ) (message : Bytes) (ps : List Part) (out : List Detail)
    → each read_status out (yields (set_number 1 code (set_chunk 2 message ps)))
      ≡ each read_status out (yields ps)
unfolding each read_status
read_status-set_number zero [] ps out = refl
read_status-set_number zero (x ∷ message) ps out = refl
read_status-set_number (suc code) [] ps out = refl
read_status-set_number (suc code) (x ∷ message) ps out = refl

read_entry-write_entry :
    (whole : Bool) (k v : Text)
    → IsEntry whole (k, v)
    → each read_entry ([], []) (fields (write_entry whole k v)) ≡ ok (k, v)
unfolding write_entry each read_entry
read_entry-write_entry true k v (hk, hv, fits) =
    rw (fields-write_parts (pair_parts true k v) fits)
      (rw (decode-utf8 k hk, decode-utf8 v hv) refl)
read_entry-write_entry false k v (hk, hv, fits) =
    ap (each read_entry ([], [])) (fields-write_parts (string_parts (utf8 k) (utf8 v)) fits)
    ∙ read_entry-string_parts (utf8 k) (utf8 v) k v (decode-utf8 k hk) (decode-utf8 v hv)

put_fresh : (k v : Text) (d : Dict) → lookup k d ≡ none → put k v d ≡ d ++ ((k, v) ∷ [])
unfolding put lookup
put_fresh k v [] h = refl
put_fresh k v ((k', v') ∷ d) h = ground (arith, put_fresh k v d)

read_entries :
    (whole : Bool) (d : Dict) (info : ErrorInfo)
    → Fresh info.metadata d
    → All (IsEntry whole) d
    → each read_info info (yields (entry_parts whole d))
      ≡ ok (record info { metadata = info.metadata ++ d })
unfolding each read_info
read_entries whole [] info fresh hs = rw append-nil refl
read_entries whole ((k, v) ∷ d) info (new, fresh) (h, hs) =
    rw (read_entry-write_entry whole k v h, put_fresh k v info.metadata new)
      (read_entries whole d (record info { metadata = info.metadata ++ ((k, v) ∷ []) }) fresh hs
        ∙ rw append_assoc refl)

signed-unsigned : (z : ℤ) → IsI64 z → signed (unsigned z) ≡ z
unfolding signed
signed-unsigned (pos n) h = ground arith
signed-unsigned (negsuc n) h = ground arith

delay_of-write_parts :
    (seconds nanos : ℤ)
    → IsI64 seconds
    → IsI64 nanos
    → All Fits (duration_parts seconds nanos)
    → delay_of (write_parts (duration_parts seconds nanos))
      ≡ ok (some (scale 1000000000 seconds +ℤ nanos))
unfolding delay_of
delay_of-write_parts seconds nanos hs hn fits =
    rw (fields-write_parts (duration_parts seconds nanos) fits) (
      rw (read_duration-set_number (unsigned seconds) (unsigned nanos))
        (rw (signed-unsigned seconds hs, signed-unsigned nanos hn) refl))

decode_error_info-write_parts :
    (whole : Bool) (info : ErrorInfo)
    → IsSent (error_info whole info)
    → decode_error_info (write_parts (info_parts whole info)) ≡ ok info
unfolding decode_error_info
decode_error_info-write_parts whole info (hr, hd, fresh, hs, fits) =
    rw (fields-write_parts (info_parts whole info) fits) (
      read_info-set_chunk (utf8 info.reason) (utf8 info.domain) info.reason info.domain
        (entry_parts whole info.metadata) (decode-utf8 info.reason hr) (decode-utf8 info.domain hd)
      ∙ read_entries whole info.metadata (record info { metadata = [] }) fresh hs)

decode_retry_delay-write_parts :
    (seconds nanos : ℤ)
    → IsSent (retry_info seconds nanos)
    → All Fits (duration_parts seconds nanos)
    → decode_retry_delay (write_parts (retry_parts seconds nanos))
      ≡ ok (some (scale 1000000000 seconds +ℤ nanos))
unfolding decode_retry_delay first_delay
decode_retry_delay-write_parts seconds nanos (hs, hn, fits) small =
    rw (fields-write_parts (retry_parts seconds nanos) fits)
      (delay_of-write_parts seconds nanos hs hn small)

abbrev detail_of : Sent → Detail
detail_of sent = (type_of sent, value_of_sent sent)

abbrev details_sent : List Sent → List Detail
details_sent [] = []
details_sent (sent ∷ more) = detail_of sent ∷ details_sent more

read_any-any_parts :
    (sent : Sent)
    → IsEncodable (type_of sent)
    → All Fits (any_parts sent)
    → each read_any ([], []) (fields (write_parts (any_parts sent))) ≡ ok (detail_of sent)
read_any-any_parts sent h fits =
    ap (each read_any ([], [])) (fields-write_parts (any_parts sent) fits)
    ∙ read_any-string_parts (utf8 (type_of sent)) (value_of_sent sent) (type_of sent)
        (decode-utf8 (type_of sent) h)

type_of-IsEncodable : (sent : Sent) → IsSent sent → IsEncodable (type_of sent)
unfolding utf8 encode encode_char
type_of-IsEncodable (error_info whole info) h = refl
type_of-IsEncodable (retry_info seconds nanos) h = refl
type_of-IsEncodable (other type_url value) h = h.0

read_details :
    (sent : List Sent) (out : List Detail)
    → All IsAny sent
    → each read_status out (yields (details_parts sent)) ≡ ok (out ++ details_sent sent)
unfolding each read_status
read_details [] out h = rw append-nil refl
read_details (d ∷ sent) out ((h, fits), hs) =
    rw (read_any-any_parts d (type_of-IsEncodable d h) fits)
      (read_details sent (out ++ (detail_of d ∷ [])) hs ∙ rw append_assoc refl)

find_raw-none :
    (raw : Option Datum) (after : Metadata) → All NoStatusKey after → find_raw raw after ≡ raw
unfolding find_raw
find_raw-none raw [] h = refl
find_raw-none raw ((k, v) ∷ after) (h, hs) = rw (h, find_raw) (find_raw-none raw after hs)

find_raw-last :
    (before : Metadata) (raw : Option Datum) (after : Metadata) (k v : Datum)
    → is_status_key k ≡ true
    → All NoStatusKey after
    → find_raw raw (before ++ ((k, v) ∷ after)) ≡ some v
unfolding find_raw
find_raw-last [] raw after k v h none_after =
    rw (h, find_raw) (find_raw-none (some v) after none_after)
find_raw-last ((k', v') ∷ before) raw after k v h none_after =
    find_raw-last before _ after k v h none_after

details_of-write_parts :
    {p : Payload}
    → IsPayload p
    → details_of (some (binary (write_parts (status_parts p.code p.message p.sent))))
      ≡ details_sent p.sent
unfolding details_of
details_of-write_parts {p} h =
    rw (fields-write_parts (status_parts p.code p.message p.sent) h.fits) (
      rw (read_status-set_number p.code p.message (details_parts p.sent) [])
        (rw (read_details p.sent [] h.details) refl))

status_details-trailing_of :
    {p : Payload} → IsPayload p → status_details (some (trailing_of p)) ≡ details_sent p.sent
unfolding status_details
status_details-trailing_of {p} h =
    let payload = binary (write_parts (status_parts p.code p.message p.sent)) in
    rw (find_raw-last p.before none p.after (str p.key) payload h.key h.last)
      (details_of-write_parts h)

unsigned_small : (z : ℤ) → IsI64 z → unsigned z < 2 ^ 64
unsigned_small (pos n) h = omega arith
unsigned_small (negsuc n) h = omega arith

duration-Fits : (u v : ℕ) → u < 2 ^ 64 → v < 2 ^ 64 → All Fits (set_number 1 u (set_number 2 v []))
duration-Fits zero zero h k = _
duration-Fits zero (suc v) h k = (omega arith, _)
duration-Fits (suc u) zero h k = (omega arith, _)
duration-Fits (suc u) (suc v) h k = (omega arith, (omega arith, _))

seam_info-details_sent :
    (sent : List Sent) → All IsAny sent → seam_info (details_sent sent) ≡ sent_info sent
unfolding seam_info
seam_info-details_sent [] h = refl
seam_info-details_sent (error_info whole info ∷ sent) ((h, fits), hs) =
    rw (decode_error_info-write_parts whole info h, seam_info-details_sent sent hs) refl
seam_info-details_sent (retry_info seconds nanos ∷ sent) (h, hs) = seam_info-details_sent sent hs
seam_info-details_sent (other type_url value ∷ sent) (((h, not_info, not_retry), fits), hs) =
    rw not_info (seam_info-details_sent sent hs)

retry_delay-details_sent :
    (sent : List Sent) → All IsAny sent → retry_delay (details_sent sent) ≡ sent_delay sent
unfolding retry_delay
retry_delay-details_sent [] h = refl
retry_delay-details_sent (error_info whole info ∷ sent) (h, hs) = retry_delay-details_sent sent hs
retry_delay-details_sent (retry_info seconds nanos ∷ sent) ((h, fits), hs) =
    let (is_seconds, is_nanos, _) = h in
    let small_seconds = unsigned_small seconds is_seconds in
    let small_nanos = unsigned_small nanos is_nanos in
    let small = duration-Fits (unsigned seconds) (unsigned nanos) small_seconds small_nanos in
    rw (decode_retry_delay-write_parts seconds nanos h small) refl
retry_delay-details_sent (other type_url value ∷ sent) (((h, not_info, not_retry), fits), hs) =
    rw not_retry (retry_delay-details_sent sent hs)

pub seam_error_info-sent_info :
    {p : Payload} → IsPayload p → seam_error_info (some (trailing_of p)) ≡ sent_info p.sent
unfolding seam_error_info
seam_error_info-sent_info {p} h =
    ap seam_info (status_details-trailing_of h) ∙ seam_info-details_sent p.sent h.details

pub retry_after-sent_delay :
    {p : Payload} → IsPayload p → retry_after (some (trailing_of p)) ≡ sent_delay p.sent
unfolding retry_after
retry_after-sent_delay {p} h =
    ap retry_delay (status_details-trailing_of h) ∙ retry_delay-details_sent p.sent h.details
