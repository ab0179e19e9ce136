-- ===== src/Details/Named.antt =====
-- Which detail an error's `reason`, metadata and MACP code come from.
use seam_sdk.Prelude.{
  ◌≡◌, ◌↔◌, refl, ap, ◌∙◌, subst, Option, none, some, List, [], ◌∷◌, bytes_eq, bytes_eq→eq,
  bytes_eq_refl, Bool-cases, Result-cases, true, false, codes, ok, inl, inr,
}
use seam_sdk.Bytes.{Bytes, Text}
use seam_sdk.Details.{
  Detail, Dict, lookup, ErrorInfo, decode_error_info, seam_info, error_info_type, seam_error_domain,
  Metadata, status_details, seam_error_info, macp_code, protocol_reason, info_macp_code,
}

-- A detail that gives no answer, and does not end the search.
pub data IsPassed (type_url : Text) (value : Bytes) : Type 0 where
  other_type : bytes_eq type_url error_info_type ≡ false → IsPassed type_url value
  other_domain :
      (info : ErrorInfo)
      → type_url ≡ error_info_type
      → decode_error_info value ≡ ok info
      → bytes_eq info.domain seam_error_domain ≡ false
      → IsPassed type_url value

-- The first `ErrorInfo` of Seam's domain in the list has this reason and this metadata, and each
-- `ErrorInfo` before it is well formed.
pub data Names (r : Text) (md : Dict) : List Detail → Type 0 where
  here :
      (value : Bytes) (details : List Detail) (info : ErrorInfo)
      → decode_error_info value ≡ ok info
      → info.domain ≡ seam_error_domain
      → info.reason ≡ r
      → info.metadata ≡ md
      → Names r md ((error_info_type, value) ∷ details)
  passed :
      (type_url : Text) (value : Bytes) (details : List Detail)
      → IsPassed type_url value
      → Names r md details
      → Names r md ((type_url, value) ∷ details)

module _ (r : Text) (md : Dict) where
  seam_info-Names : (details : List Detail) → seam_info details ≡ some (r, md) → Names r md details
  unfolding seam_info
  seam_info-Names [] h = cc
  seam_info-Names ((type_url, value) ∷ details) h =
      elim (Bool-cases (bytes_eq type_url error_info_type)) [
        | inr differs ↦
            passed type_url value details (other_type differs)
              (seam_info-Names details (rw differs at h))
        | inl same ↦
            let is_info : type_url ≡ error_info_type = bytes_eq→eq type_url error_info_type same in
            elim (Result-cases (decode_error_info value)) [
              | inr (e, broken) ↦ let h' = rw (same, broken) at h in cc
              | inl (info, decoded) ↦
                  let h' = rw (same, decoded) at h in
                  elim (Bool-cases (bytes_eq info.domain seam_error_domain)) [
                    | inr foreign ↦
                        let n = seam_info-Names details (rw foreign at h') in
                        passed type_url value details (other_domain info is_info decoded foreign) n
                    | inl ours ↦
                        let ours' = bytes_eq→eq info.domain seam_error_domain ours in
                        rw is_info (here value details info decoded ours' (cc) (cc))
                  ]
            ]
      ]

  Names-seam_info : {details : List Detail} → Names r md details → seam_info details ≡ some (r, md)
  unfolding seam_info
  Names-seam_info (here value details info decoded ours rr mm) =
      let is_ours : bytes_eq info.domain seam_error_domain ≡ true =
        rw ours (bytes_eq_refl seam_error_domain) in
      rw (decoded, is_ours) (cc)
  Names-seam_info (passed type_url value details (other_type differs) n) =
      rw differs (Names-seam_info n)
  Names-seam_info (passed type_url value details (other_domain info is_info decoded foreign) n) =
      rw (is_info, decoded, foreign) (Names-seam_info n)

code-Names :
    (info : Option (Text × Dict)) (details : List Detail) (code : Text)
    → seam_info details ≡ info
    → info_macp_code info ≡ some code
    → (md : Dict) × Names protocol_reason md details × (lookup (codes "macp_code") md ≡ some code)
code-Names none details code e h = cc
code-Names (some (r, md)) details code e h = elim (Bool-cases (bytes_eq r protocol_reason)) [
  | inr other ↦ let h' = rw other at h in cc
  | inl same ↦
      let named = seam_info-Names r md details e in
      let is_protocol : r ≡ protocol_reason = bytes_eq→eq r protocol_reason same in
      (md, subst (λ s. Names s md details) is_protocol named, rw same at h)
]

-- An error has a MACP code exactly if the first `ErrorInfo` of Seam's domain, where each before it is
-- well formed, has the reason `PROTOCOL` and holds this code in its metadata.
pub macp_code-Names :
    (trailing : Option Metadata) (code : Text)
    → (macp_code trailing ≡ some code) ↔ (
        (md : Dict) × Names protocol_reason md (status_details trailing)
        × (lookup (codes "macp_code") md ≡ some code))
unfolding macp_code seam_error_info
macp_code-Names trailing code = (
  code-Names (seam_info (status_details trailing)) (status_details trailing) code refl,
  λ (md, n, found). ap info_macp_code (Names-seam_info protocol_reason md n) ∙ found,
)
