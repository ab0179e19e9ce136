-- ===== src/Ids/Runs.antt =====
-- Identifiers, accepted and refused.
use seam_sdk.Prelude.{◌≡◌, ◌↔◌, refl, ◌++◌, codes, none, some}
use seam_sdk.Bytes.{Text, encode, encode_char}
use seam_sdk.Checks.{str}
use seam_sdk.Keys.{strip_prefix}
use seam_sdk.Ids.{
  is_token_char, is_hex, is_lower_hex, is_dash, is_version, matches, is_token, is_tenant,
  not_canonical, bad_characters, session_refusal, parsed, refused, bad_session, DecisionId,
  check_halves, print, decision_id_for_session, partition, parse_decision_id,
}
use seam_sdk.Ids.Decisions.{decision_id_round_trip}

abbrev token : Text
token = codes "abcdefghijklmnopqrst-_"

token_accepted : session_refusal (str token) ≡ none
unfolding session_refusal encode encode_char matches is_hex is_dash is_token is_token_char
token_accepted = refl

-- A UUID of version 7, and the same in upper case.
uuid_accepted : session_refusal (str (codes "0190a0b1-c2d3-7e4f-8a5b-6c7d8e9f0a1b")) ≡ none
unfolding session_refusal encode encode_char matches is_hex is_lower_hex is_version is_dash is_token
    is_token_char
uuid_accepted = refl

upper_uuid_refused :
    session_refusal (str (codes "0190A0B1-C2D3-7E4F-8A5B-6C7D8E9F0A1B")) ≡ some not_canonical
unfolding session_refusal encode encode_char matches is_hex is_lower_hex is_version is_dash is_token
    is_token_char
upper_uuid_refused = refl

abbrev decision : DecisionId
decision = record { tenant = codes "acme"; session_id = token }

decision_id_round_trip_example :
    (decision_id_for_session (str (codes "acme")) (str token) ≡ parsed (codes "dec:acme:" ++ token))
    ↔ (parse_decision_id (str (codes "dec:acme:" ++ token)) ≡ parsed decision)
decision_id_round_trip_example = decision_id_round_trip decision (codes "dec:acme:" ++ token)

built :
    decision_id_for_session (str (codes "acme")) (str token) ≡ parsed (codes "dec:acme:" ++ token)
unfolding decision_id_for_session check_halves print session_refusal encode encode_char matches
    is_hex is_dash is_tenant is_token is_token_char
built = refl

-- A further `:` lands in the session half.
extra_separator :
    parse_decision_id (str (codes "dec:a:b:" ++ token)) ≡ refused (bad_session bad_characters)
unfolding parse_decision_id strip_prefix partition check_halves session_refusal encode encode_char
    matches is_hex is_dash is_tenant is_token is_token_char
extra_separator = refl
