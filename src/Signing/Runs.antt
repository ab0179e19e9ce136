-- ===== src/Signing/Runs.antt =====
-- Payloads of concrete calls, and the binding of signatures at them.
use seam_sdk.Prelude.{◌≡◌, refl, List, [], ◌∷◌, ◌++◌, codes, ok}
use mathlib.Core.List.{Permᴰ}
use seam_sdk.Bytes.{Bytes, Text, encode, encode_char, pack_le, le_bytes}
use seam_sdk.Order.{sort, insert_sorted, pair_leb, lex_leb}
use seam_sdk.Wire.{frame, frame_text, frame_int, write, join}
use seam_sdk.Signing.{
  CallFields, encode_pairs, pair_slots, v3_slots, call_sig_v3_payload, call_sig_v3_context,
}
use seam_sdk.Signing.Features.{call_sig_v3_payload_features_order}
use seam_sdk.Signing.Binding.{by_call_v3, payload, Same, payload_binds}

abbrev ticket : Bytes
ticket = 7 ∷ 255 ∷ []

abbrev feature_a : Text × Text
feature_a = (codes "a", codes "1")

abbrev feature_b : Text × Text
feature_b = (codes "b", [])

abbrev fields : List (Text × Text) → CallFields
fields features = record {
  tool_input_digest = codes "d";
  tool_name = codes "ls";
  agent_id = codes "é";
  subject = [];
  subjects = codes "s1" ∷ codes "s2" ∷ [];
  client_request_id = [];
  session_id = codes "s";
  features = features;
}

abbrev b_first : CallFields
b_first = fields (feature_b ∷ feature_a ∷ [])

abbrev a_first : CallFields
a_first = fields (feature_a ∷ feature_b ∷ [])

abbrev signed_bytes : Bytes
signed_bytes =
    22
    ∷ 0
    ∷ 0
    ∷ 0
    ∷ (call_sig_v3_context
        ++ (2 ∷ 0 ∷ 0 ∷ 0 ∷ 7 ∷ 255 ∷ 1 ∷ 0 ∷ 0 ∷ 0 ∷ b'd' ∷ 2 ∷ 0 ∷ 0 ∷ 0 ∷ b'l' ∷ b's' ∷ 2 ∷ 0 ∷ 0
            ∷ 0 ∷ 0xc3 ∷ 0xa9 ∷ 0 ∷ 0 ∷ 0 ∷ 0 ∷ 4 ∷ 0 ∷ 0 ∷ 0 ∷ 2 ∷ 0 ∷ 0 ∷ 0 ∷ 2 ∷ 0 ∷ 0 ∷ 0 ∷ b's'
            ∷ b'1' ∷ 2 ∷ 0 ∷ 0 ∷ 0 ∷ b's' ∷ b'2' ∷ 0 ∷ 0 ∷ 0 ∷ 0 ∷ 1 ∷ 0 ∷ 0 ∷ 0 ∷ b's' ∷ 4 ∷ 0 ∷ 0
            ∷ 0 ∷ 2 ∷ 0 ∷ 0 ∷ 0 ∷ 1 ∷ 0 ∷ 0 ∷ 0 ∷ b'a' ∷ 1 ∷ 0 ∷ 0 ∷ 0 ∷ b'1' ∷ 1 ∷ 0 ∷ 0 ∷ 0 ∷ b'b'
            ∷ 0 ∷ 0 ∷ 0 ∷ 0 ∷ []))

b_first_payload : call_sig_v3_payload ticket b_first ≡ ok signed_bytes
unfolding call_sig_v3_payload encode_pairs encode encode_char sort insert_sorted pair_leb lex_leb
    v3_slots pair_slots join write frame frame_text frame_int pack_le le_bytes
b_first_payload = refl

a_first_payload : call_sig_v3_payload ticket a_first ≡ ok signed_bytes
unfolding call_sig_v3_payload encode_pairs encode encode_char sort insert_sorted pair_leb lex_leb
    v3_slots pair_slots join write frame frame_text frame_int pack_le le_bytes
a_first_payload = refl

payload_binds_example : Same (by_call_v3 ticket b_first) (by_call_v3 ticket a_first)
unfolding payload
payload_binds_example =
    payload_binds (by_call_v3 ticket b_first) (by_call_v3 ticket a_first) signed_bytes
      b_first_payload a_first_payload

swapped : Permᴰ (feature_b ∷ feature_a ∷ []) (feature_a ∷ feature_b ∷ [])
swapped = Permᴰ.swap refl refl

call_sig_v3_payload_features_order_example : call_sig_v3_payload ticket a_first ≡ ok signed_bytes
call_sig_v3_payload_features_order_example =
    call_sig_v3_payload_features_order ticket b_first a_first.features signed_bytes swapped
      b_first_payload
