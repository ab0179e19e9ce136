-- ===== src/Context/Runs.antt =====
-- Digests of concrete bindings.
use seam_sdk.Prelude.{
  ◌≡◌, refl, ◌⊎◌, none, some, List, [], ◌∷◌, ◌++◌, codes, ok, err, All, context_provenance, length,
}
use seam_sdk.Bytes.{Bytes, encode, encode_char, pack_le, le_bytes}
use seam_sdk.Checks.{str, int, null, rd_text, rd_opt, uint_slot}
use seam_sdk.Prelude.Int.{pos}
use seam_sdk.Hash.{Collision}
use seam_sdk.Wire.{join, write, frame, frame_text, frame_int, rd_opt_text}
use seam_sdk.Context.{
  ContextBinding, mapping, message, items, no_items, Row, ctx_get, derived_texts, row_of, rows_from,
  is_receipt_key_status, listed, context_rows, context_digest_v4,
}
use seam_sdk.Context.Binding.{receipted, RowIsPaired, context_digest_v4_binds}
use seam_sdk.Context.Provenance.{context_digest_v4-Unpaired}

abbrev as_message : ContextBinding
as_message = message (record {
  ctx_ref = codes "r";
  fidelity = codes "full";
  classification = codes "c";
  lineage_id = none;
  version = 2;
  derived_from = codes "p" ∷ codes "q" ∷ [];
  content_hash = none;
  receipt_hash = some (codes "h");
  key_status = none;
  resolved_status = some [];
  receipt_key_status = some (codes "Historical");
})

-- The same binding as a `dict`.
abbrev as_mapping : ContextBinding
as_mapping = mapping (record {
  ctx_ref = some (str (codes "r"));
  fidelity = some (str (codes "full"));
  classification = some (str (codes "c"));
  lineage_id = some null;
  version = some (int (pos 2));
  derived_from = items (str (codes "p") ∷ str (codes "q") ∷ []);
  content_hash = none;
  receipt_hash = some (str (codes "h"));
  key_status = none;
  resolved_status = some (str []);
  receipt_key_status = some (str (codes "Historical"));
})

abbrev lower_case : ContextBinding
lower_case = mapping (record {
  ctx_ref = some (str []);
  fidelity = some (str []);
  classification = some (str []);
  lineage_id = none;
  version = some (int (pos 0));
  derived_from = no_items;
  content_hash = none;
  receipt_hash = some (str (codes "h"));
  key_status = none;
  resolved_status = none;
  receipt_key_status = some (str (codes "historical"));
})

abbrev size_hash : Bytes → Bytes
size_hash b = length b ∷ []

sizes : context_digest_v4 size_hash (listed (as_message ∷ [])) ≡ ok (109 ∷ [])
unfolding context_digest_v4 rd_text rd_opt uint_slot derived_texts join write frame pack_le
    frame_text encode encode_char rd_opt_text frame_int le_bytes
sizes = refl

mapping_sizes : context_digest_v4 size_hash (listed (as_mapping ∷ [])) ≡ ok (109 ∷ [])
unfolding context_digest_v4 rd_text rd_opt uint_slot derived_texts join write frame pack_le
    frame_text encode encode_char rd_opt_text frame_int le_bytes
mapping_sizes = refl

context_digest_v4_binds_example :
    ((rows : List Row) × (context_rows (listed (as_message ∷ [])) ≡ ok rows)
      × (context_rows (listed (as_mapping ∷ [])) ≡ ok rows)
      × All RowIsPaired rows)
    ⊎ Collision size_hash
context_digest_v4_binds_example =
    context_digest_v4_binds size_hash (listed (as_message ∷ [])) (listed (as_mapping ∷ []))
      (109 ∷ []) sizes mapping_sizes

abbrev lower_case_row : Row
lower_case_row = record {
  ctx_ref = [];
  fidelity = [];
  classification = [];
  lineage = none;
  version = 0;
  derived = [];
  content_hash = none;
  receipt_hash = some (codes "h");
  key_status = none;
  resolved_status = none;
  receipt_key_status = some (codes "historical");
}

row_of-lower_case : row_of (ctx_get lower_case) ≡ ok lower_case_row
unfolding row_of rd_text rd_opt uint_slot derived_texts ctx_get
row_of-lower_case = refl

abbrev first_row : Row
first_row = record {
  ctx_ref = codes "r";
  fidelity = codes "full";
  classification = codes "c";
  lineage = none;
  version = 2;
  derived = codes "p" ∷ codes "q" ∷ [];
  content_hash = none;
  receipt_hash = some (codes "h");
  key_status = none;
  resolved_status = some [];
  receipt_key_status = some (codes "Historical");
}

rows_from-as_message : rows_from 0 (as_message ∷ []) ≡ ok (first_row ∷ [])
unfolding rows_from rd_text rd_opt uint_slot derived_texts
rows_from-as_message = refl

unpaired : ¬ RowIsPaired lower_case_row
unfolding is_receipt_key_status
unpaired (receipted r s known) = cc

context_digest_v4-Unpaired_example :
    context_digest_v4 size_hash (listed ((as_message ∷ []) ++ (lower_case ∷ as_mapping ∷ [])))
    ≡ err (context_provenance 1)
context_digest_v4-Unpaired_example =
    context_digest_v4-Unpaired size_hash (as_message ∷ []) lower_case (as_mapping ∷ [])
      (first_row ∷ []) lower_case_row rows_from-as_message row_of-lower_case unpaired
