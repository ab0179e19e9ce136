-- ===== src/Context.antt =====
-- `context_digest_v4` of `python/seam_sdk/crypto.py`: the digest of the context bindings of a record.

pub mod Binding
pub mod Provenance
mod Runs
use seam_sdk.Prelude.{
  ℕ, suc, ◌+◌, Option, none, some, List, [], ◌∷◌, ◌++◌, map, length, codes, bytes_eq, ◌||◌, Bool,
  true, false, Result, ok, err, type_error, context_provenance, key_error, attribute_error, ◌>>=◌,
  ◌>>◌, raise_unless,
}
use seam_sdk.Prelude.Int.{pos}
use seam_sdk.Bytes.{Bytes, Text}
use seam_sdk.Checks.{Value, null, int, str, rd_text, rd_opt, uint_slot}
use seam_sdk.Checks.Refusals.{optional_str}
use seam_sdk.Wire.{Slot, framed, text, packed, opt_text, count, join}

abbrev pub context_domain : Bytes
context_domain = codes "seam.audit.context-provenance.v4"

-- What `list` makes of `derived_from`: it is absent, cannot be iterated, or has these items.
pub data Items : Type 0 where
  no_items not_iterable : Items
  items : List Value → Items

-- A `dict` keyed by the names of the specification: `none` is a missing key.
pub record Mapping : Type 0 where
  pub ctx_ref : Option Value
  pub fidelity : Option Value
  pub classification : Option Value
  pub lineage_id : Option Value
  pub version : Option Value
  pub derived_from : Items
  pub content_hash : Option Value
  pub receipt_hash : Option Value
  pub key_status : Option Value
  pub resolved_status : Option Value
  pub receipt_key_status : Option Value

-- A `pb.ContextBinding`, whose fields have the types of the schema.
pub record Message : Type 0 where
  pub ctx_ref : Text
  pub fidelity : Text
  pub classification : Text
  pub lineage_id : Option Text
  pub version : ℕ
  pub derived_from : List Text
  pub content_hash : Option Text
  pub receipt_hash : Option Text
  pub key_status : Option Text
  pub resolved_status : Option Text
  pub receipt_key_status : Option Text

-- Another object has no such attributes.
pub data ContextBinding : Type 0 where
  mapping : Mapping → ContextBinding
  message : Message → ContextBinding
  other_object : ContextBinding

-- `_ctx_get` on each slot, in the order of the code. Reading an optional slot of a binding raises only
-- where reading its first slot has raised.
pub record Slots : Type 0 where
  pub ctx_ref : Result Value
  pub fidelity : Result Value
  pub classification : Result Value
  pub lineage_id : Value
  pub version : Result Value
  pub derived_from : Items
  pub content_hash : Value
  pub receipt_hash : Value
  pub key_status : Value
  pub resolved_status : Value
  pub receipt_key_status : Value

-- `binding[name]` and `binding.get(name)`.
unfoldable pub item : Option Value → Result Value
item none = err key_error
item (some v) = ok v

unfoldable pub get_or_none : Option Value → Value
get_or_none none = null
get_or_none (some v) = v

unfoldable pub ctx_get : ContextBinding → Slots
unfolding item get_or_none
ctx_get (mapping b) = record {
  ctx_ref = item b.ctx_ref;
  fidelity = item b.fidelity;
  classification = item b.classification;
  lineage_id = get_or_none b.lineage_id;
  version = item b.version;
  derived_from = b.derived_from;
  content_hash = get_or_none b.content_hash;
  receipt_hash = get_or_none b.receipt_hash;
  key_status = get_or_none b.key_status;
  resolved_status = get_or_none b.resolved_status;
  receipt_key_status = get_or_none b.receipt_key_status;
}
ctx_get (message b) = record {
  ctx_ref = ok (str b.ctx_ref);
  fidelity = ok (str b.fidelity);
  classification = ok (str b.classification);
  lineage_id = optional_str b.lineage_id;
  version = ok (int (pos b.version));
  derived_from = items (map str b.derived_from);
  content_hash = optional_str b.content_hash;
  receipt_hash = optional_str b.receipt_hash;
  key_status = optional_str b.key_status;
  resolved_status = optional_str b.resolved_status;
  receipt_key_status = optional_str b.receipt_key_status;
}
ctx_get other_object = record {
  ctx_ref = err attribute_error;
  fidelity = err attribute_error;
  classification = err attribute_error;
  lineage_id = null;
  version = err attribute_error;
  derived_from = no_items;
  content_hash = null;
  receipt_hash = null;
  key_status = null;
  resolved_status = null;
  receipt_key_status = null;
}

unfoldable pub rd_items : List Value → Result (List Text)
rd_items [] = ok []
rd_items (v ∷ vs) = do s ← rd_text v; rest ← rd_items vs; ok (s ∷ rest)

unfoldable pub derived_texts : Items → Result (List Text)
unfolding rd_items
derived_texts no_items = ok []
derived_texts not_iterable = err type_error
derived_texts (items vs) = rd_items vs

-- What the checks make of a binding.
pub record Row : Type 0 where
  pub ctx_ref : Text
  pub fidelity : Text
  pub classification : Text
  pub lineage : Option Text
  pub version : ℕ
  pub derived : List Text
  pub content_hash : Option Text
  pub receipt_hash : Option Text
  pub key_status : Option Text
  pub resolved_status : Option Text
  pub receipt_key_status : Option Text

-- `receipt_key_status in RECEIPT_KEY_STATUSES`.
unfoldable pub is_receipt_key_status : Text → Bool
is_receipt_key_status s = bytes_eq s (codes "Current") || bytes_eq s (codes "Historical")

-- The two refusals: a status is there exactly when a receipt is, and is of the closed vocabulary.
unfoldable pub check_receipt : ℕ → Option Text → Option Text → Result (Unit {0})
unfolding is_receipt_key_status
check_receipt i none none = ok _
check_receipt i (some receipt) (some status) =
    raise_unless (is_receipt_key_status status) (context_provenance i)
check_receipt i _ _ = err (context_provenance i)

unfoldable pub row_of : Slots → Result Row
row_of b = do
  ctx_ref ← b.ctx_ref >>= rd_text
  fidelity ← b.fidelity >>= rd_text
  classification ← b.classification >>= rd_text
  lineage ← rd_opt b.lineage_id
  version ← b.version >>= λ v. uint_slot v 32
  derived ← derived_texts b.derived_from
  content_hash ← rd_opt b.content_hash
  receipt_hash ← rd_opt b.receipt_hash
  key_status ← rd_opt b.key_status
  resolved_status ← rd_opt b.resolved_status
  receipt_key_status ← rd_opt b.receipt_key_status
  ok (record {
    ctx_ref = ctx_ref;
    fidelity = fidelity;
    classification = classification;
    lineage = lineage;
    version = version;
    derived = derived;
    content_hash = content_hash;
    receipt_hash = receipt_hash;
    key_status = key_status;
    resolved_status = resolved_status;
    receipt_key_status = receipt_key_status;
  })

-- The rows of the bindings from the position `i` on.
unfoldable pub rows_from : ℕ → List ContextBinding → Result (List Row)
unfolding ctx_get row_of check_receipt
rows_from i [] = ok []
rows_from i (b ∷ bs) = do
  row ← row_of (ctx_get b)
  check_receipt i row.receipt_hash row.receipt_key_status
  rest ← rows_from (suc i) bs
  ok (row ∷ rest)

unfoldable pub row_head : Row → List Slot
row_head r =
    text r.ctx_ref
    ∷ text r.fidelity
    ∷ text r.classification
    ∷ opt_text r.lineage
    ∷ packed 4 r.version
    ∷ count (length r.derived)
    ∷ []

unfoldable pub row_tail : Row → List Slot
row_tail r =
    opt_text r.content_hash
    ∷ opt_text r.receipt_hash
    ∷ opt_text r.key_status
    ∷ opt_text r.resolved_status
    ∷ opt_text r.receipt_key_status
    ∷ []

unfoldable pub row_slots : Row → List Slot
unfolding row_head row_tail
row_slots r = row_head r ++ (map text r.derived ++ row_tail r)

unfoldable pub rows_slots : List Row → List Slot
unfolding row_slots
rows_slots [] = []
rows_slots (r ∷ rs) = row_slots r ++ rows_slots rs

unfoldable pub context_slots : List Row → List Slot
unfolding rows_slots
context_slots rows = framed context_domain ∷ count (length rows) ∷ rows_slots rows

-- The argument: a `str`, `bytes` or `dict`, or a list of bindings.
pub data Bindings : Type 0 where
  single : Bindings
  listed : List ContextBinding → Bindings

unfoldable pub context_rows : Bindings → Result (List Row)
unfolding rows_from
context_rows single = err type_error
context_rows (listed bindings) = rows_from 0 bindings

module _ (hash : Bytes → Bytes) where
  unfoldable pub context_digest_v4 : Bindings → Result Bytes
  unfolding context_rows context_slots
  context_digest_v4 bindings = do
    rows ← context_rows bindings
    pre ← join (context_slots rows)
    ok (hash pre)
