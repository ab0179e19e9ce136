-- ===== src/Context/Binding.antt =====
-- What the context digest binds, and the rows that it is computed for.
use seam_sdk.Prelude.{
  ℕ, suc, ◌≡◌, refl, sym, ap, ◌∙◌, ◌⊎◌, inl, inr, Option, none, some, List, [], ◌∷◌, ◌++◌, map,
  length, All, true, ok, arith, after_bind, ok_injective, Bool, false, subst, raise_unless,
  context_provenance, >>=-eq-ok,
}
use mathlib.Core.List.{append_assoc}
use seam_sdk.Bytes.{Bytes, Text}
use seam_sdk.Hash.{Collision, same_or_Collision}
use seam_sdk.Wire.{Slot, text, join}
use seam_sdk.Wire.Cancel.{kind, join-append}
use seam_sdk.Context.{
  ContextBinding, ctx_get, Row, is_receipt_key_status, check_receipt, row_of, rows_from, row_head,
  row_tail, row_slots, rows_slots, context_domain, context_slots, Bindings, single, listed,
  context_rows, context_digest_v4,
}
use seam_sdk.Wire.{framed, count}

-- A status is there exactly when a receipt is, and is one of the two.
pub data IsPaired : Option Text → Option Text → Type 0 where
  unreceipted : IsPaired none none
  receipted :
      (receipt status : Text)
      → is_receipt_key_status status ≡ true
      → IsPaired (some receipt) (some status)

abbrev pub RowIsPaired : Row → Type 0
RowIsPaired r = IsPaired r.receipt_hash r.receipt_key_status

check_receipt-IsPaired :
    (i : ℕ) (receipt status : Option Text)
    → check_receipt i receipt status ≡ ok tt
    → IsPaired receipt status
unfolding check_receipt
check_receipt-IsPaired i none none h = unreceipted
check_receipt-IsPaired i (some r) (some s) h = receipted r s (go (is_receipt_key_status s) h)
  where
    go : (b : Bool) → raise_unless b (context_provenance i) ≡ ok tt → b ≡ true
    go true h = refl
    go false h = cc
check_receipt-IsPaired i none (some s) h = cc
check_receipt-IsPaired i (some r) none h = cc

rows_from-All :
    (i : ℕ) (bs : List ContextBinding) (rows : List Row)
    → rows_from i bs ≡ ok rows
    → All RowIsPaired rows
unfolding rows_from
rows_from-All i [] [] h = _
rows_from-All i [] (r ∷ rows) h = cc
rows_from-All i (b ∷ bs) rows h0 = after_bind (row_of (ctx_get b)) _ h0 λ row h1 r1.
    after_bind (check_receipt i row.receipt_hash row.receipt_key_status) _ r1 λ done h2 r2.
      after_bind (rows_from (suc i) bs) _ r2 λ rest h3 r3.
        subst (All RowIsPaired) (ok_injective r3) (
          check_receipt-IsPaired i row.receipt_hash row.receipt_key_status h2,
          rows_from-All (suc i) bs rest h3,
        )

row_head-injective : (r s : Row) → row_head r ≡ row_head s → length r.derived ≡ length s.derived
unfolding row_head
row_head-injective r s e = cc

map-text-injective : (xs ys : List Text) → map text xs ≡ map text ys → xs ≡ ys
map-text-injective [] [] e = refl
map-text-injective [] (y ∷ ys) e = cc
map-text-injective (x ∷ xs) [] e = cc
map-text-injective (x ∷ xs) (y ∷ ys) e = let same = map-text-injective xs ys (cc) in cc

text-kinds :
    (xs ys : List Text) → length xs ≡ length ys → map kind (map text xs) ≡ map kind (map text ys)
text-kinds [] [] n = refl
text-kinds [] (y ∷ ys) n = cc
text-kinds (x ∷ xs) [] n = cc
text-kinds (x ∷ xs) (y ∷ ys) n = ap (λ t. kind (text x) ∷ t) (text-kinds xs ys (omega (arith, n)))

row_head-kinds : (r s : Row) → map kind (row_head r) ≡ map kind (row_head s)
unfolding row_head
row_head-kinds r s = refl

row_tail-kinds : (r s : Row) → map kind (row_tail r) ≡ map kind (row_tail s)
unfolding row_tail
row_tail-kinds r s = refl

row-injective :
    (r s : Row) → row_head r ≡ row_head s → r.derived ≡ s.derived → row_tail r ≡ row_tail s → r ≡ s
unfolding row_head row_tail
row-injective r s e f g = cc

rows-injective :
    (rs ss : List Row) (b : Bytes)
    → length rs ≡ length ss
    → join (rows_slots rs) ≡ ok b
    → join (rows_slots ss) ≡ ok b
    → rs ≡ ss
unfolding rows_slots row_slots
rows-injective [] [] b n h k = refl
rows-injective [] (s ∷ ss) b n h k = cc
rows-injective (r ∷ rs) [] b n h k = cc
rows-injective (r ∷ rs) (s ∷ ss) b n h k =
    let after_head : Row → List Row → List Slot =
      λ r rs. (map text r.derived ++ row_tail r) ++ rows_slots rs in
    let (heads, c, h1, k1) =
      join-append (row_head r) (row_head s) (after_head r rs) (after_head s ss) b
        (row_head-kinds r s) (rw append_assoc at h) (rw append_assoc at k) in
    let lengths = row_head-injective r s heads in
    let (texts, d, h2, k2) =
      join-append (map text r.derived) (map text s.derived) (row_tail r ++ rows_slots rs)
        (row_tail s ++ rows_slots ss) c (text-kinds r.derived s.derived lengths)
        (rw append_assoc at h1) (rw append_assoc at k1) in
    let (tails, e, h3, k3) =
      join-append (row_tail r) (row_tail s) (rows_slots rs) (rows_slots ss) d (row_tail-kinds r s)
        h2 k2 in
    let derived = map-text-injective r.derived s.derived texts in
    let first : r ≡ s = row-injective r s heads derived tails in
    let rest : rs ≡ ss = rows-injective rs ss e (omega (arith, n)) h3 k3 in cc

context_slots-injective :
    (rs ss : List Row) (b : Bytes)
    → join (context_slots rs) ≡ ok b
    → join (context_slots ss) ≡ ok b
    → rs ≡ ss
unfolding context_slots
context_slots-injective rs ss b h k =
    let head : List Row → List Slot = λ rs. framed context_domain ∷ count (length rs) ∷ [] in
    let (heads, c, h', k') =
      join-append (head rs) (head ss) (rows_slots rs) (rows_slots ss) b refl h k in
    rows-injective rs ss c (counted heads) h' k'
  where
    counted :
        ◌≡◌ {A = List Slot}
          (framed context_domain ∷ count (length rs) ∷ [])
          (framed context_domain ∷ count (length ss) ∷ [])
        → length rs ≡ length ss
    counted e = cc

context_rows-All :
    (bs : Bindings) (rows : List Row) → context_rows bs ≡ ok rows → All RowIsPaired rows
unfolding context_rows
context_rows-All single rows h = cc
context_rows-All (listed bs) rows h = rows_from-All 0 bs rows h

-- Two lists of bindings with one digest have the same rows, and each row is paired; or the hash has a
-- collision.
pub context_digest_v4_binds :
    (hash : Bytes → Bytes) (bs cs : Bindings) (d : Bytes)
    → context_digest_v4 hash bs ≡ ok d
    → context_digest_v4 hash cs ≡ ok d
    → ((rows : List Row) × (context_rows bs ≡ ok rows)
        × (context_rows cs ≡ ok rows)
        × All RowIsPaired rows)
      ⊎ Collision hash
unfolding context_digest_v4
context_digest_v4_binds hash bs cs d h k =
    let (rs, hr, h1) = >>=-eq-ok (context_rows bs) _ h in
    let (p, hp, h2) = >>=-eq-ok (join (context_slots rs)) _ h1 in
    let (ss, kr, k1) = >>=-eq-ok (context_rows cs) _ k in
    let (q, kq, k2) = >>=-eq-ok (join (context_slots ss)) _ k1 in
    let same : hash p ≡ hash q = cc in
    elim (same_or_Collision hash p q same) [
      | inr x ↦ inr x
      | inl e ↦
          let rows : rs ≡ ss = context_slots-injective rs ss q (hp ∙ ap ok e) kq in
          inl (rs, hr, kr ∙ ap ok (sym rows), context_rows-All bs rs hr)
    ]
