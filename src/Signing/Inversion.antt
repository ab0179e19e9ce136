-- ===== src/Signing/Inversion.antt =====
-- What a payload that was built is made of.
use seam_sdk.Prelude.{ℕ, ◌≡◌, ◌∙◌, List, [], ◌∷◌, ◌++◌, Result, ok, ◌>>=◌, >>=-eq-ok}
use mathlib.Core.List.{append_assoc}
use seam_sdk.Bytes.{Bytes, Text, encode}
use seam_sdk.Checks.{Value, int, uint_slot}
use seam_sdk.Checks.Refusals.{uint_slot_cases}
use seam_sdk.Prelude.Int.{pos}
use seam_sdk.Order.{sort, pair_leb}
use seam_sdk.Wire.{Slot, framed, text, packed, write, join}
use seam_sdk.Signing.{
  CallFields, encode_pairs, v3_slots, call_sig_v3_payload, enroll_pop_payload,
  enroll_pop_v1_context,
}

-- Three texts encoded in turn, and a payload over their bytes.
pub three_texts :
    (x y z : Text) (f : Bytes → Bytes → Bytes → Result Bytes) {b : Bytes}
    → (encode x >>= λ x'. encode y >>= λ y'. encode z >>= λ z'. f x' y' z') ≡ ok b
    → (x' : Bytes) × (y' : Bytes) × (z' : Bytes) × (encode x ≡ ok x')
      × (encode y ≡ ok y')
      × (encode z ≡ ok z')
      × (f x' y' z' ≡ ok b)
three_texts x y z f h =
    let (x', hx, h') =
      >>=-eq-ok (encode x) (λ x'. encode y >>= λ y'. encode z >>= λ z'. f x' y' z') h in
    let (y', hy, h'') = >>=-eq-ok (encode y) (λ y'. encode z >>= λ z'. f x' y' z') h' in
    let (z', hz, e) = >>=-eq-ok (encode z) (λ z'. f x' y' z') h'' in (x', y', z', hx, hy, hz, e)

pub v3_items :
    (ticket : Bytes) (c : CallFields) (b : Bytes)
    → call_sig_v3_payload ticket c ≡ ok b
    → (items : List (Bytes × Bytes)) × (encode_pairs c.features ≡ ok items)
      × (join (v3_slots ticket c (sort pair_leb items)) ≡ ok b)
unfolding call_sig_v3_payload
v3_items ticket c b h =
    >>=-eq-ok (encode_pairs c.features) (λ items. join (v3_slots ticket c (sort pair_leb items))) h

pub join-join :
    (xs ys : List Slot) (a b : Bytes)
    → join xs ≡ ok a
    → join ys ≡ ok b
    → join (xs ++ ys) ≡ ok (a ++ b)
unfolding join
join-join [] ys a b h k = cc
join-join (x ∷ xs) ys a b h k =
    let (p, hp, h') = >>=-eq-ok (write x) (λ p. join xs >>= λ q. ok (p ++ q)) h in
    let (q, hq, e) = >>=-eq-ok (join xs) (λ q. ok (p ++ q)) h' in
    let rest : join (xs ++ ys) ≡ ok (q ++ b) = join-join xs ys q b hq k in
    rw (hp, rest) (cc (e, append_assoc p q b))

abbrev pub enroll_slots : Text → Text → Text → ℕ → Text → List Slot
enroll_slots subject_aid tenant namespace issued nonce =
    framed enroll_pop_v1_context
    ∷ text subject_aid
    ∷ text tenant
    ∷ text namespace
    ∷ packed 8 issued
    ∷ text nonce
    ∷ []

pub enroll_parts :
    (aid tenant namespace : Text) (issued : Value) (nonce : Text) (b : Bytes)
    → enroll_pop_payload aid tenant namespace issued nonce ≡ ok b
    → (n : ℕ) × (issued ≡ int (pos n)) × (join (enroll_slots aid tenant namespace n nonce) ≡ ok b)
unfolding enroll_pop_payload
enroll_parts aid tenant namespace issued nonce b h =
    let head : List Slot =
      framed enroll_pop_v1_context ∷ text aid ∷ text tenant ∷ text namespace ∷ [] in
    let (a, ha, h') =
      >>=-eq-ok (join head)
        (λ head. uint_slot issued 64 >>= λ n.
          join (packed 8 n ∷ text nonce ∷ []) >>= λ rest. ok (head ++ rest))
        h in
    let (n, hn, h'') =
      >>=-eq-ok (uint_slot issued 64)
        (λ n. join (packed 8 n ∷ text nonce ∷ []) >>= λ rest. ok (a ++ rest)) h' in
    let (r, hr, e) = >>=-eq-ok (join (packed 8 n ∷ text nonce ∷ [])) (λ rest. ok (a ++ rest)) h'' in
    (
      n,
      (uint_slot_cases issued 64 n hn).0,
      join-join head (packed 8 n ∷ text nonce ∷ []) a r ha hr ∙ e,
    )
