-- ===== src/Wire/Cancel.antt =====
-- Two joined preimages, slot by slot.
use seam_sdk.Prelude.{ℕ, ◌≡◌, refl, sym, ap, ◌∙◌, List, [], ◌∷◌, ◌++◌, map, ok, ◌>>=◌, >>=-eq-ok}
use seam_sdk.Bytes.{Bytes}
use seam_sdk.Wire.{
  Slot, framed, text, packed, optional, opt_text, count, be_framed, be_text, be_opt_text, be_count,
  double, write, join,
}
use seam_sdk.Wire.Prefix.{
  pack_le-cancel, to_bytes_big-cancel, frame-cancel, be64_frame-cancel, frame_text-cancel,
  be64_text-cancel, frame_int-cancel, opt_bytes-cancel, rd_opt_text-cancel, be64_opt_text-cancel,
  opt_double-cancel,
}

-- The framing that a slot is written in; its content is left out.
pub data Kind : Type 0 where
  framed_kind : Kind
  text_kind : Kind
  packed_kind : ℕ → Kind
  optional_kind : Kind
  opt_text_kind : Kind
  count_kind : Kind
  be_framed_kind : Kind
  be_text_kind : Kind
  be_opt_text_kind : Kind
  be_count_kind : Kind
  double_kind : Kind

abbrev pub kind : Slot → Kind
kind (framed _) = framed_kind
kind (text _) = text_kind
kind (packed w n) = packed_kind w
kind (optional _) = optional_kind
kind (opt_text _) = opt_text_kind
kind (count _) = count_kind
kind (be_framed _) = be_framed_kind
kind (be_text _) = be_text_kind
kind (be_opt_text _) = be_opt_text_kind
kind (be_count _) = be_count_kind
kind (double _) = double_kind

pub write-cancel :
    (x y : Slot) (p q r s : Bytes)
    → kind x ≡ kind y
    → write x ≡ ok p
    → write y ≡ ok q
    → p ++ r ≡ q ++ s
    → (x ≡ y) × (r ≡ s)
unfolding write
write-cancel (framed a) (framed b) p q r s g h k e =
    let (i, j) = frame-cancel a b p q r s h k e in (ap framed i, j)
write-cancel (text a) (text b) p q r s g h k e =
    let (i, j) = frame_text-cancel a b p q r s h k e in (ap text i, j)
write-cancel (packed w a) (packed v b) p q r s g h k e =
    let g' : v ≡ w = cc in let (i, j) = frame_int-cancel w a b p q r s h (rw g' at k) e in (cc, j)
write-cancel (optional a) (optional b) p q r s g h k e =
    let (i, j) = opt_bytes-cancel a b p q r s h k e in (ap optional i, j)
write-cancel (opt_text a) (opt_text b) p q r s g h k e =
    let (i, j) = rd_opt_text-cancel a b p q r s h k e in (ap opt_text i, j)
write-cancel (count a) (count b) p q r s g h k e =
    let (i, j) = pack_le-cancel 4 a b p q r s h k e in (ap count i, j)
write-cancel (be_framed a) (be_framed b) p q r s g h k e =
    let (i, j) = be64_frame-cancel a b p q r s h k e in (ap be_framed i, j)
write-cancel (be_text a) (be_text b) p q r s g h k e =
    let (i, j) = be64_text-cancel a b p q r s h k e in (ap be_text i, j)
write-cancel (be_opt_text a) (be_opt_text b) p q r s g h k e =
    let (i, j) = be64_opt_text-cancel a b p q r s h k e in (ap be_opt_text i, j)
write-cancel (be_count a) (be_count b) p q r s g h k e =
    let (i, j) = to_bytes_big-cancel 8 a b p q r s h k e in (ap be_count i, j)
write-cancel (double a) (double b) p q r s g h k e =
    let (i, j) = opt_double-cancel a b p q r s h k e in (ap double i, j)
write-cancel _ _ p q r s g h k e = cc

join_cons :
    (s : Slot) (rest : List Slot) (b : Bytes)
    → join (s ∷ rest) ≡ ok b
    → (p : Bytes) × (q : Bytes) × (write s ≡ ok p) × (join rest ≡ ok q) × (b ≡ p ++ q)
unfolding join
join_cons s rest b h =
    let (p, hp, k) = >>=-eq-ok (write s) (λ p. join rest >>= λ q. ok (p ++ q)) h in
    let (q, hq, e) = >>=-eq-ok (join rest) (λ q. ok (p ++ q)) k in (p, q, hp, hq, cc)

-- One slot of each of two equal preimages.
pub join-cons :
    (x y : Slot) (xs ys : List Slot) (b : Bytes)
    → kind x ≡ kind y
    → join (x ∷ xs) ≡ ok b
    → join (y ∷ ys) ≡ ok b
    → (x ≡ y) × (c : Bytes) × (join xs ≡ ok c) × (join ys ≡ ok c)
join-cons x y xs ys b w h k =
    let (p, q, hp, hq, e) = join_cons x xs b h in
    let (p', q', hp', hq', e') = join_cons y ys b k in
    let (u, v) = write-cancel x y p p' q q' w hp hp' (sym e ∙ e') in (u, q, hq, hq' ∙ ap ok (sym v))

-- Slots of the same kinds that join to one byte string are the same slots.
pub join-injective :
    (xs ys : List Slot) (b : Bytes)
    → map kind xs ≡ map kind ys
    → join xs ≡ ok b
    → join ys ≡ ok b
    → xs ≡ ys
join-injective [] [] b w h k = refl
join-injective [] (y ∷ ys) b w h k = cc
join-injective (x ∷ xs) [] b w h k = cc
join-injective (x ∷ xs) (y ∷ ys) b w h k =
    let (u, c, h', k') = join-cons x y xs ys b (cc) h k in
    let v : xs ≡ ys = join-injective xs ys c (cc) h' k' in cc

-- The same for a run of slots at the front.
pub join-append :
    (xs ys us vs : List Slot) (b : Bytes)
    → map kind xs ≡ map kind ys
    → join (xs ++ us) ≡ ok b
    → join (ys ++ vs) ≡ ok b
    → (xs ≡ ys) × (c : Bytes) × (join us ≡ ok c) × (join vs ≡ ok c)
join-append [] [] us vs b w h k = (refl, b, h, k)
join-append [] (y ∷ ys) us vs b w h k = cc
join-append (x ∷ xs) [] us vs b w h k = cc
join-append (x ∷ xs) (y ∷ ys) us vs b w h k =
    let (u, c, h', k') = join-cons x y (xs ++ us) (ys ++ vs) b (cc) h k in
    let (v, d, h'', k'') = join-append xs ys us vs c (cc) h' k' in (cc, d, h'', k'')
