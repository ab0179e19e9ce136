-- ===== src/Wire/Prefix.antt =====
-- Two writings in one framing at the front of a byte string.
use seam_sdk.Prelude.{
  ℕ, ◌≡◌, refl, sym, ap, ◌∙◌, Option, none, some, [], ◌∷◌, ◌++◌, length, append-cancel, arith,
  Result, ok, ◌>>=◌, >>=-eq-ok,
}
use mathlib.Core.List.{append_assoc}
use seam_sdk.Bytes.{Bytes, Text, encode, pack_le, to_bytes_big}
use seam_sdk.Bytes.Utf8.{encode-injective}
use seam_sdk.Bytes.Pack.{
  length-pack_le, pack_le-injective, length-to_bytes_big, to_bytes_big-injective,
}
use seam_sdk.Wire.{
  frame, frame_text, frame_int, opt_bytes, rd_opt_text, be64_frame, be64_text, be64_opt_text,
  opt_double,
}

module _ (w : ℕ) (a b : ℕ) (p q r s : Bytes) where
  pub pack_le-cancel : pack_le w a ≡ ok p → pack_le w b ≡ ok q → p ++ r ≡ q ++ s → (a ≡ b) × (r ≡ s)
  pack_le-cancel h k e =
      let (x, y) =
        append-cancel p q r s (length-pack_le w a p h ∙ sym (length-pack_le w b q k)) e in
      (pack_le-injective w a b q (h ∙ ap ok x) k, y)

  pub to_bytes_big-cancel :
      to_bytes_big w a ≡ ok p → to_bytes_big w b ≡ ok q → p ++ r ≡ q ++ s → (a ≡ b) × (r ≡ s)
  to_bytes_big-cancel h k e =
      let (x, y) =
        append-cancel p q r s (length-to_bytes_big w a p h ∙ sym (length-to_bytes_big w b q k)) e in
      (to_bytes_big-injective w a b q (h ∙ ap ok x) k, y)

module _ (x y p q r s : Bytes) where
  pub frame-cancel : frame x ≡ ok p → frame y ≡ ok q → p ++ r ≡ q ++ s → (x ≡ y) × (r ≡ s)
  unfolding frame
  frame-cancel h k e =
      let (n, hn, hp) = >>=-eq-ok (pack_le 4 (length x)) (λ n. ok (n ++ x)) h in
      let (m, hm, hq) = >>=-eq-ok (pack_le 4 (length y)) (λ n. ok (n ++ y)) k in
      let e' : n ++ (x ++ r) ≡ m ++ (y ++ s) =
        cc (e, hp, hq, append_assoc n x r, append_assoc m y s) in
      let (l, t) = pack_le-cancel 4 (length x) (length y) n m (x ++ r) (y ++ s) hn hm e' in
      append-cancel x y r s l t

  pub be64_frame-cancel :
      be64_frame x ≡ ok p → be64_frame y ≡ ok q → p ++ r ≡ q ++ s → (x ≡ y) × (r ≡ s)
  unfolding be64_frame
  be64_frame-cancel h k e =
      let (n, hn, hp) = >>=-eq-ok (to_bytes_big 8 (length x)) (λ n. ok (n ++ x)) h in
      let (m, hm, hq) = >>=-eq-ok (to_bytes_big 8 (length y)) (λ n. ok (n ++ y)) k in
      let e' : n ++ (x ++ r) ≡ m ++ (y ++ s) =
        cc (e, hp, hq, append_assoc n x r, append_assoc m y s) in
      let (l, t) = to_bytes_big-cancel 8 (length x) (length y) n m (x ++ r) (y ++ s) hn hm e' in
      append-cancel x y r s l t

-- A conversion that loses nothing, before a prefix-free writing.
module _ {A : Type 0} (e : A → Result Bytes) (f : Bytes → Result Bytes)
    (injective : (x y : A) (b : Bytes) → e x ≡ ok b → e y ≡ ok b → x ≡ y)
    (cancel : (x y p q r s : Bytes) → f x ≡ ok p → f y ≡ ok q → p ++ r ≡ q ++ s → (x ≡ y) × (r ≡ s))
    (x y : A) (p q r s : Bytes) where
  then-cancel : (e x >>= f) ≡ ok p → (e y >>= f) ≡ ok q → p ++ r ≡ q ++ s → (x ≡ y) × (r ≡ s)
  then-cancel h k w =
      let (b, hb, hp) = >>=-eq-ok (e x) f h in
      let (c, hc, hq) = >>=-eq-ok (e y) f k in
      let (u, v) = cancel b c p q r s hp hq w in (injective x y c (hb ∙ ap ok u) hc, v)

pub frame_text-cancel :
    (x y : Text) (p q r s : Bytes)
    → frame_text x ≡ ok p
    → frame_text y ≡ ok q
    → p ++ r ≡ q ++ s
    → (x ≡ y) × (r ≡ s)
unfolding frame_text
frame_text-cancel = then-cancel encode frame encode-injective frame-cancel

pub be64_text-cancel :
    (x y : Text) (p q r s : Bytes)
    → be64_text x ≡ ok p
    → be64_text y ≡ ok q
    → p ++ r ≡ q ++ s
    → (x ≡ y) × (r ≡ s)
unfolding be64_text
be64_text-cancel = then-cancel encode be64_frame encode-injective be64_frame-cancel

pub frame_int-cancel :
    (w n m : ℕ) (p q r s : Bytes)
    → frame_int w n ≡ ok p
    → frame_int w m ≡ ok q
    → p ++ r ≡ q ++ s
    → (n ≡ m) × (r ≡ s)
unfolding frame_int
frame_int-cancel w = then-cancel (pack_le w) frame (pack_le-injective w) frame-cancel

-- A presence byte in front of a prefix-free writing of the value.
module _ {A : Type 0} (f : A → Result Bytes)
    (cancel : (x y : A) (p q r s : Bytes)
      → f x ≡ ok p
      → f y ≡ ok q
      → p ++ r ≡ q ++ s
      → (x ≡ y) × (r ≡ s)) where
  abbrev present : Option A → Result Bytes
  present none = ok (0 ∷ [])
  present (some x) = do b ← f x; ok (1 ∷ b)

  present-cancel :
      (x y : Option A) (p q r s : Bytes)
      → present x ≡ ok p
      → present y ≡ ok q
      → p ++ r ≡ q ++ s
      → (x ≡ y) × (r ≡ s)
  present-cancel none none p q r s h k e = ground arith
  present-cancel none (some y) p q r s h k e =
      let (b, hb, hq) = >>=-eq-ok (f y) (λ b. ok (1 ∷ b)) k in ground arith
  present-cancel (some x) none p q r s h k e =
      let (b, hb, hp) = >>=-eq-ok (f x) (λ b. ok (1 ∷ b)) h in ground arith
  present-cancel (some x) (some y) p q r s h k e =
      let (b, hb, hp) = >>=-eq-ok (f x) (λ b. ok (1 ∷ b)) h in
      let (c, hc, hq) = >>=-eq-ok (f y) (λ b. ok (1 ∷ b)) k in
      let e' : b ++ r ≡ c ++ s = ground arith in
      let (u, v) = cancel x y b c r s hb hc e' in (ap some u, v)

pub opt_bytes-cancel :
    (x y : Option Bytes) (p q r s : Bytes)
    → opt_bytes x ≡ ok p
    → opt_bytes y ≡ ok q
    → p ++ r ≡ q ++ s
    → (x ≡ y) × (r ≡ s)
unfolding opt_bytes
opt_bytes-cancel x y p q r s h k e =
    present-cancel frame frame-cancel x y p q r s (sym (same x) ∙ h) (sym (same y) ∙ k) e
  where
    same : (o : Option Bytes) → opt_bytes o ≡ present frame frame-cancel o
    same none = refl
    same (some b) = refl

pub rd_opt_text-cancel :
    (x y : Option Text) (p q r s : Bytes)
    → rd_opt_text x ≡ ok p
    → rd_opt_text y ≡ ok q
    → p ++ r ≡ q ++ s
    → (x ≡ y) × (r ≡ s)
unfolding rd_opt_text
rd_opt_text-cancel x y p q r s h k e =
    present-cancel frame_text frame_text-cancel x y p q r s (sym (same x) ∙ h) (sym (same y) ∙ k) e
  where
    same : (o : Option Text) → rd_opt_text o ≡ present frame_text frame_text-cancel o
    same none = refl
    same (some b) = refl

pub be64_opt_text-cancel :
    (x y : Option Text) (p q r s : Bytes)
    → be64_opt_text x ≡ ok p
    → be64_opt_text y ≡ ok q
    → p ++ r ≡ q ++ s
    → (x ≡ y) × (r ≡ s)
unfolding be64_opt_text
be64_opt_text-cancel x y p q r s h k e =
    present-cancel be64_text be64_text-cancel x y p q r s (sym (same x) ∙ h) (sym (same y) ∙ k) e
  where
    same : (o : Option Text) → be64_opt_text o ≡ present be64_text be64_text-cancel o
    same none = refl
    same (some b) = refl

pub opt_double-cancel :
    (x y : Option ℕ) (p q r s : Bytes)
    → opt_double x ≡ ok p
    → opt_double y ≡ ok q
    → p ++ r ≡ q ++ s
    → (x ≡ y) × (r ≡ s)
unfolding opt_double
opt_double-cancel x y p q r s h k e =
    present-cancel (to_bytes_big 8) (to_bytes_big-cancel 8) x y p q r s (sym (same x) ∙ h)
      (sym (same y) ∙ k) e
  where
    same : (o : Option ℕ) → opt_double o ≡ present (to_bytes_big 8) (to_bytes_big-cancel 8) o
    same none = refl
    same (some b) = refl
