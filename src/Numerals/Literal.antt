-- ===== src/Numerals/Literal.antt =====
-- The characters of a written number.
use seam_sdk.Prelude.{
  ltb→lt, ℕ, zero, suc, ◌+◌, ◌-◌, ◌/◌, ◌%◌, ◌<◌, ◌≡◌, refl, sym, subst, Bool, true, false,
  both_true, and_true, all-append, [], ◌∷◌, ◌++◌, length, all, leb, ltb, ◌==◌, ◌&&◌, ◌||◌,
  if◌then◌else◌, either_branch, arith, ok, ok_injective,
}
use seam_sdk.Prelude.Int.{ℤ, pos, negsuc, ◌+ℤ◌}
use seam_sdk.Bytes.{Text}
use seam_sdk.Tct.{exponent_of, is_negative}
use seam_sdk.Decision.{decimal, digits}
use seam_sdk.Presentation.{take, drop}
use seam_sdk.Numerals.{
  significand, shortest, rstrip_zeros, or_zero, zeros, exponent_text, scientific, body, sign_of,
  magnitude_text, jcs_number, jcs_int,
}
use seam_sdk.Numerals.Reads.{jcs_int-itself}

-- `[0-9a-z+.-]`.
abbrev pub is_literal_char : ℕ → Bool
is_literal_char c =
    (leb b'0' c && leb c b'9') || (leb b'a' c && leb c b'z') || c == b'+' || c == b'-' || c == b'.'

abbrev pub is_literal : Text → Bool
is_literal [] = false
is_literal (c ∷ s) = is_literal_char c && all is_literal_char s

abbrev Chars : Text → Type 0
Chars s = all is_literal_char s ≡ true

-- A character among others makes a literal of them.
literal_around :
    (s : Text) (c : ℕ) (r : Text)
    → Chars s
    → is_literal_char c ≡ true
    → Chars r
    → is_literal (s ++ c ∷ r) ≡ true
literal_around [] c r h k l = and_true k l
literal_around (d ∷ s) c r h k l =
    let (a, b) = both_true (is_literal_char d) _ h in
    and_true a (all-append is_literal_char s (c ∷ r) b (and_true k l))

literal-append : (s r : Text) → is_literal s ≡ true → Chars r → is_literal (s ++ r) ≡ true
literal-append [] r h k = cc
literal-append (c ∷ s) r h k =
    let (a, b) = both_true (is_literal_char c) _ h in
    and_true a (all-append is_literal_char s r b k)

literal-Chars : (s : Text) → is_literal s ≡ true → Chars s
literal-Chars [] h = refl
literal-Chars (c ∷ s) h = h

digit_char : (n : ℕ) → n < 10 → is_literal_char (b'0' + n) ≡ true
digit_char n h = ground arith

-- One more step of the digits, from the step before.
digits-literal_step :
    (front : Text) (n : ℕ)
    → Chars front
    → is_literal
        (elim (ltb n 10) [ true ↦ (b'0' + n) ∷ [] | false ↦ front ++ (b'0' + n % 10) ∷ [] ])
      ≡ true
digits-literal_step front n h = by_size _ refl
  where
    by_size :
        (small : Bool)
        → ltb n 10 ≡ small
        → is_literal (elim small [ true ↦ (b'0' + n) ∷ [] | false ↦ front ++ (b'0' + n % 10) ∷ [] ])
          ≡ true
    by_size true e = and_true (digit_char n (ltb→lt n 10 e)) refl
    by_size false e = literal_around front _ [] h (digit_char (n % 10) (omega arith)) refl

digits-Chars : (fuel n : ℕ) → Chars (digits fuel n)
unfolding digits
digits-Chars zero n = refl
digits-Chars (suc fuel) n =
    literal-Chars (digits (suc fuel) n)
      (digits-literal_step (digits fuel (n / 10)) n (digits-Chars fuel (n / 10)))

digits-literal : (fuel n : ℕ) → is_literal (digits (suc fuel) n) ≡ true
unfolding digits
digits-literal fuel n = digits-literal_step (digits fuel (n / 10)) n (digits-Chars fuel (n / 10))

if_Chars : (t : Bool) (x y : Text) → Chars x → Chars y → Chars (if t then x else y)
if_Chars true x y h k = h
if_Chars false x y h k = k

if_literal :
    (t : Bool) (x y : Text)
    → is_literal x ≡ true
    → is_literal y ≡ true
    → is_literal (if t then x else y) ≡ true
if_literal true x y h k = h
if_literal false x y h k = k

pub decimal-literal : (z : ℤ) → is_literal (decimal z) ≡ true
unfolding decimal
decimal-literal (pos n) = digits-literal n n
decimal-literal (negsuc n) = digits-Chars (suc (suc n)) (suc n)

rstrip-Chars : (s : Text) → Chars s → Chars (rstrip_zeros s)
unfolding rstrip_zeros
rstrip-Chars [] h = refl
rstrip-Chars (c ∷ s) h =
    let (a, b) = both_true (is_literal_char c) _ h in kept (rstrip_zeros s) a (rstrip-Chars s b)
  where
    kept :
        (t : Text)
        → is_literal_char c ≡ true
        → Chars t
        → Chars (elim t [ [] ↦ if c == b'0' then [] else c ∷ [] | d ∷ u ↦ c ∷ d ∷ u ])
    kept [] a b = if_Chars (c == b'0') [] (c ∷ []) refl (and_true a refl)
    kept (d ∷ u) a b = and_true a b

or_zero-literal : (s : Text) → Chars s → is_literal (or_zero s) ≡ true
unfolding or_zero
or_zero-literal [] h = refl
or_zero-literal (c ∷ s) h = h

zeros-Chars : (n : ℕ) → Chars (zeros n)
unfolding zeros
zeros-Chars zero = refl
zeros-Chars (suc n) = zeros-Chars n

take-Chars : (n : ℕ) (s : Text) → Chars s → Chars (take n s)
unfolding take
take-Chars zero s h = refl
take-Chars (suc n) [] h = refl
take-Chars (suc n) (c ∷ s) h =
    let (a, b) = both_true (is_literal_char c) _ h in and_true a (take-Chars n s b)

drop-Chars : (n : ℕ) (s : Text) → Chars s → Chars (drop n s)
unfolding drop
drop-Chars zero s h = h
drop-Chars (suc n) [] h = refl
drop-Chars (suc n) (c ∷ s) h = drop-Chars n s (both_true (is_literal_char c) _ h).1

exponent-Chars : (z : ℤ) → Chars (exponent_text z)
unfolding exponent_text
exponent-Chars (pos e) = literal-Chars (decimal (pos e)) (decimal-literal (pos e))
exponent-Chars (negsuc e) = literal-Chars (decimal (pos (suc e))) (decimal-literal (pos (suc e)))

parts-literal :
    (mantissa fraction e : Text)
    → Chars mantissa
    → Chars fraction
    → Chars e
    → is_literal (mantissa ++ fraction ++ b'e' ∷ e) ≡ true
parts-literal mantissa fraction e h k l =
    literal_around (mantissa ++ fraction) b'e' e (all-append is_literal_char mantissa fraction h k)
      refl l

scientific-literal : (s : Text) (n : ℤ) → Chars s → is_literal (scientific s n) ≡ true
unfolding scientific
scientific-literal s n h =
    parts-literal (take 1 s) _ (exponent_text (n +ℤ negsuc 0)) (take-Chars 1 s h)
      (if_Chars (ltb 1 (length s)) (b'.' ∷ drop 1 s) [] (drop-Chars 1 s h) refl)
      (exponent-Chars (n +ℤ negsuc 0))

body-literal : (s : Text) (n : ℤ) → is_literal s ≡ true → is_literal (body s n) ≡ true
unfolding body
body-literal s (pos n) h =
    let chars : Chars s = literal-Chars s h in
    if_literal (leb (length s) n && leb n 21) _ _
      (literal-append s (zeros (n - length s)) h (zeros-Chars (n - length s)))
      (if_literal (ltb 0 n && leb n 21) _ _
        (literal_around (take n s) b'.' (drop n s) (take-Chars n s chars) refl
          (drop-Chars n s chars))
        (if_literal (n == 0) _ _ chars (scientific-literal s (pos n) chars)))
body-literal s (negsuc n) h =
    let chars : Chars s = literal-Chars s h in
    if_literal (ltb n 5) _ _
      (all-append is_literal_char (zeros (suc n)) s (zeros-Chars (suc n)) chars)
      (scientific-literal s (negsuc n) chars)

magnitude-literal : (p : ℕ × ℤ) → is_literal (magnitude_text p) ≡ true
unfolding magnitude_text
magnitude-literal (c, q) =
    body-literal (or_zero (rstrip_zeros (decimal (pos c))))
      (pos (length (or_zero (rstrip_zeros (decimal (pos c)))))
        +ℤ (q
            +ℤ pos (length (decimal (pos c)) - length (or_zero (rstrip_zeros (decimal (pos c)))))))
      (or_zero-literal (rstrip_zeros (decimal (pos c))) (
        rstrip-Chars (decimal (pos c)) (literal-Chars (decimal (pos c)) (decimal-literal (pos c)))))

signed-literal : (bits : ℕ) (t : Text) → is_literal t ≡ true → is_literal (sign_of bits ++ t) ≡ true
unfolding sign_of
signed-literal bits t h = by_sign (is_negative bits)
  where
    by_sign : (b : Bool) → is_literal ((if b then b'-' ∷ [] else []) ++ t) ≡ true
    by_sign true = literal-Chars t h
    by_sign false = h

pub jcs_number-literal : (bits : ℕ) (t : Text) → jcs_number bits ≡ ok t → is_literal t ≡ true
unfolding jcs_number
jcs_number-literal bits t h =
    either_branch (exponent_of bits == 2047) h (λ e. cc)
      (λ e.
        either_branch (significand bits == 0) e
          (λ f. subst (λ t. is_literal t ≡ true) (ok_injective f) refl)
          (λ f.
            subst (λ t. is_literal t ≡ true) (ok_injective f)
              (signed-literal bits (magnitude_text (shortest bits))
                (magnitude-literal (shortest bits)))))

pub jcs_int-literal : (z : ℤ) (t : Text) → jcs_int z ≡ ok t → is_literal t ≡ true
jcs_int-literal z t h =
    subst (λ t. is_literal t ≡ true) (sym (jcs_int-itself z t h)) (decimal-literal z)
