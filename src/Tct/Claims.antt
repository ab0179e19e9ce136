-- ===== src/Tct/Claims.antt =====
-- The claims of a header and a payload that pass the tests of `verify_tct`.
use seam_sdk.Prelude.{
  both_true, ◌≡◌, refl, ap, ◌∙◌, Bool, true, false, codes, some, Result, ok, Exn, ok_injective,
  after_bind, raise_unless, ◌>>=◌,
}
use seam_sdk.Prelude.Int.{ℤ, ltb_ℤ}
use seam_sdk.Bytes.{Text}
use seam_sdk.Json.{Json, string, array, no_items, item, get_claim, equals_text}
use seam_sdk.Tct.{attestation_grant, expiry, is_current, header_ok, self_issued, claims_ok}
use seam_sdk.Tct.Statements.{of_some, false-true, equals_text-eq, grants_only-eq}

-- What follows a test that must hold.
pub after_raise_unless {σ} :
    {Y : Type σ} (test : Bool) (exn : Exn) (rest : Result Y) {y : Y}
    → (raise_unless test exn >>= λ done. rest) ≡ ok y
    → (test ≡ true) × (rest ≡ ok y)
after_raise_unless true exn rest h = (refl, h)
after_raise_unless false exn rest h = cc

pub header_ok-eq :
    (header : Json)
    → header_ok header ≡ ok true
    → (get_claim header (codes "alg") ≡ ok (string (codes "EdDSA")))
      × (get_claim header (codes "typ") ≡ ok (string (codes "aitp-tct+jwt")))
unfolding header_ok
header_ok-eq header h = after_bind (get_claim header (codes "alg")) _ h λ alg e1 r1.
    after_bind (get_claim header (codes "typ")) _ r1 λ typ e2 r2.
      let (a, t) = both_true _ _ (ok_injective r2) in
      (e1 ∙ ap ok (equals_text-eq alg _ a), e2 ∙ ap ok (equals_text-eq typ _ t))

-- The claims of a payload that are the issuer's own, current, and of one grant.
pub record Claims (payload : Json) (issuer_aid : Text) (now : ℤ) : Type 0 where
  pub iss : get_claim payload (codes "iss") ≡ ok (string issuer_aid)
  pub sub : get_claim payload (codes "sub") ≡ ok (string issuer_aid)
  pub aud : get_claim payload (codes "aud") ≡ ok (string issuer_aid)
  pub exp : Json
  pub exp_claim : get_claim payload (codes "exp") ≡ ok exp
  pub expires : ℤ
  pub exp_number : expiry exp ≡ some expires
  pub unexpired : ltb_ℤ now expires ≡ true
  pub grants :
      get_claim payload (codes "grants") ≡ ok (array (item (string attestation_grant) no_items))

is_current-eq :
    (now : ℤ) (exp : Json)
    → is_current now exp ≡ true
    → (at : ℤ) × (expiry exp ≡ some at) × (ltb_ℤ now at ≡ true)
unfolding is_current
is_current-eq now exp h = of_some (expiry exp) false _ true false-true h

pub payload-Claims :
    (payload : Json) (issuer_aid : Text) (now : ℤ)
    → self_issued payload issuer_aid ≡ ok true
    → claims_ok payload now ≡ ok true
    → Claims payload issuer_aid now
unfolding self_issued claims_ok
payload-Claims payload issuer_aid now h k =
    after_bind (get_claim payload (codes "iss")) _ h λ iss e1 r1.
      after_bind (get_claim payload (codes "sub")) _ r1 λ sub e2 r2.
        after_bind (get_claim payload (codes "aud")) _ r2 λ aud e3 r3.
          after_bind (get_claim payload (codes "exp")) _ k λ exp e4 r4.
            after_bind (get_claim payload (codes "grants")) _ r4 λ grants e5 r5.
              let (front, a) = both_true _ (equals_text aud issuer_aid) (ok_injective r3) in
              let (i, s) = both_true (equals_text iss issuer_aid) _ front in
              let (c, g) = both_true (is_current now exp) _ (ok_injective r5) in
              let (at, number, later) = is_current-eq now exp c in
              record {
                iss = e1 ∙ ap ok (equals_text-eq iss _ i);
                sub = e2 ∙ ap ok (equals_text-eq sub _ s);
                aud = e3 ∙ ap ok (equals_text-eq aud _ a);
                exp = exp;
                exp_claim = e4;
                expires = at;
                exp_number = number;
                unexpired = later;
                grants = e5 ∙ ap ok (grants_only-eq grants g);
              }
