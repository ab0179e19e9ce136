-- ===== src/Ids/Sessions.antt =====
-- What an accepted session id looks like.
use seam_sdk.Prelude.{
  ℕ, zero, suc, ◌≤◌, ◌≡◌, refl, ap, ◌∙◌, sym, List, [], ◌∷◌, length, all, ltb, leb, ◌&&◌, Bool,
  Bool-cases, true, false, inl, inr, arith, none, some, ok, Result-cases, ok_injective,
}
use seam_sdk.Bytes.{Text, encode, encode_char}
use seam_sdk.Checks.{Value, str}
use seam_sdk.Ids.{
  is_token_char, is_lower_hex, is_dash, is_version, times, matches, uuid_shape,
  canonical_uuid_v4_v7, is_token, session_refusal, Reason,
}

both : (a b : Bool) → (a && b) ≡ true → (a ≡ true) × (b ≡ true)
both true b h = (refl, h)
both false b h = cc

-- Each class of a pattern admits characters of a token only.
data Within : List (ℕ → Bool) → Type 0 where
  no_class : Within []
  a_class :
      {p : ℕ → Bool} {ps : List (ℕ → Bool)}
      → ((c : ℕ) → p c ≡ true → is_token_char c ≡ true)
      → Within ps
      → Within (p ∷ ps)

matches-all :
    (ps : List (ℕ → Bool)) (s : Text)
    → Within ps
    → matches ps s ≡ true
    → (all is_token_char s ≡ true) × (length s ≡ length ps)
unfolding matches
matches-all [] [] w h = (refl, refl)
matches-all [] (c ∷ s) w h = cc
matches-all (p ∷ ps) [] w h = cc
matches-all (p ∷ ps) (c ∷ s) (a_class first others) h =
    let (hc, hs) = both (p c) (matches ps s) h in
    let (chars, len) = matches-all ps s others hs in (rw (first c hc) chars, ap suc len)

lower_hex_token : (c : ℕ) → is_lower_hex c ≡ true → is_token_char c ≡ true
unfolding is_lower_hex is_token_char
lower_hex_token c h = ground arith

dash_token : (c : ℕ) → is_dash c ≡ true → is_token_char c ≡ true
unfolding is_dash is_token_char
dash_token c h = ground arith

version_token : (c : ℕ) → is_version c ≡ true → is_token_char c ≡ true
unfolding is_version is_token_char
version_token c h = ground arith

times-Within :
    (n : ℕ) (p : ℕ → Bool) (rest : List (ℕ → Bool))
    → ((c : ℕ) → p c ≡ true → is_token_char c ≡ true)
    → Within rest
    → Within (times n p rest)
times-Within zero p rest h w = w
times-Within (suc n) p rest h w = a_class h (times-Within n p rest h w)

hexes-Within : (n : ℕ) (rest : List (ℕ → Bool)) → Within rest → Within (times n is_lower_hex rest)
hexes-Within n rest w = times-Within n is_lower_hex rest lower_hex_token w

dash-Within : (rest : List (ℕ → Bool)) → Within rest → Within (is_dash ∷ rest)
dash-Within rest w = a_class dash_token w

version-Within : (rest : List (ℕ → Bool)) → Within rest → Within (is_version ∷ rest)
version-Within rest w = a_class version_token w

canonical-Within : Within canonical_uuid_v4_v7
canonical-Within = hexes-Within 8 _ (
    dash-Within _ (
      hexes-Within 4 _ (
        dash-Within _ (
          version-Within _ (
            hexes-Within 3 _
              (dash-Within _ (hexes-Within 4 _ (dash-Within _ (hexes-Within 12 [] no_class)))))))))

-- A text of token characters has as many bytes as characters.
token_ascii : (c : ℕ) → is_token_char c ≡ true → encode_char c ≡ ok (c ∷ [])
unfolding is_token_char encode_char
token_ascii c h = ground arith

encode-token : (s : Text) → all is_token_char s ≡ true → encode s ≡ ok s
unfolding encode
encode-token [] h = refl
encode-token (c ∷ s) h =
    let (hc, hs) = both (is_token_char c) (all is_token_char s) h in
    rw (token_ascii c hc, encode-token s hs)

-- An accepted session id is a `str` of 22 to 128 characters, each of `[A-Za-z0-9_-]`, whether it was
-- judged as a UUID or as a token; so it has no `:`.
pub session_refusal-none :
    (v : Value)
    → session_refusal v ≡ none
    → (s : Text) × (v ≡ str s) × (all is_token_char s ≡ true) × (22 ≤ length s) × (length s ≤ 128)
unfolding session_refusal is_token
session_refusal-none (str s) h = elim (Result-cases (encode s)) [
  | inr (e, he) ↦ absurd (no (rw (he, session_refusal, is_token) at h))
  | inl (b, hb) ↦ elim (Bool-cases (ltb 128 (length b))) [
    | inl long ↦ absurd (no (rw (hb, long, session_refusal, is_token) at h))
    | inr fits ↦ elim (Bool-cases (matches uuid_shape s)) [
      | inl shaped ↦ elim (Bool-cases (matches canonical_uuid_v4_v7 s)) [
        | inl canonical ↦
            let (chars, len) = matches-all canonical_uuid_v4_v7 s canonical-Within canonical in
            (s, refl, chars, omega (arith, len), omega (arith, len))
        | inr other ↦ absurd (no (rw (hb, fits, shaped, other, session_refusal, is_token) at h))
      ]
      | inr free ↦ elim (Bool-cases (leb 1 (length s) && all is_token_char s)) [
        | inr bad ↦ absurd (no (rw (hb, fits, free, bad, session_refusal, is_token) at h))
        | inl token ↦ elim (Bool-cases (ltb (length s) 22)) [
          | inl short ↦
              absurd (no (rw (hb, fits, free, token, short, session_refusal, is_token) at h))
          | inr enough ↦
              let (_, chars) = both (leb 1 (length s)) (all is_token_char s) token in
              let same : b ≡ s = ok_injective (sym hb ∙ encode-token s chars) in
              (s, refl, chars, ground arith, ground arith)
        ]
      ]
    ]
  ]
]
  where
    no : {r : Reason} → some r ≡ none → ⊥
    no e = cc
session_refusal-none _ h = cc
