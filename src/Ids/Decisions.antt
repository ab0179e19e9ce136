-- ===== src/Ids/Decisions.antt =====
-- Decision ids: building and parsing are inverse.
use seam_sdk.Prelude.{
  ℕ, ◌≡◌, refl, ap, ◌∙◌, sym, ◌↔◌, ap₂, ◌⊎◌, [], ◌∷◌, ◌++◌, length, all, leb, ◌==◌, ◌&&◌, Bool,
  Bool-cases, true, false, inl, inr, arith, Option, Option-cases, none, some,
}
use seam_sdk.Bytes.{Text}
use seam_sdk.Checks.{Value, str}
use seam_sdk.Keys.{strip_prefix}
use seam_sdk.Ids.{
  decision_id_prefix, is_token_char, is_token, is_tenant, session_refusal, Parsed, parsed, refused,
  DecisionId, IdError, bad_session, not_a_str, check_halves, print, decision_id_for_session,
  partition, parse_decision_id,
}

both : (a b : Bool) → (a && b) ≡ true → (a ≡ true) × (b ≡ true)
both true b h = (refl, h)
both false b h = cc

token_char-colon : (c : ℕ) → is_token_char c ≡ true → (c == b':') ≡ false
unfolding is_token_char
token_char-colon c h = ground arith

-- A text without `:` is what stands before the first one.
partition-append :
    (t s : Text) → all is_token_char t ≡ true → partition (t ++ (b':' ∷ s)) ≡ some (t, s)
unfolding partition
partition-append [] s h = refl
partition-append (c ∷ t) s h =
    let (hc, ht) = both (is_token_char c) (all is_token_char t) h in
    rw (token_char-colon c hc, partition-append t s ht)

test-eq : (a b : ℕ) → (a == b) ≡ true → a ≡ b
test-eq a b h = ground arith

partition-some : (r a b : Text) → partition r ≡ some (a, b) → r ≡ a ++ (b':' ∷ b)
unfolding partition
partition-some [] a b h = cc
partition-some (c ∷ r) a b h = elim (Bool-cases (c == b':')) [
  | inl colon ↦ at_colon (rw colon at h) (test-eq c b':' colon)
  | inr other ↦ elim (Option-cases (partition r)) [
    | inl miss ↦ absurd (no (rw (other, miss) at h))
    | inr ((a', b'), hit) ↦ after_char a' b' (partition-some r a' b' hit) (rw (other, hit) at h)
  ]
]
  where
    Halves : Type 0
    Halves = Option (Text × Text)

    at_colon :
        ◌≡◌ {A = Option (Text × Text)} (some ([], r)) (some (a, b))
        → c ≡ b':'
        → (c ∷ r) ≡ a ++ (b':' ∷ b)
    at_colon e k = let ea : [] ≡ a = cc in let eb : r ≡ b = cc in rw (sym ea, eb, k)

    no : ◌≡◌ {A = Option (Text × Text)} none (some (a, b)) → ⊥
    no e = cc

    after_char :
        (a' b' : Text)
        → r ≡ a' ++ (b':' ∷ b')
        → ◌≡◌ {A = Option (Text × Text)} (some (c ∷ a', b')) (some (a, b))
        → (c ∷ r) ≡ a ++ (b':' ∷ b)
    after_char a' b' er e =
        let ea : c ∷ a' ≡ a = cc in let eb : b' ≡ b = cc in rw (sym ea, sym eb, er)

strip_prefix-some : (p s rest : Text) → strip_prefix p s ≡ some rest → s ≡ p ++ rest
unfolding strip_prefix
strip_prefix-some [] s rest h = cc
strip_prefix-some (x ∷ p) [] rest h = cc
strip_prefix-some (x ∷ p) (c ∷ s) rest h = elim (Bool-cases (x == c)) [
  | inl same ↦
      let e : s ≡ p ++ rest = strip_prefix-some p s rest (rw same at h) in
      let k : x ≡ c = test-eq x c same in rw (k, e)
  | inr apart ↦ absurd (no (rw apart at h))
]
  where
    no : none ≡ some rest → ⊥
    no e = cc

parsed-injective : {A : Type 0} {a b : A} → parsed a ≡ parsed b → a ≡ b
parsed-injective e = cc

-- Halves that were accepted are the tenant and the session that were checked.
check_halves-parsed :
    (tenant : Text) (session : Value) (d : DecisionId)
    → check_halves tenant session ≡ parsed d
    → (is_tenant tenant ≡ true) × (tenant ≡ d.tenant) × (session ≡ str d.session_id)
unfolding check_halves
check_halves-parsed tenant session d h = elim (Bool-cases (is_tenant tenant)) [
  | inr bad ↦ absurd (no (rw bad at h))
  | inl good ↦ elim (Option-cases (session_refusal session)) [
    | inr (reason, why) ↦ absurd (no (rw (good, why) at h))
    | inl fine ↦ let (t, u) = at_str session (rw (good, fine) at h) in (good, t, u)
  ]
]
  where
    no : {e : IdError} → refused e ≡ parsed d → ⊥
    no e = cc

    at_str :
        (v : Value)
        → (elim v as (λ v. Parsed DecisionId) [
          | str s ↦ parsed (record { tenant = tenant; session_id = s })
          | _ ↦ refused (bad_session not_a_str)
        ])
          ≡ parsed d
        → (tenant ≡ d.tenant) × (v ≡ str d.session_id)
    at_str (str s) e =
        let halves : record { tenant = tenant; session_id = s } ≡ d = parsed-injective e in
        (ap (λ (d : DecisionId). d.tenant) halves, ap (λ (d : DecisionId). str d.session_id) halves)
    at_str _ e = cc

is_tenant-all : (t : Text) → is_tenant t ≡ true → all is_token_char t ≡ true
unfolding is_tenant is_token
is_tenant-all t h =
    let (token, _) = both (leb 1 (length t) && all is_token_char t) (leb (length t) 128) h in
    let (_, chars) = both (leb 1 (length t)) (all is_token_char t) token in chars

Parsed-cases :
    {A : Type 0} (r : Parsed A) → ((a : A) × (r ≡ parsed a)) ⊎ ((e : IdError) × (r ≡ refused e))
Parsed-cases (parsed a) = inl (a, refl)
Parsed-cases (refused e) = inr (e, refl)

not_parsed : {A : Type 0} {e : IdError} {a : A} → refused e ≡ parsed a → ⊥
not_parsed e = cc

same_id : (c d : DecisionId) → c.tenant ≡ d.tenant → str c.session_id ≡ str d.session_id → c ≡ d
same_id c d t u =
    let v : c.session_id ≡ d.session_id = cc in λ i. record { tenant = t i; session_id = v i }

prefix_stripped :
    (rest : Text) → strip_prefix decision_id_prefix (decision_id_prefix ++ rest) ≡ some rest
unfolding strip_prefix
prefix_stripped rest = refl

parse_decision_id_lem :
    (s rest t u : Text)
    → strip_prefix decision_id_prefix s ≡ some rest
    → partition rest ≡ some (t, u)
    → parse_decision_id (str s) ≡ check_halves t (str u)
unfolding parse_decision_id check_halves
parse_decision_id_lem s rest t u hit halves = rw (parse_decision_id, hit, halves)

parse_decision_id-print :
    (d : DecisionId)
    → is_tenant d.tenant ≡ true
    → parse_decision_id (str (print d)) ≡ check_halves d.tenant (str d.session_id)
unfolding print
parse_decision_id-print d h =
    parse_decision_id_lem (print d) (d.tenant ++ (b':' ∷ d.session_id)) d.tenant d.session_id
      (prefix_stripped _) (partition-append d.tenant d.session_id (is_tenant-all d.tenant h))

built :
    (d : DecisionId) (s : Text)
    → decision_id_for_session (str d.tenant) (str d.session_id) ≡ parsed s
    → (check_halves d.tenant (str d.session_id) ≡ parsed d) × (print d ≡ s)
unfolding decision_id_for_session
built d s h = elim (Parsed-cases (check_halves d.tenant (str d.session_id))) [
  | inr (e, he) ↦ absurd (not_parsed (rw (he, decision_id_for_session) at h))
  | inl (c, hc) ↦
      let (_, t, u) = check_halves-parsed d.tenant (str d.session_id) c hc in
      let same : c ≡ d = same_id c d (sym t) (sym u) in
      (
        hc ∙ ap parsed same,
        ap print (sym same) ∙ parsed-injective (rw (hc, decision_id_for_session) at h),
      )
]

parsed_halves :
    (d : DecisionId) (s : Text)
    → parse_decision_id (str s) ≡ parsed d
    → (check_halves d.tenant (str d.session_id) ≡ parsed d) × (s ≡ print d)
unfolding parse_decision_id print
parsed_halves d s h = elim (Option-cases (strip_prefix decision_id_prefix s)) [
  | inl miss ↦ absurd (not_parsed (rw (miss, parse_decision_id) at h))
  | inr (rest, hit) ↦ elim (Option-cases (partition rest)) [
    | inl whole ↦ absurd (not_parsed (rw (hit, whole, parse_decision_id) at h))
    | inr ((t, u), halves) ↦
        let checked : check_halves t (str u) ≡ parsed d =
          rw (hit, halves, parse_decision_id) at h in
        let (_, et, eu) = check_halves-parsed t (str u) d checked in
        let ev : u ≡ d.session_id = cc in
        (
          ap₂ (λ t u. check_halves t (str u)) (sym et) (sym ev) ∙ checked,
          strip_prefix-some decision_id_prefix s rest hit
              ∙ ap (λ r. decision_id_prefix ++ r)
                  (partition-some rest t u halves ∙ ap₂ (λ t u. t ++ (b':' ∷ u)) et ev),
        )
  ]
]

-- Building a decision id gives a text exactly if parsing that text gives the same two halves: what
-- was built parses to its halves, and what parses is the text that its halves build.
pub decision_id_round_trip :
    (d : DecisionId) (s : Text)
    → (decision_id_for_session (str d.tenant) (str d.session_id) ≡ parsed s)
      ↔ (parse_decision_id (str s) ≡ parsed d)
unfolding decision_id_for_session
decision_id_round_trip d s = (
  (λ h.
      let (checked, e) = built d s h in
      let (good, _, _) = check_halves-parsed d.tenant (str d.session_id) d checked in
      ap (λ s. parse_decision_id (str s)) (sym e) ∙ parse_decision_id-print d good ∙ checked),
  (λ h.
      let (checked, e) = parsed_halves d s h in
      rw (decision_id_for_session, checked) (ap parsed (sym e))),
)
