-- ===== src/Tct/Statements.antt =====
-- The parts of a token, and the statement of a commitment in its `ext` claim.
use seam_sdk.Prelude.{
  some_injective, both_true, ℕ, ◌≡◌, ◌≢◌, refl, sym, ap, ap₂, ◌∙◌, inl, inr, ◌==◌, if◌then◌else◌,
  Bool, true, false, Bool-cases, List, [], ◌∷◌, ◌++◌, codes, bytes_eq, bytes_eq→eq, Option, none,
  some, ==_iff,
}
use seam_sdk.Bytes.{Text}
use seam_sdk.Json.{
  Json, string, array, object, no_items, item, Fields, no_fields, field, item_of, equals_text,
}
use seam_sdk.Tct.{
  commitment_ext_key, attestation_grant, split, three_parts, grants_only, only_keys,
  statement_digest, ext_statement, attested_digest, part,
}

if_some {ℓ} :
    {A : Type ℓ} (test : Bool) (o : Option A) (a : A)
    → (if test then o else none) ≡ some a
    → (test ≡ true) × (o ≡ some a)
if_some true o a h = (refl, h)
if_some false o a h = cc

-- A value that comes from a stated option.
pub of_some {α β} :
    {A : Type α} {B : Type β} (o : Option A) (default : B) (f : A → B) (b : B)
    → default ≢ b
    → (elim o [ none ↦ default | some a ↦ f a ]) ≡ b
    → (a : A) × (o ≡ some a) × (f a ≡ b)
of_some none default f b ne h = absurd (ne h)
of_some (some a) default f b ne h = (a, refl, h)

pub none-some {ℓ} : {A : Type ℓ} {a : A} → none ≢ some a
none-some e = cc

pub false-true : false ≢ true
false-true e = cc

-- A text with its parts, each followed by the separator but the last.
abbrev pub joined : ℕ → Text × List Text → Text
joined sep (part, []) = part
joined sep (part, next ∷ parts) = part ++ sep ∷ joined sep (next, parts)

joined_longer :
    (sep c : ℕ) (part : Text) (parts : List Text)
    → joined sep (c ∷ part, parts) ≡ c ∷ joined sep (part, parts)
joined_longer sep c part [] = refl
joined_longer sep c part (next ∷ parts) = refl

joined_step :
    (sep c : ℕ) (part : Text) (parts : List Text)
    → c ∷ joined sep (part, parts)
      ≡ joined sep (if c == sep then ([], part ∷ parts) else (c ∷ part, parts))
joined_step sep c part parts = elim (Bool-cases (c == sep)) [
  | inl e ↦ rw e (ap (λ c. c ∷ joined sep (part, parts)) ((==_iff c sep).0 e))
  | inr e ↦ rw e (sym (joined_longer sep c part parts))
]

pub split-joined : (sep : ℕ) (s : Text) → s ≡ joined sep (split sep s)
unfolding split
split-joined sep [] = refl
split-joined sep (c ∷ s) =
    ap (c ∷◌) (split-joined sep s) ∙ joined_step sep c (split sep s).0 (split sep s).1

pub equals_text-eq : (j : Json) (t : Text) → equals_text j t ≡ true → j ≡ string t
unfolding equals_text
equals_text-eq (string s) t h = ap string (bytes_eq→eq s t h)
equals_text-eq _ t h = cc

pub three_parts-eq :
    (parts : Text × List Text) (h p s : Text)
    → three_parts parts ≡ some (h, p, s)
    → parts ≡ (h, p ∷ s ∷ [])
unfolding three_parts
three_parts-eq (a, []) h p s e = cc
three_parts-eq (a, b ∷ []) h p s e = cc
three_parts-eq (a, b ∷ c ∷ []) h p s e = cc
three_parts-eq (a, b ∷ c ∷ d ∷ rest) h p s e = cc

pub grants_only-eq :
    (g : Json) → grants_only g ≡ true → g ≡ array (item (string attestation_grant) no_items)
unfolding grants_only
grants_only-eq (array (item g no_items)) h =
    ap (λ g. array (item g no_items)) (equals_text-eq g attestation_grant h)
grants_only-eq _ h = cc

-- The statement of a commitment: the two keys and no other, in either order.
pub record Statement (stmt : Fields) (digest : Json) : Type 0 where
  pub closed : only_keys stmt (codes "type") (codes "commitment_digest") ≡ true
  pub kind : item_of stmt (codes "type") ≡ some (string (codes "seam:commitment"))
  pub stated : item_of stmt (codes "commitment_digest") ≡ some digest

statement_digest-Statement :
    (j d : Json)
    → statement_digest j ≡ some d
    → (stmt : Fields) × (j ≡ object stmt) × Statement stmt d
unfolding statement_digest
statement_digest-Statement (object stmt) d h =
    let (keys, r) = if_some _ _ d h in
    let (kind, e, r') = of_some (item_of stmt (codes "type")) none _ (some d) none-some r in
    let (named, stated) =
      if_some (equals_text kind (codes "seam:commitment"))
        (item_of stmt (codes "commitment_digest")) d r' in
    (
      stmt,
      refl,
      record {
        closed = (both_true _ _ (both_true _ _ keys).0).0;
        kind = e ∙ ap some (equals_text-eq kind _ named);
        stated = stated;
      },
    )
statement_digest-Statement _ d h = cc

ext_statement-eq :
    (ext stmt : Json)
    → ext_statement ext ≡ some stmt
    → ext ≡ object (field commitment_ext_key stmt no_fields)
unfolding ext_statement
ext_statement-eq (object (field k v no_fields)) stmt h =
    let (key, e) = if_some (bytes_eq k commitment_ext_key) (some v) stmt h in
    ap₂ (λ k v. object (field k v no_fields)) (bytes_eq→eq k commitment_ext_key key)
      (some_injective e)
ext_statement-eq _ stmt h = cc

pub attested_digest-eq :
    (ext d : Json)
    → attested_digest ext ≡ some d
    → (stmt : Fields) × (ext ≡ object (field commitment_ext_key (object stmt) no_fields))
      × Statement stmt d
unfolding attested_digest
attested_digest-eq ext d h =
    let (j, e, r) = of_some (ext_statement ext) none _ (some d) none-some h in
    let (stmt, same, statement) = statement_digest-Statement j d r in
    (
      stmt,
      ext_statement-eq ext j e ∙ ap (λ j. object (field commitment_ext_key j no_fields)) same,
      statement,
    )
