-- ===== src/Signing/Binding.antt =====
-- What a signature is bound to, over all four schemes that an agent's key signs.
use seam_sdk.Prelude.{
  ◌≡◌, refl, sym, ap, ◌∙◌, List, [], ◌∷◌, ◌++◌, map, length, true, false, bytes_eq, arith, Result,
  ok, ◌>>=◌,
}
use mathlib.Core.List.{Permᴰ}
use seam_sdk.Bytes.{Bytes, Text, encode}
use seam_sdk.Bytes.Utf8.{encode-injective}
use seam_sdk.Checks.{Value}
use seam_sdk.Order.{sort, pair_leb}
use seam_sdk.Wire.{Slot, framed, text, packed, join}
use seam_sdk.Wire.Cancel.{kind, text_kind, framed_kind, join-cons, join-append, join-injective}
use seam_sdk.Signing.{
  CallFields, pair_slots, v3_slots, call_sig_context, request_sig_context, call_sig_v3_context,
  enroll_pop_v1_context, call_sig_payload, request_sig_payload, call_sig_v3_payload,
  enroll_pop_payload,
}
use seam_sdk.Signing.Inversion.{three_texts, v3_items, enroll_slots, enroll_parts}
use seam_sdk.Signing.Features.{features_of_items}

-- One thing that an agent signs, with the arguments of the function that builds its payload.
pub data Signed : Type 0 where
  by_call : Bytes → Text → Text → Text → Signed
  by_request : Bytes → Text → Text → Text → Signed
  by_call_v3 : Bytes → CallFields → Signed
  by_enroll : Text → Text → Text → Value → Text → Signed

unfoldable pub payload : Signed → Result Bytes
payload (by_call ticket digest tool agent) = call_sig_payload ticket digest tool agent
payload (by_request ticket rpc resource body) = request_sig_payload ticket rpc resource body
payload (by_call_v3 ticket c) = call_sig_v3_payload ticket c
payload (by_enroll aid tenant namespace issued nonce) =
    enroll_pop_payload aid tenant namespace issued nonce

-- Equality of the v3 arguments, up to the order of the dict of features.
pub record SameCall (t u : Bytes) (c d : CallFields) : Type 0 where
  pub ticket : t ≡ u
  pub tool_input_digest : c.tool_input_digest ≡ d.tool_input_digest
  pub tool_name : c.tool_name ≡ d.tool_name
  pub agent_id : c.agent_id ≡ d.agent_id
  pub subject : c.subject ≡ d.subject
  pub subjects : c.subjects ≡ d.subjects
  pub client_request_id : c.client_request_id ≡ d.client_request_id
  pub session_id : c.session_id ≡ d.session_id
  pub features : Permᴰ c.features d.features

abbrev pub Same : Signed → Signed → Type 0
Same (by_call t a b c) (by_call u a' b' c') = (t ≡ u) × (a ≡ a') × (b ≡ b') × (c ≡ c')
Same (by_request t a b c) (by_request u a' b' c') = (t ≡ u) × (a ≡ a') × (b ≡ b') × (c ≡ c')
Same (by_call_v3 t c) (by_call_v3 u d) = SameCall t u c d
Same (by_enroll a b c i n) (by_enroll a' b' c' i' n') =
    (a ≡ a') × (b ≡ b') × (c ≡ c') × (i ≡ i') × (n ≡ n')
Same _ _ = ⊥

abbrev context : Signed → Bytes
context (by_call _ _ _ _) = call_sig_context
context (by_request _ _ _ _) = request_sig_context
context (by_call_v3 _ _) = call_sig_v3_context
context (by_enroll _ _ _ _ _) = enroll_pop_v1_context

-- Every payload begins with the frame of its scheme's context.
starts_with_context :
    (x : Signed) (b : Bytes)
    → payload x ≡ ok b
    → (rest : List Slot) × (join (framed (context x) ∷ rest) ≡ ok b)
unfolding payload call_sig_payload request_sig_payload v3_slots
starts_with_context (by_call t d n a) b h =
    let (x, y, z, hx, hy, hz, e) =
      three_texts d n a
        (λ x y z. join (framed call_sig_context ∷ framed t ∷ framed x ∷ framed y ∷ framed z ∷ []))
        h in
    (framed t ∷ framed x ∷ framed y ∷ framed z ∷ [], e)
starts_with_context (by_request t d n a) b h =
    let (x, y, z, hx, hy, hz, e) =
      three_texts d n a
        (λ x y z.
          join (framed request_sig_context ∷ framed t ∷ framed x ∷ framed y ∷ framed z ∷ []))
        h in
    (framed t ∷ framed x ∷ framed y ∷ framed z ∷ [], e)
starts_with_context (by_call_v3 t c) b h = let (items, hi, e) = v3_items t c b h in (_, e)
starts_with_context (by_enroll a t n i o) b h =
    let (m, hm, e) = enroll_parts a t n i o b h in (_, e)

same_context :
    (x y : Signed) (b : Bytes) → payload x ≡ ok b → payload y ≡ ok b → context x ≡ context y
same_context x y b h k =
    let (r, e) = starts_with_context x b h in
    let (s, f) = starts_with_context y b k in
    let (u, _, _, _) = join-cons (framed (context x)) (framed (context y)) r s b refl e f in cc

-- The five frames of a payload over three texts.
five_frames :
    (ctx t u : Bytes) (x y z x' y' z' : Text) (b : Bytes)
    → (encode x >>= λ d. encode y >>= λ n.
        encode z >>= λ a. join (framed ctx ∷ framed t ∷ framed d ∷ framed n ∷ framed a ∷ []))
      ≡ ok b
    → (encode x' >>= λ d. encode y' >>= λ n.
        encode z' >>= λ a. join (framed ctx ∷ framed u ∷ framed d ∷ framed n ∷ framed a ∷ []))
      ≡ ok b
    → (t ≡ u) × (x ≡ x') × (y ≡ y') × (z ≡ z')
five_frames ctx t u x y z x' y' z' b h k =
    let (p, q, r, hp, hq, hr, e) =
      three_texts x y z
        (λ d n a. join (framed ctx ∷ framed t ∷ framed d ∷ framed n ∷ framed a ∷ [])) h in
    let (p', q', r', hp', hq', hr', e') =
      three_texts x' y' z'
        (λ d n a. join (framed ctx ∷ framed u ∷ framed d ∷ framed n ∷ framed a ∷ [])) k in
    let same : ◌≡◌ {A = List Slot} (framed ctx ∷ framed t ∷ framed p ∷ framed q ∷ framed r ∷ [])
        (framed ctx ∷ framed u ∷ framed p' ∷ framed q' ∷ framed r' ∷ []) =
      join-injective _ _ b refl e e' in
    let ep : p ≡ p' = cc in
    let eq : q ≡ q' = cc in
    let er : r ≡ r' = cc in
    (
      cc,
      encode-injective x x' p' (hp ∙ ap ok ep) hp',
      encode-injective y y' q' (hq ∙ ap ok eq) hq',
      encode-injective z z' r' (hr ∙ ap ok er) hr',
    )

text_kinds :
    (xs ys : List Text) → length xs ≡ length ys → map kind (map text xs) ≡ map kind (map text ys)
text_kinds [] [] h = refl
text_kinds [] (y ∷ ys) h = absurd (omega arith)
text_kinds (x ∷ xs) [] h = absurd (omega arith)
text_kinds (x ∷ xs) (y ∷ ys) h = ap (λ t. text_kind ∷ t) (text_kinds xs ys (omega arith))

texts_injective : (xs ys : List Text) → map text xs ≡ map text ys → xs ≡ ys
texts_injective [] [] e = refl
texts_injective [] (y ∷ ys) e = cc
texts_injective (x ∷ xs) [] e = cc
texts_injective (x ∷ xs) (y ∷ ys) e = let r : xs ≡ ys = texts_injective xs ys (cc) in cc

pair_kinds :
    (xs ys : List (Bytes × Bytes))
    → length xs ≡ length ys
    → map kind (pair_slots xs) ≡ map kind (pair_slots ys)
unfolding pair_slots
pair_kinds [] [] h = refl
pair_kinds [] (y ∷ ys) h = absurd (omega arith)
pair_kinds (x ∷ xs) [] h = absurd (omega arith)
pair_kinds ((k, v) ∷ xs) ((j, w) ∷ ys) h =
    ap (λ t. framed_kind ∷ framed_kind ∷ t) (pair_kinds xs ys (omega arith))

pairs_injective : (xs ys : List (Bytes × Bytes)) → pair_slots xs ≡ pair_slots ys → xs ≡ ys
unfolding pair_slots
pairs_injective [] [] e = refl
pairs_injective [] ((k, v) ∷ ys) e = cc
pairs_injective ((k, v) ∷ xs) [] e = cc
pairs_injective ((k, v) ∷ xs) ((j, w) ∷ ys) e = let r : xs ≡ ys = pairs_injective xs ys (cc) in cc

-- The slots of a v3 payload, in the three runs that the two counts delimit.
abbrev fixed : Bytes → CallFields → List Slot
fixed t c =
    framed call_sig_v3_context
    ∷ framed t
    ∷ text c.tool_input_digest
    ∷ text c.tool_name
    ∷ text c.agent_id
    ∷ text c.subject
    ∷ packed 4 (length c.subjects)
    ∷ []

abbrev middle : CallFields → List (Bytes × Bytes) → List Slot
middle c items = text c.client_request_id ∷ text c.session_id ∷ packed 4 (length items) ∷ []

v3_runs :
    (t : Bytes) (c : CallFields) (items : List (Bytes × Bytes))
    → v3_slots t c items
      ≡ fixed t c ++ (map text c.subjects ++ (middle c items ++ pair_slots items))
unfolding v3_slots
v3_runs t c items = refl

call_v3_binds :
    (t u : Bytes) (c d : CallFields) (b : Bytes)
    → call_sig_v3_payload t c ≡ ok b
    → call_sig_v3_payload u d ≡ ok b
    → SameCall t u c d
call_v3_binds t u c d b h k =
    let (xs, hx, e) = v3_items t c b h in
    let (ys, hy, f) = v3_items u d b k in
    let xs' : List (Bytes × Bytes) = sort pair_leb xs in
    let ys' : List (Bytes × Bytes) = sort pair_leb ys in
    let (p, b1, e1, f1) =
      join-append (fixed t c) (fixed u d) (map text c.subjects ++ (middle c xs' ++ pair_slots xs'))
        (map text d.subjects ++ (middle d ys' ++ pair_slots ys')) b refl
        (ap join (sym (v3_runs t c xs')) ∙ e) (ap join (sym (v3_runs u d ys')) ∙ f) in
    let n : length c.subjects ≡ length d.subjects = cc in
    let (q, b2, e2, f2) =
      join-append (map text c.subjects) (map text d.subjects) (middle c xs' ++ pair_slots xs')
        (middle d ys' ++ pair_slots ys') b1 (text_kinds c.subjects d.subjects n) e1 f1 in
    let (r, b3, e3, f3) =
      join-append (middle c xs') (middle d ys') (pair_slots xs') (pair_slots ys') b2 refl e2 f2 in
    let m : length xs' ≡ length ys' = cc in
    let s : pair_slots xs' ≡ pair_slots ys' =
      join-injective (pair_slots xs') (pair_slots ys') b3 (pair_kinds xs' ys' m) e3 f3 in
    record {
      ticket = cc;
      tool_input_digest = cc;
      tool_name = cc;
      agent_id = cc;
      subject = cc;
      subjects = texts_injective c.subjects d.subjects q;
      client_request_id = cc;
      session_id = cc;
      features = features_of_items c.features d.features xs ys hx hy (pairs_injective xs' ys' s);
    }

enroll_binds :
    (a b c a' b' c' : Text) (i i' : Value) (n n' : Text) (p : Bytes)
    → enroll_pop_payload a b c i n ≡ ok p
    → enroll_pop_payload a' b' c' i' n' ≡ ok p
    → (a ≡ a') × (b ≡ b') × (c ≡ c') × (i ≡ i') × (n ≡ n')
enroll_binds a b c a' b' c' i i' n n' p h k =
    let (m, hm, e) = enroll_parts a b c i n p h in
    let (m', hm', e') = enroll_parts a' b' c' i' n' p k in
    let same : enroll_slots a b c m n ≡ enroll_slots a' b' c' m' n' =
      join-injective _ _ p refl e e' in
    (cc, cc, cc, cc, cc)

-- Two payloads are the same bytes only if one scheme built both, from the same arguments: the
-- arguments are equal one by one, and for v3 the features are equal up to the order of the dict. So
-- no signature can be spent under another scheme, or for another value of a signed field.
pub payload_binds : (x y : Signed) (b : Bytes) → payload x ≡ ok b → payload y ≡ ok b → Same x y
unfolding payload call_sig_payload request_sig_payload
payload_binds (by_call t d n a) (by_call u d' n' a') b h k =
    five_frames call_sig_context t u d n a d' n' a' b h k
payload_binds (by_request t d n a) (by_request u d' n' a') b h k =
    five_frames request_sig_context t u d n a d' n' a' b h k
payload_binds (by_call_v3 t c) (by_call_v3 u d) b h k = call_v3_binds t u c d b h k
payload_binds (by_enroll a t s i n) (by_enroll a' t' s' i' n') b h k =
    enroll_binds a t s a' t' s' i i' n n' b h k
payload_binds x y b h k =
    let apart : true ≡ false = ap (bytes_eq (context x)) (same_context x y b h k) in cc
