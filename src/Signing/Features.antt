-- ===== src/Signing/Features.antt =====
-- The order in which a dict of features yields its items never reaches the signed bytes.
use seam_sdk.Prelude.{◌≡◌, refl, sym, ap, subst, ◌∙◌, List, [], ◌∷◌, ok, ◌>>=◌, >>=-eq-ok}
use mathlib.Core.List.{Permᴰ}
use mathlib.Core.List.Permᴰ
use seam_sdk.Bytes.{Bytes, Text, encode}
use seam_sdk.Bytes.Utf8.{encode-injective}
use seam_sdk.Order.{sort, pair_leb}
use seam_sdk.Order.Sort.{sort-perm, sort-eq_of_perm}
use seam_sdk.Order.Lex.{pair_leb-IsTotalOrder}
use seam_sdk.Signing.{CallFields, encode_pairs, v3_slots, call_sig_v3_payload}
use seam_sdk.Signing.Inversion.{v3_items}

encode_pairs-cons :
    (k v : Text) (rest : List (Text × Text)) (out : List (Bytes × Bytes))
    → encode_pairs ((k, v) ∷ rest) ≡ ok out
    → (a : Bytes) × (b : Bytes) × (tl : List (Bytes × Bytes)) × (encode k ≡ ok a)
      × (encode v ≡ ok b)
      × (encode_pairs rest ≡ ok tl)
      × (out ≡ (a, b) ∷ tl)
unfolding encode_pairs
encode_pairs-cons k v rest out h =
    let (a, ha, h') =
      >>=-eq-ok (encode k) (λ a. encode v >>= λ b. encode_pairs rest >>= λ tl. ok ((a, b) ∷ tl))
        h in
    let (b, hb, h'') =
      >>=-eq-ok (encode v) (λ b. encode_pairs rest >>= λ tl. ok ((a, b) ∷ tl)) h' in
    let (tl, ht, e) = >>=-eq-ok (encode_pairs rest) (λ tl. ok ((a, b) ∷ tl)) h'' in
    (a, b, tl, ha, hb, ht, cc)

encode_pairs_cons :
    (k v : Text) (rest : List (Text × Text)) (a b : Bytes) (tl : List (Bytes × Bytes))
    → encode k ≡ ok a
    → encode v ≡ ok b
    → encode_pairs rest ≡ ok tl
    → encode_pairs ((k, v) ∷ rest) ≡ ok ((a, b) ∷ tl)
unfolding encode_pairs
encode_pairs_cons k v rest a b tl ha hb ht = rw (ha, hb, ht)

pub encode_pairs-perm :
    {fs gs : List (Text × Text)} (out : List (Bytes × Bytes))
    → Permᴰ fs gs
    → encode_pairs fs ≡ ok out
    → (out' : List (Bytes × Bytes)) × (encode_pairs gs ≡ ok out') × Permᴰ out out'
encode_pairs-perm out Permᴰ.nil h = (out, h, Permᴰ.refl out)
encode_pairs-perm out (Permᴰ.cons {a = (k, v)} {b = (k', v')} {l₁ = fs} {l₂ = gs} e d) h =
    let (a, b, tl, ha, hb, ht, eq) = encode_pairs-cons k v fs out h in
    let (tl', ht', p) = encode_pairs-perm tl d ht in
    let ek : k ≡ k' = ap (λ (q : Text × Text). q.0) e in
    let ev : v ≡ v' = ap (λ (q : Text × Text). q.1) e in
    (
      (a, b) ∷ tl',
      encode_pairs_cons k' v' gs a b tl' (ap encode (sym ek) ∙ ha) (ap encode (sym ev) ∙ hb) ht',
      subst (λ o. Permᴰ o ((a, b) ∷ tl')) (sym eq) (Permᴰ.cons refl p),
    )
encode_pairs-perm out
      (Permᴰ.swap {a = (k, v)} {b = (j, w)} {a' = (k', v')} {b' = (j', w')} {l = l} e f) h =
    let (a, b, tl, ha, hb, ht, eq) = encode_pairs-cons k v ((j, w) ∷ l) out h in
    let (c, d, tl', hc, hd, ht', eq') = encode_pairs-cons j w l tl ht in
    let ek : k ≡ j' = ap (λ (q : Text × Text). q.0) e in
    let ev : v ≡ w' = ap (λ (q : Text × Text). q.1) e in
    let fk : j ≡ k' = ap (λ (q : Text × Text). q.0) f in
    let fv : w ≡ v' = ap (λ (q : Text × Text). q.1) f in
    (
      (c, d) ∷ (a, b) ∷ tl',
      encode_pairs_cons k' v' ((j', w') ∷ l) c d ((a, b) ∷ tl') (ap encode (sym fk) ∙ hc)
          (ap encode (sym fv) ∙ hd)
          (encode_pairs_cons j' w' l a b tl' (ap encode (sym ek) ∙ ha) (ap encode (sym ev) ∙ hb)
            ht'),
      subst (λ o. Permᴰ o ((c, d) ∷ (a, b) ∷ tl')) (sym (eq ∙ ap (λ t. (a, b) ∷ t) eq'))
          (Permᴰ.swap refl refl),
    )
encode_pairs-perm out (Permᴰ.trans d e) h =
    let (mid, hm, p) = encode_pairs-perm out d h in
    let (out', ho, q) = encode_pairs-perm mid e hm in (out', ho, Permᴰ.trans p q)

pub encode_pairs-injective :
    (fs gs : List (Text × Text)) (out : List (Bytes × Bytes))
    → encode_pairs fs ≡ ok out
    → encode_pairs gs ≡ ok out
    → fs ≡ gs
encode_pairs-injective [] [] out h k = refl
encode_pairs-injective [] ((j, w) ∷ gs) out h k =
    let (a, b, tl, ha, hb, ht, eq) = encode_pairs-cons j w gs out k in (unfold encode_pairs in cc)
encode_pairs-injective ((j, w) ∷ fs) [] out h k =
    let (a, b, tl, ha, hb, ht, eq) = encode_pairs-cons j w fs out h in (unfold encode_pairs in cc)
encode_pairs-injective ((k, v) ∷ fs) ((j, w) ∷ gs) out h g =
    let (a, b, tl, ha, hb, ht, eq) = encode_pairs-cons k v fs out h in
    let (c, d, tl', hc, hd, ht', eq') = encode_pairs-cons j w gs out g in
    let x : a ≡ c = cc in
    let y : b ≡ d = cc in
    let z : tl ≡ tl' = cc in
    let ek : k ≡ j = encode-injective k j c (ha ∙ ap ok x) hc in
    let ev : v ≡ w = encode-injective v w d (hb ∙ ap ok y) hd in
    let er : fs ≡ gs = encode_pairs-injective fs gs tl' (ht ∙ ap ok z) ht' in cc

-- A permutation of the features is signed to the same bytes.
pub call_sig_v3_payload_features_order :
    (ticket : Bytes) (c : CallFields) (gs : List (Text × Text)) (b : Bytes)
    → Permᴰ c.features gs
    → call_sig_v3_payload ticket c ≡ ok b
    → call_sig_v3_payload ticket (record c { features = gs }) ≡ ok b
call_sig_v3_payload_features_order ticket c gs b d h =
    let (items, hi, hj) = v3_items ticket c b h in
    let (items', hi', p) = encode_pairs-perm items d hi in
    let same : sort pair_leb items' ≡ sort pair_leb items =
      sym (sort-eq_of_perm pair_leb pair_leb-IsTotalOrder p) in
    unfold call_sig_v3_payload v3_slots in rw (hi', same) (unfold v3_slots in hj)

-- A permutation of the encoded items comes from one of the items.
encode_pairs-perm_back :
    {xs ys : List (Bytes × Bytes)} (fs : List (Text × Text))
    → Permᴰ xs ys
    → encode_pairs fs ≡ ok xs
    → (gs : List (Text × Text)) × (encode_pairs gs ≡ ok ys) × Permᴰ fs gs
encode_pairs-perm_back fs Permᴰ.nil h = (fs, h, Permᴰ.refl fs)
encode_pairs-perm_back [] (Permᴰ.cons e d) h = absurd (unfold encode_pairs in cc)
encode_pairs-perm_back ((k, v) ∷ fs) (Permᴰ.cons {a = p} {b = q} {l₁ = l} {l₂ = m} e d) h =
    let (a, b, tl, ha, hb, ht, eq) = encode_pairs-cons k v fs (p ∷ l) h in
    let et : tl ≡ l = cc in
    let (gs, hg, r) = encode_pairs-perm_back fs d (ht ∙ ap ok et) in
    let eh : (a, b) ∷ m ≡ q ∷ m = cc in
    ((k, v) ∷ gs, encode_pairs_cons k v gs a b m ha hb hg ∙ ap ok eh, Permᴰ.cons refl r)
encode_pairs-perm_back [] (Permᴰ.swap e f) h = absurd (unfold encode_pairs in cc)
encode_pairs-perm_back ((k, v) ∷ []) (Permᴰ.swap {a = p} {b = q} {l = l} e f) h =
    let (a, b, tl, ha, hb, ht, eq) = encode_pairs-cons k v [] (p ∷ q ∷ l) h in
    absurd (unfold encode_pairs in cc)
encode_pairs-perm_back ((k, v) ∷ (j, w) ∷ fs)
      (Permᴰ.swap {a = p} {b = q} {a' = p'} {b' = q'} {l = l} e f) h =
    let (a, b, tl, ha, hb, ht, eq) = encode_pairs-cons k v ((j, w) ∷ fs) (p ∷ q ∷ l) h in
    let (c, d, tl', hc, hd, ht', eq') = encode_pairs-cons j w fs tl ht in
    let same : (c, d) ∷ (a, b) ∷ tl' ≡ p' ∷ q' ∷ l = cc in
    (
      (j, w) ∷ (k, v) ∷ fs,
      encode_pairs_cons j w ((k, v) ∷ fs) c d ((a, b) ∷ tl') hc hd
            (encode_pairs_cons k v fs a b tl' ha hb ht')
          ∙ ap ok same,
      Permᴰ.swap refl refl,
    )
encode_pairs-perm_back fs (Permᴰ.trans d e) h =
    let (ms, hm, r) = encode_pairs-perm_back fs d h in
    let (gs, hg, r') = encode_pairs-perm_back ms e hm in (gs, hg, Permᴰ.trans r r')

-- Two feature dicts whose encoded items sort to one list hold the same items.
pub features_of_items :
    (fs gs : List (Text × Text)) (xs ys : List (Bytes × Bytes))
    → encode_pairs fs ≡ ok xs
    → encode_pairs gs ≡ ok ys
    → sort pair_leb xs ≡ sort pair_leb ys
    → Permᴰ fs gs
features_of_items fs gs xs ys h k e =
    let q : Permᴰ (sort pair_leb xs) ys = subst (λ o. Permᴰ o ys) (sym e) (sort-perm pair_leb ys) in
    let p : Permᴰ xs ys = Permᴰ.trans (Permᴰ.symm (sort-perm pair_leb xs)) q in
    let (gs', hg, r) = encode_pairs-perm_back fs p h in
    subst (λ o. Permᴰ fs o) (encode_pairs-injective gs' gs ys hg k) r
