-- ===== src/Tct/Soundness.antt =====
-- What a token that `verify_tct` accepts says, and whose it is.
use seam_sdk.Prelude.{
  ◌≡◌, sym, ap, ◌∙◌, subst, ◌⊎◌, Bool, true, false, List, [], ◌∷◌, ◌++◌, all, ltb, codes, Option,
  some, Result, ok, err, ok_injective, after_bind, either_branch,
}
use seam_sdk.Prelude.Int.{ℤ}
use seam_sdk.Bytes.{Bytes, Text}
use seam_sdk.Base64.{b64url_decode}
use seam_sdk.Keys.{Ed25519, key_of}
use seam_sdk.Commitment.{Commitment, seam_commitment_digest}
use seam_sdk.Json.{Json, string, object, Fields, no_fields, field, item_of, get_claim}
use seam_sdk.Tct.{
  commitment_ext_key, split, three_parts, encode_ascii, signed_text, attested_digest, header_ok,
  self_issued, claims_ok, now_of, signature_verifies, part, attests, token_verdict, verify_tct,
}
use seam_sdk.Tct.Statements.{
  of_some, false-true, split-joined, equals_text-eq, three_parts-eq, attested_digest-eq, joined,
  Statement,
}
use seam_sdk.Tct.Claims.{after_raise_unless, header_ok-eq, Claims, payload-Claims}
use seam_sdk.Commitment.Binding.{SameCommitment, seam_commitment_digest_binds}
use seam_sdk.Client.{hexdigest}
use seam_sdk.Hash.{Collision}

encode_ascii-eq : (s : Text) (b : Bytes) → encode_ascii s ≡ ok b → b ≡ s
unfolding encode_ascii
encode_ascii-eq s b h =
    either_branch (all (λ c. ltb c 128) s) h (λ e. sym (ok_injective e)) (λ e. cc)

module _ (ed : Ed25519) (hash : Bytes → Bytes) (parse : Bytes → Result Json) where
  -- The token of an issuer over a commitment: its three parts, the issuer's signature over the first
  -- two, and what the header and the payload hold.
  pub record Attested (issuer_aid tct_jws : Text) (commitment : Commitment) (now : ℤ) : Type 0 where
    pub header_b64 : Text
    pub payload_b64 : Text
    pub sig_b64 : Text
    pub split_parts : split b'.' tct_jws ≡ (header_b64, payload_b64 ∷ sig_b64 ∷ [])
    pub parts : tct_jws ≡ signed_text header_b64 (payload_b64 ++ b'.' ∷ sig_b64)
    pub key : Bytes
    pub key_named : key_of ed issuer_aid ≡ ok key
    pub sig : Bytes
    pub sig_decoded : b64url_decode sig_b64 ≡ ok sig
    pub verified : ed.verify key sig (signed_text header_b64 payload_b64) ≡ true
    pub header : Json
    pub header_read : part parse header_b64 ≡ ok header
    pub alg : get_claim header (codes "alg") ≡ ok (string (codes "EdDSA"))
    pub typ : get_claim header (codes "typ") ≡ ok (string (codes "aitp-tct+jwt"))
    pub payload : Json
    pub payload_read : part parse payload_b64 ≡ ok payload
    pub claims : Claims payload issuer_aid now
    pub stmt : Fields
    pub ext :
        get_claim payload (codes "ext")
        ≡ ok (object (field commitment_ext_key (object stmt) no_fields))
    pub digest : Text
    pub statement : Statement stmt (string digest)
    pub of_commitment : seam_commitment_digest hash commitment ≡ ok digest

  record Signature (issuer_aid header_b64 payload_b64 sig_b64 : Text) : Type 0 where
    key : Bytes
    key_named : key_of ed issuer_aid ≡ ok key
    sig : Bytes
    sig_decoded : b64url_decode sig_b64 ≡ ok sig
    verified : ed.verify key sig (signed_text header_b64 payload_b64) ≡ true

  signature_verifies-Signature :
      (issuer_aid h p s : Text)
      → signature_verifies ed issuer_aid h p s ≡ ok true
      → Signature issuer_aid h p s
  unfolding signature_verifies
  signature_verifies-Signature issuer_aid h p s r0 =
      after_bind (key_of ed issuer_aid) _ r0 λ key e1 r1.
        after_bind (b64url_decode s) _ r1 λ sig e2 r2.
          after_bind (encode_ascii (signed_text h p)) _ r2 λ m e3 r3. record {
            key = key;
            key_named = e1;
            sig = sig;
            sig_decoded = e2;
            verified = ap (ed.verify key sig) (sym (encode_ascii-eq _ m e3)) ∙ ok_injective r3;
          }

  -- The statement of a payload, and its digest.
  record Stated (payload : Json) (commitment : Commitment) : Type 0 where
    stmt : Fields
    ext :
        get_claim payload (codes "ext")
        ≡ ok (object (field commitment_ext_key (object stmt) no_fields))
    digest : Text
    statement : Statement stmt (string digest)
    of_commitment : seam_commitment_digest hash commitment ≡ ok digest

  attests-Stated :
      (payload : Json) (commitment : Commitment)
      → attests hash payload commitment ≡ ok true
      → Stated payload commitment
  unfolding attests
  attests-Stated payload commitment h = after_bind (get_claim payload (codes "ext")) _ h λ ext e r.
      let (stated, e', r') = of_some (attested_digest ext) (ok false) _ (ok true) refused r in
      let (stmt, same, statement) = attested_digest-eq ext stated e' in
      after_bind (seam_commitment_digest hash commitment) _ r' λ digest e3 r3. record {
        stmt = stmt;
        ext = e ∙ ap ok same;
        digest = digest;
        statement =
            subst (Statement stmt) (equals_text-eq stated digest (ok_injective r3)) statement;
        of_commitment = e3;
      }
    where
      refused : ◌≡◌ {A = Result Bool} (ok false) (ok true) → ⊥
      refused e = cc

  token_verdict-Attested :
      (issuer_aid jws h p s : Text) (c : Commitment) (now : ℤ)
      → split b'.' jws ≡ (h, p ∷ s ∷ [])
      → token_verdict ed hash parse issuer_aid h p s c now ≡ ok true
      → Attested issuer_aid jws c now
  unfolding token_verdict
  token_verdict-Attested issuer_aid jws h p s c now split_parts r0 =
      after_bind (signature_verifies ed issuer_aid h p s) _ r0 λ b e1 r1.
        let (yes_b, r2) = after_raise_unless b _ _ r1 in
        let signed = signature_verifies-Signature issuer_aid h p s (e1 ∙ ap ok yes_b) in
        after_bind (part parse h) _ r2 λ header e3 r3.
          after_bind (part parse p) _ r3 λ payload e4 r4.
            after_bind (header_ok header) _ r4 λ b5 e5 r5.
              let (known, r6) = after_raise_unless b5 _ _ r5 in
              let (alg, typ) = header_ok-eq header (e5 ∙ ap ok known) in
              after_bind (self_issued payload issuer_aid) _ r6 λ b7 e7 r7.
                let (own, r8) = after_raise_unless b7 _ _ r7 in
                after_bind (claims_ok payload now) _ r8 λ b9 e9 r9.
                  let (current, r10) = after_raise_unless b9 _ _ r9 in
                  let stated = attests-Stated payload c r10 in
                  record {
                    header_b64 = h;
                    payload_b64 = p;
                    sig_b64 = s;
                    split_parts = split_parts;
                    parts = split-joined b'.' jws ∙ ap (joined b'.') split_parts;
                    key = signed.key;
                    key_named = signed.key_named;
                    sig = signed.sig;
                    sig_decoded = signed.sig_decoded;
                    verified = signed.verified;
                    header = header;
                    header_read = e3;
                    alg = alg;
                    typ = typ;
                    payload = payload;
                    payload_read = e4;
                    claims =
                        payload-Claims payload issuer_aid now (e7 ∙ ap ok own) (e9 ∙ ap ok current);
                    stmt = stated.stmt;
                    ext = stated.ext;
                    digest = stated.digest;
                    statement = stated.statement;
                    of_commitment = stated.of_commitment;
                  }

  returned : (r : Result Bool) → (elim r [ ok b ↦ b | err e ↦ false ]) ≡ true → r ≡ ok true
  returned (ok b) h = ap ok h
  returned (err e) h = cc

  -- A token that is accepted for an issuer and a commitment has three parts; the issuer's key accepts the
  -- third as a signature over the first two. The header is of the EdDSA scheme and the type of a TCT. The claims name the issuer three times, expire after now within
  -- int64, hold the one grant, and state in `ext`, and nothing else, the digest of this commitment.
  pub verify_tct-Attested :
      (issuer_aid tct_jws : Text) (commitment : Commitment) (now_s : Option ℤ) (clock : ℤ)
      → verify_tct ed hash parse issuer_aid tct_jws commitment now_s clock ≡ true
      → Attested issuer_aid tct_jws commitment (now_of now_s clock)
  unfolding verify_tct
  verify_tct-Attested issuer_aid jws c now_s clock h =
      let ((head, payload, sig), e, r) =
        of_some (three_parts (split b'.' jws)) false _ true false-true h in
      token_verdict-Attested issuer_aid jws head payload sig c (now_of now_s clock)
        (three_parts-eq (split b'.' jws) head payload sig e) (returned _ r)

  -- One statement has one digest.
  same_digest :
      {issuer jws issuer' : Text} {c d : Commitment} {now now' : ℤ} (a : Attested issuer jws c now)
      (b : Attested issuer' jws d now')
      → a.digest ≡ b.digest
  same_digest a b =
      let payloads : a.payload_b64 ≡ b.payload_b64 = second (sym a.split_parts ∙ b.split_parts) in
      let read : a.payload ≡ b.payload =
        ok_injective (sym a.payload_read ∙ ap (part parse) payloads ∙ b.payload_read) in
      let exts = sym a.ext ∙ ap (λ p. get_claim p (codes "ext")) read ∙ b.ext in
      let stmts : a.stmt ≡ b.stmt = same_stmt exts in
      same_text (
        sym a.statement.stated
        ∙ ap (λ s. item_of s (codes "commitment_digest")) stmts
        ∙ b.statement.stated)
    where
      second :
          {h p s h' p' s' : Text}
          → ◌≡◌ {A = Text × List Text} (h, p ∷ s ∷ []) (h', p' ∷ s' ∷ [])
          → p ≡ p'
      second e = cc

      same_stmt :
          {k : Text} {s t : Fields}
          → ok (object (field k (object s) no_fields)) ≡ ok (object (field k (object t) no_fields))
          → s ≡ t
      same_stmt e = cc

      same_text : {s t : Text} → some (string s) ≡ some (string t) → s ≡ t
      same_text e = cc

  -- One token is accepted for one commitment: two for which it is accepted, at any times, agree in every
  -- field and in the digest of their explanations, or two preimages have one hexadecimal digest.
  pub verify_tct_binds :
      (issuer_aid issuer_aid' tct_jws : Text) (c d : Commitment) (now_s now_s' : Option ℤ)
      (clock clock' : ℤ)
      → verify_tct ed hash parse issuer_aid tct_jws c now_s clock ≡ true
      → verify_tct ed hash parse issuer_aid' tct_jws d now_s' clock' ≡ true
      → SameCommitment hash c d ⊎ Collision (λ b. hexdigest (hash b))
  verify_tct_binds issuer issuer' jws c d now_s now_s' clock clock' h k =
      let a = verify_tct-Attested issuer jws c now_s clock h in
      let b = verify_tct-Attested issuer' jws d now_s' clock' k in
      seam_commitment_digest_binds hash c d a.digest a.of_commitment
        (b.of_commitment ∙ ap ok (sym (same_digest a b)))
