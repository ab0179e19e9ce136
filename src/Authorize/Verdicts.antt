-- ===== src/Authorize/Verdicts.antt =====
-- What a returned verdict rests on.
use seam_sdk.Prelude.{
  ℕ, ◌≡◌, ◌≢◌, refl, sym, ap, inl, inr, [], bytes_eq, Bool, Bool-cases, true, false, Option, none,
  some, ok, err, Exn,
}
use seam_sdk.Bytes.{Bytes}
use seam_sdk.Errors.{Failure, is_unauthenticated}
use seam_sdk.Calls.{Outcome, returned, Outside, Client, sending, lift, raise}
use seam_sdk.Calls.Inversion.{
  outcome, bind-returned, catch-returned, lift-returned, wire-returned, not_returned,
}
use seam_sdk.Signing.{CallFields}
use seam_sdk.Keys.{Ed25519}
use seam_sdk.Client.{ticket_for, refresh_ticket}
use seam_sdk.Jcs.{Tree, none_value}
use seam_sdk.Inputs.{Given, bytes_given, resolve_canonical}
use seam_sdk.Inputs.Resolves.{resolve_canonical_idem}
use seam_sdk.Authorize.{
  WireVerdict, wire_allow, wire_deny, wire_transform, wire_escalate, wire_other, Response, allow,
  deny, transform, escalate, AuthorizeResult, result_of, result_as, Request,
  build_authorize_request, authorize_with, refresh_and_authorize, authorize,
}

-- How a result reads its response: by name, with the rewritten input of a transform only.
pub data Reads (resp : Response) (r : AuthorizeResult) : Type 0 where
  reads_allow :
      resp.verdict ≡ wire_allow → r.verdict ≡ allow → r.transformed_input ≡ none → Reads resp r
  reads_deny :
      resp.verdict ≡ wire_deny → r.verdict ≡ deny → r.transformed_input ≡ none → Reads resp r
  reads_escalate :
      resp.verdict ≡ wire_escalate
      → r.verdict ≡ escalate
      → r.transformed_input ≡ none
      → Reads resp r
  reads_transform :
      resp.verdict ≡ wire_transform
      → r.verdict ≡ transform
      → r.transformed_input ≡ some resp.transformed_input
      → resp.transformed_input ≢ []
      → Reads resp r

result_of-Reads : (resp : Response) (r : AuthorizeResult) → result_of resp ≡ ok r → Reads resp r
unfolding result_of
result_of-Reads resp r h = go resp.verdict refl
  where
    same : {q : AuthorizeResult} → ok q ≡ ok r → q ≡ r
    same e = cc

    refused : {P : Type 0} {e : Exn} → err e ≡ ok r → P
    refused e = cc

    not_empty : bytes_eq resp.transformed_input [] ≡ false → resp.transformed_input ≢ []
    not_empty given e = let apart : true ≡ false = rw e at given in cc

    go : (v : WireVerdict) → resp.verdict ≡ v → Reads resp r
    go wire_allow e =
        let q : result_as resp none allow ≡ r = same (rw (e, result_of) at h) in
        reads_allow e (sym (ap (λ (r : AuthorizeResult). r.verdict) q))
          (sym (ap (λ (r : AuthorizeResult). r.transformed_input) q))
    go wire_deny e =
        let q : result_as resp none deny ≡ r = same (rw (e, result_of) at h) in
        reads_deny e (sym (ap (λ (r : AuthorizeResult). r.verdict) q))
          (sym (ap (λ (r : AuthorizeResult). r.transformed_input) q))
    go wire_escalate e =
        let q : result_as resp none escalate ≡ r = same (rw (e, result_of) at h) in
        reads_escalate e (sym (ap (λ (r : AuthorizeResult). r.verdict) q))
          (sym (ap (λ (r : AuthorizeResult). r.transformed_input) q))
    go wire_transform e = elim (Bool-cases (bytes_eq resp.transformed_input [])) [
      | inl empty ↦ refused (rw (e, empty, result_of) at h)
      | inr given ↦
          let q : result_as resp (some resp.transformed_input) transform ≡ r =
            same (rw (e, given, result_of) at h) in
          reads_transform e (sym (ap (λ (r : AuthorizeResult). r.verdict) q))
            (sym (ap (λ (r : AuthorizeResult). r.transformed_input) q)) (not_empty given)
    ]
    go (wire_other n) e = refused (rw (e, result_of) at h)

module _ (ed : Ed25519) (hash : Bytes → Bytes) (frames : ℕ) {W : Type 0} (outside : Outside W)
    (send : Request → W → Outcome Response × W) where
  -- The response to a request that was built from these arguments, over some ticket.
  abbrev pub Answered : Bytes → Tree → Option Given → Bool → CallFields → Response → Type 0
  Answered seed tool_input given digest_only fields resp =
      (ticket : Bytes) × (req : Request) × (w : W) × (build_authorize_request ed hash frames seed
          tool_input given digest_only ticket fields
        ≡ ok req)
      × (let (o, w') = send req w in o ≡ returned resp)

  module _ (seed canonical : Bytes) (digest_only : Bool) (fields : CallFields)
      (resp : Response) where
    abbrev Signed : Type 0
    Signed = Answered seed none_value (some (bytes_given canonical)) digest_only fields resp

    authorize_with-Signed :
        (ticket : Bytes) (s : Client W)
        → outcome
            (authorize_with ed hash frames outside send seed canonical digest_only fields ticket s)
          ≡ returned resp
        → Signed
    unfolding authorize_with
    authorize_with-Signed ticket s h =
        let (req, s', built, sent) = bind-returned _ _ s resp h in
        let (w, got) = wire-returned (sending none) (send req) s' resp sent in
        (ticket, req, w, lift-returned _ s req built, got)

    refresh-Signed :
        (ticket : Bytes) (e : Failure) (s : Client W)
        → outcome (
            refresh_and_authorize ed hash frames outside send seed canonical digest_only fields
              ticket e s)
          ≡ returned resp
        → Signed
    unfolding refresh_and_authorize raise
    refresh-Signed ticket e s h = elim (Bool-cases (is_unauthenticated e)) [
      | inr other ↦ absurd (not_returned (rw other at h))
      | inl rejected ↦
          let (fresh, s', _, again) =
            bind-returned (refresh_ticket ed hash outside seed ticket)
              (λ fresh.
                authorize_with ed hash frames outside send seed canonical digest_only fields fresh)
              s resp (rw rejected at h) in
          authorize_with-Signed fresh s' again
    ]

    -- A request over the resolved bytes is one over the caller's own arguments.
    Signed-Answered :
        (tool_input : Tree) (given : Option Given)
        → resolve_canonical frames tool_input given ≡ ok canonical
        → Signed
        → Answered seed tool_input given digest_only fields resp
    unfolding build_authorize_request
    Signed-Answered tool_input given h (ticket, req, w, built, got) = (
      ticket,
      req,
      w,
      rw (h, build_authorize_request)
          (rw (resolve_canonical_idem frames tool_input given canonical h, build_authorize_request)
            at built),
      got,
    )

  -- A result of `authorize` decodes the server's answer to one request that was built from the caller's
  -- arguments, over some ticket. It is an allow only if that answer says so; an answer outside the closed set,
  -- or a transform without a rewritten input, is never a result.
  pub authorize-Reads :
      (seed : Bytes) (tool_input : Tree) (given : Option Given) (digest_only : Bool)
      (fields : CallFields) (s : Client W) (r : AuthorizeResult)
      → outcome (authorize ed hash frames outside send seed tool_input given digest_only fields s)
        ≡ returned r
      → (resp : Response) × Answered seed tool_input given digest_only fields resp × Reads resp r
  unfolding authorize
  authorize-Reads seed tool_input given digest_only fields s r h =
      let (canonical, s0, h', h0) =
        bind-returned (lift (resolve_canonical frames tool_input given)) _ s r h in
      let resolved = lift-returned _ s canonical h' in
      let (ticket, s1, _, h1) = bind-returned (ticket_for ed hash outside seed) _ s0 r h0 in
      let (resp, s2, h2, h3) = bind-returned _ (λ resp. lift (result_of resp)) s1 r h1 in
      let signed : Signed seed canonical digest_only fields resp =
        elim (catch-returned _ _ s1 resp h2) [
          | inl first ↦ authorize_with-Signed seed canonical digest_only fields resp ticket s1 first
          | inr (e, s3, second) ↦
              refresh-Signed seed canonical digest_only fields resp ticket e s3 second
        ] in
      (
        resp,
        Signed-Answered seed canonical digest_only fields resp tool_input given resolved signed,
        result_of-Reads resp r (lift-returned (result_of resp) s2 r h3),
      )
