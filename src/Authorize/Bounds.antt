-- ===== src/Authorize/Bounds.antt =====
-- How often `authorize` goes on the wire, and which cache it writes.
use seam_sdk.Prelude.{ℕ, ◌≡◌, arith, Option, none, some, ok, Bool}
use seam_sdk.Bytes.{Bytes, Text}
use seam_sdk.Errors.{is_unauthenticated}
use seam_sdk.Calls.{Outcome, Outside, Client}
use seam_sdk.Calls.Moves.{
  Moves, Does, after, raise-Does, lift-Does, sending-Does, weaken-Does, catch-Does, bind-Does,
}
use seam_sdk.Signing.{CallFields}
use seam_sdk.Keys.{Ed25519, agent_aid}
use seam_sdk.Client.Wire.{if-Does, ticket_for-Does, refresh_ticket-Does}
use seam_sdk.Jcs.{Tree, none_value}
use seam_sdk.Inputs.{Given, bytes_given, resolve_canonical}
use seam_sdk.Authorize.{
  Response, result_of, Request, build_authorize_request, authorize_with, refresh_and_authorize,
  authorize,
}

module _ (ed : Ed25519) (hash : Bytes → Bytes) (frames : ℕ) {W : Type 0} (outside : Outside W)
    (send : Request → W → Outcome Response × W) (seed : Bytes) (digest_only : Bool)
    (fields : CallFields) (aid : Text) where
  authorize_with-Does :
      (canonical ticket : Bytes)
      → Does aid 0 1
          (authorize_with ed hash frames outside send seed canonical digest_only fields ticket)
  unfolding authorize_with
  authorize_with-Does canonical ticket =
      bind-Does
        (lift-Does aid (
          build_authorize_request ed hash frames seed none_value (some (bytes_given canonical))
            digest_only ticket fields))
        λ req. sending-Does aid none (send req)

  -- Whatever the server answers, `authorize` attempts at most two admissions and sends its request
  -- at most twice, and it writes no other agent's cache.
  pub authorize-Moves :
      agent_aid ed seed ≡ ok aid
      → (tool_input : Tree) (given : Option Given) (s : Client W)
      → Moves aid 2 2 s
          (after (authorize ed hash frames outside send seed tool_input given digest_only fields s))
  unfolding authorize refresh_and_authorize
  authorize-Moves named tool_input given s =
      (bind-Does (lift-Does aid (resolve_canonical frames tool_input given)) λ canonical.
          bind-Does (ticket_for-Does ed hash outside seed aid named) λ ticket.
            bind-Does
              (catch-Does (authorize_with-Does canonical ticket) λ e.
                if-Does (is_unauthenticated e)
                  (bind-Does (refresh_ticket-Does ed hash outside seed aid named ticket)
                    λ fresh. authorize_with-Does canonical fresh)
                  (weaken-Does (omega arith) (omega arith) (raise-Does aid e)))
              λ resp. lift-Does aid (result_of resp)).from
        s
