-- ===== src/Client.antt =====
-- The credentialed calls of `SeamClient` (`python/seam_sdk/client.py`): the ticket of a signer, its
-- refresh, and the one resend.
pub mod Wire
pub mod Refresh
mod Refusals
pub mod Clean
pub mod Burned
pub mod Server
mod Runs
use seam_sdk.Prelude.{
  ℕ, ◌+◌, ◌-◌, ◌/◌, ◌%◌, ◌++◌, Option, none, some, List, [], ◌∷◌, codes, map, bytes_eq, ltb, ◌&&◌,
  ◌||◌, not, if◌then◌else◌, Bool, true, false, Result, ok, err, String,
}
use seam_sdk.Bytes.{Bytes, Text}
use seam_sdk.Errors.{
  Failure, is_refusal, is_unauthenticated, is_session_unavailable, is_tenant_moving,
}
use seam_sdk.Tickets.{TicketCache, empty, get, store}
use seam_sdk.Calls.{
  Outcome, Credential, Grant, Outside, Event, admitting, sending, Client, Act, pure, raise, lift,
  outside_call, wire, ◌>>=◌, ◌>>◌, catch, cache_of, set_cache,
}
use seam_sdk.Keys.{Ed25519, agent_aid, request_sig}

-- `"sha256:" + sha256(canonical).hexdigest()`.
unfoldable pub hex_digit : ℕ → ℕ
hex_digit n = if ltb n 10 then b'0' + n else b'a' + (n - 10)

unfoldable pub hexdigest : Bytes → Text
unfolding hex_digit
hexdigest [] = []
hexdigest (b ∷ bs) = hex_digit (b / 16) ∷ hex_digit (b % 16) ∷ hexdigest bs

unfoldable pub tool_input_digest : (Bytes → Bytes) → Bytes → Text
tool_input_digest hash canonical = codes "sha256:" ++ hexdigest (hash canonical)

-- The replay-guarded writes, by their full names.
abbrev pub coordination_verbs : List Text
coordination_verbs =
    codes "OpenSession"
    ∷ codes "SubmitProposal"
    ∷ codes "SubmitEvaluation"
    ∷ codes "SubmitObjection"
    ∷ codes "SubmitVote"
    ∷ codes "SubmitCommit"
    ∷ codes "SubmitApprovalRequest"
    ∷ codes "SubmitBallot"
    ∷ codes "CancelSession"
    ∷ codes "ExpireSession"
    ∷ []

abbrev pub replay_guarded : List Text
replay_guarded =
    codes "/seam.api.v1.SeamContext/RegisterContext"
    ∷ map (λ verb. codes "/seam.api.v1.SeamCoordination/" ++ verb) coordination_verbs

unfoldable pub is_one_of : Text → List Text → Bool
is_one_of name [] = false
is_one_of name (x ∷ xs) = bytes_eq name x || is_one_of name xs

-- One call: the full name of its RPC, the resource's id, and the serialized body of a bodied verb.
pub record Call : Type 0 where
  pub rpc_full_name : Text
  pub resource_id : Text
  pub body : Option Bytes

unfoldable pub is_burned : Text → Failure → Bool
is_burned rpc_full_name e =
    is_one_of rpc_full_name replay_guarded && (is_session_unavailable e || is_tenant_moving e)

-- An explicit credential wins over the client's bound agent.
unfoldable pub signer : Option Bytes → Option Bytes → Option Bytes
signer (some credential) bound = some credential
signer none bound = bound

-- An `Agent` is its seed.
module _ (ed : Ed25519) (hash : Bytes → Bytes) where
  unfoldable pub body_digest : Option Bytes → Text
  body_digest none = []
  body_digest (some body) = tool_input_digest hash body

  unfoldable pub credential_metadata : Bytes → Bytes → Call → Result Credential
  credential_metadata seed ticket call =
      elim (request_sig ed seed ticket call.rpc_full_name call.resource_id
        (body_digest call.body)) [
          | err e ↦ err e
          | ok signature ↦ ok (record { ticket = ticket; signature = signature })
        ]

  module _ {W : Type 0} (outside : Outside W) where
    unfoldable pub admit_locked : Bytes → Text → Act W Bytes
    admit_locked seed aid = do
      grant ← wire (admitting aid) (outside.admit seed)
      now ← outside_call outside.now_ms
      set_cache aid (store grant.ticket grant.expires_at_ms now)
      pure grant.ticket

    unfoldable pub admit : Bytes → Act W Bytes
    admit seed = do aid ← lift (agent_aid ed seed); admit_locked seed aid

    unfoldable pub ticket_or_admit : Bytes → Text → Option Bytes → Act W Bytes
    ticket_or_admit seed aid (some ticket) = pure ticket
    ticket_or_admit seed aid none = admit_locked seed aid

    unfoldable pub ticket_for : Bytes → Act W Bytes
    ticket_for seed = do
      aid ← lift (agent_aid ed seed)
      cache ← cache_of aid
      now ← outside_call outside.now_ms
      ticket_or_admit seed aid (get cache now)

    unfoldable pub invalidate_and_admit : Bytes → Text → Act W Bytes
    invalidate_and_admit seed aid = do set_cache aid empty; admit_locked seed aid

    -- The ticket of another caller's refresh is adopted.
    unfoldable pub adopt_or_admit : Bytes → Bytes → Text → Option Bytes → Act W Bytes
    adopt_or_admit seed failed aid none = invalidate_and_admit seed aid
    adopt_or_admit seed failed aid (some current) =
        if bytes_eq current failed then invalidate_and_admit seed aid else pure current

    unfoldable pub refresh_ticket : Bytes → Bytes → Act W Bytes
    refresh_ticket seed failed = do
      aid ← lift (agent_aid ed seed)
      cache ← cache_of aid
      now ← outside_call outside.now_ms
      adopt_or_admit seed failed aid (get cache now)

    unfoldable pub drop_if : Text → Bytes → Option Bytes → Act W (Unit {0})
    drop_if aid failed none = pure _
    drop_if aid failed (some current) =
        if bytes_eq current failed then set_cache aid empty else pure _

    unfoldable pub invalidate_ticket : Bytes → Bytes → Act W (Unit {0})
    invalidate_ticket seed failed = do
      aid ← lift (agent_aid ed seed)
      cache ← cache_of aid
      now ← outside_call outside.now_ms
      drop_if aid failed (get cache now)

    unfoldable pub forget_burned_ticket : Bytes → Bytes → Text → Failure → Act W (Unit {0})
    forget_burned_ticket seed ticket rpc_full_name e =
        if is_burned rpc_full_name e then invalidate_ticket seed ticket else pure _

    module _ {A : Type 0} (send : Option Credential → W → Outcome A × W) where
      -- Signing, then the RPC, under one `try`.
      unfoldable pub signed_send : Bytes → Bytes → Call → Act W A
      signed_send seed ticket call = do
        md ← lift (credential_metadata seed ticket call)
        wire (sending (some md)) (send (some md))

      -- `except (UnavailableError, FailedPreconditionError)`, and any other is raised as it is.
      unfoldable pub forget_and_raise : Bytes → Bytes → Call → Failure → Act W A
      forget_and_raise seed ticket call e =
          if is_refusal e
          then (forget_burned_ticket seed ticket call.rpc_full_name e >> raise e)
          else raise e

      unfoldable pub last_send : Bytes → Bytes → Call → Act W A
      last_send seed ticket call =
          catch (signed_send seed ticket call) (forget_and_raise seed ticket call)

      unfoldable pub signed_once_as : Option Bytes → Call → Act W A
      signed_once_as none call = wire (sending none) (send none)
      signed_once_as (some seed) call = do ticket ← ticket_for seed; last_send seed ticket call

      unfoldable pub signed_once : Option Bytes → Option Bytes → Call → Act W A
      signed_once credential bound call = signed_once_as (signer credential bound) call

      unfoldable pub refresh_and_resend : Bytes → Bytes → Call → Act W A
      refresh_and_resend seed ticket call = do
        fresh ← refresh_ticket seed ticket
        last_send seed fresh call

      unfoldable pub on_rejection : Bool → Bytes → Bytes → Call → Failure → Act W A
      on_rejection retry seed ticket call e =
          if is_unauthenticated e
          then (if retry
              then refresh_and_resend seed ticket call
              else (invalidate_ticket seed ticket >> raise e))
          else forget_and_raise seed ticket call e

      unfoldable pub credentialed_call_as : Bool → Option Bytes → Call → Act W A
      credentialed_call_as retry none call = wire (sending none) (send none)
      credentialed_call_as retry (some seed) call = do
        ticket ← ticket_for seed
        catch (signed_send seed ticket call) (on_rejection retry seed ticket call)

      unfoldable pub credentialed_call : Bool → Option Bytes → Option Bytes → Call → Act W A
      credentialed_call retry credential bound call =
          credentialed_call_as retry (signer credential bound) call
