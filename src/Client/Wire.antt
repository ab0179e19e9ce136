-- ===== src/Client/Wire.antt =====
-- How often a credentialed call goes on the wire, and which cache it writes.
use seam_sdk.Prelude.{
  ℕ, ◌≡◌, bytes_eq, Bool, true, false, arith, if◌then◌else◌, Option, none, some, ok,
}
use seam_sdk.Bytes.{Bytes, Text}
use seam_sdk.Errors.{Failure, is_refusal, is_unauthenticated}
use seam_sdk.Tickets.{get, empty}
use seam_sdk.Calls.{Outcome, Credential, Outside, Client, Act}
use seam_sdk.Calls.Moves.{
  Moves, Does, after, pure-Does, raise-Does, lift-Does, outside_call-Does, admitting-Does,
  sending-Does, weaken-Does, catch-Does, bind-Does, lift-bind-Does, cache_of-Does, set_cache-Does,
}
use seam_sdk.Keys.{Ed25519, agent_aid}
use seam_sdk.Client.{
  Call, signed_once, signed_once_as, admit_locked, ticket_or_admit, ticket_for,
  invalidate_and_admit, adopt_or_admit, refresh_ticket, drop_if, invalidate_ticket,
  forget_burned_ticket, is_burned, signer, credential_metadata, signed_send, forget_and_raise,
  last_send, refresh_and_resend, on_rejection, credentialed_call_as, credentialed_call,
}

pub if-Does :
    {W A : Type 0} {aid : Text} {a b : ℕ} (t : Bool) {m n : Act W A}
    → Does aid a b m
    → Does aid a b n
    → Does aid a b (if t then m else n)
if-Does true h k = h
if-Does false h k = k

module _ (ed : Ed25519) (hash : Bytes → Bytes) {W : Type 0} (outside : Outside W) (seed : Bytes)
    (aid : Text) (named : agent_aid ed seed ≡ ok aid) where
  admit_locked-Does : Does aid 1 0 (admit_locked ed hash outside seed aid)
  unfolding admit_locked
  admit_locked-Does = bind-Does (admitting-Does aid aid (outside.admit seed)) λ grant.
      bind-Does (outside_call-Does aid outside.now_ms)
        λ now. bind-Does (set_cache-Does aid _) λ _. pure-Does aid grant.ticket

  ticket_or_admit-Does :
      (o : Option Bytes) → Does aid 1 0 (ticket_or_admit ed hash outside seed aid o)
  unfolding ticket_or_admit
  ticket_or_admit-Does (some t) = weaken-Does (omega arith) (omega arith) (pure-Does aid t)
  ticket_or_admit-Does none = admit_locked-Does

  pub ticket_for-Does : Does aid 1 0 (ticket_for ed hash outside seed)
  unfolding ticket_for
  ticket_for-Does = lift-bind-Does _ named (
      bind-Does (cache_of-Does aid aid) λ cache.
        bind-Does (outside_call-Does aid outside.now_ms)
          λ now. ticket_or_admit-Does (get cache now))

  invalidate_and_admit-Does : Does aid 1 0 (invalidate_and_admit ed hash outside seed aid)
  unfolding invalidate_and_admit
  invalidate_and_admit-Does = bind-Does (set_cache-Does aid empty) λ _. admit_locked-Does

  adopt_or_admit-Does :
      (failed : Bytes) (o : Option Bytes)
      → Does aid 1 0 (adopt_or_admit ed hash outside seed failed aid o)
  unfolding adopt_or_admit
  adopt_or_admit-Does failed none = invalidate_and_admit-Does
  adopt_or_admit-Does failed (some current) =
      if-Does (bytes_eq current failed) invalidate_and_admit-Does
        (weaken-Does (omega arith) (omega arith) (pure-Does aid current))

  pub refresh_ticket-Does :
      (failed : Bytes) → Does aid 1 0 (refresh_ticket ed hash outside seed failed)
  unfolding refresh_ticket
  refresh_ticket-Does failed = lift-bind-Does _ named (
      bind-Does (cache_of-Does aid aid) λ cache.
        bind-Does (outside_call-Does aid outside.now_ms)
          λ now. adopt_or_admit-Does failed (get cache now))

  drop_if-Does :
      (failed : Bytes) (o : Option Bytes) → Does aid 0 0 (drop_if ed hash outside aid failed o)
  unfolding drop_if
  drop_if-Does failed none = pure-Does aid _
  drop_if-Does failed (some current) =
      if-Does (bytes_eq current failed) (set_cache-Does aid empty) (pure-Does aid _)

  invalidate_ticket-Does :
      (failed : Bytes) → Does aid 0 0 (invalidate_ticket ed hash outside seed failed)
  unfolding invalidate_ticket
  invalidate_ticket-Does failed = lift-bind-Does _ named (
      bind-Does (cache_of-Does aid aid) λ cache.
        bind-Does (outside_call-Does aid outside.now_ms) λ now. drop_if-Does failed (get cache now))

  module _ {A : Type 0} (send : Option Credential → W → Outcome A × W) (call : Call) where
    signed_send-Does :
        (ticket : Bytes) → Does aid 0 1 (signed_send ed hash outside send seed ticket call)
    unfolding signed_send
    signed_send-Does ticket =
        bind-Does (lift-Does aid (credential_metadata ed hash seed ticket call))
          λ md. sending-Does aid (some md) (send (some md))

    forget_and_raise-Does :
        (ticket : Bytes) (e : Failure)
        → Does aid 0 0 (forget_and_raise ed hash outside send seed ticket call e)
    unfolding forget_and_raise forget_burned_ticket
    forget_and_raise-Does ticket e =
        if-Does (is_refusal e)
          (bind-Does
            (if-Does (is_burned call.rpc_full_name e) (invalidate_ticket-Does ticket)
              (pure-Does aid _))
            λ _. raise-Does aid e)
          (raise-Does aid e)

    last_send-Does :
        (ticket : Bytes) → Does aid 0 1 (last_send ed hash outside send seed ticket call)
    unfolding last_send
    last_send-Does ticket = catch-Does (signed_send-Does ticket) (forget_and_raise-Does ticket)

    on_rejection-Does :
        (retry : Bool) (ticket : Bytes) (e : Failure)
        → Does aid 1 1 (on_rejection ed hash outside send retry seed ticket call e)
    unfolding on_rejection refresh_and_resend
    on_rejection-Does retry ticket e =
        if-Does (is_unauthenticated e)
          (if-Does retry (bind-Does (refresh_ticket-Does ticket) λ fresh. last_send-Does fresh) (
            weaken-Does (omega arith) (omega arith)
              (bind-Does (invalidate_ticket-Does ticket) λ _. raise-Does aid e)))
          (weaken-Does (omega arith) (omega arith) (forget_and_raise-Does ticket e))

    credentialed-Does :
        (retry : Bool)
        → Does aid 2 2 (credentialed_call_as ed hash outside send retry (some seed) call)
    unfolding credentialed_call_as
    credentialed-Does retry =
        bind-Does ticket_for-Does
          λ ticket. catch-Does (signed_send-Does ticket) (on_rejection-Does retry ticket)

module _ (ed : Ed25519) (hash : Bytes → Bytes) {W A : Type 0} (outside : Outside W)
    (send : Option Credential → W → Outcome A × W) where
  -- A credentialed call for a signer with this AID attempts at most two admissions and sends its RPC
  -- at most twice, whatever the server answers, and the call that does not retry attempts and sends
  -- at most once; both leave the cache of every other AID as it was, also that of a bound agent
  -- whom an explicit credential overrides.
  pub credentialed_call-Moves :
      (retry : Bool) (credential bound : Option Bytes) (call : Call) (seed : Bytes) (aid : Text)
      → signer credential bound ≡ some seed
      → agent_aid ed seed ≡ ok aid
      → (s : Client W)
      → Moves aid 2 2 s
          (after (credentialed_call ed hash outside send retry credential bound call s))
        × Moves aid 1 1 s (after (signed_once ed hash outside send credential bound call s))
  unfolding credentialed_call signed_once signed_once_as
  credentialed_call-Moves retry credential bound call seed aid signs named s = (
    rw signs ((credentialed-Does ed hash outside seed aid named send call retry).from s),
    rw signs (
        (bind-Does (ticket_for-Does ed hash outside seed aid named)
            λ ticket. last_send-Does ed hash outside seed aid named send call ticket).from
          s),
  )
