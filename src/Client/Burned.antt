-- ===== src/Client/Burned.antt =====
-- A ticket whose proof the runtime burned is not used again.
use seam_sdk.Prelude.{
  ℕ, ◌≤◌, ◌≡◌, ◌≢◌, sym, ap, subst, ◌∙◌, ◌⊎◌, inl, inr, List, ◌∷◌, Bool, Bool-cases, true, false,
  Option, some, ok, err, Result-cases, ok_injective,
}
use seam_sdk.Prelude.{Exn}
use seam_sdk.Bytes.{Bytes, Text}
use seam_sdk.Errors.{Failure, is_refusal, is_unauthenticated}
use seam_sdk.Tickets.{get}
use seam_sdk.Calls.{
  Outcome, returned, raised, Credential, Outside, Event, sending, Client, Act, pure, raise, lift,
  wire, ◌>>=◌, catch, handle,
}
use seam_sdk.Keys.{Ed25519, agent_aid, request_sig}
use seam_sdk.Client.{
  Call, body_digest, credential_metadata, invalidate_ticket, is_burned, forget_burned_ticket,
  signer, signed_send, forget_and_raise, last_send, refresh_and_resend, on_rejection,
  credentialed_call_as, credentialed_call,
}
use seam_sdk.Client.Refusals.{is_burned-is_refusal, is_unauthenticated-is_refusal, local_unburned}
use seam_sdk.Client.Clean.{
  Clean, Burns, bind-Burns, ticket_for-Burns, refresh_ticket-Burns, invalidate_drops,
}

module _ {W : Type 0} (call : Call) (aid : Text) (last : ℕ) where
  module _ (ed : Ed25519) (hash : Bytes → Bytes) (outside : Outside W) (seed : Bytes)
      (named : agent_aid ed seed ≡ ok aid)
      (clock : (w : W) → let (n, w') = outside.now_ms w in n ≤ last) where
    -- A burning refusal was raised by a send under this ticket.
    abbrev SentUnder : {A : Type 0} → Bytes → Outcome A × Client W → Type 0
    SentUnder ticket (returned a, s) = Unit
    SentUnder ticket (raised e, s) =
        is_burned call.rpc_full_name e ≡ true
        → (md : Credential) (before : List Event) → s.log ≡ sending (some md) ∷ before
        → md.ticket ≡ ticket

    module _ {A : Type 0} (send : Option Credential → W → Outcome A × W) where
      credential_ticket :
          (ticket : Bytes) (md : Credential)
          → credential_metadata ed hash seed ticket call ≡ ok md
          → md.ticket ≡ ticket
      unfolding credential_metadata
      credential_ticket ticket md h =
          elim (Result-cases (
            request_sig ed seed ticket call.rpc_full_name call.resource_id
              (body_digest ed hash call.body))) [
                | inl (g, hg) ↦ same g (rw (hg, credential_metadata) at h)
                | inr (x, hx) ↦ absurd (none_made x (rw (hx, credential_metadata) at h))
              ]
        where
          same :
              (g : Bytes)
              → ok (record { ticket = ticket; signature = g }) ≡ ok md
              → md.ticket ≡ ticket
          same g e = sym (ap (λ (md : Credential). md.ticket) (ok_injective e))

          none_made : (x : Exn) → err x ≡ ok md → ⊥
          none_made x e = cc

      signed_send-SentUnder :
          (ticket : Bytes) (s : Client W)
          → SentUnder ticket (signed_send ed hash outside send seed ticket call s)
      unfolding signed_send ◌>>=◌ lift wire
      signed_send-SentUnder ticket s =
          elim (Result-cases (credential_metadata ed hash seed ticket call)) [
            | inr (x, hx) ↦ rw hx (λ h. absurd (local_unburned call.rpc_full_name x h))
            | inl (md, hm) ↦ rw hm (sent md hm (send (some md) s.outside))
          ]
        where
          head :
              (md md' : Credential) (before : List Event)
              → sending (some md) ∷ s.log ≡ sending (some md') ∷ before
              → md'.ticket ≡ md.ticket
          head md md' before k =
              let e : md ≡ md' = cc in sym (ap (λ (md : Credential). md.ticket) e)

          sent :
              (md : Credential)
              → credential_metadata ed hash seed ticket call ≡ ok md
              → (p : Outcome A × W)
              → let (o, w) = p in
                let s' : Client W = record {
                  outside = w;
                  tickets = s.tickets;
                  log = sending (some md) ∷ s.log;
                } in
                SentUnder ticket (o, s')
          sent md hm (returned a, w) = _
          sent md hm (raised e, w) =
              λ h md' before k. head md md' before k ∙ credential_ticket ticket md hm

      -- The handler of a refusal: what it raises is clean if the refusal was one of this ticket.
      forget_and_raise-Clean :
          (ticket : Bytes) (e : Failure) (s : Client W)
          → SentUnder {A = A} ticket (raised e, s)
          → Clean call aid last (forget_and_raise ed hash outside send seed ticket call e s)
      unfolding forget_and_raise forget_burned_ticket ◌>>=◌ raise pure
      forget_and_raise-Clean ticket e s under = elim (Bool-cases (is_burned call.rpc_full_name e)) [
        | inr kept ↦ unburned kept (Bool-cases (is_refusal e))
        | inl burned ↦
            let refused = is_burned-is_refusal call.rpc_full_name e burned in
            let (o, s') = invalidate_ticket ed hash outside seed ticket s in
            let (eo, el, dropped) =
              invalidate_drops call aid last ed hash outside seed named clock ticket s in
            rw (refused, burned, eo)
              (λ h md before m k late served.
                dropped m late (served ∙ ap some (under burned md before (sym el ∙ k))))
      ]
        where
          unburned :
              is_burned call.rpc_full_name e ≡ false
              → (is_refusal e ≡ true) ⊎ (is_refusal e ≡ false)
              → Clean call aid last (forget_and_raise ed hash outside send seed ticket call e s)
          unburned kept (inl r) = rw (r, kept) (λ h. let k : true ≡ false = sym h ∙ kept in cc)
          unburned kept (inr r) = rw r (λ h. let k : true ≡ false = sym h ∙ kept in cc)

      handle-Clean :
          (ticket : Bytes) (h : Failure → Act W A) (p : Outcome A × Client W)
          → SentUnder ticket p
          → ((e : Failure) (s : Client W)
              → SentUnder {A = A} ticket (raised e, s)
              → Clean call aid last (h e s))
          → Clean call aid last (handle h p)
      handle-Clean ticket h (returned a, s) under k = _
      handle-Clean ticket h (raised e, s) under k = k e s under

      catch-Burns :
          (ticket : Bytes) (h : Failure → Act W A)
          → ((e : Failure) (s : Client W)
              → SentUnder {A = A} ticket (raised e, s)
              → Clean call aid last (h e s))
          → Burns call aid last (catch (signed_send ed hash outside send seed ticket call) h)
      unfolding catch
      catch-Burns ticket h k = record {
        from = λ s.
            handle-Clean ticket h (signed_send ed hash outside send seed ticket call s)
              (signed_send-SentUnder ticket s) k;
      }

      last_send-Burns :
          (ticket : Bytes) → Burns call aid last (last_send ed hash outside send seed ticket call)
      unfolding last_send
      last_send-Burns ticket = catch-Burns ticket _ (forget_and_raise-Clean ticket)

      raise-Burns :
          (e : Failure)
          → (is_burned call.rpc_full_name e ≡ true → ⊥)
          → Burns call aid last (raise {W = W} {A = A} e)
      unfolding raise
      raise-Burns e h = record { from = λ s burned. absurd (h burned) }

      invalidate_ticket-Burns :
          (failed : Bytes) → Burns call aid last (invalidate_ticket ed hash outside seed failed)
      invalidate_ticket-Burns failed = record {
        from = λ s.
            let (o, s') = invalidate_ticket ed hash outside seed failed s in
            let (eo, el, dropped) =
              invalidate_drops call aid last ed hash outside seed named clock failed s in
            rw eo _;
      }

      on_rejection-Clean :
          (retry : Bool) (ticket : Bytes) (e : Failure) (s : Client W)
          → SentUnder {A = A} ticket (raised e, s)
          → Clean call aid last (on_rejection ed hash outside send retry seed ticket call e s)
      unfolding on_rejection refresh_and_resend
      on_rejection-Clean retry ticket e s under = elim (Bool-cases (is_unauthenticated e)) [
        | inr other ↦ rw other (forget_and_raise-Clean ticket e s under)
        | inl rejected ↦ elim (Bool-cases retry) [
          | inl again ↦
              rw (rejected, again)
                ((bind-Burns call aid last
                    (refresh_ticket-Burns call aid last ed hash outside seed named clock ticket)
                    λ fresh. last_send-Burns fresh).from
                  s)
          | inr once ↦
              rw (rejected, once)
                ((bind-Burns call aid last (invalidate_ticket-Burns ticket) λ done.
                    raise-Burns e λ burned.
                      is_unauthenticated-is_refusal e rejected
                        (is_burned-is_refusal call.rpc_full_name e burned)).from
                  s)
        ]
      ]

      credentialed-Burns :
          (retry : Bool)
          → Burns call aid last (credentialed_call_as ed hash outside send retry (some seed) call)
      unfolding credentialed_call_as
      credentialed-Burns retry =
          bind-Burns call aid last (ticket_for-Burns call aid last ed hash outside seed named clock)
            λ ticket. catch-Burns ticket _ (on_rejection-Clean retry ticket)

module _ (ed : Ed25519) (hash : Bytes → Bytes) {W A : Type 0} (outside : Outside W)
    (send : Option Credential → W → Outcome A × W) where
  -- When a replay-guarded call raises the runtime's `SESSION_UNAVAILABLE` or `TENANT_MOVING`, and the
  -- last thing on the wire was a send under some ticket, that ticket is not served for the signer at
  -- any time from the latest reading of the clock on: the next attempt signs under another one.
  pub credentialed_call_forgets :
      (retry : Bool) (credential bound : Option Bytes) (call : Call) (seed : Bytes) (aid : Text)
      (last : ℕ) (s s' : Client W) (e : Failure) (md : Credential) (before : List Event) (now : ℕ)
      → signer credential bound ≡ some seed
      → agent_aid ed seed ≡ ok aid
      → ((w : W) → let (n, w') = outside.now_ms w in n ≤ last)
      → credentialed_call ed hash outside send retry credential bound call s ≡ (raised e, s')
      → is_burned call.rpc_full_name e ≡ true
      → s'.log ≡ sending (some md) ∷ before
      → last ≤ now
      → get (s'.tickets aid) now ≢ some md.ticket
  unfolding credentialed_call
  credentialed_call_forgets retry credential bound call seed aid last s s' e md before now signs
        named clock h burned sent late =
      subst (Clean call aid last)
        (ap (λ who. credentialed_call_as ed hash outside send retry who call s) (sym signs) ∙ h)
        ((credentialed-Burns call aid last ed hash outside seed named clock send retry).from s)
        burned md before now sent late
