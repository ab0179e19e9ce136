-- ===== src/Client/Runs.antt =====
-- Calls against a small server, and the ticket theorems at it.
use seam_sdk.Prelude.{
  ℕ, suc, ◌+◌, ◌*◌, ap, subst, ◌<◌, ◌≤◌, ◌≡◌, ◌≢◌, refl, [], ◌∷◌, codes, ltb, Bool-cases, true, inl,
  inr, arith, Option, none, some, ok,
}
use seam_sdk.Bytes.{Bytes, encode, encode_char, pack_le, le_bytes}
use seam_sdk.Wire.{frame, write, join}
use seam_sdk.Base64.{b64url_nopad, urlsafe_b64encode, urlsafe_char, rstrip_pad}
use seam_sdk.Errors.{
  Failure, map_rpc_error, unauthenticated, unavailable, by_code, is_refusal, is_unauthenticated,
  is_unavailable_class, is_failed_precondition_class, is_session_unavailable, is_tenant_moving,
  session_unavailable_reason,
}
use seam_sdk.Errors.Refused.{bare, refusal_of, with_reason}
use seam_sdk.Tickets.{empty, get, store}
use seam_sdk.Proto.{read_field}
use seam_sdk.Proto.Written.{groups}
use seam_sdk.Bytes.Decode.{decode}
use seam_sdk.Details.Sent.{utf8}
use seam_sdk.Calls.{
  Outcome, returned, raised, Credential, Grant, Client, sending, pure, raise, lift, outside_call,
  wire, ◌>>=◌, catch, cache_of, set_cache, with_cache,
}
use seam_sdk.Calls.Moves.{Moves, after, admits, sends}
use seam_sdk.Keys.{agent_aid, aid_from_pubkey, request_sig}
use seam_sdk.Signing.{request_sig_payload}
use seam_sdk.Client.{
  Call, signer, body_digest, tool_input_digest, hexdigest, credential_metadata, admit_locked,
  ticket_or_admit, ticket_for, invalidate_and_admit, adopt_or_admit, refresh_ticket, drop_if,
  invalidate_ticket, is_burned, forget_burned_ticket, is_one_of, signed_send, forget_and_raise,
  last_send, signed_once, refresh_and_resend, on_rejection, credentialed_call_as, credentialed_call,
}
use seam_sdk.Client.Server.{toy, digest, grant_of, server, seed, rejected, aid, client}
use seam_sdk.Client.Burned.{credentialed_call_forgets}
use seam_sdk.Client.Wire.{credentialed_call-Moves}
use seam_sdk.Client.Refresh.{Window, Coalesced, refresh_all, refresh_all-Coalesced}

aid_of_seed : agent_aid toy seed ≡ ok aid
unfolding agent_aid
aid_of_seed = refl

abbrev refuses : Option Credential → ℕ → Outcome Bytes × ℕ
refuses md w = (raised (bare unauthenticated), w)

abbrev status_call : Call
status_call = record { rpc_full_name = codes "/s/Status"; resource_id = codes "x"; body = none }

credentialed_call-Moves_example :
    Moves aid 2 2 client
      (after (credentialed_call toy digest server refuses true (some seed) none status_call client))
    × Moves aid 1 1 client
        (after (signed_once toy digest server refuses (some seed) none status_call client))
unfolding signer
credentialed_call-Moves_example =
    credentialed_call-Moves toy digest server refuses true (some seed) none status_call seed aid
      refl aid_of_seed client

-- A server that rejects every ticket is called twice, with one admission between.
rejected_twice :
    admits
        (after (
          credentialed_call toy digest server refuses true (some seed) none status_call client)).log
      ≡ 1
    × sends
        (after (
          credentialed_call toy digest server refuses true (some seed) none status_call client)).log
      ≡ 2
unfolding admits sends credentialed_call signer credentialed_call_as ticket_for ◌>>=◌ lift agent_aid
    cache_of outside_call get ticket_or_admit pure catch signed_send credential_metadata request_sig
    request_sig_payload body_digest encode encode_char join write frame pack_le le_bytes wire
    on_rejection map_rpc_error by_code is_unauthenticated refresh_and_resend refresh_ticket
    adopt_or_admit invalidate_and_admit set_cache with_cache admit_locked store last_send
    forget_and_raise is_refusal raise aid_from_pubkey b64url_nopad urlsafe_b64encode urlsafe_char
    rstrip_pad is_unavailable_class is_failed_precondition_class
rejected_twice = (refl, refl)

same_grant : (w : ℕ) (g : Grant) → returned (grant_of w) ≡ returned g → grant_of w ≡ g
same_grant w g e = cc

window : Window toy digest server seed rejected 0 10
window = record {
  clock = λ w. (omega arith, omega arith);
  grants = λ w w' g h.
      let e : grant_of w ≡ g = same_grant w g (ap (λ p. p.0) h) in
      subst
        (λ (g : Grant).
          (g.ticket ≢ [])
          × (g.ticket ≢ rejected)
          × (10 < g.expires_at_ms)
          × (10 * suc 10 + 8 * 0 ≤ 10 * 0 + 8 * g.expires_at_ms))
        e ((λ q. cc), (λ q. cc), omega arith, omega arith);
}

stale : (m : ℕ) (ticket : Bytes) → get (client.tickets aid) m ≡ some ticket → ticket ≡ rejected
unfolding get
stale m ticket h = elim (Bool-cases (ltb m 100)) [
  | inl early ↦ some_rejected (rw early at h)
  | inr late ↦ absurd (none_some (rw late at h))
]
  where
    some_rejected : some rejected ≡ some ticket → ticket ≡ rejected
    some_rejected e = cc

    none_some : none ≡ some ticket → ⊥
    none_some e = cc

refresh_all-Coalesced_example :
    let (os, s) = refresh_all toy digest server seed rejected 3 client in
    Coalesced toy digest server seed rejected client os s
refresh_all-Coalesced_example =
    refresh_all-Coalesced toy digest server seed rejected aid aid_of_seed 0 10 window 3 client stale

served_early : get (store rejected 1000 5) 800 ≡ some rejected
unfolding get store
served_early = refl

-- At 80% of its time to live it is served no more.
not_served_late : get (store rejected 1000 5) 801 ≡ none
unfolding get store
not_served_late = refl

-- A proposal that the runtime refuses as unavailable, under the cached ticket.
abbrev proposal : Call
proposal = record {
  rpc_full_name = codes "/seam.api.v1.SeamCoordination/SubmitProposal";
  resource_id = [];
  body = some (1 ∷ []);
}

abbrev burns : Option Credential → ℕ → Outcome Bytes × ℕ
burns md w = (raised (refusal_of unavailable (with_reason session_unavailable_reason ∷ [])), w)

abbrev burned : Failure
burned = refusal_of unavailable (with_reason session_unavailable_reason ∷ [])

abbrev spent : Credential
spent = record { ticket = rejected; signature = seed }

abbrev after_burn : Client ℕ
after_burn = record {
  outside = 0;
  tickets = with_cache aid empty client.tickets;
  log = sending (some spent) ∷ [];
}

unavailable_run :
    credentialed_call toy digest server burns true (some seed) none proposal client
    ≡ (raised burned, after_burn)
unfolding credentialed_call signer credentialed_call_as ticket_for ◌>>=◌ lift agent_aid cache_of
    outside_call get ticket_or_admit pure catch signed_send credential_metadata request_sig
    request_sig_payload body_digest tool_input_digest hexdigest encode encode_char join write frame
    pack_le le_bytes wire on_rejection map_rpc_error by_code is_unauthenticated forget_and_raise
    is_refusal is_unavailable_class is_failed_precondition_class forget_burned_ticket is_burned
    is_one_of is_session_unavailable is_tenant_moving invalidate_ticket drop_if set_cache raise
    aid_from_pubkey b64url_nopad urlsafe_b64encode urlsafe_char rstrip_pad groups read_field utf8
    decode
unavailable_run = refl

guarded_burn : is_burned proposal.rpc_full_name burned ≡ true
unfolding is_burned is_one_of is_session_unavailable is_tenant_moving map_rpc_error by_code groups
    read_field utf8 decode encode encode_char
guarded_burn = refl

credentialed_call_forgets_example : get (after_burn.tickets aid) 50 ≢ some rejected
unfolding signer
credentialed_call_forgets_example =
    credentialed_call_forgets toy digest server burns true (some seed) none proposal seed aid 5
      client after_burn burned spent [] 50 refl aid_of_seed (λ w. omega arith) unavailable_run
      guarded_burn refl (omega arith)
