-- ===== src/Verbs/Tries.antt =====
-- How often a method goes on the wire, and which methods sign their whole message.
use seam_sdk.Prelude.{
  ℕ, ◌≡◌, refl, Option, some, [], Bool, true, false, ok, err, arith, Result, after_bind,
  ok_injective, subst,
}
use seam_sdk.Bytes.{Bytes, Text}
use seam_sdk.Keys.{Ed25519, agent_aid}
use seam_sdk.Calls.{Outcome, Outside, Client, Act, lift, ◌>>=◌}
use seam_sdk.Calls.Moves.{Moves, Does, after, bind-Does, pure-Does, weaken-Does, stay}
use seam_sdk.Client.{signer, credentialed_call, signed_once, is_one_of, replay_guarded}
use seam_sdk.Client.Wire.{credentialed_call-Moves}
use seam_sdk.Reports.{check_idempotency_key, check_outcome_fields, u32}
use seam_sdk.Requests.{
  approval_request_sent, report_outcome_sent, Rpc, full_name, Message, Route, once, retried, Sent,
  bodied, by_id,
}
use seam_sdk.Verbs.{
  Method, open_session, submit_proposal, submit_vote, submit_evaluation, submit_objection,
  submit_commit, submit_approval_request, submit_ballot, cancel_session, expire_session,
  session_status, get_decision, replay_decision, get_commitment_proof, get_escalation,
  report_outcome, register_context, resolve_context, who_am_i, request_of, call_of, Stubs,
  presented, send_as, presentation_for, perform,
}

-- The methods that are sent once: those that open or end a session.
abbrev pub sends_once : Method → Bool
sends_once (open_session agent session people budget limits mode subjects) = true
sends_once (cancel_session session) = true
sends_once (expire_session session) = true
sends_once _ = false

abbrev pub tries : Bool → ℕ
tries true = 1
tries false = 2

abbrev pub path_tries : Sent → ℕ
path_tries (bodied once rpc message) = 1
path_tries _ = 2

-- A replay-guarded RPC is signed over its whole message, and a message that is not is of an RPC that
-- the runtime does not guard.
pub data Covered : Sent → Type 0 where
  guarded :
      (path : Route) (rpc : Rpc) (message : Message)
      → is_one_of (full_name rpc) replay_guarded ≡ true
      → Covered (bodied path rpc message)
  exempt :
      (rpc : Rpc) (message : Message)
      → is_one_of (full_name rpc) replay_guarded ≡ false
      → Covered (bodied retried rpc message)
  read :
      (rpc : Rpc) (message : Message) (id : Text)
      → is_one_of (full_name rpc) replay_guarded ≡ false
      → Covered (by_id rpc message id)

abbrev Settles : ℕ → Sent → Type 0
Settles n sent = Covered sent × (path_tries sent ≡ n)

settles :
    {sent : Sent} (n : ℕ) (built : Sent) → Settles n built → ok built ≡ ok sent → Settles n sent
settles n built h e = subst (Settles n) (ok_injective e) h

request_of-Settles :
    (presentation : Bytes) (m : Method) (sent : Sent)
    → request_of presentation m ≡ ok sent
    → Settles (tries (sends_once m)) sent
unfolding request_of approval_request_sent report_outcome_sent is_one_of full_name
request_of-Settles p (open_session a s q b l o j) sent h = settles _ _ (guarded _ _ _ refl, refl) h
request_of-Settles p (submit_proposal s q r o u) sent h = settles _ _ (guarded _ _ _ refl, refl) h
request_of-Settles p (submit_vote s v q o r u) sent h = settles _ _ (guarded _ _ _ refl, refl) h
request_of-Settles p (submit_evaluation s e q r c o f u) sent h =
    settles _ _ (guarded _ _ _ refl, refl) h
request_of-Settles p (submit_objection s o q r v u) sent h =
    settles _ _ (guarded _ _ _ refl, refl) h
request_of-Settles p (submit_commit s c a o u) sent h = settles _ _ (guarded _ _ _ refl, refl) h
request_of-Settles p (submit_approval_request s r q a n u) sent h0 =
    after_bind (u32 n) _ h0 λ k h1 h. settles _ _ (guarded _ _ _ refl, refl) h
request_of-Settles p (submit_ballot s v r c o u) sent h = settles _ _ (guarded _ _ _ refl, refl) h
request_of-Settles p (cancel_session s) sent h = settles _ _ (guarded _ _ _ refl, refl) h
request_of-Settles p (expire_session s) sent h = settles _ _ (guarded _ _ _ refl, refl) h
request_of-Settles p (session_status s) sent h = settles _ _ (read _ _ _ refl, refl) h
request_of-Settles p (get_decision d) sent h = settles _ _ (read _ _ _ refl, refl) h
request_of-Settles p (replay_decision d) sent h = settles _ _ (read _ _ _ refl, refl) h
request_of-Settles p (get_commitment_proof d) sent h = settles _ _ (read _ _ _ refl, refl) h
request_of-Settles p (get_escalation a) sent h = settles _ _ (read _ _ _ refl, refl) h
request_of-Settles p (report_outcome d c v k r m o) sent h0 =
    after_bind (check_idempotency_key k) _ h0 λ key h1 h2.
      after_bind (check_outcome_fields r m o) _ h2
        λ fields h3 h. settles _ _ (exempt _ _ refl, refl) h
request_of-Settles p (register_context c f d) sent h = settles _ _ (guarded _ _ _ refl, refl) h
request_of-Settles p (resolve_context r) sent h = settles _ _ (exempt _ _ refl, refl) h
request_of-Settles p who_am_i sent h = settles _ _ (read _ _ _ refl, refl) h

-- Whatever a method builds, a replay-guarded RPC is sent with a signature over its whole message; what
-- is signed over an id only, or is sent again without a guard, is no replay-guarded RPC.
pub request_of-Covered :
    (presentation : Bytes) (m : Method) (sent : Sent)
    → request_of presentation m ≡ ok sent
    → Covered sent
request_of-Covered p m sent h = (request_of-Settles p m sent h).0

module _ (ed : Ed25519) (hash : Bytes → Bytes) {W R : Type 0} (outside : Outside W)
    (stubs : Stubs W R) where
  -- A checked value is passed on, or its error raised.
  checked-Does :
      {n : ℕ} (aid : Text) (r : Result Sent) (f : Sent → Act W R)
      → ((sent : Sent) → r ≡ ok sent → Does aid n n (f sent))
      → Does aid n n (lift r >>= f)
  unfolding lift ◌>>=◌
  checked-Does aid (ok sent) f h = record { from = (h sent refl).from }
  checked-Does {n} aid (err e) f h = record { from = λ s. stay aid n n s }

  presented-Does : (aid : Text) (f : W → Outcome Bytes × W) → Does aid 0 0 (presented f)
  unfolding presented
  presented-Does aid f = record {
    from = λ s. record { others = λ other n. refl; admitted = omega arith; sent = omega arith };
  }

  presentation_for-Does :
      (aid : Text) (m : Method) → Does aid 0 0 (presentation_for ed hash outside stubs m)
  unfolding presentation_for
  presentation_for-Does aid (open_session a s q b l o j) = presented-Does aid (stubs.presentation a)
  presentation_for-Does aid _ = pure-Does aid []

  module _ (credential bound : Option Bytes) (seed : Bytes) (aid : Text) where
    wire_bound :
        (rpc : Rpc) (message : Message) (sent : Sent)
        → signer credential bound ≡ some seed
        → agent_aid ed seed ≡ ok aid
        → (s : Client W)
        → Moves aid 2 2 s (
            after (
              credentialed_call ed hash outside
                (stubs.serve rpc message)
                true
                credential
                bound
                (call_of stubs.serialize sent)
                s))
          × Moves aid 1 1 s (
              after (
                signed_once ed hash outside
                  (stubs.serve rpc message)
                  credential
                  bound
                  (call_of stubs.serialize sent)
                  s))
    wire_bound rpc message sent signs named =
        credentialed_call-Moves ed hash outside (stubs.serve rpc message) true credential bound
          (call_of stubs.serialize sent) seed aid signs named

    send_as-Does :
        signer credential bound ≡ some seed
        → agent_aid ed seed ≡ ok aid
        → (sent : Sent)
        → Does aid
            (path_tries sent)
            (path_tries sent)
            (send_as ed hash outside stubs credential bound sent)
    unfolding send_as
    send_as-Does signs named (bodied once rpc message) = record {
      from = λ s. (wire_bound rpc message (bodied once rpc message) signs named s).1;
    }
    send_as-Does signs named (bodied retried rpc message) = record {
      from = λ s. (wire_bound rpc message (bodied retried rpc message) signs named s).0;
    }
    send_as-Does signs named (by_id rpc message id) = record {
      from = λ s. (wire_bound rpc message (by_id rpc message id) signs named s).0;
    }

    -- With a signer of this AID, a method that opens or ends a session attempts at most one admission
    -- and one send, every other at most two of each, and neither writes the cache of another AID.
    pub perform-Moves :
        (m : Method)
        → signer credential bound ≡ some seed
        → agent_aid ed seed ≡ ok aid
        → (s : Client W)
        → Moves aid
            (tries (sends_once m))
            (tries (sends_once m))
            s
            (after (perform ed hash outside stubs credential bound m s))
    unfolding perform
    perform-Moves m signs named s =
        (weaken-Does (omega arith) (omega arith) (
            bind-Does (presentation_for-Does aid m) λ p.
              checked-Does aid (request_of p m) (send_as ed hash outside stubs credential bound)
                λ sent e.
                  subst (λ n. Does aid n n (send_as ed hash outside stubs credential bound sent))
                    ((request_of-Settles p m sent e).1) (send_as-Does signs named sent))).from
          s
