-- ===== src/Verbs/Ballots.antt =====
-- What a method without a credential leaves behind, and which ballots are sent.
use seam_sdk.Prelude.{
  ℕ, ◌≡◌, refl, subst, sym, Option, none, some, List, [], ◌∷◌, length, all, ◌==◌, ◌&&◌, ◌||◌, Bool,
  true, false, Result, ok, err, type_error, and_true, arith, ◌∙◌,
}
use seam_sdk.Prelude
use seam_sdk.Bytes.{Bytes}
use seam_sdk.Errors.{Failure, local}
use seam_sdk.Calls.{Outcome, returned, raised, sending, Client, lift, wire, ◌>>=◌}
use seam_sdk.Verbs.{presented}
use seam_sdk.Verbs.Plain.{
  Ballot, sequence, not_sequence, Vote, vote_of, vote_messages, PlainMethod, run_decision,
  resume_session, issuer_aid, server_info, server_wire_features, verify_commitment,
  verify_party_anchor, verify_party_attestation, PlainMessage, run_decision_request, given_features,
  PlainStubs, send_plain, perform_plain,
}

-- A pair or a triple.
abbrev pub is_vote : Ballot → Bool
is_vote (sequence xs) = length xs == 2 || length xs == 3
is_vote not_sequence = false

abbrev pub has_ballot : {P : Type 0} → PlainMethod P → Bool
has_ballot (run_decision agent session people votes features subjects) = all is_vote votes
has_ballot _ = true

-- The agent who answers a challenge first, if one does.
abbrev pub challenged : {P : Type 0} → PlainMethod P → Option Bytes
challenged (run_decision agent session people votes features subjects) = some agent
challenged _ = none

module _ {P W R : Type 0} (stubs : PlainStubs P W R) where
  -- The outside world before the message: after one challenge that was answered, or as it was.
  abbrev pub Ready : Option Bytes → W → W → Type 0
  Ready none w w' = w ≡ w'
  Ready (some agent) w w' = (p : Bytes) × (stubs.presentation agent w ≡ (returned p, w'))

  -- A bad ballot is refused before anything happens. Otherwise the one challenge may fail, or one message is
  -- sent without a credential, whose outcome is the method's; no ticket cache is written.
  pub data Performed (m : PlainMethod P) (s : Client W) : Outcome R × Client W → Type 0 where
    bad_ballot : has_ballot m ≡ false → Performed m s (raised (local type_error), s)
    no_challenge :
        (agent : Bytes) (e : Failure) (w : W)
        → has_ballot m ≡ true
        → challenged m ≡ some agent
        → stubs.presentation agent s.outside ≡ (raised e, w)
        → Performed m s (raised e, record { outside = w; tickets = s.tickets; log = s.log })
    performed :
        (message : PlainMessage P) (o : Outcome R) (w w' : W)
        → has_ballot m ≡ true
        → Ready (challenged m) s.outside w
        → stubs.serve message w ≡ (o, w')
        → Performed m s
            (o, record { outside = w'; tickets = s.tickets; log = sending none ∷ s.log })

-- How the check of the votes comes out.
data Checked (votes : List Ballot) : Result (List Vote) → Type 0 where
  fits : (vs : List Vote) → all is_vote votes ≡ true → Checked votes (ok vs)
  refuses : all is_vote votes ≡ false → Checked votes (err type_error)

next_vote :
    (b : Ballot) (v : Vote) (bs : List Ballot) (r : Result (List Vote))
    → is_vote b ≡ true
    → Checked bs r
    → Checked (b ∷ bs) (seam_sdk.Prelude.◌>>=◌ r λ votes. ok (v ∷ votes))
next_vote b v bs (ok vs) hb (fits vs' h) = fits (v ∷ vs) (and_true hb h)
next_vote b v bs (err e) hb (refuses h) = refuses (rw hb h)

vote_messages-Checked : (votes : List Ballot) → Checked votes (vote_messages votes)
unfolding vote_messages vote_of
vote_messages-Checked [] = fits [] refl
vote_messages-Checked (not_sequence ∷ bs) = refuses refl
vote_messages-Checked (sequence [] ∷ bs) = refuses refl
vote_messages-Checked (sequence (a ∷ []) ∷ bs) = refuses refl
vote_messages-Checked (sequence (a ∷ v ∷ []) ∷ bs) =
    next_vote (sequence (a ∷ v ∷ [])) _ bs (vote_messages bs) refl (vote_messages-Checked bs)
vote_messages-Checked (sequence (a ∷ v ∷ r ∷ []) ∷ bs) =
    next_vote (sequence (a ∷ v ∷ r ∷ [])) _ bs (vote_messages bs) refl (vote_messages-Checked bs)
vote_messages-Checked (sequence (a ∷ v ∷ r ∷ x ∷ xs) ∷ bs) = refuses (ground arith)

module _ {P W R : Type 0} (stubs : PlainStubs P W R) where
  sent_plain :
      (m : PlainMethod P) (message : PlainMessage P) (s : Client W) (w : W)
      → has_ballot m ≡ true
      → Ready stubs (challenged m) s.outside w
      → Performed stubs m s
          (send_plain stubs message (record { outside = w; tickets = s.tickets; log = s.log }))
  unfolding send_plain wire
  sent_plain m message s w h ready = performed message _ w _ h ready refl

  after_challenge :
      (m : PlainMethod P) (s : Client W) (agent : Bytes) (k : Bytes → PlainMessage P)
      (o : Outcome Bytes × W)
      → has_ballot m ≡ true
      → challenged m ≡ some agent
      → stubs.presentation agent s.outside ≡ o
      → Performed stubs m s
          ((presented (λ w. o) >>= λ presentation. send_plain stubs (k presentation)) s)
  unfolding ◌>>=◌ presented
  after_challenge m s agent k (returned presentation, w) h c e =
      sent_plain m (k presentation) s w h
        (subst (λ a. Ready stubs a s.outside w) (sym c) (presentation, e))
  after_challenge m s agent k (raised x, w) h c e = no_challenge agent x w h c e

  after_check :
      (m : PlainMethod P) (s : Client W) (agent : Bytes) (votes : List Ballot)
      (k : List Vote → Bytes → PlainMessage P) (r : Result (List Vote))
      → has_ballot m ≡ all is_vote votes
      → challenged m ≡ some agent
      → Checked votes r
      → Performed stubs m s (
          (lift r >>= λ ballot. presented (stubs.presentation agent) >>= λ presentation.
          send_plain stubs (k ballot presentation))
            s)
  unfolding ◌>>=◌ lift presented
  after_check m s agent votes k (ok vs) e c (fits vs' h) =
      after_challenge m s agent (k vs) (stubs.presentation agent s.outside) (e ∙ h) c refl
  after_check m s agent votes k (err x) e c (refuses h) = bad_ballot (e ∙ h)

  -- Of a method without a credential: a malformed vote of `run_decision` is a `TypeError`, with the client and
  -- the outside world as they were. Otherwise `run_decision` answers one challenge, whose failure is
  -- raised, and then sends one message; every other method sends one message alone. The outcome is that
  -- of the message, and no ticket cache is written.
  pub perform_plain-Performed :
      (m : PlainMethod P) (s : Client W) → Performed stubs m s (perform_plain stubs m s)
  unfolding perform_plain
  perform_plain-Performed (run_decision agent session people votes features subjects) s =
      after_check _ s agent votes
        (λ ballot presentation.
          run_decision_request session people ballot presentation subjects
            (given_features features))
        (vote_messages votes) refl refl (vote_messages-Checked votes)
  perform_plain-Performed (resume_session session budget raised_to) s =
      sent_plain _ _ s s.outside refl refl
  perform_plain-Performed issuer_aid s = sent_plain _ _ s s.outside refl refl
  perform_plain-Performed server_info s = sent_plain _ _ s s.outside refl refl
  perform_plain-Performed server_wire_features s = sent_plain _ _ s s.outside refl refl
  perform_plain-Performed (verify_commitment commitment artifact) s =
      sent_plain _ _ s s.outside refl refl
  perform_plain-Performed (verify_party_anchor party anchor tenant) s =
      sent_plain _ _ s s.outside refl refl
  perform_plain-Performed (verify_party_attestation party attestation) s =
      sent_plain _ _ s s.outside refl refl
