-- ===== src/Client/Clean.antt =====
-- The actions under a credentialed call, none of which leaves a burned ticket behind.
use seam_sdk.Prelude.{
  ℕ, ◌≤◌, ◌≡◌, ◌≢◌, refl, sym, ap, ◌∙◌, inl, inr, List, ◌∷◌, bytes_eq, bytes_eq_refl, Bool,
  Bool-cases, Option-cases, true, false, if◌then◌else◌, Option, none, some, Result, ok, err,
}
use seam_sdk.Prelude.{arith}
use seam_sdk.Bytes.{Bytes, Text}
use seam_sdk.Tickets.{TicketCache, get, empty}
use seam_sdk.Tickets.Freshness.{get-later, get-same}
use seam_sdk.Calls.{
  Outcome, returned, raised, Credential, Outside, Event, admitting, sending, Client, Act, pure,
  lift, outside_call, wire, ◌>>=◌, continue, cache_of, set_cache, with_cache,
}
use seam_sdk.Keys.{Ed25519, agent_aid}
use seam_sdk.Client.{
  Call, admit_locked, ticket_or_admit, ticket_for, invalidate_and_admit, adopt_or_admit,
  refresh_ticket, drop_if, invalidate_ticket, is_burned,
}
use seam_sdk.Client.Refusals.{local_unburned}

module _ {W : Type 0} (call : Call) (aid : Text) (last : ℕ) where
  -- When the last thing on the wire was a credentialed send, its ticket is not served from `last` on.
  abbrev pub Forgot : Client W → Type 0
  Forgot s =
      (md : Credential) (before : List Event) (m : ℕ)
      → s.log ≡ sending (some md) ∷ before
      → last ≤ m
      → get (s.tickets aid) m ≢ some md.ticket

  -- What an outcome and a client after it are to be, when the outcome is a burning refusal.
  abbrev pub Clean : {A : Type 0} → Outcome A × Client W → Type 0
  Clean (returned a, s) = Unit
  Clean (raised e, s) = is_burned call.rpc_full_name e ≡ true → Forgot s

  module _ {A : Type 0} where
    -- An action that raises a burning refusal leaves no burned ticket.
    pub record Burns (m : Act W A) : Type 0 where
      pub from : (s : Client W) → Clean (m s)

    pure-Burns : (a : A) → Burns (pure a)
    unfolding pure
    pure-Burns a = record { from = λ s. _ }

    lift-Burns : (r : Result A) → Burns (lift r)
    unfolding lift
    lift-Burns (ok a) = record { from = λ s. _ }
    lift-Burns (err x) = record { from = λ s h. absurd (local_unburned call.rpc_full_name x h) }

    outside_call-Burns : (f : W → A × W) → Burns (outside_call f)
    unfolding outside_call
    outside_call-Burns f = record { from = λ s. _ }

    -- An attempt to admit is no credentialed send.
    admitting-Burns : (who : Text) (f : W → Outcome A × W) → Burns (wire (admitting who) f)
    unfolding wire
    admitting-Burns who f = record {
      from = λ s.
          let (o, w) = f s.outside in
          go o (record { outside = w; tickets = s.tickets; log = admitting who ∷ s.log }) s.log
            refl;
    }
      where
        go :
            (o : Outcome A) (s : Client W) (log : List Event)
            → s.log ≡ admitting who ∷ log
            → Clean (o, s)
        go (returned a) s log e = _
        go (raised x) s log e = λ h md before m k late. cc

  module _ {A B : Type 0} where
    continue-Clean :
        (f : A → Act W B) (p : Outcome A × Client W)
        → Clean p
        → ((a : A) → Burns (f a))
        → Clean (continue f p)
    continue-Clean f (returned a, s) c k = (k a).from s
    continue-Clean f (raised e, s) c k = c

    pub bind-Burns :
        {m : Act W A} {f : A → Act W B} → Burns m → ((a : A) → Burns (f a)) → Burns (m >>= f)
    unfolding ◌>>=◌
    bind-Burns {m} {f} h k = record { from = λ s. continue-Clean f (m s) (h.from s) k }

  cache_of-Burns : (who : Text) → Burns (cache_of who)
  unfolding cache_of
  cache_of-Burns who = record { from = λ s. _ }

  set_cache-Burns : (who : Text) (c : TicketCache) → Burns (set_cache who c)
  unfolding set_cache
  set_cache-Burns who c = record { from = λ s. _ }

  module _ (ed : Ed25519) (hash : Bytes → Bytes) (outside : Outside W) (seed : Bytes)
      (named : agent_aid ed seed ≡ ok aid)
      (clock : (w : W) → let (n, w') = outside.now_ms w in n ≤ last) where
    admit_locked-Burns : (who : Text) → Burns (admit_locked ed hash outside seed who)
    unfolding admit_locked
    admit_locked-Burns who = bind-Burns (admitting-Burns who (outside.admit seed)) λ grant.
        bind-Burns (outside_call-Burns outside.now_ms)
          λ now. bind-Burns (set_cache-Burns who _) λ _. pure-Burns grant.ticket

    ticket_or_admit-Burns :
        (who : Text) (o : Option Bytes) → Burns (ticket_or_admit ed hash outside seed who o)
    unfolding ticket_or_admit
    ticket_or_admit-Burns who (some ticket) = pure-Burns ticket
    ticket_or_admit-Burns who none = admit_locked-Burns who

    pub ticket_for-Burns : Burns (ticket_for ed hash outside seed)
    unfolding ticket_for
    ticket_for-Burns = bind-Burns (lift-Burns (agent_aid ed seed)) λ who.
        bind-Burns (cache_of-Burns who) λ cache.
          bind-Burns (outside_call-Burns outside.now_ms)
            λ now. ticket_or_admit-Burns who (get cache now)

    invalidate_and_admit-Burns :
        (who : Text) → Burns (invalidate_and_admit ed hash outside seed who)
    unfolding invalidate_and_admit
    invalidate_and_admit-Burns who =
        bind-Burns (set_cache-Burns who empty) λ _. admit_locked-Burns who

    adopt_or_admit-Burns :
        (failed : Bytes) (who : Text) (o : Option Bytes)
        → Burns (adopt_or_admit ed hash outside seed failed who o)
    unfolding adopt_or_admit
    adopt_or_admit-Burns failed who none = invalidate_and_admit-Burns who
    adopt_or_admit-Burns failed who (some current) = go (bytes_eq current failed)
      where
        go :
            (t : Bool)
            → Burns (if t then invalidate_and_admit ed hash outside seed who else pure current)
        go true = invalidate_and_admit-Burns who
        go false = pure-Burns current

    pub refresh_ticket-Burns : (failed : Bytes) → Burns (refresh_ticket ed hash outside seed failed)
    unfolding refresh_ticket
    refresh_ticket-Burns failed = bind-Burns (lift-Burns (agent_aid ed seed)) λ who.
        bind-Burns (cache_of-Burns who) λ cache.
          bind-Burns (outside_call-Burns outside.now_ms)
            λ now. adopt_or_admit-Burns failed who (get cache now)

    invalidate_ticket_lem :
        (failed : Bytes) (s : Client W)
        → invalidate_ticket ed hash outside seed failed s ≡ (
            let (n, w) = outside.now_ms s.outside in
            let s' : Client W = record s { outside = w } in
            drop_if ed hash outside aid failed (get (s.tickets aid) n) s')
    unfolding invalidate_ticket ◌>>=◌ lift cache_of outside_call
    invalidate_ticket_lem failed s = rw named

    with_cache-same :
        (c : TicketCache) (tickets : Text → TicketCache) → with_cache aid c tickets aid ≡ c
    unfolding with_cache
    with_cache-same c tickets = rw (bytes_eq_refl aid)

    -- The ticket is not served from `last` on.
    abbrev Dropped : Bytes → Client W → Type 0
    Dropped ticket s = (m : ℕ) → last ≤ m → get (s.tickets aid) m ≢ some ticket

    empty-served : (m : ℕ) (ticket : Bytes) → get empty m ≡ some ticket → ⊥
    unfolding get
    empty-served m ticket h = cc

    missing : {ticket : Bytes} → none ≡ some ticket → ⊥
    missing e = cc

    pub invalidate_drops :
        (failed : Bytes) (s : Client W)
        → let (o, s') = invalidate_ticket ed hash outside seed failed s in
          (o ≡ returned tt) × (s'.log ≡ s.log) × Dropped failed s'
    unfolding drop_if pure set_cache
    invalidate_drops failed s =
        let (n, w) = outside.now_ms s.outside in
        let early : n ≤ last = clock s.outside in
        rw (invalidate_ticket_lem failed s) (elim (Option-cases (get (s.tickets aid) n)) [
          | inl miss ↦ rw miss (
            refl,
            refl,
            λ m late h.
                missing (sym (get-later (s.tickets aid) n m (omega (arith, early, late)) miss) ∙ h),
          )
          | inr (t, hit) ↦ elim (Bool-cases (bytes_eq t failed)) [
            | inl same ↦
                rw (hit, same)
                  (
                    refl,
                    refl,
                    λ m late h.
                        empty-served m failed
                          (sym (ap (λ c. get c m) (with_cache-same empty s.tickets)) ∙ h),
                  )
            | inr apart ↦
                rw (hit, apart)
                  (
                    refl,
                    refl,
                    λ m late h.
                        absurd (differ t apart (get-same (s.tickets aid) n m t failed hit h)),
                  )
          ]
        ])
      where
        differ : (t : Bytes) → bytes_eq t failed ≡ false → failed ≡ t → ⊥
        differ t apart e =
            let k : true ≡ false =
              sym (bytes_eq_refl failed) ∙ ap (λ t. bytes_eq t failed) e ∙ apart in
            cc
