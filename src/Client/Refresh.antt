-- ===== src/Client/Refresh.antt =====
-- Refreshes of one rejected ticket by several callers. Each refresh holds the lock of its AID, so the
-- callers' refreshes happen one after the other, in some order.
use seam_sdk.Prelude.{
  ℕ, zero, suc, ◌+◌, ◌*◌, ◌<◌, ◌≤◌, ◌≡◌, ◌≢◌, refl, sym, ap, ◌∙◌, subst, List, [], ◌∷◌, bytes_eq,
  bytes_eq→eq, bytes_eq_refl, Bool-cases, Option-cases, inl, inr, arith, some, ok,
}
use seam_sdk.Bytes.{Bytes, Text}
use seam_sdk.Tickets.{TicketCache, get, store, empty}
use seam_sdk.Tickets.Freshness.{get-store_until}
use seam_sdk.Calls.{
  Outcome, returned, raised, Grant, Outside, Client, pure, lift, wire, outside_call, ◌>>=◌,
  cache_of, set_cache, with_cache,
}
use seam_sdk.Calls.Moves.{admits}
use seam_sdk.Keys.{Ed25519, agent_aid}
use seam_sdk.Client.{admit_locked, invalidate_and_admit, adopt_or_admit, refresh_ticket}

unfoldable pub raises : List (Outcome Bytes) → ℕ
raises [] = 0
raises (returned t ∷ os) = raises os
raises (raised e ∷ os) = suc (raises os)

-- Every outcome that is a ticket is this one.
abbrev pub AllGot : Bytes → List (Outcome Bytes) → Type 0
AllGot ticket [] = Unit
AllGot ticket (returned t ∷ os) = (t ≡ ticket) × AllGot ticket os
AllGot ticket (raised e ∷ os) = AllGot ticket os

module _ (ed : Ed25519) (hash : Bytes → Bytes) {W : Type 0} (outside : Outside W)
    (seed failed : Bytes) where
  -- `k` callers whose ticket was rejected, one after the other. One caller's exception does not
  -- stop the next.
  unfoldable pub refresh_all : ℕ → Client W → List (Outcome Bytes) × Client W
  refresh_all zero s = ([], s)
  refresh_all (suc k) s =
      let (o, s') = refresh_ticket ed hash outside seed failed s in
      let (os, s'') = refresh_all k s' in (o ∷ os, s'')

  -- What the client relies on while the callers refresh: the clock is read in a window of time, and
  -- every ticket granted is new, and fresh until the end of the window.
  pub record Window (first last : ℕ) : Type 0 where
    pub clock : (w : W) → let (n, w') = outside.now_ms w in (first ≤ n) × (n ≤ last)
    pub grants :
        (w w' : W) (g : Grant)
        → outside.admit seed w ≡ (returned g, w')
        → (g.ticket ≢ [])
          × (g.ticket ≢ failed)
          × (last < g.expires_at_ms)
          × (10 * suc last + 8 * first ≤ 10 * first + 8 * g.expires_at_ms)

  -- The outcomes and the log of several callers.
  pub record Coalesced (s : Client W) (os : List (Outcome Bytes)) (s' : Client W) : Type 0 where
    pub ticket : Bytes
    pub got : AllGot ticket os
    pub attempts : admits s'.log ≤ suc (raises os) + admits s.log

  module _ (aid : Text) (named : agent_aid ed seed ≡ ok aid) where
    refresh_ticket_lem :
        (s : Client W)
        → refresh_ticket ed hash outside seed failed s ≡ (
            let (n, w) = outside.now_ms s.outside in
            let s' : Client W = record s { outside = w } in
            adopt_or_admit ed hash outside seed failed aid (get (s.tickets aid) n) s')
    unfolding refresh_ticket ◌>>=◌ lift cache_of outside_call
    refresh_ticket_lem s = rw named

    module _ (first last : ℕ) (window : Window first last) where
      -- The cache serves this ticket all through the window.
      abbrev Serves : Bytes → TicketCache → Type 0
      Serves ticket cache =
          (ticket ≢ failed) × ((m : ℕ) → first ≤ m → m ≤ last → get cache m ≡ some ticket)

      -- The cache serves at most the rejected ticket.
      abbrev pub Stale : TicketCache → Type 0
      Stale cache = (m : ℕ) (ticket : Bytes) → get cache m ≡ some ticket → ticket ≡ failed

      refresh_adopts :
          (s : Client W) (ticket : Bytes)
          → Serves ticket (s.tickets aid)
          → let (o, s') = refresh_ticket ed hash outside seed failed s in
            (o ≡ returned ticket) × (s'.tickets ≡ s.tickets) × (s'.log ≡ s.log)
      unfolding adopt_or_admit pure
      refresh_adopts s ticket (apart, serves) =
          let (n, w) = outside.now_ms s.outside in
          let (low, high) = window.clock s.outside in
          let hit = serves n low high in
          elim (Bool-cases (bytes_eq ticket failed)) [
            | inl same ↦ absurd (apart (bytes_eq→eq ticket failed same))
            | inr other ↦ rw (refresh_ticket_lem s, hit, other) (refl, refl, refl)
          ]

      -- What one refresh under a stale cache leaves.
      abbrev Admitted : Client W → Outcome Bytes × Client W → Type 0
      Admitted s (raised e, s') = (admits s'.log ≡ suc (admits s.log)) × Stale (s'.tickets aid)
      Admitted s (returned t, s') = (admits s'.log ≡ suc (admits s.log)) × Serves t (s'.tickets aid)

      empty-Stale : Stale empty
      unfolding get
      empty-Stale m ticket h = cc

      with_cache-same :
          (cache : TicketCache) (tickets : Text → TicketCache)
          → with_cache aid cache tickets aid ≡ cache
      unfolding with_cache
      with_cache-same cache tickets = rw (bytes_eq_refl aid)

      stored-Serves :
          (g : Grant) (w w' : W) (n : ℕ)
          → outside.admit seed w ≡ (returned g, w')
          → first ≤ n
          → n ≤ last
          → Serves g.ticket (store g.ticket g.expires_at_ms n)
      stored-Serves g w w' n granted low high =
          let (present, apart, live, lasting) = window.grants w w' g granted in
          (
            apart,
            λ m from until.
                get-store_until g.ticket g.expires_at_ms n m present (omega arith) (omega arith),
          )

      admits_once : (s : Client W) → Admitted s (invalidate_and_admit ed hash outside seed aid s)
      unfolding invalidate_and_admit admit_locked ◌>>=◌ set_cache wire outside_call pure admits
      admits_once s = go (outside.admit seed s.outside) refl
        where
          go :
              (p : Outcome Grant × W)
              → outside.admit seed s.outside ≡ p
              → Admitted s (invalidate_and_admit ed hash outside seed aid s)
          go (raised e, w) h =
              rw h (refl, subst Stale (sym (with_cache-same empty s.tickets)) empty-Stale)
          go (returned g, w) h =
              let (n, w') = outside.now_ms w in
              let (low, high) = window.clock w in
              rw h (
                refl,
                subst (Serves g.ticket) (sym (with_cache-same _ _))
                    (stored-Serves g s.outside w n h low high),
              )

      refresh-Stale :
          (s : Client W)
          → Stale (s.tickets aid)
          → Admitted s (refresh_ticket ed hash outside seed failed s)
      unfolding adopt_or_admit
      refresh-Stale s stale =
          let (n, w) = outside.now_ms s.outside in
          let s' : Client W = record s { outside = w } in
          rw (refresh_ticket_lem s) (elim (Option-cases (get (s.tickets aid) n)) [
            | inl miss ↦ rw miss (admits_once s')
            | inr (t, hit) ↦ rw (hit, stale n t hit, bytes_eq_refl failed) (admits_once s')
          ])

      all_adopt :
          (k : ℕ) (s : Client W) (ticket : Bytes)
          → Serves ticket (s.tickets aid)
          → let (os, s') = refresh_all k s in AllGot ticket os × (admits s'.log ≡ admits s.log)
      unfolding refresh_all
      all_adopt zero s ticket serves = (_, refl)
      all_adopt (suc k) s ticket serves =
          let (o, s1) = refresh_ticket ed hash outside seed failed s in
          let (eo, et, el) = refresh_adopts s ticket serves in
          let (got, same) =
            all_adopt k s1 ticket (subst (λ c. Serves ticket (c aid)) (sym et) serves) in
          (rw eo (refl, got), same ∙ ap admits el)

      -- Whatever order the callers come in: they attempt to admit at most once more than the
      -- attempts that raised, and every caller that gets a ticket gets the same one. This holds
      -- when the cache serves at most the rejected ticket, the clock is read in the window, and
      -- `Admit` grants new tickets that stay fresh all through it.
      pub refresh_all-Coalesced :
          (k : ℕ) (s : Client W)
          → Stale (s.tickets aid)
          → let (os, s') = refresh_all k s in Coalesced s os s'
      unfolding refresh_all raises
      refresh_all-Coalesced zero s stale = record { ticket = []; got = _; attempts = omega arith }
      refresh_all-Coalesced (suc k) s stale =
          go (refresh_ticket ed hash outside seed failed s) refl (refresh-Stale s stale)
            (λ s1 still. refresh_all-Coalesced k s1 still)
        where
          go :
              (p : Outcome Bytes × Client W)
              → refresh_ticket ed hash outside seed failed s ≡ p
              → Admitted s p
              → ((s1 : Client W)
                  → Stale (s1.tickets aid)
                  → let (os, s') = refresh_all k s1 in Coalesced s1 os s')
              → let (os, s') = refresh_all (suc k) s in Coalesced s os s'
          go (raised e, s1) h (once, still) again =
              let rest = again s1 still in
              rw h (record {
                ticket = rest.ticket;
                got = rest.got;
                attempts = omega (arith, rest.attempts, once);
              })
          go (returned t, s1) h (once, serves) again =
              let (got, same) = all_adopt k s1 t serves in
              rw h (record { ticket = t; got = (refl, got); attempts = omega (arith, same, once) })
