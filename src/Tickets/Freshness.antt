-- ===== src/Tickets/Freshness.antt =====
-- When a cached ticket is served.
use seam_sdk.Prelude.{
  suc, ℕ, ◌+◌, ◌*◌, ◌<◌, ◌≤◌, ◌≡◌, ◌≢◌, refl, sym, ◌∙◌, Option, none, some, [], ◌∷◌, ltb,
  Bool-cases, false, inl, inr, arith,
}
use seam_sdk.Bytes.{Bytes}
use seam_sdk.Tickets.{TicketCache, get, store}

-- A stored ticket is served only if it is not empty, before it expires, and before 80% of its time
-- to live has passed.
pub get-store :
    (ticket : Bytes) (expires_at_ms stored_ms now_ms : ℕ) (served : Bytes)
    → get (store ticket expires_at_ms stored_ms) now_ms ≡ some served
    → (served ≡ ticket)
      × (ticket ≢ [])
      × (now_ms < expires_at_ms)
      × (10 * now_ms + 8 * stored_ms < 10 * stored_ms + 8 * expires_at_ms)
unfolding get store
get-store [] expires_at_ms stored_ms now_ms served h = ground arith
get-store (b ∷ bs) expires_at_ms stored_ms now_ms served h = ground arith

-- Until then it is served.
pub get-store_until :
    (ticket : Bytes) (expires_at_ms stored_ms now_ms : ℕ)
    → ticket ≢ []
    → stored_ms < expires_at_ms
    → 10 * suc now_ms + 8 * stored_ms ≤ 10 * stored_ms + 8 * expires_at_ms
    → get (store ticket expires_at_ms stored_ms) now_ms ≡ some ticket
unfolding get store
get-store_until [] expires_at_ms stored_ms now_ms present live early = ground arith
get-store_until (b ∷ bs) expires_at_ms stored_ms now_ms present live early = ground arith

-- A cache that serves no ticket serves none later.
pub get-later : (cache : TicketCache) (n m : ℕ) → n ≤ m → get cache n ≡ none → get cache m ≡ none
unfolding get
get-later cache n m later h = go cache.ticket refl
  where
    go : (o : Option Bytes) → cache.ticket ≡ o → get cache m ≡ none
    go none e = rw e
    go (some t) e = elim (Bool-cases (ltb n cache.refresh_at_ms)) [
      | inl early ↦ absurd (served (rw (e, early, get) at h))
      | inr late ↦ let after : ltb m cache.refresh_at_ms ≡ false = ground arith in rw (e, after)
    ]
      where
        served : some t ≡ none → ⊥
        served k = cc

-- A cache serves one ticket.
pub get-same :
    (cache : TicketCache) (n m : ℕ) (t u : Bytes)
    → get cache n ≡ some t
    → get cache m ≡ some u
    → u ≡ t
unfolding get
get-same cache n m t u h k = go cache.ticket refl
  where
    one : {a b : Bytes} → some a ≡ some b → a ≡ b
    one e = cc

    missing : {a : Bytes} → none ≡ some a → ⊥
    missing e = cc

    go : (o : Option Bytes) → cache.ticket ≡ o → u ≡ t
    go none e = absurd (missing (rw (e, get) at h))
    go (some v) e = elim (Bool-cases (ltb n cache.refresh_at_ms)) [
      | inr late ↦ absurd (missing (rw (e, late, get) at h))
      | inl early ↦ elim (Bool-cases (ltb m cache.refresh_at_ms)) [
        | inr late ↦ absurd (missing (rw (e, late, get) at k))
        | inl fresh ↦ sym (one (rw (e, fresh, get) at k)) ∙ one (rw (e, early, get) at h)
      ]
    ]
