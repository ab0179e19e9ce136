-- ===== src/Tickets.antt =====
-- The admission-ticket lifecycle: `TicketCache` of `python/seam_sdk/_authorize.py` and the methods of
-- `SeamClient` in `python/seam_sdk/client.py` that use it.
pub mod Freshness
use seam_sdk.Prelude.{
  ℕ, ◌+◌, ◌-◌, ◌*◌, ◌/◌, Option, none, some, List, [], ◌∷◌, bytes_eq, ltb, leb, ◌||◌, if◌then◌else◌,
  Bool, true, false,
}
use seam_sdk.Bytes.{Bytes, Text}

pub record TicketCache : Type 0 where
  pub ticket : Option Bytes
  pub refresh_at_ms : ℕ

-- A new cache, and what `invalidate` leaves.
abbrev pub empty : TicketCache
empty = record { ticket = none; refresh_at_ms = 0 }

unfoldable pub get : TicketCache → ℕ → Option Bytes
get cache now_ms = elim cache.ticket [
  | none ↦ none
  | some ticket ↦ if ltb now_ms cache.refresh_at_ms then some ticket else none
]

-- Times are in milliseconds since the epoch, so `ttl_ms <= 0` is `expires_at_ms <= now_ms`.
unfoldable pub store : Bytes → ℕ → ℕ → TicketCache
store ticket expires_at_ms now_ms =
    if leb expires_at_ms now_ms || bytes_eq ticket []
    then empty
    else record { ticket = some ticket; refresh_at_ms = now_ms + (expires_at_ms - now_ms) * 8 / 10 }
