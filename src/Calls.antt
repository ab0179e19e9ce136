-- ===== src/Calls.antt =====
-- The effects of the client's methods: the caches by AID, the wire and the clock, and exceptions.
-- A method that holds an AID's lock is one uninterrupted action on that AID's cache.
pub mod Moves
pub mod Inversion
use seam_sdk.Prelude.{
  ℕ, zero, suc, ◌+◌, ◌≡◌, refl, Option, none, some, List, [], ◌∷◌, bytes_eq, if◌then◌else◌, Bool,
  true, false, Result, ok, err,
}
use seam_sdk.Bytes.{Bytes, Text}
use seam_sdk.Errors.{Failure, local}
use seam_sdk.Tickets.{TicketCache, empty}

pub data Outcome (A : Type 0) : Type 0 where
  returned : A → Outcome A
  raised : Failure → Outcome A

-- The metadata of a credentialed call: the ticket and the call's signature.
pub record Credential : Type 0 where
  pub ticket : Bytes
  pub signature : Bytes

-- What `Admit` grants.
pub record Grant : Type 0 where
  pub ticket : Bytes
  pub expires_at_ms : ℕ

-- What lies outside the client: the clock, and the challenge and `Admit` of an agent, by its seed.
pub record Outside (W : Type 0) : Type 0 where
  pub now_ms : W → ℕ × W
  pub admit : Bytes → W → Outcome Grant × W

-- The attempts on the wire, the latest first.
pub data Event : Type 0 where
  admitting : Text → Event
  sending : Option Credential → Event

-- The client: its caches by AID, where an AID without an entry has an empty cache. The log is the
-- model's own record of what was put on the wire.
pub record Client (W : Type 0) : Type 0 where
  pub outside : W
  pub tickets : Text → TicketCache
  pub log : List Event

abbrev pub Act : Type 0 → Type 0 → Type 0
Act W A = Client W → Outcome A × Client W

module _ {W A : Type 0} where
  unfoldable pub pure : A → Act W A
  pure a s = (returned a, s)

  unfoldable pub raise : Failure → Act W A
  raise e s = (raised e, s)

  unfoldable pub lift : Result A → Act W A
  lift (ok a) s = (returned a, s)
  lift (err e) s = (raised (local e), s)

  -- A call of something outside the client.
  unfoldable pub outside_call : (W → A × W) → Act W A
  outside_call f s =
      let (a, w) = f s.outside in let s' : Client W = record s { outside = w } in (returned a, s')

  -- An attempt on the wire is logged, and may raise.
  unfoldable pub wire : Event → (W → Outcome A × W) → Act W A
  wire event f s =
      let (a, w) = f s.outside in
      let s' : Client W = record { outside = w; tickets = s.tickets; log = event ∷ s.log } in
      (a, s')

module _ {W A B : Type 0} where
  abbrev pub continue : (A → Act W B) → Outcome A × Client W → Outcome B × Client W
  continue f (returned a, s) = f a s
  continue f (raised e, s) = (raised e, s)

  infixl 5 ◌>>=◌ ◌>>◌
  unfoldable pub ◌>>=◌ : Act W A → (A → Act W B) → Act W B
  ◌>>=◌ m f s = continue f (m s)

  abbrev pub ◌>>◌ : Act W A → Act W B → Act W B
  m >> n = m >>= λ _. n

module _ {W A : Type 0} where
  abbrev pub handle : (Failure → Act W A) → Outcome A × Client W → Outcome A × Client W
  handle h (returned a, s) = (returned a, s)
  handle h (raised e, s) = h e s

  -- `try: m; except: h`, where `h` raises again what it does not catch.
  unfoldable pub catch : Act W A → (Failure → Act W A) → Act W A
  catch m h s = handle h (m s)

unfoldable pub with_cache : Text → TicketCache → (Text → TicketCache) → Text → TicketCache
with_cache aid cache tickets other = if bytes_eq other aid then cache else tickets other

module _ {W : Type 0} where
  unfoldable pub cache_of : Text → Act W TicketCache
  cache_of aid s = (returned (s.tickets aid), s)

  unfoldable pub set_cache : Text → TicketCache → Act W (Unit {0})
  set_cache aid cache s =
      let s' : Client W = record s { tickets = with_cache aid cache s.tickets } in (returned _, s')
