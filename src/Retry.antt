-- ===== src/Retry.antt =====
-- The opt-in retry of `python/seam_sdk/retry.py`: `_next_delay` and `with_session_retry`. Durations
-- are whole nanoseconds; a delay that the server sends may be negative.
pub mod Loop
mod Runs
use seam_sdk.Prelude.{
  ℕ, zero, suc, ◌+◌, ◌-◌, ◌*◌, ◌^◌, min, leb, ◌||◌, not, if◌then◌else◌, Bool, true, false, Option,
  none, some, List, [], ◌∷◌,
}
use seam_sdk.Prelude.Int.{ℤ, pos, negsuc, ◌+ℤ◌, ltb_ℤ}
use seam_sdk.Details.{retry_after}
use seam_sdk.Errors.{Failure, rpc, local, is_retryable}
use seam_sdk.Calls.{Outcome, returned, raised}

-- The keyword arguments. `max_attempts` counts the first call.
pub record Limits : Type 0 where
  pub budget : ℤ
  pub base_delay : ℕ
  pub max_delay : ℕ
  pub max_attempts : ℕ

-- `exc.retry_after if isinstance(exc, SeamRpcError) else None`, and `or 0.0`.
unfoldable pub retry_after_of : Failure → ℤ
retry_after_of (local e) = pos 0
retry_after_of (rpc e) = elim (retry_after e.trailing) [ none ↦ pos 0 | some delay ↦ delay ]

-- `min(max_delay_s, base_delay_s * 2 ** (attempt - 1))`.
unfoldable pub cap : Limits → ℕ → ℕ
cap limits attempt = min limits.max_delay (limits.base_delay * 2 ^ (attempt - 1))

-- The callable, `rng() * cap` for a cap, and `sleep`, which may raise.
pub record Wrapped (W A : Type 0) : Type 0 where
  pub call : W → Outcome A × W
  pub jitter : ℕ → W → ℕ × W
  pub sleep : ℤ → W → Outcome (Unit {0}) × W

-- What happened, the latest first.
pub data Happened (A : Type 0) : Type 0 where
  called : Outcome A → Happened A
  slept : ℤ → Happened A

pub record Run (W A : Type 0) : Type 0 where
  pub world : W
  pub log : List (Happened A)

module _ {W A : Type 0} (wrapped : Wrapped W A) (limits : Limits) where
  unfoldable pub next_delay : Failure → ℕ → ℤ → W → Option ℤ × W
  unfolding retry_after_of cap
  next_delay e attempt waited w =
      if not (is_retryable e) || leb limits.max_attempts attempt
      then (none, w)
      else (let (jitter, w') = wrapped.jitter (cap limits attempt) w in
          let delay = retry_after_of e +ℤ pos jitter in
          if ltb_ℤ limits.budget (waited +ℤ delay) then (none, w') else (some delay, w'))

  -- After `sleep(delay)`, which may raise: `waited += delay`, `attempt += 1`.
  unfoldable pub after_sleep :
      ℕ
      → ℤ
      → List (Happened A)
      → (ℕ → ℤ → Run W A → Option (Outcome A) × Run W A)
      → ℤ
      → Outcome (Unit {0}) × W
      → Option (Outcome A) × Run W A
  after_sleep attempt waited log again delay (returned done, w) =
      again (suc attempt) (waited +ℤ delay) (record { world = w; log = slept delay ∷ log })
  after_sleep attempt waited log again delay (raised x, w) =
      let woken : Run W A = record { world = w; log = slept delay ∷ log } in
      (some (raised x), woken)

  -- With no delay, the error is raised as it is.
  unfoldable pub after_delay :
      ℕ
      → ℤ
      → List (Happened A)
      → (ℕ → ℤ → Run W A → Option (Outcome A) × Run W A)
      → Failure
      → Option ℤ × W
      → Option (Outcome A) × Run W A
  after_delay attempt waited log again e (none, w) =
      let failed : Run W A = record { world = w; log = log } in (some (raised e), failed)
  after_delay attempt waited log again e (some delay, w) =
      after_sleep attempt waited log again delay (wrapped.sleep delay w)

  unfoldable pub after_call :
      ℕ
      → ℤ
      → List (Happened A)
      → (ℕ → ℤ → Run W A → Option (Outcome A) × Run W A)
      → Outcome A × W
      → Option (Outcome A) × Run W A
  after_call attempt waited log again (returned a, w) =
      let done : Run W A = record { world = w; log = called (returned a) ∷ log } in
      (some (returned a), done)
  after_call attempt waited log again (raised e, w) =
      after_delay attempt waited (called (raised e) ∷ log) again e (next_delay e attempt waited w)

  -- `while True`, on fuel: `none` where the fuel ends.
  unfoldable pub retry_loop : ℕ → ℕ → ℤ → Run W A → Option (Outcome A) × Run W A
  retry_loop zero attempt waited s = (none, s)
  retry_loop (suc fuel) attempt waited s =
      after_call attempt waited s.log (retry_loop fuel) (wrapped.call s.world)

  -- The fuel is the first attempt and `max_attempts` more.
  unfoldable pub with_session_retry : W → Option (Outcome A) × Run W A
  with_session_retry w =
      retry_loop (suc limits.max_attempts) 1 (pos 0) (record { world = w; log = [] })
