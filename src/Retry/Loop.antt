-- ===== src/Retry/Loop.antt =====
-- The retry loop ends, and keeps its limits.
use seam_sdk.Prelude.{ℕ, suc, ◌≤◌, ◌≡◌, ◌⊎◌, true, Option, some, List, [], ◌∷◌}
use seam_sdk.Prelude.Int.{ℤ, pos, ◌+ℤ◌, ◌≤ℤ◌}
use seam_sdk.Errors.{Failure, is_retryable}
use seam_sdk.Calls.{Outcome, raised}
use seam_sdk.Retry.{Limits, retry_after_of, Wrapped, Happened, called, slept, Run}

module _ {A : Type 0} where
  unfoldable pub calls : List (Happened A) → ℕ
  calls [] = 0
  calls (called o ∷ log) = suc (calls log)
  calls (slept delay ∷ log) = calls log

  -- The sum of the sleeps.
  unfoldable pub waiting : List (Happened A) → ℤ
  waiting [] = pos 0
  waiting (called o ∷ log) = waiting log
  waiting (slept delay ∷ log) = waiting log +ℤ delay

  -- No call follows another without a sleep between them, so every call but the first comes after a sleep. Each
  -- sleep comes right after a call that raised a retryable error; it is as long as that error's delay,
  -- with at most `most` more; and with it, the sleeps are within the budget.
  abbrev pub Spaced : ℤ → ℕ → List (Happened A) → Type 0
  Spaced budget most [] = Unit
  Spaced budget most (called o ∷ []) = Unit
  Spaced budget most (called o ∷ called p ∷ log) = ⊥
  Spaced budget most (called o ∷ slept delay ∷ log) = Spaced budget most (slept delay ∷ log)
  Spaced budget most (slept delay ∷ called (raised e) ∷ log) =
      (is_retryable e ≡ true)
      × (retry_after_of e ≤ℤ delay)
      × (delay ≤ℤ retry_after_of e +ℤ pos most)
      × (waiting log +ℤ delay ≤ℤ budget)
      × Spaced budget most (called (raised e) ∷ log)
  Spaced budget most _ = ⊥

  -- The outcome is that of the last call, or the error that the last sleep raised.
  abbrev pub Ended : Outcome A → List (Happened A) → Type 0
  Ended o [] = ⊥
  Ended o (called p ∷ log) = o ≡ p
  Ended o (slept delay ∷ log) = (x : Failure) × (o ≡ raised x)

module _ {W A : Type 0} (wrapped : Wrapped W A) (limits : Limits) where
  -- `rng` is below 1.
  pub record Fraction : Type 0 where
    pub jitter : (most : ℕ) (w : W) → let (j, w') = wrapped.jitter most w in j ≤ most

  -- What a run of the loop leaves: an outcome, at most `max_attempts` calls or the one, and a log that
  -- keeps the limits.
  pub record Kept (r : Option (Outcome A) × Run W A) : Type 0 where
    pub ends : (o : Outcome A) × (let (found, s) = r in (found ≡ some o) × Ended o s.log)
    pub attempts : let (found, s) = r in (calls s.log ≤ limits.max_attempts) ⊎ (calls s.log ≡ 1)
    pub spaced : let (found, s) = r in Spaced limits.budget limits.max_delay s.log

  -- The state of the loop before an attempt.
  record Before (attempt : ℕ) (waited : ℤ) (log : List (Happened A)) : Type 0 where
    count : suc (calls log) ≡ attempt
    turn : (attempt ≤ limits.max_attempts) ⊎ (attempt ≡ 1)
    sum : waiting log ≡ waited
    spaced : (o : Outcome A) → Spaced limits.budget limits.max_delay (called o ∷ log)
