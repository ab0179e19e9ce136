-- ===== src/Retry/Runs.antt =====
-- A call that is refused twice, and one that is told to wait a negative time.
use seam_sdk.Prelude.{ℕ, suc, ◌≡◌, refl, [], ◌∷◌, ltb, if◌then◌else◌, some, value_error}
use seam_sdk.Prelude.Int.{ℤ, pos, negsuc, ◌+ℤ◌}
use seam_sdk.Errors.{
  Failure, local, map_rpc_error, by_code, unavailable, session_unavailable_reason, is_retryable,
  is_session_unavailable,
}
use seam_sdk.Errors.Refused.{refusal_of, with_reason}
use seam_sdk.Details.Sent.{retry_info, utf8}
use seam_sdk.Proto.{read_field}
use seam_sdk.Proto.Written.{groups}
use seam_sdk.Bytes.Decode.{decode}
use seam_sdk.Bytes.{encode, encode_char}
use seam_sdk.Details.{retry_after}
use seam_sdk.Calls.{Outcome, returned, raised}
use seam_sdk.Retry.{
  Limits, Wrapped, called, slept, next_delay, after_sleep, after_delay, after_call, retry_loop,
  with_session_retry,
}

abbrev second : ℕ
second = 1000000000

abbrev refusal : ℤ → Failure
refusal seconds =
    refusal_of unavailable
      (with_reason session_unavailable_reason ∷ retry_info seconds (pos 0) ∷ [])

-- `time.sleep`: a negative time is a `ValueError`.
abbrev sleep : ℤ → ℕ → Outcome (Unit {0}) × ℕ
sleep (pos n) w = (returned _, w)
sleep (negsuc n) w = (raised (local value_error), w)

-- Refused until the third call; the jitter is all of its cap.
abbrev server : ℤ → Wrapped ℕ ℕ
server delay = record {
  call = λ w. if ltb w 2 then (raised (refusal delay), suc w) else (returned w, suc w);
  jitter = λ most w. (most, w);
  sleep = sleep;
}

abbrev limits : Limits
limits = record {
  budget = pos 40000000000;
  base_delay = 250000000;
  max_delay = 8000000000;
  max_attempts = 10;
}

third_call :
    let (o, run) = with_session_retry (server (pos 1)) limits 0 in
    (o ≡ some (returned 2))
    × (run.log
        ≡ called (returned 2)
          ∷ slept (pos 1500000000)
          ∷ called (raised (refusal (pos 1)))
          ∷ slept (pos 1250000000)
          ∷ called (raised (refusal (pos 1)))
          ∷ [])
unfolding with_session_retry retry_loop after_call after_delay after_sleep next_delay is_retryable
    is_session_unavailable map_rpc_error by_code ◌+ℤ◌ groups read_field utf8 decode encode
    encode_char retry_after
third_call = (refl, refl)

-- A negative delay of the server becomes a negative sleep, whose `ValueError` takes the place of the
-- server's error.
negative_delay :
    let (o, run) = with_session_retry (server (negsuc 0)) limits 0 in
    o ≡ some (raised (local value_error))
unfolding with_session_retry retry_loop after_call after_delay after_sleep next_delay is_retryable
    is_session_unavailable map_rpc_error by_code ◌+ℤ◌ groups read_field utf8 decode encode
    encode_char retry_after
negative_delay = refl
