-- ===== src/Reports/Bounds.antt =====
-- What a report that is sent holds.
use seam_sdk.Prelude.{
  ℕ, ◌≤◌, ◌<◌, ◌^◌, ◌/◌, ◌≡◌, refl, Option, none, some, List, [], ◌∷◌, length, All, true, ok, leb,
  arith, after_bind, value_error, raise_unless, ok_injective, subst, Bool-cases, inl, inr,
}
use seam_sdk.Bytes.{Text}
use seam_sdk.Checks.{Value, str}
use seam_sdk.Prelude.Int.{ℤ, pos, negsuc, ◌+ℤ◌, scale}
use seam_sdk.Reports.{
  Number, Finite, finite, ObservedAt, aware, naive, millis, other_moment, u64_millis,
  observed_at_millis, is_metric_key, Metrics, mapping, not_mapping, metric_key, check_items,
  check_metrics, check_reward, check_moment, OutcomeFields, check_outcome_fields,
  outcome_metrics_max,
}

abbrev pub IsMoment : Option ℕ → Type 0
IsMoment none = Unit
IsMoment (some ms) = ms < 2 ^ 64

abbrev pub IsMetric : Text × Finite → Type 0
IsMetric (k, v) = is_metric_key k ≡ true

-- The limits of the runtime's own check.
pub record IsReportable (f : OutcomeFields) : Type 0 where
  pub few : length f.metrics ≤ 16
  pub keys : All IsMetric f.metrics
  pub moment : IsMoment f.observed_at

u64_millis-lt : (z : ℤ) (ms : ℕ) → u64_millis z ≡ ok ms → ms < 2 ^ 64
unfolding u64_millis
u64_millis-lt (pos n) ms h = ground arith
u64_millis-lt (negsuc n) ms h = cc

observed_at_millis-lt : (m : ObservedAt) (ms : ℕ) → observed_at_millis m ≡ ok ms → ms < 2 ^ 64
unfolding observed_at_millis
observed_at_millis-lt naive ms h = cc
observed_at_millis-lt (aware days seconds micros) ms h =
    u64_millis-lt (scale 1000 (scale 86400 days +ℤ pos seconds) +ℤ pos (micros / 1000)) ms h
observed_at_millis-lt (millis z) ms h = u64_millis-lt z ms h
observed_at_millis-lt other_moment ms h = cc

check_moment-IsMoment : (m : Option ObservedAt) (t : Option ℕ) → check_moment m ≡ ok t → IsMoment t
unfolding check_moment observed_at_millis
check_moment-IsMoment none none h = _
check_moment-IsMoment none (some t) h = cc
check_moment-IsMoment (some m) t h0 =
    after_bind (observed_at_millis m) _ h0
      λ ms h1 r. subst IsMoment (ok_injective r) (observed_at_millis-lt m ms h1)

metric_key-eq-ok : (v : Value) (k : Text) → metric_key v ≡ ok k → is_metric_key k ≡ true
unfolding metric_key
metric_key-eq-ok (str s) k h = elim (Bool-cases (is_metric_key s)) [
  | inl matches ↦
      let same = rw matches at h in subst (λ t. is_metric_key t ≡ true) (ok_injective same) matches
  | inr differs ↦ let h' = rw differs at h in cc
]
metric_key-eq-ok _ k h = cc

check_items-All :
    (vs : List (Value × Number)) (ms : List (Text × Finite))
    → check_items vs ≡ ok ms
    → All IsMetric ms × (length ms ≡ length vs)
unfolding check_items
check_items-All [] [] h = (_, refl)
check_items-All [] (m ∷ ms) h = cc
check_items-All ((k, v) ∷ vs) ms h0 = after_bind (metric_key k) _ h0 λ key h1 r1.
    after_bind (finite v) _ r1 λ value h2 r2. after_bind (check_items vs) _ r2 λ more h3 r3.
      let (keys, same) = check_items-All vs more h3 in
      subst (λ ms. All IsMetric ms × (length ms ≡ length ((k, v) ∷ vs))) (ok_injective r3)
        ((metric_key-eq-ok k key h1, keys), omega (arith, same))

check_metrics-Reportable :
    (m : Option Metrics) (ms : List (Text × Finite))
    → check_metrics m ≡ ok ms
    → All IsMetric ms × (length ms ≤ 16)
unfolding check_metrics
check_metrics-Reportable none [] h = (_, omega arith)
check_metrics-Reportable none (m ∷ ms) h = cc
check_metrics-Reportable (some not_mapping) ms h = cc
check_metrics-Reportable (some (mapping vs)) ms h0 =
    after_bind (raise_unless (leb (length vs) outcome_metrics_max) value_error) _ h0
      λ done h1 r1. let (keys, same) = check_items-All vs ms r1 in (keys, ground (arith, same))

-- A report that passes the checks holds at most 16 metrics, each under a key of the runtime's pattern,
-- and a moment from the epoch on that fits 64 bits.
pub check_outcome_fields-IsReportable :
    (reward : Option Number) (metrics : Option Metrics) (observed_at : Option ObservedAt)
    (f : OutcomeFields)
    → check_outcome_fields reward metrics observed_at ≡ ok f
    → IsReportable f
unfolding check_outcome_fields
check_outcome_fields-IsReportable reward metrics observed_at f h0 =
    after_bind (check_reward reward) _ h0 λ r h1 r1.
      after_bind (check_metrics metrics) _ r1 λ m h2 r2.
        after_bind (check_moment observed_at) _ r2 λ t h3 r3.
          let (keys, few) = check_metrics-Reportable metrics m h2 in
          subst IsReportable (ok_injective r3)
            (record { few = few; keys = keys; moment = check_moment-IsMoment observed_at t h3 })
