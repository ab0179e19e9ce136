-- ===== src/Reports/Runs.antt =====
-- Reports at the limits.
use seam_sdk.Prelude.{◌≡◌, refl, none, some, [], ◌∷◌, codes, ok, err, value_error}
use seam_sdk.Prelude.Int.{pos, negsuc, ◌+ℤ◌}
use seam_sdk.Checks.{str}
use seam_sdk.Reports.{
  float_number, int_number, double, nearest, aware, mapping, Metrics, check_outcome_fields, finite,
  u64_millis, metric_key, is_metric_key,
}
use seam_sdk.Reports.Bounds.{IsReportable, check_outcome_fields-IsReportable}

abbrev metrics : Metrics
metrics = mapping ((str (codes "loss_1"), float_number 0) ∷ [])

-- A day, a second and 1,999 microseconds after the epoch.
accepted :
    check_outcome_fields (some (int_number (pos 1))) (some metrics) (some (aware (pos 1) 1 1999))
    ≡ ok (record {
      reward = some (nearest (pos 1));
      metrics = (codes "loss_1", double 0) ∷ [];
      observed_at = some 86401001;
    })
unfolding check_outcome_fields finite ◌+ℤ◌ u64_millis metric_key is_metric_key
accepted = refl

-- A microsecond before the epoch is in the millisecond before it.
before_epoch :
    check_outcome_fields none none (some (aware (negsuc 0) 86399 999999)) ≡ err value_error
unfolding check_outcome_fields ◌+ℤ◌ u64_millis
before_epoch = refl

check_outcome_fields-IsReportable_example : IsReportable (record {
  reward = some (nearest (pos 1));
  metrics = (codes "loss_1", double 0) ∷ [];
  observed_at = some 86401001;
})
check_outcome_fields-IsReportable_example =
    check_outcome_fields-IsReportable (some (int_number (pos 1))) (some metrics)
      (some (aware (pos 1) 1 1999)) _ accepted
