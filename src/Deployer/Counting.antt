-- ===== src/Deployer/Counting.antt =====
-- The summary of a feature once updateFeatureStatus has recorded a failure.
use addon_controller.Common.{ℕ, suc, ◌≡◌, refl, true, false, Option, some, Text, text_eq, ap, List}
use addon_controller.Api.{
  FeatureId, feature_eq, FeatureStatus, failed, failed_non_retriable, status_eq, SyncMode, dry_run,
  one_time, continuous, continuous_with_drift_detection, FeatureSummary, ClusterSummary,
}
use addon_controller.Features.{
  get, set_feature_status, set_failure_message, set_last_applied_time, count_failure,
}
use addon_controller.Features.Lookup.{
  get-set_last_applied_time, get-set_failure_message, get-set_feature_status,
}
use addon_controller.ChartManager.{is_dry_run}
use addon_controller.Deployer.{
  summary, failures_in, update_feature_status, is_dry_run_sync, reached,
  max_number_of_consecutive_failure_reached,
}

-- the summary that a failure leaves
failure_summary :
    (id : FeatureId) (status : FeatureStatus) (hash message : Text) (now : ℕ) (mode : SyncMode)
    (l : List FeatureSummary) (fs : FeatureSummary)
    → get l id ≡ some fs
    → is_dry_run mode ≡ false
    → get
        (set_last_applied_time id (some now) (
          set_failure_message id
            (some message)
            (set_feature_status mode id status hash (some true) l)))
        id
      ≡ some (record fs {
        status = status;
        hash = hash;
        consecutive_failures = suc fs.consecutive_failures;
        failure_message = some message;
        last_applied_time = some now;
      })
failure_summary id status hash message now mode l fs h k =
    let counted = set_feature_status mode id status hash (some true) l in
    let noted = set_failure_message id (some message) counted in
    rw
      (
        get-set_last_applied_time id noted (some now),
        get-set_failure_message id counted (some message),
        get-set_feature_status id l mode status hash (some true),
        h,
      )
      (go mode k)
  where
    go :
        (mode : SyncMode)
        → is_dry_run mode ≡ false
        → Option.some (record fs {
          status = status;
          hash = hash;
          consecutive_failures = count_failure mode (some true) fs.consecutive_failures;
          failure_message = some message;
          last_applied_time = some now;
        })
          ≡ some (record fs {
            status = status;
            hash = hash;
            consecutive_failures = suc fs.consecutive_failures;
            failure_message = some message;
            last_applied_time = some now;
          })
    go one_time k = refl
    go continuous k = refl
    go continuous_with_drift_detection k = refl
    go dry_run k = cc

-- a summary of a failure, with `n` failures counted
abbrev pub failed_with : FeatureStatus → Text → Text → ℕ → ℕ → FeatureSummary → FeatureSummary
failed_with status hash message now n fs = record fs {
  status = status;
  hash = hash;
  consecutive_failures = n;
  failure_message = some message;
  last_applied_time = some now;
}

module _ (id : FeatureId) (hash : Text) (now : ℕ) where
  -- the ClusterSummary once a failure has been recorded
  abbrev pub recorded : FeatureStatus → Text → ClusterSummary → ClusterSummary
  recorded status message cs = update_feature_status id status hash (some message) now cs

  pub summary-recorded_failed :
      (message : Text) (cs : ClusterSummary) (fs : FeatureSummary)
      → summary cs id ≡ some fs
      → is_dry_run_sync cs ≡ false
      → summary (recorded failed message cs) id
        ≡ some (failed_with failed hash message now (suc fs.consecutive_failures) fs)
  unfolding update_feature_status
  summary-recorded_failed message cs fs h k =
      failure_summary id failed hash message now cs.spec.sync_mode cs.feature_summaries fs h k

  pub summary-recorded_non_retriable :
      (message : Text) (cs : ClusterSummary) (fs : FeatureSummary)
      → summary cs id ≡ some fs
      → is_dry_run_sync cs ≡ false
      → summary (recorded failed_non_retriable message cs) id
        ≡ some (failed_with failed_non_retriable hash message now (suc fs.consecutive_failures) fs)
  unfolding update_feature_status
  summary-recorded_non_retriable message cs fs h k =
      failure_summary id failed_non_retriable hash message now cs.spec.sync_mode
        cs.feature_summaries fs h k

  pub reached-recorded_failed :
      (message : Text) (cs : ClusterSummary) (fs : FeatureSummary)
      → summary cs id ≡ some fs
      → is_dry_run_sync cs ≡ false
      → max_number_of_consecutive_failure_reached (recorded failed message cs) id
        ≡ reached cs.spec.max_consecutive_failures (suc fs.consecutive_failures)
  unfolding max_number_of_consecutive_failure_reached update_feature_status
  reached-recorded_failed message cs fs h k =
      ap (λ o. reached cs.spec.max_consecutive_failures (failures_in o))
        (summary-recorded_failed message cs fs h k)

  pub dry_run-recorded :
      (status : FeatureStatus) (message : Text) (cs : ClusterSummary)
      → is_dry_run_sync (recorded status message cs) ≡ is_dry_run_sync cs
  unfolding update_feature_status
  dry_run-recorded status message cs = refl
