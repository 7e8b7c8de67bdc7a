-- ===== src/Deployer/Failures.antt =====
-- How a failure that the deployer reports moves the status and the failure count of a feature.
use addon_controller.Common.{
  suc, ◌≡◌, refl, ◌==◌, ◌&&◌, Bool, true, false, none, some, Text, text_eq, arith, ◌∙◌, ap,
}
use addon_controller.Api.{
  FeatureId, helm, feature_eq, failed, failed_non_retriable, status_eq, status_dec, FeatureSummary,
  ClusterSummary,
}
use addon_controller.Deployer.{
  DeployerError, non_retriable, template_instantiation, health_check, other, message_of,
  result_failed, Return, done, queued, error, Answers, summary, has_status, is_dry_run_sync,
  reached, handle_deployer_error, max_reached_message,
}
use addon_controller.Deployer.Deploying.{
  is_non_retriable, after_handling, proceed_deploying_feature,
}
use addon_controller.Deployer.Counting.{
  failed_with, recorded, summary-recorded_failed, summary-recorded_non_retriable,
  reached-recorded_failed, dry_run-recorded,
}

-- the errors that are tried again below MaxConsecutiveFailures
abbrev pub retriable : DeployerError → Bool
retriable (non_retriable m) = false
retriable (template_instantiation m) = false
retriable (health_check m) = true
retriable (other m) = true

-- what such an error makes deployFeature return: a health check waits, others are queued at once
abbrev pub retry : DeployerError → Return
retry (health_check m) = error m
retry (non_retriable m) = done
retry (template_instantiation m) = done
retry (other m) = queued

module _ (id : FeatureId) (a : Answers) (hash : Text) (is_pull_mode : Bool)
    (cs : ClusterSummary) where
  -- the path of a failure that the deployer reports for the current configuration
  proceed_failed :
      (err : DeployerError)
      → a.result.status ≡ result_failed
      → a.result.err ≡ some err
      → (id == helm && is_non_retriable id a hash err) ≡ false
      → proceed_deploying_feature id a hash is_pull_mode true cs
        ≡ after_handling id a hash failed (
            handle_deployer_error err id hash a.now
              (recorded id hash a.now failed (message_of err) cs))
  unfolding proceed_deploying_feature status_dec
  proceed_failed err h k e = rw (h, k, e) refl

  -- a failure and then a mark, as FailedNonRetriable
  twice_with :
      (first second : Text) (fs : FeatureSummary)
      → summary cs id ≡ some fs
      → is_dry_run_sync cs ≡ false
      → summary
          (recorded id hash a.now failed_non_retriable second
            (recorded id hash a.now failed first cs))
          id
        ≡ some (
            failed_with failed_non_retriable hash second a.now
              (suc (suc fs.consecutive_failures))
              fs)
  twice_with first second fs h k =
      summary-recorded_non_retriable id hash a.now second (recorded id hash a.now failed first cs)
        (failed_with failed hash first a.now (suc fs.consecutive_failures) fs)
        (summary-recorded_failed id hash a.now first cs fs h k)
        (dry_run-recorded id hash a.now failed first cs ∙ k)

  twice :
      (message : Text) (fs : FeatureSummary)
      → summary cs id ≡ some fs
      → is_dry_run_sync cs ≡ false
      → summary
          (recorded id hash a.now failed_non_retriable message
            (recorded id hash a.now failed message cs))
          id
        ≡ some (
            failed_with failed_non_retriable hash message a.now
              (suc (suc fs.consecutive_failures))
              fs)
  twice message = twice_with message message

  marked :
      (message : Text) (fs : FeatureSummary)
      → summary cs id ≡ some fs
      → is_dry_run_sync cs ≡ false
      → has_status failed_non_retriable (
          summary
            (recorded id hash a.now failed_non_retriable max_reached_message
              (recorded id hash a.now failed message cs))
            id)
        ≡ true
  unfolding status_dec
  marked message fs h k =
      ap (has_status failed_non_retriable) (twice_with message max_reached_message fs h k)

  -- Where the deployer reports a failure that may be retried for the current configuration of a
  -- feature that has a summary, and the failure brings the count to MaxConsecutiveFailures, the
  -- feature ends FailedNonRetriable, nothing is queued and no error is returned, outside DryRun
  -- mode.
  pub proceed-max_reached :
      (err : DeployerError) (fs : FeatureSummary)
      → summary cs id ≡ some fs
      → is_dry_run_sync cs ≡ false
      → a.result.status ≡ result_failed
      → a.result.err ≡ some err
      → retriable err ≡ true
      → reached cs.spec.max_consecutive_failures (suc fs.consecutive_failures) ≡ true
      → (has_status failed_non_retriable
            (summary (proceed_deploying_feature id a hash is_pull_mode true cs).0 id)
          ≡ true)
        × ((proceed_deploying_feature id a hash is_pull_mode true cs).1 ≡ done)
  proceed-max_reached (health_check message) fs h k hs he r m =
      rw
        (
          proceed_failed (health_check message) hs he (ground arith),
          reached-recorded_failed id hash a.now message cs fs h k,
          m,
        )
        (marked message fs h k, refl)
  proceed-max_reached (other message) fs h k hs he r m =
      rw
        (
          proceed_failed (other message) hs he (ground arith),
          reached-recorded_failed id hash a.now message cs fs h k,
          m,
        )
        (marked message fs h k, refl)
  proceed-max_reached (non_retriable message) fs h k hs he r m = cc
  proceed-max_reached (template_instantiation message) fs h k hs he r m = cc

  -- Where the deployer reports a failure that may be retried for the current configuration of a
  -- feature that has a summary, and the count stays below MaxConsecutiveFailures, the failure is
  -- counted once and recorded with its message, and the feature is retried: outside DryRun mode,
  -- and if the call of Deploy does not fail.
  pub proceed-below_max :
      (err : DeployerError) (fs : FeatureSummary)
      → summary cs id ≡ some fs
      → is_dry_run_sync cs ≡ false
      → a.result.status ≡ result_failed
      → a.result.err ≡ some err
      → a.deploy_error ≡ none
      → retriable err ≡ true
      → reached cs.spec.max_consecutive_failures (suc fs.consecutive_failures) ≡ false
      → (summary (proceed_deploying_feature id a hash is_pull_mode true cs).0 id
          ≡ some (failed_with failed hash (message_of err) a.now (suc fs.consecutive_failures) fs))
        × ((proceed_deploying_feature id a hash is_pull_mode true cs).1 ≡ retry err)
  unfolding status_dec
  proceed-below_max (health_check message) fs h k hs he hd r m =
      rw
        (
          proceed_failed (health_check message) hs he (ground arith),
          reached-recorded_failed id hash a.now message cs fs h k,
          m,
        )
        (summary-recorded_failed id hash a.now message cs fs h k, refl)
  proceed-below_max (other message) fs h k hs he hd r m =
      rw
        (
          proceed_failed (other message) hs he (ground arith),
          reached-recorded_failed id hash a.now message cs fs h k,
          m,
          hd,
        )
        (summary-recorded_failed id hash a.now message cs fs h k, refl)
  proceed-below_max (non_retriable message) fs h k hs he hd r m = cc
  proceed-below_max (template_instantiation message) fs h k hs he hd r m = cc

  -- Where the deployer reports a failure that is not retriable for the current configuration of a
  -- feature that has a summary, the feature ends FailedNonRetriable, nothing is queued, and the
  -- failure is counted twice, outside DryRun mode and if the feature is not helm or the error is
  -- of a template.
  pub proceed-non_retriable :
      (err : DeployerError) (fs : FeatureSummary)
      → summary cs id ≡ some fs
      → is_dry_run_sync cs ≡ false
      → a.result.status ≡ result_failed
      → a.result.err ≡ some err
      → (id == helm && is_non_retriable id a hash err) ≡ false
      → retriable err ≡ false
      → (summary (proceed_deploying_feature id a hash is_pull_mode true cs).0 id
          ≡ some (
              failed_with failed_non_retriable hash
                (message_of err)
                a.now
                (suc (suc fs.consecutive_failures))
                fs))
        × ((proceed_deploying_feature id a hash is_pull_mode true cs).1 ≡ done)
  proceed-non_retriable (non_retriable message) fs h k hs he c r =
      rw (proceed_failed (non_retriable message) hs he c) (twice message fs h k, refl)
  proceed-non_retriable (template_instantiation message) fs h k hs he c r =
      rw (proceed_failed (template_instantiation message) hs he c) (twice message fs h k, refl)
  proceed-non_retriable (health_check message) fs h k hs he c r = cc
  proceed-non_retriable (other message) fs h k hs he c r = cc
