-- ===== src/Features.antt =====
-- pkg/scope/clustersummary.go: the setters on the FeatureSummaries of a ClusterSummary. Each searches
-- the first summary of the feature and, if there is none, appends one that has the set field only.
pub mod Lookup
use addon_controller.Common.{
  ℕ, suc, ◌≡◌, refl, ◌==◌, Bool, true, false, if◌then◌else◌, List, [], ◌∷◌, Option, none, some,
  Text, arith, contains, ◌||◌, Distinct, ◌∙◌, ap, ==_refl,
}
use addon_controller.Api.{
  SyncMode, dry_run, FeatureId, feature_eq, FeatureStatus, unset, FeatureSummary,
}
use addon_controller.Provisioned.{get_feature_summary_for_feature_id}

-- a FeatureSummary with the zero value in all fields but the feature's identifier
abbrev pub blank : FeatureId → FeatureSummary
blank id = record {
  feature_id = id;
  hash = [];
  consecutive_failures = 0;
  status = unset;
  failure_reason = none;
  failure_message = none;
  last_applied_time = none;
  resource_summary_deployed = none;
}

-- the loop that changes the first summary of the feature and returns
pub change :
    FeatureId → (FeatureSummary → FeatureSummary) → List FeatureSummary → List FeatureSummary
change id f [] = []
change id f (fs ∷ rest) =
    let later = fs ∷ change id f rest in if fs.feature_id == id then f fs ∷ rest else later

-- the same loop, where a missing summary is appended
unfoldable pub change_or_append :
    FeatureId
    → (FeatureSummary → FeatureSummary)
    → FeatureSummary
    → List FeatureSummary
    → List FeatureSummary
change_or_append id f new [] = new ∷ []
change_or_append id f new (fs ∷ rest) =
    let later = fs ∷ change_or_append id f new rest in
    if fs.feature_id == id then f fs ∷ rest else later

-- ConsecutiveFailures of a summary that is there; in DryRun mode an error is expected
abbrev pub count_failure : SyncMode → Option Bool → ℕ → ℕ
count_failure dry_run failed n = n
count_failure _ none n = n
count_failure _ (some true) n = suc n
count_failure _ (some false) n = 0

-- and of one that is appended
abbrev pub first_failure : Option Bool → ℕ
first_failure (some true) = 1
first_failure (some false) = 0
first_failure none = 0

abbrev pub with_status :
    SyncMode → FeatureStatus → Text → Option Bool → FeatureSummary → FeatureSummary
with_status mode status hash failed fs = record fs {
  status = status;
  hash = hash;
  consecutive_failures = count_failure mode failed fs.consecutive_failures;
}

abbrev pub new_status : FeatureId → FeatureStatus → Text → Option Bool → FeatureSummary
new_status id status hash failed = record (blank id) {
  status = status;
  hash = hash;
  consecutive_failures = first_failure failed;
}

-- SetFeatureStatus
abbrev pub set_feature_status :
    SyncMode
    → FeatureId
    → FeatureStatus
    → Text
    → Option Bool
    → List FeatureSummary
    → List FeatureSummary
set_feature_status mode id status hash failed =
    change_or_append id (with_status mode status hash failed) (new_status id status hash failed)

-- ResetConsecutiveFailures
abbrev pub reset_consecutive_failures : FeatureId → List FeatureSummary → List FeatureSummary
reset_consecutive_failures id = change id (λ fs. record fs { consecutive_failures = 0 })

-- SetFailureMessage
abbrev pub set_failure_message : FeatureId → Option Text → List FeatureSummary → List FeatureSummary
set_failure_message id message =
    change_or_append id (λ fs. record fs { failure_message = message })
      (record (blank id) { failure_message = message })

-- SetFailureReason
abbrev pub set_failure_reason : FeatureId → Option Text → List FeatureSummary → List FeatureSummary
set_failure_reason id reason =
    change_or_append id (λ fs. record fs { failure_reason = reason })
      (record (blank id) { failure_reason = reason })

-- SetLastAppliedTime
abbrev pub set_last_applied_time : FeatureId → Option ℕ → List FeatureSummary → List FeatureSummary
set_last_applied_time id time =
    change_or_append id (λ fs. record fs { last_applied_time = time })
      (record (blank id) { last_applied_time = time })

-- SetResourceSummaryDeployed
abbrev pub set_resource_summary_deployed :
    FeatureId → Bool → List FeatureSummary → List FeatureSummary
set_resource_summary_deployed id deployed =
    change id (λ fs. record fs { resource_summary_deployed = some deployed })

abbrev still_there : Option Bool → Bool
still_there none = true
still_there (some deployed) = deployed

-- ShouldRemoveResourceSummary
unfoldable pub should_remove_resource_summary : FeatureId → List FeatureSummary → Bool
should_remove_resource_summary id [] = false
should_remove_resource_summary id (fs ∷ rest) =
    let later = should_remove_resource_summary id rest in
    if fs.feature_id == id then still_there fs.resource_summary_deployed else later

abbrev pub get : List FeatureSummary → FeatureId → Option FeatureSummary
get = get_feature_summary_for_feature_id

-- what the search finds after a change of the first summary of a feature
abbrev pub or_new :
    (FeatureSummary → FeatureSummary) → FeatureSummary → Option FeatureSummary → FeatureSummary
or_new f new none = new
or_new f new (some fs) = f fs

abbrev pub mapped :
    (FeatureSummary → FeatureSummary) → Option FeatureSummary → Option FeatureSummary
mapped f none = none
mapped f (some fs) = some (f fs)
