-- ===== src/Deployer/Settled.antt =====
-- What deployFeature does where nothing is left to do, and when a feature has been deployed.
use addon_controller.Common.{
  ℕ, ◌≡◌, refl, ◌==◌, ◌||◌, Bool, true, false, Option, none, some, Text, text_eq, arith, Bool-cases,
  inl, inr, ◌∙◌, ap, ==_refl,
}
use addon_controller.Api.{
  FeatureId, feature_eq, provisioned, failed_non_retriable, status_eq, status_dec, SyncMode,
  FeatureSummary, ClusterSummary,
}
use addon_controller.Features.{
  get, with_status, new_status, or_new, set_feature_status, set_failure_message,
}
use addon_controller.Features.Lookup.{
  get-set_last_applied_time, get-set_failure_message, get-set_feature_status,
}
use addon_controller.Deployer.{
  deployed, computed, done, Answers, summary, has_status, get_hash, hash_in, update_feature_status,
  is_dry_run_sync, should_redeploy, message_of_result,
}
use addon_controller.Deployer.Deploying.{is_up_to_date, proceed_deploying_feature, deploy_feature}

-- the status says that nothing is left to do for the configuration of the stored hash
abbrev pub is_settled : FeatureSummary → Bool
is_settled fs = fs.status == provisioned || fs.status == failed_non_retriable

-- Where no cleanup runs, the current hash has been computed, the mode of the cluster is known and
-- the mode is not DryRun, deployFeature changes nothing and returns no error for a feature whose
-- summary is Provisioned or FailedNonRetriable with the current hash.
pub deploy_feature-settled :
    (id : FeatureId) (a : Answers) (hash : Text) (is_pull_mode : Bool) (cs : ClusterSummary)
    (fs : FeatureSummary)
    → a.cleanup_running ≡ false
    → a.current_hash ≡ computed hash
    → a.pull_mode ≡ some is_pull_mode
    → is_dry_run_sync cs ≡ false
    → summary cs id ≡ some fs
    → fs.hash ≡ hash
    → is_settled fs ≡ true
    → deploy_feature id a cs ≡ (cs, done)
unfolding deploy_feature should_redeploy
deploy_feature-settled id a hash is_pull_mode cs fs hc hh hp hd hs he hf =
    rw (hc, hh, unchanged, hp, nothing_to_do) refl
  where
    unchanged : (get_hash cs id == hash) ≡ true
    unchanged = ap (λ o. hash_in o == hash) hs ∙ ap (λ h. h == hash) he ∙ ==_refl hash

    nothing_to_do : should_redeploy cs id true ≡ false
    nothing_to_do = rw (hd, hs) (ground (arith, hf))

up_to_date_lem :
    (id : FeatureId) (a : Answers) (hash : Text) (o : Option FeatureSummary)
    → is_up_to_date id a hash o ≡ true
    → (has_status provisioned o ≡ true) × (hash_in o ≡ hash)
up_to_date_lem id a hash none h = cc
up_to_date_lem id a hash (some fs) h = ground arith

provisioned_status :
    (mode : SyncMode) (id : FeatureId) (hash : Text) (o : Option FeatureSummary)
    → ((or_new
          (with_status mode provisioned hash (some false))
          (new_status id provisioned hash (some false))
          o).status
        ≡ provisioned)
      × ((or_new
            (with_status mode provisioned hash (some false))
            (new_status id provisioned hash (some false))
            o).hash
          ≡ hash)
provisioned_status mode id hash none = (refl, refl)
provisioned_status mode id hash (some fs) = (refl, refl)

summary-provisioned :
    (id : FeatureId) (hash : Text) (err : Option Text) (now : ℕ) (cs : ClusterSummary)
    → (has_status provisioned (summary (update_feature_status id provisioned hash err now cs) id)
        ≡ true)
      × (get_hash (update_feature_status id provisioned hash err now cs) id ≡ hash)
unfolding update_feature_status
summary-provisioned id hash err now cs =
    let mode = cs.spec.sync_mode in
    let l = cs.feature_summaries in
    let counted = set_feature_status mode id provisioned hash (some false) l in
    let noted = set_failure_message id none counted in
    let facts = provisioned_status mode id hash (get l id) in
    rw
      (
        get-set_last_applied_time id noted (some now),
        get-set_failure_message id counted none,
        get-set_feature_status id l mode provisioned hash (some false),
      )
      (rw facts.0 (==_refl provisioned), facts.1)

-- Outside pull mode, where the configuration has not changed and the deployer's result says
-- Deployed, the feature ends Provisioned with the current hash, and no error is returned.
pub proceed-deployed :
    (id : FeatureId) (a : Answers) (hash : Text) (cs : ClusterSummary)
    → a.result.status ≡ deployed
    → (has_status provisioned (summary (proceed_deploying_feature id a hash false true cs).0 id)
        ≡ true)
      × (get_hash (proceed_deploying_feature id a hash false true cs).0 id ≡ hash)
      × ((proceed_deploying_feature id a hash false true cs).1 ≡ done)
unfolding proceed_deploying_feature status_dec
proceed-deployed id a hash cs h = elim (Bool-cases (is_up_to_date id a hash (summary cs id))) [
  | inl same ↦
      let facts = up_to_date_lem id a hash (summary cs id) same in
      rw (h, same) (facts.0, facts.1, refl)
  | inr new ↦
      let facts = summary-provisioned id hash (message_of_result a.result.err) a.now cs in
      rw (h, new) (facts.0, facts.1, refl)
]
