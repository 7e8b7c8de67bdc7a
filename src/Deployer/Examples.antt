-- ===== src/Deployer/Examples.antt =====
-- A ClusterSummary whose helm feature has been deployed with the hash `h1`.
use addon_controller.Common.{
  ◌≡◌, refl, ◌≢◌, true, false, [], ◌∷◌, Option, none, some, Text, text, text_eq,
}
use addon_controller.Api.{
  helm, resources, feature_eq, feature_dec, failed, failed_non_retriable, status_eq, status_dec,
  ClusterSummary,
}
use addon_controller.Provisioned.{get_feature_summary_for_feature_id}
use addon_controller.Deployer.{
  result_removed, update_feature_status, other, template_instantiation, DeployerError, ResultStatus,
  deployed, result_failed, computed, Answers, done, queued, summary, has_status,
}
use addon_controller.Deployer.Deploying.{proceed_deploying_feature, deploy_feature}
use addon_controller.Deployer.Frame
use addon_controller.Deployer.Failures
use addon_controller.Deployer.Counting.{failed_with}
use addon_controller.Deployer.Settled
use addon_controller.Deployer.Undeploying
use addon_controller.Deployer.Undeploying.{
  is_feature_removed, undeploy_feature, process_undeploy_result,
}
use addon_controller.Deployer.Removal
use addon_controller.Features.{change_or_append}
use addon_controller.Examples.Fixtures.{summary_a, helm_provisioned}

abbrev answers : ResultStatus → Option DeployerError → Answers
answers status err = record {
  now = 7;
  cleanup_running = false;
  current_hash = computed (text "h1");
  pull_mode = some false;
  being_provisioned = false;
  result = record { status = status; err = err };
  charts = none;
  deploy_error = none;
  pull = λ cs. (cs, done);
}

abbrev lost : Text
lost = text "connection lost"

-- a summary that has failed once
abbrev failed_once : ClusterSummary
failed_once = record summary_a {
  feature_summaries = record helm_provisioned { consecutive_failures = 1; status = failed } ∷ [];
}

has_summary : summary summary_a helm ≡ some helm_provisioned
unfolding get_feature_summary_for_feature_id feature_dec
has_summary = refl

has_failed :
    summary failed_once helm
    ≡ some (record helm_provisioned { consecutive_failures = 1; status = failed })
unfolding get_feature_summary_for_feature_id feature_dec
has_failed = refl

push_mode : some false ≢ some true
push_mode e = cc

deploy_feature-frame_example :
    summary (deploy_feature helm (answers result_failed (some (other lost))) summary_a).0 resources
    ≡ summary summary_a resources
unfolding feature_dec
deploy_feature-frame_example =
    Frame.deploy_feature-frame helm resources refl (answers result_failed (some (other lost)))
      summary_a push_mode

proceed-max_reached_example :
    (has_status failed_non_retriable (
        summary
          (proceed_deploying_feature helm
            (answers result_failed (some (other lost)))
            (text "h1")
            false
            true
            failed_once).0
          helm)
      ≡ true)
    × ((proceed_deploying_feature helm
          (answers result_failed (some (other lost)))
          (text "h1")
          false
          true
          failed_once).1
        ≡ done)
proceed-max_reached_example =
    Failures.proceed-max_reached helm (answers result_failed (some (other lost))) (text "h1") false
      failed_once (other lost)
      (record helm_provisioned { consecutive_failures = 1; status = failed }) has_failed refl refl
      refl refl refl

proceed-below_max_example :
    (summary
        (proceed_deploying_feature helm
          (answers result_failed (some (other lost)))
          (text "h1")
          false
          true
          summary_a).0
        helm
      ≡ some (failed_with failed (text "h1") lost 7 1 helm_provisioned))
    × ((proceed_deploying_feature helm
          (answers result_failed (some (other lost)))
          (text "h1")
          false
          true
          summary_a).1
        ≡ queued)
proceed-below_max_example =
    Failures.proceed-below_max helm (answers result_failed (some (other lost))) (text "h1") false
      summary_a (other lost) helm_provisioned has_summary refl refl refl refl refl refl

proceed-non_retriable_example :
    (summary
        (proceed_deploying_feature helm
          (answers result_failed (some (template_instantiation lost)))
          (text "h1")
          false
          true
          summary_a).0
        helm
      ≡ some (failed_with failed_non_retriable (text "h1") lost 7 2 helm_provisioned))
    × ((proceed_deploying_feature helm
          (answers result_failed (some (template_instantiation lost)))
          (text "h1")
          false
          true
          summary_a).1
        ≡ done)
unfolding feature_dec
proceed-non_retriable_example =
    Failures.proceed-non_retriable helm (answers result_failed (some (template_instantiation lost)))
      (text "h1") false summary_a (template_instantiation lost) helm_provisioned has_summary refl
      refl refl refl refl

deploy_feature-settled_example :
    deploy_feature helm (answers deployed none) summary_a ≡ (summary_a, done)
unfolding status_dec
deploy_feature-settled_example =
    Settled.deploy_feature-settled helm (answers deployed none) (text "h1") false summary_a
      helm_provisioned refl refl refl refl has_summary refl refl

-- the answers once the cleanup of a feature has succeeded
abbrev removal : Undeploying.Answers
removal = record {
  now = 9;
  deploy_running = false;
  pull_mode = some false;
  tracking_error = none;
  status = result_removed;
  err = none;
  being_removed = false;
  deploy_error = none;
  pull = λ cs. (cs, Undeploying.done);
}

not_removed : is_feature_removed summary_a helm ≡ false
unfolding get_feature_summary_for_feature_id feature_dec status_dec
not_removed = refl

is_removed : is_feature_removed (undeploy_feature helm removal summary_a).0 helm ≡ true
unfolding undeploy_feature process_undeploy_result update_feature_status change_or_append
    get_feature_summary_for_feature_id feature_dec status_dec
is_removed = refl

undeploy_feature-removed_example : removal.status ≡ result_removed
undeploy_feature-removed_example =
    Removal.undeploy_feature-removed helm removal summary_a push_mode not_removed is_removed
