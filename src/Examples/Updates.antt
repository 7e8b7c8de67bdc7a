-- ===== src/Examples/Updates.antt =====
-- A rolling update of two clusters, one at a time, and a ClusterSummary that is provisioned.
use addon_controller.Common.{◌≡◌, refl, ◌&&◌, ◌||◌, true, false, [], ◌∷◌, text, arith}
use addon_controller.Api.{ref_eq, helm, resources, kustomize}
use addon_controller.RefSet.{list_set}
use addon_controller.Provisioned
use addon_controller.Provisioned.{
  is_cluster_summary_provisioned, all_provisioned, is_empty, mentions,
}
use addon_controller.RollingUpdate.{World, found, patched, Status}
use addon_controller.RollingUpdate.Pass.{update_cluster_summaries}
use addon_controller.RollingUpdate.Bounds.{Within}
use addon_controller.RollingUpdate.Revising
use addon_controller.Examples.Fixtures.{cluster_1, cluster_2, summary_a}

-- every cluster is ready, and every patch succeeds
abbrev calm : World
calm = record {
  ready = λ c. found true;
  paused = λ c. found false;
  summary = λ c. found summary_a;
  patch = λ c. patched;
}

abbrev at_start : Status
at_start = record {
  matching_cluster_refs = cluster_1 ∷ cluster_2 ∷ [];
  updating_clusters = record { hash = text "h1"; clusters = cluster_1 ∷ [] };
  updated_clusters = record { hash = text "h1"; clusters = [] };
  failed_clusters = [];
}

update_cluster_summaries-Within_example :
    Within 1 (update_cluster_summaries list_set calm 1 (text "h1") at_start).0
update_cluster_summaries-Within_example =
    Revising.update_cluster_summaries-Within list_set calm 1 1 (text "h1") at_start (omega arith)
      (omega arith) (omega arith, (refl, tt))

is_cluster_summary_provisioned_lem_example : is_cluster_summary_provisioned summary_a ≡ (
    all_provisioned summary_a.feature_summaries
    && ((is_empty summary_a.spec.helm_charts || mentions summary_a.feature_summaries helm)
        && (is_empty summary_a.spec.policy_refs || mentions summary_a.feature_summaries resources)
        && (is_empty summary_a.spec.kustomization_refs
            || mentions summary_a.feature_summaries kustomize)))
is_cluster_summary_provisioned_lem_example =
    Provisioned.is_cluster_summary_provisioned_lem summary_a
