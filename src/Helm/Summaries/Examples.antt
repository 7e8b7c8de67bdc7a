-- ===== src/Helm/Summaries/Examples.antt =====
-- A pass over one chart that its ClusterSummary manages.
use addon_controller.Common.{◌≡◌, refl, List, [], ◌∷◌, some, inl, text, text_dec, text_eq, false}
use addon_controller.Api.{HelmChartSummary}
use addon_controller.ChartManager.{
  set_manager_for_chart, can_manage_chart, registered, set_registered,
}
use addon_controller.ChartManager.Keys.{cluster_key, release_key}
use addon_controller.Helm.{get_helm_chart_summary}
use addon_controller.Helm.Ownership.{State, determine_chart_ownership}
use addon_controller.Helm.Summaries.{
  World, managing_summary, build_referenced_helm_release_summaries,
}
use addon_controller.Helm.Summaries.Carried
use addon_controller.Helm.Summaries.Carried.{Carried}
use addon_controller.Examples.Fixtures.{answers, kyverno, summary_b}

abbrev rendering : World
rendering = record { ownership = answers; instantiated = some }

abbrev owned : State
owned = record {
  charts = set_manager_for_chart (record { charts = []; versions = [] }) summary_b kyverno;
  stored = (text "b", summary_b) ∷ [];
}

abbrev again : List HelmChartSummary
again = managing_summary summary_b kyverno ∷ []

built :
    build_referenced_helm_release_summaries rendering summary_b summary_b owned
    ≡ (some (again, false), owned)
unfolding build_referenced_helm_release_summaries determine_chart_ownership can_manage_chart
    registered text_dec cluster_key release_key set_registered set_manager_for_chart
built = refl

build_referenced_helm_release_summaries-Carried_example :
    (s : HelmChartSummary) × (get_helm_chart_summary kyverno
        (record summary_b { helm_release_summaries = again })
      ≡ some s)
    × Carried summary_b kyverno s
build_referenced_helm_release_summaries-Carried_example =
    Carried.build_referenced_helm_release_summaries-Carried rendering summary_b summary_b owned
      kyverno again false owned (inl refl) built
