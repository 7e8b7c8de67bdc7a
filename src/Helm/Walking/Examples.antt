-- ===== src/Helm/Walking/Examples.antt =====
-- Two charts: one fails, the other is deployed or in conflict.
use addon_controller.Common.{
  ◌≡◌, refl, true, false, [], ◌∷◌, ◌++◌, Option, none, some, inl, inr, Text, text, text_dec,
  text_eq, ◌==◌, if◌then◌else◌,
}
use addon_controller.Api.{ClusterSummary}
use addon_controller.ChartManager.{
  Instance, set_manager_for_chart, get_manager_for_chart, can_manage_chart, registered,
  set_registered,
}
use addon_controller.ChartManager.Keys.{cluster_key, release_key}
use addon_controller.Transition.{is_chart_transitioning_from}
use addon_controller.Helm.Ownership.{
  answer, update, determine_chart_ownership, requeue_lower_tier_challengers,
}
use addon_controller.Helm.Walking.{
  Error, generic, non_retriable, World, State, Handled, ReleaseReport, deploy_single_chart,
  generate_conflict_for_helm_chart, can_manage,
}
use addon_controller.Helm.Walking.Loop.{
  Collected, nothing_collected, walk, walk_charts_and_deploy, finish,
}
use addon_controller.Helm.Walking.Complete
use addon_controller.Helm.Walking.Complete.{SucceedsAll}
use addon_controller.Helm.Walking.Hidden
use addon_controller.Examples.Fixtures.{answers, kyverno, nginx, spec_of, summary_of, summary_b}

abbrev blank : ReleaseReport
blank = record {
  release_name = [];
  release_namespace = [];
  chart_version = [];
  action = [];
  message = [];
}

abbrev handled : Handled
handled = record { release = none; is_deployed = true; report = some blank }

-- every chart is handled but one of this name
abbrev handling : Text → World
handling broken = record {
  ownership = answers;
  is_pull_mode = false;
  instantiated = λ c. inr c;
  report_unmanaged = λ c. inr blank;
  hashes = λ c. inr (none, none);
  handle_chart = λ before c allow.
      if c.chart_name == broken then inl (generic (text "timeout")) else inr handled;
  ownership_error = text "no manager";
  status_error = text "no update";
}

abbrev nobody : Instance
nobody = record { charts = []; versions = [] }

abbrev both : ClusterSummary
both = record (summary_of (text "z") (nginx ∷ kyverno ∷ []) []) {
  spec = record (spec_of (nginx ∷ kyverno ∷ [])) { tier = 200; continue_on_error = true };
}

abbrev alone : State
alone = record {
  object = both;
  shared = record { charts = nobody; stored = (text "z", both) ∷ [] };
  handled = [];
}

-- another ClusterSummary manages the second chart
abbrev contested : State
contested = record alone {
  shared = record {
    charts = set_manager_for_chart nobody summary_b kyverno;
    stored = (text "z", both) ∷ (text "b", summary_b) ∷ [];
  };
}

walked : (walk_charts_and_deploy (handling []) alone).0 ≡ none
unfolding walk_charts_and_deploy can_manage_chart registered requeue_lower_tier_challengers text_dec
    cluster_key release_key set_registered update determine_chart_ownership set_manager_for_chart
walked = refl

walk_charts_and_deploy-SucceedsAll_example :
    SucceedsAll
      (handling [])
      (nginx ∷ kyverno ∷ [])
      alone
      (walk_charts_and_deploy (handling []) alone).2
walk_charts_and_deploy-SucceedsAll_example =
    Complete.walk_charts_and_deploy-SucceedsAll (handling []) alone walked

-- the walk over the first chart, which fails
abbrev first_walked : Option Error × Collected × State
first_walked = walk (handling (text "nginx")) (nginx ∷ []) nothing_collected contested

first_failed : first_walked ≡ (
  none,
  record nothing_collected {
    error_msg = text "chart=nginx, releaseNamespace=web, releaseName=nginx: timeout\n";
  },
  record contested { handled = nginx ∷ [] },
)
unfolding walk deploy_single_chart can_manage_chart registered requeue_lower_tier_challengers
    text_dec cluster_key release_key set_registered update determine_chart_ownership
    set_manager_for_chart
first_failed = refl

abbrev afterwards : State
afterwards = record contested { handled = nginx ∷ [] }

second_in_conflict :
    can_manage (handling (text "nginx")) kyverno afterwards ≡ (answer false, afterwards.shared)
unfolding can_manage_chart registered text_dec cluster_key release_key set_registered
    determine_chart_ownership set_manager_for_chart get_manager_for_chart
    is_chart_transitioning_from
second_in_conflict = refl

walk-conflict_hides_example :
    finish
      (walk (handling (text "nginx")) ((nginx ∷ []) ++ (kyverno ∷ [])) nothing_collected contested)
    ≡ (
      some (non_retriable (generate_conflict_for_helm_chart afterwards kyverno)),
      record nothing_collected {
        error_msg = text "chart=nginx, releaseNamespace=web, releaseName=nginx: timeout\n";
      },
      afterwards,
    )
walk-conflict_hides_example =
    Hidden.walk-conflict_hides (handling (text "nginx")) (nginx ∷ []) [] kyverno kyverno
      nothing_collected contested
      (record nothing_collected {
        error_msg = text "chart=nginx, releaseNamespace=web, releaseName=nginx: timeout\n";
      })
      afterwards afterwards.shared blank first_failed refl second_in_conflict refl refl refl
