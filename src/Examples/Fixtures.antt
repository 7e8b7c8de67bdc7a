-- ===== src/Examples/Fixtures.antt =====
-- Resources for the examples.
use addon_controller.Common.{ltb, List, [], ◌∷◌, false, none, some, Text, text}
use addon_controller.Helm.Ownership
use addon_controller.RollingUpdate.{not_found}
use addon_controller.Api.{
  ObjectReference, sveltos, continuous, helm, provisioned, install, HelmChart, HelmChartStatus,
  managing, conflict, HelmChartSummary, FeatureSummary, ProfileSpec, ClusterSummary,
}

abbrev pub reference : Text → Text → ObjectReference
reference kind name = record {
  kind = kind;
  namespace = text "default";
  name = name;
  uid = [];
  api_version = text "v1beta1";
  resource_version = [];
  field_path = [];
}

abbrev pub cluster_1 : ObjectReference
cluster_1 = reference (text "SveltosCluster") (text "c1")

abbrev pub cluster_2 : ObjectReference
cluster_2 = reference (text "SveltosCluster") (text "c2")

abbrev pub cluster_3 : ObjectReference
cluster_3 = reference (text "SveltosCluster") (text "c3")

abbrev pub base_profile : ObjectReference
base_profile = reference (text "Profile") (text "base")

abbrev pub app_profile : ObjectReference
app_profile = reference (text "Profile") (text "app")

abbrev pub kyverno : HelmChart
kyverno = record {
  chart_name = text "kyverno";
  chart_version = text "v3";
  release_namespace = text "kyverno";
  release_name = text "latest";
  helm_chart_action = install;
}

abbrev pub nginx : HelmChart
nginx = record {
  chart_name = text "nginx";
  chart_version = text "v1";
  release_namespace = text "web";
  release_name = text "nginx";
  helm_chart_action = install;
}

abbrev pub spec_of : List HelmChart → ProfileSpec
spec_of charts = record {
  sync_mode = continuous;
  tier = 100;
  continue_on_conflict = false;
  continue_on_error = false;
  helm_charts = charts;
  policy_refs = [];
  kustomization_refs = [];
  depends_on = [];
  transition_from = [];
  max_consecutive_failures = some 2;
}

abbrev pub helm_provisioned : FeatureSummary
helm_provisioned = record {
  feature_id = helm;
  hash = text "h1";
  consecutive_failures = 0;
  status = provisioned;
  failure_reason = none;
  failure_message = none;
  last_applied_time = none;
  resource_summary_deployed = none;
}

abbrev pub summary_of : Text → List HelmChart → List HelmChartSummary → ClusterSummary
summary_of name charts releases = record {
  namespace = text "default";
  name = name;
  cluster_namespace = text "default";
  cluster_name = text "c1";
  cluster_type = sveltos;
  spec = spec_of charts;
  feature_summaries = helm_provisioned ∷ [];
  helm_release_summaries = releases;
  next_reconcile_time = none;
  deletion_timestamp = none;
}

abbrev pub kyverno_is : HelmChartStatus → HelmChartSummary
kyverno_is status = record {
  release_namespace = text "kyverno";
  release_name = text "latest";
  status = status;
  values_hash = none;
  patches_hash = none;
  conflict_message = [];
  failure_message = none;
  needs_redeploy = false;
  staged_content_hash = [];
  applied_content_hash = [];
}

abbrev pub summary_a : ClusterSummary
summary_a = summary_of (text "a") (kyverno ∷ nginx ∷ []) (kyverno_is conflict ∷ [])

abbrev pub summary_b : ClusterSummary
summary_b = summary_of (text "b") (kyverno ∷ []) (kyverno_is managing ∷ [])

abbrev pub summary_c : ClusterSummary
summary_c = summary_of (text "c") [] []

-- an API server that fails nothing, and no profile
abbrev pub answers : Ownership.World
answers = record {
  in_progress = λ n. false;
  get_fails = λ n. false;
  update_fails = λ n. false;
  has_higher_ownership_priority = λ a b. ltb b a;
  transition = record {
    profiles = λ n. none;
    cluster_profiles = none;
    owner = λ cs. none;
    cluster = not_found;
    matches = λ s. false;
    summary = λ s. not_found;
  };
}
