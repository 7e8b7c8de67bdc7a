-- ===== src/Api.antt =====
-- api/v1beta1: the resources that the controllers read and write, with the fields that the modelled
-- code uses. Identifiers of features, cluster types and feature statuses are constants of libsveltos.
use addon_controller.Common.{ℕ, Option, List, Text, text_dec, Eq, Bool}

-- corev1.ObjectReference
pub record ObjectReference : Type 0 where
  pub kind : Text
  pub namespace : Text
  pub name : Text
  pub uid : Text
  pub api_version : Text
  pub resource_version : Text
  pub field_path : Text

unfoldable pub ref_dec : Discrete ObjectReference
unfolding text_dec
ref_dec = hlevel text_dec

instance abbrev pub ref_eq : Eq ObjectReference
ref_eq = record { dec = ref_dec }

pub data ClusterType : Type 0 where
  capi sveltos : ClusterType

pub data SyncMode : Type 0 where
  one_time continuous continuous_with_drift_detection dry_run : SyncMode

pub data FeatureId : Type 0 where
  resources helm kustomize : FeatureId

unfoldable pub feature_dec : Discrete FeatureId
feature_dec = hlevel

instance abbrev pub feature_eq : Eq FeatureId
feature_eq = record { dec = feature_dec }

-- `unset` is the empty string of a summary created for its message alone.
pub data FeatureStatus : Type 0 where
  unset provisioning provisioned failed failed_non_retriable removing agent_removing removed
        blocked :
      FeatureStatus

unfoldable pub status_dec : Discrete FeatureStatus
status_dec = hlevel

instance abbrev pub status_eq : Eq FeatureStatus
status_eq = record { dec = status_dec }

pub data HelmChartStatus : Type 0 where
  managing conflict : HelmChartStatus

pub data HelmChartAction : Type 0 where
  install uninstall : HelmChartAction

pub record HelmChart : Type 0 where
  pub chart_name : Text
  pub chart_version : Text
  pub release_namespace : Text
  pub release_name : Text
  pub helm_chart_action : HelmChartAction

-- A hash that is nil is `none` where the code tells it from an empty one.
pub record HelmChartSummary : Type 0 where
  pub release_namespace : Text
  pub release_name : Text
  pub status : HelmChartStatus
  pub values_hash : Option Text
  pub patches_hash : Option Text
  pub conflict_message : Text
  pub failure_message : Option Text
  pub needs_redeploy : Bool
  pub staged_content_hash : Text
  pub applied_content_hash : Text

pub record FeatureSummary : Type 0 where
  pub feature_id : FeatureId
  pub hash : Text
  pub consecutive_failures : ℕ
  pub status : FeatureStatus
  pub failure_reason : Option Text
  pub failure_message : Option Text
  pub last_applied_time : Option ℕ
  pub resource_summary_deployed : Option Bool

-- Spec of a (Cluster)Profile; of policies and kustomizations only their names are kept.
pub record ProfileSpec : Type 0 where
  pub sync_mode : SyncMode
  pub tier : ℕ
  pub continue_on_conflict : Bool
  pub continue_on_error : Bool
  pub helm_charts : List HelmChart
  pub policy_refs : List Text
  pub kustomization_refs : List Text
  pub depends_on : List Text
  pub transition_from : List Text
  pub max_consecutive_failures : Option ℕ

-- A ClusterSummary: its Spec beside its Status.
pub record ClusterSummary : Type 0 where
  pub namespace : Text
  pub name : Text
  pub cluster_namespace : Text
  pub cluster_name : Text
  pub cluster_type : ClusterType
  pub spec : ProfileSpec
  pub feature_summaries : List FeatureSummary
  pub helm_release_summaries : List HelmChartSummary
  pub next_reconcile_time : Option ℕ
  pub deletion_timestamp : Option ℕ
