-- ===== src/Helm/Decisions.antt =====
-- controllers/handlers_helm.go: whether the release of a chart is installed, upgraded, uninstalled or left
-- alone (deployHelmChart). Helm itself, the hashes of values and patches, the rendering of values and the
-- order of semantic versions (Masterminds/semver) are parameters.
use addon_controller.Common.{
  Bool, true, false, not, ◌&&◌, ◌==◌, if◌then◌else◌, List, [], ◌∷◌, Option, none, some, Text,
  text_eq, text_dec, Eq,
}
use addon_controller.Api.{SyncMode, continuous_with_drift_detection, HelmChart, ClusterSummary}
use addon_controller.ChartManager.{is_dry_run}
use addon_controller.Provisioned.{is_empty}
use addon_controller.Helm.{
  get_values_hash_from_helm_chart_summary, get_patches_hash_from_helm_chart_summary,
  get_needs_redeploy_from_helm_chart_summary,
}
use addon_controller.Helm.Tracking.{is_uninstall_action}

pub data Order : Type 0 where
  less equal greater : Order

-- semver.NewVersion and Compare
pub record Semver : Type 1 where
  pub Version : Type 0
  pub new_version : Text → Option Version
  pub compare : Version → Version → Order

-- a status of helm; any status but these two is `other_status`
pub data ReleaseStatus : Type 0 where
  deployed uninstalled other_status : ReleaseStatus

-- releaseInfo: the release of a chart, as helm reports it
pub record Release : Type 0 where
  pub status : ReleaseStatus
  pub chart_version : Text

-- What a decision reads besides the status: the hashes of the current values and patches (`none` is an
-- error), and whether the desired values are a subset of the deployed ones.
pub record Desired : Type 0 where
  pub values_hash : Option Text
  pub patches_hash : Option Text
  pub values_are_subset : Bool

abbrev is_uninstalled : ReleaseStatus → Bool
is_uninstalled uninstalled = true
is_uninstalled _ = false

abbrev pub is_deployed : ReleaseStatus → Bool
is_deployed deployed = true
is_deployed _ = false

abbrev pub should_install : Option Release → HelmChart → Bool
should_install current chart =
    if is_uninstall_action chart.helm_chart_action
    then false
    else elim current [ none ↦ true | some r ↦ is_uninstalled r.status ]

-- reflect.DeepEqual on hashes, where nil is not the empty hash
unfoldable pub hash_dec : Discrete (Option Text)
unfolding text_dec
hash_dec = hlevel text_dec

instance abbrev pub hash_eq : Eq (Option Text)
hash_eq = record { dec = hash_dec }

-- a hash that could not be computed is the empty one
abbrev pub or_empty : Option Text → Text
or_empty none = []
or_empty (some h) = h

-- the stored hash of the values, or the current one where nothing is stored and the deployed release has
-- the desired values
abbrev old_values_hash : Option Text → Option Release → Desired → Text → Option Text
old_values_hash (some h) current d now = some h
old_values_hash none none d now = none
old_values_hash none (some r) d now =
    if is_deployed r.status && d.values_are_subset then some now else none

abbrev old_patches_hash : Option Text → Text → Option Text
old_patches_hash (some h) now = some h
old_patches_hash none now = if is_empty now then some now else none

-- the version of the release is not the one requested, or one of them is no version
abbrev version_differs : Semver → Text → Text → Bool
version_differs v current requested = elim (v.new_version current) [
  | none ↦ true
  | some c ↦ elim (v.new_version requested) [
    | none ↦ true
    | some e ↦ elim (v.compare c e) [ equal ↦ false | _ ↦ true ]
  ]
]

abbrev pub release_differs : Semver → Option Release → HelmChart → Bool
release_differs v none chart = false
release_differs v (some r) chart =
    if not (is_deployed r.status)
    then true
    else version_differs v r.chart_version chart.chart_version

-- shouldUpgradeForContinuousMode
unfoldable pub should_upgrade_for_continuous_mode :
    Semver → Option Release → HelmChart → ClusterSummary → Desired → Text → Bool
unfolding hash_dec
should_upgrade_for_continuous_mode v current chart cs d patches =
    let values = or_empty d.values_hash in
    let old_values =
      old_values_hash (get_values_hash_from_helm_chart_summary chart cs) current d values in
    let old_patches =
      old_patches_hash (get_patches_hash_from_helm_chart_summary chart cs) patches in
    let differs = release_differs v current chart in
    if is_dry_run cs.spec.sync_mode
    then differs
    else if not (old_values == some values)
    then true
    else if not (old_patches == some patches)
    then true
    else differs

-- needsRedeployForDrift
abbrev pub needs_redeploy_for_drift : HelmChart → ClusterSummary → Bool
needs_redeploy_for_drift = get_needs_redeploy_from_helm_chart_summary

abbrev pub detects_drift : SyncMode → Bool
detects_drift continuous_with_drift_detection = true
detects_drift _ = false

unfoldable pub should_upgrade :
    Semver → Option Release → HelmChart → ClusterSummary → Desired → Bool
unfolding should_upgrade_for_continuous_mode
should_upgrade v current chart cs d =
    let patches = or_empty d.patches_hash in
    let changed = should_upgrade_for_continuous_mode v current chart cs d patches in
    if is_uninstall_action chart.helm_chart_action
    then false
    else if not (detects_drift cs.spec.sync_mode)
    then changed
    else if needs_redeploy_for_drift chart cs
    then true
    else changed

abbrev pub should_uninstall : Option Release → HelmChart → Bool
should_uninstall none chart = false
should_uninstall (some r) chart =
    if is_uninstalled r.status
    then false
    else if not (is_uninstall_action chart.helm_chart_action)
    then false
    else true

-- what deployHelmChart does to the release
pub data Action : Type 0 where
  install upgrade uninstall not_installed same_version : Action

-- the chain of conditions of deployHelmChart
unfoldable pub choose : Semver → Option Release → HelmChart → ClusterSummary → Desired → Action
unfolding should_upgrade
choose v current chart cs d =
    if should_install current chart
    then install
    else if should_upgrade v current chart cs d
    then upgrade
    else if should_uninstall current chart
    then uninstall
    else elim current [ none ↦ not_installed | some r ↦ same_version ]

-- getReleaseInfo: the release, ErrReleaseNotFound, or another error
pub data Lookup : Type 0 where
  release : Release → Lookup
  not_found : Lookup
  lookup_error : Text → Lookup

-- the answers of helm to one call of deployHelmChart: the release before and after it, the error of the
-- handler of each action, of the tests of the chart and of the metadata
pub record Answers : Type 0 where
  pub before : Lookup
  pub handle : Action → Option Text
  pub run_tests : Bool
  pub test_error : Option Text
  pub metadata_error : Option Text
  pub after : Lookup

-- the error, or the release and what the report says
pub data Outcome : Type 0 where
  outcome_error : Text → Outcome
  outcome : Option Release → Action → Outcome

abbrev pub deploys : Action → Bool
deploys install = true
deploys upgrade = true
deploys _ = false

abbrev final : Answers → Action → Outcome
final a action = elim a.after [
  | release r ↦ outcome (some r) action
  | not_found ↦ outcome none action
  | lookup_error e ↦ outcome_error e
]

abbrev add_extra_metadata : Option Release → Answers → Action → Outcome
add_extra_metadata none a action = final a action
add_extra_metadata (some r) a action = elim a.metadata_error [
  | some e ↦ outcome_error e
  | none ↦ final a action
]

abbrev run_helm_tests : Option Release → ClusterSummary → Answers → Action → Outcome
run_helm_tests current cs a action =
    let rest = add_extra_metadata current a action in
    if deploys action && a.run_tests && not (is_dry_run cs.spec.sync_mode)
    then elim a.test_error [ some e ↦ outcome_error e | none ↦ rest ]
    else rest

-- Without a release and with nothing to do, no handler is called.
abbrev handled : Answers → Action → Option Text
handled a not_installed = none
handled a action = a.handle action

abbrev calls : Action → List Action
calls not_installed = []
calls action = action ∷ []

-- the handlers that are called, beside the outcome
abbrev act : Option Release → ClusterSummary → Answers → Action → List Action × Outcome
act current cs a action = elim (handled a action) [
  | some e ↦ (calls action, outcome_error e)
  | none ↦ (calls action, run_helm_tests current cs a action)
]

-- deployHelmChart
pub deploy_helm_chart :
    Semver → HelmChart → ClusterSummary → Desired → Answers → List Action × Outcome
unfolding choose
deploy_helm_chart v chart cs d a = elim a.before [
  | lookup_error e ↦ ([], outcome_error e)
  | not_found ↦ act none cs a (choose v none chart cs d)
  | release r ↦ act (some r) cs a (choose v (some r) chart cs d)
]
