-- ===== src/Helm/Applying.antt =====
-- controllers/helm_apply_tracking.go over a history of staged charts, drifts and confirmations: a chart is
-- skipped exactly where what was staged last is confirmed and has not drifted since.
pub mod Names
pub mod Held
pub mod Refinement
pub mod Forgetting
use addon_controller.Common.{
  ◌≡◌, refl, sym, subst, ◌∙◌, ap, Bool, true, false, not, ◌==◌, ◌&&◌, ◌||◌, if◌then◌else◌, List, [],
  ◌∷◌, map, Option, none, some, Text, text_eq, text_dec, is_some, find, all, arith, Bool-cases, inl,
  inr,
}
use addon_controller.Api.{managing, install, HelmChart, HelmChartSummary, ClusterSummary}
use addon_controller.ChartManager.{Instance, is_dry_run, can_manage_chart}
use addon_controller.Provisioned.{is_empty}
use addon_controller.Helm.{is_for, get_helm_chart_summary}
use addon_controller.Helm.Tracking.{
  is_uninstall_action, should_skip_apply, skips, prepare_release,
  update_value_hash_on_helm_chart_summary, update_value_hash_on, record_helm_chart_apply,
  correct_conflict, confirm_applied_helm_charts, confirm_applied, ReleaseInfo, HelmChartRef,
  is_drifted, matched, mark, mark_drifted, mark_drifted_helm_charts, is_apply_tracked,
}

-- what happens to the summaries of the releases: a chart is staged (whether it may be skipped, the
-- hash of its content, those of its values and patches), drift is reported, the agent confirms
pub data Event : Type 0 where
  staged : HelmChart → Bool → Text → Option Text → Option Text → Event
  drifted : List HelmChartRef → Event
  confirmed : Event

-- A staged chart is prepared and recorded in one step. The code reads the status again in between, to
-- which a report or a confirmation may have been written: such a history is not one of these.
pub step : Instance → Event → ClusterSummary → ClusterSummary
unfolding prepare_release update_value_hash_on_helm_chart_summary confirm_applied_helm_charts
    mark_drifted_helm_charts
step m (staged chart allow hash values patches) cs =
    update_value_hash_on_helm_chart_summary m chart (some (prepare_release cs chart allow hash))
      values patches cs
step m (drifted refs) cs = mark_drifted_helm_charts refs cs
step m confirmed cs = confirm_applied_helm_charts cs

pub run : Instance → List Event → ClusterSummary → ClusterSummary
unfolding step
run m [] cs = cs
run m (e ∷ es) cs = run m es (step m e cs)

-- A deploy is staged with the hash of its content, which is not empty.
abbrev pub is_deploy : Event → Bool
is_deploy (staged chart allow hash values patches) =
    not (is_uninstall_action chart.helm_chart_action) && not (is_empty hash)
is_deploy (drifted refs) = true
is_deploy confirmed = true

-- What happened to one chart: the content that the agent was asked to apply last (empty: none),
-- whether it confirmed since, whether drift was reported since.
pub record History : Type 0 where
  pub requested : Text
  pub is_confirmed : Bool
  pub has_drifted : Bool

abbrev pub nothing : History
nothing = record { requested = []; is_confirmed = false; has_drifted = false }

pub permitted : History → Text → Bool
permitted t hash =
    not t.has_drifted && t.is_confirmed && not (is_empty t.requested) && t.requested == hash

abbrev pub is_same_release : HelmChart → HelmChart → Bool
is_same_release a b = a.release_name == b.release_name && a.release_namespace == b.release_namespace

abbrev pub names : List HelmChartRef → HelmChart → Bool
names [] chart = false
names (r ∷ rest) chart =
    chart.release_name == r.release_name && chart.release_namespace == r.release_namespace
    || names rest chart

-- A report is about a chart that it names; one that names no known release is about every chart.
abbrev pub reports : List HelmChartRef → List HelmChartSummary → HelmChart → Bool
reports refs known chart = names refs chart || not (matched refs known)

pub follow : List HelmChartSummary → HelmChart → Event → History → History
unfolding permitted
follow known chart (staged other allow hash values patches) t =
    if is_same_release chart other
    then if allow && permitted t hash
      then t
      else record { requested = hash; is_confirmed = false; has_drifted = false }
    else t
follow known chart (drifted refs) t =
    if reports refs known chart then record t { has_drifted = true } else t
follow known chart confirmed t = record t { is_confirmed = true }

pub follow_all : List HelmChartSummary → HelmChart → List Event → History → History
unfolding follow
follow_all known chart [] t = t
follow_all known chart (e ∷ es) t = follow_all known chart es (follow known chart e t)
