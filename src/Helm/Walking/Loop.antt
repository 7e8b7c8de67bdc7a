-- ===== src/Helm/Walking/Loop.antt =====
-- controllers/handlers_helm.go: walkChartsAndDeploy, the loop over deploySingleChart.
use addon_controller.Common.{
  not, if◌then◌else◌, List, [], ◌∷◌, ◌++◌, Option, none, some, ◌⊎◌, inl, inr, Text,
}
use addon_controller.Api.{HelmChart}
use addon_controller.Provisioned.{is_empty}
use addon_controller.Helm.Walking.{
  Error, generic, non_retriable, ReleaseReport, World, State, Step, deploy_single_chart,
}

-- what walkChartsAndDeploy collects
pub record Collected : Type 0 where
  pub release_reports : List ReleaseReport
  pub charts_deployed : List HelmChart
  pub error_msg : Text
  pub conflict_error_message : Text

abbrev put {ℓ} : {A : Type ℓ} → List A → Option A → List A
put xs none = xs
put xs (some x) = xs ++ (x ∷ [])

abbrev pub collect : Collected → Step → Collected
collect c s = record {
  release_reports = put c.release_reports s.report;
  charts_deployed = put c.charts_deployed s.deployed;
  error_msg = c.error_msg ++ s.accum_err;
  conflict_error_message = c.conflict_error_message ++ s.conflict_msg;
}

-- behind one chart: an error of deploySingleChart ends the loop, any other step is collected
abbrev pub go_on :
    (Collected → State → Option Error × Collected × State)
    → Collected
    → Error ⊎ Step
    → State
    → Option Error × Collected × State
go_on others c (inl e) st = (some e, c, st)
go_on others c (inr s) st = others (collect c s) st

-- the loop of walkChartsAndDeploy
unfoldable pub walk : World → List HelmChart → Collected → State → Option Error × Collected × State
unfolding deploy_single_chart
walk w [] c st = (none, c, st)
walk w (chart ∷ rest) c st = let o = deploy_single_chart w chart st in go_on (walk w rest) c o.0 o.1

-- the errors that were collected: failures before conflicts
abbrev pub error_of : Option Error → Collected → Option Error
error_of (some e) c = some e
error_of none c =
    if not (is_empty c.error_msg)
    then some (generic c.error_msg)
    else if not (is_empty c.conflict_error_message)
    then some (non_retriable c.conflict_error_message)
    else none

abbrev pub finish : Option Error × Collected × State → Option Error × Collected × State
finish (e, c, st) = (error_of e c, c, st)

abbrev pub nothing_collected : Collected
nothing_collected = record {
  release_reports = [];
  charts_deployed = [];
  error_msg = [];
  conflict_error_message = [];
}

-- walkChartsAndDeploy
unfoldable pub walk_charts_and_deploy : World → State → Option Error × Collected × State
unfolding walk
walk_charts_and_deploy w st = finish (walk w st.object.spec.helm_charts nothing_collected st)
