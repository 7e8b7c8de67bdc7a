-- ===== src/Helm/Walking/Hidden.antt =====
-- walkChartsAndDeploy (controllers/handlers_helm.go) where one chart failed and a later one is in conflict.
use addon_controller.Common.{
  ◌≡◌, refl, ◌∙◌, ap, false, List, [], ◌∷◌, ◌++◌, Option, none, some, ◌⊎◌, inl, inr,
}
use addon_controller.Api.{HelmChart}
use addon_controller.ChartManager.{is_dry_run}
use addon_controller.Helm.Ownership
use addon_controller.Helm.Ownership.{Answer, failure, answer}
use addon_controller.Helm.Walking.{
  Error, non_retriable, World, State, Step, ReleaseReport, generate_conflict_for_helm_chart,
  can_manage, deploy_single_chart,
}
use addon_controller.Helm.Walking.Loop.{Collected, go_on, walk, finish}

abbrev Result : Type 0
Result = Option Error × Collected × State

abbrev resume : (Collected → State → Result) → Result → Result
resume others (some e, c, st) = (some e, c, st)
resume others (none, c, st) = others c st

go_on-resume :
    (others more : Collected → State → Result) (c : Collected) (r : Error ⊎ Step) (st : State)
    → go_on (λ d t. resume more (others d t)) c r st ≡ resume more (go_on others c r st)
go_on-resume others more c (inl e) st = refl
go_on-resume others more c (inr s) st = refl

go_on-cong :
    (f g : Collected → State → Result) (c : Collected) (r : Error ⊎ Step) (st : State)
    → ((d : Collected) (t : State) → f d t ≡ g d t)
    → go_on f c r st ≡ go_on g c r st
go_on-cong f g c (inl e) st h = refl
go_on-cong f g c (inr s) st h = h _ st

-- the walk over two lists, one behind the other
walk-++ :
    (w : World) (before later : List HelmChart) (c : Collected) (st : State)
    → walk w (before ++ later) c st ≡ resume (walk w later) (walk w before c st)
unfolding walk
walk-++ w [] later c st = refl
walk-++ w (chart ∷ rest) later c st =
    let o = deploy_single_chart w chart st in
    go_on-cong (walk w (rest ++ later)) (λ d t. resume (walk w later) (walk w rest d t)) c o.0 o.1
      (λ d t. walk-++ w rest later d t)
    ∙ go_on-resume (walk w rest) (walk w later) c o.0 o.1

in_conflict :
    (w : World) (chart instantiated : HelmChart) (st : State) (shared : Ownership.State)
    (report : ReleaseReport)
    → w.instantiated chart ≡ inr instantiated
    → can_manage w instantiated st ≡ (answer false, shared)
    → w.report_unmanaged instantiated ≡ inr report
    → st.object.spec.continue_on_conflict ≡ false
    → is_dry_run st.object.spec.sync_mode ≡ false
    → deploy_single_chart w chart st ≡ (
      inl (
          non_retriable
            (generate_conflict_for_helm_chart (record st { shared = shared }) instantiated)),
      record st { shared = shared },
    )
unfolding deploy_single_chart
in_conflict w chart instantiated st shared report is m r c d = rw (is, m, r, c, d) refl

-- Where the charts in front were walked over, whatever failures were collected on the way
-- (ContinueOnError), and the next chart is in conflict without ContinueOnConflict and outside DryRun,
-- the walk returns the NonRetriableError of the conflict alone, and hands no further chart to handleChart.
pub walk-conflict_hides :
    (w : World) (before rest : List HelmChart) (chart instantiated : HelmChart) (c : Collected)
    (st : State) (d : Collected) (next : State) (shared : Ownership.State) (report : ReleaseReport)
    → walk w before c st ≡ (none, d, next)
    → w.instantiated chart ≡ inr instantiated
    → can_manage w instantiated next ≡ (answer false, shared)
    → w.report_unmanaged instantiated ≡ inr report
    → next.object.spec.continue_on_conflict ≡ false
    → is_dry_run next.object.spec.sync_mode ≡ false
    → finish (walk w (before ++ (chart ∷ rest)) c st) ≡ (
      some (
          non_retriable
            (generate_conflict_for_helm_chart (record next { shared = shared }) instantiated)),
      d,
      record next { shared = shared },
    )
unfolding walk
walk-conflict_hides w before rest chart i c st d next shared report e is m r k dry =
    ap finish (walk-++ w before (chart ∷ rest) c st)
    ∙ rw (e, in_conflict w chart i next shared report is m r k dry) refl
