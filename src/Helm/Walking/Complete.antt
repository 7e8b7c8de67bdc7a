-- ===== src/Helm/Walking/Complete.antt =====
-- walkChartsAndDeploy (controllers/handlers_helm.go) without an error: what it went over.
use addon_controller.Common.{
  Option-cases, ◌≡◌, refl, sym, ◌∙◌, ap, Bool, true, false, not, ◌&&◌, ◌||◌, List, [], ◌∷◌, ◌++◌,
  Option, none, some, ◌⊎◌, inl, inr, Text, text_eq, arith, Bool-cases,
}
use addon_controller.Api.{HelmChart, HelmChartSummary, ClusterSummary}
use addon_controller.ChartManager.{
  is_dry_run, get_manager_for_chart, summary_cluster_key, chart_key,
}
use addon_controller.Provisioned.{is_empty}
use addon_controller.RollingUpdate.{Lookup, found, failed, not_found}
use addon_controller.Helm.Ownership
use addon_controller.Helm.Ownership.{Answer, failure, answer, requeue_lower_tier_challengers}
use addon_controller.Helm.Walking.{
  Error, generic, non_retriable, World, State, Step, Handled, ReleaseReport, unmanaged,
  generate_conflict_for_helm_chart, chart_failed, store_in, store_hashes, set_helm_failure_message,
  chart_stored, chart_handled, handle, of_requeue, can_manage, of_can_manage, of_identity,
  deploy_single_chart,
}
use addon_controller.Helm.Walking.Loop.{
  Collected, collect, go_on, walk, finish, nothing_collected, walk_charts_and_deploy,
}

-- a step that the walk collects without a message
abbrev is_quiet : Error ⊎ Step → Bool
is_quiet (inl e) = false
is_quiet (inr s) = is_empty s.accum_err && is_empty s.conflict_msg

conflict-is_empty :
    (st : State) (chart : HelmChart) → is_empty (generate_conflict_for_helm_chart st chart) ≡ false
conflict-is_empty st chart =
    elim (Option-cases
      (get_manager_for_chart st.shared.charts (summary_cluster_key st.object) (chart_key chart))) [
        | inl e ↦ rw e refl
        | inr (m, e) ↦ rw e refl
      ]

unmanaged-is_quiet :
    (r : Error ⊎ ReleaseReport) (chart : HelmChart) (st : State)
    → is_quiet (unmanaged r chart st).0 ≡ false
unmanaged-is_quiet (inl e) chart st = refl
unmanaged-is_quiet (inr report) chart st =
    elim (Bool-cases (st.object.spec.continue_on_conflict || is_dry_run st.object.spec.sync_mode)) [
      | inl e ↦ rw e (conflict-is_empty st chart)
      | inr e ↦ rw e refl
    ]

chart_failed-is_quiet :
    (e : Error) (chart : HelmChart) (st : State) → is_quiet (chart_failed e chart st).0 ≡ false
chart_failed-is_quiet (generic t) chart st = elim (Bool-cases st.object.spec.continue_on_error) [
  | inl e ↦ rw e refl
  | inr e ↦ rw e refl
]
chart_failed-is_quiet (non_retriable t) chart st =
    elim (Bool-cases st.object.spec.continue_on_error) [ inl e ↦ rw e refl | inr e ↦ rw e refl ]

store_in-handled :
    (w : World) (change : HelmChartSummary → HelmChartSummary) (st : State)
    (l : Lookup ClusterSummary)
    → (store_in w change st l).1.handled ≡ st.handled
store_in-handled w change st failed = refl
store_in-handled w change st not_found = refl
store_in-handled w change st (found current) = refl

-- Behind the charts `before`, the hashes of the chart were computed, handleChart answered for it without
-- an error, and the hashes were stored; `ready` is the state in between.
pub record Deploys (w : World) (before : List HelmChart) (chart : HelmChart) (next : State)
    : Type 0 where
  pub values : Option Text
  pub patches : Option Text
  pub allow_skip_apply : Bool
  pub answer : Handled
  pub ready : State
  pub hashed : w.hashes chart ≡ inr (values, patches)
  pub succeeds : w.handle_chart before chart allow_skip_apply ≡ inr answer
  pub stored : store_hashes w chart answer.release values patches ready ≡ (true, next)
  pub handled : next.handled ≡ before ++ (chart ∷ [])

chart_stored-is_quiet :
    (w : World) (chart : HelmChart) (h : Handled) (r : Bool × State)
    → is_quiet (chart_stored w chart h r).0 ≡ true
    → r ≡ (true, (chart_stored w chart h r).1)
chart_stored-is_quiet w chart h (true, st) q = refl
chart_stored-is_quiet w chart h (false, st) q = ground (arith, q)

chart_handled-Deploys :
    (w : World) (chart : HelmChart) (values patches : Option Text) (allow : Bool)
    (r : Error ⊎ Handled) (before : List HelmChart) (st : State)
    → w.hashes chart ≡ inr (values, patches)
    → w.handle_chart before chart allow ≡ r
    → st.handled ≡ before ++ (chart ∷ [])
    → is_quiet (chart_handled w chart values patches r st).0 ≡ true
    → Deploys w before chart (chart_handled w chart values patches r st).1
chart_handled-Deploys w chart values patches allow (inl e) before st hashed succeeds handled q =
    ground (arith, chart_failed-is_quiet e chart st, q)
chart_handled-Deploys w chart values patches allow (inr h) before st hashed succeeds handled q =
    let ready : State = record st { object = set_helm_failure_message chart none st.object } in
    let r = store_hashes w chart h.release values patches ready in
    let done = chart_stored-is_quiet w chart h r q in
    record {
      values = values;
      patches = patches;
      allow_skip_apply = allow;
      answer = h;
      ready = ready;
      hashed = hashed;
      succeeds = succeeds;
      stored = done;
      handled = sym (ap (λ t. t.1.handled) done) ∙ store_in-handled w _ ready _ ∙ handled;
    }

handle-Deploys :
    (w : World) (chart : HelmChart) (allow : Bool) (hashes : Error ⊎ (Option Text × Option Text))
    (st : State)
    → w.hashes chart ≡ hashes
    → is_quiet (handle w chart allow hashes st).0 ≡ true
    → Deploys w st.handled chart (handle w chart allow hashes st).1
handle-Deploys w chart allow (inl e) st h q = ground (arith, chart_failed-is_quiet e chart st, q)
handle-Deploys w chart allow (inr (values, patches)) st h q =
    chart_handled-Deploys w chart values patches allow (w.handle_chart st.handled chart allow)
      st.handled (record st { handled = st.handled ++ (chart ∷ []) }) h refl refl q

of_requeue-Deploys :
    (w : World) (chart : HelmChart) (st : State) (r : Answer × Ownership.State)
    → is_quiet (of_requeue w chart st r).0 ≡ true
    → Deploys w st.handled chart (of_requeue w chart st r).1
of_requeue-Deploys w chart st (failure, shared) q = ground (arith, q)
of_requeue-Deploys w chart st (answer requeued, shared) q =
    choose (Bool-cases (requeued && not w.is_pull_mode)) q
  where
    choose :
        (c : (requeued && not w.is_pull_mode ≡ true) ⊎ (requeued && not w.is_pull_mode ≡ false))
        → is_quiet (of_requeue w chart st (answer requeued, shared)).0 ≡ true
        → Deploys w st.handled chart (of_requeue w chart st (answer requeued, shared)).1
    choose (inl e) = rw e (λ h. ground (arith, h))
    choose (inr e) = rw e (
        handle-Deploys w chart (not requeued) (w.hashes chart) (record st { shared = shared }) refl)

of_can_manage-Deploys :
    (w : World) (chart : HelmChart) (st : State) (r : Answer × Ownership.State)
    → is_quiet (of_can_manage w chart st r).0 ≡ true
    → (r.0 ≡ answer true) × Deploys w st.handled chart (of_can_manage w chart st r).1
of_can_manage-Deploys w chart st (failure, shared) q = ground (arith, q)
of_can_manage-Deploys w chart st (answer false, shared) q =
    ground (
      arith,
      q,
      unmanaged-is_quiet (w.report_unmanaged chart) chart (record st { shared = shared }),
    )
of_can_manage-Deploys w chart st (answer true, shared) q = (
  refl,
  of_requeue-Deploys w chart (record st { shared = shared })
      (requeue_lower_tier_challengers w.ownership st.object chart false shared) q,
)

-- a chart of the spec that was instantiated, was found to be managed, and was deployed
abbrev pub Succeeds : World → Error ⊎ HelmChart → State → State → Type 0
Succeeds w i st next =
    (chart : HelmChart) × (i ≡ inr chart)
    × ((can_manage w chart st).0 ≡ answer true)
    × Deploys w st.handled chart next

of_identity-Succeeds :
    (w : World) (i : Error ⊎ HelmChart) (st : State)
    → is_quiet (of_identity w i st).0 ≡ true
    → Succeeds w i st (of_identity w i st).1
of_identity-Succeeds w (inl e) st q = ground (arith, q)
of_identity-Succeeds w (inr chart) st q =
    let done = of_can_manage-Deploys w chart st (can_manage w chart st) q in
    (chart, refl, done.0, done.1)

is_empty-++ : (a b : Text) → is_empty (a ++ b) ≡ true → (is_empty a ≡ true) × (is_empty b ≡ true)
is_empty-++ [] b e = (refl, e)
is_empty-++ (x ∷ a) b e = ground (arith, e)

-- nothing was collected that error_of reports
abbrev is_clean : Option Error × Collected × State → Bool
is_clean (some e, c, st) = false
is_clean (none, c, st) = is_empty c.error_msg && is_empty c.conflict_error_message

-- the charts of the spec succeed one after the other, each from the state that the one before it left
abbrev pub SucceedsAll : World → List HelmChart → State → State → Type 0
SucceedsAll w [] st next = st ≡ next
SucceedsAll w (chart ∷ rest) st next =
    (after : State) × Succeeds w (w.instantiated chart) st after × SucceedsAll w rest after next

-- a clean walk started clean, and went over all charts
abbrev Goes : World → List HelmChart → Collected → State → Option Error × Collected × State → Type 0
Goes w charts c st r =
    is_clean r ≡ true
    → (is_empty c.error_msg && is_empty c.conflict_error_message ≡ true)
      × SucceedsAll w charts st r.2

go_on-Goes :
    (w : World) (chart : HelmChart) (rest : List HelmChart) (c : Collected) (st : State)
    (r : Error ⊎ Step) (next : State)
    → ((s : Step) → Goes w rest (collect c s) next (walk w rest (collect c s) next))
    → (is_quiet r ≡ true → Succeeds w (w.instantiated chart) st next)
    → Goes w (chart ∷ rest) c st (go_on (walk w rest) c r next)
go_on-Goes w chart rest c st (inl e) next ih h q = ground (arith, q)
go_on-Goes w chart rest c st (inr s) next ih h q =
    let (clean, later) = ih s q in
    let errors = is_empty-++ c.error_msg s.accum_err (ground (arith, clean)) in
    let conflicts = is_empty-++ c.conflict_error_message s.conflict_msg (ground (arith, clean)) in
    (
      ground (arith, errors.0, conflicts.0),
      (next, h (ground (arith, errors.1, conflicts.1)), later),
    )

walk-Goes :
    (w : World) (charts : List HelmChart) (c : Collected) (st : State)
    → Goes w charts c st (walk w charts c st)
unfolding walk deploy_single_chart
walk-Goes w [] c st q = (q, refl)
walk-Goes w (chart ∷ rest) c st q =
    let o = deploy_single_chart w chart st in
    go_on-Goes w chart rest c st o.0 o.1 (λ s. walk-Goes w rest (collect c s) o.1)
      (of_identity-Succeeds w (w.instantiated chart) st) q

error_of-is_clean : (r : Option Error × Collected × State) → (finish r).0 ≡ none → is_clean r ≡ true
error_of-is_clean (some e, c, st) h = ground (arith, h)
error_of-is_clean (none, c, st) h = ground (arith, h)

-- Where walkChartsAndDeploy returns no error, every chart of the ClusterSummary succeeded, one after the
-- other: it was instantiated, the ClusterSummary was found to manage it, its hashes were computed,
-- handleChart was called for it and answered without an error, and its hashes were stored in the status.
pub walk_charts_and_deploy-SucceedsAll :
    (w : World) (st : State)
    → (walk_charts_and_deploy w st).0 ≡ none
    → SucceedsAll w st.object.spec.helm_charts st (walk_charts_and_deploy w st).2
unfolding walk_charts_and_deploy
walk_charts_and_deploy-SucceedsAll w st e =
    let r = walk w st.object.spec.helm_charts nothing_collected st in
    (walk-Goes w st.object.spec.helm_charts nothing_collected st (error_of-is_clean r e)).1
