-- ===== src/Helm/Ownership/Takeover.antt =====
-- What a claim on a chart changes.
use addon_controller.Common.{
  ◌≡◌, refl, ap, ◌∙◌, Bool, true, false, if◌then◌else◌, text_eq, arith, Bool-cases, Option-cases,
  inl, inr, ◌⊎◌,
}
use addon_controller.Api.{HelmChart, ClusterSummary}
use addon_controller.ChartManager.{is_dry_run, can_manage_chart, set_manager_for_chart}
use addon_controller.Helm.Ownership.{
  State, World, update, reset_helm_release_summaries, reset_feature, requeue_cluster_summary,
  take_over, takes_over, determine_chart_ownership, manager_of, Answer, answer, requeue_and_set,
}

-- In a dry run a claim changes neither the chart manager nor a stored ClusterSummary.
pub determine_chart_ownership-dry_run :
    (w : World) (claiming : ClusterSummary) (chart : HelmChart) (st : State)
    → is_dry_run claiming.spec.sync_mode ≡ true
    → (determine_chart_ownership w claiming chart st).1 ≡ st
unfolding determine_chart_ownership
determine_chart_ownership-dry_run w claiming chart st dry =
    elim (Bool-cases (can_manage_chart st.charts claiming chart)) [
      | inl y ↦ rw y refl
      | inr y ↦ elim (Option-cases (manager_of w claiming chart st)) [
        | inl e ↦ rw (y, e) refl
        | inr e ↦ rw (y, e.1, dry) (decided (takes_over w e.0 claiming))
      ]
    ]
  where
    decided :
        (b : Bool)
        → (if b
            then (if true then (answer true, st) else take_over w claiming claiming chart st)
            else (answer false, st)).1
          ≡ st
    decided true = refl
    decided false = refl

update-charts :
    (w : World) (cs : ClusterSummary) (st : State) → (update w cs st).1.charts ≡ st.charts
unfolding update
update-charts w cs st = ground arith

requeue-charts :
    (w : World) (cs : ClusterSummary) (st : State)
    → (requeue_cluster_summary w cs st).1.charts ≡ st.charts
unfolding requeue_cluster_summary reset_feature
requeue-charts w cs st = ground (arith, update-charts w (reset_feature cs) st)

-- the chart manager is as before, or the claim is granted and the claiming ClusterSummary its manager
abbrev pub Settles : Answer × State → ClusterSummary → HelmChart → State → Type 0
Settles r claiming chart st =
    (r.1.charts ≡ st.charts)
    ⊎ ((r.0 ≡ answer true) × (r.1.charts ≡ set_manager_for_chart st.charts claiming chart))

requeue_and_set-Settles :
    (w : World) (current claiming : ClusterSummary) (chart : HelmChart) (b : Bool) (st now : State)
    → now.charts ≡ st.charts
    → Settles (requeue_and_set w current claiming chart (b, now)) claiming chart st
requeue_and_set-Settles w current claiming chart false st now e = inl e
requeue_and_set-Settles w current claiming chart true st now e =
    elim (Bool-cases (requeue_cluster_summary w current now).0) [
      | inl y ↦ rw y (
          inr (
            refl,
            ap (λ m. set_manager_for_chart m claiming chart) (requeue-charts w current now ∙ e),
          ))
      | inr y ↦ rw y (inl (requeue-charts w current now ∙ e))
    ]

-- A claim moves the role of manager only where it is granted, and then to the claiming ClusterSummary: a
-- claim that is refused, or that fails at any step, leaves the chart manager as it was.
pub determine_chart_ownership-Settles :
    (w : World) (claiming : ClusterSummary) (chart : HelmChart) (st : State)
    → Settles (determine_chart_ownership w claiming chart st) claiming chart st
unfolding determine_chart_ownership take_over
determine_chart_ownership-Settles w claiming chart st =
    elim (Bool-cases (can_manage_chart st.charts claiming chart)) [
      | inl y ↦ rw y (inl refl)
      | inr y ↦ elim (Option-cases (manager_of w claiming chart st)) [
        | inl e ↦ rw (y, e) (inl refl)
        | inr e ↦
            rw (y, e.1)
              (decided e.0 (takes_over w e.0 claiming) (is_dry_run claiming.spec.sync_mode))
      ]
    ]
  where
    decided :
        (current : ClusterSummary) (b dry : Bool)
        → Settles
            (if b
              then (if dry then (answer true, st) else take_over w current claiming chart st)
              else (answer false, st))
            claiming
            chart
            st
    decided current true true = inl refl
    decided current true false =
        let reset = reset_helm_release_summaries chart current in
        requeue_and_set-Settles w reset claiming chart (update w reset st).0 st
          (update w reset st).1 (update-charts w reset st)
    decided current false dry = inl refl
