-- ===== src/Helm/Applying/Refinement.antt =====
-- Apply tracking refines the history of a chart.
use addon_controller.Common.{
  ◌≡◌, refl, sym, subst, ◌∙◌, ap, Bool, true, false, not, ◌&&◌, ◌||◌, if◌then◌else◌, List, [], ◌∷◌,
  some, Text, text_eq, text_dec, is_some, find, all, arith, Bool-cases, inl, inr,
}
use addon_controller.Api.{HelmChart, HelmChartSummary, ClusterSummary}
use addon_controller.ChartManager.{Instance, is_dry_run, can_manage_chart}
use addon_controller.Provisioned.{is_empty}
use addon_controller.Helm.{is_for, get_helm_chart_summary}
use addon_controller.Helm.Tracking.{
  is_uninstall_action, should_skip_apply, skips, prepare_release,
  update_value_hash_on_helm_chart_summary, update_value_hash_on, confirm_applied_helm_charts,
  ReleaseInfo, HelmChartRef, matched, mark, mark_drifted, mark_drifted_helm_charts,
  is_apply_tracked,
}
use addon_controller.Helm.Applying.{
  Event, staged, drifted, confirmed, step, run, is_deploy, History, nothing, permitted,
  is_same_release, reports, follow, follow_all,
}
use addon_controller.Helm.Applying.Names.{
  find-map, find-is_for, is_drifted-names, names-is_for, matched-map, SameNames, one_step, step-map,
  one_step-is_for, is_drifted-one_step,
}
use addon_controller.Helm.Applying.Held.{
  Describes, skips-permitted, Describes-confirmed, Describes-drifted, Describes-staged, is_for-same,
  update_value_hash_on-other,
}

pub should_skip_apply-permitted :
    (cs : ClusterSummary) (chart other : HelmChart) (t : History) (s : HelmChartSummary)
    (hash : Text)
    → find (is_for chart) cs.helm_release_summaries ≡ some s
    → is_same_release chart other ≡ true
    → Describes t s
    → should_skip_apply cs other hash ≡ permitted t hash
unfolding should_skip_apply
should_skip_apply-permitted cs chart other t s hash e y d =
    ap (λ o. skips o hash) (find-is_for chart other cs.helm_release_summaries y ∙ e)
    ∙ skips-permitted t s hash d

-- a deploy that is staged
pub prepare_release-deploy :
    (cs : ClusterSummary) (chart : HelmChart) (allow : Bool) (hash : Text)
    → is_dry_run cs.spec.sync_mode ≡ false
    → is_some cs.deletion_timestamp ≡ false
    → is_uninstall_action chart.helm_chart_action ≡ false
    → prepare_release cs chart allow hash
      ≡ (record { apply_hash = hash; skip_apply = allow && should_skip_apply cs chart hash })
unfolding prepare_release is_apply_tracked
prepare_release-deploy cs chart allow hash dry del i = rw (dry, del, i) refl

pub matched-none : (known : List HelmChartSummary) → matched [] known ≡ false
matched-none [] = refl
matched-none (s ∷ known) = matched-none known

pub mark_drifted-reports :
    (refs : List HelmChartRef) (known : List HelmChartSummary) (chart : HelmChart)
    (s : HelmChartSummary)
    → is_for chart s ≡ true
    → (if is_empty refs || not (matched refs known) then mark s else mark_drifted refs s)
      ≡ (if reports refs known chart then mark s else s)
mark_drifted-reports [] known chart s f = ground (arith, matched-none known)
mark_drifted-reports (r ∷ refs) known chart s f =
    ground (arith, is_drifted-names chart (r ∷ refs) s f)

pub Describes-one_step :
    (m : Instance) (e : Event) (cs : ClusterSummary) (chart : HelmChart) (t : History)
    (s : HelmChartSummary)
    → find (is_for chart) cs.helm_release_summaries ≡ some s
    → is_dry_run cs.spec.sync_mode ≡ false
    → is_some cs.deletion_timestamp ≡ false
    → is_deploy e ≡ true
    → Describes t s
    → Describes (follow cs.helm_release_summaries chart e t) (one_step m e cs s)
unfolding follow text_dec
Describes-one_step m (staged other allow hash values patches) cs chart t s e dry del dep d =
    elim (Bool-cases (is_same_release chart other)) [
      | inl y ↦
          let manages : Bool = not (is_dry_run cs.spec.sync_mode) && can_manage_chart m cs other in
          let asked : ReleaseInfo = record {
            apply_hash = hash;
            skip_apply = allow && permitted t hash;
          } in
          let same_flag : should_skip_apply cs other hash ≡ permitted t hash =
            should_skip_apply-permitted cs chart other t s hash e y d in
          let install_action : is_uninstall_action other.helm_chart_action ≡ false =
            ground (arith, dep) in
          let prepared : prepare_release cs other allow hash ≡ asked =
            prepare_release-deploy cs other allow hash dry del install_action
            ∙ ap (λ k. record { apply_hash = hash; skip_apply = allow && k }) same_flag in
          let f : is_for other s ≡ true =
            is_for-same chart other s (names-is_for chart cs.helm_release_summaries s e) ∙ y in
          let n : is_empty hash ≡ false = ground (arith, dep) in
          let after : History =
            if asked.skip_apply
            then t
            else record { requested = hash; is_confirmed = false; has_drifted = false } in
          rw y (
            subst
              (λ r. Describes after (update_value_hash_on manages other (some r) values patches s))
              (sym prepared)
              (Describes-staged manages asked.skip_apply other hash values patches t s f n d))
      | inr y ↦
          let f : is_for other s ≡ false =
            is_for-same chart other s (names-is_for chart cs.helm_release_summaries s e) ∙ y in
          let kept =
            update_value_hash_on-other
              (not (is_dry_run cs.spec.sync_mode) && can_manage_chart m cs other) other
              (prepare_release cs other allow hash) values patches s f in
          rw y (subst (Describes t) (sym kept) d)
    ]
Describes-one_step m (drifted refs) cs chart t s e dry del dep d =
    let f : is_for chart s ≡ true = names-is_for chart cs.helm_release_summaries s e in
    rw (mark_drifted-reports refs cs.helm_release_summaries chart s f)
      (Describes-drifted (reports refs cs.helm_release_summaries chart) t s d)
Describes-one_step m confirmed cs chart t s e dry del dep d = Describes-confirmed t s d

-- The steps keep what decides whether a chart is tracked.
pub step-frame :
    (m : Instance) (e : Event) (cs : ClusterSummary)
    → ((step m e cs).spec ≡ cs.spec) × ((step m e cs).deletion_timestamp ≡ cs.deletion_timestamp)
unfolding step prepare_release update_value_hash_on_helm_chart_summary confirm_applied_helm_charts
    mark_drifted_helm_charts
step-frame m (staged other allow hash values patches) cs = (refl, refl)
step-frame m (drifted refs) cs = (refl, refl)
step-frame m confirmed cs = (refl, refl)

pub follow-same :
    (known l : List HelmChartSummary) (chart : HelmChart) (e : Event) (t : History)
    → SameNames known l
    → follow known chart e t ≡ follow l chart e t
unfolding follow
follow-same known l chart (staged other allow hash values patches) t h = refl
follow-same known l chart (drifted refs) t h = rw (h refs) refl
follow-same known l chart confirmed t h = refl

pub run-Describes :
    (m : Instance) (es : List Event) (cs : ClusterSummary) (known : List HelmChartSummary)
    (chart : HelmChart) (t : History) (s : HelmChartSummary)
    → SameNames known cs.helm_release_summaries
    → find (is_for chart) cs.helm_release_summaries ≡ some s
    → is_dry_run cs.spec.sync_mode ≡ false
    → is_some cs.deletion_timestamp ≡ false
    → all is_deploy es ≡ true
    → Describes t s
    → (u : HelmChartSummary) × (find (is_for chart) (run m es cs).helm_release_summaries ≡ some u)
      × Describes (follow_all known chart es t) u
unfolding run follow_all
run-Describes m [] cs known chart t s h e dry del dep d = (s, e, d)
run-Describes m (ev ∷ es) cs known chart t s h e dry del dep d =
    let l = cs.helm_release_summaries in
    let now : is_deploy ev ≡ true = ground (arith, dep) in
    let later : all is_deploy es ≡ true = ground (arith, dep) in
    let moved = step-map m ev cs in
    let same_names : SameNames known (step m ev cs).helm_release_summaries = λ refs.
      ap (matched refs) moved
      ∙ matched-map (one_step m ev cs) (is_drifted-one_step m ev cs) refs l
      ∙ h refs in
    let there =
      ap (find (is_for chart)) moved
      ∙ find-map chart (one_step m ev cs) (one_step-is_for m ev cs chart) l s e in
    let described = Describes-one_step m ev cs chart t s e dry del now d in
    let frame = step-frame m ev cs in
    run-Describes m es (step m ev cs) known chart (follow known chart ev t) (one_step m ev cs s)
      same_names there (ap (λ spec. is_dry_run spec.sync_mode) frame.0 ∙ dry)
      (ap is_some frame.1 ∙ del) later
      (subst (λ k. Describes k (one_step m ev cs s)) (sym (follow-same known l chart ev t h))
        described)

-- After any history of deploys, drifts and confirmations, a chart that nothing was recorded for before
-- may be skipped exactly where its history permits it: the content asked for last is confirmed, is the
-- one about to be staged, and no drift was reported since.
pub should_skip_apply-permitted-run :
    (m : Instance) (es : List Event) (cs : ClusterSummary) (chart : HelmChart)
    (s : HelmChartSummary) (hash : Text)
    → get_helm_chart_summary chart cs ≡ some s
    → s.needs_redeploy ≡ false
    → s.staged_content_hash ≡ []
    → s.applied_content_hash ≡ []
    → is_dry_run cs.spec.sync_mode ≡ false
    → is_some cs.deletion_timestamp ≡ false
    → all is_deploy es ≡ true
    → should_skip_apply (run m es cs) chart hash
      ≡ permitted (follow_all cs.helm_release_summaries chart es nothing) hash
unfolding should_skip_apply
should_skip_apply-permitted-run m es cs chart s hash e n st ah dry del dep =
    let found =
      run-Describes m es cs cs.helm_release_summaries chart nothing s (λ refs. refl) e dry del dep
        (n, (st, ah)) in
    ap (λ o. skips o hash) found.1
    ∙ skips-permitted (follow_all cs.helm_release_summaries chart es nothing) found.0 hash found.2
