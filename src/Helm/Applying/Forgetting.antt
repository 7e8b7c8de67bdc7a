-- ===== src/Helm/Applying/Forgetting.antt =====
-- What apply tracking does not forget: the content applied before a release is uninstalled.
use addon_controller.Common.{
  ◌≡◌, sym, ap, ◌∙◌, Bool, true, false, not, ◌&&◌, [], ◌∷◌, Option, some, Text, text_eq, find,
  arith, Option-cases, inl, inr,
}
use addon_controller.Api.{uninstall, HelmChart, HelmChartSummary, ClusterSummary}
use addon_controller.ChartManager.{Instance, is_dry_run, can_manage_chart}
use addon_controller.Helm.{get_helm_chart_summary, is_for}
use addon_controller.Helm.Tracking.{
  skips, should_skip_apply, prepare_release, is_apply_tracked, confirm_applied,
  update_value_hash_on,
}
use addon_controller.Helm.Applying.{Event, step, run, staged, confirmed}
use addon_controller.Helm.Applying.Names.{find-map, one_step, step-map, one_step-is_for}

abbrev pub uninstalling : HelmChart → HelmChart
uninstalling chart = record chart { helm_chart_action = uninstall }

found_after :
    (m : Instance) (e : Event) (cs : ClusterSummary) (chart : HelmChart) (s : HelmChartSummary)
    → get_helm_chart_summary chart cs ≡ some s
    → get_helm_chart_summary chart (step m e cs) ≡ some (one_step m e cs s)
found_after m e cs chart s h =
    ap (find (is_for chart)) (step-map m e cs)
    ∙ find-map chart (one_step m e cs) (one_step-is_for m e cs chart) cs.helm_release_summaries s h

skips-uninstalled :
    (b : Bool) (chart : HelmChart) (v p : Option Text) (s : HelmChartSummary) (hash : Text)
    → skips (some s) hash ≡ true
    → skips
        (some (
          confirm_applied (
            update_value_hash_on b chart
              (some (record { apply_hash = []; skip_apply = false }))
              v
              p
              s)))
        hash
      ≡ true
skips-uninstalled true chart v p s hash h = ground (arith, h)
skips-uninstalled false chart v p s hash h = ground (arith, h)

-- Where a chart may be skipped, it may still be skipped, with the same content, after its uninstall was
-- staged and confirmed.
pub should_skip_apply-uninstalling :
    (m : Instance) (cs : ClusterSummary) (chart : HelmChart) (allow : Bool) (hash removal : Text)
    (v p : Option Text)
    → should_skip_apply cs chart hash ≡ true
    → should_skip_apply
        (run m (staged (uninstalling chart) allow removal v p ∷ confirmed ∷ []) cs)
        chart
        hash
      ≡ true
unfolding should_skip_apply run prepare_release is_apply_tracked
should_skip_apply-uninstalling m cs chart allow hash removal v p h =
    elim (Option-cases (get_helm_chart_summary chart cs)) [
      | inl e ↦ ground (arith, h, e)
      | inr e ↦
          let gone = staged (uninstalling chart) allow removal v p in
          let first = found_after m gone cs chart e.0 e.1 in
          let second =
            found_after m confirmed (step m gone cs) chart (one_step m gone cs e.0) first in
          let manages =
            not (is_dry_run cs.spec.sync_mode) && can_manage_chart m cs (uninstalling chart) in
          let before : skips (some e.0) hash ≡ true = ap (λ o. skips o hash) (sym e.1) ∙ h in
          ap (λ o. skips o hash) second
          ∙ skips-uninstalled manages (uninstalling chart) v p e.0 hash before
    ]
