-- ===== src/Helm/Settled.antt =====
-- Which action deployHelmChart takes, and that what a pass records settles the next one.
use addon_controller.Common.{
  ◌≡◌, refl, ap, ◌∙◌, Bool, true, false, not, ◌&&◌, [], Option, none, some, Text, text_eq, is_some,
  arith,
}
use addon_controller.Api.{HelmChart, HelmChartSummary, ProfileSpec, ClusterSummary}
use addon_controller.ChartManager.{Instance, is_dry_run, can_manage_chart}
use addon_controller.Helm.{
  get_helm_chart_summary, is_for, get_values_hash_from_helm_chart_summary,
  get_patches_hash_from_helm_chart_summary, values_hash_in, patches_hash_in,
}
use addon_controller.Helm.Tracking.{
  is_uninstall_action, update_value_hash_on_helm_chart_summary, update_value_hash_on,
  correct_conflict, ReleaseInfo,
}
use addon_controller.Helm.Applying.Names.{names-is_for, find-map, update_value_hash_on-SameRelease}
use addon_controller.Helm.Decisions.{
  Semver, Release, uninstalled, Desired, hash_dec, hash_eq, needs_redeploy_for_drift,
  should_install, should_upgrade, should_upgrade_for_continuous_mode, choose, Action, upgrade,
  uninstall, same_version, release_differs, is_deployed,
}

-- a release that is there, and not uninstalled
abbrev pub is_installed : Option Release → Bool
is_installed none = false
is_installed (some r) = elim r.status [ uninstalled ↦ false | _ ↦ true ]

abbrev pub is_uninstall : Action → Bool
is_uninstall uninstall = true
is_uninstall _ = false

abbrev pub needs_release : Action → Bool
needs_release upgrade = true
needs_release uninstall = true
needs_release same_version = true
needs_release _ = false

-- A chart is uninstalled exactly where its action asks for it and its release is installed.
pub is_uninstall-choose :
    (v : Semver) (current : Option Release) (chart : HelmChart) (cs : ClusterSummary) (d : Desired)
    → is_uninstall (choose v current chart cs d)
      ≡ (is_uninstall_action chart.helm_chart_action && is_installed current)
unfolding choose should_upgrade
is_uninstall-choose v none chart cs d = ground arith
is_uninstall-choose v (some r) chart cs d = ground arith

-- An upgrade, an uninstall and the report on a release at its version are chosen only with a release, so
-- deployHelmChart never reads the version of a release that is not there.
pub needs_release-choose :
    (v : Semver) (current : Option Release) (chart : HelmChart) (cs : ClusterSummary) (d : Desired)
    → needs_release (choose v current chart cs d) ≡ true
    → is_some current ≡ true
unfolding choose should_upgrade
needs_release-choose v none chart cs d h = ground arith
needs_release-choose v (some r) chart cs d h = refl

-- the push mode's release, which tracks nothing
abbrev pub untracked : ReleaseInfo
untracked = record { apply_hash = []; skip_apply = false }

get-update :
    (m : Instance) (chart : HelmChart) (v p : Option Text) (cs : ClusterSummary)
    (s : HelmChartSummary)
    → get_helm_chart_summary chart cs ≡ some s
    → (b : Bool) × (get_helm_chart_summary chart
          (update_value_hash_on_helm_chart_summary m chart (some untracked) v p cs)
        ≡ some (update_value_hash_on b chart (some untracked) v p s))
unfolding update_value_hash_on_helm_chart_summary
get-update m chart v p cs s e =
    let b = not (is_dry_run cs.spec.sync_mode) && can_manage_chart m cs chart in
    (
      b,
      find-map chart (update_value_hash_on b chart (some untracked) v p)
          (λ x. cc (
            (update_value_hash_on-SameRelease b chart untracked v p x).0,
            (update_value_hash_on-SameRelease b chart untracked v p x).1,
          ))
          cs.helm_release_summaries s e,
    )

-- what a recorded summary holds
recorded :
    (b : Bool) (chart : HelmChart) (v p : Text) (s : HelmChartSummary)
    → is_for chart s ≡ true
    → (u : HelmChartSummary) × (update_value_hash_on b chart (some untracked) (some v) (some p) s
        ≡ u)
      × (u.values_hash ≡ some v)
      × (u.patches_hash ≡ some p)
      × (u.needs_redeploy ≡ false)
recorded b chart v p s f =
    let clear : HelmChartSummary = record s {
      values_hash = some v;
      patches_hash = some p;
      needs_redeploy = false;
    } in
    (correct_conflict b clear, rw f refl, ground arith, ground arith, ground arith)

-- What is read back of a summary that was just recorded.
read_back :
    (m : Instance) (chart : HelmChart) (v p : Text) (cs : ClusterSummary) (s : HelmChartSummary)
    → get_helm_chart_summary chart cs ≡ some s
    → (u : HelmChartSummary) × (get_helm_chart_summary chart
          (update_value_hash_on_helm_chart_summary m chart (some untracked) (some v) (some p) cs)
        ≡ some u)
      × (u.values_hash ≡ some v)
      × (u.patches_hash ≡ some p)
      × (u.needs_redeploy ≡ false)
read_back m chart v p cs s e =
    let found = get-update m chart (some v) (some p) cs s e in
    let r = recorded found.0 chart v p s (names-is_for chart cs.helm_release_summaries s e) in
    (r.0, found.1 ∙ ap some r.1, r.2, r.3, r.4)

unchanged-settled :
    (v : Semver) (r : Release) (chart : HelmChart) (cs : ClusterSummary) (d : Desired)
    (u : HelmChartSummary) (values patches : Text)
    → get_helm_chart_summary chart cs ≡ some u
    → u.values_hash ≡ some values
    → u.patches_hash ≡ some patches
    → d.values_hash ≡ some values
    → release_differs v (some r) chart ≡ false
    → should_upgrade_for_continuous_mode v (some r) chart cs d patches ≡ false
unfolding should_upgrade_for_continuous_mode hash_dec
unchanged-settled v r chart cs d u values patches e uv up dv rd =
    let gv : get_values_hash_from_helm_chart_summary chart cs ≡ some values =
      ap values_hash_in e ∙ uv in
    let gp : get_patches_hash_from_helm_chart_summary chart cs ≡ some patches =
      ap patches_hash_in e ∙ up in
    ground (arith, gv, gp, dv, rd)

choose-settled :
    (v : Semver) (r : Release) (chart : HelmChart) (cs : ClusterSummary) (d : Desired)
    (u : HelmChartSummary) (values patches : Text)
    → get_helm_chart_summary chart cs ≡ some u
    → u.values_hash ≡ some values
    → u.patches_hash ≡ some patches
    → u.needs_redeploy ≡ false
    → d.values_hash ≡ some values
    → d.patches_hash ≡ some patches
    → is_uninstall_action chart.helm_chart_action ≡ false
    → is_deployed r.status ≡ true
    → release_differs v (some r) chart ≡ false
    → choose v (some r) chart cs d ≡ same_version
unfolding choose should_upgrade
choose-settled v r chart cs d u values patches e uv up un dv dp i st rd =
    let unchanged : should_upgrade_for_continuous_mode v (some r) chart cs d patches ≡ false =
      unchanged-settled v r chart cs d u values patches e uv up dv rd in
    let flag : needs_redeploy_for_drift chart cs ≡ false = ground (arith, e, un) in
    let kept : should_install (some r) chart ≡ false = ground (arith, st) in
    let left : should_upgrade v (some r) chart cs d ≡ false = ground (arith, dp, unchanged, flag) in
    ground (arith, kept, left, i)

-- Once a pass has recorded the hashes of the values and patches, whatever its sync mode was, dry run
-- included, and whatever the spec becomes, a chart that is not to be uninstalled, with these hashes
-- still current and its release deployed at the requested version, is left alone.
pub choose-update_value_hash :
    (m : Instance) (v : Semver) (r : Release) (chart : HelmChart) (cs : ClusterSummary)
    (spec : ProfileSpec) (d : Desired) (s : HelmChartSummary) (values patches : Text)
    → get_helm_chart_summary chart cs ≡ some s
    → d.values_hash ≡ some values
    → d.patches_hash ≡ some patches
    → is_uninstall_action chart.helm_chart_action ≡ false
    → is_deployed r.status ≡ true
    → release_differs v (some r) chart ≡ false
    → choose v
        (some r)
        chart
        (record (update_value_hash_on_helm_chart_summary m chart
          (some untracked)
          (some values)
          (some patches)
          cs) { spec = spec })
        d
      ≡ same_version
choose-update_value_hash m v r chart cs spec d s values patches e dv dp i st rd =
    let back = read_back m chart values patches cs s e in
    let later =
      record (update_value_hash_on_helm_chart_summary m chart (some untracked) (some values)
        (some patches) cs) { spec = spec } in
    choose-settled v r chart later d back.0 values patches back.1 back.2 back.3 back.4 dv dp i st rd
