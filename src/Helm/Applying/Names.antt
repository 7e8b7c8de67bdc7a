-- ===== src/Helm/Applying/Names.antt =====
-- The steps of apply tracking keep the names of the releases, and what they do to one summary.
use addon_controller.Common.{
  ◌≡◌, refl, Bool, true, false, not, ◌&&◌, ◌||◌, if◌then◌else◌, List, [], ◌∷◌, map, Option, some,
  Text, text_eq, text_dec, find, arith, Bool-cases, inl, inr,
}
use addon_controller.Api.{managing, HelmChart, HelmChartSummary, ClusterSummary}
use addon_controller.ChartManager.{Instance, is_dry_run, can_manage_chart}
use addon_controller.Provisioned.{is_empty}
use addon_controller.Helm.{is_for}
use addon_controller.Helm.Tracking.{
  prepare_release, update_value_hash_on_helm_chart_summary, update_value_hash_on,
  record_helm_chart_apply, correct_conflict, confirm_applied_helm_charts, confirm_applied,
  ReleaseInfo, HelmChartRef, is_drifted, matched, mark, mark_drifted, mark_drifted_helm_charts,
}
use addon_controller.Helm.Applying.{Event, staged, drifted, confirmed, step, is_same_release, names}

pub find-map :
    (chart : HelmChart) (f : HelmChartSummary → HelmChartSummary)
    → ((s : HelmChartSummary) → is_for chart (f s) ≡ is_for chart s)
    → (l : List HelmChartSummary) (s : HelmChartSummary) → find (is_for chart) l ≡ some s
    → find (is_for chart) (map f l) ≡ some (f s)
find-map chart f h [] s e = ground arith
find-map chart f h (x ∷ l) s e = elim (Bool-cases (is_for chart x)) [
  | inl y ↦ ground (arith, h x, y)
  | inr y ↦ ground (arith, h x, y, find-map chart f h l s)
]

pub find-is_for :
    (chart other : HelmChart) (l : List HelmChartSummary)
    → is_same_release chart other ≡ true
    → find (is_for other) l ≡ find (is_for chart) l
unfolding text_dec
find-is_for chart other [] h = refl
find-is_for chart other (x ∷ l) h = ground (arith, find-is_for chart other l h)

pub is_drifted-names :
    (chart : HelmChart) (refs : List HelmChartRef) (s : HelmChartSummary)
    → is_for chart s ≡ true
    → is_drifted refs s ≡ names refs chart
unfolding text_dec
is_drifted-names chart [] s h = refl
is_drifted-names chart (r ∷ refs) s h = ground (arith, is_drifted-names chart refs s h)

pub names-is_for :
    (chart : HelmChart) (l : List HelmChartSummary) (s : HelmChartSummary)
    → find (is_for chart) l ≡ some s
    → is_for chart s ≡ true
names-is_for chart [] s e = ground arith
names-is_for chart (x ∷ l) s e = elim (Bool-cases (is_for chart x)) [
  | inl y ↦ ground (arith, y)
  | inr y ↦ ground (arith, y, e, names-is_for chart l s)
]

pub matched-map :
    (f : HelmChartSummary → HelmChartSummary)
    → ((refs : List HelmChartRef) (s : HelmChartSummary)
        → is_drifted refs (f s) ≡ is_drifted refs s)
    → (refs : List HelmChartRef) (l : List HelmChartSummary)
    → matched refs (map f l) ≡ matched refs l
matched-map f h refs [] = refl
matched-map f h refs (x ∷ l) = ground (arith, h refs x, matched-map f h refs l)

-- the summaries have the names that `known` has
abbrev pub SameNames : List HelmChartSummary → List HelmChartSummary → Type 0
SameNames known l = (refs : List HelmChartRef) → matched refs l ≡ matched refs known

-- what one summary becomes
abbrev pub one_step : Instance → Event → ClusterSummary → HelmChartSummary → HelmChartSummary
one_step m (staged chart allow hash values patches) cs s =
    update_value_hash_on (not (is_dry_run cs.spec.sync_mode) && can_manage_chart m cs chart) chart
      (some (prepare_release cs chart allow hash)) values patches s
one_step m (drifted refs) cs s =
    if is_empty refs || not (matched refs cs.helm_release_summaries)
    then mark s
    else mark_drifted refs s
one_step m confirmed cs s = confirm_applied s

pub step-map :
    (m : Instance) (e : Event) (cs : ClusterSummary)
    → (step m e cs).helm_release_summaries ≡ map (one_step m e cs) cs.helm_release_summaries
unfolding step prepare_release update_value_hash_on_helm_chart_summary confirm_applied_helm_charts
    mark_drifted_helm_charts
step-map m (staged chart allow hash values patches) cs = refl
step-map m (drifted refs) cs = ground arith
step-map m confirmed cs = refl

-- a summary with the names of another one
abbrev pub SameRelease : HelmChartSummary → HelmChartSummary → Type 0
SameRelease s u = (s.release_name ≡ u.release_name) × (s.release_namespace ≡ u.release_namespace)

pub if-SameRelease :
    (b : Bool) (s u v : HelmChartSummary)
    → SameRelease s v
    → SameRelease u v
    → SameRelease (if b then s else u) v
if-SameRelease true s u v h k = h
if-SameRelease false s u v h k = k

pub update_value_hash_on-SameRelease :
    (b : Bool) (chart : HelmChart) (r : ReleaseInfo) (v p : Option Text) (s : HelmChartSummary)
    → SameRelease (update_value_hash_on b chart (some r) v p s) s
update_value_hash_on-SameRelease b chart r v p s =
    let new : HelmChartSummary = record s { values_hash = v; patches_hash = p } in
    let cleared : HelmChartSummary = record new { needs_redeploy = false } in
    let kept : HelmChartSummary = record cleared { staged_content_hash = r.apply_hash } in
    let applied : HelmChartSummary = record_helm_chart_apply new (some r) in
    let applied_same : SameRelease applied s =
      if-SameRelease r.skip_apply new (if not (is_empty r.apply_hash) then kept else cleared) s
        (refl, refl)
        (if-SameRelease (not (is_empty r.apply_hash)) kept cleared s (refl, refl) (refl, refl)) in
    if-SameRelease (is_for chart s) (correct_conflict b applied) s s
      (if-SameRelease b (record applied { status = managing; conflict_message = [] }) applied s
        applied_same applied_same)
      (refl, refl)

pub one_step-SameRelease :
    (m : Instance) (e : Event) (cs : ClusterSummary) (s : HelmChartSummary)
    → SameRelease (one_step m e cs s) s
one_step-SameRelease m (staged other allow hash values patches) cs s =
    update_value_hash_on-SameRelease
      (not (is_dry_run cs.spec.sync_mode) && can_manage_chart m cs other) other
      (prepare_release cs other allow hash) values patches s
one_step-SameRelease m (drifted refs) cs s =
    if-SameRelease (is_empty refs || not (matched refs cs.helm_release_summaries)) (mark s)
      (mark_drifted refs s) s (refl, refl)
      (if-SameRelease (is_drifted refs s) (mark s) s s (refl, refl) (refl, refl))
one_step-SameRelease m confirmed cs s =
    if-SameRelease (is_empty s.staged_content_hash) s
      (record s { applied_content_hash = s.staged_content_hash; staged_content_hash = [] }) s
      (refl, refl) (refl, refl)

pub one_step-is_for :
    (m : Instance) (e : Event) (cs : ClusterSummary) (chart : HelmChart) (s : HelmChartSummary)
    → is_for chart (one_step m e cs s) ≡ is_for chart s
one_step-is_for m e cs chart s =
    cc ((one_step-SameRelease m e cs s).0, (one_step-SameRelease m e cs s).1)

pub is_drifted-one_step :
    (m : Instance) (e : Event) (cs : ClusterSummary) (refs : List HelmChartRef)
    (s : HelmChartSummary)
    → is_drifted refs (one_step m e cs s) ≡ is_drifted refs s
is_drifted-one_step m e cs [] s = refl
is_drifted-one_step m e cs (r ∷ refs) s =
    ground (arith, is_drifted-one_step m e cs refs s, one_step-SameRelease m e cs s)
