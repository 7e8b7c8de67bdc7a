-- ===== src/ChartManager/Rebuild.antt =====
-- rebuildRegistrations: after a restart the registrations come back from the ClusterSummaries' status,
-- those that manage a release first.
use addon_controller.Common.{
  ◌≡◌, refl, ◌||◌, ◌&&◌, ◌==◌, if◌then◌else◌, Bool, true, false, List, [], ◌∷◌, Text, text_eq,
  contains, arith, Bool-cases, inl, inr, some,
}
use addon_controller.Api.{HelmChartSummary, HelmChartStatus, managing, conflict, ClusterSummary}
use addon_controller.ChartManager.Keys.{release_key, cluster_summary_key}
use addon_controller.ChartManager.{
  Instance, registered, add_entries, summary_cluster_key, get_manager_for_chart, head_of,
}
use addon_controller.ChartManager.Registry.{registered-add_entries}
use addon_controller.ChartManager.Slices.{contains-added, head_of-added}

-- rebuildRegistrations: the releases that a status reports, as managed or as in conflict
-- `Status == Managing` if that is wanted, `Status != Managing` if not
abbrev pub matches : Bool → HelmChartStatus → Bool
matches true managing = true
matches true conflict = false
matches false managing = false
matches false conflict = true

abbrev pub reported_key : HelmChartSummary → Text
reported_key summary = release_key summary.release_namespace summary.release_name

-- the loop of addManagers (`wanted` is true) and of addNonManagers (`wanted` is false)
unfoldable pub add_reported : Instance → Text → Text → Bool → List HelmChartSummary → Instance
unfolding add_entries
add_reported m ck cs wanted [] = m
add_reported m ck cs wanted (summary ∷ rest) =
    add_reported
      (if matches wanted summary.status then add_entries m ck (reported_key summary) cs else m) ck
      cs wanted rest

unfoldable pub add_managers : Instance → ClusterSummary → Instance
unfolding add_reported
add_managers m cs =
    add_reported m (summary_cluster_key cs) (cluster_summary_key cs.name) true
      cs.helm_release_summaries

unfoldable pub add_non_managers : Instance → ClusterSummary → Instance
unfolding add_reported
add_non_managers m cs =
    add_reported m (summary_cluster_key cs) (cluster_summary_key cs.name) false
      cs.helm_release_summaries

unfoldable pub each :
    (Instance → ClusterSummary → Instance) → Instance → List ClusterSummary → Instance
each f m [] = m
each f m (cs ∷ rest) = each f (f m cs) rest

-- rebuildRegistrations over the listed ClusterSummaries
unfoldable pub rebuild_registrations : Instance → List ClusterSummary → Instance
unfolding each add_managers add_non_managers
rebuild_registrations m items = each add_non_managers (each add_managers m items) items

-- the ClusterSummary's status reports the release (ck, rk), with the wanted status
abbrev pub reports_in : Bool → Text → List HelmChartSummary → Bool
reports_in wanted rk [] = false
reports_in wanted rk (summary ∷ rest) =
    (matches wanted summary.status && reported_key summary == rk) || reports_in wanted rk rest

abbrev pub reports : Bool → Text → Text → ClusterSummary → Bool
reports wanted ck rk cs =
    summary_cluster_key cs == ck && reports_in wanted rk cs.helm_release_summaries

-- some ClusterSummary of the given name does
abbrev pub reported_by : Bool → Text → Text → List ClusterSummary → Text → Bool
reported_by wanted ck rk [] a = false
reported_by wanted ck rk (cs ∷ rest) a =
    (reports wanted ck rk cs && cs.name == a) || reported_by wanted ck rk rest a

-- some ClusterSummary does
abbrev pub any_reports : Bool → Text → Text → List ClusterSummary → Bool
any_reports wanted ck rk [] = false
any_reports wanted ck rk (cs ∷ rest) = reports wanted ck rk cs || any_reports wanted ck rk rest

contains-add_reported :
    (m : Instance) (ck cs : Text) (wanted : Bool) (l : List HelmChartSummary) (ck' rk' a : Text)
    → contains (registered (add_reported m ck cs wanted l) ck' rk') a
      ≡ (contains (registered m ck' rk') a || (ck == ck' && reports_in wanted rk' l && cs == a))
unfolding add_reported
contains-add_reported m ck cs wanted [] ck' rk' a = ground arith
contains-add_reported m ck cs wanted (summary ∷ rest) ck' rk' a =
    let next =
      if matches wanted summary.status then add_entries m ck (reported_key summary) cs else m in
    ground (
      arith,
      contains-add_reported next ck cs wanted rest ck' rk' a,
      registered-add_entries m ck (reported_key summary) cs ck' rk',
      contains-added cs (registered m ck' rk') a,
    )

contains-each :
    (wanted : Bool) (f : Instance → ClusterSummary → Instance)
    → ((m : Instance) (cs : ClusterSummary) (ck rk a : Text)
        → contains (registered (f m cs) ck rk) a
          ≡ (contains (registered m ck rk) a || (reports wanted ck rk cs && cs.name == a)))
    → (m : Instance) (items : List ClusterSummary) (ck rk a : Text)
    → contains (registered (each f m items) ck rk) a
      ≡ (contains (registered m ck rk) a || reported_by wanted ck rk items a)
unfolding each
contains-each wanted f law m [] ck rk a = ground arith
contains-each wanted f law m (cs ∷ rest) ck rk a =
    ground (arith, contains-each wanted f law (f m cs) rest ck rk a, law m cs ck rk a)

contains-add_managers :
    (m : Instance) (cs : ClusterSummary) (ck rk a : Text)
    → contains (registered (add_managers m cs) ck rk) a
      ≡ (contains (registered m ck rk) a || (reports true ck rk cs && cs.name == a))
unfolding add_managers
contains-add_managers m cs ck rk a = ground (
  arith,
  contains-add_reported m (summary_cluster_key cs) cs.name true cs.helm_release_summaries ck rk a,
)

contains-add_non_managers :
    (m : Instance) (cs : ClusterSummary) (ck rk a : Text)
    → contains (registered (add_non_managers m cs) ck rk) a
      ≡ (contains (registered m ck rk) a || (reports false ck rk cs && cs.name == a))
unfolding add_non_managers
contains-add_non_managers m cs ck rk a = ground (
  arith,
  contains-add_reported m (summary_cluster_key cs) cs.name false cs.helm_release_summaries ck rk a,
)

-- A rebuild adds to the list of each release exactly the ClusterSummaries whose status reports it.
pub contains-rebuild_registrations :
    (m : Instance) (items : List ClusterSummary) (ck rk a : Text)
    → contains (registered (rebuild_registrations m items) ck rk) a ≡ (
        contains (registered m ck rk) a
        || (reported_by true ck rk items a || reported_by false ck rk items a))
unfolding rebuild_registrations
contains-rebuild_registrations m items ck rk a = ground (
  arith,
  contains-each false add_non_managers contains-add_non_managers (each add_managers m items) items
      ck rk a,
  contains-each true add_managers contains-add_managers m items ck rk a,
)

add_reported-manager :
    (m : Instance) (ck cs : Text) (wanted : Bool) (l : List HelmChartSummary) (ck' rk' x : Text)
    → get_manager_for_chart m ck' rk' ≡ some x
    → get_manager_for_chart (add_reported m ck cs wanted l) ck' rk' ≡ some x
unfolding add_reported get_manager_for_chart
add_reported-manager m ck cs wanted [] ck' rk' x h = h
add_reported-manager m ck cs wanted (summary ∷ rest) ck' rk' x h =
    let next =
      if matches wanted summary.status then add_entries m ck (reported_key summary) cs else m in
    add_reported-manager next ck cs wanted rest ck' rk' x (
      ground (
        arith,
        registered-add_entries m ck (reported_key summary) cs ck' rk',
        head_of-added cs x (registered m ck' rk'),
      ))

non_managers-manager :
    (m : Instance) (items : List ClusterSummary) (ck rk x : Text)
    → get_manager_for_chart m ck rk ≡ some x
    → get_manager_for_chart (each add_non_managers m items) ck rk ≡ some x
unfolding each add_non_managers
non_managers-manager m [] ck rk x h = h
non_managers-manager m (cs ∷ rest) ck rk x h =
    non_managers-manager (add_non_managers m cs) rest ck rk x (
      add_reported-manager m (summary_cluster_key cs) cs.name false cs.helm_release_summaries ck rk
        x h)

-- a list with a member has a head, which is a member
head_of-member :
    (l : List Text) (a : Text)
    → contains l a ≡ true
    → (x : Text) × (head_of l ≡ some x) × (contains l x ≡ true)
head_of-member [] a h = cc
head_of-member (x ∷ l) a h = (x, refl, ground arith)

reporter :
    (wanted : Bool) (ck rk : Text) (items : List ClusterSummary)
    → any_reports wanted ck rk items ≡ true
    → (a : Text) × (reported_by wanted ck rk items a ≡ true)
reporter wanted ck rk [] h = cc
reporter wanted ck rk (cs ∷ rest) h = elim (Bool-cases (reports wanted ck rk cs)) [
  | inl here ↦ (cs.name, ground arith)
  | inr there ↦ let (a, e) = reporter wanted ck rk rest (ground arith) in (a, ground arith)
]

-- After a restart, a release that some status reports as managed is managed by one of the
-- ClusterSummaries that report it so, never by one that only reported a conflict.
pub rebuild-manager :
    (items : List ClusterSummary) (ck rk : Text)
    → any_reports true ck rk items ≡ true
    → (x : Text) × (get_manager_for_chart
          (rebuild_registrations (record { charts = []; versions = [] }) items)
          ck
          rk
        ≡ some x)
      × (reported_by true ck rk items x ≡ true)
unfolding rebuild_registrations get_manager_for_chart registered
rebuild-manager items ck rk h =
    let m : Instance = record { charts = []; versions = [] } in
    let (a, reported) = reporter true ck rk items h in
    let first = each add_managers m items in
    let (x, is_head, is_member) =
      head_of-member (registered first ck rk) a
        (ground (arith, contains-each true add_managers contains-add_managers m items ck rk a)) in
    (
      x,
      non_managers-manager first items ck rk x is_head,
      ground (arith, contains-each true add_managers contains-add_managers m items ck rk x),
    )
