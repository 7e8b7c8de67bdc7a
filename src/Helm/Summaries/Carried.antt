-- ===== src/Helm/Summaries/Carried.antt =====
-- What buildReferencedHelmReleaseSummaries (controllers/handlers_helm.go) carries forward.
use addon_controller.Common.{
  ◌≡◌, refl, sym, ◌∙◌, subst, Bool, true, false, ◌&&◌, ◌==◌, List, [], ◌∷◌, ◌++◌, map, find, Option,
  none, some, ◌⊎◌, inl, inr, Text, text_eq, arith, ==_refl, ==_eq, Bool-cases, Option-cases,
  Option-cases,
}
use addon_controller.Api.{HelmChart, HelmChartSummary, managing, ClusterSummary}
use addon_controller.Helm.{is_for, get_helm_chart_summary}
use addon_controller.Helm.Ownership.{State, Answer, failure, answer, determine_chart_ownership}
use addon_controller.Helm.Summaries.{
  World, Entry, managing_summary, by_manager, by_ownership, entry_of, in_front, before, entries,
  preserved, with_preserved, build_referenced_helm_release_summaries,
}

-- what a summary says of a release, beside the one from before the pass, if there was one
abbrev pub Remembers : Option HelmChartSummary → HelmChartSummary → Type 0
Remembers none s =
    (s.values_hash ≡ none)
    × (s.patches_hash ≡ none)
    × (s.failure_message ≡ none)
    × (s.needs_redeploy ≡ false)
    × (s.staged_content_hash ≡ [])
    × (s.applied_content_hash ≡ [])
Remembers (some known) s =
    (s.values_hash ≡ known.values_hash)
    × (s.patches_hash ≡ known.patches_hash)
    × (s.failure_message ≡ known.failure_message)
    × (s.needs_redeploy ≡ known.needs_redeploy)
    × (s.staged_content_hash ≡ known.staged_content_hash)
    × (s.applied_content_hash ≡ known.applied_content_hash)

abbrev pub Carried : ClusterSummary → HelmChart → HelmChartSummary → Type 0
Carried cs chart s = s.status ≡ managing → Remembers (get_helm_chart_summary chart cs) s

managing_summary-Remembers :
    (cs : ClusterSummary) (chart : HelmChart)
    → Remembers (get_helm_chart_summary chart cs) (managing_summary cs chart)
managing_summary-Remembers cs chart = elim (Option-cases (get_helm_chart_summary chart cs)) [
  | inl e ↦ rw e (refl, refl, refl, refl, refl, refl)
  | inr (s, e) ↦ rw e (refl, refl, refl, refl, refl, refl)
]

-- a chart that one of the charts of the spec becomes
abbrev pub OneOf : World → HelmChart → List HelmChart → Type 0
OneOf w chart [] = ⊥
OneOf w chart (c ∷ rest) = (w.instantiated c ≡ some chart) ⊎ OneOf w chart rest

abbrev IsFor : ClusterSummary → HelmChart → Option Entry → Type 0
IsFor cs chart none = Unit {0}
IsFor cs chart (some e) = (is_for chart e.summary ≡ true) × Carried cs chart e.summary

is_self :
    (chart : HelmChart)
    → chart.release_name == chart.release_name && chart.release_namespace == chart.release_namespace
      ≡ true
is_self chart = rw (==_refl chart.release_name, ==_refl chart.release_namespace) refl

by_manager-IsFor :
    (cs : ClusterSummary) (chart : HelmChart) (m : Option Text) (st : State)
    → IsFor cs chart (by_manager chart m st).0
by_manager-IsFor cs chart none st = tt
by_manager-IsFor cs chart (some m) st = (is_self chart, λ e. ground (arith, e))

by_ownership-IsFor :
    (cs : ClusterSummary) (chart : HelmChart) (r : Answer × State)
    → IsFor cs chart (by_ownership cs chart r).0
by_ownership-IsFor cs chart (failure, st) = tt
by_ownership-IsFor cs chart (answer true, st) =
    (is_self chart, λ e. managing_summary-Remembers cs chart)
by_ownership-IsFor cs chart (answer false, st) = by_manager-IsFor cs chart _ st

entry_of-IsFor :
    (w : World) (cs : ClusterSummary) (chart : HelmChart) (st : State)
    → IsFor cs chart (entry_of w cs (some chart) st).0
entry_of-IsFor w cs chart st =
    by_ownership-IsFor cs chart (determine_chart_ownership w.ownership cs chart st)

-- the charts of two summaries of one release
same_release :
    (cs : ClusterSummary) (a b : HelmChart) (s : HelmChartSummary)
    → is_for a s ≡ true
    → is_for b s ≡ true
    → get_helm_chart_summary a cs ≡ get_helm_chart_summary b cs
same_release cs a b s p q =
    let name : a.release_name ≡ b.release_name =
      sym (==_eq s.release_name a.release_name (ground (arith, p)))
      ∙ ==_eq s.release_name b.release_name (ground (arith, q)) in
    let namespace : a.release_namespace ≡ b.release_namespace =
      sym (==_eq s.release_namespace a.release_namespace (ground (arith, p)))
      ∙ ==_eq s.release_namespace b.release_namespace (ground (arith, q)) in
    rw (name, namespace) refl

abbrev Found : ClusterSummary → HelmChart → List HelmChartSummary → Type 0
Found cs chart summaries =
    (s : HelmChartSummary) × (find (is_for chart) summaries ≡ some s) × Carried cs chart s

find-++ :
    (p : HelmChartSummary → Bool) (xs ys : List HelmChartSummary) (s : HelmChartSummary)
    → find p xs ≡ some s
    → find p (xs ++ ys) ≡ some s
find-++ p [] ys s e = ground (arith, e)
find-++ p (x ∷ xs) ys s e = elim (Bool-cases (p x)) [
  | inl t ↦ ground (arith, e, t)
  | inr f ↦ ground (arith, e, f, find-++ p xs ys s)
]

-- behind the first entry, which is for some chart c
cons-Found :
    (cs : ClusterSummary) (chart c : HelmChart) (e : Entry) (rest : List HelmChartSummary)
    → IsFor cs c (some e)
    → (c ≡ chart) ⊎ Found cs chart rest
    → Found cs chart (e.summary ∷ rest)
cons-Found cs chart c e rest h l = elim (Bool-cases (is_for chart e.summary)) [
  | inl t ↦ (
    e.summary,
    rw t refl,
    λ m. subst (λ o. Remembers o e.summary) (same_release cs c chart e.summary h.0 t) (h.1 m),
  )
  | inr f ↦ elim l [
    | inl same ↦ ground (arith, f, subst (λ x. is_for x e.summary ≡ true) same h.0)
    | inr (s, found, carried) ↦ (s, rw f found, carried)
  ]
]

abbrev FoundIn : ClusterSummary → HelmChart → Option (List Entry) × State → Type 0
FoundIn cs chart (none, st) = Unit {0}
FoundIn cs chart (some es, st) = Found cs chart (map (λ e. e.summary) es)

in_front-FoundIn :
    (cs : ClusterSummary) (chart c : HelmChart) (e : Entry) (r : Option (List Entry) × State)
    → IsFor cs c (some e)
    → (c ≡ chart) ⊎ FoundIn cs chart r
    → FoundIn cs chart (in_front e r)
in_front-FoundIn cs chart c e (none, st) h l = tt
in_front-FoundIn cs chart c e (some es, st) h l =
    cons-Found cs chart c e (map (λ e. e.summary) es) h l

before-FoundIn :
    (cs : ClusterSummary) (chart c : HelmChart) (others : State → Option (List Entry) × State)
    (o : Option Entry) (st : State)
    → IsFor cs c o
    → (c ≡ chart) ⊎ ((t : State) → FoundIn cs chart (others t))
    → FoundIn cs chart (before others o st)
before-FoundIn cs chart c others none st h l = tt
before-FoundIn cs chart c others (some e) st h (inl same) =
    in_front-FoundIn cs chart c e (others st) h (inl same)
before-FoundIn cs chart c others (some e) st h (inr later) =
    in_front-FoundIn cs chart c e (others st) h (inr (later st))

head-FoundIn :
    (w : World) (cs : ClusterSummary) (chart : HelmChart)
    (others : State → Option (List Entry) × State) (i : Option HelmChart) (st : State)
    → (i ≡ some chart) ⊎ ((t : State) → FoundIn cs chart (others t))
    → FoundIn cs chart (before others (entry_of w cs i st).0 (entry_of w cs i st).1)
head-FoundIn w cs chart others none st l = tt
head-FoundIn w cs chart others (some c) st (inl e) =
    before-FoundIn cs chart c others (entry_of w cs (some c) st).0 (entry_of w cs (some c) st).1
      (entry_of-IsFor w cs c st) (inl (cc))
head-FoundIn w cs chart others (some c) st (inr later) =
    before-FoundIn cs chart c others (entry_of w cs (some c) st).0 (entry_of w cs (some c) st).1
      (entry_of-IsFor w cs c st) (inr later)

entries-FoundIn :
    (w : World) (cs : ClusterSummary) (chart : HelmChart) (charts : List HelmChart) (st : State)
    → OneOf w chart charts
    → FoundIn cs chart (entries w cs charts st)
unfolding entries
entries-FoundIn w cs chart [] st x = elim x [ ]
entries-FoundIn w cs chart (c ∷ rest) st (inl e) =
    head-FoundIn w cs chart (entries w cs rest) (w.instantiated c) st (inl e)
entries-FoundIn w cs chart (c ∷ rest) st (inr later) =
    head-FoundIn w cs chart (entries w cs rest) (w.instantiated c) st
      (inr (λ t. entries-FoundIn w cs chart rest t later))

with_preserved-Found :
    (cs current : ClusterSummary) (chart : HelmChart) (r : Option (List Entry) × State)
    (summaries : List HelmChartSummary) (has_conflict : Bool) (next : State)
    → FoundIn cs chart r
    → with_preserved current r ≡ (some (summaries, has_conflict), next)
    → Found cs chart summaries
with_preserved-Found cs current chart (none, st) summaries b next f e = ground (arith, e)
with_preserved-Found cs current chart (some es, st) summaries b next (s, found, carried) e =
    let is : map (λ e. e.summary) es ++ preserved es current.helm_release_summaries ≡ summaries =
      cc in
    (
      s,
      subst (λ l. find (is_for chart) l ≡ some s) is
          (find-++ (is_for chart) (map (λ e. e.summary) es)
            (preserved es current.helm_release_summaries) s found),
      carried,
    )

-- Where buildReferencedHelmReleaseSummaries succeeds, the status has a summary for every chart that the
-- spec lists. Where the first one for the chart's release says that the chart is managed, it has the
-- hashes, the failure message, NeedsRedeploy and the tracked contents that the first summary for the
-- release had before the pass, and none of them if there was no summary.
pub build_referenced_helm_release_summaries-Carried :
    (w : World) (cs current : ClusterSummary) (st : State) (chart : HelmChart)
    (summaries : List HelmChartSummary) (has_conflict : Bool) (next : State)
    → OneOf w chart current.spec.helm_charts
    → build_referenced_helm_release_summaries w cs current st
      ≡ (some (summaries, has_conflict), next)
    → (s : HelmChartSummary) × (get_helm_chart_summary chart
          (record current { helm_release_summaries = summaries })
        ≡ some s)
      × Carried cs chart s
unfolding build_referenced_helm_release_summaries
build_referenced_helm_release_summaries-Carried w cs current st chart summaries b next one e =
    with_preserved-Found cs current chart (entries w cs current.spec.helm_charts st) summaries b
      next (entries-FoundIn w cs chart current.spec.helm_charts st one) e
