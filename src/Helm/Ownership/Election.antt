-- ===== src/Helm/Ownership/Election.antt =====
-- Claims on one chart elect the ClusterSummary of the lowest tier.
use addon_controller.Common.{
  ℕ, ◌≡◌, refl, sym, ap, ◌∙◌, subst, Bool, true, false, not, ◌==◌, ◌&&◌, if◌then◌else◌, ltb, List,
  [], ◌∷◌, some, Text, text_eq, lookup, insert, is_some, arith, Bool-cases, Option-cases, inl, inr,
  lookup-insert, ==_eq, ◌≤◌,
}
use addon_controller.Api.{HelmChart, ClusterSummary}
use addon_controller.ChartManager.{
  Instance, is_dry_run, can_manage_chart, get_manager_for_chart, set_manager_for_chart,
  summary_cluster_key, chart_key,
}
use addon_controller.ChartManager.Manager.{
  may_manage, can_manage_chart-manager, manager-set_manager,
}
use addon_controller.Provisioned.{is_empty}
use addon_controller.Transition.{is_chart_transitioning_from}
use addon_controller.Helm.Ownership.{
  State, World, update, reset_helm_release_summaries, reset_feature, requeue_cluster_summary,
  take_over, takes_over, determine_chart_ownership, manager_of, answer,
}

-- ClusterSummaries claim the chart, one after the other
pub claim_all : World → HelmChart → List ClusterSummary → State → State
claim_all w chart [] st = st
claim_all w chart (c ∷ rest) st = claim_all w chart rest (determine_chart_ownership w c chart st).1

-- No worker is busy and the API server answers; the lower tier has priority.
pub record Quiet (w : World) : Type 0 where
  pub idle : (n : Text) → w.in_progress n ≡ false
  pub reads : (n : Text) → w.get_fails n ≡ false
  pub writes : (n : Text) → w.update_fails n ≡ false
  pub lower_first : (a b : ℕ) → w.has_higher_ownership_priority a b ≡ ltb b a

-- The stored ClusterSummaries stand under their names, and have the given tiers.
abbrev pub Known : (Text → ℕ) → State → Type 0
Known tiers st =
    (n : Text) (s : ClusterSummary)
    → lookup n st.stored ≡ some s
    → (s.name ≡ n) × (s.spec.tier ≡ tiers n)

-- Who may claim: a stored ClusterSummary of the cluster, of its stored tier, that neither runs dry nor
-- replaces a profile.
pub record Claims (tiers : Text → ℕ) (ck : Text) (c : ClusterSummary) : Type 0 where
  pub tier : c.spec.tier ≡ tiers c.name
  pub deploys : is_dry_run c.spec.sync_mode ≡ false
  pub replaces_none : is_empty c.spec.transition_from ≡ true
  pub cluster : summary_cluster_key c ≡ ck

abbrev pub Present : Text → State → Type 0
Present n st = is_some (lookup n st.stored) ≡ true

update-Quiet :
    (w : World) (cs : ClusterSummary) (st : State)
    → Quiet w
    → update w cs st ≡ (true, record st { stored = insert cs.name cs st.stored })
unfolding update
update-Quiet w cs st q = rw (q.writes cs.name) refl

requeue-Quiet :
    (w : World) (cs : ClusterSummary) (st : State)
    → Quiet w
    → requeue_cluster_summary w cs st
      ≡ (true, record st { stored = insert cs.name (reset_feature cs) st.stored })
unfolding requeue_cluster_summary reset_feature
requeue-Quiet w cs st q = rw (q.idle cs.name) (update-Quiet w (reset_feature cs) st q)

take_over-Quiet :
    (w : World) (current claiming : ClusterSummary) (chart : HelmChart) (st : State)
    → Quiet w
    → take_over w current claiming chart st ≡ (
      answer true,
      record {
        charts = set_manager_for_chart st.charts claiming chart;
        stored =
            insert current.name
              (reset_feature (reset_helm_release_summaries chart current))
              (insert current.name (reset_helm_release_summaries chart current) st.stored);
      },
    )
unfolding take_over reset_helm_release_summaries
take_over-Quiet w current claiming chart st q =
    let reset = reset_helm_release_summaries chart current in
    rw
      (
        update-Quiet w reset st q,
        requeue-Quiet w reset (record st { stored = insert current.name reset st.stored }) q,
      )
      refl

takes_over-Quiet :
    (w : World) (current claiming : ClusterSummary)
    → Quiet w
    → is_empty claiming.spec.transition_from ≡ true
    → takes_over w current claiming ≡ ltb claiming.spec.tier current.spec.tier
unfolding is_chart_transitioning_from
takes_over-Quiet w current claiming q e =
    rw e (ground (arith, q.lower_first current.spec.tier claiming.spec.tier))

manager_of-Quiet :
    (w : World) (claiming current : ClusterSummary) (chart : HelmChart) (st : State) (x : Text)
    → Quiet w
    → get_manager_for_chart st.charts (summary_cluster_key claiming) (chart_key chart) ≡ some x
    → lookup x st.stored ≡ some current
    → manager_of w claiming chart st ≡ some current
manager_of-Quiet w claiming current chart st x q g l = rw (g, manager_of) (rw (q.reads x, l) refl)

if-take :
    (b : Bool) (w : World) (current claiming : ClusterSummary) (chart : HelmChart) (st : State)
    → Quiet w
    → (if b then take_over w current claiming chart st else (answer false, st)).1 ≡ (
        if b
        then record {
          charts = set_manager_for_chart st.charts claiming chart;
          stored =
              insert current.name
                (reset_feature (reset_helm_release_summaries chart current))
                (insert current.name (reset_helm_release_summaries chart current) st.stored);
        }
        else st)
if-take true w current claiming chart st q =
    ap (λ r. r.1) (take_over-Quiet w current claiming chart st q)
if-take false w current claiming chart st q = refl

-- What one claim comes to.
determine-Quiet :
    (w : World) (claiming current : ClusterSummary) (chart : HelmChart) (st : State) (x : Text)
    → Quiet w
    → get_manager_for_chart st.charts (summary_cluster_key claiming) (chart_key chart) ≡ some x
    → lookup x st.stored ≡ some current
    → is_dry_run claiming.spec.sync_mode ≡ false
    → is_empty claiming.spec.transition_from ≡ true
    → (determine_chart_ownership w claiming chart st).1 ≡ (
        if not (x == claiming.name) && ltb claiming.spec.tier current.spec.tier
        then record {
          charts = set_manager_for_chart st.charts claiming chart;
          stored =
              insert current.name
                (reset_feature (reset_helm_release_summaries chart current))
                (insert current.name (reset_helm_release_summaries chart current) st.stored);
        }
        else st)
unfolding determine_chart_ownership
determine-Quiet w claiming current chart st x q g l dry tr =
    let is_mine : can_manage_chart st.charts claiming chart ≡ (x == claiming.name) =
      can_manage_chart-manager st.charts claiming chart ∙ ap (λ o. may_manage o claiming.name) g in
    elim (Bool-cases (x == claiming.name)) [
      | inl y ↦ rw (is_mine, y) refl
      | inr y ↦
          rw
            (
              is_mine,
              y,
              manager_of-Quiet w claiming current chart st x q g l,
              takes_over-Quiet w current claiming q tr,
              dry,
            )
            (if-take (ltb claiming.spec.tier current.spec.tier) w current claiming chart st q)
    ]

Known-stored :
    (tiers : Text → ℕ) (st : State) (current new reset : ClusterSummary) (charts : Instance)
    (x : Text)
    → Known tiers st
    → lookup x st.stored ≡ some current
    → new.name ≡ current.name
    → new.spec.tier ≡ current.spec.tier
    → Known tiers (record {
      charts = charts;
      stored = insert current.name new (insert current.name reset st.stored);
    })
Known-stored tiers st current new reset charts x known l nn nt n s e =
    let outer = lookup-insert current.name n new (insert current.name reset st.stored) in
    let inner = lookup-insert current.name n reset st.stored in
    let twice : lookup n (insert current.name new (insert current.name reset st.stored))
        ≡ (if current.name == n then some new else lookup n st.stored) =
      ground (arith, outer, inner) in
    elim (Bool-cases (current.name == n)) [
      | inl y ↦
          let named : current.name ≡ n = ==_eq current.name n y in
          let is_new : some new ≡ some s = ground (arith, twice, y, e) in
          let here : new ≡ s = ground (arith, is_new) in
          let facts = known x current l in
          (
            ap (λ c. c.name) (sym here) ∙ nn ∙ named,
            ap (λ c. c.spec.tier) (sym here) ∙ nt ∙ facts.1 ∙ ap tiers (sym facts.0 ∙ named),
          )
      | inr y ↦ known n s (ground (arith, twice, y, e))
    ]

Present-stored :
    (st : State) (current new reset : ClusterSummary) (charts : Instance) (n : Text)
    → Present n st
    → Present n (record {
      charts = charts;
      stored = insert current.name new (insert current.name reset st.stored);
    })
Present-stored st current new reset charts n p = ground (
  arith,
  lookup-insert current.name n new (insert current.name reset st.stored),
  lookup-insert current.name n reset st.stored,
)

-- the manager y after a claim of c, where it was x
abbrev Elected : (Text → ℕ) → Text → HelmChart → ClusterSummary → Text → State → State → Type 0
Elected tiers ck chart c x st after =
    (y : Text) × (get_manager_for_chart after.charts ck (chart_key chart) ≡ some y)
    × Known tiers after
    × ((n : Text) → Present n st → Present n after)
    × Present y after
    × (tiers y ≤ tiers x)
    × (tiers y ≤ tiers c.name)

reset-frame :
    (chart : HelmChart) (cs : ClusterSummary)
    → ((reset_feature (reset_helm_release_summaries chart cs)).name ≡ cs.name)
      × ((reset_feature (reset_helm_release_summaries chart cs)).spec.tier ≡ cs.spec.tier)
unfolding reset_feature reset_helm_release_summaries
reset-frame chart cs = (refl, refl)

claim-Elected :
    (w : World) (tiers : Text → ℕ) (c : ClusterSummary) (chart : HelmChart) (st : State) (x : Text)
    → Quiet w
    → Known tiers st
    → Claims tiers (summary_cluster_key c) c
    → get_manager_for_chart st.charts (summary_cluster_key c) (chart_key chart) ≡ some x
    → Present x st
    → Present c.name st
    → Elected tiers (summary_cluster_key c) chart c x st (determine_chart_ownership w c chart st).1
claim-Elected w tiers c chart st x q known cl g px pc = elim (Option-cases (lookup x st.stored)) [
  | inl e ↦ ground (arith, px, e)
  | inr e ↦
      let current = e.0 in
      let facts = known x current e.1 in
      let frame = reset-frame chart current in
      let stays =
        Present-stored st current (reset_feature (reset_helm_release_summaries chart current))
          (reset_helm_release_summaries chart current) (set_manager_for_chart st.charts c chart) in
      rw (determine-Quiet w c current chart st x q g e.1 cl.deploys cl.replaces_none)
        (elim (Bool-cases (not (x == c.name) && ltb c.spec.tier current.spec.tier)) [
          | inl y ↦ rw y (
            c.name,
            manager-set_manager st.charts c chart,
            Known-stored tiers st current
                (reset_feature (reset_helm_release_summaries chart current))
                (reset_helm_release_summaries chart current)
                (set_manager_for_chart st.charts c chart) x known e.1 frame.0 frame.1,
            stays,
            stays c.name pc,
            ground (arith, y, cl.tier, facts.1),
            ground arith,
          )
          | inr y ↦ rw y (
            x,
            g,
            known,
            (λ n p. p),
            px,
            omega arith,
            ground (arith, y, cl.tier, facts.1, ==_eq x c.name),
          )
        ])
]

-- every claim is made by a stored ClusterSummary of the cluster
abbrev pub AllClaim : (Text → ℕ) → Text → State → List ClusterSummary → Type 0
AllClaim tiers ck st [] = Unit {0}
AllClaim tiers ck st (c ∷ rest) = Claims tiers ck c × Present c.name st × AllClaim tiers ck st rest

AllClaim-kept :
    (tiers : Text → ℕ) (ck : Text) (st after : State) (claims : List ClusterSummary)
    → ((n : Text) → Present n st → Present n after)
    → AllClaim tiers ck st claims
    → AllClaim tiers ck after claims
AllClaim-kept tiers ck st after [] h a = tt
AllClaim-kept tiers ck st after (c ∷ rest) h a =
    (a.0, h c.name a.1, AllClaim-kept tiers ck st after rest h a.2)

-- the tier is not above that of any ClusterSummary of the list
abbrev pub Lowest : (Text → ℕ) → ℕ → List ClusterSummary → Type 0
Lowest tiers n [] = Unit {0}
Lowest tiers n (c ∷ rest) = (n ≤ tiers c.name) × Lowest tiers n rest

-- Once ClusterSummaries have claimed a chart that has a manager, one after the other and in any order,
-- while no worker is busy and the API server answers, the manager has a tier that is not above that of
-- any of them, nor above that of the manager from before: where no claim runs dry or replaces a profile.
pub claim_all-elects :
    (w : World) (tiers : Text → ℕ) (ck : Text) (chart : HelmChart) (claims : List ClusterSummary)
    (st : State) (x : Text)
    → Quiet w
    → Known tiers st
    → AllClaim tiers ck st claims
    → get_manager_for_chart st.charts ck (chart_key chart) ≡ some x
    → Present x st
    → (y : Text) × (get_manager_for_chart (claim_all w chart claims st).charts ck (chart_key chart)
        ≡ some y)
      × (tiers y ≤ tiers x)
      × Lowest tiers (tiers y) claims
unfolding claim_all
claim_all-elects w tiers ck chart [] st x q known a g px = (x, g, omega arith, tt)
claim_all-elects w tiers ck chart (c ∷ rest) st x q known a g px =
    let cl = a.0 in
    let own : Claims tiers (summary_cluster_key c) c = record {
      tier = cl.tier;
      deploys = cl.deploys;
      replaces_none = cl.replaces_none;
      cluster = refl;
    } in
    let g2 =
      subst (λ k. get_manager_for_chart st.charts k (chart_key chart) ≡ some x) (sym cl.cluster)
        g in
    let after = (determine_chart_ownership w c chart st).1 in
    let first : Elected tiers ck chart c x st after =
      subst (λ k. Elected tiers k chart c x st after) cl.cluster
        (claim-Elected w tiers c chart st x q known own g2 px a.1) in
    let later =
      claim_all-elects w tiers ck chart rest after first.0 q first.2
        (AllClaim-kept tiers ck st after rest first.3 a.2) first.1 first.4 in
    (later.0, later.1, omega (arith, later.2, first.5), (omega (arith, later.2, first.6), later.3))
