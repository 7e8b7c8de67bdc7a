-- ===== src/Reconciler/Normal/Guarded.antt =====
-- What has passed when a ClusterSummary is deployed.
use addon_controller.Common.{
  ◌≡◌, refl, Bool, true, false, Option, none, some, arith, Bool-cases, inl, inr,
}
use addon_controller.Api.{ClusterSummary}
use addon_controller.Reconciler.{State, should_reconcile}
use addon_controller.Reconciler.Gates.{
  Check, check_error, check, is_open_check, are_dependencies_deployed,
}
use addon_controller.Reconciler.Normal.{
  World, verify_pull_mode_eligibility, after_gate, prepare_and_deploy, by_pause, by_eligibility,
  with_finalizer, reconcile_normal,
}

-- The watchers run, and the dependencies are deployed.
abbrev pub Ready : World → ClusterSummary → Type 0
Ready w cs =
    (w.watchers_started ≡ true)
    × (is_open_check (are_dependencies_deployed w.owner w.dependency cs) ≡ true)

-- and the cluster is not paused
abbrev pub Running : World → Option Bool → ClusterSummary → Type 0
Running w paused cs = (paused ≡ some false) × Ready w cs

-- and may be managed
abbrev pub Eligible : World → Option Bool → ClusterSummary → Type 0
Eligible w eligible cs = (eligible ≡ some true) × Running w w.paused cs

-- The sync mode asks for a reconciliation, the cluster may be managed and is not paused, the watchers run,
-- and the dependencies are deployed.
abbrev pub Guarded : World → ClusterSummary → Type 0
Guarded w cs = (should_reconcile cs ≡ true) × Eligible w (verify_pull_mode_eligibility w cs) cs

after_gate-deploys :
    (w : World) (c : Check) (st : State)
    → (after_gate w c st).deploys ≡ true
    → is_open_check c ≡ true
after_gate-deploys w check_error st h = ground (arith, h)
after_gate-deploys w (check false m) st h = ground (arith, h)
after_gate-deploys w (check true m) st h = refl

prepare-deploys :
    (w : World) (st : State) → (prepare_and_deploy w st).deploys ≡ true → Ready w st.object
unfolding prepare_and_deploy
prepare-deploys w st h = elim (Bool-cases w.watchers_started) [
  | inl y ↦ (
    y,
    after_gate-deploys w (are_dependencies_deployed w.owner w.dependency st.object) st
        (ground (arith, h, y)),
  )
  | inr y ↦ ground (arith, h, y)
]

by_pause-deploys :
    (w : World) (p : Option Bool) (st : State)
    → (by_pause w p st).deploys ≡ true
    → Running w p st.object
by_pause-deploys w none st h = ground (arith, h)
by_pause-deploys w (some true) st h = ground (arith, h)
by_pause-deploys w (some false) st h =
    (refl, prepare-deploys w (record st { reconciliation_suspended = false }) h)

by_eligibility-deploys :
    (w : World) (e : Option Bool) (st : State)
    → (by_eligibility w e st).deploys ≡ true
    → Eligible w e st.object
by_eligibility-deploys w none st h = ground (arith, h)
by_eligibility-deploys w (some false) st h = ground (arith, h)
by_eligibility-deploys w (some true) st h = (refl, by_pause-deploys w w.paused st h)

with_finalizer-deploys :
    (w : World) (st : State) → (with_finalizer w st).deploys ≡ true → Guarded w st.object
with_finalizer-deploys w st h = elim (Bool-cases w.health_monitoring_done) [
  | inl y ↦ elim (Bool-cases (should_reconcile st.object)) [
    | inl z ↦ (
      z,
      by_eligibility-deploys w (verify_pull_mode_eligibility w st.object) st
          (ground (arith, h, y, z)),
    )
    | inr z ↦ ground (arith, h, y, z)
  ]
  | inr y ↦ ground (arith, h, y)
]

-- A ClusterSummary is deployed only where its sync mode asks for a reconciliation, its cluster may be
-- managed under the license and is not paused, the watchers run, and the dependencies are deployed.
pub reconcile_normal-Guarded :
    (w : World) (st : State) → (reconcile_normal w st).deploys ≡ true → Guarded w st.object
unfolding reconcile_normal
reconcile_normal-Guarded w st h = elim (Bool-cases st.has_finalizer) [
  | inl y ↦ with_finalizer-deploys w st (ground (arith, h, y))
  | inr y ↦ elim (Bool-cases w.finalizer_added) [
    | inl z ↦
        with_finalizer-deploys w (record st { has_finalizer = true }) (ground (arith, h, y, z))
    | inr z ↦ ground (arith, h, y, z)
  ]
]
