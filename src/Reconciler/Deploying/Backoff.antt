-- ===== src/Reconciler/Deploying/Backoff.antt =====
-- How long a failed deployment is put off.
use addon_controller.Common.{
  ℕ, suc, ◌-◌, ◌*◌, ◌≤◌, ◌<◌, ◌≡◌, refl, true, ◌==◌, ◌&&◌, if◌then◌else◌, ltb, leb, List, [], ◌∷◌,
  some, nat_eq, ◌+◌, ==_refl, Bool, ℕ_discrete, arith, Bool-cases, Option-cases, inl, inr, all,
}
use addon_controller.Api.{FeatureSummary, ClusterSummary}
use addon_controller.Reconciler.Deploying.{
  World, multiplier, back_off, max_failures, get_max_consecutive_failures, has_type, is_conflict,
  is_health_check, after_deploy, deploy, proceed_deploying_cluster_summary,
}
use addon_controller.Deployer
use addon_controller.Reconciler.{State, requeue_after, set_next_reconcile_time}

max_failures-bounds :
    (n : ℕ) (l : List FeatureSummary)
    → (n ≤ max_failures n l) × (all (λ fs. leb fs.consecutive_failures (max_failures n l)) l ≡ true)
unfolding max_failures
max_failures-bounds n [] = (omega arith, refl)
max_failures-bounds n (fs ∷ rest) =
    let later =
      max_failures-bounds (if ltb n fs.consecutive_failures then fs.consecutive_failures else n)
        rest in
    ground (arith, later.0, later.1)

-- The number of failures that counts is not below that of any feature.
pub get_max_consecutive_failures-bounds :
    (cs : ClusterSummary)
    → all (λ fs. leb fs.consecutive_failures (get_max_consecutive_failures cs)) cs.feature_summaries
      ≡ true
unfolding get_max_consecutive_failures
get_max_consecutive_failures-bounds cs = (max_failures-bounds 0 cs.feature_summaries).1

multiplier-bounds :
    (w : World) (failures : ℕ)
    → ((bound n : ℕ) → w.random bound ≡ some n → n < bound)
    → ltb 1 failures ≡ true
    → (2 ≤ multiplier w failures) × (multiplier w failures ≤ 6) × (multiplier w failures ≤ failures)
multiplier-bounds w failures h y =
    let ceiling = if ltb failures 6 then failures else 6 in
    let bound = suc ceiling - 2 in
    elim (Option-cases (w.random bound)) [
      | inl e ↦ (ground (arith, e), ground (arith, e), ground (arith, e, y))
      | inr e ↦
          let below = h bound e.0 e.1 in
          (ground (arith, e.1, below), ground (arith, e.1, below, y), ground (arith, e.1, below, y))
    ]

-- Where the random numbers are below their bounds, back_off is 10 seconds while no feature failed twice in
-- a row, and else 20 seconds at least, 60 at most, and no more than 10 for each failure.
pub back_off-bounds :
    (w : World) (cs : ClusterSummary)
    → ((bound n : ℕ) → w.random bound ≡ some n → n < bound)
    → (10 ≤ back_off w cs)
      × (back_off w cs ≤ 60)
      × (if ltb 1 (get_max_consecutive_failures cs)
          then leb 20 (back_off w cs) && leb (back_off w cs) (10 * get_max_consecutive_failures cs)
          else back_off w cs == 10)
        ≡ true
unfolding back_off ℕ_discrete
back_off-bounds w cs h =
    let failures = get_max_consecutive_failures cs in
    elim (Bool-cases (ltb 1 failures)) [
      | inl y ↦
          let m = multiplier-bounds w failures h y in
          rw y (
            ground (arith, m.0, m.1, m.2),
            ground (arith, m.0, m.1, m.2),
            ground (arith, m.0, m.1, m.2),
          )
      | inr y ↦ rw y (omega arith, omega arith, refl)
    ]

-- the delay after errors, given the object that the deployment left
abbrev pub is_delay : World → List Deployer.Return → ClusterSummary → ℕ → Bool
is_delay w errors cs d =
    if has_type is_conflict w errors
    then d == w.conflict_retry_time
    else if has_type is_health_check w errors
    then d == w.health_error_retry_time
    else leb 10 d
      && leb d 60
      && (if ltb 1 (get_max_consecutive_failures cs)
          then leb 20 d && leb d (10 * get_max_consecutive_failures cs)
          else d == 10)

after_deploy-is_delay :
    (w : World) (st : State) (r : Deployer.Return) (rest : List Deployer.Return)
    → ((bound n : ℕ) → w.random bound ≡ some n → n < bound)
    → (d : ℕ) × ((after_deploy w st (r ∷ rest)).1 ≡ requeue_after d)
      × ((after_deploy w st (r ∷ rest)).0.object.next_reconcile_time ≡ some (w.now + d))
      × (is_delay w (r ∷ rest) st.object d ≡ true)
unfolding set_next_reconcile_time ℕ_discrete
after_deploy-is_delay w st r rest h = elim (Bool-cases (has_type is_conflict w (r ∷ rest))) [
  | inl c ↦ (w.conflict_retry_time, rw c refl, rw c refl, rw c (==_refl w.conflict_retry_time))
  | inr c ↦ elim (Bool-cases (has_type is_health_check w (r ∷ rest))) [
    | inl e ↦ (
      w.health_error_retry_time,
      rw (c, e) refl,
      rw (c, e) refl,
      rw (c, e) (==_refl w.health_error_retry_time),
    )
    | inr e ↦
        let b = back_off-bounds w st.object h in
        (
          back_off w st.object,
          rw (c, e) refl,
          rw (c, e) refl,
          rw (c, e) (ground (arith, b.0, b.1, b.2)),
        )
  ]
]

-- Where the random numbers are below their bounds, and deploy returns errors (a deployment that is queued or
-- still going on is one), proceedDeployingClusterSummary asks for a reconciliation after a delay, and
-- writes the time of it to NextReconcileTime. The delay is the conflict retry time where an error is a
-- ConflictError, else the health check retry time where one is a HealthCheckError, and for all other errors
-- 10 seconds while no feature has failed twice in a row, and from then on between 20 and 60 seconds, and no
-- more than 10 for each consecutive failure.
pub proceed-bounds :
    (w : World) (st : State) (r : Deployer.Return) (rest : List Deployer.Return)
    → ((bound n : ℕ) → w.random bound ≡ some n → n < bound)
    → (deploy w st.object).1 ≡ r ∷ rest
    → (d : ℕ) × ((proceed_deploying_cluster_summary w st).1 ≡ requeue_after d)
      × ((proceed_deploying_cluster_summary w st).0.object.next_reconcile_time ≡ some (w.now + d))
      × (is_delay w (r ∷ rest) (deploy w st.object).0 d ≡ true)
unfolding proceed_deploying_cluster_summary
proceed-bounds w st r rest h e =
    rw e (after_deploy-is_delay w (record st { object = (deploy w st.object).0 }) r rest h)
