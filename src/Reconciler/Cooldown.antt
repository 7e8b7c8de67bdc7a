-- ===== src/Reconciler/Cooldown.antt =====
-- The cooldown of a ClusterSummary: how long a reconciliation is put off, and what ends it early.
use addon_controller.Common.{
  ℕ, ◌+◌, ◌≤◌, ◌≡◌, ap, ◌∙◌, true, false, not, ◌&&◌, ltb, Option, none, some, is_some, arith,
  Option-cases, inl, inr,
}
use addon_controller.Reconciler.{
  State, set_next_reconcile_time, skip_reconciliation, remaining_cooldown,
}

-- what another writer may have done since: the stored status and the generation are arbitrary
abbrev pub since : Option ℕ → ℕ → State → State
since stored generation st = record st {
  object = record st.object { next_reconcile_time = stored };
  generation = generation;
}

-- A ClusterSummary that is not being deleted, put off by `d` at the time `start`, is skipped at a later
-- time exactly while the time is not over and its generation has not grown, whatever its stored status
-- says by then: so also where the write of the status was lost.
pub skip-set_next_reconcile_time :
    (st : State) (start d now generation : ℕ) (stored : Option ℕ)
    → is_some st.object.deletion_timestamp ≡ false
    → (skip_reconciliation now (since stored generation (set_next_reconcile_time start d st))).0
      ≡ (not (ltb st.generation generation) && ltb now (start + d))
unfolding skip_reconciliation set_next_reconcile_time
skip-set_next_reconcile_time st start d now generation stored h = ground (arith, h)

-- the end of the cooldown in memory, or in the status where memory has none
abbrev pub cooldown_end : State → ℕ
cooldown_end st = elim st.next_reconcile_time [
  | some c ↦ c.until
  | none ↦ elim st.object.next_reconcile_time [ none ↦ 0 | some t ↦ t ]
]

-- A reconciliation that is put off is requeued no earlier than the end of its cooldown.
pub remaining_cooldown-skip :
    (st : State) (now : ℕ)
    → (skip_reconciliation now st).0 ≡ true
    → cooldown_end st ≤ now + remaining_cooldown now (skip_reconciliation now st).1
unfolding skip_reconciliation remaining_cooldown
remaining_cooldown-skip st now h = elim (Option-cases st.next_reconcile_time) [
  | inl e ↦ elim (Option-cases st.object.next_reconcile_time) [
    | inl f ↦ ground (arith, e, f, h)
    | inr f ↦ ground (arith, e, f.1, h)
  ]
  | inr e ↦ ground (arith, e.1, h)
]

-- Where a restart lost the memory, a reconciliation that is skipped puts the cooldown back: later ones
-- are skipped exactly until the same time, whatever the stored status says by then.
pub skip-restarted :
    (st : State) (now later t : ℕ) (stored : Option ℕ)
    → is_some st.object.deletion_timestamp ≡ false
    → st.next_reconcile_time ≡ none
    → st.object.next_reconcile_time ≡ some t
    → ltb now t ≡ true
    → (skip_reconciliation later (since stored st.generation (skip_reconciliation now st).1)).0
      ≡ ltb later t
unfolding skip_reconciliation
skip-restarted st now later t stored h m s e =
    let kept : State = record st {
      next_reconcile_time = some (record { until = t; generation = st.generation });
    } in
    let first : skip_reconciliation now st ≡ (true, kept) = ground (arith, h, m, s, e) in
    ap (λ r. (skip_reconciliation later (since stored st.generation r.1)).0) first
    ∙ ground (arith, h)
