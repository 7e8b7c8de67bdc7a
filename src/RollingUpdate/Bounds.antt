-- ===== src/RollingUpdate/Bounds.antt =====
-- MaxUpdate is kept: how many clusters a pass leaves in UpdatingClusters.
use mathlib.Core.Option.{some-injective}
use addon_controller.Common.{
  ℕ, suc, ◌+◌, ◌≤◌, ◌<◌, ◌≡◌, refl, ◌≢◌, ◌∙◌, sym, ◌||◌, true, false, if◌then◌else◌, List, [], ◌∷◌,
  Option, none, some, Text, text_eq, nat_eq, length, contains, Distinct, Distinct-snoc,
  length-append, contains-append, arith, Bool-cases, Option-cases, inl, inr, subst, ap,
}
use addon_controller.Api.{ObjectReference, ref_eq}
use addon_controller.RefSet.{RefSet}
use addon_controller.RollingUpdate.{set_of, World, Status}
use addon_controller.RollingUpdate.Pass.{
  Outcome, done, throttled, ignored, summary_deleted, error,
  update_cluster_summary_instance_for_cluster, Progress, take_slot, after, updated_status,
  outcome_of, visit, visit_all, start_of, finish_loop, update_matching,
}

-- the clusters that a status counts as being updated
abbrev pub slots : Status → List ObjectReference
slots st = st.updating_clusters.clusters

-- At most `n` clusters are being updated, each listed once.
abbrev pub Within : ℕ → Status → Type 0
Within n st = (length (slots st) ≤ n) × Distinct (slots st)

module _ (S : RefSet) (w : World) where
  open S use {Carrier, empty, has, len, insert as put, has-empty, has-insert, len-empty, len-insert}

  instance_slots :
      (max : ℕ) (s : Carrier) (c : ObjectReference) (st : Status)
      → (update_cluster_summary_instance_for_cluster S w max s c st).0.updating_clusters.clusters
        ≡ slots st
  unfolding update_cluster_summary_instance_for_cluster
  instance_slots max s c st = ground arith

  -- a cluster that has no slot is updated only if one is free
  instance_free :
      (max : ℕ) (s : Carrier) (c : ObjectReference) (st : Status)
      → max ≢ 0
      → (update_cluster_summary_instance_for_cluster S w max s c st).1 ≡ done
      → has s c ≡ false
      → len s < max
  unfolding update_cluster_summary_instance_for_cluster
  instance_free max s c st h e f = ground arith

  -- The set of the loop and the list of the status agree, and hold at most `n` clusters.
  pub record Balanced (n : ℕ) (g : Progress S w) : Type 0 where
    pub agree : (x : ObjectReference) → has g.updating x ≡ contains (slots g.status) x
    pub count : len g.updating ≡ length (slots g.status)
    pub within : Within n g.status

  take_slot-Balanced :
      (n : ℕ) (c : ObjectReference) (g : Progress S w)
      → Balanced n g
      → (has g.updating c ≡ false → len g.updating < n)
      → Balanced n (take_slot S w c g)
  take_slot-Balanced n c g b free = elim (Bool-cases (has g.updating c)) [
    | inl old ↦ rw old b
    | inr new ↦ rw new (record {
      agree = λ x. ground (
        arith,
        has-insert g.updating c x,
        b.agree x,
        contains-append (slots g.status) (c ∷ []) x,
      );
      count =
          ground (arith, len-insert g.updating c, b.count, length-append (slots g.status) (c ∷ []));
      within = (
        omega (arith, length-append (slots g.status) (c ∷ []), b.count, free new),
        Distinct-snoc (slots g.status) c b.within.1 (sym (b.agree c) ∙ new),
      );
    })
  ]

  after-Balanced :
      (n : ℕ) (c : ObjectReference) (o : Outcome) (g : Progress S w) {g' : Progress S w}
      → Balanced n g
      → (o ≡ done → has g.updating c ≡ false → len g.updating < n)
      → after S w c o g ≡ some g'
      → Balanced n g'
  after-Balanced n c done g {g'} b free e =
      subst (Balanced n) (some-injective _ _ e) (take_slot-Balanced n c g b (free refl))
  after-Balanced n c throttled g b free e =
      subst (Balanced n) (some-injective _ _ e)
        (record { agree = b.agree; count = b.count; within = b.within })
  after-Balanced n c ignored g b free e = subst (Balanced n) (some-injective _ _ e) b
  after-Balanced n c summary_deleted g b free e =
      subst (Balanced n) (some-injective _ _ e)
        (record { agree = b.agree; count = b.count; within = b.within })
  after-Balanced n c error g b free e = cc

  updated_status-Balanced :
      (n max : ℕ) (c : ObjectReference) (g : Progress S w)
      → Balanced n g
      → Balanced n (updated_status S w max c g)
  updated_status-Balanced n max c g b =
      let same = instance_slots max g.updating c g.status in
      record {
        agree = λ x. b.agree x ∙ ap (λ (l : List ObjectReference). contains l x) (sym same);
        count = b.count ∙ ap (λ (l : List ObjectReference). length l) (sym same);
        within = subst (λ l. (length l ≤ n) × Distinct l) (sym same) b.within;
      }

  visit-Balanced :
      (n max : ℕ) (updated : Carrier) (c : ObjectReference) (g : Progress S w) {g' : Progress S w}
      → max ≢ 0
      → max ≤ n
      → Balanced n g
      → visit S w max updated c g ≡ some g'
      → Balanced n g'
  unfolding visit
  visit-Balanced n max updated c g {g'} h k b e = elim (Bool-cases (has updated c)) [
    | inl skip ↦ subst (Balanced n) (ground arith) b
    | inr go ↦
        after-Balanced n c (outcome_of S w max c g) (updated_status S w max c g) {g' = g'}
          (updated_status-Balanced n max c g b)
          (λ is_done new. omega (arith, instance_free max g.updating c g.status h is_done new))
          (ground arith)
  ]

  has-set_of :
      (s : Carrier) (l : List ObjectReference) (x : ObjectReference)
      → has (set_of S s l) x ≡ (has s x || contains l x)
  has-set_of s [] x = ground arith
  has-set_of s (c ∷ l) x = ground (arith, has-set_of (put s c) l x, has-insert s c x)

  -- no element of the list is in the set
  abbrev Apart : Carrier → List ObjectReference → Type 0
  Apart s l = (x : ObjectReference) → contains l x ≡ true → has s x ≡ false

  len-set_of :
      (s : Carrier) (l : List ObjectReference)
      → Distinct l
      → Apart s l
      → len (set_of S s l) ≡ len s + length l
  len-set_of s [] d a = omega arith
  len-set_of s (c ∷ l) d a =
      omega
        (arith, len-set_of (put s c) l d.1 (λ x h. ground (arith, has-insert s c x, a x)), fresh)
    where
      fresh : len (put s c) ≡ suc (len s)
      fresh = ground (arith, len-insert s c, a c)

  start-Balanced : (n : ℕ) (st : Status) → Within n st → Balanced n (start_of S w st)
  start-Balanced n st h = record {
    agree = λ x. ground (arith, has-set_of empty (slots st) x, has-empty x);
    count = omega (arith, len-set_of empty (slots st) h.1 (λ x k. has-empty x), len-empty);
    within = h;
  }

  -- where an error ends the loop, the status that it leaves
  abbrev pub stopped : ℕ → Carrier → ObjectReference → Progress S w → Progress S w
  stopped max updated c g = if has updated c then g else updated_status S w max c g

  stopped-Balanced :
      (n max : ℕ) (updated : Carrier) (c : ObjectReference) (g : Progress S w)
      → Balanced n g
      → Balanced n (stopped max updated c g)
  stopped-Balanced n max updated c g b = elim (Bool-cases (has updated c)) [
    | inl skip ↦ rw skip b
    | inr go ↦ rw go (updated_status-Balanced n max c g b)
  ]

  -- the status with which the loop ends, by an error or not
  abbrev pub ending : Option (Progress S w) × Progress S w → Status
  ending (none, g) = g.status
  ending (some g, _) = g.status

  visit_all-Within :
      (n max : ℕ) (updated : Carrier) (cs : List ObjectReference) (g : Progress S w)
      → max ≢ 0
      → max ≤ n
      → Balanced n g
      → Within n (ending (visit_all S w max updated cs g))
  unfolding visit_all
  visit_all-Within n max updated [] g h k b = b.within
  visit_all-Within n max updated (c ∷ cs) g h k b =
      elim (Option-cases (visit S w max updated c g)) [
        | inl e ↦ rw (e, visit_all) (stopped-Balanced n max updated c g b).within
        | inr (next, e) ↦
            rw (e, visit_all)
              (visit_all-Within n max updated cs next h k
                (visit-Balanced n max updated c g {g' = next} h k b e))
      ]

  finish_loop-Within :
      (n : ℕ) (hash : Text) (r : Option (Progress S w) × Progress S w)
      → Within n (ending r)
      → Within n (finish_loop S w hash r).0
  finish_loop-Within n hash (none, g) h = h
  finish_loop-Within n hash (some g, g') h = ground arith

  -- With MaxUpdate set, the loop over the matching clusters keeps at most `n` clusters being updated,
  -- for any `n` that is at least MaxUpdate and held before, however the clusters and patches answer.
  pub update_matching-Within :
      (n max : ℕ) (hash : Text) (st : Status)
      → max ≢ 0
      → max ≤ n
      → Within n st
      → Within n (update_matching S w max hash st).0
  unfolding update_matching
  update_matching-Within n max hash st h k v =
      let updated = set_of S empty st.updated_clusters.clusters in
      finish_loop-Within n hash
        (visit_all S w max updated st.matching_cluster_refs (start_of S w st))
        (visit_all-Within n max updated st.matching_cluster_refs (start_of S w st) h k
          (start-Balanced n st v))
