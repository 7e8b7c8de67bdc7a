-- ===== src/RollingUpdate/Revising.antt =====
-- reviseUpdatedAndUpdatingClusters and reviseUpdatingClusterList never hand out a slot, and the whole of
-- updateClusterSummaries keeps MaxUpdate.
use mathlib.Core.Option.{some-injective}
use addon_controller.Common.{
  ℕ, ◌+◌, ◌≤◌, ◌≡◌, refl, ◌≢◌, ◌==◌, true, false, List, [], ◌∷◌, ◌++◌, some, Text, text_eq, nat_eq,
  length, contains, Distinct, Distinct-select, Distinct-snoc, length-append, length-select_le,
  contains-append, arith, Bool-cases, Option-cases, inl, inr, ◌⊎◌, subst, sym,
}
use addon_controller.Api.{ObjectReference, ref_eq}
use addon_controller.RefSet.{RefSet}
use addon_controller.RollingUpdate.{
  set_of, World, Status, Revision, revise_cluster, revise_clusters, revise_updating_cluster_list,
  revise_updated_and_updating_clusters,
}
use addon_controller.RollingUpdate.Pass.{forget_updated, update_cluster_summaries}
use addon_controller.RollingUpdate.Bounds.{Within, update_matching-Within}

module _ (S : RefSet) (w : World) where
  open S use {Carrier, empty, has}

  -- One round frees the slot of its cluster or keeps it.
  revise_cluster-slots :
      (max : ℕ) (known : Carrier) (c : ObjectReference) (rev next : Revision)
      → revise_cluster S w max known c rev ≡ some next
      → (next.updating ≡ rev.updating) ⊎ (next.updating ≡ rev.updating ++ c ∷ [])
  revise_cluster-slots max known c rev next e = ground arith

  -- The slots taken so far and the clusters to come are `n` together, and all different.
  record Fitting (n : ℕ) (cs : List ObjectReference) (taken : List ObjectReference) : Type 0 where
    distinct : Distinct taken
    distinct_rest : Distinct cs
    apart : (x : ObjectReference) → contains cs x ≡ true → contains taken x ≡ false
    count : length taken + length cs ≤ n

  free-Fitting :
      (n : ℕ) (c : ObjectReference) (cs taken : List ObjectReference)
      → Fitting n (c ∷ cs) taken
      → Fitting n cs taken
  free-Fitting n c cs taken f = record {
    distinct = f.distinct;
    distinct_rest = f.distinct_rest.1;
    apart = λ x h. ground (arith, f.apart x);
    count = omega (arith, f.count);
  }

  keep-Fitting :
      (n : ℕ) (c : ObjectReference) (cs taken : List ObjectReference)
      → Fitting n (c ∷ cs) taken
      → Fitting n cs (taken ++ c ∷ [])
  keep-Fitting n c cs taken f = record {
    distinct = Distinct-snoc taken c f.distinct (ground (arith, f.apart c));
    distinct_rest = f.distinct_rest.1;
    apart = λ x h. ground (arith, f.apart x, f.distinct_rest.0, contains-append taken (c ∷ []) x);
    count = omega (arith, f.count, length-append taken (c ∷ []));
  }

  next-Fitting :
      (n max : ℕ) (known : Carrier) (c : ObjectReference) (cs : List ObjectReference)
      (rev next : Revision)
      → revise_cluster S w max known c rev ≡ some next
      → Fitting n (c ∷ cs) rev.updating
      → Fitting n cs next.updating
  next-Fitting n max known c cs rev next e f = elim (revise_cluster-slots max known c rev next e) [
    | inl freed ↦ subst (Fitting n cs) (sym freed) (free-Fitting n c cs rev.updating f)
    | inr stays ↦ subst (Fitting n cs) (sym stays) (keep-Fitting n c cs rev.updating f)
  ]

  revise_clusters-Fitting :
      (n max : ℕ) (known : Carrier) (cs : List ObjectReference) (rev result : Revision)
      → (revise_clusters S w max known cs rev).0 ≡ some result
      → Fitting n cs rev.updating
      → Fitting n [] result.updating
  unfolding revise_clusters
  revise_clusters-Fitting n max known [] rev result e f =
      subst (λ (r : Revision). Fitting n [] r.updating) (some-injective _ _ e) f
  revise_clusters-Fitting n max known (c ∷ cs) rev result e f =
      elim (Option-cases (revise_cluster S w max known c rev)) [
        | inl stop ↦ ground (arith, stop, e)
        | inr (next, step) ↦
            revise_clusters-Fitting n max known cs next result (ground (arith, step, e))
              (next-Fitting n max known c cs rev next step f)
      ]

  revise_updating_cluster_list-Within :
      (n max : ℕ) (hash : Text) (st : Status)
      → Within n st
      → Within n (revise_updating_cluster_list S w max hash st).0
  unfolding revise_updating_cluster_list
  revise_updating_cluster_list-Within n max hash st h =
      elim (Bool-cases (st.updating_clusters.hash == hash)) [
        | inr changed ↦ rw changed h
        | inl same ↦ elim (Option-cases (revise_clusters S w max known slots start).0) [
          | inl stop ↦ rw (same, stop) h
          | inr (result, run) ↦
              let f = revise_clusters-Fitting n max known slots start result run fits in
              rw (same, run) (omega (arith, f.count), f.distinct)
        ]
      ]
    where
      updated : List ObjectReference
      updated = st.updated_clusters.clusters

      known : Carrier
      known = set_of S empty updated

      slots : List ObjectReference
      slots = st.updating_clusters.clusters

      start : Revision
      start = record { updated = updated; updating = []; out_of_band = false }

      fits : Fitting n slots []
      fits = record {
        distinct = tt;
        distinct_rest = h.1;
        apart = λ x e. refl;
        count = omega (arith, h.0);
      }

module _ (S : RefSet) where
  open S use {empty, has}

  revise_updated_and_updating_clusters-Within :
      (n : ℕ) (st : Status) → Within n st → Within n (revise_updated_and_updating_clusters S st)
  unfolding revise_updated_and_updating_clusters
  revise_updated_and_updating_clusters-Within n st h =
      let matches = has (set_of S empty st.matching_cluster_refs) in
      let slots = st.updating_clusters.clusters in
      (omega (arith, h.0, length-select_le matches slots), Distinct-select matches slots h.1)

module _ (S : RefSet) (w : World) where
  forget_updated-Within :
      (n : ℕ) (hash : Text) (st : Status) → Within n st → Within n (forget_updated S w hash st)
  forget_updated-Within n hash st h = ground arith

  -- With MaxUpdate set, one run of updateClusterSummaries keeps at most `n` clusters being updated,
  -- each listed once, for any `n` that is at least MaxUpdate and held before, however the cluster
  -- reads and the patches answer.
  pub update_cluster_summaries-Within :
      (n max : ℕ) (hash : Text) (st : Status)
      → max ≢ 0
      → max ≤ n
      → Within n st
      → Within n (update_cluster_summaries S w max hash st).0
  unfolding update_cluster_summaries
  update_cluster_summaries-Within n max hash st h k v =
      let clean = revise_updated_and_updating_clusters S (forget_updated S w hash st) in
      let fits = revise_updating_cluster_list-Within S w n max hash clean (
        revise_updated_and_updating_clusters-Within S n (forget_updated S w hash st)
          (forget_updated-Within n hash st v)) in
      elim (Option-cases (revise_updating_cluster_list S w max hash clean).1) [
        | inl go ↦ ground (
          arith,
          go,
          fits,
          update_matching-Within S w n max hash (revise_updating_cluster_list S w max hash clean).0
              h k fits,
        )
        | inr (failure, stop) ↦ ground (arith, stop, fits)
      ]
