-- ===== src/Licenses/Order.antt =====
-- license_manager.go: the slices and the maps agree, and who is registered keeps the place.
use addon_controller.Common.{
  ℕ, zero, suc, ◌≡◌, refl, ◌==◌, ◌&&◌, not, ltb, true, false, List, [], ◌∷◌, ◌++◌, Text, length,
  lookup, insert, erase, is_some, contains, contains-append, Distinct, Distinct-snoc, lookup-insert,
  lookup-erase, arith, Bool-cases, inl, inr, length-append, all, Bool, Text, text_eq, ==_eq, ap,
}
use addon_controller.Licenses.{
  NamespacedName, name_eq, LicenseManager, new_license_manager, remove_entry, in_first, add_cluster,
  remove_cluster, is_cluster_in_top_x, add_cluster_promotion, remove_cluster_promotion,
}

-- A slice and its map hold the same names, each once in the slice.
pub record Agree (l : List NamespacedName) (m : List (NamespacedName × Unit {0})) : Type 0 where
  pub distinct : Distinct l
  pub same_names : (k : NamespacedName) → contains l k ≡ is_some (lookup k m)

contains-remove_entry :
    (k : NamespacedName) (l : List NamespacedName) (j : NamespacedName)
    → Distinct l
    → contains (remove_entry k l) j ≡ (contains l j && not (k == j))
contains-remove_entry k [] j d = refl
contains-remove_entry k (c ∷ l) j d = ground (arith, contains-remove_entry k l j d.1)

Distinct-remove_entry :
    (k : NamespacedName) (l : List NamespacedName) → Distinct l → Distinct (remove_entry k l)
Distinct-remove_entry k [] d = tt
Distinct-remove_entry k (c ∷ l) d =
    ground (arith, Distinct-remove_entry k l d.1, contains-remove_entry k l c d.1)

append-Agree :
    (k : NamespacedName) (l : List NamespacedName) (m : List (NamespacedName × Unit {0}))
    → Agree l m
    → is_some (lookup k m) ≡ false
    → Agree (l ++ k ∷ []) (insert k tt m)
append-Agree k l m a h = record {
  distinct = Distinct-snoc l k a.distinct (ground (arith, a.same_names k));
  same_names =
      λ j. ground (arith, contains-append l (k ∷ []) j, lookup-insert k j tt m, a.same_names j);
}

remove-Agree :
    (k : NamespacedName) (l : List NamespacedName) (m : List (NamespacedName × Unit {0}))
    → Agree l m
    → Agree (remove_entry k l) (erase k m)
remove-Agree k l m a = record {
  distinct = Distinct-remove_entry k l a.distinct;
  same_names = λ j.
      ground (arith, contains-remove_entry k l j a.distinct, lookup-erase k j m, a.same_names j);
}

-- The calls; a promotion is registered by its name, and removed by a namespace and a name.
pub data Call : Type 0 where
  add remove remove_promotion : NamespacedName → Call
  add_promotion : Text → Call

abbrev pub call : Call → LicenseManager → LicenseManager
call (add k) m = add_cluster k m
call (remove k) m = remove_cluster k m
call (add_promotion n) m = add_cluster_promotion n m
call (remove_promotion k) m = remove_cluster_promotion k m

-- A ClusterPromotion is cluster-scoped: its namespace is empty.
abbrev pub is_cluster_scoped : Call → Bool
is_cluster_scoped (remove_promotion k) = k.namespace == []
is_cluster_scoped _ = true

abbrev pub calls : List Call → LicenseManager → LicenseManager
calls [] m = m
calls (c ∷ cs) m = calls cs (call c m)

-- both slices agree with their maps
abbrev pub Consistent : LicenseManager → Type 0
Consistent m = Agree m.clusters m.cluster_map × Agree m.clusterpromotions m.cluster_promotion_map

call-Consistent :
    (c : Call) (m : LicenseManager)
    → is_cluster_scoped c ≡ true
    → Consistent m
    → Consistent (call c m)
unfolding add_cluster remove_cluster add_cluster_promotion remove_cluster_promotion
call-Consistent (add k) m s h = elim (Bool-cases (is_some (lookup k m.cluster_map))) [
  | inl old ↦ rw old h
  | inr new ↦ rw new (append-Agree k m.clusters m.cluster_map h.0 new, h.1)
]
call-Consistent (remove k) m s h = elim (Bool-cases (is_some (lookup k m.cluster_map))) [
  | inl old ↦ rw old (remove-Agree k m.clusters m.cluster_map h.0, h.1)
  | inr new ↦ rw new h
]
call-Consistent (add_promotion n) m s h =
    let k : NamespacedName = record { namespace = []; name = n } in
    elim (Bool-cases (is_some (lookup k m.cluster_promotion_map))) [
      | inl old ↦ rw old h
      | inr new ↦ rw new (h.0, append-Agree k m.clusterpromotions m.cluster_promotion_map h.1 new)
    ]
call-Consistent (remove_promotion k) m s h =
    let n : NamespacedName = record { namespace = []; name = k.name } in
    let same : k ≡ n = ap (λ t. record { namespace = t; name = k.name }) (==_eq k.namespace [] s) in
    elim (Bool-cases (is_some (lookup n m.cluster_promotion_map))) [
      | inl old ↦
          rw (old, same) (h.0, remove-Agree n m.clusterpromotions m.cluster_promotion_map h.1)
      | inr new ↦ rw new h
    ]

calls-Consistent :
    (cs : List Call) (m : LicenseManager)
    → all is_cluster_scoped cs ≡ true
    → Consistent m
    → Consistent (calls cs m)
calls-Consistent [] m s h = h
calls-Consistent (c ∷ cs) m s h =
    calls-Consistent cs (call c m) (ground (arith, s)) (call-Consistent c m (ground (arith, s)) h)

-- After any sequence of registrations and removals, in which every ClusterPromotion is removed with an
-- empty namespace, each slice holds every name once, and just the names of its map.
pub calls_new-Consistent :
    (cs : List Call) → all is_cluster_scoped cs ≡ true → Consistent (calls cs new_license_manager)
calls_new-Consistent cs s = calls-Consistent cs new_license_manager s (
  record { distinct = tt; same_names = λ k. refl },
  record { distinct = tt; same_names = λ k. refl },
)

in_first_enough :
    (x : ℕ) (l : List NamespacedName) (k : NamespacedName)
    → ltb (length l) x ≡ true
    → in_first x l k ≡ contains l k
in_first_enough zero l k h = ground arith
in_first_enough (suc x) [] k h = refl
in_first_enough (suc x) (c ∷ l) k h = ground (arith, in_first_enough x l k)

in_first-append :
    (x : ℕ) (l : List NamespacedName) (k j : NamespacedName)
    → contains l k ≡ true
    → in_first x (l ++ j ∷ []) k ≡ in_first x l k
in_first-append zero l k j h = refl
in_first-append (suc x) [] k j h = cc
in_first-append (suc x) (c ∷ l) k j h = ground (arith, in_first-append x l k j)

-- A cluster that is registered keeps its place when another one is registered, whatever the limit.
pub add_cluster-keeps_place :
    (j k : NamespacedName) (x : ℕ) (m : LicenseManager)
    → contains m.clusters k ≡ true
    → is_cluster_in_top_x k x (add_cluster j m) ≡ is_cluster_in_top_x k x m
unfolding add_cluster is_cluster_in_top_x
add_cluster-keeps_place j k x m h = elim (Bool-cases (is_some (lookup j m.cluster_map))) [
  | inl old ↦ rw old
  | inr new ↦ rw new (
      ground (
        arith,
        in_first-append x m.clusters k j h,
        in_first_enough x m.clusters k,
        length-append m.clusters (j ∷ []),
      ))
]

in_first-less :
    (x : ℕ) (l : List NamespacedName) (k : NamespacedName)
    → in_first x l k ≡ true
    → in_first (suc x) l k ≡ true
in_first-less zero [] k h = cc
in_first-less zero (c ∷ l) k h = cc
in_first-less (suc x) [] k h = cc
in_first-less (suc x) (c ∷ l) k h = ground (arith, in_first-less x l k)

in_first-remove_entry :
    (x : ℕ) (l : List NamespacedName) (j k : NamespacedName)
    → (j == k) ≡ false
    → in_first x l k ≡ true
    → in_first x (remove_entry j l) k ≡ true
in_first-remove_entry zero l j k h e = cc
in_first-remove_entry (suc x) [] j k h e = cc
in_first-remove_entry (suc x) (c ∷ l) j k h e =
    ground (arith, in_first-remove_entry x l j k h, in_first-less x l k)

length-remove_entry :
    (j : NamespacedName) (l : List NamespacedName) (x : ℕ)
    → ltb (length l) x ≡ true
    → ltb (length (remove_entry j l)) x ≡ true
length-remove_entry j [] x h = h
length-remove_entry j (c ∷ l) zero h = ground arith
length-remove_entry j (c ∷ l) (suc x) h = ground (arith, length-remove_entry j l x)

-- The removal of another cluster never puts a cluster out of the first ones.
pub remove_cluster-keeps_place :
    (j k : NamespacedName) (x : ℕ) (m : LicenseManager)
    → (j == k) ≡ false
    → is_cluster_in_top_x k x m ≡ true
    → is_cluster_in_top_x k x (remove_cluster j m) ≡ true
unfolding remove_cluster is_cluster_in_top_x
remove_cluster-keeps_place j k x m h e =
    ground (arith, in_first-remove_entry x m.clusters j k h, length-remove_entry j m.clusters x)
