-- ===== src/Examples/Selections.antt =====
-- Clusters chosen by a Set, and clusters and promotions admitted by a license.
use addon_controller.Common.{
  Distinct, ◌≡◌, refl, ◌≤◌, true, List, [], ◌∷◌, Text, text, text_dec, ℕ_discrete, length, contains,
  suc, arith,
}
use addon_controller.Api.{ObjectReference, ref_eq, ref_dec}
use addon_controller.Selection.{select_clusters, select_more_clusters, select_more_loop}
use addon_controller.Selection.Bounds
use addon_controller.Selection.Dropping
use addon_controller.Licenses.{
  NamespacedName, name_eq, name_dec, LicenseManager, new_license_manager, is_cluster_in_top_x,
}
use addon_controller.Licenses.Order
use addon_controller.Licenses.Order.{
  Call, add, remove, remove_promotion, add_promotion, calls, Consistent,
}
use addon_controller.Examples.Fixtures.{cluster_1, cluster_2, cluster_3}

abbrev healthy : List ObjectReference
healthy = cluster_1 ∷ cluster_2 ∷ cluster_3 ∷ []

length-select_clusters_le_example : length (select_clusters 2 healthy (cluster_3 ∷ [])) ≤ 2
length-select_clusters_le_example = Bounds.length-select_clusters_le 2 healthy (cluster_3 ∷ [])

still_selected : contains (select_clusters 2 healthy (cluster_3 ∷ [])) cluster_3 ≡ true
unfolding select_clusters select_more_clusters select_more_loop ref_dec text_dec ℕ_discrete
still_selected = refl

healthy-Distinct : Distinct healthy
unfolding ref_dec text_dec ℕ_discrete
healthy-Distinct = (refl, (refl, (refl, tt)))

select_clusters-drops_one_more_example :
    (suc (length (select_clusters 2 healthy healthy)) ≡ 2)
    × (length (select_clusters 2 healthy (select_clusters 2 healthy healthy)) ≡ 2)
unfolding ref_dec text_dec ℕ_discrete
select_clusters-drops_one_more_example =
    Dropping.select_clusters-drops_one_more 2 healthy healthy (omega arith) healthy-Distinct
      (omega arith)

abbrev named : Text → NamespacedName
named n = record { namespace = text "default"; name = n }

abbrev some_calls : List Call
some_calls =
    add (named (text "c1"))
    ∷ add_promotion (text "p")
    ∷ remove (named (text "c1"))
    ∷ remove_promotion (record { namespace = []; name = text "p" })
    ∷ []

calls_new-Consistent_example : Consistent (calls some_calls new_license_manager)
unfolding text_dec
calls_new-Consistent_example = Order.calls_new-Consistent some_calls refl

abbrev licensed : LicenseManager
licensed = record {
  clusters = named (text "c1") ∷ named (text "c2") ∷ [];
  clusterpromotions = [];
  cluster_map = (named (text "c1"), tt) ∷ (named (text "c2"), tt) ∷ [];
  cluster_promotion_map = [];
}

in_top : is_cluster_in_top_x (named (text "c2")) 2 licensed ≡ true
unfolding is_cluster_in_top_x name_dec text_dec ℕ_discrete
in_top = refl
