-- ===== src/Licenses.antt =====
-- controllers/license_manager.go: the SveltosClusters in pull mode and the ClusterPromotions in the
-- order of their registration, of which a license admits the first ones. The lock of each method makes
-- it one step; a limit is a count that is not negative.
pub mod Order
use addon_controller.Common.{
  ℕ, zero, suc, ◌==◌, ◌||◌, ltb, Bool, true, false, if◌then◌else◌, List, [], ◌∷◌, ◌++◌, Option,
  Text, text_dec, Eq, length, lookup, insert, erase, is_some,
}

pub record NamespacedName : Type 0 where
  pub namespace : Text
  pub name : Text

unfoldable pub name_dec : Discrete NamespacedName
unfolding text_dec
name_dec = hlevel text_dec

instance abbrev pub name_eq : Eq NamespacedName
name_eq = record { dec = name_dec }

pub record LicenseManager : Type 0 where
  pub clusters : List NamespacedName
  pub clusterpromotions : List NamespacedName
  pub cluster_map : List (NamespacedName × Unit {0})
  pub cluster_promotion_map : List (NamespacedName × Unit {0})

abbrev pub new_license_manager : LicenseManager
new_license_manager = record {
  clusters = [];
  clusterpromotions = [];
  cluster_map = [];
  cluster_promotion_map = [];
}

-- the loop that takes an entry out of a slice, up to its break
abbrev pub remove_entry : NamespacedName → List NamespacedName → List NamespacedName
remove_entry k [] = []
remove_entry k (c ∷ rest) = let later = c ∷ remove_entry k rest in if c == k then rest else later

-- the loop over the first `limit` entries; the caller has tested that there are as many
abbrev pub in_first : ℕ → List NamespacedName → NamespacedName → Bool
in_first zero l k = false
in_first (suc n) [] k = false
in_first (suc n) (c ∷ l) k = c == k || in_first n l k

abbrev pub in_top : ℕ → List NamespacedName → NamespacedName → Bool
in_top x l k = if ltb (length l) x then true else in_first x l k

-- AddCluster
pub add_cluster : NamespacedName → LicenseManager → LicenseManager
add_cluster k m =
    if is_some (lookup k m.cluster_map)
    then m
    else record m { cluster_map = insert k tt m.cluster_map; clusters = m.clusters ++ k ∷ [] }

-- RemoveCluster
pub remove_cluster : NamespacedName → LicenseManager → LicenseManager
remove_cluster k m =
    if is_some (lookup k m.cluster_map)
    then record m { clusters = remove_entry k m.clusters; cluster_map = erase k m.cluster_map }
    else m

-- IsClusterInTopX
unfoldable pub is_cluster_in_top_x : NamespacedName → ℕ → LicenseManager → Bool
is_cluster_in_top_x k x m = in_top x m.clusters k

abbrev unqualified : Text → NamespacedName
unqualified n = record { namespace = []; name = n }

-- AddClusterPromotion, by the name of the ClusterPromotion
pub add_cluster_promotion : Text → LicenseManager → LicenseManager
add_cluster_promotion n m =
    if is_some (lookup (unqualified n) m.cluster_promotion_map) then m else record m {
      cluster_promotion_map = insert (unqualified n) tt m.cluster_promotion_map;
      clusterpromotions = m.clusterpromotions ++ unqualified n ∷ [];
    }

-- RemoveClusterPromotion: the map is asked by the name alone, the slice by the namespace also
pub remove_cluster_promotion : NamespacedName → LicenseManager → LicenseManager
remove_cluster_promotion k m =
    if is_some (lookup (unqualified k.name) m.cluster_promotion_map)
    then record m {
      clusterpromotions = remove_entry k m.clusterpromotions;
      cluster_promotion_map = erase (unqualified k.name) m.cluster_promotion_map;
    }
    else m

-- IsClusterPromotionInTopX
pub is_cluster_promotion_in_top_x : NamespacedName → ℕ → LicenseManager → Bool
is_cluster_promotion_in_top_x k x m = in_top x m.clusterpromotions k
