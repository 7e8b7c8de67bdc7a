-- ===== src/Selection.antt =====
-- controllers/set_utils.go: how a Set or ClusterSet chooses MaxReplicas of its matching clusters. The
-- matching clusters whose connection is up are an argument, since the API server knows them, and
-- MaxReplicas is a count that is not negative.
pub mod Bounds
pub mod Dropping
use addon_controller.Common.{
  ℕ, suc, ◌+◌, ◌-◌, ◌≤◌, ◌<◌, ◌≡◌, refl, ◌≢◌, ◌==◌, nat_eq, ◌&&◌, ◌||◌, not, leb, ltb, leb_le,
  ltb_lt, ==_eq, Bool, true, false, if◌then◌else◌, List, [], ◌∷◌, ◌++◌, length, take, contains,
  select, contains-select, contains-append, length-append, length-take_le, arith, Bool-cases, inl,
  inr, ◌⊎◌, Distinct, Distinct-select, ◌∙◌, sym, zero, ap,
}
use addon_controller.Api.{ObjectReference, ref_eq}

-- the loop of selectMoreClusters; `known` is the set of what was selected before it
unfoldable pub select_more_loop :
    ℕ → List ObjectReference → List ObjectReference → List ObjectReference → List ObjectReference
select_more_loop max known [] selected = selected
select_more_loop max known (c ∷ rest) selected =
    let skipped = select_more_loop max known rest selected in
    let appended = selected ++ c ∷ [] in
    let later = select_more_loop max known rest appended in
    if contains known c then skipped else if length appended == max then appended else later

-- selectMoreClusters, whose caller passes a slice that is not nil
unfoldable pub select_more_clusters :
    ℕ → List ObjectReference → List ObjectReference → List ObjectReference
unfolding select_more_loop
select_more_clusters max healthy selected =
    if leb max (length selected) then selected else select_more_loop max selected healthy selected

-- selectClusters, on the clusters that are healthy and those that were selected
unfoldable pub select_clusters :
    ℕ → List ObjectReference → List ObjectReference → List ObjectReference
unfolding select_more_clusters
select_clusters max healthy selected =
    let current = select (contains healthy) selected in
    if length current == max
    then current
    else if max == 0
    then []
    else if ltb max (length current)
    then take (max - 1) current
    else select_more_clusters max healthy current
