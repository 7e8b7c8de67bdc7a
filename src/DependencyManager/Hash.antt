-- ===== src/DependencyManager/Hash.antt =====
-- calculateHash, and the order of sort_v1reference.go that it sorts by. The rendering of a value as
-- Go code and SHA-256 belong to other packages: they are parameters.
use addon_controller.Common.{
  ℕ, suc, ◌≡◌, refl, ◌==◌, Bool, true, false, not, if◌then◌else◌, ltb, List, [], ◌∷◌, ◌++◌, Text,
  text_eq, keys, length, arith, ap,
}
use addon_controller.Api.{ObjectReference}
use addon_controller.DependencyManager.{ClusterDeployments}

-- `<` on Go strings: byte by byte
pub text_lt : Text → Text → Bool
text_lt [] [] = false
text_lt [] (d ∷ t) = true
text_lt (c ∷ s) [] = false
text_lt (c ∷ s) (d ∷ t) =
    let rest = text_lt s t in if ltb c d then true else if ltb d c then false else rest

-- SortedCorev1ObjectReference.Less
pub less : ObjectReference → ObjectReference → Bool
unfolding text_lt
less a b =
    if not (a.kind == b.kind)
    then text_lt a.kind b.kind
    else if not (a.namespace == b.namespace)
    then text_lt a.namespace b.namespace
    else text_lt a.name b.name

put_in_order : ObjectReference → List ObjectReference → List ObjectReference
put_in_order r [] = r ∷ []
put_in_order r (x ∷ xs) =
    let later = x ∷ put_in_order r xs in if less x r then later else r ∷ x ∷ xs

-- sort.Sort
pub sort_references : List ObjectReference → List ObjectReference
unfolding put_in_order less
sort_references [] = []
sort_references (r ∷ rs) = put_in_order r (sort_references rs)

module _ (as_code : ℕ → Text) (sha256 : Text → Text) where
  -- the loop `for k := range keys`: its variable is the index
  pub config_from : ℕ → List ObjectReference → Text
  config_from i [] = []
  config_from i (r ∷ rs) = as_code i ++ config_from (suc i) rs

  -- `nil` is the empty list of bytes
  pub calculate_hash : ClusterDeployments → Text
  unfolding config_from sort_references
  calculate_hash [] = []
  calculate_hash (c ∷ cd) = sha256 (config_from 0 (sort_references (keys (c ∷ cd))))

length-put_in_order :
    (r : ObjectReference) (xs : List ObjectReference) → length (put_in_order r xs) ≡ suc (length xs)
unfolding put_in_order
length-put_in_order r [] = refl
length-put_in_order r (x ∷ xs) = ground (arith, length-put_in_order r xs)

length-sort : (rs : List ObjectReference) → length (sort_references rs) ≡ length rs
unfolding sort_references
length-sort [] = refl
length-sort (r ∷ rs) = ground (arith, length-put_in_order r (sort_references rs), length-sort rs)

length-keys : (cd : ClusterDeployments) → length (keys cd) ≡ length cd
length-keys [] = refl
length-keys ((c, rp) ∷ cd) = ground (arith, length-keys cd)

module _ (as_code : ℕ → Text) (sha256 : Text → Text) where
  config-length :
      (i : ℕ) (rs rs' : List ObjectReference)
      → length rs ≡ length rs'
      → config_from as_code sha256 i rs ≡ config_from as_code sha256 i rs'
  unfolding config_from
  config-length i [] [] h = refl
  config-length i [] (r ∷ rs) h = absurd (omega arith)
  config-length i (r ∷ rs) [] h = absurd (omega arith)
  config-length i (r ∷ rs) (r' ∷ rs') h =
      ap (λ t. as_code i ++ t) (config-length (suc i) rs rs' (omega arith))

  -- The hash depends on the number of the clusters only: a profile that must be deployed to other
  -- clusters, as many as before, keeps its hash.
  pub calculate_hash-length :
      (cd cd' : ClusterDeployments)
      → length cd ≡ length cd'
      → calculate_hash as_code sha256 cd ≡ calculate_hash as_code sha256 cd'
  unfolding calculate_hash
  calculate_hash-length [] [] h = refl
  calculate_hash-length [] (c ∷ cd) h = absurd (omega arith)
  calculate_hash-length (c ∷ cd) [] h = absurd (omega arith)
  calculate_hash-length (c ∷ cd) (c' ∷ cd') h = ap sha256 (
      config-length 0 (sort_references (keys (c ∷ cd))) (sort_references (keys (c' ∷ cd'))) (
        omega (
          arith,
          length-sort (keys (c ∷ cd)),
          length-sort (keys (c' ∷ cd')),
          length-keys (c ∷ cd),
          length-keys (c' ∷ cd'),
        )))
