-- ===== src/RefSet.antt =====
-- The interface of libsveltosset.Set, a set of object references of another package: its operations
-- that the controllers call and what they do, as its documentation says.
use addon_controller.Common.{
  ℕ, suc, ◌≡◌, refl, ◌==◌, ◌&&◌, ◌||◌, not, Bool, false, List, [], ◌∷◌, contains, length, select,
  contains-select, arith, if◌then◌else◌,
}
use addon_controller.Api.{ObjectReference, ref_eq}

pub record RefSet : Type 1 where
  pub Carrier : Type 0
  pub empty : Carrier
  pub insert : Carrier → ObjectReference → Carrier
  pub has : Carrier → ObjectReference → Bool
  pub len : Carrier → ℕ
  pub items : Carrier → List ObjectReference
  pub difference : Carrier → Carrier → List ObjectReference
  pub has-empty : (r : ObjectReference) → has empty r ≡ false
  pub has-insert : (s : Carrier) (r x : ObjectReference) → has (insert s r) x ≡ (r == x || has s x)
  pub len-empty : len empty ≡ 0
  pub len-insert :
      (s : Carrier) (r : ObjectReference)
      → len (insert s r) ≡ (if has s r then len s else suc (len s))
  pub contains-items : (s : Carrier) (x : ObjectReference) → contains (items s) x ≡ has s x
  pub contains-difference :
      (s t : Carrier) (x : ObjectReference)
      → contains (difference s t) x ≡ (has s x && not (has t x))

-- A set kept as a list meets the interface.
abbrev pub put : List ObjectReference → ObjectReference → List ObjectReference
put l r = if contains l r then l else r ∷ l

pub contains-put :
    (l : List ObjectReference) (r x : ObjectReference)
    → contains (put l r) x ≡ (r == x || contains l x)
contains-put l r x = ground arith

pub length-put :
    (l : List ObjectReference) (r : ObjectReference)
    → length (put l r) ≡ (if contains l r then length l else suc (length l))
length-put l r = ground arith

abbrev pub list_set : RefSet
list_set = record {
  Carrier = List ObjectReference;
  empty = [];
  insert = put;
  has = contains;
  len = length;
  items = λ s. s;
  difference = λ s t. select (λ r. not (contains t r)) s;
  has-empty = λ r. refl;
  has-insert = contains-put;
  len-empty = refl;
  len-insert = length-put;
  contains-items = λ s x. refl;
  contains-difference = λ s t x. contains-select (λ r. not (contains t r)) s x;
}
