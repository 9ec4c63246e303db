-- ===== src/Extern/Rb.antt =====
-- libjeffpc's red-black trees (rb_create, rb_insert, rb_find, iteration), for elements ordered by a
-- comparator. `to_list` is the order of iteration from rb_first to rb_last.
use mathlib.Core.List.{Permᴰ}
use blahgd.Prelude.{List, [], ◌∷◌, Option, none, some, Ordering, ◌≡◌, refl}

-- What rb_find returns on the elements in order.
abbrev pub find_eq {ℓ} : {E : Type ℓ} → (E → E → Ordering) → E → List E → Option E
find_eq cmp k [] = none
find_eq cmp k (e ∷ l) = elim (cmp e k) [
  | Ordering.eq ↦ some e
  | Ordering.lt ↦ find_eq cmp k l
  | Ordering.gt ↦ find_eq cmp k l
]

-- The elements in order after one more has been inserted.
abbrev pub insert_sorted {ℓ} : {E : Type ℓ} → (E → E → Ordering) → E → List E → List E
insert_sorted cmp k [] = k ∷ []
insert_sorted cmp k (e ∷ l) = elim (cmp e k) [
  | Ordering.lt ↦ e ∷ insert_sorted cmp k l
  | Ordering.eq ↦ k ∷ e ∷ l
  | Ordering.gt ↦ k ∷ e ∷ l
]

-- An element takes the place of the one equal to it: a node that is changed where it stands.
abbrev pub replace_eq {ℓ} : {E : Type ℓ} → (E → E → Ordering) → E → List E → List E
replace_eq cmp k [] = []
replace_eq cmp k (e ∷ l) = elim (cmp e k) [
  | Ordering.lt ↦ e ∷ replace_eq cmp k l
  | Ordering.eq ↦ k ∷ l
  | Ordering.gt ↦ e ∷ replace_eq cmp k l
]

-- Without the first element equal to `k`.
abbrev pub remove_eq {ℓ} : {E : Type ℓ} → (E → E → Ordering) → E → List E → List E
remove_eq cmp k [] = []
remove_eq cmp k (e ∷ l) = elim (cmp e k) [
  | Ordering.lt ↦ e ∷ remove_eq cmp k l
  | Ordering.eq ↦ l
  | Ordering.gt ↦ e ∷ remove_eq cmp k l
]

-- `insert` is rb_insert where rb_find finds nothing; `update` writes to a node in place; `remove`
-- is rb_remove of the node equal to an element.
pub record RbApi (E : Type 0) (cmp : E → E → Ordering) : Type 1 where
  pub Tree : Type 0
  pub create : Tree
  pub to_list : Tree → List E
  pub find : Tree → E → Option E
  pub insert : Tree → E → Tree
  pub update : Tree → E → Tree
  pub remove : Tree → E → Tree
  pub to_list-create : to_list create ≡ []
  pub find_lem : (t : Tree) (k : E) → find t k ≡ find_eq cmp k (to_list t)
  pub to_list-insert :
      (t : Tree) (k : E) → find t k ≡ none → to_list (insert t k) ≡ insert_sorted cmp k (to_list t)
  pub to_list-update : (t : Tree) (k : E) → to_list (update t k) ≡ replace_eq cmp k (to_list t)
  pub to_list-remove : (t : Tree) (k : E) → to_list (remove t k) ≡ remove_eq cmp k (to_list t)

-- The elements in the order in which rb_destroy_nodes returns them, each once, until it returns NULL.
pub record RbDestroy {E : Type 0} {cmp : E → E → Ordering} (api : RbApi E cmp) : Type 0 where
  pub nodes : api.Tree → List E
  pub nodes-Permᴰ : (t : api.Tree) → Permᴰ (nodes t) (api.to_list t)

-- The sorted lists themselves behave so.
abbrev pub sorted_lists : {E : Type 0} (cmp : E → E → Ordering) → RbApi E cmp
sorted_lists {E} cmp = record {
  Tree = List E;
  create = [];
  to_list = λ t. t;
  find = λ t k. find_eq cmp k t;
  insert = λ t k. insert_sorted cmp k t;
  update = λ t k. replace_eq cmp k t;
  remove = λ t k. remove_eq cmp k t;
  to_list-create = refl;
  find_lem = λ t k. refl;
  to_list-insert = λ t k h. refl;
  to_list-update = λ t k. refl;
  to_list-remove = λ t k. refl;
}
