-- ===== src/Index.antt =====
-- post_index.c: the indices over the posts, by id, by time and by tag. A post is a pointer, a
-- number here, and `heap` gives what stands there now; the index keeps a copy of the id and of the
-- time that the post had when it was inserted. The trees are libjeffpc's. `memory` holds the
-- results of the coming allocations; past its end they succeed.
pub mod Listing
pub mod Catalog
pub mod Insert
pub mod Shown
pub mod Tags
pub mod Samples
pub mod Teardown
mod Tests
use blahgd.Prelude.{
  ℕ, zero, suc, ◌+◌, ◌^◌, ◌-◌, min, max, Bool, true, false, ◌&&◌, List, [], ◌∷◌, ◌++◌, Option, none,
  some, Ordering, ltb, if◌then◌else◌, length, Bytes, strcasecmp,
}
use mathlib.Core.List.{reverse}
use blahgd.Extern.Rb.{RbApi}

pub data EntryType : Type 0 where
  et_tag et_time : EntryType

-- The fields of a post that the index reads. `tags` is its set of tags in the tree's order.
pub record Post : Type 0 where
  pub id : ℕ
  pub time : ℕ
  pub listed : Bool
  pub tags : List Bytes

pub record GlobalEntry : Type 0 where
  pub id : ℕ
  pub post : ℕ
  pub time : ℕ

pub record IndexEntry : Type 0 where
  pub global : GlobalEntry
  pub name : Option Bytes
  pub kind : EntryType

pub record Subindex (T : Type 0) : Type 0 where
  pub name : Bytes
  pub subindex : T

unfoldable pub global_index_cmp : GlobalEntry → GlobalEntry → Ordering
global_index_cmp a b =
    if ltb a.id b.id then Ordering.lt else if ltb b.id a.id then Ordering.gt else Ordering.eq

unfoldable pub index_cmp : IndexEntry → IndexEntry → Ordering
index_cmp a b =
    if ltb a.global.time b.global.time
    then Ordering.lt
    else if ltb b.global.time a.global.time
    then Ordering.gt
    else if ltb a.global.id b.global.id
    then Ordering.lt
    else if ltb b.global.id a.global.id
    then Ordering.gt
    else Ordering.eq

unfoldable pub tag_cmp : {T : Type 0} → Subindex T → Subindex T → Ordering
tag_cmp a b = strcasecmp a.name b.name

-- The static variables of the file, with the lists `by_tag` of the global entries as pairs of a
-- post's id and a tag, and the ids of the entries that have been freed although they stand in the
-- global tree. An entry that is freed before it gets there leaves no trace.
pub record State (G T S : Type 0) : Type 0 where
  pub index_global : G
  pub index_by_time : T
  pub index_by_tag : S
  pub by_tag : List (ℕ × Bytes)
  pub freed : List ℕ
  pub memory : List Bool

pub data Errno : Type 0 where
  enomem eexist : Errno

-- How a piece of the code ends: it goes on, it returns an error, or an assertion fails.
pub data Outcome (S : Type 0) : Type 0 where
  done : S → Outcome S
  failed : Errno → S → Outcome S
  panic : Outcome S

infixl 5 ◌>>=◌
abbrev pub ◌>>=◌ : {S : Type 0} → Outcome S → (S → Outcome S) → Outcome S
done s >>= k = k s
failed e s >>= k = failed e s
panic >>= k = panic

abbrev pub key_of_id : ℕ → GlobalEntry
key_of_id i = record { id = i; post = 0; time = 0 }

abbrev pub time_entry : GlobalEntry → IndexEntry
time_entry global = record { global = global; name = none; kind = et_time }

abbrev pub global_of : (ℕ → Post) → ℕ → GlobalEntry
global_of heap p = record { id = (heap p).id; post = p; time = (heap p).time }

-- The two loops of index_get_posts, over the entries from the newest to the oldest.
unfoldable pub skip_listed : (ℕ → Post) → ℕ → List IndexEntry → List IndexEntry
skip_listed heap skip [] = []
skip_listed heap zero (e ∷ l) = e ∷ l
skip_listed heap (suc skip) (e ∷ l) =
    skip_listed heap (if (heap e.global.post).listed then skip else suc skip) l

abbrev pub passes : Option (Post → Bool) → Post → Bool
passes none p = true
passes (some pred) p = pred p

abbrev pub is_wanted : (ℕ → Post) → Option (Post → Bool) → IndexEntry → Bool
is_wanted heap pred e = (heap e.global.post).listed && passes pred (heap e.global.post)

unfoldable pub collect : (ℕ → Post) → Option (Post → Bool) → ℕ → List IndexEntry → List ℕ
collect heap pred nposts [] = []
collect heap pred zero (e ∷ l) = []
collect heap pred (suc nposts) (e ∷ l) = elim (is_wanted heap pred e) [
  | true ↦ e.global.post ∷ collect heap pred nposts l
  | false ↦ collect heap pred (suc nposts) l
]

module _ (entries : RbApi IndexEntry index_cmp) (globals : RbApi GlobalEntry global_index_cmp)
    (subs : RbApi (Subindex entries.Tree) tag_cmp) where
  abbrev pub Index : Type 0
  Index = State globals.Tree entries.Tree subs.Tree

  -- init_post_index, with the results of the coming allocations
  unfoldable pub init_post_index : List Bool → Index
  init_post_index memory = record {
    index_global = globals.create;
    index_by_time = entries.create;
    index_by_tag = subs.create;
    by_tag = [];
    freed = [];
    memory = memory;
  }

  -- mem_cache_alloc
  abbrev pub alloc_from : List Bool → Index → Outcome Index
  alloc_from [] st = done st
  alloc_from (true ∷ m) st = done (record st { memory = m })
  alloc_from (false ∷ m) st = failed enomem (record st { memory = m })

  abbrev pub alloc : Index → Outcome Index
  alloc st = alloc_from st.memory st

  abbrev pub key_of_tag : Bytes → Subindex entries.Tree
  key_of_tag tag = record { name = tag; subindex = entries.create }

  unfoldable pub index_lookup_post : Index → ℕ → Option ℕ
  index_lookup_post st postid = elim (globals.find st.index_global (key_of_id postid)) [
    | none ↦ none
    | some g ↦ some g.post
  ]

  abbrev pub get_subindex : Index → Bytes → Option entries.Tree
  get_subindex st tagname = elim (subs.find st.index_by_tag (key_of_tag tagname)) [
    | none ↦ none
    | some s ↦ some s.subindex
  ]

  -- Find the subindex of a tag, or allocate one if it does not exist.
  unfoldable pub ensure_sub : Bytes → Index → Outcome Index
  ensure_sub tag st = elim (subs.find st.index_by_tag (key_of_tag tag)) [
    | some s ↦ done st
    | none ↦ alloc st >>= λ st'.
        done (record st' { index_by_tag = subs.insert st'.index_by_tag (key_of_tag tag) })
  ]

  -- Insert the entry into the subindex that has been found, and append it to the list `by_tag`.
  abbrev pub add_to_sub : GlobalEntry → Bytes → Index → Subindex entries.Tree → Outcome Index
  add_to_sub global tag st sub =
      let e : IndexEntry = record { global = global; name = some tag; kind = et_tag } in
      elim (entries.find sub.subindex e) [
        | some _ ↦ panic
        | none ↦ done (record st {
          index_by_tag =
              subs.update st.index_by_tag (record sub { subindex = entries.insert sub.subindex e });
          by_tag = st.by_tag ++ (global.id, tag) ∷ [];
        })
      ]

  unfoldable pub add_tag_entry : GlobalEntry → Bytes → Index → Outcome Index
  add_tag_entry global tag st = elim (subs.find st.index_by_tag (key_of_tag tag)) [
    | none ↦ panic
    | some sub ↦ add_to_sub global tag st sub
  ]

  unfoldable pub insert_post_tags : GlobalEntry → List Bytes → Index → Outcome Index
  unfolding ensure_sub add_tag_entry
  insert_post_tags global [] st = done st
  insert_post_tags global (tag ∷ tags) st =
      ensure_sub tag st >>= alloc >>= add_tag_entry global tag >>= insert_post_tags global tags

  -- The clean-up at err_free_tags: the by-time entry goes, and the global entry's memory.
  abbrev pub free_tags : GlobalEntry → Outcome Index → Outcome Index
  free_tags global (done st) = done st
  free_tags global (failed e st) = failed e (record st {
    index_by_time = entries.remove st.index_by_time (time_entry global);
    freed = global.id ∷ st.freed;
  })
  free_tags global panic = panic

  abbrev pub insert_by_time : GlobalEntry → Index → Outcome Index
  insert_by_time global st = elim (entries.find st.index_by_time (time_entry global)) [
    | some _ ↦ panic
    | none ↦
        done (record st { index_by_time = entries.insert st.index_by_time (time_entry global) })
  ]

  abbrev pub insert_locked : GlobalEntry → List Bytes → Index → Outcome Index
  insert_locked global tags st = elim (globals.find st.index_global global) [
    | some _ ↦ failed eexist st
    | none ↦
        insert_by_time global (record st { index_global = globals.insert st.index_global global })
        >>= λ st'. free_tags global (insert_post_tags global tags st')
  ]

  unfoldable pub index_insert_post : (ℕ → Post) → ℕ → Index → Outcome Index
  unfolding insert_post_tags
  index_insert_post heap p st =
      alloc st >>= alloc >>= insert_locked (global_of heap p) (heap p).tags

  abbrev pub tree_of : Index → Option Bytes → Option entries.Tree
  tree_of st none = some st.index_by_time
  tree_of st (some tagname) = get_subindex st tagname

  -- The posts written to the array, in order; its length is the result.
  unfoldable pub index_get_posts :
      Index → (ℕ → Post) → Option Bytes → Option (Post → Bool) → ℕ → ℕ → List ℕ
  unfolding skip_listed collect
  index_get_posts st heap tagname pred skip nposts = elim (tree_of st tagname) [
    | none ↦ []
    | some tree ↦ collect heap pred nposts (skip_listed heap skip (reverse (entries.to_list tree)))
  ]

  -- rb_numnodes
  abbrev pub numnodes : Subindex entries.Tree → ℕ
  numnodes s = length (entries.to_list s.subindex)

  unfoldable pub count_min : ℕ → List (Subindex entries.Tree) → ℕ
  count_min cmin [] = cmin
  count_min cmin (s ∷ l) = count_min (min cmin (numnodes s)) l

  unfoldable pub count_max : ℕ → List (Subindex entries.Tree) → ℕ
  count_max cmax [] = cmax
  count_max cmax (s ∷ l) = count_max (max cmax (numnodes s)) l

  -- The callbacks thread a private state; `init` also says whether it succeeded.
  unfoldable pub step_all {ℓ} :
      {P : Type ℓ} → (P → Bytes → ℕ → ℕ → ℕ → P) → ℕ → ℕ → List (Subindex entries.Tree) → P → P
  step_all step cmin cmax [] private = private
  step_all step cmin cmax (s ∷ l) private =
      step_all step cmin cmax l (step private s.name (numnodes s) cmin cmax)

  abbrev pub run_steps {ℓ} :
      {P : Type ℓ} → Option (P → Bytes → ℕ → ℕ → ℕ → P) → List (Subindex entries.Tree) → P → P
  run_steps none l private = private
  run_steps (some step) l private =
      step_all step (count_min (2 ^ 64 - 1) l) (count_max 0 l) l private

  abbrev pub run_init {ℓ} : {P : Type ℓ} → Option (P → ℕ → P × Bool) → ℕ → P → P × Bool
  run_init none ntags private = (private, true)
  run_init (some init) ntags private = init private ntags

  unfoldable pub index_for_each_tag {ℓ} :
      {P : Type ℓ} → Index → Option (P → ℕ → P × Bool) → Option (P → Bytes → ℕ → ℕ → ℕ → P) → P → P
  unfolding step_all count_min count_max
  index_for_each_tag st init step private =
      let tags = subs.to_list st.index_by_tag in
      let (private', ok) = run_init init (length tags) private in
      if ok then run_steps step tags private' else private'
