-- ===== src/Index/Tags.antt =====
-- index_for_each_tag: which calls of `step` it makes.
use blahgd.Prelude.{
  ℕ, ◌^◌, ◌-◌, ◌≤◌, ◌≡◌, sym, ◌∙◌, [], ◌∷◌, ◌++◌, List, none, some, arith, All, Bytes, map, min,
  max, append_assoc, append-nil,
}
use mathlib.Core.List.{map-map}
use blahgd.Extern.Rb.{RbApi}
use blahgd.Index.{
  GlobalEntry, IndexEntry, Subindex, index_cmp, global_index_cmp, tag_cmp, Index, numnodes,
  count_min, count_max, step_all, index_for_each_tag,
}

-- A call of the callback.
pub record Call : Type 0 where
  pub name : Bytes
  pub count : ℕ
  pub cmin : ℕ
  pub cmax : ℕ

-- The callback that keeps a log of its calls.
abbrev pub log_step : List Call → Bytes → ℕ → ℕ → ℕ → List Call
log_step calls name count cmin cmax =
    calls ++ record { name = name; count = count; cmin = cmin; cmax = cmax } ∷ []

abbrev pub IsWithin : Call → Type 0
IsWithin c = (c.cmin ≤ c.count) × (c.count ≤ c.cmax)

module _ (entries : RbApi IndexEntry index_cmp) (globals : RbApi GlobalEntry global_index_cmp)
    (subs : RbApi (Subindex entries.Tree) tag_cmp) where
  abbrev Sub : Type 0
  Sub = Subindex entries.Tree

  abbrev size : Sub → ℕ
  size = numnodes entries globals subs

  abbrev visit : ℕ → ℕ → Sub → Call
  visit cmin cmax s = record { name = s.name; count = size s; cmin = cmin; cmax = cmax }

  step_all-log :
      (cmin cmax : ℕ) (l : List Sub) (calls : List Call)
      → step_all entries globals subs log_step cmin cmax l calls ≡ calls ++ map (visit cmin cmax) l
  unfolding step_all
  step_all-log cmin cmax [] calls = sym (append-nil calls)
  step_all-log cmin cmax (s ∷ l) calls =
      step_all-log cmin cmax l (calls ++ visit cmin cmax s ∷ [])
      ∙ append_assoc calls (visit cmin cmax s ∷ []) (map (visit cmin cmax) l)

  count_min-le : (n : ℕ) (l : List Sub) → count_min entries globals subs n l ≤ n
  unfolding count_min
  count_min-le n [] = omega arith
  count_min-le n (s ∷ l) = omega (arith, count_min-le (min n (size s)) l)

  le-count_max : (n : ℕ) (l : List Sub) → n ≤ count_max entries globals subs n l
  unfolding count_max
  le-count_max n [] = omega arith
  le-count_max n (s ∷ l) = omega (arith, le-count_max (max n (size s)) l)

  within :
      (a b cmin cmax : ℕ) (l : List Sub)
      → cmin ≤ count_min entries globals subs a l
      → count_max entries globals subs b l ≤ cmax
      → All IsWithin (map (visit cmin cmax) l)
  unfolding count_min count_max
  within a b cmin cmax [] h k = tt
  within a b cmin cmax (s ∷ l) h k = (
    (
      omega (arith, count_min-le (min a (size s)) l),
      omega (arith, le-count_max (max b (size s)) l),
    ),
    within (min a (size s)) (max b (size s)) cmin cmax l h k,
  )

  -- Without an init callback, index_for_each_tag calls the step callback once for each tag, in the
  -- order of the tree, with the tag's name and number of entries, and every call's number of
  -- entries lies between the minimum and the maximum that all calls are given.
  pub index_for_each_tag-log :
      (st : Index entries globals subs)
      → (map
            (λ (c : Call). c.name)
            (index_for_each_tag entries globals subs st none (some log_step) [])
          ≡ map (λ (s : Sub). s.name) (subs.to_list st.index_by_tag))
        × (map
              (λ (c : Call). c.count)
              (index_for_each_tag entries globals subs st none (some log_step) [])
            ≡ map size (subs.to_list st.index_by_tag))
        × All IsWithin (index_for_each_tag entries globals subs st none (some log_step) [])
  unfolding index_for_each_tag
  index_for_each_tag-log st =
      let l = subs.to_list st.index_by_tag in
      let cmin = count_min entries globals subs (2 ^ 64 - 1) l in
      let cmax = count_max entries globals subs 0 l in
      let e = step_all-log cmin cmax l [] in
      (
        rw e (map-map _ _ l),
        rw e (map-map _ _ l),
        rw e (within (2 ^ 64 - 1) 0 cmin cmax l (omega arith) (omega arith)),
      )
