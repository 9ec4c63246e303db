-- ===== src/Sidebar/Cloud.antt =====
-- The tag cloud holds the tags with more than one post, in an array that is never overrun.
use blahgd.Prelude.{
  ℕ, suc, ◌+◌, ◌-◌, ◌^◌, ◌≤◌, ◌<◌, ◌≡◌, refl, Bool, true, false, List, [], ◌∷◌, some, arith, ltb,
  leb, if◌then◌else◌, length, length-append, Bytes, All, All-append, Bool-cases, inl, inr,
}
use blahgd.Extern.Rb.{RbApi}
use blahgd.Index.{
  GlobalEntry, IndexEntry, Subindex, index_cmp, global_index_cmp, tag_cmp, Index, numnodes,
  count_min, count_max, step_all, index_for_each_tag,
}
use blahgd.Sidebar.{
  FloatApi, Sizes, TagVars, State, after_calls, append_tag, tag_vars, tagcloud_init, tagcloud_step,
  tagcloud,
}

-- No write is past the end, and there is room for `left` tags more; each tag has more than one post.
pub record HasRoom (cells left : ℕ) (s : State) : Type 0 where
  pub array : s.cells ≡ some cells
  pub room : length s.cloud + left ≤ cells
  pub safe : s.overrun ≡ false
  pub interesting : All (λ v. 1 < v.count) s.cloud

module _ (float : FloatApi) (sizes : Sizes) where
  append_tag-HasRoom :
      (cells left : ℕ) (s : State) (v : TagVars)
      → 1 < v.count
      → HasRoom cells (suc left) s
      → HasRoom cells left (append_tag s v s.cells)
  append_tag-HasRoom cells left s v h r =
      let fits : ltb (length s.cloud) cells ≡ true = ground (arith, r.room) in
      rw (r.array, fits)
        (record {
          array = refl;
          room = omega (arith, r.room, length-append {0} s.cloud (v ∷ []));
          safe = r.safe;
          interesting = All-append (λ u. 1 < u.count) s.cloud (v ∷ []) r.interesting (h, tt);
        })

  HasRoom-less :
      (cells left : ℕ) (s : State) (l : List Bool)
      → HasRoom cells (suc left) s
      → HasRoom cells left (record s { results = l })
  HasRoom-less cells left s l r = record {
    array = r.array;
    room = omega (arith, r.room);
    safe = r.safe;
    interesting = r.interesting;
  }

  tagcloud_step-HasRoom :
      (cells left : ℕ) (s : State) (name : Bytes) (count cmin cmax : ℕ)
      → HasRoom cells (suc left) s
      → HasRoom cells left (tagcloud_step float sizes s name count cmin cmax)
  unfolding tagcloud_step
  tagcloud_step-HasRoom cells left s name count cmin cmax r = elim (Bool-cases (leb count 1)) [
    | inl boring ↦ rw boring (HasRoom-less cells left s s.results r)
    | inr more ↦ rw more (go (after_calls 4 s.results) (ground arith))
  ]
    where
      go :
          (c : Bool × List Bool)
          → 1 < count
          → HasRoom cells left (
              if c.0
              then append_tag
                  (record s { results = c.1 })
                  (tag_vars float sizes name count cmin cmax)
                  s.cells
              else record s { results = c.1 })
      go (true, l) h =
          append_tag-HasRoom cells left (record s { results = l })
            (tag_vars float sizes name count cmin cmax) h
            (record { array = r.array; room = r.room; safe = r.safe; interesting = r.interesting })
      go (false, l) h = HasRoom-less cells left s l r

  module _ (entries : RbApi IndexEntry index_cmp) (globals : RbApi GlobalEntry global_index_cmp)
      (subs : RbApi (Subindex entries.Tree) tag_cmp) where
    abbrev Sub : Type 0
    Sub = Subindex entries.Tree

    step_all-HasRoom :
        (cells cmin cmax : ℕ) (l : List Sub) (s : State)
        → HasRoom cells (length l) s
        → HasRoom cells 0 (step_all entries globals subs (tagcloud_step float sizes) cmin cmax l s)
    unfolding step_all
    step_all-HasRoom cells cmin cmax [] s r = r
    step_all-HasRoom cells cmin cmax (t ∷ l) s r =
        step_all-HasRoom cells cmin cmax l
          (tagcloud_step float sizes s t.name (numnodes entries globals subs t) cmin cmax)
          (tagcloud_step-HasRoom cells (length l) s t.name (numnodes entries globals subs t) cmin
            cmax r)

    -- The array of the tag cloud is never written past its end, there is at most one cell in use for
    -- each tag, and each tag in it has more than one post, whichever calls fail.
    pub tagcloud_bounds :
        (st : Index entries globals subs) (results : List Bool)
        → ((tagcloud float sizes entries globals subs st results).overrun ≡ false)
          × (length (tagcloud float sizes entries globals subs st results).cloud
              ≤ length (subs.to_list st.index_by_tag))
          × All (λ v. 1 < v.count) (tagcloud float sizes entries globals subs st results).cloud
    unfolding tagcloud index_for_each_tag tagcloud_init
    tagcloud_bounds st [] =
        let tags = subs.to_list st.index_by_tag in
        let r =
          step_all-HasRoom (length tags) (count_min entries globals subs (2 ^ 64 - 1) tags)
            (count_max entries globals subs 0 tags) tags
            (record { results = []; cells = some (length tags); cloud = []; overrun = false })
            (record { array = refl; room = omega arith; safe = refl; interesting = tt }) in
        (r.safe, omega (arith, r.room), r.interesting)
    tagcloud_bounds st (true ∷ l) =
        let tags = subs.to_list st.index_by_tag in
        let r =
          step_all-HasRoom (length tags) (count_min entries globals subs (2 ^ 64 - 1) tags)
            (count_max entries globals subs 0 tags) tags
            (record { results = l; cells = some (length tags); cloud = []; overrun = false })
            (record { array = refl; room = omega arith; safe = refl; interesting = tt }) in
        (r.safe, omega (arith, r.room), r.interesting)
    tagcloud_bounds st (false ∷ l) = (refl, omega arith, tt)
