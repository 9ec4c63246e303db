-- ===== src/Index/Insert/Errors.antt =====
-- The error paths of index_insert_post.
use blahgd.Prelude.{
  ℕ, ◌≡◌, refl, sym, ap, ◌∙◌, Bool, true, false, [], ◌∷◌, List, Option, none, some, Bytes,
  All-map_imp, any,
}
use blahgd.Extern.Rb.{RbApi, find_eq, insert_sorted}
use blahgd.Index.{
  Post, GlobalEntry, IndexEntry, Subindex, done, failed, enomem, eexist, index_cmp,
  global_index_cmp, tag_cmp, key_of_id, index_lookup_post, insert_post_tags, time_entry, global_of,
  insert_by_time, insert_locked, index_insert_post, ensure_sub, alloc, alloc_from,
}
use blahgd.Extern.Sorted.{find_eq-insert_sorted_self}
use blahgd.Index.Insert.{
  HasOtherId-of_IsKnown, find_eq_fresh, any_of_find_eq, Ix, find_sub, alloc-nil, IsConsistent,
  global_index_cmp_of_id, has_id,
}
use blahgd.Index.Insert.Whole.{find_eq_same_id, post_of, lookup_lem, missing, ids}

post_of-some :
    (o : Option GlobalEntry) (q : ℕ) → post_of o ≡ some q → (g : GlobalEntry) × (o ≡ some g)
post_of-some none q h = cc
post_of-some (some g) q h = (g, refl)

module _ (entries : RbApi IndexEntry index_cmp) (globals : RbApi GlobalEntry global_index_cmp)
    (subs : RbApi (Subindex entries.Tree) tag_cmp) where
  abbrev St : Type 0
  St = Ix entries globals subs

  -- When no allocation fails, a post whose id is in the index already is refused with EEXIST, and
  -- the index stays as it is.
  pub index_insert_post_exists :
      (heap : ℕ → Post) (p q : ℕ) (st : St)
      → st.memory ≡ []
      → index_lookup_post entries globals subs st (heap p).id ≡ some q
      → index_insert_post entries globals subs heap p st ≡ failed eexist st
  unfolding index_insert_post
  index_insert_post_exists heap p q st mem h =
      let g = global_of heap p in
      let (x, e) =
        post_of-some (find_eq global_index_cmp (key_of_id g.id) (ids entries globals subs st)) q
          (sym (lookup_lem entries globals subs st g.id) ∙ h) in
      let found : globals.find st.index_global g ≡ some x =
        globals.find_lem st.index_global g
        ∙ (find_eq_same_id g (key_of_id g.id) (ids entries globals subs st) refl ∙ e) in
      rw (alloc-nil entries globals subs st mem)
        (rw (alloc-nil entries globals subs st mem) (rw (found, insert_locked) refl))

  -- In a consistent index without the post's id, when the two first allocations succeed and the
  -- one for the subindex of the post's first tag, a new tag, fails, the insertion returns ENOMEM and
  -- frees the global entry, but a lookup of the post's id still finds that entry.
  pub index_insert_post_dangling :
      (heap : ℕ → Post) (p : ℕ) (st : St) (tag : Bytes) (tags : List Bytes) (m : List Bool)
      → IsConsistent entries globals subs st
      → st.memory ≡ true ∷ true ∷ false ∷ m
      → (heap p).tags ≡ tag ∷ tags
      → find_sub entries globals subs st tag ≡ none
      → index_lookup_post entries globals subs st (heap p).id ≡ none
      → (st' : St) × (index_insert_post entries globals subs heap p st ≡ failed enomem st')
        × (st'.freed ≡ (heap p).id ∷ st.freed)
        × (index_lookup_post entries globals subs st' (heap p).id ≡ some p)
  unfolding index_insert_post insert_post_tags ensure_sub find_sub
  index_insert_post_dangling heap p st tag tags m c mem first new absent =
      let g = global_of heap p in
      let no_g : globals.find st.index_global g ≡ none = missing entries globals subs st g absent in
      let no_id : any (has_id g.id) (ids entries globals subs st) ≡ false =
        any_of_find_eq g (ids entries globals subs st)
          (sym (globals.find_lem st.index_global g) ∙ no_g) in
      let no_time : entries.find st.index_by_time (time_entry g) ≡ none =
        entries.find_lem st.index_by_time (time_entry g)
        ∙ find_eq_fresh (time_entry g) (entries.to_list st.index_by_time) (
            All-map_imp _ _ (entries.to_list st.index_by_time)
              (HasOtherId-of_IsKnown g.id (ids entries globals subs st) no_id) c.times) in
      let first_alloc : alloc entries globals subs st
          ≡ done (record st { memory = true ∷ false ∷ m }) =
        ap (λ l. alloc_from entries globals subs l st) mem in
      let st' : St = record st {
        index_global = globals.insert st.index_global g;
        index_by_time =
            entries.remove (entries.insert st.index_by_time (time_entry g)) (time_entry g);
        freed = g.id ∷ st.freed;
        memory = m;
      } in
      (
        st',
        rw first_alloc (
            rw (no_g, insert_locked)
              (rw (no_time, insert_by_time)
                (rw first (rw (new, insert_post_tags, ensure_sub) refl)))),
        refl,
        lookup_lem entries globals subs st' g.id
            ∙ (ap (λ l. post_of (find_eq global_index_cmp (key_of_id g.id) l))
                  (globals.to_list-insert st.index_global g no_g)
                ∙ ap post_of (
                    find_eq_same_id (key_of_id g.id) g
                      (insert_sorted global_index_cmp g (ids entries globals subs st)) refl
                    ∙ find_eq-insert_sorted_self global_index_cmp g (ids entries globals subs st)
                        (global_index_cmp_of_id g g refl)
                        (sym (globals.find_lem st.index_global g) ∙ no_g))),
      )
