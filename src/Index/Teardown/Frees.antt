-- ===== src/Index/Teardown/Frees.antt =====
-- free_all_posts on an index that posts have been inserted into.
use mathlib.Core.List.Permᴰ.{symm as Permᴰ_symm}
use blahgd.Prelude.{
  ℕ, ◌+◌, ◌≡◌, sym, ap, ◌∙◌, arith, List, [], ◌∷◌, some, Bool, length, total, subst, All-Permᴰ, map,
}
use blahgd.Extern.Rb.{RbApi, RbDestroy}
use blahgd.Index.{
  Post, GlobalEntry, IndexEntry, Subindex, Outcome, done, index_cmp, global_index_cmp, tag_cmp,
  index_insert_post, init_post_index, ◌>>=◌,
}
use blahgd.Index.Insert.{Ix}
use blahgd.Index.Teardown.{Freeing, and_then, free_index, free_global_index, free_all_posts}
use blahgd.Index.Teardown.Totals.{total-Permᴰ}
use blahgd.Index.Teardown.Linked.{
  hit_entry, one, IsTimeEntry, is_post, Ends, of_sub, HasTagEntries, Ends-bind,
}
use blahgd.Index.Teardown.Held.{tag_count, Held, index_insert_post-Held, init_post_index-Held}
use blahgd.Index.Teardown.Loops.{nothing, time_entries, global_entries, length-total, sub_entries}

module _ (entries : RbApi IndexEntry index_cmp) (globals : RbApi GlobalEntry global_index_cmp)
    (subs : RbApi (Subindex entries.Tree) tag_cmp) (entry_nodes : RbDestroy entries)
    (global_nodes : RbDestroy globals) (sub_nodes : RbDestroy subs) where
  abbrev St : Type 0
  St = Ix entries globals subs

  -- free_all_posts on an index that holds `ps`.
  abbrev pub Frees : (ℕ → Post) → List ℕ → St → Type 0
  Frees heap ps st =
      (fr : Freeing) × (free_all_posts entries globals subs entry_nodes global_nodes sub_nodes st
        ≡ some fr)
      × (fr.by_tag ≡ [])
      × ((p : ℕ) → total (is_post p) fr.posts ≡ total (is_post p) ps)
      × (fr.posts ≡ map (λ g. g.post) fr.globals)
      × (length fr.entries ≡ length ps + tag_count entries globals subs heap ps)
      × (length fr.subs ≡ length (subs.to_list st.index_by_tag))

  Held-Frees :
      (heap : ℕ → Post) (ps : List ℕ) (st : St)
      → Held entries globals subs heap ps st
      → Frees heap ps st
  unfolding free_all_posts
  Held-Frees heap ps st h =
      let st0 : Freeing = record {
        by_tag = st.by_tag;
        posts = [];
        globals = [];
        entries = [];
        subs = [];
      } in
      let sp = sub_nodes.nodes-Permᴰ st.index_by_tag in
      let tp = entry_nodes.nodes-Permᴰ st.index_by_time in
      let gp = global_nodes.nodes-Permᴰ st.index_global in
      let ss = sub_nodes.nodes st.index_by_tag in
      let sums : (f : IndexEntry → ℕ)
          → total (of_sub entries globals subs f) ss
            ≡ total (of_sub entries globals subs f) (subs.to_list st.index_by_tag) =
        λ f. total-Permᴰ (of_sub entries globals subs f) sp in
      let (st1, r1, d1, n1, p1, q1, s1) =
        sub_entries entries globals subs entry_nodes global_nodes sub_nodes ss st0
          (All-Permᴰ (HasTagEntries entries globals subs) (Permᴰ_symm sp) h.linked.kinds)
          (λ x. omega (arith, h.linked.linked x, sums (hit_entry x))) in
      let (st2, r2, b2, n2, p2, q2, s2) =
        time_entries (entry_nodes.nodes st.index_by_time) st1
          (All-Permᴰ IsTimeEntry (Permᴰ_symm tp) h.kinds) in
      let empty : st2.by_tag ≡ [] =
        b2 ∙ nothing st1.by_tag (λ x. omega (arith, d1 x, h.linked.linked x, sums (hit_entry x))) in
      let (st3, r3, b3, c3, g3, e3, s3) =
        global_entries (global_nodes.nodes st.index_global) st2 empty
          (p2 ∙ p1 ∙ sym (ap (map (λ g. g.post)) (q2 ∙ q1))) in
      (
        st3,
        ap
              (λ o. and_then o (λ u.
                and_then (free_index (entry_nodes.nodes st.index_by_time) u)
                  (λ v. free_global_index (global_nodes.nodes st.index_global) v)))
              r1
            ∙ (ap (λ o. and_then o (free_global_index (global_nodes.nodes st.index_global))) r2
                ∙ r3),
        b3,
        λ p. omega (
          arith,
          c3 p,
          ap (total (is_post p)) (p2 ∙ p1),
          total-Permᴰ (λ g. is_post p g.post) gp,
          h.posts p,
        ),
        g3,
        omega (
          arith,
          ap length e3,
          n2,
          n1,
          sums one,
          total-Permᴰ one tp,
          h.counted,
          h.linked.counted,
        ),
        omega (
          arith,
          ap length (s3 ∙ s2),
          s1,
          total-Permᴰ (λ s. 1) sp,
          length-total ss,
          length-total (subs.to_list st.index_by_tag),
        ),
      )

  -- The posts of a list, inserted into a new index, the last one first.
  abbrev pub inserted : (ℕ → Post) → List Bool → List ℕ → Outcome St
  inserted heap memory [] = done (init_post_index entries globals subs memory)
  inserted heap memory (p ∷ ps) =
      inserted heap memory ps >>= index_insert_post entries globals subs heap p

  inserted-Held :
      (heap : ℕ → Post) (memory : List Bool) (ps : List ℕ)
      → Ends (Held entries globals subs heap ps) (inserted heap memory ps)
  inserted-Held heap memory [] = init_post_index-Held entries globals subs heap memory
  inserted-Held heap memory (p ∷ ps) =
      Ends-bind (Held entries globals subs heap ps) (Held entries globals subs heap (p ∷ ps))
        (inserted heap memory ps) (index_insert_post entries globals subs heap p)
        (inserted-Held heap memory ps)
        (λ st h. index_insert_post-Held entries globals subs heap p ps st h)

  -- After posts have been inserted into a new index without an error, free_all_posts frees everything
  -- and no assertion fails, in whatever order the trees give up their nodes: the reference to each
  -- post is put as often as it was inserted, with its entry by id; all the entries by time and by tag
  -- are freed, and each was on the list that it is taken off; so are all the tags' indices, and no
  -- entry is left on a list `by_tag` when the list is destroyed.
  pub free_all_posts-Frees :
      (heap : ℕ → Post) (memory : List Bool) (ps : List ℕ) (st : St)
      → inserted heap memory ps ≡ done st
      → Frees heap ps st
  free_all_posts-Frees heap memory ps st h =
      Held-Frees heap ps st
        (subst (Ends (Held entries globals subs heap ps)) h (inserted-Held heap memory ps))
