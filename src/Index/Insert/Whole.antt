-- ===== src/Index/Insert/Whole.antt =====
-- index_insert_post as a whole: the by-id and by-time indices around the loop over the tags.
use blahgd.Prelude.{
  ℕ, ◌≡◌, ◌≢◌, refl, sym, ap, ◌∙◌, true, false, [], ◌∷◌, ◌++◌, List, Option, none, some, arith, any,
  All, Bytes, map, All-map_imp,
}
use blahgd.Extern.Rb.{RbApi, find_eq, insert_sorted}
use blahgd.Index.{
  Post, GlobalEntry, IndexEntry, Subindex, done, index_cmp, global_index_cmp, tag_cmp, key_of_id,
  key_of_tag, index_lookup_post, time_entry, global_of, insert_by_time, insert_locked,
  index_insert_post,
}
use blahgd.Extern.Sorted.{
  All-insert_sorted, any-insert_sorted, find_eq-insert_sorted_self, find_eq-insert_sorted_ne,
  find_eq-All,
}
use blahgd.Index.Insert.{
  has_id, IsKnown, AreDistinct, HasOtherId-of_IsKnown, find_eq_fresh, any_of_find_eq, Ix, Sub,
  sub_entries, find_sub, IsFresh, alloc-nil, SubKnown, IsTagged, IsConsistent, find_sub_lem,
  global_index_cmp_of_id, global_index_cmp_id, listed_in, added_entry, spelling,
}
use blahgd.Index.Insert.Tags.{insert_post_tags-Tagged}

IsKnown-insert :
    (g : GlobalEntry) (gs : List GlobalEntry) (e : IndexEntry)
    → IsKnown gs e
    → IsKnown (insert_sorted global_index_cmp g gs) e
IsKnown-insert g gs e h =
    any-insert_sorted global_index_cmp (has_id e.global.id) g gs ∙ ground arith

pub find_eq_same_id :
    (a b : GlobalEntry) (gs : List GlobalEntry)
    → a.id ≡ b.id
    → find_eq global_index_cmp a gs ≡ find_eq global_index_cmp b gs
unfolding global_index_cmp
find_eq_same_id a b [] h = refl
find_eq_same_id a b (g ∷ gs) h = ground (arith, find_eq_same_id a b gs h)

abbrev pub post_of : Option GlobalEntry → Option ℕ
post_of none = none
post_of (some g) = some g.post

post_of-none : (o : Option GlobalEntry) → post_of o ≡ none → o ≡ none
post_of-none none h = refl
post_of-none (some g) h = cc

module _ (entries : RbApi IndexEntry index_cmp) (globals : RbApi GlobalEntry global_index_cmp)
    (subs : RbApi (Subindex entries.Tree) tag_cmp) where
  abbrev St : Type 0
  St = Ix entries globals subs

  abbrev pub ids : St → List GlobalEntry
  ids st = globals.to_list st.index_global

  -- What one insertion leaves behind.
  pub record Inserted (heap : ℕ → Post) (p : ℕ) (st st' : St) : Type 0 where
    pub consistent : IsConsistent entries globals subs st'
    pub present : index_lookup_post entries globals subs st' (heap p).id ≡ some p
    pub others :
        (i : ℕ)
        → i ≢ (heap p).id
        → index_lookup_post entries globals subs st' i ≡ index_lookup_post entries globals subs st i
    pub by_time :
        entries.to_list st'.index_by_time
        ≡ insert_sorted index_cmp (time_entry (global_of heap p)) (entries.to_list st.index_by_time)
    pub tagged :
        All
          (λ t. IsTagged entries globals subs (heap p).id (find_sub entries globals subs st' t))
          (heap p).tags
    pub listed :
        (u : Bytes)
        → listed_in entries globals subs (find_sub entries globals subs st' u)
          ≡ added_entry
              (global_of heap p)
              (spelling u (heap p).tags)
              (listed_in entries globals subs (find_sub entries globals subs st u))
    pub xrefs : st'.by_tag ≡ st.by_tag ++ map (λ t. ((heap p).id, t)) (heap p).tags
    pub freed : st'.freed ≡ st.freed
    pub memory : st'.memory ≡ []

  pub lookup_lem :
      (st : St) (i : ℕ)
      → index_lookup_post entries globals subs st i
        ≡ post_of (find_eq global_index_cmp (key_of_id i) (ids st))
  unfolding index_lookup_post
  lookup_lem st i = ground (arith, globals.find_lem st.index_global (key_of_id i))

  pub missing :
      (st : St) (g : GlobalEntry)
      → index_lookup_post entries globals subs st g.id ≡ none
      → globals.find st.index_global g ≡ none
  missing st g h =
      globals.find_lem st.index_global g
      ∙ (find_eq_same_id g (key_of_id g.id) (ids st) refl
          ∙ post_of-none (find_eq global_index_cmp (key_of_id g.id) (ids st))
              (sym (lookup_lem st g.id) ∙ h))

  IsFresh-tags :
      (i : ℕ) (st : St)
      → any (has_id i) (ids st) ≡ false
      → IsConsistent entries globals subs st
      → (tags : List Bytes)
      → All (λ u. IsFresh entries globals subs i (find_sub entries globals subs st u)) tags
  IsFresh-tags i st h c [] = tt
  IsFresh-tags i st h c (u ∷ tags) =
      (one (find_sub entries globals subs st u) refl, IsFresh-tags i st h c tags)
    where
      one :
          (o : Option (Sub entries globals subs))
          → find_sub entries globals subs st u ≡ o
          → IsFresh entries globals subs i o
      one none e = tt
      one (some s) e =
          All-map_imp _ _ (sub_entries entries globals subs s) (HasOtherId-of_IsKnown i (ids st) h)
            (find_eq-All tag_cmp (SubKnown entries globals subs (ids st))
              (key_of_tag entries globals subs u) (subs.to_list st.index_by_tag) s c.tags
              (sym (find_sub_lem entries globals subs st u) ∙ e))

  -- When no allocation fails, a post whose id is not in a consistent index and whose tags are
  -- pairwise distinct is inserted: no assertion fails, the result is consistent, the post is found
  -- by its id and stands in the index by time and in that of each of its tags, every other id is
  -- looked up as before, and nothing is freed.
  pub index_insert_post-Inserted :
      (heap : ℕ → Post) (p : ℕ) (st : St)
      → IsConsistent entries globals subs st
      → st.memory ≡ []
      → AreDistinct (heap p).tags
      → index_lookup_post entries globals subs st (heap p).id ≡ none
      → (st' : St) × (index_insert_post entries globals subs heap p st ≡ done st')
        × Inserted heap p st st'
  unfolding index_insert_post find_sub
  index_insert_post-Inserted heap p st c mem distinct absent =
      let g = global_of heap p in
      let no_g : globals.find st.index_global g ≡ none = missing st g absent in
      let no_id : any (has_id g.id) (ids st) ≡ false =
        any_of_find_eq g (ids st) (sym (globals.find_lem st.index_global g) ∙ no_g) in
      let no_time : entries.find st.index_by_time (time_entry g) ≡ none =
        entries.find_lem st.index_by_time (time_entry g)
        ∙ find_eq_fresh (time_entry g) (entries.to_list st.index_by_time) (
            All-map_imp _ _ (entries.to_list st.index_by_time)
              (HasOtherId-of_IsKnown g.id (ids st) no_id) c.times) in
      let ins = globals.to_list-insert st.index_global g no_g in
      let ins_time = entries.to_list-insert st.index_by_time (time_entry g) no_time in
      let st1 : St = record st {
        index_global = globals.insert st.index_global g;
        index_by_time = entries.insert st.index_by_time (time_entry g);
      } in
      let member : any (has_id g.id) (ids st1) ≡ true =
        rw ins (any-insert_sorted global_index_cmp (has_id g.id) g (ids st) ∙ ground arith) in
      let known : All (SubKnown entries globals subs (ids st1)) (subs.to_list st.index_by_tag) =
        rw ins (
          All-map_imp _ _ (subs.to_list st.index_by_tag)
            (λ s. All-map_imp _ _ (sub_entries entries globals subs s) (IsKnown-insert g (ids st)))
            c.tags) in
      let (st2, r, t) =
        insert_post_tags-Tagged entries globals subs (ids st1) g (heap p).tags st1 mem distinct
          (IsFresh-tags g.id st no_id c (heap p).tags) known member in
      let ids2 : ids st2 ≡ insert_sorted global_index_cmp g (ids st) =
        ap globals.to_list t.global ∙ ins in
      let time2 : entries.to_list st2.index_by_time
          ≡ insert_sorted index_cmp (time_entry g) (entries.to_list st.index_by_time) =
        ap entries.to_list t.time ∙ ins_time in
      (
        st2,
        rw (alloc-nil entries globals subs st mem) (
            rw (alloc-nil entries globals subs st mem)
              (rw (no_g, insert_locked) (rw (no_time, insert_by_time) (rw r refl)))),
        record {
          consistent = record {
            times = rw time2 (
                rw ids2 (
                  All-insert_sorted index_cmp (IsKnown (insert_sorted global_index_cmp g (ids st)))
                    (time_entry g) (entries.to_list st.index_by_time) (rw ins at member)
                    (All-map_imp _ _ (entries.to_list st.index_by_time) (IsKnown-insert g (ids st))
                      c.times)));
            tags = rw (ap globals.to_list t.global) t.all;
          };
          present =
              lookup_lem st2 g.id
              ∙ (ap (λ l. post_of (find_eq global_index_cmp (key_of_id g.id) l)) ids2
                  ∙ ap post_of (
                      find_eq_same_id (key_of_id g.id) g (insert_sorted global_index_cmp g (ids st))
                        refl
                      ∙ find_eq-insert_sorted_self global_index_cmp g (ids st)
                          (global_index_cmp_of_id g g refl)
                          (sym (globals.find_lem st.index_global g) ∙ no_g)));
          others = λ i ne.
              lookup_lem st2 i
              ∙ (ap (λ l. post_of (find_eq global_index_cmp (key_of_id i) l)) ids2
                  ∙ (ap post_of (
                        find_eq-insert_sorted_ne global_index_cmp g (key_of_id i) (ids st)
                          (λ e. ne (sym (global_index_cmp_id g (key_of_id i) e))))
                      ∙ sym (lookup_lem st i)));
          by_time = time2;
          tagged = t.tagged;
          listed = t.listed;
          xrefs = t.xrefs;
          freed = t.freed;
          memory = t.memory;
        },
      )
