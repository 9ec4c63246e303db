-- ===== src/Index/Teardown/Held.antt =====
-- What the index of some posts holds, so far as its destruction depends on it. index_insert_post
-- keeps it.
use blahgd.Prelude.{
  ℕ, ◌+◌, ◌≡◌, refl, sym, ap, ◌∙◌, arith, List, [], ◌∷◌, none, All, Bool, length, total,
  Option-cases, inl, inr,
}
use blahgd.Extern.Rb.{RbApi}
use blahgd.Extern.Sorted.{All-insert_sorted}
use blahgd.Index.{
  Post, GlobalEntry, IndexEntry, Subindex, index_cmp, global_index_cmp, tag_cmp, index_insert_post,
  insert_locked, insert_by_time, alloc, time_entry, global_of, init_post_index,
}
use blahgd.Index.Insert.{Ix}
use blahgd.Index.Teardown.Totals.{total-insert_sorted}
use blahgd.Index.Teardown.Linked.{
  hit_entry, one, IsTimeEntry, is_post, Ends, Ends-bind, Ends-imp, of_sub, Linked, alloc-Ends,
  Linked-memory, tags-Linked, free_tags-Ends,
}

module _ (entries : RbApi IndexEntry index_cmp) (globals : RbApi GlobalEntry global_index_cmp)
    (subs : RbApi (Subindex entries.Tree) tag_cmp) where
  abbrev St : Type 0
  St = Ix entries globals subs

  module _ (heap : ℕ → Post) where
    abbrev pub tag_count : List ℕ → ℕ
    tag_count ps = total (λ p. length (heap p).tags) ps

    -- The index of the posts `ps`.
    pub record Held (ps : List ℕ) (st : St) : Type 0 where
      pub linked : Linked entries globals subs st.index_global st.index_by_time (tag_count ps) st
      pub kinds : All IsTimeEntry (entries.to_list st.index_by_time)
      pub counted : total one (entries.to_list st.index_by_time) ≡ length ps
      pub posts :
          (p : ℕ)
          → total (λ g. is_post p g.post) (globals.to_list st.index_global) ≡ total (is_post p) ps

    pub init_post_index-Held :
        (memory : List Bool) → Held [] (init_post_index entries globals subs memory)
    unfolding init_post_index
    init_post_index-Held memory = record {
      linked = record {
        linked =
            λ x. sym (ap (total (of_sub entries globals subs (hit_entry x))) subs.to_list-create);
        kinds = rw subs.to_list-create tt;
        counted = ap (total (of_sub entries globals subs one)) subs.to_list-create;
        global = refl;
        time = refl;
      };
      kinds = rw entries.to_list-create tt;
      counted = ap (total one) entries.to_list-create;
      posts = λ p. ap (total (λ g. is_post p g.post)) globals.to_list-create;
    }

    abbrev with_global : ℕ → St → St
    with_global p st = record st {
      index_global = globals.insert st.index_global (global_of heap p);
    }

    abbrev with_time : ℕ → St → St
    with_time p st = record st {
      index_by_time = entries.insert st.index_by_time (time_entry (global_of heap p));
    }

    -- The two trees with the new post, and the tags' side that belongs to them.
    tagged-Held :
        (p : ℕ) (ps : List ℕ) (st st' : St)
        → Held ps st
        → globals.find st.index_global (global_of heap p) ≡ none
        → entries.find st.index_by_time (time_entry (global_of heap p)) ≡ none
        → Linked entries globals subs
            (with_global p st).index_global
            (with_time p st).index_by_time
            (tag_count ps + length (heap p).tags)
            st'
        → Held (p ∷ ps) st'
    tagged-Held p ps st st' h e k l =
        let gl =
          ap globals.to_list l.global
          ∙ globals.to_list-insert st.index_global (global_of heap p) e in
        let ti =
          ap entries.to_list l.time
          ∙ entries.to_list-insert st.index_by_time (time_entry (global_of heap p)) k in
        record {
          linked = record {
            linked = l.linked;
            kinds = l.kinds;
            counted = l.counted ∙ omega arith;
            global = refl;
            time = refl;
          };
          kinds = rw ti (
              All-insert_sorted index_cmp IsTimeEntry (time_entry (global_of heap p))
                (entries.to_list st.index_by_time) refl h.kinds);
          counted =
              ap (total one) ti
              ∙ omega (
                arith,
                total-insert_sorted index_cmp one (time_entry (global_of heap p))
                    (entries.to_list st.index_by_time),
                h.counted,
              );
          posts = λ q.
              ap (total (λ g. is_post q g.post)) gl
              ∙ omega (
                arith,
                total-insert_sorted global_index_cmp (λ g. is_post q g.post) (global_of heap p)
                    (globals.to_list st.index_global),
                h.posts q,
              );
        }

    locked-Held :
        (p : ℕ) (ps : List ℕ) (st : St)
        → Held ps st
        → Ends
            (Held (p ∷ ps))
            (insert_locked entries globals subs (global_of heap p) (heap p).tags st)
    locked-Held p ps st h = elim (Option-cases (globals.find st.index_global (global_of heap p))) [
      | inr (g, e) ↦ rw (e, insert_locked) tt
      | inl e ↦
          elim (Option-cases (entries.find st.index_by_time (time_entry (global_of heap p)))) [
            | inr (y, k) ↦ rw (e, k, insert_locked, insert_by_time) tt
            | inl k ↦
                rw (e, k, insert_locked, insert_by_time)
                  (free_tags-Ends entries globals subs (Held (p ∷ ps)) (global_of heap p) _ (
                    Ends-imp _ (Held (p ∷ ps)) _ (λ s l. tagged-Held p ps st s h e k l)
                      (tags-Linked entries globals subs (with_global p st).index_global
                        (with_time p st).index_by_time (tag_count ps) (global_of heap p)
                        (heap p).tags (with_time p (with_global p st))
                        (record {
                          linked = h.linked.linked;
                          kinds = h.linked.kinds;
                          counted = h.linked.counted;
                          global = refl;
                          time = refl;
                        }))))
          ]
    ]

    Held-memory :
        (ps : List ℕ) (st : St) (m : List Bool) → Held ps st → Held ps (record st { memory = m })
    Held-memory ps st m h = record {
      linked =
          Linked-memory entries globals subs st.index_global st.index_by_time (tag_count ps) st m
            h.linked;
      kinds = h.kinds;
      counted = h.counted;
      posts = h.posts;
    }

    pub index_insert_post-Held :
        (p : ℕ) (ps : List ℕ) (st : St)
        → Held ps st
        → Ends (Held (p ∷ ps)) (index_insert_post entries globals subs heap p st)
    unfolding index_insert_post
    index_insert_post-Held p ps st h =
        Ends-bind (Held ps) (Held (p ∷ ps)) _
          (insert_locked entries globals subs (global_of heap p) (heap p).tags)
          (Ends-bind (Held ps) (Held ps) _ (alloc entries globals subs)
            (alloc-Ends entries globals subs (Held ps) st (λ m. Held-memory ps st m h))
            (λ s k. alloc-Ends entries globals subs (Held ps) s (λ m. Held-memory ps s m k)))
          (λ s k. locked-Held p ps s k)
