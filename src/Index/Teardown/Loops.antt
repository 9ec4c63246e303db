-- ===== src/Index/Teardown/Loops.antt =====
-- The loops of free_all_posts.
use mathlib.Core.List.Permᴰ.{symm as Permᴰ_symm}
use blahgd.Prelude.{
  ℕ, ◌+◌, ◌≤◌, ◌≡◌, refl, sym, ap, ◌∙◌, arith, List, [], ◌∷◌, none, some, All, true, if◌then◌else◌,
  length, total, ◌==◌, any, Bytes, bytes_eq_refl, bytes_eq_sound, Bool-cases, inl, inr, All-Permᴰ,
  map,
}
use blahgd.Extern.Rb.{RbApi, RbDestroy}
use blahgd.Index.{
  GlobalEntry, IndexEntry, Subindex, index_cmp, global_index_cmp, tag_cmp, et_tag, et_time,
}
use blahgd.Index.Insert.{Ix}
use blahgd.Index.Teardown.{
  Freeing, is_xref, list_remove, xref_removed, unlisted, from_list, entry_freed, and_then,
  free_index, list_destroy, free_global_index, free_tag_index,
}
use blahgd.Index.Teardown.Totals.{total-Permᴰ}
use blahgd.Index.Teardown.Linked.{
  hit, hit_entry, one, IsTagEntry, IsTimeEntry, is_post, of_sub, HasTagEntries,
}

is_xref_sound : (x y : ℕ × Bytes) → is_xref x y ≡ true → x ≡ y
is_xref_sound (i, s) (j, t) h =
    let a : i ≡ j = ground arith in let b : s ≡ t = bytes_eq_sound s t (ground arith) in cc

hit_self : (x : ℕ × Bytes) → hit x x ≡ 1
hit_self (i, s) = ground (arith, bytes_eq_refl s)

-- list_remove takes one occurrence off.
removed :
    (x : ℕ × Bytes) (l : List (ℕ × Bytes))
    → 1 ≤ total (hit x) l
    → (m : List (ℕ × Bytes)) × (list_remove x l ≡ some m)
      × ((y : ℕ × Bytes) → total (hit y) l ≡ hit y x + total (hit y) m)
unfolding list_remove
removed x [] h = absurd (omega arith)
removed x (z ∷ l) h = elim (Bool-cases (is_xref x z)) [
  | inl e ↦ (
    l,
    rw (e, list_remove) refl,
    λ y. ap (λ w. hit y w + total (hit y) l) (sym (is_xref_sound x z e)),
  )
  | inr e ↦
      let (m, r, c) = removed x l (ground arith) in
      (z ∷ m, rw (e, r, list_remove) refl, λ y. omega (arith, c y))
]

pub length-total : {A : Type 0} (l : List A) → length l ≡ total (λ x. 1) l
length-total [] = refl
length-total (x ∷ l) = omega (arith, length-total l)

-- A list with no occurrence of anything is empty.
pub nothing : (l : List (ℕ × Bytes)) → ((x : ℕ × Bytes) → total (hit x) l ≡ 0) → l ≡ []
nothing [] h = refl
nothing (x ∷ l) h = absurd (omega (arith, h x, hit_self x))

-- The entries of a tag's index go, each with its pair.
tag_entries :
    (l : List IndexEntry) (st : Freeing)
    → All IsTagEntry l
    → ((x : ℕ × Bytes) → total (hit_entry x) l ≤ total (hit x) st.by_tag)
    → (st' : Freeing) × (free_index l st ≡ some st')
      × ((x : ℕ × Bytes)
          → total (hit x) st.by_tag ≡ total (hit_entry x) l + total (hit x) st'.by_tag)
      × (length st'.entries ≡ total one l + length st.entries)
      × (st'.posts ≡ st.posts)
      × (st'.globals ≡ st.globals)
      × (st'.subs ≡ st.subs)
unfolding free_index
tag_entries [] st h k = (st, refl, λ x. omega arith, omega arith, refl, refl, refl)
tag_entries (e ∷ l) st ((kind, t, name), h) k =
    let i = e.global.id in
    let hits : (x : ℕ × Bytes) → hit_entry x e ≡ hit x (i, t) =
      λ x. ap (λ o. elim o [ none ↦ 0 | some s ↦ hit x (i, s) ]) name in
    let (m, r, c) =
      removed (i, t) st.by_tag (omega (arith, k (i, t), hits (i, t), hit_self (i, t))) in
    let step : from_list e st ≡ some (record st { by_tag = m }) =
      ap (λ o. elim o [ et_tag ↦ unlisted i e.name st | et_time ↦ some st ]) kind
      ∙ (ap (λ o. unlisted i o st) name ∙ ap (λ o. xref_removed o st) r) in
    let st1 : Freeing = record st { by_tag = m; entries = e ∷ st.entries } in
    let (st', run, d, n, p, q, s) = tag_entries l st1 h (λ x. omega (arith, k x, hits x, c x)) in
    (
      st',
      ap (λ o. and_then o (λ u. free_index l (entry_freed e u))) step ∙ run,
      λ x. omega (arith, d x, c x, hits x),
      n ∙ omega arith,
      p,
      q,
      s,
    )

-- Those of the index by time go without one.
pub time_entries :
    (l : List IndexEntry) (st : Freeing)
    → All IsTimeEntry l
    → (st' : Freeing) × (free_index l st ≡ some st')
      × (st'.by_tag ≡ st.by_tag)
      × (length st'.entries ≡ total one l + length st.entries)
      × (st'.posts ≡ st.posts)
      × (st'.globals ≡ st.globals)
      × (st'.subs ≡ st.subs)
unfolding free_index
time_entries [] st h = (st, refl, refl, omega arith, refl, refl, refl)
time_entries (e ∷ l) st (kind, h) =
    let (st', run, b, n, p, q, s) = time_entries l (entry_freed e st) h in
    let step : from_list e st ≡ some st =
      ap (λ o. elim o [ et_tag ↦ unlisted e.global.id e.name st | et_time ↦ some st ]) kind in
    (
      st',
      ap (λ o. and_then o (λ u. free_index l (entry_freed e u))) step ∙ run,
      b,
      n ∙ omega arith,
      p,
      q,
      s,
    )

-- Every global entry puts its post.
pub global_entries :
    (l : List GlobalEntry) (st : Freeing)
    → st.by_tag ≡ []
    → st.posts ≡ map (λ g. g.post) st.globals
    → (st' : Freeing) × (free_global_index l st ≡ some st')
      × (st'.by_tag ≡ [])
      × ((p : ℕ)
          → total (is_post p) st'.posts
            ≡ total (λ g. is_post p g.post) l + total (is_post p) st.posts)
      × (st'.posts ≡ map (λ g. g.post) st'.globals)
      × (st'.entries ≡ st.entries)
      × (st'.subs ≡ st.subs)
unfolding free_global_index
global_entries [] st h k = (st, refl, h, λ p. omega arith, k, refl, refl)
global_entries (g ∷ l) st h k =
    let st1 : Freeing = record st { posts = g.post ∷ st.posts; globals = g ∷ st.globals } in
    let (st', run, b, c, q, e, s) = global_entries l st1 h (ap (◌∷◌ g.post) k) in
    let put : Freeing = record st { posts = g.post ∷ st.posts } in
    let step : list_destroy g.id put ≡ some put =
      ap (λ b. if any (λ x. x.0 == g.id) b then none else some put) h in
    (
      st',
      ap (λ o. and_then o (λ u. free_global_index l (record u { globals = g ∷ u.globals }))) step
          ∙ run,
      b,
      λ p. c p ∙ omega arith,
      q,
      e,
      s,
    )

module _ (entries : RbApi IndexEntry index_cmp) (globals : RbApi GlobalEntry global_index_cmp)
    (subs : RbApi (Subindex entries.Tree) tag_cmp) (entry_nodes : RbDestroy entries)
    (global_nodes : RbDestroy globals) (sub_nodes : RbDestroy subs) where
  abbrev St : Type 0
  St = Ix entries globals subs

  abbrev Sub : Type 0
  Sub = Subindex entries.Tree

  nodes_of :
      (f : IndexEntry → ℕ) (s : Sub)
      → total f (entry_nodes.nodes s.subindex) ≡ of_sub entries globals subs f s
  nodes_of f s = total-Permᴰ f (entry_nodes.nodes-Permᴰ s.subindex)

  pub sub_entries :
      (l : List Sub) (st : Freeing)
      → All (HasTagEntries entries globals subs) l
      → ((x : ℕ × Bytes)
          → total (of_sub entries globals subs (hit_entry x)) l ≤ total (hit x) st.by_tag)
      → (st' : Freeing) × (free_tag_index entries globals subs entry_nodes global_nodes sub_nodes l
            st
          ≡ some st')
        × ((x : ℕ × Bytes)
            → total (hit x) st.by_tag
              ≡ total (of_sub entries globals subs (hit_entry x)) l + total (hit x) st'.by_tag)
        × (length st'.entries ≡ total (of_sub entries globals subs one) l + length st.entries)
        × (st'.posts ≡ st.posts)
        × (st'.globals ≡ st.globals)
        × (length st'.subs ≡ length l + length st.subs)
  unfolding free_tag_index
  sub_entries [] st h k = (st, refl, λ x. omega arith, omega arith, refl, refl, omega arith)
  sub_entries (s ∷ l) st (h, hs) k =
      let own : All IsTagEntry (entry_nodes.nodes s.subindex) =
        All-Permᴰ IsTagEntry (Permᴰ_symm (entry_nodes.nodes-Permᴰ s.subindex)) h in
      let (st1, r1, d1, n1, p1, q1, s1) =
        tag_entries (entry_nodes.nodes s.subindex) st own
          (λ x. omega (arith, k x, nodes_of (hit_entry x) s)) in
      let st2 : Freeing = record st1 { subs = s.name ∷ st1.subs } in
      let (st', r, d, n, p, q, m) =
        sub_entries l st2 hs (λ x. omega (arith, k x, d1 x, nodes_of (hit_entry x) s)) in
      (
        st',
        rw (r1, free_tag_index) r,
        λ x. omega (arith, d x, d1 x, nodes_of (hit_entry x) s),
        omega (arith, n, n1, nodes_of one s),
        p ∙ p1,
        q ∙ q1,
        omega (arith, m, ap length s1),
      )
