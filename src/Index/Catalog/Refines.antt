-- ===== src/Index/Catalog/Refines.antt =====
-- The index implements the catalog.
use blahgd.Prelude.{
  ℕ, ◌≡◌, refl, sym, ap, ◌∙◌, Bool, List, [], ◌∷◌, Option, none, some, arith, ◌==◌, keep, take,
  drop, Bytes, Bool-cases, Option-cases, inl, inr,
}
use mathlib.Core.List.{reverse}
use blahgd.Extern.Rb.{RbApi, find_eq, insert_sorted}
use blahgd.Index.{
  Post, GlobalEntry, IndexEntry, Subindex, Outcome, done, failed, panic, eexist, index_cmp,
  global_index_cmp, tag_cmp, index_lookup_post, index_insert_post, index_get_posts, time_entry,
  global_of, init_post_index, key_of_id, key_of_tag,
}
use blahgd.Index.Listing.{pointers, passing, is_listed, listing, index_get_posts-listing}
use blahgd.Index.Insert.{
  AreDistinct, IsConsistent, spelling, added_entry, Ix, find_sub, find_sub_lem, listed_in,
}
use blahgd.Index.Insert.Whole.{Inserted, index_insert_post-Inserted, lookup_lem, post_of}
use blahgd.Index.Insert.Errors.{index_insert_post_exists}
use blahgd.Index.Catalog.{Catalog, card_of, find_post, add_card, by_time, bearing, shelf, page}

module _ (entries : RbApi IndexEntry index_cmp) (globals : RbApi GlobalEntry global_index_cmp)
    (subs : RbApi (Subindex entries.Tree) tag_cmp) where
  abbrev St : Type 0
  St = Ix entries globals subs

  -- The index holds what the catalog says, and no allocation will fail.
  pub record Represents (cs : Catalog) (st : St) : Type 0 where
    pub consistent : IsConsistent entries globals subs st
    pub memory : st.memory ≡ []
    pub lookup : (i : ℕ) → index_lookup_post entries globals subs st i ≡ find_post cs i
    pub times : entries.to_list st.index_by_time ≡ by_time cs
    pub tags :
        (u : Bytes)
        → listed_in entries globals subs (find_sub entries globals subs st u) ≡ bearing u cs

  -- How the two insertions end: both succeed and represent the same again, or both refuse.
  abbrev pub Matches : St → Option Catalog → Outcome St → Type 0
  Matches st (some cs) (done st') = Represents cs st'
  Matches st none (failed e st') = (e ≡ eexist) × (st' ≡ st)
  Matches st (some cs) (failed e st') = ⊥
  Matches st (some cs) panic = ⊥
  Matches st none (done st') = ⊥
  Matches st none panic = ⊥

  Inserted-Represents :
      (heap : ℕ → Post) (p : ℕ) (cs : Catalog) (st st' : St)
      → Represents cs st
      → Inserted entries globals subs heap p st st'
      → Represents (card_of heap p ∷ cs) st'
  Inserted-Represents heap p cs st st' r i = record {
    consistent = i.consistent;
    memory = i.memory;
    lookup = λ j. elim (Bool-cases ((heap p).id == j)) [
      | inl e ↦
          let same : (heap p).id ≡ j = ground arith in
          rw e (ap (index_lookup_post entries globals subs st') (sym same) ∙ i.present)
      | inr e ↦ rw e (i.others j (λ s. ground arith) ∙ r.lookup j)
    ];
    times = i.by_time ∙ ap (insert_sorted index_cmp (time_entry (global_of heap p))) r.times;
    tags =
        λ u. i.listed u ∙ ap (added_entry (global_of heap p) (spelling u (heap p).tags)) (r.tags u);
  }

  refuses :
      (heap : ℕ → Post) (p q : ℕ) (cs : Catalog) (st : St)
      → Represents cs st
      → find_post cs (heap p).id ≡ some q
      → Matches st (add_card cs (card_of heap p)) (index_insert_post entries globals subs heap p st)
  refuses heap p q cs st r e =
      rw (e, add_card)
        (rw
          (index_insert_post_exists entries globals subs heap p q st r.memory
            (r.lookup (heap p).id ∙ e))
          (refl, refl))

  accepts :
      (heap : ℕ → Post) (p : ℕ) (cs : Catalog) (st : St)
      → Represents cs st
      → AreDistinct (heap p).tags
      → find_post cs (heap p).id ≡ none
      → Matches st (add_card cs (card_of heap p)) (index_insert_post entries globals subs heap p st)
  accepts heap p cs st r d e =
      let (st', run, i) =
        index_insert_post-Inserted entries globals subs heap p st r.consistent r.memory d
          (r.lookup (heap p).id ∙ e) in
      rw (e, add_card) (rw run (Inserted-Represents heap p cs st st' r i))

  -- When the index represents a catalog and no allocation fails, inserting a post with pairwise
  -- distinct tags does what adding its card to the catalog does: if no post in the catalog has its
  -- id, the insertion succeeds and the index represents the catalog with the card added, and if one
  -- has, the insertion returns EEXIST and changes nothing.
  pub index_insert_post-Matches :
      (heap : ℕ → Post) (p : ℕ) (cs : Catalog) (st : St)
      → Represents cs st
      → AreDistinct (heap p).tags
      → Matches st (add_card cs (card_of heap p)) (index_insert_post entries globals subs heap p st)
  index_insert_post-Matches heap p cs st r d = elim (Option-cases (find_post cs (heap p).id)) [
    | inl e ↦ accepts heap p cs st r d e
    | inr (q, e) ↦ refuses heap p q cs st r e
  ]

  pub init_post_index-Represents : Represents [] (init_post_index entries globals subs [])
  unfolding init_post_index
  init_post_index-Represents = record {
    consistent = record { times = rw entries.to_list-create tt; tags = rw subs.to_list-create tt };
    memory = refl;
    lookup = λ i.
        lookup_lem entries globals subs (init_post_index entries globals subs []) i
        ∙ ap (λ l. post_of (find_eq global_index_cmp (key_of_id i) l)) globals.to_list-create;
    times = entries.to_list-create;
    tags = λ u. ap (listed_in entries globals subs) (
        find_sub_lem entries globals subs (init_post_index entries globals subs []) u
        ∙ ap (find_eq tag_cmp (key_of_tag entries globals subs u)) subs.to_list-create);
  }

  abbrev subtree : Option (Subindex entries.Tree) → Option entries.Tree
  subtree none = none
  subtree (some s) = some s.subindex

  abbrev shown_of : (ℕ → Post) → Option entries.Tree → List IndexEntry
  shown_of heap none = []
  shown_of heap (some tree) = keep (is_listed heap) (reverse (entries.to_list tree))

  listing_lem :
      (heap : ℕ → Post) (tagname : Option Bytes) (cs : Catalog) (st : St)
      → Represents cs st
      → listing entries globals subs st heap tagname
        ≡ keep (is_listed heap) (reverse (shelf tagname cs))
  unfolding find_sub
  listing_lem heap none cs st r = ap (λ l. keep (is_listed heap) (reverse l)) r.times
  listing_lem heap (some u) cs st r =
      go (find_sub entries globals subs st u)
      ∙ ap (λ l. keep (is_listed heap) (reverse l)) (r.tags u)
    where
      go :
          (o : Option (Subindex entries.Tree))
          → shown_of heap (subtree o)
            ≡ keep (is_listed heap) (reverse (listed_in entries globals subs o))
      go none = refl
      go (some s) = refl

  -- An index that represents a catalog lists the catalog's pages.
  pub index_get_posts-page :
      (heap : ℕ → Post) (tagname : Option Bytes) (pred : Option (Post → Bool)) (skip nposts : ℕ)
      (cs : Catalog) (st : St)
      → Represents cs st
      → index_get_posts entries globals subs st heap tagname pred skip nposts
        ≡ page heap tagname pred skip nposts cs
  index_get_posts-page heap tagname pred skip nposts cs st r =
      index_get_posts-listing entries globals subs st heap tagname pred skip nposts
      ∙ ap (λ l. pointers (take nposts (keep (passing heap pred) (drop skip l))))
          (listing_lem heap tagname cs st r)
