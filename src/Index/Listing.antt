-- ===== src/Index/Listing.antt =====
-- What index_get_posts returns: the two loops against filters on the list of entries.
use blahgd.Prelude.{
  ℕ, zero, suc, ◌+◌, ◌≡◌, refl, ap, Bool, List, [], ◌∷◌, ◌++◌, Option, none, some, take, drop, keep,
  keep-and, keep_all, take-nil, drop-nil, take-append-take, keep-drop, map, Bytes, Bool-cases, inl,
  inr,
}
use mathlib.Core.List.{reverse, map-append}
use blahgd.Extern.Rb.{RbApi}
use blahgd.Index.{
  Post, GlobalEntry, IndexEntry, Subindex, index_cmp, global_index_cmp, tag_cmp, Index, skip_listed,
  passes, is_wanted, collect, tree_of, index_get_posts,
}

-- The entries of one listing in order, newest first, as the program shows them: the pointers of
-- the posts.
abbrev pub pointers : List IndexEntry → List ℕ
pointers = map (λ e. e.global.post)

abbrev pub is_listed : (ℕ → Post) → IndexEntry → Bool
is_listed heap e = (heap e.global.post).listed

keep-skip_listed :
    (heap : ℕ → Post) (n : ℕ) (l : List IndexEntry)
    → keep (is_listed heap) (skip_listed heap n l) ≡ drop n (keep (is_listed heap) l)
unfolding skip_listed
keep-skip_listed heap zero [] = refl
keep-skip_listed heap (suc n) [] = refl
keep-skip_listed heap zero (e ∷ l) = refl
keep-skip_listed heap (suc n) (e ∷ l) = elim (Bool-cases (is_listed heap e)) [
  | inl h ↦ rw (h, skip_listed, keep) (keep-skip_listed heap n l)
  | inr h ↦ rw (h, skip_listed, keep) (keep-skip_listed heap (suc n) l)
]

collect-take :
    (heap : ℕ → Post) (pred : Option (Post → Bool)) (n : ℕ) (l : List IndexEntry)
    → collect heap pred n l ≡ pointers (take n (keep (is_wanted heap pred) l))
unfolding collect
collect-take heap pred zero [] = refl
collect-take heap pred (suc n) [] = refl
collect-take heap pred zero (e ∷ l) = refl
collect-take heap pred (suc n) (e ∷ l) = elim (Bool-cases (is_wanted heap pred e)) [
  | inl h ↦ rw (h, collect, keep) (ap (◌∷◌ e.global.post) (collect-take heap pred n l))
  | inr h ↦ rw (h, collect, keep) (collect-take heap pred (suc n) l)
]

abbrev pub passing : (ℕ → Post) → Option (Post → Bool) → IndexEntry → Bool
passing heap pred e = passes pred (heap e.global.post)

module _ (entries : RbApi IndexEntry index_cmp) (globals : RbApi GlobalEntry global_index_cmp)
    (subs : RbApi (Subindex entries.Tree) tag_cmp) where
  -- The listed entries of the index by time, or of a tag's index, from the newest to the oldest.
  abbrev pub listing : Index entries globals subs → (ℕ → Post) → Option Bytes → List IndexEntry
  listing st heap tagname = elim (tree_of entries globals subs st tagname) [
    | none ↦ []
    | some tree ↦ keep (is_listed heap) (reverse (entries.to_list tree))
  ]

  -- index_get_posts returns, of the listed posts of the index asked for, newest first, those that
  -- are left after `skip` posts have been dropped and the predicate has been applied, in this
  -- order, and of these the first `nposts`.
  pub index_get_posts-listing :
      (st : Index entries globals subs) (heap : ℕ → Post) (tagname : Option Bytes)
      (pred : Option (Post → Bool)) (skip nposts : ℕ)
      → index_get_posts entries globals subs st heap tagname pred skip nposts
        ≡ pointers (take nposts (keep (passing heap pred) (drop skip (listing st heap tagname))))
  unfolding index_get_posts
  index_get_posts-listing st heap tagname pred skip nposts =
      elim (tree_of entries globals subs st tagname)
        as (λ t.
          ◌≡◌ {A = List ℕ}
            (elim t [
              | none ↦ []
              | some tree ↦
                  collect heap pred nposts (skip_listed heap skip (reverse (entries.to_list tree)))
            ])
            (pointers (
              take nposts (
                keep (passing heap pred) (
                  drop skip (elim t [
                    | none ↦ []
                    | some tree ↦ keep (is_listed heap) (reverse (entries.to_list tree))
                  ])))))) [
                    | none ↦ simp (drop-nil, take-nil)
                    | some tree ↦ rw collect-take (
                        rw
                          (keep-and (is_listed heap) (passing heap pred)
                            (skip_listed heap skip (reverse (entries.to_list tree))))
                          (rw keep-skip_listed))
                  ]

  -- Two pages of a listing without a predicate that follow one another are together one page of
  -- both lengths: no post is shown twice and none is left out.
  pub index_get_posts_pages :
      (st : Index entries globals subs) (heap : ℕ → Post) (tagname : Option Bytes) (skip n m : ℕ)
      → index_get_posts entries globals subs st heap tagname none skip n
          ++ index_get_posts entries globals subs st heap tagname none (skip + n) m
        ≡ index_get_posts entries globals subs st heap tagname none skip (n + m)
  index_get_posts_pages st heap tagname skip n m =
      simp (index_get_posts-listing, keep_all, ← map-append, take-append-take)

  -- Where none of the first `skip` listed posts satisfies the predicate, a page that skips them is
  -- the first page again: what is skipped is counted before the predicate is applied.
  pub index_get_posts_repeats :
      (st : Index entries globals subs) (heap : ℕ → Post) (tagname : Option Bytes)
      (pred : Option (Post → Bool)) (skip n : ℕ)
      → keep (passing heap pred) (take skip (listing st heap tagname)) ≡ []
      → index_get_posts entries globals subs st heap tagname pred skip n
        ≡ index_get_posts entries globals subs st heap tagname pred 0 n
  index_get_posts_repeats st heap tagname pred skip n h = simp index_get_posts-listing (
      ap (λ l. pointers (take n l))
        (keep-drop (passing heap pred) skip (listing st heap tagname) h))
