-- ===== src/Index/Shown.antt =====
-- The posts that index_get_posts returns: how many, and which.
use blahgd.Prelude.{
  ℕ, suc, ◌≤◌, ◌≡◌, refl, ap, Bool, true, [], ◌∷◌, List, Option, none, some, arith, length, take,
  drop, keep, All, Bytes, All-keep, keep_sound, All-take, All-drop, All-both, length-take,
}
use mathlib.Core.List.{reverse}
use blahgd.Extern.Rb.{RbApi}
use blahgd.Index.{
  Post, GlobalEntry, IndexEntry, Subindex, index_cmp, global_index_cmp, tag_cmp, Index, passes,
  tree_of, index_get_posts,
}
use blahgd.Index.Listing.{pointers, is_listed, passing, listing, index_get_posts-listing}

length-pointers : (l : List IndexEntry) → length (pointers l) ≡ length l
length-pointers [] = refl
length-pointers (e ∷ l) = ap suc (length-pointers l)

-- A post may be shown: it is listed and passes the predicate, if there is one.
abbrev pub IsShown : (ℕ → Post) → Option (Post → Bool) → ℕ → Type 0
IsShown heap pred p = ((heap p).listed ≡ true) × (passes pred (heap p) ≡ true)

All-pointers :
    (P : ℕ → Type 0) (l : List IndexEntry) → All (λ e. P e.global.post) l → All P (pointers l)
All-pointers P [] h = tt
All-pointers P (e ∷ l) h = (h.0, All-pointers P l h.1)

module _ (entries : RbApi IndexEntry index_cmp) (globals : RbApi GlobalEntry global_index_cmp)
    (subs : RbApi (Subindex entries.Tree) tag_cmp) (st : Index entries globals subs)
    (heap : ℕ → Post) (tagname : Option Bytes) (pred : Option (Post → Bool)) (skip nposts : ℕ) where
  listing_listed : All (λ e. is_listed heap e ≡ true) (listing entries globals subs st heap tagname)
  listing_listed = go (tree_of entries globals subs st tagname)
    where
      go :
          (o : Option entries.Tree)
          → All
              (λ e. is_listed heap e ≡ true)
              (elim o [
                | none ↦ []
                | some tree ↦ keep (is_listed heap) (reverse (entries.to_list tree))
              ])
      go none = tt
      go (some tree) = keep_sound (is_listed heap) (reverse (entries.to_list tree))

  -- index_get_posts writes at most `nposts` posts into the caller's array, and each of them is
  -- listed and passes the predicate.
  pub index_get_posts-IsShown :
      (length (index_get_posts entries globals subs st heap tagname pred skip nposts) ≤ nposts)
      × All
          (IsShown heap pred)
          (index_get_posts entries globals subs st heap tagname pred skip nposts)
  index_get_posts-IsShown =
      let l = drop skip (listing entries globals subs st heap tagname) in
      rw index_get_posts-listing (
        omega (
          arith,
          length-pointers (take nposts (keep (passing heap pred) l)),
          length-take nposts (keep (passing heap pred) l),
        ),
        All-pointers (IsShown heap pred) (take nposts (keep (passing heap pred) l)) (
            All-take _ nposts (keep (passing heap pred) l) (
              All-both _ _ (keep (passing heap pred) l)
                (All-keep _ (passing heap pred) l
                  (All-drop _ skip (listing entries globals subs st heap tagname) listing_listed))
                (keep_sound (passing heap pred) l))),
      )
