-- ===== src/Archive/Pages.antt =====
-- What __load_posts hands to load_posts.
use blahgd.Prelude.{
  ℕ, ◌*◌, ◌%◌, ◌^◌, ◌≤◌, ◌<◌, ◌≡◌, ◌≢◌, true, false, none, arith, All, All-map_imp, length, ◌==◌,
}
use blahgd.Extern.Rb.{RbApi}
use blahgd.Index.{
  Post, GlobalEntry, IndexEntry, Subindex, index_cmp, global_index_cmp, tag_cmp, Index,
  index_get_posts,
}
use blahgd.Index.Shown.{IsShown, index_get_posts-IsShown}
use blahgd.Archive.{Tm, FilterArgs, archive_filter, filter_args, predicate, load_posts}

archive_filter_within :
    (args : FilterArgs) (p : Post)
    → archive_filter args p ≡ true
    → (args.start ≤ p.time) × (p.time < args.end)
unfolding archive_filter
archive_filter_within args p h = ground arith

-- The post is listed, and its time lies in the archive's interval.
abbrev pub IsInArchive : FilterArgs → (ℕ → Post) → ℕ → Type 0
IsInArchive args heap p =
    ((heap p).listed ≡ true) × (args.start ≤ (heap p).time) × ((heap p).time < args.end)

module _ (entries : RbApi IndexEntry index_cmp) (globals : RbApi GlobalEntry global_index_cmp)
    (subs : RbApi (Subindex entries.Tree) tag_cmp) (mktime : Tm → ℕ) where
  shown-IsInArchive :
      (heap : ℕ → Post) (archid p : ℕ)
      → archid ≢ 0
      → IsShown heap (predicate entries globals subs mktime archid) p
      → IsInArchive (filter_args mktime archid) heap p
  shown-IsInArchive heap archid p nz h =
      let e : (archid == 0) ≡ false = ground arith in
      let (l, w) = h in
      let (a, b) = archive_filter_within (filter_args mktime archid) (heap p) (rw e at w) in
      (l, a, b)

  -- A page of an archive has at most as many posts as fit a page, and each of them is listed and
  -- has a time in the archive's interval.
  pub load_posts-IsInArchive :
      (st : Index entries globals subs) (heap : ℕ → Post) (posts_per_page page archid : ℕ)
      → archid ≢ 0
      → (length (load_posts entries globals subs mktime st heap posts_per_page page archid).posts
          ≤ posts_per_page)
        × All
            (IsInArchive (filter_args mktime archid) heap)
            (load_posts entries globals subs mktime st heap posts_per_page page archid).posts
  unfolding load_posts
  load_posts-IsInArchive st heap posts_per_page page archid nz =
      let (short, shown) =
        index_get_posts-IsShown entries globals subs st heap none
          (predicate entries globals subs mktime archid) ((page * posts_per_page) % 2 ^ 32)
          posts_per_page in
      (
        short,
        All-map_imp _ _
            (index_get_posts entries globals subs st heap none
              (predicate entries globals subs mktime archid) ((page * posts_per_page) % 2 ^ 32)
              posts_per_page)
            (λ p. shown-IsInArchive heap archid p nz) shown,
      )
