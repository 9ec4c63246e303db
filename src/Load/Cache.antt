-- ===== src/Load/Cache.antt =====
-- A post that has been loaded is in the index, and is not read again.
use blahgd.Prelude.{
  ℕ, ◌+◌, ◌≡◌, ◌≢◌, refl, sym, ◌∙◌, true, false, List, [], ◌∷◌, none, some, arith, All-map_imp,
  Bytes, strcasecmp, strcasecmp_of_lower, Ordering, ◌==◌, subst,
}
use blahgd.Extern.Rb.{RbApi}
use blahgd.Index
use blahgd.Index.{
  GlobalEntry, IndexEntry, Subindex, index_cmp, global_index_cmp, tag_cmp, Index, index_lookup_post,
  alloc, index_insert_post,
}
use blahgd.Index.Insert.{SameTag, AreDistinct, IsConsistent, alloc-nil}
use blahgd.Index.Insert.Whole.{index_insert_post-Inserted}
use blahgd.Post
use blahgd.Post.{Post, World, post_refresh}
use blahgd.Post.Fresh.{Done}
use blahgd.Post.TagOrder.{Precedes, IsAscending}
use blahgd.Post.Tags.{HasTagSet, post_refresh-HasTagSet}
use blahgd.Load.{Blog, view, store, fresh_post, loaded, build, publish, load_post}

Precedes-not-SameTag : (s t : Bytes) → Precedes s t → ¬ SameTag s t
Precedes-not-SameTag s t h e =
    let q : Ordering.lt ≡ Ordering.eq = sym h ∙ strcasecmp_of_lower s t e in cc

pub IsAscending-AreDistinct : (l : List Bytes) → IsAscending l → AreDistinct l
IsAscending-AreDistinct [] h = tt
IsAscending-AreDistinct (s ∷ l) h = (
  All-map_imp (Precedes s) (λ t. ¬ SameTag s t) l (Precedes-not-SameTag s) h.0,
  IsAscending-AreDistinct l h.1,
)

module _ (entries : RbApi IndexEntry index_cmp) (globals : RbApi GlobalEntry global_index_cmp)
    (subs : RbApi (Subindex entries.Tree) tag_cmp) (tags : RbApi Bytes strcasecmp) (w : World) where
  abbrev pub B : Type 0
  B = Blog entries globals subs tags w

  -- The post that a load allocates, in memory.
  abbrev pub with_post : B → Post tags.Tree → B
  with_post b post = record b {
    post_at = store entries globals subs tags w b.post_at b.next post;
    next = b.next + 1;
  }

  pub build_lem :
      (b : B) (postid : ℕ) (post : Post tags.Tree)
      → b.index.memory ≡ []
      → post_refresh tags w (fresh_post entries globals subs tags w postid false) ≡ Post.done post
      → build entries globals subs tags w b postid false ≡ loaded b.next (with_post b post)
  unfolding build
  build_lem b postid post mem read = simp (alloc-nil entries globals subs b.index mem, read)

  abbrev pub heap : B → ℕ → Index.Post
  heap b = view entries globals subs tags w b.post_at

  -- What a successful load leaves behind.
  pub record Cached (b b' : B) (postid p : ℕ) (post : Post tags.Tree) : Type 0 where
    pub consistent : IsConsistent entries globals subs b'.index
    pub found : index_lookup_post entries globals subs b'.index postid ≡ some p
    pub others :
        (i : ℕ)
        → i ≢ postid
        → index_lookup_post entries globals subs b'.index i
          ≡ index_lookup_post entries globals subs b.index i
    pub memory : b'.index.memory ≡ []
    pub stored : b'.post_at p ≡ post
    pub again : load_post entries globals subs tags w b' postid false ≡ loaded p b'

  abbrev published : B → Index entries globals subs → B
  published b ix = record b { index = ix }

  -- A post in the index is not read again.
  pub load_cached :
      (b : B) (postid p : ℕ)
      → index_lookup_post entries globals subs b.index postid ≡ some p
      → load_post entries globals subs tags w b postid false ≡ loaded p b
  unfolding load_post
  load_cached b postid p h = rw (load_post, h) refl

  pub publish_lem :
      (b : B) (postid : ℕ) (post : Post tags.Tree)
      → IsConsistent entries globals subs b.index
      → b.index.memory ≡ []
      → index_lookup_post entries globals subs b.index postid ≡ none
      → HasTagSet tags w postid post
      → (b' : B) × (publish entries globals subs tags w b.next (with_post b post)
          ≡ loaded b.next b')
        × Cached b b' postid b.next post
  unfolding publish
  publish_lem b postid post c mem absent h =
      let q : (b.next == b.next) ≡ true = ground arith in
      let same : (heap (with_post b post) b.next).id ≡ postid = rw q h.same_id in
      let (ix, e, i) =
        index_insert_post-Inserted entries globals subs (heap (with_post b post)) b.next b.index c
          mem (rw q (IsAscending-AreDistinct (tags.to_list post.tags) h.ascending))
          (rw same absent) in
      let found : index_lookup_post entries globals subs ix postid ≡ some b.next =
        rw same at i.present in
      (
        published (with_post b post) ix,
        rw e refl,
        record {
          consistent = i.consistent;
          found = found;
          others = λ j ne. i.others j (rw same ne);
          memory = i.memory;
          stored = rw q refl;
          again = load_cached (published (with_post b post) ix) postid b.next found;
        },
      )

  pub fresh-HasTagSet :
      (postid : ℕ) → HasTagSet tags w postid (fresh_post entries globals subs tags w postid false)
  fresh-HasTagSet postid = record { same_id = refl; ascending = rw tags.to_list-create tt }

  -- When no allocation fails, load_post of an id that is not in a consistent index, whose files can
  -- be read, returns the new post: no assertion fails, the index stays consistent and finds the post
  -- by its id and every other one as before, the post in memory is the one that has been read, and a second load_post returns the same post and
  -- changes nothing.
  pub load_post-Cached :
      (b : B) (postid : ℕ) (post : Post tags.Tree)
      → IsConsistent entries globals subs b.index
      → b.index.memory ≡ []
      → index_lookup_post entries globals subs b.index postid ≡ none
      → post_refresh tags w (fresh_post entries globals subs tags w postid false) ≡ Post.done post
      → (b' : B) × (load_post entries globals subs tags w b postid false ≡ loaded b.next b')
        × Cached b b' postid b.next post
  unfolding load_post publish_lem
  load_post-Cached b postid post c mem absent read =
      let kept : HasTagSet tags w postid post =
        subst (Done (HasTagSet tags w postid)) read
          (post_refresh-HasTagSet tags w postid _ (fresh-HasTagSet postid)) in
      let (b', e, k) = publish_lem b postid post c mem absent kept in
      (b', rw (load_post, absent, build_lem b postid post mem read) e, k)
