-- ===== src/Load.antt =====
-- post.c, load_post: a post comes from the index, or is read from its files and goes into the index.
-- The pointers to posts are numbers; those below `next` have been handed out. The results of the
-- coming allocations are those of the index.
pub mod Cache
pub mod Race
pub mod All
pub mod Startup
mod Tests
use blahgd.Prelude.{
  ℕ, ◌+◌, Bool, true, false, [], Option, none, some, ◌==◌, if◌then◌else◌, Bytes, strcasecmp,
}
use blahgd.Extern.Rb.{RbApi}
use blahgd.Index
use blahgd.Index.{
  GlobalEntry, IndexEntry, Subindex, index_cmp, global_index_cmp, tag_cmp, Index, alloc,
  index_lookup_post, index_insert_post,
}
use blahgd.Post.{Post, World, post_refresh}
use blahgd.Post

module _ (entries : RbApi IndexEntry index_cmp) (globals : RbApi GlobalEntry global_index_cmp)
    (subs : RbApi (Subindex entries.Tree) tag_cmp) (tags : RbApi Bytes strcasecmp) (w : World) where
  abbrev pub P : Type 0
  P = Post tags.Tree

  pub record Blog : Type 0 where
    pub index : Index entries globals subs
    pub post_at : ℕ → P
    pub next : ℕ

  -- What the index reads of the posts.
  abbrev pub view : (ℕ → P) → ℕ → Index.Post
  view post_at q = record {
    id = (post_at q).id;
    time = (post_at q).time;
    listed = (post_at q).listed;
    tags = tags.to_list (post_at q).tags;
  }

  -- The memory after memset, with the fields that load_post sets.
  abbrev pub fresh_post : ℕ → Bool → P
  fresh_post postid preview = record {
    preview = preview;
    listed = false;
    id = postid;
    time = 0;
    title = none;
    fmt = 0;
    tags = tags.create;
    comments = [];
    numcom = 0;
    body = none;
    twitter_img = none;
    files = [];
  }

  -- How load_post ends: with a post, with NULL, or by a failed assertion.
  pub data Loaded : Type 0 where
    loaded : ℕ → Blog → Loaded
    missing : Blog → Loaded
    panic : Loaded

  abbrev pub store : (ℕ → P) → ℕ → P → ℕ → P
  store post_at p post q = if q == p then post else post_at q

  -- The post takes its place in memory; one that cannot be read is destroyed.
  abbrev pub built : Blog → Post.Outcome P → Loaded
  built b (Post.done post) =
      loaded b.next (record b { post_at = store b.post_at b.next post; next = b.next + 1 })
  built b (Post.failed post) = missing b
  built b Post.panic = panic

  abbrev pub allocated : Blog → ℕ → Bool → Index.Outcome (Index entries globals subs) → Loaded
  allocated b postid preview (Index.done ix) =
      built (record b { index = ix }) (post_refresh tags w (fresh_post postid preview))
  allocated b postid preview (Index.failed e ix) = missing (record b { index = ix })
  allocated b postid preview Index.panic = panic

  -- From the allocation of the post and of its list of files to post_refresh.
  unfoldable pub build : Blog → ℕ → Bool → Loaded
  build b postid preview =
      allocated b postid preview
        (Index.◌>>=◌ (alloc entries globals subs b.index) (alloc entries globals subs))

  abbrev pub inserted : ℕ → Blog → Index.Outcome (Index entries globals subs) → Loaded
  inserted p b (Index.done ix) = loaded p (record b { index = ix })
  inserted p b (Index.failed e ix) = panic
  inserted p b Index.panic = panic

  -- ASSERT0(index_insert_post(post))
  unfoldable pub publish : ℕ → Blog → Loaded
  publish p b = inserted p b (index_insert_post entries globals subs (view b.post_at) p b.index)

  abbrev pub then_publish : Loaded → Loaded
  then_publish (loaded p b) = publish p b
  then_publish (missing b) = missing b
  then_publish panic = panic

  unfoldable pub load_post : Blog → ℕ → Bool → Loaded
  unfolding build publish
  load_post b postid true = build b postid true
  load_post b postid false = elim (index_lookup_post entries globals subs b.index postid) [
    | some p ↦ loaded p b
    | none ↦ then_publish (build b postid false)
  ]
