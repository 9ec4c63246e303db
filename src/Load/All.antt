-- ===== src/Load/All.antt =====
-- post.c, load_all_posts: the posts of the data directory are loaded when the program starts. The
-- names in the directory, what lstat says of a path, and libjeffpc's str2u32 and its task queue are
-- parameters. Each load runs as a whole here, in an order that the queue chooses.
use blahgd.Prelude.{
  ℕ, Bool, true, false, List, [], ◌∷◌, ◌++◌, Option, none, some, ◌||◌, if◌then◌else◌, length, take,
  Bytes, codes, bytes_eq, decimal, strcasecmp,
}
use blahgd.Extern.Rb.{RbApi}
use blahgd.Index.{GlobalEntry, IndexEntry, Subindex, index_cmp, global_index_cmp, tag_cmp}
use blahgd.Post.{World}
use blahgd.Load.{Blog, Loaded, loaded, missing, panic, load_post}

-- What load_all_posts finds outside: `names` is none where opendir fails, `is_dir` where lstat does;
-- `queue` says whether the queue can be created, and `order` is the order in which it runs tasks.
pub record Startup : Type 0 where
  pub names : Bytes → Option (List Bytes)
  pub str2u32 : Bytes → Option ℕ
  pub is_dir : Bytes → Option Bool
  pub queue : Bool
  pub order : List ℕ → List ℕ

module _ (entries : RbApi IndexEntry index_cmp) (globals : RbApi GlobalEntry global_index_cmp)
    (subs : RbApi (Subindex entries.Tree) tag_cmp) (tags : RbApi Bytes strcasecmp) (w : World) where
  -- How load_all_posts ends: with an error, with the number of posts that it logs, or by a failed
  -- assertion.
  pub data Started : Type 0 where
    failed : Started
    finished : ℕ → Blog entries globals subs tags w → Started
    crashed : Started

  abbrev pub posts_dir : Bytes
  posts_dir = take 4095 (w.data_dir ++ codes "/posts")

  abbrev pub post_path : ℕ → Bytes
  post_path postid = take 4095 (w.data_dir ++ (codes "/posts/" ++ decimal postid))

  abbrev pub keep_dir : ℕ → Option Bool → List ℕ → List ℕ
  keep_dir postid none ids = ids
  keep_dir postid (some false) ids = ids
  keep_dir postid (some true) ids = postid ∷ ids

  abbrev pub keep_name : Startup → Option ℕ → List ℕ → List ℕ
  keep_name s none ids = ids
  keep_name s (some postid) ids = keep_dir postid (s.is_dir (post_path postid)) ids

  -- The loop over the names: the ids whose loads are dispatched.
  unfoldable pub post_ids : Startup → List Bytes → List ℕ
  post_ids s [] = []
  post_ids s (name ∷ names) =
      let ids = post_ids s names in
      if bytes_eq name (codes ".") || bytes_eq name (codes "..")
      then ids
      else keep_name s (s.str2u32 name) ids

  abbrev pub after_load :
      Loaded entries globals subs tags w → (Blog entries globals subs tags w → Started) → Started
  after_load (loaded p b) k = k b
  after_load (missing b) k = k b
  after_load panic k = crashed

  -- __tq_load_post for each id.
  unfoldable pub run_tasks : ℕ → List ℕ → Blog entries globals subs tags w → Started
  run_tasks nposts [] b = finished nposts b
  run_tasks nposts (postid ∷ ids) b =
      after_load (load_post entries globals subs tags w b postid false) (run_tasks nposts ids)

  abbrev pub load_names : Startup → Blog entries globals subs tags w → Option (List Bytes) → Started
  load_names s b none = failed
  load_names s b (some names) =
      let ids = post_ids s names in
      if s.queue then run_tasks (length ids) (s.order ids) b else failed

  unfoldable pub load_all_posts : Startup → Blog entries globals subs tags w → Started
  unfolding post_ids run_tasks
  load_all_posts s b = load_names s b (s.names posts_dir)
