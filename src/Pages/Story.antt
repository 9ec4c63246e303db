-- ===== src/Pages/Story.antt =====
-- story.c: the page of one post, and get_post of post_nv.c.
use blahgd.Prelude.{
  ℕ, ◌-◌, ◌^◌, Bool, true, false, String, List, [], ◌∷◌, Option, none, some, ltb, ◌==◌,
  if◌then◌else◌, Bytes, codes, strcasecmp,
}
use blahgd.Extern.Rb.{RbApi}
use blahgd.Extern.Nvl.{NvlApi}
use blahgd.Extern.Query.{QueryApi}
use blahgd.Index.{GlobalEntry, IndexEntry, Subindex, index_cmp, global_index_cmp, tag_cmp}
use blahgd.Post
use blahgd.Post.{Post, World, post_refresh}
use blahgd.Load
use blahgd.Load.{Blog, Loaded, store, load_post}
use blahgd.PostVars.{PostVars, Lists, store_vars, title_vars, call}
use blahgd.Sidebar.{TagVars}
use blahgd.Pages.{
  PageVal, str_val, null_str, int_val, posts_val, R, set_var, sidebar, pushed, render, r404,
}

abbrev pub int_max : ℕ
int_max = 2 ^ 31 - 1

-- PREVIEW_SECRET is set when the program is built.
abbrev pub is_secret : ℕ → Option ℕ → Bool
is_secret preview_secret none = false
is_secret preview_secret (some tmp) = tmp == preview_secret

module _ (entries : RbApi IndexEntry index_cmp) (globals : RbApi GlobalEntry global_index_cmp)
    (subs : RbApi (Subindex entries.Tree) tag_cmp) (tags : RbApi Bytes strcasecmp) (w : World) where
  abbrev pub B : Type 0
  B = Blog entries globals subs tags w

  -- How get_post ends: an assertion fails, there is no such post, its variables cannot be stored, or
  -- they are there with the post.
  pub data Got : Type 0 where
    panic : Got
    missing : B → Got
    unstored : B → Post tags.Tree → Lists → Got
    got : B → Post tags.Tree → PostVars → Lists → Got

  abbrev pub stored : B → Post tags.Tree → Option PostVars × Lists → Got
  stored b post (none, h) = unstored b post h
  stored b post (some v, h) = got b post v h

  -- ASSERT0(post_refresh(post)), where the post stands in memory.
  abbrev pub refreshed : B → ℕ → Lists → Post.Outcome (Post tags.Tree) → Got
  refreshed b p h (Post.done post) =
      stored (record b { post_at = store entries globals subs tags w b.post_at p post }) post
        (store_vars tags post h)
  refreshed b p h (Post.failed post) = panic
  refreshed b p h Post.panic = panic

  abbrev pub found_post : Lists → Loaded entries globals subs tags w → Got
  found_post h (Load.loaded p b) = refreshed b p h (post_refresh tags w (b.post_at p))
  found_post h (Load.missing b) = missing b
  found_post h Load.panic = panic

  unfoldable pub get_post : B → ℕ → Bool → Lists → Got
  get_post b postid preview h =
      found_post h (load_post entries globals subs tags w b postid preview)

  module _ (nvl : NvlApi PageVal) (max_scopes preview_secret : ℕ) (cloud : List TagVars) where
    abbrev pub Rq : Type 0
    Rq = R nvl max_scopes

    -- A string that may be NULL, as the value of a variable.
    abbrev pub opt_val : Option Bytes → PageVal
    opt_val none = null_str
    opt_val (some s) = str_val s

    abbrev pub set_all : List (String × Option Bytes) → Rq → Rq
    set_all [] r = r
    set_all ((name, val) ∷ l) r = set_all l (set_var nvl max_scopes name (opt_val val) r)

    abbrev pub mark_preview : Bool → Rq → Rq
    mark_preview false r = r
    mark_preview true r = set_var nvl max_scopes "preview" (int_val 1) r

    -- How the handler ends: an assertion fails, or it answers; the posts are those afterwards.
    pub data Story : Type 0 where
      crashed : Story
      answered : B → Rq → Story

    abbrev pub answer : B → Option Rq → Story
    answer b none = crashed
    answer b (some r) = answered b r

    -- Where __load_post fails.
    abbrev pub failed_load : B → Rq → Story
    failed_load b r = answer b (r404 nvl max_scopes cloud none r)

    -- malloc and what follows it in __load_post, and the page.
    abbrev pub shown : B → Bool → PostVars → Rq → Option (Unit {0}) × Lists → Story
    shown b preview v r (none, h) = failed_load b r
    shown b preview v r (some u, h) = answered b (
        render nvl max_scopes (codes "{storyview}")
          (mark_preview preview (set_var nvl max_scopes "posts" (posts_val (v ∷ [])) r)))

    -- __load_post on what get_post returns. An error pointer is taken for a post's list, which is
    -- read through.
    abbrev pub story_of : Bool → Rq → Got → Story
    story_of preview r panic = crashed
    story_of preview r (missing b) =
        failed_load b (set_var nvl max_scopes "title" (str_val (codes "not found")) r)
    story_of preview r (unstored b post h) = crashed
    story_of preview r (got b post v h) =
        shown b preview v (set_all (title_vars tags (some "title") post) r) (call h)

    abbrev pub story_page : B → ℕ → Bool → Lists → Option Rq → Story
    story_page b postid preview h none = crashed
    story_page b postid preview h (some r) = story_of preview r (get_post b postid preview h)

    abbrev pub story_at : B → Bool → Lists → Rq → Option ℕ → Story
    story_at b preview h r none = answer b (r404 nvl max_scopes cloud none r)
    story_at b preview h r (some postid) =
        if ltb int_max postid
        then answer b (r404 nvl max_scopes cloud none r)
        else story_page b postid preview h (pushed nvl max_scopes (sidebar nvl max_scopes cloud r))

    unfoldable pub blahg_story : (api : QueryApi) → api.Query → B → Lists → Rq → Story
    unfolding get_post r404 sidebar title_vars
    blahg_story api query b h r =
        story_at b (is_secret preview_secret (api.lookup_int query "preview")) h r
          (api.lookup_int query "p")
