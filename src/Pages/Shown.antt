-- ===== src/Pages/Shown.antt =====
-- What the page of a post shows.
use blahgd.Prelude.{
  ℕ, ◌+◌, ◌≡◌, refl, sym, ◌∙◌, Bool, false, String, List, [], ◌∷◌, Option, none, some, ltb, length,
  Bytes, codes, strcasecmp, subst,
}
use blahgd.Extern.Rb.{RbApi}
use blahgd.Extern.Nvl.{NvlApi}
use blahgd.Extern.Query.{QueryApi}
use blahgd.Index.{GlobalEntry, IndexEntry, Subindex, index_cmp, global_index_cmp, tag_cmp}
use blahgd.Post
use blahgd.Post.{Post, World, post_refresh}
use blahgd.Load
use blahgd.Load.{Blog, store, load_post}
use blahgd.PostVars.{title_vars}
use blahgd.PostVars.Posts.{plenty, vars_of, store_vars-plenty}
use blahgd.Vars.{vars_lookup, vars_set}
use blahgd.Vars.Laws.{vars_lookup-vars_set}
use blahgd.Sidebar.{TagVars}
use blahgd.Pages.{PageVal, posts_val, rendered, R, sidebar, pushed}
use blahgd.Pages.Answers.{HasScope, pushed_lem}
use blahgd.Pages.Story.{
  B, Story, crashed, answered, int_max, is_secret, Got, got, get_post, found_post, story_of,
  story_page, set_all, opt_val, blahg_story,
}

module _ (entries : RbApi IndexEntry index_cmp) (globals : RbApi GlobalEntry global_index_cmp)
    (subs : RbApi (Subindex entries.Tree) tag_cmp) (tags : RbApi Bytes strcasecmp) (w : World) where
  abbrev Bl : Type 0
  Bl = B entries globals subs tags w

  abbrev stored_at : Bl → ℕ → Post tags.Tree → Bl
  stored_at b p post = record b { post_at = store entries globals subs tags w b.post_at p post }

  -- A post that is loaded and refreshed is got, with its variables.
  get_post_lem :
      (b b1 : Bl) (postid p n : ℕ) (post : Post tags.Tree)
      → load_post entries globals subs tags w b postid false ≡ Load.loaded p b1
      → post_refresh tags w (b1.post_at p) ≡ Post.done post
      → (b2 : Bl) × (m : ℕ) × (get_post entries globals subs tags w b postid false (plenty n)
          ≡ got b2 post (vars_of tags w post) (plenty m))
  unfolding get_post
  get_post_lem b b1 postid p n post e read = (
    stored_at b1 p post,
    n + 1 + length post.comments,
    rw (e, found_post, read, store_vars-plenty tags w n post) refl,
  )

  module _ (nvl : NvlApi PageVal) (max_scopes preview_secret : ℕ) (cloud : List TagVars) where
    abbrev pub Shows :
        Post tags.Tree
        → Story entries globals subs tags w nvl max_scopes preview_secret cloud
        → Type 0
    Shows post crashed = ⊥
    Shows post (answered b r) =
        (r.body ≡ rendered (codes "{storyview}") r.vars)
        × (vars_lookup nvl r.vars "posts" ≡ some (posts_val (vars_of tags w post ∷ [])))
        × (vars_lookup nvl r.vars "title"
            ≡ some (
                opt_val entries globals subs tags w nvl max_scopes preview_secret cloud post.title))

    abbrev image_vars : Option Bytes → List (String × Option Bytes)
    image_vars none = []
    image_vars (some img) = ("twitterimg", some img) ∷ []

    abbrev V : Option Bytes → PageVal
    V = opt_val entries globals subs tags w nvl max_scopes preview_secret cloud

    abbrev set_vars : List (String × Option Bytes) → R nvl max_scopes → R nvl max_scopes
    set_vars = set_all entries globals subs tags w nvl max_scopes preview_secret cloud

    title_set :
        (title img : Option Bytes) (r : R nvl max_scopes)
        → vars_lookup nvl
            (set_vars (("title", title) ∷ ("twittertitle", title) ∷ image_vars img) r).vars
            "title"
          ≡ some (V title)
    title_set title none r =
        vars_lookup-vars_set nvl _ "twittertitle" "title" (V title)
        ∙ vars_lookup-vars_set nvl r.vars "title" "title" (V title)
    title_set title (some img) r =
        vars_lookup-vars_set nvl _ "twitterimg" "title" (V (some img))
        ∙ (vars_lookup-vars_set nvl _ "twittertitle" "title" (V title)
            ∙ vars_lookup-vars_set nvl r.vars "title" "title" (V title))

    got-Shows :
        (b : Bl) (m : ℕ) (post : Post tags.Tree) (r : R nvl max_scopes)
        → Shows post (
            story_of entries globals subs tags w nvl max_scopes preview_secret cloud false r
              (got b post (vars_of tags w post) (plenty m)))
    unfolding title_vars
    got-Shows b m post r = (
      refl,
      vars_lookup-vars_set nvl _ "posts" "posts" _,
      vars_lookup-vars_set nvl _ "posts" "title" _ ∙ title_set post.title post.twitter_img r,
    )

    page_lem :
        (b : Bl) (postid n : ℕ) (secret : Bool) (o : Option (R nvl max_scopes))
        (r : R nvl max_scopes) (g : Got entries globals subs tags w)
        → secret ≡ false
        → o ≡ some r
        → get_post entries globals subs tags w b postid false (plenty n) ≡ g
        → story_page entries globals subs tags w nvl max_scopes preview_secret cloud b postid secret
            (plenty n)
            o
          ≡ story_of entries globals subs tags w nvl max_scopes preview_secret cloud false r g
    page_lem b postid n secret o r g s e h = rw (s, e, h) refl

    -- When the query asks for the post of a number that fits an int and for no preview, there is room
    -- for one more scope, the post is loaded and can be refreshed, and no call fails, then blahg_story
    -- answers with the template of a story, whose variable `posts` holds the variables of this post as
    -- it is after the refresh, and whose variable `title` is the title of the post.
    pub blahg_story-Shows :
        (api : QueryApi) (query : api.Query) (b b1 : Bl) (postid p n : ℕ) (post : Post tags.Tree)
        (r : R nvl max_scopes)
        → api.lookup_int query "p" ≡ some postid
        → ltb int_max postid ≡ false
        → is_secret preview_secret (api.lookup_int query "preview") ≡ false
        → HasScope nvl max_scopes r
        → load_post entries globals subs tags w b postid false ≡ Load.loaded p b1
        → post_refresh tags w (b1.post_at p) ≡ Post.done post
        → Shows post (
            blahg_story entries globals subs tags w nvl max_scopes preview_secret cloud api query b
              (plenty n)
              r)
    unfolding blahg_story vars_set
    blahg_story-Shows api query b b1 postid p n post r asked small public room e read =
        let (b2, m, g) = get_post_lem b b1 postid p n post e read in
        rw (asked, small)
          (subst (Shows post)
            (sym (
              page_lem b postid n _ (pushed nvl max_scopes (sidebar nvl max_scopes cloud r)) _ _
                public (pushed_lem nvl max_scopes (sidebar nvl max_scopes cloud r) room) g))
            (got-Shows b2 m post _))
