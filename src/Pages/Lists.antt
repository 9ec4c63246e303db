-- ===== src/Pages/Lists.antt =====
-- The pages that list posts: blahg_index and blahg_archive of index.c, blahg_tag of tag.c. What
-- load_posts changes in the posts themselves is not returned.
use blahgd.Prelude.{
  ℕ, ◌*◌, ◌/◌, ◌%◌, ◌-◌, ◌^◌, Bool, true, false, List, [], ◌∷◌, ◌++◌, Option, none, some, ◌==◌,
  if◌then◌else◌, length, map, get_elem?, take, Bytes, codes, decimal, strcasecmp,
}
use blahgd.Extern.Rb.{RbApi}
use blahgd.Extern.Nvl.{NvlApi}
use blahgd.Extern.Query.{QueryApi, Found, found, noent, error}
use blahgd.Index.{
  GlobalEntry, IndexEntry, Subindex, index_cmp, global_index_cmp, tag_cmp, index_get_posts,
}
use blahgd.Post.{World}
use blahgd.Load.{Blog, view}
use blahgd.Archive
use blahgd.Archive.{Tm, Loaded, get_arch_id}
use blahgd.PostVars.{PageVars, Lists, load_posts}
use blahgd.Sidebar.{TagVars}
use blahgd.Pages.{
  PageVal, str_val, int_val, posts_val, R, ◌>>=◌, twitter_title, req_head, set_var, sidebar, pushed,
  render, r404, store_pages,
}

abbrev pub months : List Bytes
months =
    codes "January"
    ∷ codes "February"
    ∷ codes "March"
    ∷ codes "April"
    ∷ codes "May"
    ∷ codes "June"
    ∷ codes "July"
    ∷ codes "August"
    ∷ codes "September"
    ∷ codes "October"
    ∷ codes "November"
    ∷ codes "December"
    ∷ []

-- "%d » %s" into 32 bytes; `none` is a read past the table.
unfoldable pub nice_title : ℕ → Option Bytes
nice_title m = elim (get_elem? months (m % 100 - 1)) [
  | none ↦ none
  | some month ↦ some (take 31 (decimal (m / 100) ++ (b' ' ∷ 0xc2 ∷ 0xbb ∷ b' ' ∷ month)))
]

module _ (nvl : NvlApi PageVal) (max_scopes : ℕ) where
  -- __store_title of index.c and of tag.c, which always prepends.
  unfoldable pub store_title : Bytes → Bool → R nvl max_scopes → R nvl max_scopes
  store_title title prepend r =
      set_var nvl max_scopes "twittertitle"
        (str_val (if prepend then twitter_title title else take 1023 title))
        (set_var nvl max_scopes "title" (str_val title) r)

  abbrev pub flag : Bool → ℕ
  flag b = if b then 1 else 0

  -- The variables that load_posts sets.
  abbrev pub store_posts : PageVars → R nvl max_scopes → R nvl max_scopes
  store_posts v r = set_var nvl max_scopes "moreposts" (int_val (flag v.moreposts)) (
      set_var nvl max_scopes "lastupdate" (int_val v.lastupdate)
        (set_var nvl max_scopes "posts" (posts_val v.posts) r))

  module _ (entries : RbApi IndexEntry index_cmp) (globals : RbApi GlobalEntry global_index_cmp)
      (subs : RbApi (Subindex entries.Tree) tag_cmp) (tags : RbApi Bytes strcasecmp) (w : World)
      (mktime : Tm → ℕ) (b : Blog entries globals subs tags w) (lists : Lists)
      (cloud : List TagVars) where
    -- From load_posts to render_page.
    unfoldable pub show : Bytes → Loaded → R nvl max_scopes → Option (R nvl max_scopes)
    show tmpl l r = load_posts tags w (map b.post_at l.posts) l.moreposts lists >>= λ v.
        some (render nvl max_scopes tmpl (store_posts v.0 r))

    abbrev pub archived : R nvl max_scopes → ℕ → ℕ → Loaded
    archived r page archid =
        Archive.load_posts entries globals subs mktime b.index
          (view entries globals subs tags w b.post_at) r.index_stories page archid

    unfoldable pub blahg_index : ℕ → R nvl max_scopes → Option (R nvl max_scopes)
    unfolding store_title store_pages sidebar show
    blahg_index page r =
        pushed nvl max_scopes (
          sidebar nvl max_scopes cloud
            (store_pages nvl max_scopes page (store_title (codes "Blahg") false r)))
        >>= λ r'. show (codes "{index}") (archived r page 0) r'

    abbrev pub html_head : R nvl max_scopes → R nvl max_scopes
    html_head r = req_head nvl max_scopes (codes "Content-Type") (codes "text/html") r

    unfoldable pub blahg_archive :
        (api : QueryApi) → api.Query → ℕ → R nvl max_scopes → Option (R nvl max_scopes)
    unfolding req_head store_title store_pages sidebar show nice_title
    blahg_archive api query page r =
        let m = get_arch_id api query in
        nice_title m >>= λ title.
        pushed nvl max_scopes (
          sidebar nvl max_scopes cloud (
            set_var nvl max_scopes "archid" (int_val m)
              (store_pages nvl max_scopes page (store_title title true (html_head r)))))
        >>= λ r'. show (codes "{archive}") (archived r page m) r'

    -- The posts of a tag's page; the product is computed in 32 bits.
    abbrev pub tag_posts : Bytes → ℕ → ℕ → List ℕ
    tag_posts tag page posts_per_page =
        index_get_posts entries globals subs b.index (view entries globals subs tags w b.post_at)
          (some tag) none ((page * posts_per_page) % 2 ^ 32) posts_per_page

    abbrev pub tag_loaded : Bytes → ℕ → ℕ → Loaded
    tag_loaded tag page posts_per_page = record {
      posts = tag_posts tag page posts_per_page;
      moreposts = length (tag_posts tag page posts_per_page) == posts_per_page;
    }

    unfoldable pub tag_page : Bytes → ℕ → R nvl max_scopes → Option (R nvl max_scopes)
    unfolding req_head store_title store_pages sidebar show
    tag_page tag page r =
        pushed nvl max_scopes (
          sidebar nvl max_scopes cloud (
            set_var nvl max_scopes "tagid" (str_val tag)
              (store_pages nvl max_scopes page (store_title tag true (html_head r)))))
        >>= λ r'. show (codes "{tagindex}") (tag_loaded tag page r.index_stories) r'

    abbrev pub tag_of : ℕ → R nvl max_scopes → Found Bytes → Option (R nvl max_scopes)
    tag_of page r (found tag) = tag_page tag page r
    tag_of page r noent = r404 nvl max_scopes cloud none r
    tag_of page r error = r404 nvl max_scopes cloud none r

    unfoldable pub blahg_tag :
        (api : QueryApi) → api.Query → ℕ → R nvl max_scopes → Option (R nvl max_scopes)
    unfolding tag_page r404
    blahg_tag api query page r = tag_of page r (api.lookup_str query "tag")
