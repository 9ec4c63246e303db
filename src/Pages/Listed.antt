-- ===== src/Pages/Listed.antt =====
-- What the page of a tag shows.
use blahgd.Prelude.{
  ℕ, ◌*◌, ◌%◌, ◌^◌, ◌≡◌, refl, sym, ap, ◌∙◌, Bool, true, List, Option, none, some, length, map,
  take, drop, keep_all, ◌==◌, subst, Bytes, codes, strcasecmp,
}
use blahgd.Extern.Rb.{RbApi}
use blahgd.Extern.Nvl.{NvlApi}
use blahgd.Extern.Query.{QueryApi, found}
use blahgd.Index.{GlobalEntry, IndexEntry, Subindex, index_cmp, global_index_cmp, tag_cmp}
use blahgd.Index.Listing.{pointers, listing, index_get_posts-listing}
use blahgd.Post.{World}
use blahgd.Load.{Blog, view}
use blahgd.Archive.{Tm, Loaded}
use blahgd.PostVars.{PageVars}
use blahgd.PostVars.Posts.{P, plenty, vars_of, all_refreshed, latest, load_posts-latest}
use blahgd.Vars.{vars_lookup, vars_set}
use blahgd.Vars.Laws.{vars_lookup-vars_set}
use blahgd.Sidebar.{TagVars}
use blahgd.Pages.{
  PageVal, str_val, int_val, posts_val, rendered, R, render, set_var, pushed, sidebar, req_head,
  store_pages,
}
use blahgd.Pages.Answers.{HasScope, inner, pushed_lem}
use blahgd.Pages.Lists.{
  flag, store_title, store_posts, show, html_head, tag_loaded, tag_posts, tag_page, blahg_tag,
}

module _ (nvl : NvlApi PageVal) (max_scopes : ℕ) (entries : RbApi IndexEntry index_cmp)
    (globals : RbApi GlobalEntry global_index_cmp) (subs : RbApi (Subindex entries.Tree) tag_cmp)
    (tags : RbApi Bytes strcasecmp) (w : World) (mktime : Tm → ℕ)
    (b : Blog entries globals subs tags w) (n : ℕ) (cloud : List TagVars) where
  abbrev pub page_vars : List (P tags w) → Bool → PageVars
  page_vars qs moreposts = record {
    posts = map (vars_of tags w) qs;
    lastupdate = latest tags w 0 qs;
    moreposts = moreposts;
  }

  show_lem :
      (tmpl : Bytes) (l : Loaded) (r : R nvl max_scopes) (qs : List (P tags w))
      → all_refreshed tags w (map b.post_at l.posts) ≡ some qs
      → show nvl max_scopes entries globals subs tags w mktime b (plenty n) cloud tmpl l r
        ≡ some
            (render nvl max_scopes tmpl (store_posts nvl max_scopes (page_vars qs l.moreposts) r))
  unfolding show
  show_lem tmpl l r qs h =
      let (m, e) = load_posts-latest tags w (map b.post_at l.posts) qs l.moreposts n h in rw e refl

  -- The listed posts that bear a tag, newest first: those of a page.
  abbrev pub tag_listing : Bytes → ℕ → ℕ → List ℕ
  tag_listing tag page posts_per_page = pointers (
      take posts_per_page (
        drop ((page * posts_per_page) % 2 ^ 32) (
          listing entries globals subs b.index (view entries globals subs tags w b.post_at)
            (some tag))))

  tag_posts_lem :
      (tag : Bytes) (page k : ℕ)
      → tag_posts nvl max_scopes entries globals subs tags w mktime b (plenty n) cloud tag page k
        ≡ tag_listing tag page k
  tag_posts_lem tag page k = simp (index_get_posts-listing, keep_all) refl

  abbrev pub ListsPosts : Bytes → List (P tags w) → Bool → Option (R nvl max_scopes) → Type 0
  ListsPosts tag qs more none = ⊥
  ListsPosts tag qs more (some r) =
      (r.body ≡ rendered (codes "{tagindex}") r.vars)
      × (vars_lookup nvl r.vars "posts" ≡ some (posts_val (map (vars_of tags w) qs)))
      × (vars_lookup nvl r.vars "moreposts" ≡ some (int_val (flag nvl max_scopes more)))

  shown_vars :
      (tag : Bytes) (qs : List (P tags w)) (more : Bool) (r : R nvl max_scopes)
      → ListsPosts tag qs more (
          some (
            render nvl max_scopes
              (codes "{tagindex}")
              (store_posts nvl max_scopes (page_vars qs more) r)))
  shown_vars tag qs more r = (
    refl,
    vars_lookup-vars_set nvl _ "moreposts" "posts" _
        ∙ (vars_lookup-vars_set nvl _ "lastupdate" "posts" _
            ∙ vars_lookup-vars_set nvl _ "posts" "posts" _),
    vars_lookup-vars_set nvl _ "moreposts" "moreposts" _,
  )

  -- The variables when the posts are loaded.
  abbrev titled : Bytes → ℕ → R nvl max_scopes → R nvl max_scopes
  titled tag page r = sidebar nvl max_scopes cloud (
      set_var nvl max_scopes "tagid" (str_val tag) (
        store_pages nvl max_scopes page (
          store_title nvl max_scopes tag true
            (html_head nvl max_scopes entries globals subs tags w mktime b (plenty n) cloud r))))

  titled-HasScope :
      (tag : Bytes) (page : ℕ) (r : R nvl max_scopes)
      → HasScope nvl max_scopes r
      → HasScope nvl max_scopes (titled tag page r)
  unfolding sidebar store_pages store_title req_head vars_set
  titled-HasScope tag page r h = h

  pushed_vars : R nvl max_scopes → R nvl max_scopes
  pushed_vars r = record r { vars = inner nvl max_scopes r.vars }

  tag_page_lem :
      (tag : Bytes) (page : ℕ) (r r1 : R nvl max_scopes)
      → pushed nvl max_scopes (titled tag page r) ≡ some r1
      → tag_page nvl max_scopes entries globals subs tags w mktime b (plenty n) cloud tag page r
        ≡ show nvl max_scopes entries globals subs tags w mktime b
            (plenty n)
            cloud
            (codes "{tagindex}")
            (tag_loaded nvl max_scopes entries globals subs tags w mktime b
              (plenty n)
              cloud
              tag
              page
              r.index_stories)
            r1
  unfolding tag_page
  tag_page_lem tag page r r1 h = rw h refl

  tag_answer :
      (tag : Bytes) (page : ℕ) (r : R nvl max_scopes) (qs : List (P tags w))
      → HasScope nvl max_scopes r
      → all_refreshed tags w (map b.post_at (tag_listing tag page r.index_stories)) ≡ some qs
      → tag_page nvl max_scopes entries globals subs tags w mktime b (plenty n) cloud tag page r
        ≡ some (
            render nvl max_scopes (codes "{tagindex}") (
              store_posts nvl max_scopes
                (page_vars qs (length (tag_listing tag page r.index_stories) == r.index_stories))
                (pushed_vars (titled tag page r))))
  unfolding pushed_vars
  tag_answer tag page r qs room read =
      let e = tag_posts_lem tag page r.index_stories in
      tag_page_lem tag page r (pushed_vars (titled tag page r))
        (pushed_lem nvl max_scopes (titled tag page r) (titled-HasScope tag page r room))
      ∙ (show_lem (codes "{tagindex}")
            (tag_loaded nvl max_scopes entries globals subs tags w mktime b (plenty n) cloud tag
              page r.index_stories)
            (pushed_vars (titled tag page r)) qs
            (ap (λ l. all_refreshed tags w (map b.post_at l)) e ∙ read)
          ∙ ap
              (λ l. some (
                render nvl max_scopes (codes "{tagindex}") (
                  store_posts nvl max_scopes (page_vars qs (length l == r.index_stories))
                    (pushed_vars (titled tag page r)))))
              e)

  -- When the query names a tag, there is room for one more scope, no call fails and every post of the
  -- page can be refreshed, then blahg_tag answers with the template of a tag's page, whose variable
  -- `posts` holds the variables of the listed posts with this tag, newest first, as they are after the
  -- refresh: those that are left after the pages before, up to the number of posts on a page; the
  -- variable `moreposts` is 1 where the page is full and 0 where it is not.
  pub blahg_tag-ListsPosts :
      (api : QueryApi) (query : api.Query) (page : ℕ) (tag : Bytes) (r : R nvl max_scopes)
      (qs : List (P tags w))
      → api.lookup_str query "tag" ≡ found tag
      → HasScope nvl max_scopes r
      → all_refreshed tags w (map b.post_at (tag_listing tag page r.index_stories)) ≡ some qs
      → ListsPosts tag qs (length (tag_listing tag page r.index_stories) == r.index_stories) (
          blahg_tag nvl max_scopes entries globals subs tags w mktime b
            (plenty n)
            cloud
            api
            query
            page
            r)
  unfolding blahg_tag
  blahg_tag-ListsPosts api query page tag r qs asked room read = rw asked (
      subst (ListsPosts tag qs (length (tag_listing tag page r.index_stories) == r.index_stories))
        (sym (tag_answer tag page r qs room read))
        (shown_vars tag qs (length (tag_listing tag page r.index_stories) == r.index_stories)
          (pushed_vars (titled tag page r))))
