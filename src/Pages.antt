-- ===== src/Pages.antt =====
-- tag.c, story.c, index.c, admin.c and R404, R301 of req.c: the handlers that answer a request with
-- a page. A page is the template and the variables that render_page is called with. `none` is a
-- failed assertion.
pub mod Lists
pub mod Story
pub mod Answers
pub mod Shown
pub mod Submit
pub mod Listed
mod Tests
use blahgd.Prelude.{
  ℕ, ◌+◌, ◌-◌, ◌^◌, ◌%◌, Bool, true, false, String, List, [], ◌∷◌, ◌++◌, Option, none, some,
  if◌then◌else◌, take, Bytes, codes,
}
use blahgd.Extern.Nvl.{NvlApi}
use blahgd.Extern.Query.{QueryApi, Found, found, noent, error}
use blahgd.Extern.Alist.{Alist, str_of}
use blahgd.Vars.{Vars, vars_set, vars_scope_push}
use blahgd.PostVars.{PostVars}
use blahgd.Sidebar.{TagVars}

-- The values of the variables; `null_str` is a string pointer that is NULL.
pub data PageVal : Type 0 where
  str_val : Bytes → PageVal
  null_str : PageVal
  int_val : ℕ → PageVal
  posts_val : List PostVars → PageVal
  cloud_val : List TagVars → PageVal

pub data Status : Type 0 where
  status_ok status_notfound status_redirect : Status

pub data Body (N : Type 0) : Type 0 where
  no_body : Body N
  rendered : Bytes → Vars N → Body N
  text : Bytes → Body N
  file : Bytes → Body N

-- struct req with the response of its scgi; the headers are a list of pairs, the newest first.
pub record Req (N : Type 0) : Type 0 where
  pub vars : Vars N
  pub fmt : Option Bytes
  pub index_stories : ℕ
  pub status : Status
  pub headers : List (Bytes × Bytes)
  pub body : Body N

infixl 5 ◌>>=◌
abbrev pub ◌>>=◌ {ℓ κ} : {A : Type ℓ} {B : Type κ} → Option A → (A → Option B) → Option B
none >>= k = none
some a >>= k = k a

-- "Blahg » %s" into 1024 bytes; the mark is two bytes.
abbrev pub twitter_title : Bytes → Bytes
twitter_title title = take 1023 (codes "Blahg " ++ (0xc2 ∷ 0xbb ∷ b' ' ∷ title))

module _ (nvl : NvlApi PageVal) (max_scopes : ℕ) where
  abbrev pub R : Type 0
  R = Req nvl.Nvl

  -- nvl_set_str in the response's headers
  unfoldable pub req_head : Bytes → Bytes → R → R
  req_head name val r = record r { headers = (name, val) ∷ r.headers }

  abbrev pub set_var : String → PageVal → R → R
  set_var name val r = record r { vars = vars_set nvl r.vars name val }

  -- sidebar, with the tag cloud that it gathers
  unfoldable pub sidebar : List TagVars → R → R
  sidebar cloud r = set_var "tagcloud" (cloud_val cloud) r

  abbrev pub with_vars : R → Vars nvl.Nvl → R
  with_vars r vars = record r { vars = vars }

  abbrev pub pushed : R → Option (R)
  pushed r = vars_scope_push nvl max_scopes r.vars >>= λ vars. some (with_vars r vars)

  -- response.body = render_page(req, tmpl)
  abbrev pub render : Bytes → R → R
  render tmpl r = record r { body = rendered tmpl r.vars }

  abbrev pub or_404 : Option Bytes → Bytes
  or_404 none = codes "{404}"
  or_404 (some tmpl) = tmpl

  abbrev pub as_html : Status → R → R
  as_html status r = record r { status = status; fmt = some (codes "html") }

  unfoldable pub r404 : List TagVars → Option Bytes → R → Option R
  unfolding req_head sidebar
  r404 cloud tmpl r =
      pushed (as_html status_notfound (req_head (codes "Content-Type") (codes "text/html") r))
      >>= λ r'. some (render (or_404 tmpl) (sidebar cloud r'))

  unfoldable pub r301 : Bytes → R → Option R
  unfolding req_head
  r301 url r =
      pushed (
        as_html status_redirect
          (req_head (codes "Location") url (req_head (codes "Content-Type") (codes "text/html") r)))
      >>= λ r'. some (render (codes "{301}") (set_var "redirect" (str_val url) r'))

  -- __store_pages; the int page - 1 becomes a uint64_t.
  unfoldable pub store_pages : ℕ → R → R
  store_pages page r =
      set_var "nextpage" (int_val ((page + (2 ^ 64 - 1)) % 2 ^ 64))
        (set_var "curpage" (int_val page) (set_var "prevpage" (int_val (page + 1)) r))

  -- blahg_admin
  unfoldable pub blahg_admin : R → R
  unfolding req_head
  blahg_admin r = record (req_head (codes "Content-Type") (codes "text/plain") r) {
    body = text (codes "Nothing here to see...move along");
  }

  module _ (api : QueryApi) (base_url : Bytes) (category_to_tag : Bytes → Option Bytes) where
    open api use {Query, lookup_str}

    abbrev pub redirected : List TagVars → R → Option Bytes → Option R
    redirected cloud r none = r404 cloud none r
    redirected cloud r (some tag) = r301 (base_url ++ (codes "/?tag=" ++ tag)) r

    -- IS_ERR of what nvl_lookup_str returns
    abbrev pub category_of : List TagVars → R → Found Bytes → Option R
    category_of cloud r (found cat) = redirected cloud r (category_to_tag cat)
    category_of cloud r noent = r404 cloud none r
    category_of cloud r error = r404 cloud none r

    unfoldable pub blahg_category : List TagVars → Query → R → Option R
    unfolding r404 r301
    blahg_category cloud query r = category_of cloud r (lookup_str query "cat")
