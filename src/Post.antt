-- ===== src/Post.antt =====
-- post.c: a post is read from its files again when one of them has changed. The cached files, the
-- S-expressions and the time functions are libjeffpc's and the C library's; the parser of the post
-- format is generated from its grammar. `none` is NULL or an error pointer.
pub mod Sources
pub mod Fresh
pub mod Refresh
pub mod Body
pub mod Settled
pub mod TagOrder
pub mod Tags
pub mod Samples
mod Tests
use blahgd.Prelude.{
  ℕ, ◌+◌, Bool, true, false, not, ◌||◌, String, List, [], ◌∷◌, ◌++◌, Option, none, some, ◌==◌,
  if◌then◌else◌, take, Bytes, codes, strcasecmp, bytes_eq, signed, ◌%◌, ◌^◌,
}
use blahgd.Extern.Rb.{RbApi}
use blahgd.Extern.Alist.{Alist, Val, int, str, bool, int_of, str_of}

pub record Comment : Type 0 where
  pub id : ℕ
  pub author : Bytes
  pub email : Option Bytes
  pub time : ℕ
  pub ip : Option Bytes
  pub url : Option Bytes
  pub body : Bytes

pub record Post (T : Type 0) : Type 0 where
  pub preview : Bool
  pub listed : Bool
  pub id : ℕ
  pub time : ℕ
  pub title : Option Bytes
  pub fmt : ℕ
  pub tags : T
  pub comments : List Comment
  pub numcom : ℕ
  pub body : Option Bytes
  pub twitter_img : Option Bytes
  pub files : List (Bytes × ℕ)

-- What the parser of the post format returns; `cached` is the paths that it has called
-- post_get_cached_file with, for \listing.
pub record Parsed : Type 0 where
  pub sc_title : Option Bytes
  pub sc_pub : Option Bytes
  pub sc_twitter_img : Option Bytes
  pub sc_tags : List Val
  pub cached : List Bytes
  pub output : Bytes

-- `file` is file_cache_get, with the file's revision; `list_of` is sexpr_alist_lookup_list.
pub record World : Type 0 where
  pub data_dir : Bytes
  pub file : Bytes → Option (Bytes × ℕ)
  pub has_newer : Bytes → ℕ → Bool
  pub parse : Bytes → Option Alist
  pub list_of : Alist → String → List Val
  pub parse_time : Option Bytes → ℕ
  pub now : ℕ
  pub fmt3_parse : ℕ → Bytes → Option Parsed

-- How a function ends: it goes on with the post, it returns an error, or an assertion fails.
pub data Outcome (P : Type 0) : Type 0 where
  done : P → Outcome P
  failed : P → Outcome P
  panic : Outcome P

infixl 5 ◌>>=◌
abbrev pub ◌>>=◌ : {P : Type 0} → Outcome P → (P → Outcome P) → Outcome P
done p >>= k = k p
failed p >>= k = failed p
panic >>= k = panic

-- nvl_set_int in the list of files
unfoldable pub set_file : Bytes → ℕ → List (Bytes × ℕ) → List (Bytes × ℕ)
set_file path rev [] = (path, rev) ∷ []
set_file path rev ((p, r) ∷ files) =
    if bytes_eq p path then (path, rev) ∷ files else (p, r) ∷ set_file path rev files

abbrev pub is_nil : List (Bytes × ℕ) → Bool
is_nil [] = true
is_nil (f ∷ files) = false

-- snprintf into FILENAME_MAX bytes
abbrev pub path_of : Bytes → Bytes
path_of s = take 4095 s

module _ (tags : RbApi Bytes strcasecmp) (w : World) where
  open tags use {Tree, find, insert, create}

  abbrev pub P : Type 0
  P = Post Tree

  -- post_get_cached_file, with what is done with the file's content or where there is none.
  abbrev pub with_file : {A : Type 0} → P → Bytes → (P → Bytes → A) → A → A
  with_file post path k otherwise = elim (w.file path) [
    | none ↦ otherwise
    | some (text, rev) ↦ k (record post { files = set_file path rev post.files }) text
  ]

  -- What post_get_cached_file does to the list of files, for each of some paths.
  abbrev pub record_file : Option (Bytes × ℕ) → Bytes → List (Bytes × ℕ) → List (Bytes × ℕ)
  record_file none path files = files
  record_file (some (text, rev)) path files = set_file path rev files

  abbrev pub record_files : List Bytes → List (Bytes × ℕ) → List (Bytes × ℕ)
  record_files [] files = files
  record_files (path ∷ paths) files = record_files paths (record_file (w.file path) path files)

  abbrev pub add_tag : Tree → Bytes → Tree
  add_tag t tag = elim (find t tag) [ none ↦ insert t tag | some _ ↦ t ]

  -- `none` is the failed assertion that each element is a string.
  unfoldable pub post_add_tags : Tree → List Val → Option Tree
  post_add_tags t [] = some t
  post_add_tags t (str tag ∷ l) = post_add_tags (add_tag t tag) l
  post_add_tags t (_ ∷ l) = none

  abbrev pub post_dir : P → Bytes
  post_dir post = w.data_dir ++ (codes "/posts/" ++ signed post.id)

  abbrev pub comment_path : P → ℕ → Bytes → Bytes
  comment_path post commid name =
      path_of (post_dir post ++ (codes "/comments/" ++ (signed commid ++ name)))

  abbrev pub or_unknown : Option Bytes → Bytes
  or_unknown none = codes "[unknown]"
  or_unknown (some author) = author

  abbrev pub append_comment : P → ℕ → Alist → Bytes → P
  append_comment post commid lv body = record post {
    comments =
        post.comments
        ++ record {
          id = commid % 2 ^ 32;
          author = or_unknown (str_of (lv "author"));
          email = str_of (lv "email");
          time = w.parse_time (str_of (lv "time"));
          ip = str_of (lv "ip");
          url = str_of (lv "url");
          body = body;
        }
          ∷ [];
    numcom = post.numcom + 1;
  }

  -- load_comment, and the comment is appended.
  abbrev pub load_comment : P → ℕ → Alist → P
  load_comment post commid lv =
      with_file post (comment_path post commid (codes "/text.txt"))
        (λ post' text. append_comment post' commid lv text)
        (append_comment post commid lv (codes "Error: could not load comment text."))

  abbrev pub is_moderated : Option Val → Bool
  is_moderated (some (bool b)) = b
  is_moderated _ = false

  unfoldable pub post_add_comment : P → ℕ → Outcome P
  post_add_comment post commid =
      with_file post (comment_path post commid (codes "/meta.lisp"))
        (λ post' meta. elim (w.parse meta) [
          | none ↦ panic
          | some lv ↦
              if is_moderated (lv "moderated")
              then done (load_comment post' commid lv)
              else done post'
        ])
        panic

  unfoldable pub post_add_comments : P → List Val → Outcome P
  post_add_comments post [] = done post
  post_add_comments post (int commid ∷ l) =
      post_add_comment post commid >>= λ post'. post_add_comments post' l
  post_add_comments post (_ ∷ l) = panic

  abbrev pub keep_or : Option Bytes → Option Bytes → Option Bytes
  keep_or none old = old
  keep_or (some new) old = some new

  abbrev pub time_or : Option Bytes → ℕ → ℕ
  time_or none old = old
  time_or (some pub_time) old = w.parse_time (some pub_time)

  abbrev pub with_tags : P → Option Tree → Outcome P
  with_tags post none = panic
  with_tags post (some t) = done (record post { tags = t })

  -- __do_load_post_body_fmt3
  unfoldable pub load_post_body_fmt3 : P → Bytes → Outcome P
  load_post_body_fmt3 post input = elim (w.fmt3_parse post.id input) [
    | none ↦ panic
    | some x ↦
        with_tags
          (record post {
            title = keep_or x.sc_title post.title;
            time = time_or x.sc_pub post.time;
            twitter_img = keep_or x.sc_twitter_img post.twitter_img;
            files = record_files x.cached post.files;
          })
          (post_add_tags post.tags x.sc_tags)
        >>= λ post'. done (record post' { body = some x.output })
  ]

  unfoldable pub load_post_body : P → Outcome P
  unfolding load_post_body_fmt3
  load_post_body post =
      if post.fmt == 3
      then with_file post (path_of (post_dir post ++ codes "/post.tex")) load_post_body_fmt3
          (failed post)
      else panic

  abbrev pub zero_or : Option ℕ → ℕ
  zero_or none = 0
  zero_or (some n) = n

  -- sexpr_alist_lookup_bool with the default `true`
  abbrev pub listed_of : Option Val → Bool
  listed_of (some (bool b)) = b
  listed_of _ = true

  -- __refresh_published_prop, with the tags and comments emptied
  abbrev pub refresh_published_prop : P → Alist → P
  refresh_published_prop post lv = record post {
    time = w.parse_time (str_of (lv "time"));
    title = str_of (lv "title");
    fmt = zero_or (int_of (lv "fmt")) % 2 ^ 32;
    listed = listed_of (lv "listed");
    tags = create;
    comments = [];
    numcom = 0;
  }

  unfoldable pub refresh_published : P → Outcome P
  refresh_published post =
      with_file post (path_of (post_dir post ++ codes "/post.lisp"))
        (λ post' meta. elim (w.parse meta) [
          | none ↦ failed post'
          | some lv ↦
              with_tags (refresh_published_prop post' lv)
                (post_add_tags create (w.list_of lv "tags"))
              >>= λ post''. post_add_comments post'' (w.list_of lv "comments")
        ])
        (failed post)

  abbrev pub any_newer : List (Bytes × ℕ) → Bool
  any_newer [] = false
  any_newer ((path, rev) ∷ files) = w.has_newer path rev || any_newer files

  unfoldable pub must_refresh : P → Bool
  must_refresh post = post.preview || (is_nil post.files || any_newer post.files)

  unfoldable pub post_refresh : P → Outcome P
  unfolding must_refresh
  post_refresh post =
      if not (must_refresh post)
      then done post
      else if post.preview
      then load_post_body
          (record post { files = []; title = some (codes "PREVIEW"); time = w.now; fmt = 3 })
      else refresh_published (record post { files = []; title = none }) >>= load_post_body
