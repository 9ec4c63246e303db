-- ===== src/PostVars.antt =====
-- post_nv.c: the variables of posts for the templates. Calls of libjeffpc that can fail
-- (mem_reallocarray, nvl_alloc, nvl_set_*) take their results from a list; past its end they
-- succeed. What nvl_set_array does on an error with the lists that it is given is not known here: they
-- count as live. `live` is the number of name-value lists that are allocated and not put yet.
pub mod Comments
pub mod Posts
mod Tests
use blahgd.Prelude.{
  ℕ, ◌+◌, ◌-◌, max, Bool, true, false, String, List, [], ◌∷◌, ◌++◌, Option, none, some, ltb,
  if◌then◌else◌, length, map, Bytes, strcasecmp,
}
use blahgd.Extern.Rb.{RbApi}
use blahgd.Post.{Comment, Post, World, post_refresh}
use blahgd.Post

pub record CommentVars : Type 0 where
  pub commid : ℕ
  pub commtime : ℕ
  pub commauthor : Bytes
  pub commemail : Option Bytes
  pub commip : Option Bytes
  pub commurl : Option Bytes
  pub commbody : Bytes

-- What __store_vars puts into a post's list. The variable `comments` is not set where it is `none`.
pub record PostVars : Type 0 where
  pub id : ℕ
  pub time : ℕ
  pub title : Option Bytes
  pub numcom : ℕ
  pub body : Option Bytes
  pub tags : List Bytes
  pub comments : Option (List CommentVars)

pub record Lists : Type 0 where
  pub results : List Bool
  pub live : ℕ

-- A function that may fail, with the lists before and after it; `none` is an error.
abbrev pub M : Type 0 → Type 0
M A = Lists → Option A × Lists

abbrev pub return : {A : Type 0} → A → M A
return a h = (some a, h)

abbrev pub bound : {A B : Type 0} → Option A × Lists → (A → M B) → Option B × Lists
bound (none, h) k = (none, h)
bound (some a, h) k = k a h

infixl 5 ◌>>=◌ ◌>>◌
abbrev pub ◌>>=◌ : {A B : Type 0} → M A → (A → M B) → M B
◌>>=◌ m k h = bound (m h) k

abbrev pub ◌>>◌ : {B : Type 0} → M (Unit {0}) → M B → M B
m >> k = m >>= λ _. k

-- A call that fails or changes what is known here of the lists.
abbrev pub call_on : (ℕ → ℕ) → List Bool → ℕ → Option (Unit {0}) × Lists
call_on f [] n = (some tt, record { results = []; live = f n })
call_on f (true ∷ l) n = (some tt, record { results = l; live = f n })
call_on f (false ∷ l) n = (none, record { results = l; live = n })

-- nvl_set_*, mem_reallocarray
abbrev pub call : M (Unit {0})
call h = call_on (λ n. n) h.results h.live

-- nvl_alloc
abbrev pub nvl_alloc : M (Unit {0})
nvl_alloc h = call_on (λ n. n + 1) h.results h.live

-- Where a function fails, it puts some of the lists that it has allocated.
abbrev pub put_on_error : {A : Type 0} → ℕ → Option A × Lists → Option A × Lists
put_on_error n (some a, h) = (some a, h)
put_on_error n (none, h) = (none, record h { live = h.live - n })

abbrev pub comment_vars : Comment → CommentVars
comment_vars c = record {
  commid = c.id;
  commtime = c.time;
  commauthor = c.author;
  commemail = c.email;
  commip = c.ip;
  commurl = c.url;
  commbody = c.body;
}

-- The seven values of one comment.
unfoldable pub set_comment : Comment → M CommentVars
set_comment c = do call; call; call; call; call; call; call; return (comment_vars c)

-- The second loop, when `i` comments have their lists; an error puts them and the current one's.
unfoldable pub com_loop : ℕ → List Comment → M (List CommentVars)
unfolding set_comment
com_loop i [] h = (some [], h)
com_loop i (c ∷ cs) h = bound (put_on_error i (nvl_alloc h)) (λ _ h1.
    bound (put_on_error (i + 1) (set_comment c h1))
      λ v h2. bound (com_loop (i + 1) cs h2) λ vs h3. (some (v ∷ vs), h3))

-- __com_val
unfoldable pub com_val : List Comment → M (Option (List CommentVars))
unfolding com_loop
com_val [] = return none
com_val (c ∷ cs) = do call; vs ← com_loop 0 (c ∷ cs); call; return (some vs)

-- The variables that load_posts sets: posts, lastupdate and moreposts.
pub record PageVars : Type 0 where
  pub posts : List PostVars
  pub lastupdate : ℕ
  pub moreposts : Bool

module _ (tags : RbApi Bytes strcasecmp) where
  -- __tag_val
  unfoldable pub tag_val : tags.Tree → M (List Bytes)
  tag_val list = do call; call; return (tags.to_list list)

  -- The calls of __store_vars on the post's own list; an error puts that list.
  unfoldable pub set_post : Post tags.Tree → M PostVars
  unfolding tag_val com_val
  set_post post = do
    call
    call
    call
    call
    call
    ts ← tag_val post.tags
    cs ← com_val post.comments
    return (record {
      id = post.id;
      time = post.time;
      title = post.title;
      numcom = post.numcom;
      body = post.body;
      tags = ts;
      comments = cs;
    })

  unfoldable pub store_vars : Post tags.Tree → M PostVars
  unfolding set_post
  store_vars post h = bound (nvl_alloc h) λ _ h1. put_on_error 1 (set_post post h1)

  -- The request's variables that __store_vars sets first, where it is given the title's name.
  unfoldable pub title_vars : Option String → Post tags.Tree → List (String × Option Bytes)
  title_vars none post = []
  title_vars (some titlevar) post =
      (titlevar, post.title)
      ∷ ("twittertitle", post.title)
      ∷ elim post.twitter_img [ none ↦ [] | some img ↦ ("twitterimg", some img) ∷ [] ]

  abbrev pub later_of : ℕ → ℕ → ℕ
  later_of maxtime time = if ltb maxtime time then time else maxtime

  -- A post whose variables cannot be stored is left out.
  abbrev pub add_post : List PostVars → ℕ → ℕ → Option PostVars × Lists → List PostVars × ℕ × Lists
  add_post nvposts maxtime time (none, h) = (nvposts, maxtime, h)
  add_post nvposts maxtime time (some v, h) = (nvposts ++ v ∷ [], later_of maxtime time, h)

  -- The loop of load_posts, with the lists of the posts so far; `none` is a failed assertion.
  unfoldable pub posts_loop :
      World → List (Post tags.Tree) → List PostVars → ℕ → Lists → Option (List PostVars × ℕ × Lists)
  unfolding store_vars
  posts_loop w [] nvposts maxtime h = some (nvposts, maxtime, h)
  posts_loop w (p ∷ ps) nvposts maxtime h = elim (post_refresh tags w p) [
    | Post.done post ↦
        let (nvposts', maxtime', h') = add_post nvposts maxtime post.time (store_vars post h) in
        posts_loop w ps nvposts' maxtime' h'
    | Post.failed post ↦ none
    | Post.panic ↦ none
  ]

  unfoldable pub load_posts :
      World → List (Post tags.Tree) → Bool → Lists → Option (PageVars × Lists)
  unfolding posts_loop
  load_posts w posts moreposts h = elim (posts_loop w posts [] 0 h) [
    | none ↦ none
    | some (nvposts, maxtime, h') ↦
        some (record { posts = nvposts; lastupdate = maxtime; moreposts = moreposts }, h')
  ]
