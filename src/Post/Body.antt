-- ===== src/Post/Body.antt =====
-- post.c, __do_load_post_body_fmt3 with the grammar of posts: what becomes of the special commands of
-- a post's text. The scanner and the parser that are generated are the function `tree`.
use blahgd.Prelude.{
  append-nil, ap, ◌∙◌, ℕ, ◌≡◌, refl, List, [], ◌∷◌, Option, none, some, map, strcasecmp, Bytes,
}
use blahgd.Extern.Rb.{RbApi}
use blahgd.Extern.Alist.{str}
use blahgd.Commands.{StrApi, Urls}
use blahgd.Format
use blahgd.Format.{Data}
use blahgd.Format.Meaning.{
  IsMeantPost, of_post, title_of, published_of, twitter_of, tags_back, last_or,
}
use blahgd.Format.Specials.{post-specials}
use blahgd.Post.{
  World, Parsed, Outcome, done, P, load_post_body_fmt3, post_add_tags, add_tag, keep_or, time_or,
  record_files,
}

-- The state of the parser at the beginning.
abbrev pub start : ℕ → Data
start id = record {
  parser = record { post_id = id; table_nesting = 0; texttt_nesting = 0; cached = [] };
  sc_title = none;
  sc_pub = none;
  sc_tags = [];
  sc_twitter_img = none;
}

-- The post needs a body.
abbrev pub parsed_of : Option (Option Bytes × Data) → Option Parsed
parsed_of none = none
parsed_of (some (none, d)) = none
parsed_of (some (some out, d)) = some (record {
  sc_title = d.sc_title;
  sc_pub = d.sc_pub;
  sc_twitter_img = d.sc_twitter_img;
  sc_tags = map str d.sc_tags;
  output = out;
  cached = d.parser.cached;
})

module _ (tags : RbApi Bytes strcasecmp) (w : World) (api : StrApi) (urls : Urls)
    (tree : Bytes → Option Format.Post) where
  abbrev pub parsed_tree : ℕ → Option Format.Post → Option Parsed
  parsed_tree id none = none
  parsed_tree id (some p) = parsed_of (Format.post api urls p (start id))

  abbrev pub fmt3_parse : ℕ → Bytes → Option Parsed
  fmt3_parse id input = parsed_tree id (tree input)

  abbrev pub world : World
  world = record w { fmt3_parse = fmt3_parse }

  abbrev pub add_all : tags.Tree → List Bytes → tags.Tree
  add_all t [] = t
  add_all t (tag ∷ l) = add_all (add_tag tags w t tag) l

  post_add_tags-strs :
      (t : tags.Tree) (l : List Bytes) → post_add_tags tags world t (map str l) ≡ some (add_all t l)
  unfolding post_add_tags
  post_add_tags-strs t [] = refl
  post_add_tags-strs t (tag ∷ l) = post_add_tags-strs (add_tag tags w t tag) l

  body_lem :
      (post : P tags w) (input : Bytes) (p : Format.Post) (out : Bytes) (d : Data)
      → tree input ≡ some p
      → Format.post api urls p (start post.id) ≡ some (some out, d)
      → load_post_body_fmt3 tags world post input
        ≡ done (record post {
          title = keep_or tags w d.sc_title post.title;
          time = time_or tags w d.sc_pub post.time;
          twitter_img = keep_or tags w d.sc_twitter_img post.twitter_img;
          body = some out;
          tags = add_all post.tags d.sc_tags;
          files = record_files tags world d.parser.cached post.files;
        })
  unfolding load_post_body_fmt3
  body_lem post input p out d h k =
      rw (h, load_post_body_fmt3) (rw k (rw (post_add_tags-strs post.tags d.sc_tags) refl))

  -- What becomes of a post whose text is `p`.
  abbrev pub IsLoaded : P tags w → Format.Post → Outcome (P tags w) → Type 0
  IsLoaded post p o =
      let l = of_post p in
      (post' : P tags w) × (out : Bytes) × (o ≡ done post')
      × (post'.title ≡ keep_or tags w (last_or none (title_of api urls) l) post.title)
      × (post'.time ≡ time_or tags w (last_or none (published_of api urls) l) post.time)
      × (post'.twitter_img ≡ keep_or tags w (last_or none (twitter_of api urls) l) post.twitter_img)
      × (post'.tags ≡ add_all post.tags (tags_back api urls l))
      × (post'.body ≡ some out)

  -- Where a post's text is a tree whose tokens' texts are as the scanner has them and whose commands
  -- each have what the table asks for, loading the body never panics: the post has a body, the last
  -- \title, \published and \twitterimg or \twitterphoto of the text take the place of what the
  -- meta data have said, which stays where there is none, and all the \tag commands join the tags.
  pub load_post_body_fmt3-IsLoaded :
      (post : P tags w) (input : Bytes) (p : Format.Post)
      → tree input ≡ some p
      → IsMeantPost p
      → IsLoaded post p (load_post_body_fmt3 tags world post input)
  load_post_body_fmt3-IsLoaded post input p h m =
      let (out, d, run, t, u, v, g) = post-specials api urls p (start post.id) m in
      (
        record post {
          title = keep_or tags w d.sc_title post.title;
          time = time_or tags w d.sc_pub post.time;
          twitter_img = keep_or tags w d.sc_twitter_img post.twitter_img;
          body = some out;
          tags = add_all post.tags d.sc_tags;
          files = record_files tags world d.parser.cached post.files;
        },
        out,
        body_lem post input p out d h run,
        ap (λ x. keep_or tags w x post.title) t,
        ap (λ x. time_or tags w x post.time) u,
        ap (λ x. keep_or tags w x post.twitter_img) v,
        ap (add_all post.tags) (g ∙ append-nil (tags_back api urls (of_post p))),
        refl,
      )
