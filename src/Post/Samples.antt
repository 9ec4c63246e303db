-- ===== src/Post/Samples.antt =====
-- A post and its files, for the examples.
use blahgd.Prelude.{
  ℕ, true, false, [], ◌∷◌, ◌++◌, none, some, Bytes, codes, strcasecmp, String, List, if◌then◌else◌,
  str_eq,
}
use blahgd.Extern.Rb.{RbApi, sorted_lists}
use blahgd.Extern.Alist.{Alist, Val, int, str}
use blahgd.Post.{Post, World, Parsed}

abbrev pub tags : RbApi Bytes strcasecmp
tags = sorted_lists strcasecmp

abbrev pub meta : Alist
meta name = if str_eq name "fmt" then some (int 3) else none

abbrev pub parsed : Parsed
parsed = record {
  sc_title = some (codes "Title");
  sc_pub = none;
  sc_twitter_img = none;
  sc_tags = str (codes "b") ∷ str (codes "C") ∷ str (codes "B") ∷ [];
  cached = [];
  output = codes "<p>text</p>";
}

abbrev pub no_vals : Alist → String → List Val
no_vals lv name = []

-- Every file is there, at revision 4.
abbrev pub world : World
world = record {
  data_dir = codes "data";
  file = λ path. some (codes "x", 4);
  has_newer = λ path rev. false;
  parse = λ s. some meta;
  list_of = no_vals;
  parse_time = λ s. 7;
  now = 100;
  fmt3_parse = λ id s. some parsed;
}

abbrev pub post : Post tags.Tree
post = record {
  preview = false;
  listed = false;
  id = 5;
  time = 0;
  title = none;
  fmt = 0;
  tags = [];
  comments = [];
  numcom = 0;
  body = none;
  twitter_img = none;
  files = [];
}

-- The post after it has been read; `name` is its id as text.
abbrev pub read_post : ℕ → Bytes → Post tags.Tree
read_post i name = record {
  preview = false;
  listed = true;
  id = i;
  time = 7;
  title = some (codes "Title");
  fmt = 3;
  tags = codes "b" ∷ codes "C" ∷ [];
  comments = [];
  numcom = 0;
  body = some (codes "<p>text</p>");
  twitter_img = none;
  files =
      (codes "data/posts/" ++ (name ++ codes "/post.lisp"), 4)
      ∷ (codes "data/posts/" ++ (name ++ codes "/post.tex"), 4)
      ∷ [];
}
