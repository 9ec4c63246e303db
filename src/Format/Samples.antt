-- ===== src/Format/Samples.antt =====
-- Functions on strings, a configuration and a post for the examples.
use blahgd.Prelude.{
  ◌≡◌, refl, ap, List, [], ◌∷◌, ◌++◌, Option, none, some, Bytes, codes, map, concat_all,
}
use blahgd.Commands.{StrApi, Urls}
use blahgd.Format.{Post, one, more, word, special, title, tag, cmd_arg, first, next, paragraphs}

abbrev cat_some : List (Option Bytes) → Bytes
cat_some [] = []
cat_some (none ∷ l) = cat_some l
cat_some (some s ∷ l) = s ++ cat_some l

pub cat_some-some : (l : List Bytes) → cat_some (map some l) ≡ concat_all l
cat_some-some [] = refl
cat_some-some (s ∷ l) = ap (λ t. s ++ t) (cat_some-some l)

abbrev pub api : StrApi
api = record {
  str_cat = cat_some;
  cached_file = λ path. none;
  listing_str = λ s. s;
  strerror = λ path. codes "No such file";
  str_cat-some = cat_some-some;
}

abbrev pub urls : Urls
urls = record {
  data_dir = codes "data";
  base_url = codes "http://b";
  bug_base_url = codes "http://bug";
  wiki_base_url = codes "http://wiki";
  photo_base_url = codes "http://photo";
}

-- A tag inside an argument, and two titles.
abbrev pub titled : Post
titled = paragraphs (
    one (
      next
        (next (first (special title (one (codes "T")))) (
          cmd_arg (codes "emph") (next (first (word (codes "x"))) (special tag (one (codes "c"))))))
        (special title (more (one (codes "U")) (codes "V")))))
