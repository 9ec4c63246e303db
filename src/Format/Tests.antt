-- ===== src/Format/Tests.antt =====
-- Examples for the grammar of posts.
use blahgd.Prelude.{◌≡◌, refl, arith, [], ◌++◌, none, some, Bytes, codes}
use blahgd.Commands.{find_cmd}
use blahgd.Format.{Post, Data, one, more, word, dash, schar, first, next, paragraphs, post}
use blahgd.Format.Samples.{api, urls, titled}
use blahgd.Format.Text.{Prints, post-Prints}
use blahgd.Format.Meaning.{last_or, title_of, published_of, twitter_of, tags_back, of_post}
use blahgd.Format.Specials.{post-specials}

abbrev start : Data
start = record {
  parser = record { post_id = 5; table_nesting = 0; texttt_nesting = 0; cached = [] };
  sc_title = none;
  sc_pub = none;
  sc_tags = [];
  sc_twitter_img = none;
}

-- Two paragraphs of plain text.
abbrev plain : Post
plain = paragraphs (
    more (one (next (next (first (word (codes "a"))) (dash (codes "--"))) (word (codes "b"))))
      (first (schar (codes "<"))))

-- The output of `post` for the plain post.
plain_text :
    post api urls plain start ≡ some (some (codes "<p>a&ndash;b</p>\n<p>&lt;</p>\n"), start)
unfolding post
plain_text = refl

post-Prints_example : Prints api urls start 2 (post api urls plain start)
post-Prints_example = post-Prints api urls start plain (ground arith)

post-specials_example :
    (out : Bytes) × (d' : Data) × (post api urls titled start ≡ some (some out, d'))
    × (d'.sc_title ≡ last_or none (title_of api urls) (of_post titled))
    × (d'.sc_pub ≡ last_or none (published_of api urls) (of_post titled))
    × (d'.sc_twitter_img ≡ last_or none (twitter_of api urls) (of_post titled))
    × (d'.sc_tags ≡ tags_back api urls (of_post titled) ++ [])
unfolding find_cmd
post-specials_example = post-specials api urls titled start ((tt, ((tt, tt), refl)), tt)
