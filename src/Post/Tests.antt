-- ===== src/Post/Tests.antt =====
-- Examples for the refresh of a post.
use blahgd.Prelude.{bytes_eq, refl, Bytes, Option, some, codes}
use blahgd.Commands.{find_cmd}
use blahgd.Format
use blahgd.Format.Samples.{api, urls, titled}
use blahgd.Post.Body.{world as body_world, IsLoaded, load_post_body_fmt3-IsLoaded}
use blahgd.Post.{World, load_post_body_fmt3, must_refresh, post_refresh}
use blahgd.Post.Samples.{tags, world, post}
use blahgd.Post.Fresh.{Done}
use blahgd.Post.Refresh.{IsRead, post_refresh-IsRead}
use blahgd.Post.Sources.{tex_path}
use blahgd.Post.Settled.{IsSettled, post_refresh-IsSettled}
use blahgd.Post.Tags.{HasTagSet, post_refresh-HasTagSet}

post_refresh-IsRead_example : Done (IsRead tags world 5) (post_refresh tags world post)
unfolding must_refresh
post_refresh-IsRead_example = post_refresh-IsRead tags world post refl refl refl

-- Later, a file has changed.
abbrev later : World
later = record world { has_newer = λ path rev. bytes_eq path (tex_path tags world 5) }

post_refresh-IsSettled_example : Done (IsSettled tags world later 5) (post_refresh tags world post)
unfolding must_refresh
post_refresh-IsSettled_example = post_refresh-IsSettled tags world later post refl refl refl

post_refresh-HasTagSet_example : Done (HasTagSet tags world 5) (post_refresh tags world post)
post_refresh-HasTagSet_example =
    post_refresh-HasTagSet tags world 5 post (record { same_id = refl; ascending = tt })

abbrev tree : Bytes → Option Format.Post
tree text = some titled

load_post_body_fmt3-IsLoaded_example :
    IsLoaded tags world api urls tree post titled
      (load_post_body_fmt3 tags (body_world tags world api urls tree) post (codes "x"))
unfolding find_cmd
load_post_body_fmt3-IsLoaded_example =
    load_post_body_fmt3-IsLoaded tags world api urls tree post (codes "x") titled refl
      ((tt, ((tt, tt), refl)), tt)
