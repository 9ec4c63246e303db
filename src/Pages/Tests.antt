-- ===== src/Pages/Tests.antt =====
-- Examples for the pages.
use blahgd.Prelude.{true, strcasecmp, ◌≡◌, false, refl, [], ◌∷◌, Option, none, some, Bytes, codes}
use blahgd.Extern.Nvl.{NvlApi, name_functions}
use blahgd.Extern.Samples.{Params, sample_api}
use blahgd.Index.{tag_cmp, index_lookup_post, global_index_cmp}
use blahgd.Index.Samples.{entries, globals, subs, index}
use blahgd.Post
use blahgd.Post.{post_refresh, must_refresh}
use blahgd.Post.Samples.{tags, world, read_post}
use blahgd.Load.Cache.{B, load_cached}
use blahgd.Pages.Story.{blahg_story}
use blahgd.Pages.Shown.{Shows, blahg_story-Shows}
use blahgd.Comment
use blahgd.Comment.{Config, save_comment}
use blahgd.Pages.Submit.{blahg_comment, Tells, blahg_comment-Tells}
use blahgd.Pages.Lists.{blahg_tag}
use blahgd.Pages.Listed.{ListsPosts, blahg_tag-ListsPosts}
use blahgd.PostVars.Posts.{plenty}
use blahgd.Pages.{PageVal, R, status_ok, no_body, blahg_category}
use blahgd.Pages.Answers.{SentTo, blahg_category-SentTo}

abbrev api : NvlApi PageVal
api = name_functions PageVal

abbrev r : R api 16
r = record {
  vars = record { current = api.empty; outer = [] };
  fmt = none;
  index_stories = 10;
  status = status_ok;
  headers = [];
  body = no_body;
}

abbrev query : Params
query = record { strings = ("cat", codes "rust") ∷ []; numbers = [] }

abbrev category_to_tag : Bytes → Option Bytes
category_to_tag cat = some (codes "code")

blahg_category-SentTo_example :
    SentTo api 16
      (codes "http://blog")
      (some (codes "code"))
      (blahg_category api 16 sample_api (codes "http://blog") category_to_tag [] query r)
blahg_category-SentTo_example =
    blahg_category-SentTo api 16 (codes "http://blog") sample_api category_to_tag [] query r refl

-- Both posts of the index, as they are after they have been read.
abbrev blog : B entries globals subs tags world
blog = record { index = index; post_at = (λ q. read_post 11 (codes "11")); next = 3 }

abbrev story_query : Params
story_query = record { strings = []; numbers = ("p", 11) ∷ [] }

fresh : post_refresh tags world (read_post 11 (codes "11")) ≡ Post.done (read_post 11 (codes "11"))
unfolding post_refresh must_refresh
fresh = refl

found_post : index_lookup_post entries globals subs index 11 ≡ some 1
unfolding index_lookup_post global_index_cmp
found_post = refl

blahg_story-Shows_example :
    Shows entries globals subs tags world api 16 7 [] (read_post 11 (codes "11")) (
      blahg_story entries globals subs tags world api 16 7 [] sample_api story_query blog
        (plenty 0)
        r)
blahg_story-Shows_example =
    blahg_story-Shows entries globals subs tags world api 16 7 [] sample_api story_query blog blog
      11 1 0 (read_post 11 (codes "11")) r refl refl refl refl
      (load_cached entries globals subs tags world blog 11 1 found_post) fresh

abbrev tag_query : Params
tag_query = record { strings = ("tag", codes "c") ∷ []; numbers = [] }

blahg_tag-ListsPosts_example :
    ListsPosts api 16 entries globals subs tags world
      (λ t. 0)
      blog
      0
      []
      (codes "c")
      (read_post 11 (codes "11") ∷ read_post 11 (codes "11") ∷ [])
      false
      (blahg_tag api 16 entries globals subs tags world
        (λ t. 0)
        blog
        (plenty 0)
        []
        sample_api
        tag_query
        0
        r)
unfolding post_refresh must_refresh tag_cmp strcasecmp
blahg_tag-ListsPosts_example =
    blahg_tag-ListsPosts api 16 entries globals subs tags world (λ t. 0) blog 0 [] sample_api
      tag_query 0 (codes "c") r (read_post 11 (codes "11") ∷ read_post 11 (codes "11") ∷ []) refl
      refl refl

abbrev config : Config
config = record {
  comment_max_think = 3600;
  comment_min_think = 1;
  comment_captcha_a = 1;
  comment_captcha_b = 2;
}

-- The body cannot be parsed.
abbrev request : Comment.Request Params
request = record { headers = query; body = some (codes "x") }

abbrev no_query : Bytes → Option Params
no_query s = none

abbrev disk : Comment.World
disk = record {
  post_exists = λ id. true;
  data_dir = codes "data";
  now = 1000000001000000002;
  nonce = 1;
  curdate = λ sec. some (codes "2020-01-01 10:00");
  sexpr_dump = λ l. some (codes "((author . \"A\"))");
  mkdir_ok = true;
  text_ok = true;
  lisp_ok = true;
  rename_ok = true;
}

blahg_comment-Tells_example :
    Tells api 16 sample_api config 7 no_query disk request
      (save_comment sample_api config 7 no_query disk request)
      (blahg_comment api 16 sample_api config 7 no_query disk request [] r)
blahg_comment-Tells_example =
    blahg_comment-Tells api 16 sample_api config 7 no_query disk request [] r refl
