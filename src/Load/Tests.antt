-- ===== src/Load/Tests.antt =====
-- Examples for load_post.
use mathlib.Core.List.Permᴰ
use blahgd.Prelude.{
  arith, signed, if◌then◌else◌, [], ◌∷◌, true, ◌≡◌, refl, false, none, some, codes, bytes_eq,
  strcasecmp, decimal,
}
use blahgd.Index.{index_lookup_post, global_index_cmp}
use blahgd.Index.Samples.{entries, globals, subs, index}
use blahgd.Index.Insert.{IsConsistent}
use blahgd.Post
use blahgd.Post.{
  Post, post_refresh, must_refresh, refresh_published, load_post_body, load_post_body_fmt3,
  post_add_tags, post_add_comments, set_file,
}
use blahgd.Post.Samples.{tags, world, post, read_post}
use blahgd.Load.{fresh_post, loaded, load_post}
use blahgd.Load.Cache.{B, Cached, load_post-Cached}
use blahgd.Load.All.{Startup, finished, post_ids, load_all_posts}
use blahgd.Load.Startup.{HasLoaded, load_all_posts-HasLoaded}
use blahgd.Load.Race.{first, second, run, both_started}
use blahgd.Load.Race.Overlap.{IsWon, load_post_race}

abbrev blog : B entries globals subs tags world
blog = record { index = index; post_at = (λ q. post); next = 3 }

consistent : IsConsistent entries globals subs index
consistent = record { times = (refl, (refl, tt)); tags = ((refl, (refl, tt)), tt) }

readable :
    post_refresh tags world (fresh_post entries globals subs tags world 13 false)
    ≡ Post.done (read_post 13 (codes "13"))
unfolding post_refresh refresh_published load_post_body post_add_tags post_add_comments set_file
    strcasecmp bytes_eq decimal signed
readable = refl

load_post-Cached_example :
    (b : B entries globals subs tags world) × (load_post entries globals subs tags world blog 13
        false
      ≡ loaded 3 b)
    × Cached entries globals subs tags world blog b 13 3 (read_post 13 (codes "13"))
unfolding index_lookup_post global_index_cmp
load_post-Cached_example =
    load_post-Cached entries globals subs tags world blog 13 (read_post 13 (codes "13")) consistent
      refl refl readable

-- The second thread looks the post up and reads it first, and the first one inserts it first.
load_post_race_example :
    IsWon entries globals subs tags world 13 (read_post 13 (codes "13")) first (
      run entries globals subs tags world 13
        (second ∷ second ∷ first ∷ first ∷ first ∷ second ∷ [])
        (both_started entries globals subs tags world blog))
unfolding index_lookup_post global_index_cmp
load_post_race_example =
    load_post_race entries globals subs tags world 13 (read_post 13 (codes "13")) blog first
      (second ∷ second ∷ first ∷ first ∷ []) (second ∷ []) consistent refl refl readable refl
      (omega arith) (omega arith) (omega arith)

-- A directory with one post.
abbrev startup : Startup
startup = record {
  names = λ path. some (codes "." ∷ codes "13" ∷ codes "notes" ∷ []);
  str2u32 = λ name. if bytes_eq name (codes "13") then some 13 else none;
  is_dir = λ path. some true;
  queue = true;
  order = λ ids. ids;
}

one_post :
    post_ids entries globals subs tags world startup (codes "." ∷ codes "13" ∷ codes "notes" ∷ [])
    ≡ 13 ∷ []
unfolding post_ids bytes_eq
one_post = refl

load_all_posts-HasLoaded_example :
    (b : B entries globals subs tags world) × (load_all_posts entries globals subs tags world
        startup blog
      ≡ finished 1 b)
    × HasLoaded entries globals subs tags world blog b (13 ∷ [])
unfolding post_ids bytes_eq
load_all_posts-HasLoaded_example =
    load_all_posts-HasLoaded entries globals subs tags world startup
      (codes "." ∷ codes "13" ∷ codes "notes" ∷ []) blog refl refl (λ l. Permᴰ.refl l)
      (record { consistent = consistent; memory = refl })
      (record { post = read_post 13 (codes "13"); read = readable }, tt)
