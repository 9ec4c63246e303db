-- ===== src/Load/Race.antt =====
-- Two threads that load one new post: the lock of the index is not held from the lookup to the
-- insertion, so that the steps of the threads may alternate.
pub mod Stages
pub mod Overlap
use blahgd.Prelude.{
  ℕ, suc, ◌≡◌, refl, ap, true, false, List, [], ◌∷◌, Option, none, some, arith, Bytes, strcasecmp,
  subst, ◌==◌,
}
use blahgd.Extern.Rb.{RbApi}
use blahgd.Index.{
  GlobalEntry, IndexEntry, Subindex, index_cmp, global_index_cmp, tag_cmp, index_lookup_post,
}
use blahgd.Index.Insert.{IsConsistent}
use blahgd.Index.Insert.Errors.{index_insert_post_exists}
use blahgd.Post
use blahgd.Post.{Post, World, post_refresh}
use blahgd.Post.Fresh.{Done}
use blahgd.Post.Tags.{HasTagSet, post_refresh-HasTagSet}
use blahgd.Load.{Blog, Loaded, loaded, missing, panic, fresh_post, build, publish, inserted}
use blahgd.Load.Cache.{heap, with_post, build_lem, publish_lem, fresh-HasTagSet}

-- Where a thread stands in load_post: before the lookup, after a lookup that found nothing, with a
-- post that has been read, or at an end.
pub data Phase : Type 0 where
  started missed : Phase
  has_post : ℕ → Phase
  returned : Option ℕ → Phase
  crashed : Phase

pub data Thread : Type 0 where
  first second : Thread

module _ (entries : RbApi IndexEntry index_cmp) (globals : RbApi GlobalEntry global_index_cmp)
    (subs : RbApi (Subindex entries.Tree) tag_cmp) (tags : RbApi Bytes strcasecmp) (w : World) where
  abbrev Bl : Type 0
  Bl = Blog entries globals subs tags w

  abbrev pub after_lookup : Bl → Option ℕ → Phase × Bl
  after_lookup b none = (missed, b)
  after_lookup b (some p) = (returned (some p), b)

  abbrev pub after_build : Bl → Loaded entries globals subs tags w → Phase × Bl
  after_build b (loaded p b') = (has_post p, b')
  after_build b (missing b') = (returned none, b')
  after_build b panic = (crashed, b)

  abbrev pub after_publish : Bl → Loaded entries globals subs tags w → Phase × Bl
  after_publish b (loaded p b') = (returned (some p), b')
  after_publish b (missing b') = (returned none, b')
  after_publish b panic = (crashed, b)

  -- What a thread does between two points at which the other one may run.
  unfoldable pub step : ℕ → Phase → Bl → Phase × Bl
  step postid started b = after_lookup b (index_lookup_post entries globals subs b.index postid)
  step postid missed b = after_build b (build entries globals subs tags w b postid false)
  step postid (has_post p) b = after_publish b (publish entries globals subs tags w p b)
  step postid (returned r) b = (returned r, b)
  step postid crashed b = (crashed, b)

  pub record Threads : Type 0 where
    pub one : Phase
    pub two : Phase
    pub blog : Bl

  abbrev pub turn : ℕ → Thread → Threads → Threads
  turn postid first t =
      let r = step postid t.one t.blog in record { one = r.0; two = t.two; blog = r.1 }
  turn postid second t =
      let r = step postid t.two t.blog in record { one = t.one; two = r.0; blog = r.1 }

  -- The threads take their turns in the order of a schedule.
  unfoldable pub run : ℕ → List Thread → Threads → Threads
  unfolding step
  run postid [] t = t
  run postid (x ∷ schedule) t = run postid schedule (turn postid x t)

  abbrev pub both_started : Bl → Threads
  both_started b = record { one = started; two = started; blog = b }

-- How many turns of a schedule are a thread's.
abbrev pub turns : Thread → List Thread → ℕ
turns t [] = 0
turns first (first ∷ l) = suc (turns first l)
turns first (second ∷ l) = turns first l
turns second (first ∷ l) = turns second l
turns second (second ∷ l) = suc (turns second l)

abbrev pub other : Thread → Thread
other first = second
other second = first

module _ (entries : RbApi IndexEntry index_cmp) (globals : RbApi GlobalEntry global_index_cmp)
    (subs : RbApi (Subindex entries.Tree) tag_cmp) (tags : RbApi Bytes strcasecmp) (w : World) where
  -- Where a thread stands.
  abbrev pub phase : Thread → Threads entries globals subs tags w → Phase
  phase first x = x.one
  phase second x = x.two
