-- ===== src/Load/Race/Stages.antt =====
-- Two threads that load one new post: what holds before one of them inserts it, and the insertions.
use blahgd.Prelude.{
  ℕ, zero, suc, ◌+◌, ◌<◌, ◌≤◌, ◌≡◌, refl, sym, ap, ◌∙◌, subst, true, false, List, [], ◌∷◌, none,
  some, arith, Bytes, strcasecmp, ◌==◌,
}
use blahgd.Extern.Rb.{RbApi}
use blahgd.Index.{
  GlobalEntry, IndexEntry, Subindex, index_cmp, global_index_cmp, tag_cmp, index_lookup_post,
}
use blahgd.Index.Insert.{IsConsistent}
use blahgd.Index.Insert.Whole.{index_insert_post-Inserted}
use blahgd.Index.Insert.Errors.{index_insert_post_exists}
use blahgd.Post
use blahgd.Post.{Post, World, post_refresh}
use blahgd.Post.Fresh.{Done}
use blahgd.Post.Tags.{HasTagSet, post_refresh-HasTagSet}
use blahgd.Load.{Blog, loaded, panic, fresh_post, publish, inserted}
use blahgd.Load.Cache.{heap, with_post, build_lem, fresh-HasTagSet, IsAscending-AreDistinct}
use blahgd.Load.Race.{
  Phase, started, missed, has_post, crashed, Thread, first, second, turns, phase, after_lookup,
  after_build, after_publish, step, Threads, turn, run,
}

module _ (entries : RbApi IndexEntry index_cmp) (globals : RbApi GlobalEntry global_index_cmp)
    (subs : RbApi (Subindex entries.Tree) tag_cmp) (tags : RbApi Bytes strcasecmp) (w : World)
    (postid : ℕ) (post : Post tags.Tree) where
  abbrev Bl : Type 0
  Bl = Blog entries globals subs tags w

  abbrev Ts : Type 0
  Ts = Threads entries globals subs tags w

  -- A thread that has had so many turns, neither having inserted the post.
  abbrev pub Stage : ℕ → Phase → Bl → Type 0
  Stage zero ph b = ph ≡ started
  Stage (suc zero) ph b = ph ≡ missed
  Stage (suc (suc zero)) ph b = (p : ℕ) × (ph ≡ has_post p) × (p < b.next) × (b.post_at p ≡ post)
  Stage (suc (suc (suc n))) ph b = ⊥

  pub record Open (b : Bl) : Type 0 where
    pub consistent : IsConsistent entries globals subs b.index
    pub memory : b.index.memory ≡ []
    pub absent : index_lookup_post entries globals subs b.index postid ≡ none

  pub record Shut (b : Bl) : Type 0 where
    pub memory : b.index.memory ≡ []
    pub held : ℕ
    pub present : index_lookup_post entries globals subs b.index postid ≡ some held

  -- A new post leaves the posts in memory.
  Stage-with_post :
      (k : ℕ) (ph : Phase) (b : Bl)
      → Stage k ph b
      → Stage k ph (with_post entries globals subs tags w b post)
  Stage-with_post zero ph b h = h
  Stage-with_post (suc zero) ph b h = h
  Stage-with_post (suc (suc zero)) ph b h =
      let ne : (h.0 == b.next) ≡ false = ground (arith, h.2) in
      (h.0, h.1, omega (arith, h.2), rw ne h.3)
  Stage-with_post (suc (suc (suc n))) ph b h = h

  pub new_post : (b : Bl) → Stage 2 (has_post b.next) (with_post entries globals subs tags w b post)
  new_post b =
      let e : (b.next == b.next) ≡ true = ground arith in (b.next, refl, omega arith, rw e refl)

  -- The first insertion.
  pub publish_first :
      (b : Bl) (p : ℕ)
      → Open b
      → b.post_at p ≡ post
      → HasTagSet tags w postid post
      → (b' : Bl) × (publish entries globals subs tags w p b ≡ loaded p b')
        × (b'.next ≡ b.next)
        × (b'.post_at ≡ b.post_at)
        × Shut b'
  unfolding publish
  publish_first b p o at h =
      let same : (heap entries globals subs tags w b p).id ≡ postid = rw at h.same_id in
      let (ix, e, i) =
        index_insert_post-Inserted entries globals subs (heap entries globals subs tags w b) p
          b.index o.consistent o.memory
          (rw at (IsAscending-AreDistinct (tags.to_list post.tags) h.ascending))
          (rw same o.absent) in
      (
        record b { index = ix },
        rw e refl,
        refl,
        refl,
        record { memory = i.memory; held = p; present = rw same at i.present },
      )

  -- A thread that comes too late with its post.
  publish_late :
      (b : Bl) (p : ℕ)
      → Shut b
      → b.post_at p ≡ post
      → post.id ≡ postid
      → publish entries globals subs tags w p b ≡ panic
  unfolding publish
  publish_late b p s at same =
      let there : (heap entries globals subs tags w b p).id ≡ postid = rw at same in
      ap (inserted entries globals subs tags w p b) (
        index_insert_post_exists entries globals subs (heap entries globals subs tags w b) p s.held
          b.index s.memory (rw there s.present))

  abbrev pub phase' : Thread → Ts → Phase
  phase' = phase entries globals subs tags w

  module _
      (read : post_refresh tags w (fresh_post entries globals subs tags w postid false)
        ≡ Post.done post) where
    pub kept : HasTagSet tags w postid post
    kept = subst (Done (HasTagSet tags w postid)) read (
        post_refresh-HasTagSet tags w postid _ (fresh-HasTagSet entries globals subs tags w postid))

    abbrev pub step' : Phase → Bl → Phase × Bl
    step' = step entries globals subs tags w postid

    abbrev pub turn' : Thread → Ts → Ts
    turn' = turn entries globals subs tags w postid

    abbrev pub run' : List Thread → Ts → Ts
    run' = run entries globals subs tags w postid

    step_lookup : (b : Bl) → Open b → step' started b ≡ (missed, b)
    unfolding step
    step_lookup b o = ap (after_lookup entries globals subs tags w b) o.absent

    pub step_build :
        (b : Bl)
        → b.index.memory ≡ []
        → step' missed b ≡ (has_post b.next, with_post entries globals subs tags w b post)
    unfolding step
    step_build b mem =
        ap (after_build entries globals subs tags w b)
          (build_lem entries globals subs tags w b postid post mem read)

    pub step_late :
        (b : Bl) (p : ℕ) → Shut b → b.post_at p ≡ post → step' (has_post p) b ≡ (crashed, b)
    unfolding step
    step_late b p s at =
        ap (after_publish entries globals subs tags w b) (publish_late b p s at kept.same_id)

    -- What a turn makes of the threads, where it ends with `r`.
    abbrev pub put : Thread → Ts → Phase × Bl → Ts
    put first x r = record { one = r.0; two = x.two; blog = r.1 }
    put second x r = record { one = x.one; two = r.0; blog = r.1 }

    pub turn-put :
        (t : Thread) (x : Ts) (ph : Phase) (r : Phase × Bl)
        → phase' t x ≡ ph
        → step' ph x.blog ≡ r
        → turn' t x ≡ put t x r
    turn-put first x ph r e s = ap (λ q. put first x (step' q x.blog)) e ∙ ap (put first x) s
    turn-put second x ph r e s = ap (λ q. put second x (step' q x.blog)) e ∙ ap (put second x) s

    -- Neither thread has inserted the post.
    pub record Before (i j : ℕ) (x : Ts) : Type 0 where
      pub one : Stage i x.one x.blog
      pub two : Stage j x.two x.blog
      pub free : Open x.blog

    record Stepped (i : ℕ) (b : Bl) (r : Phase × Bl) : Type 0 where
      now : Stage i r.0 r.1
      others : (k : ℕ) (ph : Phase) → Stage k ph b → Stage k ph r.1
      pub free : Open r.1

    step-Stepped :
        (i : ℕ) (ph : Phase) (b : Bl)
        → i < 2
        → Stage i ph b
        → Open b
        → Stepped (suc i) b (step' ph b)
    step-Stepped zero ph b lt h o =
        subst (Stepped 1 b) (sym (ap (λ q. step' q b) h ∙ step_lookup b o))
          (record { now = refl; others = λ k ph s. s; free = o })
    step-Stepped (suc zero) ph b lt h o =
        subst (Stepped 2 b) (sym (ap (λ q. step' q b) h ∙ step_build b o.memory)) (record {
          now = new_post b;
          others = λ k ph s. Stage-with_post k ph b s;
          free = record { consistent = o.consistent; memory = o.memory; absent = o.absent };
        })
    step-Stepped (suc (suc n)) ph b lt h o = absurd (omega arith)

    pub run-Before :
        (s : List Thread) (i j n m : ℕ) (x : Ts)
        → n ≡ i + turns first s
        → m ≡ j + turns second s
        → n ≤ 2
        → m ≤ 2
        → Before i j x
        → Before n m (run' s x)
    unfolding run
    run-Before [] i j n m x e f le le' h =
        let e' : i ≡ n = omega (arith, e) in
        let f' : j ≡ m = omega (arith, f) in
        subst (λ k. Before k m x) e' (subst (λ k. Before i k x) f' h)
    run-Before (first ∷ s) i j n m x e f le le' h =
        let r = step-Stepped i x.one x.blog (omega (arith, e, le)) h.one h.free in
        run-Before s (suc i) j n m (turn' first x) (omega (arith, e)) f le le'
          (record { one = r.now; two = r.others j x.two h.two; free = r.free })
    run-Before (second ∷ s) i j n m x e f le le' h =
        let r = step-Stepped j x.two x.blog (omega (arith, f, le')) h.two h.free in
        run-Before s i (suc j) n m (turn' second x) e (omega (arith, f)) le le'
          (record { one = r.others i x.one h.one; two = r.now; free = r.free })
