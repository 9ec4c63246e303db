-- ===== src/Load/Race/Overlap.antt =====
-- Two threads that load one new post, in every order in which both look it up before one inserts it.
use blahgd.Prelude.{
  ℕ, zero, suc, ◌+◌, ◌≤◌, ◌≡◌, refl, sym, ap, ◌∙◌, subst, false, List, [], ◌∷◌, ◌++◌, none, some,
  arith, Bytes, strcasecmp,
}
use blahgd.Extern.Rb.{RbApi}
use blahgd.Index.{
  GlobalEntry, IndexEntry, Subindex, index_cmp, global_index_cmp, tag_cmp, index_lookup_post,
}
use blahgd.Index.Insert.{IsConsistent}
use blahgd.Post
use blahgd.Post.{Post, World, post_refresh}
use blahgd.Load.{Blog, loaded, fresh_post, publish}
use blahgd.Load.Cache.{with_post}
use blahgd.Load.Race.{
  phase, step, turn, Phase, missed, has_post, returned, crashed, Thread, first, second, other,
  turns, after_publish, step, Threads, turn, run, both_started,
}
use blahgd.Load.Race.Stages.{
  Stage, Shut, new_post, publish_first, kept, put, turn-put, step_build, step_late, Before,
  run-Before,
}

module _ (entries : RbApi IndexEntry index_cmp) (globals : RbApi GlobalEntry global_index_cmp)
    (subs : RbApi (Subindex entries.Tree) tag_cmp) (tags : RbApi Bytes strcasecmp) (w : World)
    (postid : ℕ) (post : Post tags.Tree) where
  abbrev Bl : Type 0
  Bl = Blog entries globals subs tags w

  abbrev Ts : Type 0
  Ts = Threads entries globals subs tags w

  abbrev pub phase' : Thread → Ts → Phase
  phase' = phase entries globals subs tags w

  abbrev step' : Phase → Bl → Phase × Bl
  step' = step entries globals subs tags w postid

  abbrev turn' : Thread → Ts → Ts
  turn' = turn entries globals subs tags w postid

  abbrev run' : List Thread → Ts → Ts
  run' = run entries globals subs tags w postid

  abbrev pub HasReturned : Phase → Type 0
  HasReturned ph = (p : ℕ) × (ph ≡ returned (some p))

  -- One thread has returned its post and the other one has stopped the program.
  pub record IsWon (t : Thread) (x : Ts) : Type 0 where
    pub winner : HasReturned (phase' t x)
    pub loser : phase' (other t) x ≡ crashed

  module _
      (read : post_refresh tags w (fresh_post entries globals subs tags w postid false)
        ≡ Post.done post) where
    -- One thread has inserted the post and returned it, and the other one has had `j` turns.
    record After (t : Thread) (j : ℕ) (x : Ts) : Type 0 where
      winner : HasReturned (phase' t x)
      loser : Stage entries globals subs tags w postid post j (phase' (other t) x) x.blog
      shut : Shut entries globals subs tags w postid post x.blog

    -- A thread that has come to an end stays as it is.
    idle :
        (t : Thread) (x : Ts) (ph : Phase)
        → phase' t x ≡ ph
        → step' ph x.blog ≡ (ph, x.blog)
        → turn' t x ≡ x
    idle first x ph e s =
        turn-put entries globals subs tags w postid post read first x ph (ph, x.blog) e s
        ∙ ap (λ q. put entries globals subs tags w postid post read first x (q, x.blog)) (sym e)
    idle second x ph e s =
        turn-put entries globals subs tags w postid post read second x ph (ph, x.blog) e s
        ∙ ap (λ q. put entries globals subs tags w postid post read second x (q, x.blog)) (sym e)

    idle_winner : (t : Thread) (x : Ts) → HasReturned (phase' t x) → turn' t x ≡ x
    unfolding step
    idle_winner t x h = idle t x (returned (some h.0)) h.1 refl

    idle_loser : (t : Thread) (x : Ts) → phase' t x ≡ crashed → turn' t x ≡ x
    unfolding step
    idle_loser t x h = idle t x crashed h refl

    turn-IsWon : (t u : Thread) (x : Ts) → IsWon t x → turn' u x ≡ x
    turn-IsWon first first x h = idle_winner first x h.winner
    turn-IsWon first second x h = idle_loser second x h.loser
    turn-IsWon second first x h = idle_loser first x h.loser
    turn-IsWon second second x h = idle_winner second x h.winner

    run-IsWon : (t : Thread) (s : List Thread) (x : Ts) → IsWon t x → IsWon t (run' s x)
    unfolding run
    run-IsWon t [] x h = h
    run-IsWon t (u ∷ s) x h =
        run-IsWon t s (turn' u x) (subst (IsWon t) (sym (turn-IsWon t u x h)) h)

    -- A turn of the loser.
    lose :
        (t : Thread) (x : Ts) (ph : Phase) (r : Phase × Bl)
        → phase' (other t) x ≡ ph
        → step' ph x.blog ≡ r
        → (Q : Ts → Type 0) → Q (put entries globals subs tags w postid post read (other t) x r)
        → Q (turn' (other t) x)
    lose t x ph r e s Q q =
        subst Q (sym (turn-put entries globals subs tags w postid post read (other t) x ph r e s)) q

    put-After :
        (t : Thread) (x : Ts) (r : Phase × Bl) (j : ℕ)
        → HasReturned (phase' t x)
        → Stage entries globals subs tags w postid post j r.0 r.1
        → Shut entries globals subs tags w postid post r.1
        → After t j (put entries globals subs tags w postid post read (other t) x r)
    put-After first x r j h k s = record { winner = h; loser = k; shut = s }
    put-After second x r j h k s = record { winner = h; loser = k; shut = s }

    put-IsWon :
        (t : Thread) (x : Ts) (b : Bl)
        → HasReturned (phase' t x)
        → IsWon t (put entries globals subs tags w postid post read (other t) x (crashed, b))
    put-IsWon first x b h = record { winner = h; loser = refl }
    put-IsWon second x b h = record { winner = h; loser = refl }

    lose_build : (t : Thread) (x : Ts) → After t 1 x → After t 2 (turn' (other t) x)
    lose_build t x h =
        let r : Phase × Bl =
          (has_post x.blog.next, with_post entries globals subs tags w x.blog post) in
        lose t x missed r h.loser
          (step_build entries globals subs tags w postid post read x.blog h.shut.memory) (After t 2)
          (put-After t x r 2 h.winner (new_post entries globals subs tags w postid post x.blog)
            (record { memory = h.shut.memory; held = h.shut.held; present = h.shut.present }))

    lose_publish : (t : Thread) (x : Ts) → After t 2 x → IsWon t (turn' (other t) x)
    lose_publish t x h =
        lose t x (has_post h.loser.0) (crashed, x.blog) h.loser.1
          (step_late entries globals subs tags w postid post read x.blog h.loser.0 h.shut h.loser.3)
          (IsWon t) (put-IsWon t x x.blog h.winner)

    -- A turn of either, with the rest of the schedule.
    turn-After :
        (t : Thread) (s : List Thread)
        → ((x : Ts) → After t 1 x → 2 ≤ turns (other t) s → IsWon t (run' s x))
        → ((x : Ts) → After t 2 x → 1 ≤ turns (other t) s → IsWon t (run' s x))
        → (j : ℕ) (x : Ts) → 1 ≤ j
        → After t j x
        → 3 ≤ j + suc (turns (other t) s)
        → IsWon t (run' s (turn' (other t) x))
    turn-After t s f g zero x lo h e = absurd (omega arith)
    turn-After t s f g (suc zero) x lo h e =
        g (turn' (other t) x) (lose_build t x h) (omega (arith, e))
    turn-After t s f g (suc (suc zero)) x lo h e =
        run-IsWon t s (turn' (other t) x) (lose_publish t x h)
    turn-After t s f g (suc (suc (suc n))) x lo h e = absurd h.loser

    run-After :
        (t : Thread) (s : List Thread) (j : ℕ) (x : Ts)
        → 1 ≤ j
        → After t j x
        → 3 ≤ j + turns (other t) s
        → IsWon t (run' s x)
    unfolding run
    run-After t [] zero x lo h e = absurd (omega arith)
    run-After t [] (suc zero) x lo h e = absurd (omega (arith, e))
    run-After t [] (suc (suc zero)) x lo h e = absurd (omega (arith, e))
    run-After t [] (suc (suc (suc n))) x lo h e = absurd h.loser
    run-After first (first ∷ s) j x lo h e =
        subst (λ y. IsWon first (run' s y)) (sym (idle_winner first x h.winner))
          (run-After first s j x lo h e)
    run-After first (second ∷ s) j x lo h e =
        turn-After first s (λ y k l. run-After first s 1 y (omega arith) k (omega (arith, l)))
          (λ y k l. run-After first s 2 y (omega arith) k (omega (arith, l))) j x lo h e
    run-After second (first ∷ s) j x lo h e =
        turn-After second s (λ y k l. run-After second s 1 y (omega arith) k (omega (arith, l)))
          (λ y k l. run-After second s 2 y (omega arith) k (omega (arith, l))) j x lo h e
    run-After second (second ∷ s) j x lo h e =
        subst (λ y. IsWon second (run' s y)) (sym (idle_winner second x h.winner))
          (run-After second s j x lo h e)

    Stage-moved :
        (k : ℕ) (ph : Phase) (b b' : Bl)
        → b'.next ≡ b.next
        → b'.post_at ≡ b.post_at
        → Stage entries globals subs tags w postid post k ph b
        → Stage entries globals subs tags w postid post k ph b'
    Stage-moved zero ph b b' e f h = h
    Stage-moved (suc zero) ph b b' e f h = h
    Stage-moved (suc (suc zero)) ph b b' e f h =
        (h.0, h.1, omega (arith, e, h.2), ap (λ g. g h.0) f ∙ h.3)
    Stage-moved (suc (suc (suc n))) ph b b' e f h = h

    step_first :
        (b b' : Bl) (p : ℕ)
        → publish entries globals subs tags w p b ≡ loaded p b'
        → step' (has_post p) b ≡ (returned (some p), b')
    unfolding step
    step_first b b' p e = ap (after_publish entries globals subs tags w b) e

    -- The first insertion, by either thread.
    win_first :
        (j : ℕ) (x : Ts)
        → Before entries globals subs tags w postid post read 2 j x
        → After first j (turn' first x)
    win_first j x h =
        let (b', e, n, a, s) =
          publish_first entries globals subs tags w postid post x.blog h.one.0 h.free h.one.3
            (kept entries globals subs tags w postid post read) in
        subst (After first j)
          (sym (
            turn-put entries globals subs tags w postid post read first x (has_post h.one.0)
              (returned (some h.one.0), b') h.one.1 (step_first x.blog b' h.one.0 e)))
          (record {
            winner = (h.one.0, refl);
            loser = Stage-moved j x.two x.blog b' n a h.two;
            shut = s;
          })

    win_second :
        (j : ℕ) (x : Ts)
        → Before entries globals subs tags w postid post read j 2 x
        → After second j (turn' second x)
    win_second j x h =
        let (b', e, n, a, s) =
          publish_first entries globals subs tags w postid post x.blog h.two.0 h.free h.two.3
            (kept entries globals subs tags w postid post read) in
        subst (After second j)
          (sym (
            turn-put entries globals subs tags w postid post read second x (has_post h.two.0)
              (returned (some h.two.0), b') h.two.1 (step_first x.blog b' h.two.0 e)))
          (record {
            winner = (h.two.0, refl);
            loser = Stage-moved j x.one x.blog b' n a h.one;
            shut = s;
          })

    win :
        (t : Thread) (s : List Thread) (x : Ts)
        → turns t s ≡ 2
        → turns (other t) s ≤ 2
        → Before entries globals subs tags w postid post read 0 0 x
        → After t (turns (other t) s) (turn' t (run' s x))
    win first s x e le h = win_first (turns second s) (run' s x) (
        run-Before entries globals subs tags w postid post read s 0 0 2 (turns second s) x
          (omega (arith, e)) (omega arith) (omega arith) le h)
    win second s x e le h = win_second (turns first s) (run' s x) (
        run-Before entries globals subs tags w postid post read s 0 0 (turns first s) 2 x
          (omega arith) (omega (arith, e)) le (omega arith) h)

  run-append :
      (s s' : List Thread) (x : Ts)
      → run entries globals subs tags w postid (s ++ s') x
        ≡ run entries globals subs tags w postid s' (run entries globals subs tags w postid s x)
  unfolding run
  run-append [] s' x = refl
  run-append (u ∷ s) s' x = run-append s s' (turn entries globals subs tags w postid u x)

  -- When no allocation fails and two threads load one post that is not in a consistent index and can
  -- be read, then in every order of their turns in which the first of them to insert the post, by its
  -- third turn, does so after the other one has looked the post up and before it inserts, and in which
  -- the other one has its three turns, too, the first returns its post and the other one stops the
  -- program: its insertion finds the id and the assertion fails. Either thread may be the first.
  pub load_post_race :
      (b : Bl) (t : Thread) (before after : List Thread)
      → IsConsistent entries globals subs b.index
      → b.index.memory ≡ []
      → index_lookup_post entries globals subs b.index postid ≡ none
      → post_refresh tags w (fresh_post entries globals subs tags w postid false) ≡ Post.done post
      → turns t before ≡ 2
      → 1 ≤ turns (other t) before
      → turns (other t) before ≤ 2
      → 3 ≤ turns (other t) before + turns (other t) after
      → IsWon t (
          run entries globals subs tags w postid
            (before ++ t ∷ after)
            (both_started entries globals subs tags w b))
  unfolding run
  load_post_race b t before after c mem absent read two lo hi three =
      let x = both_started entries globals subs tags w b in
      subst (IsWon t) (sym (run-append before (t ∷ after) x)) (
        run-After read t after (turns (other t) before) _ lo
          (win read t before x two hi (record {
            one = refl;
            two = refl;
            free = record { consistent = c; memory = mem; absent = absent };
          }))
          three)
