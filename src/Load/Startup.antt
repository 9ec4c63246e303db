-- ===== src/Load/Startup.antt =====
-- After the program has started, every post can be found.
use blahgd.Prelude.{
  ℕ, ◌≡◌, refl, sym, ap, ◌∙◌, true, false, List, [], ◌∷◌, none, some, length, All, All-Permᴰ, Bytes,
  strcasecmp, Option-cases, inl, inr,
}
use mathlib.Core.List.{Permᴰ}
use mathlib.Core.List.Permᴰ
use blahgd.Extern.Rb.{RbApi}
use blahgd.Index.{
  GlobalEntry, IndexEntry, Subindex, index_cmp, global_index_cmp, tag_cmp, index_lookup_post,
}
use blahgd.Index.Insert.{IsConsistent}
use blahgd.Post
use blahgd.Post.{Post, World, post_refresh}
use blahgd.Load.{loaded, fresh_post, load_post}
use blahgd.Load.Cache.{B, load_cached, load_post-Cached}
use blahgd.Load.All.{Startup, finished, posts_dir, post_ids, after_load, run_tasks, load_all_posts}

some-not-none : {A : Type 0} {a : A} → ¬ (some a ≡ none)
some-not-none h = cc

module _ (entries : RbApi IndexEntry index_cmp) (globals : RbApi GlobalEntry global_index_cmp)
    (subs : RbApi (Subindex entries.Tree) tag_cmp) (tags : RbApi Bytes strcasecmp) (w : World) where
  abbrev Bl : Type 0
  Bl = B entries globals subs tags w

  -- The files of a post can be read.
  pub record IsReadable (postid : ℕ) : Type 0 where
    pub post : Post tags.Tree
    pub read :
        post_refresh tags w (fresh_post entries globals subs tags w postid false) ≡ Post.done post

  pub record IsFound (b : Bl) (postid : ℕ) : Type 0 where
    pub at : ℕ
    pub found : index_lookup_post entries globals subs b.index postid ≡ some at

  -- A consistent index, of which no allocation fails.
  pub record IsReady (b : Bl) : Type 0 where
    pub consistent : IsConsistent entries globals subs b.index
    pub memory : b.index.memory ≡ []

  -- What is found stays where it is.
  abbrev pub Keeps : Bl → Bl → Type 0
  Keeps b b' =
      (i p : ℕ)
      → index_lookup_post entries globals subs b.index i ≡ some p
      → index_lookup_post entries globals subs b'.index i ≡ some p

  pub record HasLoaded (b b' : Bl) (ids : List ℕ) : Type 0 where
    pub ready : IsReady b'
    pub all : All (IsFound b') ids
    pub keeps : Keeps b b'

  one_load :
      (b : Bl) (postid : ℕ)
      → IsReady b
      → IsReadable postid
      → (p : ℕ) × (b' : Bl) × (load_post entries globals subs tags w b postid false ≡ loaded p b')
        × HasLoaded b b' (postid ∷ [])
  one_load b postid ready readable =
      elim (Option-cases (index_lookup_post entries globals subs b.index postid)) [
        | inr (p, e) ↦ (
          p,
          b,
          load_cached entries globals subs tags w b postid p e,
          record { ready = ready; all = (record { at = p; found = e }, tt); keeps = λ i q h. h },
        )
        | inl e ↦
            let (b', l, c) =
              load_post-Cached entries globals subs tags w b postid readable.post ready.consistent
                ready.memory e readable.read in
            (
              b.next,
              b',
              l,
              record {
                ready = record { consistent = c.consistent; memory = c.memory };
                all = (record { at = b.next; found = c.found }, tt);
                keeps = λ i q h.
                    c.others i (λ s.
                      some-not-none
                        (sym h ∙ (ap (index_lookup_post entries globals subs b.index) s ∙ e)))
                    ∙ h;
              },
            )
      ]

  IsFound-kept : (b b' : Bl) (i : ℕ) → Keeps b b' → IsFound b i → IsFound b' i
  IsFound-kept b b' i k f = record { at = f.at; found = k i f.at f.found }

  after_one :
      (b b' : Bl) (nposts postid p : ℕ) (ids : List ℕ)
      → load_post entries globals subs tags w b postid false ≡ loaded p b'
      → run_tasks entries globals subs tags w nposts (postid ∷ ids) b
        ≡ run_tasks entries globals subs tags w nposts ids b'
  unfolding run_tasks
  after_one b b' nposts postid p ids e =
      ap
        (λ l.
          after_load entries globals subs tags w l
            (run_tasks entries globals subs tags w nposts ids))
        e

  run_tasks-HasLoaded :
      (nposts : ℕ) (ids : List ℕ) (b : Bl)
      → IsReady b
      → All IsReadable ids
      → (b' : Bl) × (run_tasks entries globals subs tags w nposts ids b ≡ finished nposts b')
        × HasLoaded b b' ids
  unfolding run_tasks
  run_tasks-HasLoaded nposts [] b ready h =
      (b, refl, record { ready = ready; all = tt; keeps = λ i p k. k })
  run_tasks-HasLoaded nposts (postid ∷ ids) b ready h =
      let (p, b1, e, one) = one_load b postid ready h.0 in
      let (b', k, rest) = run_tasks-HasLoaded nposts ids b1 one.ready h.1 in
      (
        b',
        after_one b b1 nposts postid p ids e ∙ k,
        record {
          ready = rest.ready;
          all = (IsFound-kept b1 b' postid rest.keeps one.all.0, rest.all);
          keeps = λ i q f. rest.keeps i q (one.keeps i q f);
        },
      )

  -- When the directory of posts can be opened, the queue can be created and runs each load once and
  -- whole, in whatever order, no allocation fails, the index is consistent and the files of every
  -- post in the directory can be read, at the paths that post.c prints with the id as a signed 32-bit
  -- number, then load_all_posts succeeds with the number of these posts:
  -- afterwards the index is consistent, finds every one of them, and finds what it has found before
  -- where it has been.
  pub load_all_posts-HasLoaded :
      (s : Startup) (names : List Bytes) (b : Bl)
      → s.names (posts_dir entries globals subs tags w) ≡ some names
      → s.queue ≡ true
      → ((l : List ℕ) → Permᴰ l (s.order l))
      → IsReady b
      → All IsReadable (post_ids entries globals subs tags w s names)
      → (b' : Bl) × (load_all_posts entries globals subs tags w s b
          ≡ finished (length (post_ids entries globals subs tags w s names)) b')
        × HasLoaded b b' (post_ids entries globals subs tags w s names)
  unfolding load_all_posts
  load_all_posts-HasLoaded s names b opened queue once ready h =
      let ids = post_ids entries globals subs tags w s names in
      let (b', e, r) =
        run_tasks-HasLoaded (length ids) (s.order ids) b ready
          (All-Permᴰ IsReadable (once ids) h) in
      (
        b',
        rw (opened, queue) e,
        record {
          ready = r.ready;
          all = All-Permᴰ (IsFound b') (Permᴰ.symm (once ids)) r.all;
          keeps = r.keeps;
        },
      )
