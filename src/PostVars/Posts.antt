-- ===== src/PostVars/Posts.antt =====
-- What load_posts sets where no call fails.
use blahgd.Prelude.{
  ℕ, ◌+◌, ◌≡◌, refl, sym, ap, ◌∙◌, Bool, List, [], ◌∷◌, ◌++◌, Option, none, some, arith, length,
  map, ltb, if◌then◌else◌, max, Bytes, strcasecmp, append_assoc, append-nil, suc, ◌⊎◌, inl, inr,
  Option-cases,
}
use blahgd.Extern.Rb.{RbApi}
use blahgd.Post
use blahgd.Post.{Comment, Post, World, post_refresh}
use blahgd.PostVars.{
  CommentVars, PostVars, Lists, comment_vars, com_loop, com_val, tag_val, set_post, store_vars,
  posts_loop, load_posts, add_post,
}

some_inj : {A : Type 0} {x y : A} → some x ≡ some y → x ≡ y
some_inj h = cc

-- No call will fail.
abbrev pub plenty : ℕ → Lists
plenty n = record { results = []; live = n }

com_loop-plenty :
    (i n : ℕ) (cs : List Comment)
    → com_loop i cs (plenty n) ≡ (some (map comment_vars cs), plenty (n + length cs))
unfolding com_loop
com_loop-plenty i n [] = ap (λ m. (some [], plenty m)) (omega arith)
com_loop-plenty i n (c ∷ cs) =
    let e : n + 1 + length cs ≡ n + suc (length cs) = omega arith in
    simp (com_loop-plenty (i + 1) (n + 1) cs)
      (ap (λ m. (some (comment_vars c ∷ map comment_vars cs), plenty m)) e)

abbrev pub comments_of : List Comment → Option (List CommentVars)
comments_of [] = none
comments_of (c ∷ cs) = some (map comment_vars (c ∷ cs))

com_val-plenty :
    (n : ℕ) (cs : List Comment)
    → com_val cs (plenty n) ≡ (some (comments_of cs), plenty (n + length cs))
unfolding com_val
com_val-plenty n [] = ap (λ m. (some none, plenty m)) (omega arith)
com_val-plenty n (c ∷ cs) = simp (com_loop-plenty 0 n (c ∷ cs)) refl

module _ (tags : RbApi Bytes strcasecmp) (w : World) where
  abbrev pub P : Type 0
  P = Post tags.Tree

  abbrev pub vars_of : P → PostVars
  vars_of post = record {
    id = post.id;
    time = post.time;
    title = post.title;
    numcom = post.numcom;
    body = post.body;
    tags = tags.to_list post.tags;
    comments = comments_of post.comments;
  }

  pub store_vars-plenty :
      (n : ℕ) (post : P)
      → store_vars tags post (plenty n)
        ≡ (some (vars_of post), plenty (n + 1 + length post.comments))
  unfolding store_vars set_post tag_val
  store_vars-plenty n post = simp (com_val-plenty (n + 1) post.comments) refl

  -- All posts, each read again where it has to be.
  abbrev pub all_refreshed : List P → Option (List P)
  all_refreshed [] = some []
  all_refreshed (p ∷ ps) = elim (post_refresh tags w p) [
    | Post.done post ↦ elim (all_refreshed ps) [ none ↦ none | some qs ↦ some (post ∷ qs) ]
    | Post.failed post ↦ none
    | Post.panic ↦ none
  ]

  abbrev pub latest : ℕ → List P → ℕ
  latest t [] = t
  latest t (p ∷ ps) = latest (max t p.time) ps

  Outcome-cases :
      (o : Post.Outcome P)
      → ((q : P) × (o ≡ Post.done q)) ⊎ (((q : P) × (o ≡ Post.failed q)) ⊎ (o ≡ Post.panic))
  Outcome-cases (Post.done q) = inl (q, refl)
  Outcome-cases (Post.failed q) = inr (inl (q, refl))
  Outcome-cases Post.panic = inr (inr refl)

  Refreshed : P → List P → List P → Type 0
  Refreshed p ps qs =
      (q : P) × (rest : List P) × (post_refresh tags w p ≡ Post.done q)
      × (all_refreshed ps ≡ some rest)
      × (qs ≡ q ∷ rest)

  first_refresh : (p : P) (ps qs : List P) → all_refreshed (p ∷ ps) ≡ some qs → Refreshed p ps qs
  unfolding Refreshed
  first_refresh p ps qs h = elim (Outcome-cases (post_refresh tags w p)) [
    | inl (q, e) ↦ elim (Option-cases (all_refreshed ps)) [
      | inl n ↦ cc (rw (e, all_refreshed, n) at h)
      | inr (rest, r) ↦ (q, rest, e, r, some_inj (sym (rw (e, all_refreshed, r) at h)))
    ]
    | inr (inl (q, e)) ↦ cc (rw (e, all_refreshed) at h)
    | inr (inr e) ↦ cc (rw (e, all_refreshed) at h)
  ]

  latest_of : (t s : ℕ) → (if ltb t s then s else t) ≡ max t s
  latest_of t s = ground arith

  -- The rest of the loop.
  abbrev resume : List P → List PostVars × ℕ × Lists → Option (List PostVars × ℕ × Lists)
  resume ps (acc, t, h) = posts_loop tags w ps acc t h

  posts_step :
      (p q : P) (ps : List P) (acc : List PostVars) (t n : ℕ)
      → post_refresh tags w p ≡ Post.done q
      → posts_loop tags w (p ∷ ps) acc t (plenty n)
        ≡ posts_loop tags w ps
            (acc ++ vars_of q ∷ [])
            (max t q.time)
            (plenty (n + 1 + length q.comments))
  unfolding posts_loop
  posts_step p q ps acc t n e =
      rw (e, posts_loop)
        (ap (λ r. resume ps (add_post tags acc t q.time r)) (store_vars-plenty n q)
          ∙ ap (λ m. resume ps (acc ++ vars_of q ∷ [], m, plenty (n + 1 + length q.comments)))
              (latest_of t q.time))

  posts_loop-plenty :
      (ps qs : List P) (acc : List PostVars) (t n : ℕ)
      → all_refreshed ps ≡ some qs
      → (m : ℕ) × (posts_loop tags w ps acc t (plenty n)
          ≡ some (acc ++ map vars_of qs, latest t qs, plenty m))
  unfolding posts_loop Refreshed
  posts_loop-plenty [] qs acc t n h =
      let e : [] ≡ qs = some_inj h in
      (n, rw (← e) (ap (λ l. some (l, t, plenty n)) (sym (append-nil acc))))
  posts_loop-plenty (p ∷ ps) qs acc t n h =
      let (q, rest, e, r, s) = first_refresh p ps qs h in
      let (m, k) =
        posts_loop-plenty ps rest (acc ++ vars_of q ∷ []) (max t q.time) (n + 1 + length q.comments)
          r in
      (
        m,
        posts_step p q ps acc t n e
            ∙ (k
                ∙ (ap (λ l. some (l, latest (max t q.time) rest, plenty m))
                      (append_assoc acc (vars_of q ∷ []) (map vars_of rest))
                    ∙ ap (λ l. some (acc ++ map vars_of l, latest t l, plenty m)) (sym s))),
      )

  -- Where no call fails and every post can be refreshed, load_posts sets the variable `posts` to the
  -- variables of all posts as they are after the refresh, in their order, `lastupdate` to the latest
  -- of their times, and `moreposts` to what it is given.
  pub load_posts-latest :
      (ps qs : List P) (moreposts : Bool) (n : ℕ)
      → all_refreshed ps ≡ some qs
      → (m : ℕ) × (load_posts tags w ps moreposts (plenty n)
          ≡ some (
            record { posts = map vars_of qs; lastupdate = latest 0 qs; moreposts = moreposts },
            plenty m,
          ))
  unfolding load_posts
  load_posts-latest ps qs moreposts n h =
      let (m, k) = posts_loop-plenty ps qs [] 0 n h in (m, rw (load_posts, k) refl)
