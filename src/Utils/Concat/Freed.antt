-- ===== src/Utils/Concat/Freed.antt =====
-- What concat5 frees.
use blahgd.Prelude.{
  ℕ, zero, suc, ◌≢◌, length, ◌+◌, ◌≤◌, ◌≡◌, refl, ap, Bool, true, false, List, [], ◌∷◌, ◌++◌,
  Option, none, some, arith, ◌==◌, if◌then◌else◌, any, Bytes, Bool-cases, inl, inr,
}
use blahgd.Utils.Concat.{
  Sources, same_ptr, tofree, freed, sum_srcs, no_sums, src_at, joined, concat5, free_loop,
}
use blahgd.Utils.Concat.Joined.{
  Above, Below, given, nsrc-sum_srcs, totallen-sum_srcs, sum_srcs-Above, sum_srcs-Below, length-nil,
  joined-nil_of_first, joined-nil_of_last,
}

-- How often a pointer is freed.
abbrev pub count : ℕ → List ℕ → ℕ
count p [] = 0
count p (q ∷ frees) = (if p == q then 1 else 0) + count p frees

count-append : (p : ℕ) (xs ys : List ℕ) → count p (xs ++ ys) ≡ count p xs + count p ys
count-append p [] ys = omega arith
count-append p (q ∷ xs) ys = omega (arith, count-append p xs ys)

-- Whether a pointer is among the sources.
abbrev pub occurs : ℕ → Sources → ℕ
occurs p src = if any (same_ptr p) src then 1 else 0

-- A loop over all indices frees each pointer among the sources once.
freed_once :
    (lo hi i p : ℕ) (src : Sources)
    → Above lo i src
    → Below hi i src
    → count p (freed lo hi i src (tofree src)) ≡ occurs p src
unfolding freed
freed_once lo hi i p [] h k = refl
freed_once lo hi i p (none ∷ src) h k = ground (arith, freed_once lo hi (i + 1) p src h k)
freed_once lo hi i p (some q ∷ src) h k = ground (arith, freed_once lo hi (i + 1) p src h.1 k.1)

freed_past : (lo hi i : ℕ) (src : Sources) (bits : List Bool) → hi ≤ i → freed lo hi i src bits ≡ []
unfolding freed
freed_past lo hi i [] bits h = refl
freed_past lo hi i (q ∷ src) [] h = refl
freed_past lo hi i (q ∷ src) (b ∷ bits) h = ground (arith, freed_past lo hi (i + 1) src bits)

any_of_src_at :
    (src : Sources) (d p : ℕ) → src_at src (some d) ≡ some p → any (same_ptr p) src ≡ true
any_of_src_at [] d p h = cc
any_of_src_at (none ∷ src) zero p h = cc
any_of_src_at (some q ∷ src) zero p h = ground arith
any_of_src_at (none ∷ src) (suc d) p h = any_of_src_at src d p h
any_of_src_at (some q ∷ src) (suc d) p h = ground (arith, any_of_src_at src d p h)

freed_before :
    (lo hi i d p : ℕ) (src : Sources)
    → hi ≡ i + d
    → src_at src (some d) ≡ some p
    → count p (freed lo hi i src (tofree src)) ≡ 0
unfolding freed
freed_before lo hi i d p [] e h = refl
freed_before lo hi i zero p (q ∷ src) e h =
    rw (freed_past lo hi (i + 1) src (tofree src) (omega arith)) (ground arith)
freed_before lo hi i (suc d) p (none ∷ src) e h =
    ground (arith, freed_before lo hi (i + 1) d p src (omega arith) h)
freed_before lo hi i (suc d) p (some q ∷ src) e h =
    ground (arith, freed_before lo hi (i + 1) d p src (omega arith) h, any_of_src_at src d p h)

module _ (text : ℕ → Bytes) where
  free_loop-count :
      (src : Sources) (p : ℕ) (f l : Option ℕ)
      → joined text src ≢ []
      → (sum_srcs text 0 no_sums src).first ≡ f
      → (sum_srcs text 0 no_sums src).last ≡ l
      → count p (free_loop 1 f l src) ≡ occurs p src
  free_loop-count src p none l h e k = absurd (h (joined-nil_of_first text 0 no_sums src e))
  free_loop-count src p (some f) none h e k = absurd (h (joined-nil_of_last text 0 no_sums src k))
  free_loop-count src p (some f) (some l) h e k =
      freed_once f (l + 1) 0 p src (sum_srcs-Above text 0 no_sums src f refl e)
        (sum_srcs-Below text 0 no_sums src l k)

  free_loop_last :
      (src : Sources) (p : ℕ) (f l : Option ℕ)
      → src_at src l ≡ some p
      → count p (free_loop 0 f l src) ≡ 0
  free_loop_last src p none l e = refl
  free_loop_last src p (some f) none e = refl
  free_loop_last src p (some f) (some l) e = freed_before f (l + 0) 0 l p src (omega arith) e

  -- When concat5 is given a number of sources other than one and their text is not empty, every
  -- pointer among the sources is freed exactly once, and no other pointer is freed.
  pub concat5-count :
      (src : Sources) (p : ℕ)
      → given src ≢ 1
      → joined text src ≢ []
      → count p (concat5 text src).frees ≡ occurs p src
  unfolding concat5
  concat5-count src p many full =
      let a : ((sum_srcs text 0 no_sums src).nsrc == 1) ≡ false =
        ground (arith, nsrc-sum_srcs text 0 no_sums src) in
      elim (Bool-cases ((sum_srcs text 0 no_sums src).totallen == 0)) [
        | inl e ↦ absurd (
            full (
              length-nil text (joined text src)
                (ground (arith, totallen-sum_srcs text 0 no_sums src))))
        | inr e ↦ rw (a, e) (free_loop-count src p _ _ full refl refl)
      ]

  -- When concat5 is given a number of sources other than one and all of them are empty strings,
  -- the source at the last index is never freed.
  pub concat5_leak :
      (src : Sources) (p : ℕ)
      → given src ≢ 1
      → joined text src ≡ []
      → src_at src (sum_srcs text 0 no_sums src).last ≡ some p
      → count p (concat5 text src).frees ≡ 0
  unfolding concat5
  concat5_leak src p many empty last =
      let a : ((sum_srcs text 0 no_sums src).nsrc == 1) ≡ false =
        ground (arith, nsrc-sum_srcs text 0 no_sums src) in
      let b : ((sum_srcs text 0 no_sums src).totallen == 0) ≡ true =
        ground (arith, totallen-sum_srcs text 0 no_sums src, ap length empty) in
      rw (a, b) (free_loop_last src p _ _ last)
