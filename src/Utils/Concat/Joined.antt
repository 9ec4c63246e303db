-- ===== src/Utils/Concat/Joined.antt =====
-- The string that concat5 returns.
use blahgd.Prelude.{
  ℕ, suc, ◌+◌, ◌≤◌, ◌<◌, ◌≡◌, refl, sym, ◌≢◌, [], ◌∷◌, Option, none, some, arith, ◌==◌, length,
  length-append, Bytes, Bool-cases, inl, inr, append-nil,
}
use blahgd.Utils.Concat.{
  Sources, Sums, add_src, sum_srcs, content, copied, src_at, no_sums, concat5, out_text, joined,
  copy_loop, or_first,
}

-- All sources from index `i` on stand at indices below `hi`, or at `lo` and above.
abbrev pub Below : ℕ → ℕ → Sources → Type 0
Below hi i [] = Unit
Below hi i (none ∷ src) = Below hi (i + 1) src
Below hi i (some p ∷ src) = (i < hi) × Below hi (i + 1) src

abbrev pub Above : ℕ → ℕ → Sources → Type 0
Above lo i [] = Unit
Above lo i (none ∷ src) = Above lo (i + 1) src
Above lo i (some p ∷ src) = (lo ≤ i) × Above lo (i + 1) src

Above-of_le : (lo i : ℕ) (src : Sources) → lo ≤ i → Above lo i src
Above-of_le lo i [] h = tt
Above-of_le lo i (none ∷ src) h = Above-of_le lo (i + 1) src (omega arith)
Above-of_le lo i (some p ∷ src) h = (h, Above-of_le lo (i + 1) src (omega arith))

-- The number of sources that are not NULL.
abbrev pub given : Sources → ℕ
given [] = 0
given (none ∷ src) = given src
given (some p ∷ src) = suc (given src)

module _ (text : ℕ → Bytes) where
  copied-joined :
      (lo hi i : ℕ) (src : Sources)
      → Above lo i src
      → Below hi i src
      → copied text lo hi i src ≡ joined text src
  unfolding copied
  copied-joined lo hi i [] h k = refl
  copied-joined lo hi i (none ∷ src) h k = ground (arith, copied-joined lo hi (i + 1) src h k)
  copied-joined lo hi i (some p ∷ src) h k = ground (arith, copied-joined lo hi (i + 1) src h.1 k.1)

  first-sum_srcs :
      (i : ℕ) (s : Sums) (src : Sources) (f : ℕ)
      → s.first ≡ some f
      → (sum_srcs text i s src).first ≡ some f
  unfolding sum_srcs
  first-sum_srcs i s [] f h = h
  first-sum_srcs i s (none ∷ src) f h = first-sum_srcs (i + 1) s src f h
  first-sum_srcs i s (some p ∷ src) f h =
      first-sum_srcs (i + 1) (add_src text i s (some p)) src f (rw h)

  last_mono :
      (i : ℕ) (s : Sums) (src : Sources) (a l : ℕ)
      → s.last ≡ some a
      → a ≤ i
      → (sum_srcs text i s src).last ≡ some l
      → a ≤ l
  unfolding sum_srcs
  last_mono i s [] a l h b e = ground arith
  last_mono i s (none ∷ src) a l h b e = last_mono (i + 1) s src a l h (omega arith) e
  last_mono i s (some p ∷ src) a l h b e =
      omega (arith, last_mono (i + 1) (add_src text i s (some p)) src i l refl (omega arith) e)

  pub sum_srcs-Below :
      (i : ℕ) (s : Sums) (src : Sources) (l : ℕ)
      → (sum_srcs text i s src).last ≡ some l
      → Below (l + 1) i src
  unfolding sum_srcs
  sum_srcs-Below i s [] l e = tt
  sum_srcs-Below i s (none ∷ src) l e = sum_srcs-Below (i + 1) s src l e
  sum_srcs-Below i s (some p ∷ src) l e = (
    omega (arith, last_mono (i + 1) (add_src text i s (some p)) src i l refl (omega arith) e),
    sum_srcs-Below (i + 1) (add_src text i s (some p)) src l e,
  )

  pub sum_srcs-Above :
      (i : ℕ) (s : Sums) (src : Sources) (f : ℕ)
      → s.first ≡ none
      → (sum_srcs text i s src).first ≡ some f
      → Above f i src
  unfolding sum_srcs
  sum_srcs-Above i s [] f h e = tt
  sum_srcs-Above i s (none ∷ src) f h e = sum_srcs-Above (i + 1) s src f h e
  sum_srcs-Above i s (some p ∷ src) f h e =
      let q : some i ≡ some f =
        cc (first-sum_srcs (i + 1) (add_src text i s (some p)) src i (rw h), e) in
      (ground arith, Above-of_le f (i + 1) src (ground arith))

  -- The counts, and where nothing was found.
  nsrc-le : (i : ℕ) (s : Sums) (src : Sources) → s.nsrc ≤ (sum_srcs text i s src).nsrc
  unfolding sum_srcs
  nsrc-le i s [] = omega arith
  nsrc-le i s (none ∷ src) = nsrc-le (i + 1) s src
  nsrc-le i s (some p ∷ src) = omega (arith, nsrc-le (i + 1) (add_src text i s (some p)) src)

  pub nsrc-sum_srcs :
      (i : ℕ) (s : Sums) (src : Sources) → (sum_srcs text i s src).nsrc ≡ s.nsrc + given src
  unfolding sum_srcs
  nsrc-sum_srcs i s [] = omega arith
  nsrc-sum_srcs i s (none ∷ src) = nsrc-sum_srcs (i + 1) s src
  nsrc-sum_srcs i s (some p ∷ src) =
      omega (arith, nsrc-sum_srcs (i + 1) (add_src text i s (some p)) src)

  pub totallen-sum_srcs :
      (i : ℕ) (s : Sums) (src : Sources)
      → (sum_srcs text i s src).totallen ≡ s.totallen + length (joined text src)
  unfolding sum_srcs
  totallen-sum_srcs i s [] = omega arith
  totallen-sum_srcs i s (none ∷ src) = totallen-sum_srcs (i + 1) s src
  totallen-sum_srcs i s (some p ∷ src) = omega (
    arith,
    totallen-sum_srcs (i + 1) (add_src text i s (some p)) src,
    length-append (text p) (joined text src),
  )

  joined-nil_of_nsrc :
      (i : ℕ) (s : Sums) (src : Sources)
      → (sum_srcs text i s src).nsrc ≤ s.nsrc
      → joined text src ≡ []
  unfolding sum_srcs
  joined-nil_of_nsrc i s [] h = refl
  joined-nil_of_nsrc i s (none ∷ src) h = joined-nil_of_nsrc (i + 1) s src h
  joined-nil_of_nsrc i s (some p ∷ src) h =
      absurd (omega (arith, nsrc-le (i + 1) (add_src text i s (some p)) src))

  -- With one source, it is the one at `first`.
  abbrev FoundAt : ℕ → Sources → Option ℕ → Type 0
  FoundAt i src none = ⊥
  FoundAt i src (some f) =
      (d : ℕ) × (f ≡ i + d) × (content text (src_at src (some d)) ≡ joined text src)

  single :
      (i : ℕ) (s : Sums) (src : Sources)
      → s.first ≡ none
      → (sum_srcs text i s src).nsrc ≡ s.nsrc + 1
      → FoundAt i src (sum_srcs text i s src).first
  unfolding sum_srcs
  single i s [] h e = absurd (omega arith)
  single i s (none ∷ src) h e = shift (sum_srcs text (i + 1) s src).first (single (i + 1) s src h e)
    where
      shift : (f : Option ℕ) → FoundAt (i + 1) src f → FoundAt i (none ∷ src) f
      shift none k = k
      shift (some f) (d, p, q) = (suc d, omega arith, q)
  single i s (some p ∷ src) h e =
      rw (first-sum_srcs (i + 1) (add_src text i s (some p)) src i (rw h)) (
        0,
        omega arith,
        rw (joined-nil_of_nsrc (i + 1) (add_src text i s (some p)) src (omega arith))
            (rw append-nil),
      )

  pub length-nil : (s : Bytes) → length s ≡ 0 → s ≡ []
  length-nil [] h = refl
  length-nil (c ∷ s) h = absurd (omega arith)

  pub joined-nil_of_first :
      (i : ℕ) (s : Sums) (src : Sources)
      → (sum_srcs text i s src).first ≡ none
      → joined text src ≡ []
  unfolding sum_srcs
  joined-nil_of_first i s [] e = refl
  joined-nil_of_first i s (none ∷ src) e = joined-nil_of_first (i + 1) s src e
  joined-nil_of_first i s (some p ∷ src) e =
      cc (e, first-sum_srcs (i + 1) (add_src text i s (some p)) src (or_first s.first i) refl)

  last-ne-none :
      (i : ℕ) (s : Sums) (src : Sources) (a : ℕ)
      → s.last ≡ some a
      → (sum_srcs text i s src).last ≢ none
  unfolding sum_srcs
  last-ne-none i s [] a h e = cc
  last-ne-none i s (none ∷ src) a h e = last-ne-none (i + 1) s src a h e
  last-ne-none i s (some p ∷ src) a h e =
      last-ne-none (i + 1) (add_src text i s (some p)) src i refl e

  pub joined-nil_of_last :
      (i : ℕ) (s : Sums) (src : Sources)
      → (sum_srcs text i s src).last ≡ none
      → joined text src ≡ []
  unfolding sum_srcs
  joined-nil_of_last i s [] e = refl
  joined-nil_of_last i s (none ∷ src) e = joined-nil_of_last (i + 1) s src e
  joined-nil_of_last i s (some p ∷ src) e =
      absurd (last-ne-none (i + 1) (add_src text i s (some p)) src i refl e)

  -- The loop that copies, given what the first loop found.
  copy-joined :
      (src : Sources) (f l : Option ℕ)
      → (sum_srcs text 0 no_sums src).first ≡ f
      → (sum_srcs text 0 no_sums src).last ≡ l
      → copy_loop text f l src ≡ joined text src
  copy-joined src none l p q = sym (joined-nil_of_first 0 no_sums src p)
  copy-joined src (some f) none p q = sym (joined-nil_of_last 0 no_sums src q)
  copy-joined src (some f) (some l) p q =
      copied-joined f (l + 1) 0 src (sum_srcs-Above 0 no_sums src f refl p)
        (sum_srcs-Below 0 no_sums src l q)

  found-joined :
      (src : Sources) (f : Option ℕ)
      → FoundAt 0 src f
      → content text (src_at src f) ≡ joined text src
  found-joined src none h = absurd h
  found-joined src (some f) (d, p, q) = let e : f ≡ d = omega arith in rw e q

  -- concat5 returns a string whose text is that of all non-NULL sources, one after the other.
  pub concat5-joined : (src : Sources) → out_text text (concat5 text src).out ≡ joined text src
  unfolding concat5
  concat5-joined src = elim (Bool-cases ((sum_srcs text 0 no_sums src).nsrc == 1)) [
    | inl one ↦ rw one (found-joined src _ (single 0 no_sums src refl (ground arith)))
    | inr more ↦ elim (Bool-cases ((sum_srcs text 0 no_sums src).totallen == 0)) [
      | inl empty ↦
          rw (more, empty)
            (sym (length-nil (joined text src) (ground (arith, totallen-sum_srcs 0 no_sums src))))
      | inr full ↦ rw (more, full) (copy-joined src _ _ refl refl)
    ]
  ]
