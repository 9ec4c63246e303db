-- ===== src/PostVars/Comments.antt =====
-- The lists that __com_val allocates for the comments.
use blahgd.Prelude.{
  zero, ◌*◌, ◌&&◌, if◌then◌else◌, sym, ap, ℕ, ◌+◌, ◌≡◌, ◌∙◌, refl, Bool, true, false, List, [], ◌∷◌,
  Option, none, some, arith, length, map, subst, suc,
}
use blahgd.Post.{Comment}
use blahgd.PostVars.{
  CommentVars, Lists, M, bound, call_on, call, nvl_alloc, put_on_error, return, ◌>>◌, ◌>>=◌,
  comment_vars, set_comment, com_loop, com_val,
}

-- What holds of a result: after an error there are `l` lists, and after a success `n`, with `Q` of
-- the value.
abbrev pub Ends : {A : Type 0} → ℕ → ℕ → (A → Type 0) → Option A × Lists → Type 0
Ends l n Q (none, h) = h.live ≡ l
Ends l n Q (some a, h) = (h.live ≡ n) × Q a

pub Ends-bound :
    {A B : Type 0} (l m n : ℕ) (Q : A → Type 0) (R : B → Type 0) (r : Option A × Lists)
    (k : A → M B)
    → Ends l m Q r
    → ((a : A) (h : Lists) → h.live ≡ m → Q a → Ends l n R (k a h))
    → Ends l n R (bound r k)
Ends-bound l m n Q R (none, h) k q f = q
Ends-bound l m n Q R (some a, h) k q f = f a h q.0 q.1

pub Ends-put :
    {A : Type 0} (l i n : ℕ) (Q : A → Type 0) (r : Option A × Lists)
    → Ends (l + i) n Q r
    → Ends l n Q (put_on_error i r)
Ends-put l i n Q (none, h) q = omega (arith, q)
Ends-put l i n Q (some a, h) q = q

abbrev pub Anything : Unit {0} → Type 0
Anything u = Unit {0}

call_on-Ends : (f : ℕ → ℕ) (l : List Bool) (n : ℕ) → Ends n (f n) Anything (call_on f l n)
call_on-Ends f [] n = (refl, tt)
call_on-Ends f (true ∷ l) n = (refl, tt)
call_on-Ends f (false ∷ l) n = refl

-- A call that fails or does nothing to the lists, and what follows it.
pub then_call :
    {B : Type 0} (n : ℕ) (R : B → Type 0) (k : M B)
    → ((h : Lists) → h.live ≡ n → Ends n n R (k h))
    → (h : Lists) → h.live ≡ n
    → Ends n n R ((call >> k) h)
then_call n R k f h e =
    Ends-bound n n n Anything R (call h) (λ u. k)
      (subst (λ m. Ends m m Anything (call h)) e (call_on-Ends (λ m. m) h.results h.live))
      (λ a h' e' q. f h' e')

set_comment-Ends :
    (c : Comment) (n : ℕ) (h : Lists)
    → h.live ≡ n
    → Ends n n (λ v. v ≡ comment_vars c) (set_comment c h)
unfolding set_comment
set_comment-Ends c n = then_call n R _ (
    then_call n R _ (
      then_call n R _ (
        then_call n R _ (
          then_call n R _
            (then_call n R _ (then_call n R (return (comment_vars c)) (λ h e. (e, refl))))))))
  where
    R : CommentVars → Type 0
    R v = v ≡ comment_vars c

nvl_alloc-Ends : (n : ℕ) (h : Lists) → h.live ≡ n → Ends n (n + 1) Anything (nvl_alloc h)
nvl_alloc-Ends n h e =
    subst (λ m. Ends m (m + 1) Anything (nvl_alloc h)) e
      (call_on-Ends (λ m. m + 1) h.results h.live)

-- The second loop of __com_val, with `i` lists allocated before on top of `l`: after an error there
-- are `l` lists, and after a success one more for each comment, whose values stand in its order.
com_loop-Ends :
    (l i : ℕ) (cs : List Comment) (h : Lists)
    → h.live ≡ l + i
    → Ends l (l + i + length cs) (λ vs. vs ≡ map comment_vars cs) (com_loop i cs h)
unfolding com_loop
com_loop-Ends l i [] h e = (omega (arith, e), refl)
com_loop-Ends l i (c ∷ cs) h e =
    Ends-bound l (l + (i + 1)) (l + i + suc (length cs)) Anything
      (λ vs. vs ≡ map comment_vars (c ∷ cs)) (put_on_error i (nvl_alloc h)) _
      (Ends-put l i (l + (i + 1)) Anything (nvl_alloc h) (
        subst (λ m. Ends (l + i) m Anything (nvl_alloc h)) (omega arith)
          (nvl_alloc-Ends (l + i) h e)))
      λ u h1 e1 q1.
        Ends-bound l (l + (i + 1)) (l + i + suc (length cs)) (λ v. v ≡ comment_vars c)
          (λ vs. vs ≡ map comment_vars (c ∷ cs)) (put_on_error (i + 1) (set_comment c h1)) _
          (Ends-put l (i + 1) (l + (i + 1)) (λ v. v ≡ comment_vars c) (set_comment c h1)
            (set_comment-Ends c (l + (i + 1)) h1 e1))
          λ v h2 e2 q2.
            Ends-bound l (l + (i + 1) + length cs) (l + i + suc (length cs))
              (λ vs. vs ≡ map comment_vars cs) (λ vs. vs ≡ map comment_vars (c ∷ cs))
              (com_loop (i + 1) cs h2) _ (com_loop-Ends l (i + 1) cs h2 e2)
              (λ vs h3 e3 q3. (omega (arith, e3), cc))

-- Whether the next `n` calls succeed.
abbrev pub succeed : ℕ → List Bool → Bool
succeed zero l = true
succeed (suc n) [] = true
succeed (suc n) (true ∷ l) = succeed n l
succeed (suc n) (false ∷ l) = false

abbrev drop_calls : ℕ → List Bool → List Bool
drop_calls zero l = l
drop_calls (suc n) [] = []
drop_calls (suc n) (x ∷ l) = drop_calls n l

suc-add : (j k : ℕ) → suc j + k ≡ suc (j + k)
suc-add j k = omega arith

succeed-add :
    (j k : ℕ) (l : List Bool) → succeed (j + k) l ≡ (succeed j l && succeed k (drop_calls j l))
succeed-add zero k l = ap (λ n. succeed n l) (omega arith)
succeed-add (suc j) k [] = succeed-nil (suc j + k) ∙ sym (succeed-nil k)
  where
    succeed-nil : (n : ℕ) → succeed n [] ≡ true
    succeed-nil zero = refl
    succeed-nil (suc n) = refl
succeed-add (suc j) k (true ∷ l) = ap (λ n. succeed n (true ∷ l)) (suc-add j k) ∙ succeed-add j k l
succeed-add (suc j) k (false ∷ l) = ap (λ n. succeed n (false ∷ l)) (suc-add j k)

drop_calls-add : (j k : ℕ) (l : List Bool) → drop_calls (j + k) l ≡ drop_calls k (drop_calls j l)
drop_calls-add zero k l = ap (λ n. drop_calls n l) (omega arith)
drop_calls-add (suc j) k [] = drop_calls-nil (suc j + k) ∙ sym (drop_calls-nil k)
  where
    drop_calls-nil : (n : ℕ) → drop_calls n [] ≡ []
    drop_calls-nil zero = refl
    drop_calls-nil (suc n) = refl
drop_calls-add (suc j) k (x ∷ l) =
    ap (λ n. drop_calls n (x ∷ l)) (suc-add j k) ∙ drop_calls-add j k l

-- What makes `n` calls ends with an error if and only if one of them fails, and leaves the results of
-- the calls to come.
abbrev Takes : {A : Type 0} → ℕ → List Bool → Option A × Lists → Type 0
Takes n l (none, h) = succeed n l ≡ false
Takes n l (some a, h) = (succeed n l ≡ true) × (h.results ≡ drop_calls n l)

Takes-bound :
    {A B : Type 0} (j k : ℕ) (l : List Bool) (r : Option A × Lists) (f : A → M B)
    → Takes j l r
    → ((a : A) (h : Lists) → Takes k h.results (f a h))
    → Takes (j + k) l (bound r f)
Takes-bound j k l (none, h) f q g = rw (succeed-add j k l, q) refl
Takes-bound {B = B} j k l (some a, h) f q g = go (f a h) (g a h)
  where
    go : (r : Option B × Lists) → Takes k h.results r → Takes (j + k) l r
    go (none, h') e = succeed-add j k l ∙ rw (q.0) (ap (succeed k) (sym q.1) ∙ e)
    go (some b, h') e = (
      succeed-add j k l ∙ rw (q.0) (ap (succeed k) (sym q.1) ∙ e.0),
      e.1 ∙ ap (drop_calls k) q.1 ∙ sym (drop_calls-add j k l),
    )

Takes-put :
    {A : Type 0} (i n : ℕ) (l : List Bool) (r : Option A × Lists)
    → Takes n l r
    → Takes n l (put_on_error i r)
Takes-put i n l (none, h) q = q
Takes-put i n l (some a, h) q = q

call_on-Takes : (f : ℕ → ℕ) (l : List Bool) (n : ℕ) → Takes 1 l (call_on f l n)
call_on-Takes f [] n = (refl, refl)
call_on-Takes f (true ∷ l) n = (refl, refl)
call_on-Takes f (false ∷ l) n = refl

then-Takes :
    {B : Type 0} (k : ℕ) (m : M B)
    → ((h : Lists) → Takes k h.results (m h))
    → (h : Lists) → Takes (1 + k) h.results ((call >> m) h)
then-Takes k m g h =
    Takes-bound 1 k h.results (call h) (λ u. m) (call_on-Takes (λ n. n) h.results h.live) (λ a. g)

set_comment-Takes : (c : Comment) (h : Lists) → Takes 7 h.results (set_comment c h)
unfolding set_comment
set_comment-Takes c = then-Takes 6 _ (
    then-Takes 5 _ (
      then-Takes 4 _ (
        then-Takes 3 _ (
          then-Takes 2 _
            (then-Takes 1 _ (then-Takes 0 (return (comment_vars c)) (λ h. (refl, refl))))))))

com_loop-Takes :
    (i : ℕ) (cs : List Comment) (h : Lists) → Takes (8 * length cs) h.results (com_loop i cs h)
unfolding com_loop
com_loop-Takes i [] h = (refl, refl)
com_loop-Takes i (c ∷ cs) h =
    let e : 1 + (7 + (8 * length cs + 0)) ≡ 8 * length (c ∷ cs) = omega arith in
    subst (λ n. Takes n h.results (com_loop i (c ∷ cs) h)) e
      (Takes-bound 1 (7 + (8 * length cs + 0)) h.results (put_on_error i (nvl_alloc h)) _
        (Takes-put i 1 h.results (nvl_alloc h) (call_on-Takes (λ n. n + 1) h.results h.live))
        λ u h1.
          Takes-bound 7 (8 * length cs + 0) h1.results (put_on_error (i + 1) (set_comment c h1)) _
            (Takes-put (i + 1) 7 h1.results (set_comment c h1) (set_comment-Takes c h1))
            λ v h2.
              Takes-bound (8 * length cs) 0 h2.results (com_loop (i + 1) cs h2) _
                (com_loop-Takes (i + 1) cs h2) (λ vs h3. (refl, refl)))

-- The calls of __com_val before nvl_set_array: one for the array, and for each comment one for its
-- list and seven for its values.
abbrev pub calls_before : List Comment → ℕ
calls_before cs = 1 + 8 * length cs

-- How __com_val ends. With the values of all comments in their order and one list for each, where
-- all calls succeed; or with an error, where one of the calls fails, after which there is no list
-- more than before, unless the first that fails is the last, nvl_set_array: it has been given the
-- lists, and one for each comment is left.
abbrev pub ComVal : List Comment → Lists → Option (Option (List CommentVars)) × Lists → Type 0
ComVal cs h (none, h') =
    (succeed (calls_before cs + 1) h.results ≡ false)
    × (h'.live ≡ (if succeed (calls_before cs) h.results then h.live + length cs else h.live))
ComVal cs h (some none, h') = (cs ≡ []) × (h'.live ≡ h.live)
ComVal cs h (some (some vs), h') =
    (succeed (calls_before cs + 1) h.results ≡ true)
    × (h'.live ≡ h.live + length cs)
    × (vs ≡ map comment_vars cs)

set_array :
    (cs : List Comment) (vs : List CommentVars) (h h1 : Lists)
    → h1.live ≡ h.live + length cs
    → vs ≡ map comment_vars cs
    → succeed (calls_before cs) h.results ≡ true
    → h1.results ≡ drop_calls (calls_before cs) h.results
    → ComVal cs h ((call >> return (some vs)) h1)
set_array cs vs h h1 e q a d =
    go (call h1) (call_on-Ends (λ m. m) h1.results h1.live)
      (call_on-Takes (λ m. m) h1.results h1.live)
  where
    last : (b : Bool) → succeed 1 h1.results ≡ b → succeed (calls_before cs + 1) h.results ≡ b
    last b s = succeed-add (calls_before cs) 1 h.results ∙ rw a (ap (succeed 1) (sym d) ∙ s)

    go :
        (r : Option (Unit {0}) × Lists)
        → Ends h1.live h1.live Anything r
        → Takes 1 h1.results r
        → ComVal cs h (bound r (λ u. return (some vs)))
    go (none, h') k t = (last false t, rw a (k ∙ e))
    go (some u, h') k t = (last true t.0, k.0 ∙ e, q)

failed_early :
    (cs : List Comment) (h h' : Lists)
    → succeed (calls_before cs) h.results ≡ false
    → h'.live ≡ h.live
    → ComVal cs h (none, h')
failed_early cs h h' a k = (succeed-add (calls_before cs) 1 h.results ∙ rw a refl, rw a k)

-- For a post with comments, __com_val ends with an error if and only if one of its calls fails. If that is nvl_set_array, the
-- lists of all the comments, which it has been given, are left; if it is a call before, every list
-- that has been allocated is put. Without an error there is one list for each comment, and their
-- values stand in the order of the comments.
pub com_val-ComVal : (cs : List Comment) (h : Lists) → ComVal cs h (com_val cs h)
unfolding com_val
com_val-ComVal [] h = (refl, refl)
com_val-ComVal (c ∷ cs) h =
    first (call h) (call_on-Ends (λ m. m) h.results h.live)
      (call_on-Takes (λ m. m) h.results h.live)
  where
    second :
        (r : Option (List CommentVars) × Lists)
        → Ends h.live (h.live + length (c ∷ cs)) (λ vs. vs ≡ map comment_vars (c ∷ cs)) r
        → Takes (calls_before (c ∷ cs)) h.results r
        → ComVal (c ∷ cs) h (bound r (λ vs. call >> return (some vs)))
    second (none, h') k t = failed_early (c ∷ cs) h h' t k
    second (some vs, h') k t = set_array (c ∷ cs) vs h h' k.0 k.1 t.0 t.1

    first :
        (r : Option (Unit {0}) × Lists)
        → Ends h.live h.live Anything r
        → Takes 1 h.results r
        → ComVal (c ∷ cs) h (bound r (λ u. com_loop 0 (c ∷ cs) >>= λ vs. call >> return (some vs)))
    first (none, h') k t =
        failed_early (c ∷ cs) h h' (succeed-add 1 (8 * length (c ∷ cs)) h.results ∙ rw t refl) k
    first (some u, h1) k t =
        second (com_loop 0 (c ∷ cs) h1)
          (subst
            (λ m. Ends h.live m (λ vs. vs ≡ map comment_vars (c ∷ cs)) (com_loop 0 (c ∷ cs) h1))
            (omega arith) (com_loop-Ends h.live 0 (c ∷ cs) h1 (omega (arith, k.0))))
          (Takes-bound 1 (8 * length (c ∷ cs)) h.results (some u, h1) (λ v. com_loop 0 (c ∷ cs)) t
            (λ v h2. com_loop-Takes 0 (c ∷ cs) h2))
