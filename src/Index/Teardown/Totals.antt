-- ===== src/Index/Teardown/Totals.antt =====
-- Sums over lists, and over the elements of trees.
use mathlib.Core.List.{Permᴰ}
use blahgd.Prelude.{ℕ, ◌+◌, ◌≡◌, refl, ap, ◌∙◌, arith, List, [], ◌∷◌, ◌++◌, some, Ordering, total}
use blahgd.Extern.Rb.{find_eq, insert_sorted, replace_eq}

module _ {A : Type 0} (f : A → ℕ) where
  pub total-append : (l m : List A) → total f (l ++ m) ≡ total f l + total f m
  total-append [] m = omega arith
  total-append (x ∷ l) m = omega (arith, total-append l m)

  pub total-Permᴰ : {l m : List A} → Permᴰ l m → total f l ≡ total f m
  total-Permᴰ Permᴰ.nil = refl
  total-Permᴰ (Permᴰ.cons e p) = omega (arith, total-Permᴰ p, ap f e)
  total-Permᴰ (Permᴰ.swap e k) = omega (arith, ap f e, ap f k)
  total-Permᴰ (Permᴰ.trans p q) = total-Permᴰ p ∙ total-Permᴰ q

  pub total_cong : (g : A → ℕ) (l : List A) → ((x : A) → f x ≡ g x) → total f l ≡ total g l
  total_cong g [] h = refl
  total_cong g (x ∷ l) h = omega (arith, h x, total_cong g l h)

module _ {E : Type 0} (cmp : E → E → Ordering) (f : E → ℕ) where
  pub total-insert_sorted : (k : E) (l : List E) → total f (insert_sorted cmp k l) ≡ f k + total f l
  total-insert_sorted k [] = refl
  total-insert_sorted k (e ∷ l) = ground (arith, total-insert_sorted k l)

  -- An update of the element that is found under a key with the same order as `k`.
  pub total-replace_eq :
      (k u s : E) (l : List E)
      → ((e : E) → cmp e k ≡ cmp e u)
      → find_eq cmp u l ≡ some s
      → total f (replace_eq cmp k l) + f s ≡ total f l + f k
  total-replace_eq k u s [] same h = cc
  total-replace_eq k u s (e ∷ l) same h = ground (arith, total-replace_eq k u s l same, same e)
