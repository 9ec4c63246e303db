-- ===== src/Prelude/Lists.antt =====
-- Lists measured and indexed by native numbers, under the library's names.
use Prim.Native.Nat.{ℕ, zero, suc, ◌+◌, min}
use mathlib.Core.Path.{◌≡◌, refl, ap, subst}
use mathlib.Core.Logic.{inl, inr}
use mathlib.Core.Bool.{Bool, true, false, ◌||◌, ◌&&◌}
use mathlib.Core.List.{List, [], ◌∷◌, ◌++◌, Permᴰ}
use mathlib.Core.Option.{Option, none, some}
use native.Mathlib.Omega.{arith}
use blahgd.Prelude.Tests.{Bool-cases}

module _ {ℓ} {A : Type ℓ} where
  abbrev pub length : List A → ℕ
  length [] = 0
  length (x ∷ xs) = suc (length xs)

  abbrev pub get_elem? : List A → ℕ → Option A
  get_elem? [] i = none
  get_elem? (x ∷ xs) zero = some x
  get_elem? (x ∷ xs) (suc i) = get_elem? xs i

  abbrev pub take : ℕ → List A → List A
  take zero xs = []
  take (suc n) [] = []
  take (suc n) (x ∷ xs) = x ∷ take n xs

  abbrev pub drop : ℕ → List A → List A
  drop zero xs = xs
  drop (suc n) [] = []
  drop (suc n) (x ∷ xs) = drop n xs

  abbrev pub keep : (A → Bool) → List A → List A
  keep p [] = []
  keep p (x ∷ xs) = elim (p x) [ true ↦ x ∷ keep p xs | false ↦ keep p xs ]

  abbrev pub any : (A → Bool) → List A → Bool
  any p [] = false
  any p (x ∷ xs) = p x || any p xs

  abbrev pub All {κ} : (A → Type κ) → List A → Type κ
  All P [] = Unit
  All P (x ∷ xs) = P x × All P xs

  abbrev pub total : (A → ℕ) → List A → ℕ
  total f [] = 0
  total f (x ∷ xs) = f x + total f xs

  pub length-append : (xs ys : List A) → length (xs ++ ys) ≡ length xs + length ys
  length-append [] ys = omega arith
  length-append (x ∷ xs) ys = omega (arith, length-append xs ys)

  pub length-take : (n : ℕ) (xs : List A) → length (take n xs) ≡ min n (length xs)
  length-take zero xs = omega arith
  length-take (suc n) [] = omega arith
  length-take (suc n) (x ∷ xs) = omega (arith, length-take n xs)

  pub All-append {κ} : (P : A → Type κ) (xs ys : List A) → All P xs → All P ys → All P (xs ++ ys)
  All-append P [] ys h k = k
  All-append P (x ∷ xs) ys h k = (h.0, All-append P xs ys h.1 k)

  pub All-map_imp {κ ν} :
      (P : A → Type κ) (Q : A → Type ν) (xs : List A) → ((x : A) → P x → Q x) → All P xs → All Q xs
  All-map_imp P Q [] f h = tt
  All-map_imp P Q (x ∷ xs) f h = (f x h.0, All-map_imp P Q xs f h.1)

module _ {ℓ} {A : Type ℓ} where
  pub keep-and : (p q : A → Bool) (l : List A) → keep (λ x. p x && q x) l ≡ keep q (keep p l)
  keep-and p q [] = refl
  keep-and p q (x ∷ l) = elim (Bool-cases (p x)) [
    | inr h ↦ rw (h, keep) (keep-and p q l)
    | inl h ↦ elim (Bool-cases (q x)) [
      | inl k ↦ rw (h, k, keep) (ap (◌∷◌ x) (keep-and p q l))
      | inr k ↦ rw (h, k, keep) (keep-and p q l)
    ]
  ]

  pub keep_all : (l : List A) → keep (λ _. true) l ≡ l
  keep_all [] = refl
  keep_all (x ∷ l) = ap (◌∷◌ x) (keep_all l)

  pub take-nil : (n : ℕ) → take {A = A} n [] ≡ []
  take-nil zero = refl
  take-nil (suc n) = refl

  pub drop-nil : (n : ℕ) → drop {A = A} n [] ≡ []
  drop-nil zero = refl
  drop-nil (suc n) = refl

  paged :
      (n m k j t : ℕ) (l : List A)
      → j ≡ k + n
      → t ≡ n + m
      → take n (drop k l) ++ take m (drop j l) ≡ take t (drop k l)
  paged n m k j t [] p q = simp (take-nil, drop-nil)
  paged n m (suc k) zero t (x ∷ l) p q = absurd (omega arith)
  paged n m (suc k) (suc j) t (x ∷ l) p q = paged n m k j t l (omega arith) q
  paged zero m zero zero t (x ∷ l) p q = let e : t ≡ m = omega arith in rw e refl
  paged zero m zero (suc j) t (x ∷ l) p q = absurd (omega arith)
  paged (suc n) m zero zero t (x ∷ l) p q = absurd (omega arith)
  paged (suc n) m zero (suc j) zero (x ∷ l) p q = absurd (omega arith)
  paged (suc n) m zero (suc j) (suc t) (x ∷ l) p q =
      ap (◌∷◌ x) (paged n m zero j t l (omega arith) (omega arith))

  -- Two pages that follow one another are one longer page.
  pub take-append-take :
      (n m k : ℕ) (l : List A)
      → take n (drop k l) ++ take m (drop (k + n) l) ≡ take (n + m) (drop k l)
  take-append-take n m k l = paged n m k (k + n) (n + m) l refl refl

  -- What precedes a match can be left out where it holds no match.
  pub keep-drop :
      (p : A → Bool) (n : ℕ) (l : List A) → keep p (take n l) ≡ [] → keep p (drop n l) ≡ keep p l
  keep-drop p zero l h = refl
  keep-drop p (suc n) [] h = refl
  keep-drop p (suc n) (x ∷ l) h = elim (Bool-cases (p x)) [
    | inl e ↦ cc (rw (e, keep) at h)
    | inr e ↦ rw (e, keep) (keep-drop p n l (rw (e, keep) at h))
  ]

  pub All-keep {κ} : (P : A → Type κ) (p : A → Bool) (l : List A) → All P l → All P (keep p l)
  All-keep P p [] h = tt
  All-keep P p (x ∷ l) h =
      elim (p x) as (λ b. All P (elim b [ true ↦ x ∷ keep p l | false ↦ keep p l ])) [
        | true ↦ (h.0, All-keep P p l h.1)
        | false ↦ All-keep P p l h.1
      ]

  pub keep_sound : (p : A → Bool) (l : List A) → All (λ x. p x ≡ true) (keep p l)
  keep_sound p [] = tt
  keep_sound p (x ∷ l) = elim (Bool-cases (p x)) [
    | inl e ↦ rw (e, keep) (e, keep_sound p l)
    | inr e ↦ rw (e, keep) (keep_sound p l)
  ]

  pub All-take {κ} : (P : A → Type κ) (n : ℕ) (l : List A) → All P l → All P (take n l)
  All-take P zero l h = tt
  All-take P (suc n) [] h = tt
  All-take P (suc n) (x ∷ l) h = (h.0, All-take P n l h.1)

  pub All-drop {κ} : (P : A → Type κ) (n : ℕ) (l : List A) → All P l → All P (drop n l)
  All-drop P zero l h = h
  All-drop P (suc n) [] h = tt
  All-drop P (suc n) (x ∷ l) h = All-drop P n l h.1

  pub All-both {κ ν} :
      (P : A → Type κ) (Q : A → Type ν) (l : List A) → All P l → All Q l → All (λ x. P x × Q x) l
  All-both P Q [] h k = tt
  All-both P Q (x ∷ l) h k = ((h.0, k.0), All-both P Q l h.1 k.1)

-- What holds of all elements holds in any order.
pub All-Permᴰ {κ} : {A : Type 0} (P : A → Type κ) {l m : List A} → Permᴰ l m → All P l → All P m
All-Permᴰ P Permᴰ.nil h = tt
All-Permᴰ P (Permᴰ.cons e d) h = (subst P e h.0, All-Permᴰ P d h.1)
All-Permᴰ P (Permᴰ.swap e f) h = (subst P f h.1.0, (subst P e h.0, h.1.1))
All-Permᴰ P (Permᴰ.trans d e) h = All-Permᴰ P e (All-Permᴰ P d h)
