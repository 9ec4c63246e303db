-- ===== src/Extern/Sorted.antt =====
-- Lemmas on the elements of a tree in order: what rb_find finds after an insertion or an update.
use blahgd.Prelude.{
  ◌≡◌, ◌≢◌, refl, Bool, ◌||◌, [], ◌∷◌, List, none, some, arith, any, All, Ordering, subst,
}
use blahgd.Extern.Rb.{find_eq, insert_sorted, replace_eq}

module _ {E : Type 0} (cmp : E → E → Ordering) where
  pub All-insert_sorted {κ} :
      (P : E → Type κ) (k : E) (l : List E) → P k → All P l → All P (insert_sorted cmp k l)
  All-insert_sorted P k [] h hs = (h, tt)
  All-insert_sorted P k (e ∷ l) h hs =
      elim (cmp e k)
        as (λ o. All P (elim o [
          | Ordering.lt ↦ e ∷ insert_sorted cmp k l
          | Ordering.eq ↦ k ∷ e ∷ l
          | Ordering.gt ↦ k ∷ e ∷ l
        ])) [
          | Ordering.lt ↦ (hs.0, All-insert_sorted P k l h hs.1)
          | Ordering.eq ↦ (h, hs)
          | Ordering.gt ↦ (h, hs)
        ]

  pub All-replace_eq {κ} :
      (P : E → Type κ) (k : E) (l : List E) → P k → All P l → All P (replace_eq cmp k l)
  All-replace_eq P k [] h hs = tt
  All-replace_eq P k (e ∷ l) h hs =
      elim (cmp e k)
        as (λ o. All P (elim o [
          | Ordering.lt ↦ e ∷ replace_eq cmp k l
          | Ordering.eq ↦ k ∷ l
          | Ordering.gt ↦ e ∷ replace_eq cmp k l
        ])) [
          | Ordering.lt ↦ (hs.0, All-replace_eq P k l h hs.1)
          | Ordering.eq ↦ (h, hs.1)
          | Ordering.gt ↦ (hs.0, All-replace_eq P k l h hs.1)
        ]

  pub any-insert_sorted :
      (p : E → Bool) (k : E) (l : List E) → any p (insert_sorted cmp k l) ≡ (p k || any p l)
  any-insert_sorted p k [] = refl
  any-insert_sorted p k (e ∷ l) = ground (arith, any-insert_sorted p k l)

  pub find_eq-insert_sorted_self :
      (k : E) (l : List E)
      → cmp k k ≡ Ordering.eq
      → find_eq cmp k l ≡ none
      → find_eq cmp k (insert_sorted cmp k l) ≡ some k
  find_eq-insert_sorted_self k [] r h = ground arith
  find_eq-insert_sorted_self k (e ∷ l) r h = ground (arith, find_eq-insert_sorted_self k l)

  pub find_eq-insert_sorted_ne :
      (k u : E) (l : List E)
      → cmp k u ≢ Ordering.eq
      → find_eq cmp u (insert_sorted cmp k l) ≡ find_eq cmp u l
  find_eq-insert_sorted_ne k u [] h = ground arith
  find_eq-insert_sorted_ne k u (e ∷ l) h = ground (arith, find_eq-insert_sorted_ne k u l h)

  -- An update of the node equal to `k`, seen under a key `u` that is not equal to it.
  pub find_eq-replace_eq_ne :
      (k u : E) (l : List E)
      → cmp k u ≢ Ordering.eq
      → ((e : E) → cmp e k ≡ Ordering.eq → cmp e u ≢ Ordering.eq)
      → find_eq cmp u (replace_eq cmp k l) ≡ find_eq cmp u l
  find_eq-replace_eq_ne k u [] h t = refl
  find_eq-replace_eq_ne k u (e ∷ l) h t = ground (arith, find_eq-replace_eq_ne k u l h t, t e)

  pub find_eq-replace_eq_self :
      (k u s : E) (l : List E)
      → cmp k u ≡ Ordering.eq
      → ((e : E) → cmp e k ≡ Ordering.eq → cmp e u ≡ Ordering.eq)
      → ((e : E) → cmp e u ≡ Ordering.eq → cmp e k ≡ Ordering.eq)
      → find_eq cmp u l ≡ some s
      → find_eq cmp u (replace_eq cmp k l) ≡ some k
  find_eq-replace_eq_self k u s [] h t v f = cc
  find_eq-replace_eq_self k u s (e ∷ l) h t v f =
      ground (arith, find_eq-replace_eq_self k u s l h t v, t e, v e)

  pub find_eq-All {κ} :
      (P : E → Type κ) (k : E) (l : List E) (e : E) → All P l → find_eq cmp k l ≡ some e → P e
  find_eq-All P k [] e hs h = cc
  find_eq-All P k (x ∷ l) e hs h = go (find_eq-All P k l e hs.1) (cmp x k) h
    where
      go :
          (find_eq cmp k l ≡ some e → P e)
          → (o : Ordering)
          → elim o [
            | Ordering.eq ↦ some x
            | Ordering.lt ↦ find_eq cmp k l
            | Ordering.gt ↦ find_eq cmp k l
          ]
            ≡ some e
          → P e
      go ih Ordering.lt q = ih q
      go ih Ordering.eq q = let same : x ≡ e = cc in subst P same hs.0
      go ih Ordering.gt q = ih q

  -- Where nothing is equal to the key, nothing is found.
  pub find_eq-none :
      (k : E) (l : List E) → All (λ e. cmp e k ≢ Ordering.eq) l → find_eq cmp k l ≡ none
  find_eq-none k [] h = refl
  find_eq-none k (e ∷ l) h = ground (arith, find_eq-none k l h.1)

  pub find_eq_sound :
      (k : E) (l : List E) (e : E) → find_eq cmp k l ≡ some e → cmp e k ≡ Ordering.eq
  find_eq_sound k [] e h = cc
  find_eq_sound k (x ∷ l) e h = ground (arith, find_eq_sound k l e)

  pub find_eq_cong :
      (k u : E) (l : List E) → ((e : E) → cmp e k ≡ cmp e u) → find_eq cmp k l ≡ find_eq cmp u l
  find_eq_cong k u [] h = refl
  find_eq_cong k u (e ∷ l) h = ground (arith, find_eq_cong k u l h, h e)
