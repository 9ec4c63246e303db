-- ===== src/Post/TagOrder.antt =====
-- The order of tags without regard to case, and lists of tags that are inserted in it.
use blahgd.Prelude.{
  ◌≡◌, refl, List, [], ◌∷◌, none, some, arith, Ordering, All, All-map_imp, Bytes, lower, strcmp,
  strcasecmp,
}
use blahgd.Extern.Rb.{find_eq, insert_sorted}
use blahgd.Extern.Sorted.{All-insert_sorted}

abbrev pub Precedes : Bytes → Bytes → Type 0
Precedes s t = strcasecmp s t ≡ Ordering.lt

abbrev pub IsAscending : List Bytes → Type 0
IsAscending [] = Unit
IsAscending (s ∷ l) = All (Precedes s) l × IsAscending l

strcmp_trans :
    (s t u : Bytes) → strcmp s t ≡ Ordering.lt → strcmp t u ≡ Ordering.lt → strcmp s u ≡ Ordering.lt
unfolding strcmp
strcmp_trans [] [] u h k = cc
strcmp_trans [] (d ∷ t) [] h k = cc
strcmp_trans [] (d ∷ t) (e ∷ u) h k = refl
strcmp_trans (c ∷ s) [] u h k = cc
strcmp_trans (c ∷ s) (d ∷ t) [] h k = cc
strcmp_trans (c ∷ s) (d ∷ t) (e ∷ u) h k = ground (arith, strcmp_trans s t u)

strcmp_flip : (s t : Bytes) → strcmp s t ≡ Ordering.gt → strcmp t s ≡ Ordering.lt
unfolding strcmp
strcmp_flip [] [] h = cc
strcmp_flip [] (d ∷ t) h = cc
strcmp_flip (c ∷ s) [] h = refl
strcmp_flip (c ∷ s) (d ∷ t) h = ground (arith, strcmp_flip s t)

Precedes-trans : (s t u : Bytes) → Precedes s t → Precedes t u → Precedes s u
unfolding strcasecmp
Precedes-trans s t u h k = strcmp_trans (lower s) (lower t) (lower u) h k

Precedes-flip : (s t : Bytes) → strcasecmp s t ≡ Ordering.gt → Precedes t s
unfolding strcasecmp
Precedes-flip s t h = strcmp_flip (lower s) (lower t) h

All-insert :
    (P : Bytes → Type 0) (k : Bytes) (l : List Bytes)
    → P k
    → All P l
    → All P (insert_sorted strcasecmp k l)
All-insert P k l = All-insert_sorted strcasecmp P k l

-- A tag that is not found goes to its place.
pub insert_sorted-IsAscending :
    (k : Bytes) (l : List Bytes)
    → find_eq strcasecmp k l ≡ none
    → IsAscending l
    → IsAscending (insert_sorted strcasecmp k l)
insert_sorted-IsAscending k [] h a = (tt, tt)
insert_sorted-IsAscending k (s ∷ l) h a =
    elim (strcasecmp s k)
        as (λ o.
          strcasecmp s k ≡ o
          → (elim o [
            | Ordering.eq ↦ some s
            | Ordering.lt ↦ find_eq strcasecmp k l
            | Ordering.gt ↦ find_eq strcasecmp k l
          ])
            ≡ none
          → IsAscending (elim o [
            | Ordering.lt ↦ s ∷ insert_sorted strcasecmp k l
            | Ordering.eq ↦ k ∷ s ∷ l
            | Ordering.gt ↦ k ∷ s ∷ l
          ])) [
            | Ordering.lt ↦
                λ e f. (All-insert (Precedes s) k l e a.0, insert_sorted-IsAscending k l f a.1)
            | Ordering.eq ↦ λ e f. cc
            | Ordering.gt ↦ λ e f.
                let first : Precedes k s = Precedes-flip s k e in
                (
                  (
                    first,
                    All-map_imp (Precedes s) (Precedes k) l (λ t p. Precedes-trans k s t first p)
                        a.0,
                  ),
                  a,
                )
          ]
      refl h
