-- ===== src/Index/Insert.antt =====
-- index_insert_post: when memory does not run out, a new post is inserted with all its tags, no
-- assertion fails, and the indices stay consistent with one another.
mod Tags
pub mod Whole
pub mod Errors
mod Tests
use blahgd.Prelude.{
  ℕ, ◌≡◌, ◌≢◌, refl, sym, ap, ◌∙◌, Bool, true, false, false≢true, [], ◌∷◌, List, Option, none, some,
  arith, any, All, Ordering, ◌==◌, Bytes, lower, strcasecmp, strcmp, strcasecmp_eq,
  strcasecmp_of_lower, All-map_imp,
}
use blahgd.Extern.Rb.{RbApi, find_eq, insert_sorted}
use blahgd.Index.{
  GlobalEntry, IndexEntry, Subindex, done, index_cmp, global_index_cmp, tag_cmp, Index, alloc,
  alloc_from, key_of_tag, et_tag,
}
use blahgd.Extern.Sorted.{find_eq-none, find_eq_cong}

-- Tags that the trees tell apart.
abbrev pub SameTag : Bytes → Bytes → Type 0
SameTag s t = lower s ≡ lower t

-- How a tag is spelled in a list of tags.
abbrev pub spelling : Bytes → List Bytes → Option Bytes
spelling u [] = none
spelling u (t ∷ tags) = elim (strcasecmp t u) [
  | Ordering.eq ↦ some t
  | Ordering.lt ↦ spelling u tags
  | Ordering.gt ↦ spelling u tags
]

pub spelling-none :
    (u : Bytes) (tags : List Bytes) → All (λ t. ¬ SameTag t u) tags → spelling u tags ≡ none
spelling-none u [] h = refl
spelling-none u (t ∷ tags) h = go (spelling-none u tags h.1) (strcasecmp t u) refl
  where
    go :
        spelling u tags ≡ none
        → (o : Ordering) → strcasecmp t u ≡ o
        → elim o [
          | Ordering.eq ↦ some t
          | Ordering.lt ↦ spelling u tags
          | Ordering.gt ↦ spelling u tags
        ]
          ≡ none
    go rest Ordering.eq e = absurd (h.0 (strcasecmp_eq t u e))
    go rest Ordering.lt e = rest
    go rest Ordering.gt e = rest

abbrev pub tag_entry : GlobalEntry → Bytes → IndexEntry
tag_entry g t = record { global = g; name = some t; kind = et_tag }

-- The entries of a tag's index after a post has been added that spells the tag so.
abbrev pub added_entry : GlobalEntry → Option Bytes → List IndexEntry → List IndexEntry
added_entry g none l = l
added_entry g (some t) l = insert_sorted index_cmp (tag_entry g t) l

-- The id of an entry is among those of the global entries.
abbrev pub has_id : ℕ → GlobalEntry → Bool
has_id i g = g.id == i

abbrev pub IsKnown : List GlobalEntry → IndexEntry → Type 0
IsKnown gs e = any (has_id e.global.id) gs ≡ true

abbrev pub AreDistinct : List Bytes → Type 0
AreDistinct [] = Unit
AreDistinct (t ∷ tags) = All (λ u. ¬ SameTag t u) tags × AreDistinct tags

index_cmp_id : (a b : IndexEntry) → index_cmp a b ≡ Ordering.eq → a.global.id ≡ b.global.id
unfolding index_cmp
index_cmp_id a b h = ground arith

index_cmp_refl : (a : IndexEntry) → index_cmp a a ≡ Ordering.eq
unfolding index_cmp
index_cmp_refl a = ground arith

global_index_cmp_id : (a b : GlobalEntry) → global_index_cmp a b ≡ Ordering.eq → a.id ≡ b.id
unfolding global_index_cmp
global_index_cmp_id a b h = ground arith

global_index_cmp_of_id : (a b : GlobalEntry) → a.id ≡ b.id → global_index_cmp a b ≡ Ordering.eq
unfolding global_index_cmp
global_index_cmp_of_id a b h = ground arith

abbrev HasOtherId : ℕ → IndexEntry → Type 0
HasOtherId i e = e.global.id ≢ i

-- No entry with another id is found under an entry's key.
find_eq_fresh :
    (k : IndexEntry) (l : List IndexEntry)
    → All (HasOtherId k.global.id) l
    → find_eq index_cmp k l ≡ none
find_eq_fresh k l h =
    find_eq-none index_cmp k l (All-map_imp _ _ l (λ e ne c. ne (index_cmp_id e k c)) h)

-- An id that rb_find does not find is no entry's.
any_of_find_eq :
    (k : GlobalEntry) (gs : List GlobalEntry)
    → find_eq global_index_cmp k gs ≡ none
    → any (has_id k.id) gs ≡ false
any_of_find_eq k [] h = refl
any_of_find_eq k (g ∷ gs) h = ground (arith, any_of_find_eq k gs, global_index_cmp_of_id g k)

HasOtherId-of_IsKnown :
    (i : ℕ) (gs : List GlobalEntry)
    → any (has_id i) gs ≡ false
    → (e : IndexEntry) → IsKnown gs e
    → HasOtherId i e
HasOtherId-of_IsKnown i gs h e k q = false≢true (sym h ∙ (ap (λ j. any (has_id j) gs) (sym q) ∙ k))

module _ (entries : RbApi IndexEntry index_cmp) (globals : RbApi GlobalEntry global_index_cmp)
    (subs : RbApi (Subindex entries.Tree) tag_cmp) where
  abbrev pub Ix : Type 0
  Ix = Index entries globals subs

  abbrev pub Sub : Type 0
  Sub = Subindex entries.Tree

  abbrev pub sub_entries : Sub → List IndexEntry
  sub_entries s = entries.to_list s.subindex

  -- Every entry of the index by time and of the tags' indices belongs to a post in the index by id.
  pub record IsConsistent (st : Ix) : Type 0 where
    pub times : All (IsKnown (globals.to_list st.index_global)) (entries.to_list st.index_by_time)
    pub tags :
        All
          (λ s. All (IsKnown (globals.to_list st.index_global)) (sub_entries s))
          (subs.to_list st.index_by_tag)

  unfoldable pub find_sub : Ix → Bytes → Option Sub
  find_sub st tag = subs.find st.index_by_tag (key_of_tag entries globals subs tag)

  -- The subindex of a tag, if there is one, holds no entry of the post.
  abbrev IsFresh : ℕ → Option Sub → Type 0
  IsFresh i none = Unit
  IsFresh i (some s) = All (HasOtherId i) (sub_entries s)

  pub alloc-nil : (st : Ix) → st.memory ≡ [] → alloc entries globals subs st ≡ done st
  alloc-nil st h = ap (λ m. alloc_from entries globals subs m st) h

  abbrev SubKnown : List GlobalEntry → Sub → Type 0
  SubKnown gs s = All (IsKnown gs) (sub_entries s)

  -- A post's entry stands in the subindex of a tag.
  abbrev pub IsTagged : ℕ → Option Sub → Type 0
  IsTagged i none = ⊥
  IsTagged i (some s) = any (λ e. e.global.id == i) (sub_entries s) ≡ true

  -- The entries of a tag's index, none where there is no such index.
  abbrev pub listed_in : Option Sub → List IndexEntry
  listed_in none = []
  listed_in (some s) = sub_entries s

  -- What stays as it was while one tag is added, and what is kept.
  record Kept (gs : List GlobalEntry) (tag : Bytes) (st st' : Ix) : Type 0 where
    global : st'.index_global ≡ st.index_global
    time : st'.index_by_time ≡ st.index_by_time
    freed : st'.freed ≡ st.freed
    memory : st'.memory ≡ []
    others : (u : Bytes) → ¬ SameTag tag u → find_sub st' u ≡ find_sub st u
    all : All (SubKnown gs) (subs.to_list st'.index_by_tag)

  tag_cmp_same : (a b : Sub) → tag_cmp a b ≡ Ordering.eq → SameTag a.name b.name
  unfolding tag_cmp
  tag_cmp_same a b h = strcasecmp_eq a.name b.name h

  tag_cmp_of_same : (a b : Sub) → SameTag a.name b.name → tag_cmp a b ≡ Ordering.eq
  unfolding tag_cmp
  tag_cmp_of_same a b h = strcasecmp_of_lower a.name b.name h

  pub find_sub_lem :
      (st : Ix) (tag : Bytes)
      → find_sub st tag
        ≡ find_eq tag_cmp (key_of_tag entries globals subs tag) (subs.to_list st.index_by_tag)
  unfolding find_sub
  find_sub_lem st tag = subs.find_lem st.index_by_tag (key_of_tag entries globals subs tag)

  -- Tags that the trees do not tell apart have one index.
  pub find_sub_same : (st : Ix) (s t : Bytes) → SameTag s t → find_sub st s ≡ find_sub st t
  unfolding tag_cmp strcasecmp find_sub
  find_sub_same st s t h =
      find_sub_lem st s
      ∙ (find_eq_cong tag_cmp (key_of_tag entries globals subs s)
            (key_of_tag entries globals subs t) (subs.to_list st.index_by_tag)
            (λ x. ap (strcmp (lower x.name)) h)
          ∙ sym (find_sub_lem st t))

  pub spelled :
      (g : GlobalEntry) (tag : Bytes) (tags : List Bytes) (u : Bytes) (st st2 st3 : Ix)
      → (¬ SameTag tag u → find_sub st2 u ≡ find_sub st u)
      → listed_in (find_sub st2 tag)
        ≡ insert_sorted index_cmp (tag_entry g tag) (listed_in (find_sub st tag))
      → All (λ t. ¬ SameTag tag t) tags
      → listed_in (find_sub st3 u) ≡ added_entry g (spelling u tags) (listed_in (find_sub st2 u))
      → listed_in (find_sub st3 u)
        ≡ added_entry g (spelling u (tag ∷ tags)) (listed_in (find_sub st u))
  spelled g tag tags u st st2 st3 other one d rest = go (strcasecmp tag u) refl
    where
      go :
          (o : Ordering)
          → strcasecmp tag u ≡ o
          → listed_in (find_sub st3 u)
            ≡ added_entry g
                (elim o [
                  | Ordering.eq ↦ some tag
                  | Ordering.lt ↦ spelling u tags
                  | Ordering.gt ↦ spelling u tags
                ])
                (listed_in (find_sub st u))
      go Ordering.eq e =
          let same : SameTag tag u = strcasecmp_eq tag u e in
          rest
          ∙ (ap (λ w. added_entry g w (listed_in (find_sub st2 u)))
                (spelling-none u tags (All-map_imp _ _ tags (λ t ne k. ne (same ∙ sym k)) d))
              ∙ (ap listed_in (sym (find_sub_same st2 tag u same))
                  ∙ (one
                      ∙ ap (λ x. insert_sorted index_cmp (tag_entry g tag) (listed_in x))
                          (find_sub_same st tag u same))))
      go Ordering.lt e =
          rest
          ∙ ap (λ x. added_entry g (spelling u tags) (listed_in x))
              (other (λ k.
                let q : Ordering.lt ≡ Ordering.eq = sym e ∙ strcasecmp_of_lower tag u k in cc))
      go Ordering.gt e =
          rest
          ∙ ap (λ x. added_entry g (spelling u tags) (listed_in x))
              (other (λ k.
                let q : Ordering.gt ≡ Ordering.eq = sym e ∙ strcasecmp_of_lower tag u k in cc))
