-- ===== src/Index/Catalog/History.antt =====
-- Posts that are inserted one after the other.
use mathlib.Core.List.{Permᴰ}
use blahgd.Prelude.{
  ℕ, ◌≡◌, ◌≢◌, refl, sym, ap, ◌∙◌, Bool, List, [], ◌∷◌, Option, none, some, arith, map, All,
  All-Permᴰ, Bytes, subst,
}
use blahgd.Extern.Rb.{RbApi}
use blahgd.Index.{
  Post, GlobalEntry, IndexEntry, Subindex, Outcome, done, failed, panic, ◌>>=◌, index_cmp,
  global_index_cmp, tag_cmp, index_insert_post, index_get_posts, init_post_index,
}
use blahgd.Index.Insert.{AreDistinct, Ix}
use blahgd.Index.Catalog.{Catalog, Card, card_of, find_post, add_card}
use blahgd.Index.Catalog.Refines.{
  Represents, Matches, index_insert_post-Matches, init_post_index-Represents, index_get_posts-page,
}
use blahgd.Index.Catalog.Order.{HasDistinctIds, HasDistinctIds-Permᴰ, page-Permᴰ}

-- An id that no card has is not found.
find_post-none : (i : ℕ) (cs : Catalog) → All (λ d. i ≢ d.global.id) cs → find_post cs i ≡ none
find_post-none i [] h = refl
find_post-none i (c ∷ cs) h = ground (arith, find_post-none i cs h.1, h.0)

added : (c : Card) (cs : Catalog) → find_post cs c.global.id ≡ none → add_card cs c ≡ some (c ∷ cs)
added c cs h = rw (h, add_card) refl

map-Permᴰ : {A B : Type 0} (f : A → B) {l m : List A} → Permᴰ l m → Permᴰ (map f l) (map f m)
map-Permᴰ f Permᴰ.nil = Permᴰ.nil
map-Permᴰ f (Permᴰ.cons e p) = Permᴰ.cons (ap f e) (map-Permᴰ f p)
map-Permᴰ f (Permᴰ.swap e k) = Permᴰ.swap (ap f e) (ap f k)
map-Permᴰ f (Permᴰ.trans p q) = Permᴰ.trans (map-Permᴰ f p) (map-Permᴰ f q)

module _ (entries : RbApi IndexEntry index_cmp) (globals : RbApi GlobalEntry global_index_cmp)
    (subs : RbApi (Subindex entries.Tree) tag_cmp) (heap : ℕ → Post) where
  abbrev St : Type 0
  St = Ix entries globals subs

  -- The posts of the list have been inserted into the empty index, the last one of the list first.
  abbrev pub filled : List ℕ → Outcome St
  filled [] = done (init_post_index entries globals subs [])
  filled (p ∷ ps) = filled ps >>= index_insert_post entries globals subs heap p

  abbrev pub cards : List ℕ → Catalog
  cards = map (card_of heap)

  abbrev pub HasTagSets : List ℕ → Type 0
  HasTagSets = All (λ p. AreDistinct (heap p).tags)

  insert_next :
      (p : ℕ) (cs : Catalog) (st : St) (o : Outcome St)
      → find_post cs (heap p).id ≡ none
      → o ≡ index_insert_post entries globals subs heap p st
      → Matches entries globals subs st (some (card_of heap p ∷ cs)) o
      → (st' : St) × (o ≡ done st') × Represents entries globals subs (card_of heap p ∷ cs) st'
  insert_next p cs st (done st') a e r = (st', refl, r)
  insert_next p cs st (failed x st') a e r = absurd r
  insert_next p cs st panic a e r = absurd r

  filled-Represents :
      (ps : List ℕ)
      → HasTagSets ps
      → HasDistinctIds (cards ps)
      → (st : St) × (filled ps ≡ done st) × Represents entries globals subs (cards ps) st
  filled-Represents [] t d = (
    init_post_index entries globals subs [],
    refl,
    init_post_index-Represents entries globals subs,
  )
  filled-Represents (p ∷ ps) t d =
      let (st, e, r) = filled-Represents ps t.1 d.1 in
      let absent : find_post (cards ps) (heap p).id ≡ none =
        find_post-none (heap p).id (cards ps) d.0 in
      let m = index_insert_post-Matches entries globals subs heap p (cards ps) st r t.0 in
      let (st', k, r') =
        insert_next p (cards ps) st (index_insert_post entries globals subs heap p st) absent refl (
          subst
            (λ o.
              Matches entries globals subs st o (index_insert_post entries globals subs heap p st))
            (added (card_of heap p) (cards ps) absent) m) in
      (st', rw e k, r')

  -- When no allocation fails, posts with pairwise different ids, each with pairwise distinct tags,
  -- are all inserted into the empty index in whatever order, and the order does not show: every page
  -- of every listing is the same.
  pub filled-same :
      (ps qs : List ℕ)
      → Permᴰ ps qs
      → HasTagSets ps
      → HasDistinctIds (cards ps)
      → (st st' : St) × (filled ps ≡ done st)
        × (filled qs ≡ done st')
        × ((tagname : Option Bytes) (pred : Option (Post → Bool)) (skip nposts : ℕ)
            → index_get_posts entries globals subs st heap tagname pred skip nposts
              ≡ index_get_posts entries globals subs st' heap tagname pred skip nposts)
  filled-same ps qs p t d =
      let q = map-Permᴰ (card_of heap) p in
      let (st, e, r) = filled-Represents ps t d in
      let (st', e', r') = filled-Represents qs (All-Permᴰ _ p t) (HasDistinctIds-Permᴰ q d) in
      (
        st,
        st',
        e,
        e',
        λ tagname pred skip nposts.
            index_get_posts-page entries globals subs heap tagname pred skip nposts (cards ps) st r
            ∙ (page-Permᴰ heap tagname pred skip nposts q d
                ∙ sym (
                    index_get_posts-page entries globals subs heap tagname pred skip nposts
                      (cards qs) st' r')),
      )
