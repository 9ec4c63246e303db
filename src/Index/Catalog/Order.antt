-- ===== src/Index/Catalog/Order.antt =====
-- The order in which posts are inserted does not show.
use mathlib.Core.List.{Permᴰ}
use blahgd.Prelude.{
  ℕ, ◌≡◌, ◌≢◌, refl, sym, ap, ◌∙◌, Bool, List, [], ◌∷◌, Option, none, some, arith, All, Bytes,
  All-Permᴰ, subst, take, drop, keep,
}
use blahgd.Extern.Rb.{insert_sorted}
use mathlib.Core.List.{reverse}
use blahgd.Index.Listing.{pointers, passing, is_listed}
use blahgd.Index.{Post, GlobalEntry, IndexEntry, index_cmp, time_entry}
use blahgd.Index.Insert.{tag_entry, spelling, added_entry}
use blahgd.Index.Catalog.{Catalog, Card, by_time, bearing, shelf, page}

insert_sorted_comm :
    (a b : IndexEntry) (l : List IndexEntry)
    → a.global.id ≢ b.global.id
    → insert_sorted index_cmp a (insert_sorted index_cmp b l)
      ≡ insert_sorted index_cmp b (insert_sorted index_cmp a l)
unfolding index_cmp
insert_sorted_comm a b [] h = ground arith
insert_sorted_comm a b (e ∷ l) h = ground (arith, insert_sorted_comm a b l h)

added_entry_comm :
    (g h : GlobalEntry) (s t : Option Bytes) (l : List IndexEntry)
    → g.id ≢ h.id
    → added_entry g s (added_entry h t l) ≡ added_entry h t (added_entry g s l)
added_entry_comm g h none t l ne = refl
added_entry_comm g h (some s) none l ne = refl
added_entry_comm g h (some s) (some t) l ne =
    insert_sorted_comm (tag_entry g s) (tag_entry h t) l ne

-- No two cards have the same id.
abbrev pub HasDistinctIds : Catalog → Type 0
HasDistinctIds [] = Unit
HasDistinctIds (c ∷ cs) = All (λ d. c.global.id ≢ d.global.id) cs × HasDistinctIds cs

pub HasDistinctIds-Permᴰ : {cs ds : Catalog} → Permᴰ cs ds → HasDistinctIds cs → HasDistinctIds ds
HasDistinctIds-Permᴰ Permᴰ.nil h = tt
HasDistinctIds-Permᴰ (Permᴰ.cons {l₂ = ds} e p) h = (
  subst (λ c. All (λ d. c.global.id ≢ d.global.id) ds) e (All-Permᴰ _ p h.0),
  HasDistinctIds-Permᴰ p h.1,
)
HasDistinctIds-Permᴰ (Permᴰ.swap {a} {b} {b' = b'} {l = l} e f) h =
    subst (λ c. All (λ d. c.global.id ≢ d.global.id) (b' ∷ l) × HasDistinctIds (b' ∷ l)) f
      (subst (λ c. All (λ d. b.global.id ≢ d.global.id) (c ∷ l) × HasDistinctIds (c ∷ l)) e
        ((λ k. h.0.0 (sym k), h.1.0), (h.0.1, h.1.1)))
HasDistinctIds-Permᴰ (Permᴰ.trans p q) h = HasDistinctIds-Permᴰ q (HasDistinctIds-Permᴰ p h)

-- A list that is built card by card, where the order of two cards with different ids is the same.
built-Permᴰ :
    (f : Card → List IndexEntry → List IndexEntry) (g : Catalog → List IndexEntry)
    → ((c : Card) (cs : Catalog) → g (c ∷ cs) ≡ f c (g cs))
    → ((c d : Card) (l : List IndexEntry) → c.global.id ≢ d.global.id → f c (f d l) ≡ f d (f c l))
    → {cs ds : Catalog} → Permᴰ cs ds
    → HasDistinctIds cs
    → g cs ≡ g ds
built-Permᴰ f g step comm Permᴰ.nil h = refl
built-Permᴰ f g step comm (Permᴰ.cons {a} {b} {l₁ = cs} {l₂ = ds} e p) h =
    step a cs
    ∙ (ap (f a) (built-Permᴰ f g step comm p h.1) ∙ (ap (λ c. f c (g ds)) e ∙ sym (step b ds)))
built-Permᴰ f g step comm (Permᴰ.swap {a} {b} {a' = a'} {l = l} e k) h =
    step a (b ∷ l)
    ∙ (ap (f a) (step b l)
        ∙ (comm a b (g l) h.0.0
            ∙ (ap (f b) (sym (step a l))
                ∙ (sym (step b (a ∷ l))
                    ∙ (ap (λ c. g (c ∷ a ∷ l)) k ∙ ap (λ c. g (a' ∷ c ∷ l)) e)))))
built-Permᴰ f g step comm (Permᴰ.trans p q) h =
    built-Permᴰ f g step comm p h ∙ built-Permᴰ f g step comm q (HasDistinctIds-Permᴰ p h)

shelf-Permᴰ :
    (tagname : Option Bytes) {cs ds : Catalog}
    → Permᴰ cs ds
    → HasDistinctIds cs
    → shelf tagname cs ≡ shelf tagname ds
shelf-Permᴰ none p h =
    built-Permᴰ (λ c. insert_sorted index_cmp (time_entry c.global)) by_time (λ c cs. refl)
      (λ c d l ne. insert_sorted_comm (time_entry c.global) (time_entry d.global) l ne) p h
shelf-Permᴰ (some u) p h =
    built-Permᴰ (λ c. added_entry c.global (spelling u c.tags)) (bearing u) (λ c cs. refl)
      (λ c d l ne. added_entry_comm c.global d.global (spelling u c.tags) (spelling u d.tags) l ne)
      p h

-- The pages of a catalog do not depend on its order.
pub page-Permᴰ :
    (heap : ℕ → Post) (tagname : Option Bytes) (pred : Option (Post → Bool)) (skip nposts : ℕ)
    {cs ds : Catalog}
    → Permᴰ cs ds
    → HasDistinctIds cs
    → page heap tagname pred skip nposts cs ≡ page heap tagname pred skip nposts ds
page-Permᴰ heap tagname pred skip nposts p h =
    ap
      (λ l.
        pointers
          (take nposts (keep (passing heap pred) (drop skip (keep (is_listed heap) (reverse l))))))
      (shelf-Permᴰ tagname p h)
