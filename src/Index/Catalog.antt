-- ===== src/Index/Catalog.antt =====
-- What the index promises, without its trees: a catalog of the posts that have been inserted, the
-- last one first.
pub mod Refines
pub mod Order
pub mod History
mod Tests
use blahgd.Prelude.{
  ℕ, Bool, List, [], ◌∷◌, Option, none, some, ◌==◌, if◌then◌else◌, take, drop, keep, Bytes,
}
use mathlib.Core.List.{reverse}
use blahgd.Extern.Rb.{insert_sorted}
use blahgd.Index.{Post, GlobalEntry, IndexEntry, index_cmp, time_entry, global_of}
use blahgd.Index.Insert.{spelling, added_entry}
use blahgd.Index.Listing.{pointers, passing, is_listed}

-- A post as it was when it was inserted.
pub record Card : Type 0 where
  pub global : GlobalEntry
  pub tags : List Bytes

abbrev pub Catalog : Type 0
Catalog = List Card

abbrev pub card_of : (ℕ → Post) → ℕ → Card
card_of heap p = record { global = global_of heap p; tags = (heap p).tags }

abbrev pub find_post : Catalog → ℕ → Option ℕ
find_post [] i = none
find_post (c ∷ cs) i = if c.global.id == i then some c.global.post else find_post cs i

-- A post is refused if its id is in the catalog.
abbrev pub add_card : Catalog → Card → Option Catalog
add_card cs c = elim (find_post cs c.global.id) [ none ↦ some (c ∷ cs) | some q ↦ none ]

-- The entries of all posts, and of those that bear a tag, from the oldest to the newest post.
abbrev pub by_time : Catalog → List IndexEntry
by_time [] = []
by_time (c ∷ cs) = insert_sorted index_cmp (time_entry c.global) (by_time cs)

abbrev pub bearing : Bytes → Catalog → List IndexEntry
bearing u [] = []
bearing u (c ∷ cs) = added_entry c.global (spelling u c.tags) (bearing u cs)

abbrev pub shelf : Option Bytes → Catalog → List IndexEntry
shelf none cs = by_time cs
shelf (some u) cs = bearing u cs

-- A page of the listed posts that satisfy a predicate, the newest first.
abbrev pub page : (ℕ → Post) → Option Bytes → Option (Post → Bool) → ℕ → ℕ → Catalog → List ℕ
page heap tagname pred skip nposts cs = pointers (
    take nposts
      (keep (passing heap pred) (drop skip (keep (is_listed heap) (reverse (shelf tagname cs))))))
