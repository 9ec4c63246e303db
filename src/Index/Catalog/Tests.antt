-- ===== src/Index/Catalog/Tests.antt =====
-- Examples for the catalog.
use mathlib.Core.List.{Permᴰ}
use blahgd.Prelude.{ℕ, Bool, [], ◌∷◌, Option, ◌≡◌, refl, arith, codes, lower, Bytes}
use blahgd.Index.{Post, done, index_insert_post, index_get_posts, init_post_index}
use blahgd.Index.Samples.{entries, globals, subs, heap, St}
use blahgd.Index.Insert.{AreDistinct}
use blahgd.Index.Catalog.{card_of, add_card}
use blahgd.Index.Catalog.Refines.{Matches, index_insert_post-Matches, init_post_index-Represents}
use blahgd.Index.Catalog.History.{filled, filled-same}

distinct : AreDistinct (codes "b" ∷ codes "C" ∷ [])
unfolding lower
distinct = (((λ h. cc), tt), (tt, tt))

index_insert_post-Matches_example :
    Matches entries globals subs
      (init_post_index entries globals subs [])
      (add_card [] (card_of heap 3))
      (index_insert_post entries globals subs heap 3 (init_post_index entries globals subs []))
index_insert_post-Matches_example =
    index_insert_post-Matches entries globals subs heap 3 []
      (init_post_index entries globals subs []) (init_post_index-Represents entries globals subs)
      distinct

filled-same_example :
    (st st' : St) × (filled entries globals subs heap (1 ∷ 3 ∷ []) ≡ done st)
    × (filled entries globals subs heap (3 ∷ 1 ∷ []) ≡ done st')
    × ((tagname : Option Bytes) (pred : Option (Post → Bool)) (skip nposts : ℕ)
        → index_get_posts entries globals subs st heap tagname pred skip nposts
          ≡ index_get_posts entries globals subs st' heap tagname pred skip nposts)
filled-same_example =
    filled-same entries globals subs heap (1 ∷ 3 ∷ []) (3 ∷ 1 ∷ []) (Permᴰ.swap refl refl)
      ((tt, tt), (distinct, tt)) (((λ h. omega (arith, h)), tt), (tt, tt))
