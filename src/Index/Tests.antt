-- ===== src/Index/Tests.antt =====
-- Examples for the listings of the index.
use blahgd.Prelude.{◌≡◌, some, codes, take, drop, keep}
use blahgd.Index.{index_get_posts}
use blahgd.Index.Samples.{entries, globals, subs, heap, even, index}
use blahgd.Index.Listing.{pointers, passing, listing, index_get_posts-listing}

index_get_posts-listing_example :
    index_get_posts entries globals subs index heap (some (codes "c")) (some even) 0 5
    ≡ pointers (
        take 5 (
          keep
            (passing heap (some even))
            (drop 0 (listing entries globals subs index heap (some (codes "c"))))))
index_get_posts-listing_example =
    index_get_posts-listing entries globals subs index heap (some (codes "c")) (some even) 0 5
