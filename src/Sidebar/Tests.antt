-- ===== src/Sidebar/Tests.antt =====
-- Examples for the tag cloud.
use blahgd.Prelude.{ℕ, ◌+◌, ◌/◌, ◌<◌, ◌≤◌, ◌≡◌, false, [], All, length}
use blahgd.Index.Samples.{entries, globals, subs, index}
use blahgd.Sidebar.{FloatApi, Sizes, tagcloud}
use blahgd.Sidebar.Cloud.{tagcloud_bounds}

-- Whole numbers.
abbrev whole : FloatApi
whole = record { F = ℕ; of_uint = λ n. n; add = ◌+◌; div = ◌/◌; ceil = λ n. n }

abbrev sizes : Sizes
sizes = record { tagcloud_min_size = 6; tagcloud_max_size = 18 }

tagcloud_bounds_example :
    ((tagcloud whole sizes entries globals subs index []).overrun ≡ false)
    × (length (tagcloud whole sizes entries globals subs index []).cloud ≤ 1)
    × All (λ v. 1 < v.count) (tagcloud whole sizes entries globals subs index []).cloud
tagcloud_bounds_example = tagcloud_bounds whole sizes entries globals subs index []
