-- ===== src/Archive.antt =====
-- index.c: the index and the archive of a month, on top of the index over the posts.
pub mod Pages
use blahgd.Prelude.{
  ℕ, ◌+◌, ◌-◌, ◌*◌, ◌/◌, ◌%◌, ◌^◌, Bool, ◌&&◌, List, Option, none, some, ltb, leb, ◌==◌,
  if◌then◌else◌, length,
}
use blahgd.Extern.Rb.{RbApi}
use blahgd.Extern.Query.{QueryApi}
use blahgd.Index.{
  Post, GlobalEntry, IndexEntry, Subindex, index_cmp, global_index_cmp, tag_cmp, Index,
  index_get_posts,
}

-- The fields of struct tm that are set.
pub record Tm : Type 0 where
  pub tm_year : ℕ
  pub tm_mon : ℕ
  pub tm_mday : ℕ

pub record FilterArgs : Type 0 where
  pub start : ℕ
  pub end : ℕ

-- Return true iff post->time is in [start,end).
unfoldable pub archive_filter : FilterArgs → Post → Bool
archive_filter args post = leb args.start post.time && ltb post.time args.end

abbrev pub start_of : ℕ → Tm
start_of archid = record { tm_year = archid / 100 - 1900; tm_mon = archid % 100 - 1; tm_mday = 1 }

abbrev pub end_of : Tm → Tm
end_of start =
    if leb 12 (start.tm_mon + 1)
    then record start { tm_mon = 1; tm_year = start.tm_year + 1 }
    else record start { tm_mon = start.tm_mon + 1 }

-- mktime, of which the result is stored in an unsigned int, is the C library's.
unfoldable pub filter_args : (Tm → ℕ) → ℕ → FilterArgs
filter_args mktime archid = record {
  start = mktime (start_of archid) % 2 ^ 32;
  end = mktime (end_of (start_of archid)) % 2 ^ 32;
}

unfoldable pub valid_arch_id : ℕ → Bool
valid_arch_id arch =
    let y = arch / 100 in let m = arch % 100 in leb 1 m && (leb m 12 && (leb 1970 y && ltb y 2100))

abbrev pub default_arch_id : ℕ
default_arch_id = 197001

abbrev pub arch_id_of : Option ℕ → ℕ
arch_id_of none = default_arch_id
arch_id_of (some tmp) = if valid_arch_id tmp then tmp else default_arch_id

unfoldable pub get_arch_id : (api : QueryApi) → api.Query → ℕ
unfolding valid_arch_id
get_arch_id api query = arch_id_of (api.lookup_int query "m")

-- The posts handed to load_posts, and the flag that there are more.
pub record Loaded : Type 0 where
  pub posts : List ℕ
  pub moreposts : Bool

module _ (entries : RbApi IndexEntry index_cmp) (globals : RbApi GlobalEntry global_index_cmp)
    (subs : RbApi (Subindex entries.Tree) tag_cmp) (mktime : Tm → ℕ) where
  -- No predicate for the index, which has archive id 0, and the month's for an archive.
  abbrev pub predicate : ℕ → Option (Post → Bool)
  predicate archid = if archid == 0 then none else some (archive_filter (filter_args mktime archid))

  abbrev pub loaded_of : ℕ → List ℕ → Loaded
  loaded_of posts_per_page posts = record {
    posts = posts;
    moreposts = length posts == posts_per_page;
  }

  -- __load_posts; the product is computed in 32 bits.
  unfoldable pub load_posts : Index entries globals subs → (ℕ → Post) → ℕ → ℕ → ℕ → Loaded
  load_posts st heap posts_per_page page archid = loaded_of posts_per_page (
      index_get_posts entries globals subs st heap none (predicate archid)
        ((page * posts_per_page) % 2 ^ 32) posts_per_page)
