-- ===== src/Index/Samples.antt =====
-- An index with two posts, one of them not listed, for the examples; a third one can be inserted.
use blahgd.Prelude.{ℕ, Bool, true, false, [], ◌∷◌, none, some, ◌==◌, if◌then◌else◌, codes}
use blahgd.Extern.Rb.{RbApi, sorted_lists}
use blahgd.Index.{
  Post, GlobalEntry, IndexEntry, Subindex, et_time, et_tag, index_cmp, global_index_cmp, tag_cmp,
  Index,
}

abbrev pub entries : RbApi IndexEntry index_cmp
entries = sorted_lists index_cmp

abbrev pub globals : RbApi GlobalEntry global_index_cmp
globals = sorted_lists global_index_cmp

abbrev pub subs : RbApi (Subindex entries.Tree) tag_cmp
subs = sorted_lists tag_cmp

abbrev pub St : Type 0
St = Index entries globals subs

abbrev pub heap : ℕ → Post
heap p =
    if p == 1
    then record { id = 11; time = 100; listed = true; tags = codes "c" ∷ [] }
    else if p == 2
    then record { id = 12; time = 200; listed = false; tags = codes "c" ∷ [] }
    else record { id = 13; time = 300; listed = true; tags = codes "b" ∷ codes "C" ∷ [] }

abbrev pub global : ℕ → GlobalEntry
global p = record { id = (heap p).id; post = p; time = (heap p).time }

abbrev pub entry : ℕ → IndexEntry
entry p = record { global = global p; name = none; kind = et_time }

abbrev pub tag_entry : ℕ → IndexEntry
tag_entry p = record { global = global p; name = some (codes "c"); kind = et_tag }

abbrev pub index : St
index = record {
  index_global = global 1 ∷ global 2 ∷ [];
  index_by_time = entry 1 ∷ entry 2 ∷ [];
  index_by_tag = record { name = codes "c"; subindex = tag_entry 1 ∷ tag_entry 2 ∷ [] } ∷ [];
  by_tag = (11, codes "c") ∷ (12, codes "c") ∷ [];
  freed = [];
  memory = [];
}

abbrev pub even : Post → Bool
even post = post.id == 12
