-- ===== src/Index/Teardown.antt =====
-- post_index.c: free_all_posts and the functions that it calls. `none` is a failed assertion, or the
-- removal of an entry from a list that it is not on.
mod Totals
mod Linked
mod Held
mod Loops
pub mod Frees
mod Tests
use blahgd.Prelude.{
  ℕ, ◌==◌, Bool, true, false, ◌&&◌, List, [], ◌∷◌, Option, none, some, if◌then◌else◌, any, Bytes,
  bytes_eq,
}
use blahgd.Extern.Rb.{RbApi, RbDestroy}
use blahgd.Index.{
  GlobalEntry, IndexEntry, Subindex, index_cmp, global_index_cmp, tag_cmp, Index, et_tag, et_time,
}

-- The lists `by_tag` of the global entries, the posts whose references have been put, the entries
-- that have been freed and the names of the subindices that have been.
pub record Freeing : Type 0 where
  pub by_tag : List (ℕ × Bytes)
  pub posts : List ℕ
  pub globals : List GlobalEntry
  pub entries : List IndexEntry
  pub subs : List Bytes

abbrev pub is_xref : ℕ × Bytes → ℕ × Bytes → Bool
is_xref (i, s) (j, t) = i == j && bytes_eq s t

-- list_remove
unfoldable pub list_remove : ℕ × Bytes → List (ℕ × Bytes) → Option (List (ℕ × Bytes))
list_remove x [] = none
list_remove x (y ∷ l) =
    let rest = list_remove x l in
    if is_xref x y then some l else elim rest [ none ↦ none | some m ↦ some (y ∷ m) ]

abbrev pub xref_removed : Option (List (ℕ × Bytes)) → Freeing → Option Freeing
xref_removed none st = none
xref_removed (some l) st = some (record st { by_tag = l })

abbrev pub unlisted : ℕ → Option Bytes → Freeing → Option Freeing
unlisted i none st = none
unlisted i (some t) st = xref_removed (list_remove (i, t) st.by_tag) st

abbrev pub from_list : IndexEntry → Freeing → Option Freeing
from_list cur st = elim cur.kind [ et_tag ↦ unlisted cur.global.id cur.name st | et_time ↦ some st ]

abbrev pub entry_freed : IndexEntry → Freeing → Freeing
entry_freed cur st = record st { entries = cur ∷ st.entries }

abbrev pub and_then : Option Freeing → (Freeing → Option Freeing) → Option Freeing
and_then none k = none
and_then (some st) k = k st

-- The loop of __free_index.
unfoldable pub free_index : List IndexEntry → Freeing → Option Freeing
free_index [] st = some st
free_index (cur ∷ l) st = and_then (from_list cur st) (λ st'. free_index l (entry_freed cur st'))

-- list_destroy asserts that the list is empty.
abbrev pub list_destroy : ℕ → Freeing → Option Freeing
list_destroy i st = if any (λ x. x.0 == i) st.by_tag then none else some st

-- The loop of __free_global_index.
unfoldable pub free_global_index : List GlobalEntry → Freeing → Option Freeing
free_global_index [] st = some st
free_global_index (cur ∷ l) st =
    and_then (list_destroy cur.id (record st { posts = cur.post ∷ st.posts }))
      (λ st'. free_global_index l (record st' { globals = cur ∷ st'.globals }))

module _ (entries : RbApi IndexEntry index_cmp) (globals : RbApi GlobalEntry global_index_cmp)
    (subs : RbApi (Subindex entries.Tree) tag_cmp) (entry_nodes : RbDestroy entries)
    (global_nodes : RbDestroy globals) (sub_nodes : RbDestroy subs) where
  -- The loop of __free_tag_index.
  unfoldable pub free_tag_index : List (Subindex entries.Tree) → Freeing → Option Freeing
  unfolding free_index
  free_tag_index [] st = some st
  free_tag_index (cur ∷ l) st =
      and_then (free_index (entry_nodes.nodes cur.subindex) st)
        (λ st'. free_tag_index l (record st' { subs = cur.name ∷ st'.subs }))

  unfoldable pub free_all_posts : Index entries globals subs → Option Freeing
  unfolding free_tag_index free_global_index
  free_all_posts st =
      let st0 : Freeing = record {
        by_tag = st.by_tag;
        posts = [];
        globals = [];
        entries = [];
        subs = [];
      } in
      and_then (free_tag_index (sub_nodes.nodes st.index_by_tag) st0) (λ st1.
        and_then (free_index (entry_nodes.nodes st.index_by_time) st1)
          (λ st2. free_global_index (global_nodes.nodes st.index_global) st2))
