-- ===== src/Index/Teardown/Tests.antt =====
-- Examples for the end of the index.
use mathlib.Core.List.Permᴰ.{refl as Permᴰ_refl}
use blahgd.Prelude.{[], ◌∷◌, refl, Ordering, strcasecmp, strcmp}
use blahgd.Extern.Rb.{RbDestroy, sorted_lists}
use blahgd.Index.{
  Outcome, done, failed, panic, init_post_index, index_insert_post, index_cmp, global_index_cmp,
  tag_cmp,
}
use blahgd.Index.Samples.{entries, globals, subs, heap, St}
use blahgd.Index.Teardown.Frees.{Frees, inserted, free_all_posts-Frees}

abbrev in_order : {E : Type 0} (cmp : E → E → Ordering) → RbDestroy (sorted_lists cmp)
in_order cmp = record { nodes = λ t. t; nodes-Permᴰ = λ t. Permᴰ_refl t }

abbrev state_of : Outcome St → St
state_of (done st) = st
state_of (failed e st) = st
state_of panic = init_post_index entries globals subs []

abbrev ended : St
ended = state_of (
    inserted entries globals subs (in_order index_cmp) (in_order global_index_cmp)
      (in_order tag_cmp) heap [] (1 ∷ 3 ∷ []))

free_all_posts-Frees_example :
    Frees entries globals subs
      (in_order index_cmp)
      (in_order global_index_cmp)
      (in_order tag_cmp)
      heap
      (1 ∷ 3 ∷ [])
      ended
unfolding index_insert_post init_post_index index_cmp global_index_cmp tag_cmp strcasecmp strcmp
free_all_posts-Frees_example =
    free_all_posts-Frees entries globals subs (in_order index_cmp) (in_order global_index_cmp)
      (in_order tag_cmp) heap [] (1 ∷ 3 ∷ []) ended refl
