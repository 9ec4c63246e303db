-- ===== src/Index/Insert/Tests.antt =====
-- Examples for index_insert_post.
use blahgd.Prelude.{
  ℕ, ◌≡◌, refl, ap, true, false, [], ◌∷◌, some, arith, Bytes, codes, lower, strcasecmp,
}
use blahgd.Index.{
  tag_cmp, global_index_cmp, done, failed, enomem, index_lookup_post, index_insert_post,
}
use blahgd.Index.Samples.{St, entries, globals, subs, heap, index}
use blahgd.Index.Insert.{IsConsistent, find_sub}
use blahgd.Index.Insert.Whole.{Inserted, index_insert_post-Inserted}
use blahgd.Index.Insert.Errors.{index_insert_post_dangling}

abbrev first : Bytes → ℕ
first [] = 0
first (c ∷ s) = c

consistent : IsConsistent entries globals subs index
consistent = record { times = (refl, (refl, tt)); tags = ((refl, (refl, tt)), tt) }

index_insert_post-Inserted_example :
    (st' : St) × (index_insert_post entries globals subs heap 3 index ≡ done st')
    × Inserted entries globals subs heap 3 index st'
unfolding index_lookup_post lower global_index_cmp
index_insert_post-Inserted_example =
    index_insert_post-Inserted entries globals subs heap 3 index consistent refl
      (((λ h. omega (arith, ap first h)), tt), (tt, tt)) refl

abbrev scarce : St
scarce = record index { memory = true ∷ true ∷ false ∷ [] }

scarce-IsConsistent : IsConsistent entries globals subs scarce
scarce-IsConsistent = record { times = (refl, (refl, tt)); tags = ((refl, (refl, tt)), tt) }

index_insert_post_dangling_example :
    (st' : St) × (index_insert_post entries globals subs heap 3 scarce ≡ failed enomem st')
    × (st'.freed ≡ 13 ∷ [])
    × (index_lookup_post entries globals subs st' 13 ≡ some 3)
unfolding index_lookup_post find_sub tag_cmp strcasecmp global_index_cmp
index_insert_post_dangling_example =
    index_insert_post_dangling entries globals subs heap 3 scarce (codes "b") (codes "C" ∷ []) []
      scarce-IsConsistent refl refl refl refl
