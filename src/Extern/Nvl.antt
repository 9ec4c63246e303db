-- ===== src/Extern/Nvl.antt =====
-- libjeffpc's name-value lists as maps from names to values: nvl_alloc, nvl_set_*, nvl_lookup and
-- nvl_merge, which sets every name of the second list in the first.
use blahgd.Prelude.{String, Option, none, some, ◌≡◌, refl, str_eq, if◌then◌else◌}

abbrev pub or_else : {V : Type 0} → Option V → Option V → Option V
or_else none y = y
or_else (some x) y = some x

pub record NvlApi (V : Type 0) : Type 1 where
  pub Nvl : Type 0
  pub empty : Nvl
  pub lookup : Nvl → String → Option V
  pub set : Nvl → String → V → Nvl
  pub merge : Nvl → Nvl → Nvl
  pub lookup-empty : (k : String) → lookup empty k ≡ none
  pub lookup-set :
      (n : Nvl) (k : String) (v : V) (j : String)
      → lookup (set n k v) j ≡ (if str_eq k j then some v else lookup n j)
  pub lookup-merge :
      (n m : Nvl) (j : String) → lookup (merge n m) j ≡ or_else (lookup m j) (lookup n j)

-- Functions from names behave so.
abbrev pub name_functions : (V : Type 0) → NvlApi V
name_functions V = record {
  Nvl = String → Option V;
  empty = λ k. none;
  lookup = λ n k. n k;
  set = λ n k v j. if str_eq k j then some v else n j;
  merge = λ n m j. or_else (m j) (n j);
  lookup-empty = λ k. refl;
  lookup-set = λ n k v j. refl;
  lookup-merge = λ n m j. refl;
}
