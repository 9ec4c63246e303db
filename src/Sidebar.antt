-- ===== src/Sidebar.antt =====
-- sidebar.c: the tag cloud. Floating-point numbers are a parameter. Calls of libjeffpc that can fail
-- take their results from a list; past its end they succeed. The numbers of posts are taken to fit
-- an int.
pub mod Cloud
mod Tests
use blahgd.Prelude.{
  ℕ, zero, suc, ◌+◌, ◌-◌, ◌*◌, ◌%◌, ◌^◌, Bool, true, false, List, [], ◌∷◌, ◌++◌, Option, none, some,
  ltb, leb, if◌then◌else◌, length, Bytes,
}
use blahgd.Extern.Rb.{RbApi}
use blahgd.Index.{
  GlobalEntry, IndexEntry, Subindex, index_cmp, global_index_cmp, tag_cmp, Index,
  index_for_each_tag,
}

-- The type float, as far as __tag_size uses it.
pub record FloatApi : Type 1 where
  pub F : Type 0
  pub of_uint : ℕ → F
  pub add : F → F → F
  pub div : F → F → F
  pub ceil : F → ℕ

pub record Sizes : Type 0 where
  pub tagcloud_min_size : ℕ
  pub tagcloud_max_size : ℕ

pub record TagVars : Type 0 where
  pub name : Bytes
  pub count : ℕ
  pub size : ℕ

-- struct tagcloud_state: the array's cells, if it has been allocated, and what they hold up to
-- `ntags`. A write past the last cell is noted.
pub record State : Type 0 where
  pub results : List Bool
  pub cells : Option ℕ
  pub cloud : List TagVars
  pub overrun : Bool

-- The results of calls that do not change the state otherwise.
abbrev pub after_calls : ℕ → List Bool → Bool × List Bool
after_calls zero l = (true, l)
after_calls (suc n) [] = (true, [])
after_calls (suc n) (true ∷ l) = after_calls n l
after_calls (suc n) (false ∷ l) = (false, l)

-- __tagcloud_init; the second part says whether it returns 0.
unfoldable pub tagcloud_init : State → ℕ → State × Bool
tagcloud_init s ntags =
    let (ok, l) = after_calls 1 s.results in
    (record s { results = l; cells = if ok then some ntags else none; cloud = [] }, ok)

-- state->cloud[state->ntags] = tmp; state->ntags++;
abbrev pub append_tag : State → TagVars → Option ℕ → State
append_tag s v none = record s { overrun = true }
append_tag s v (some cells) =
    if ltb (length s.cloud) cells
    then record s { cloud = s.cloud ++ v ∷ [] }
    else record s { overrun = true }

module _ (float : FloatApi) (sizes : Sizes) where
  open float use {of_uint, add, div, ceil}
  open sizes use {tagcloud_min_size, tagcloud_max_size}

  -- __tag_size; the differences are taken in 64 bits.
  unfoldable pub tag_size : ℕ → ℕ → ℕ → ℕ
  tag_size count cmin cmax =
      if leb count cmin
      then tagcloud_min_size
      else ceil (
          add (of_uint tagcloud_min_size) (
            div
              (of_uint (
                ((tagcloud_max_size + 2 ^ 64 - tagcloud_min_size) % 2 ^ 64 * (count - cmin))
                % 2 ^ 64))
              (of_uint (cmax - cmin))))

  abbrev pub tag_vars : Bytes → ℕ → ℕ → ℕ → TagVars
  tag_vars name count cmin cmax = record {
    name = name;
    count = count;
    size = tag_size count cmin cmax;
  }

  -- __tagcloud_step: the calls are nvl_alloc and three nvl_set_*.
  unfoldable pub tagcloud_step : State → Bytes → ℕ → ℕ → ℕ → State
  tagcloud_step s name count cmin cmax =
      if leb count 1
      then s
      else let (ok, l) = after_calls 4 s.results in
        let s' : State = record s { results = l } in
        if ok then append_tag s' (tag_vars name count cmin cmax) s.cells else s'

  -- What is set as the variable `tagcloud`, in a state with the call results to come.
  unfoldable pub tagcloud :
      (entries : RbApi IndexEntry index_cmp) (globals : RbApi GlobalEntry global_index_cmp)
      (subs : RbApi (Subindex entries.Tree) tag_cmp)
      → Index entries globals subs
      → List Bool
      → State
  unfolding tagcloud_init tagcloud_step
  tagcloud entries globals subs st results =
      index_for_each_tag entries globals subs st (some tagcloud_init) (some tagcloud_step)
        (record { results = results; cells = none; cloud = []; overrun = false })
