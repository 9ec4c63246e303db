-- ===== src/Vars.antt =====
-- vars.c: the variables of the templates, in nested scopes. The array `scopes` up to `cur` is the
-- list of scopes with the current one in front; `max_scopes` is VAR_MAX_SCOPES.
pub mod Laws
use blahgd.Prelude.{ℕ, suc, String, List, [], ◌∷◌, Option, none, some, ltb, if◌then◌else◌, length}
use blahgd.Extern.Nvl.{NvlApi}

pub record Vars (N : Type 0) : Type 0 where
  pub current : N
  pub outer : List N

module _ {V : Type 0} (api : NvlApi V) where
  open api use {Nvl, empty, set, merge, lookup}

  unfoldable pub vars_init : Vars Nvl
  vars_init = record { current = empty; outer = [] }

  -- `none` is the failed assertion that the new scope is within the array.
  unfoldable pub vars_scope_push : ℕ → Vars Nvl → Option (Vars Nvl)
  vars_scope_push max_scopes vars =
      if ltb (suc (length vars.outer)) max_scopes
      then some (record { current = empty; outer = vars.current ∷ vars.outer })
      else none

  -- Without an outer scope a new one is pushed.
  abbrev pub popped : List Nvl → Vars Nvl
  popped [] = record { current = empty; outer = [] }
  popped (scope ∷ outer) = record { current = scope; outer = outer }

  unfoldable pub vars_scope_pop : Vars Nvl → Vars Nvl
  vars_scope_pop vars = popped vars.outer

  -- vars_set_str, vars_set_int, vars_set_array
  unfoldable pub vars_set : Vars Nvl → String → V → Vars Nvl
  vars_set vars name val = record vars { current = set vars.current name val }

  unfoldable pub vars_merge : Vars Nvl → Nvl → Vars Nvl
  vars_merge vars items = record vars { current = merge vars.current items }

  unfoldable pub lookup_scopes : List Nvl → String → Option V
  lookup_scopes [] name = none
  lookup_scopes (scope ∷ scopes) name = elim (lookup scope name) [
    | none ↦ lookup_scopes scopes name
    | some v ↦ some v
  ]

  unfoldable pub vars_lookup : Vars Nvl → String → Option V
  unfolding lookup_scopes
  vars_lookup vars name = lookup_scopes (vars.current ∷ vars.outer) name
