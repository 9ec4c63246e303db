-- ===== src/Cond.antt =====
-- parse.h: the stack of conditions of the template parser. `cells` is the array cond_stack of
-- `depth` (COND_STACK_DEPTH) bools, and `used` is cond_stack_use + 1, the number of cells in use.
pub mod Laws
use blahgd.Prelude.{ℕ, zero, suc, ◌+◌, ◌-◌, Bool, true, not, ◌&&◌, ltb, leb, ◌==◌, if◌then◌else◌}

pub record Stack : Type 0 where
  pub cells : ℕ → Bool
  pub used : ℕ

-- An assertion fails, or the array is written past its end, or the call returns.
pub data Outcome : Type 0 where
  panic overrun : Outcome
  done : Stack → Outcome

unfoldable pub cond_value_from : (ℕ → Bool) → ℕ → Bool
cond_value_from cells zero = true
cond_value_from cells (suc n) = cond_value_from cells n && cells n

unfoldable pub cond_value : Stack → Bool
unfolding cond_value_from
cond_value s = cond_value_from s.cells s.used

abbrev pub store : (ℕ → Bool) → ℕ → Bool → ℕ → Bool
store cells i b j = if j == i then b else cells j

-- The assertion is cond_stack_use < COND_STACK_DEPTH, and the cell written is ++cond_stack_use.
unfoldable pub cond_if : ℕ → Stack → Bool → Outcome
cond_if depth s val =
    if leb s.used depth
    then if ltb s.used depth
      then done (record { cells = store s.cells s.used val; used = s.used + 1 })
      else overrun
    else panic

unfoldable pub cond_else : Stack → Outcome
cond_else s =
    if leb 1 s.used
    then done (record s { cells = store s.cells (s.used - 1) (not (s.cells (s.used - 1))) })
    else panic

unfoldable pub cond_endif : Stack → Outcome
cond_endif s = if leb 1 s.used then done (record s { used = s.used - 1 }) else panic
