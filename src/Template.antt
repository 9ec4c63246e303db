-- ===== src/Template.antt =====
-- template.y: what the actions of the template grammar do, and render.c. The scanner and the parser
-- that are generated from the grammar are a parameter: `parse` gives the words and commands of a
-- template in their order, `none` on an error. So are file_cache_get, str2u64, and the types of
-- variables. A missing template is printed as the empty text, as concat takes NULL.
pub mod Foreach
pub mod Scopes
pub mod Flat
pub mod Blocks
pub mod Ends
mod Tests
use blahgd.Prelude.{
  ℕ, zero, suc, Bool, true, false, String, List, [], ◌∷◌, ◌++◌, Option, none, some, ltb, ◌==◌,
  str_eq, if◌then◌else◌, take, Bytes, codes, decimal,
}
use blahgd.Extern.Nvl.{NvlApi}
use blahgd.Extern.Alist.{Val, int, str}
use blahgd.Vars.{Vars, vars_scope_push, vars_scope_pop, vars_set, vars_merge, vars_lookup}
use blahgd.Cond
use blahgd.Cond.{Stack, cond_value, cond_if, cond_else, cond_endif}
use blahgd.Pipeline.Stages.{Stage}
use blahgd.Pipeline.Stages

-- What stands in a template: a word or a character, or one of the six forms of a command.
pub data Item : Type 0 where
  word : Bytes → Item
  pipeline_cmd : String → List Stage → Item
  foreach_cmd : String → String → Item
  function_cmd : String → Option String → Option String → Item
  variable_cmd : String → Item

-- nvpair_type with the value, and the types of an array's elements.
pub data Elem (N : Type 0) : Type 0 where
  nvl_elem : N → Elem N
  str_elem : Bytes → Elem N
  other_elem : Elem N

pub data Kind (N : Type 0) : Type 0 where
  str_kind : Bytes → Kind N
  int_kind : ℕ → Kind N
  array_kind : List (Elem N) → Kind N
  other_kind : Kind N

-- How a call ends: with a value, by a failed assertion, a panic or a NULL that is read, or without
-- fuel for templates that include one another.
pub data Res (A : Type 0) : Type 0 where
  done : A → Res A
  crashed : Res A
  no_fuel : Res A

infixl 5 ◌>>=◌
abbrev pub ◌>>=◌ : {A B : Type 0} → Res A → (A → Res B) → Res B
done a >>= k = k a
crashed >>= k = crashed
no_fuel >>= k = no_fuel

abbrev pub of_option : {A : Type 0} → Option A → Res A
of_option none = crashed
of_option (some a) = done a

abbrev pub of_cond : Cond.Outcome → Res Stack
of_cond Cond.panic = crashed
of_cond Cond.overrun = crashed
of_cond (Cond.done s) = done s

-- The functions of the grammar's actions read these of the daemon.
pub record Env (V N : Type 0) : Type 0 where
  pub max_scopes : ℕ
  pub depth : ℕ
  pub kind : V → Kind N
  pub of_str : Bytes → V
  pub str2u64 : String → Option ℕ
  pub parse : Bytes → Option (List Item)
  pub file_cache_get : Bytes → Option Bytes
  pub template_dir : Bytes
  pub fmt : Bytes
  pub memory : Bool
  pub strftime : String → ℕ → Bytes

module _ {V : Type 0} (nvl : NvlApi V) (env : Env V nvl.Nvl) where
  open env use {max_scopes, depth, kind, of_str, str2u64}

  abbrev pub S : Type 0
  S = Vars nvl.Nvl

  -- The type of render_template.
  abbrev pub Renderer : Type 0
  Renderer = String → S → Res (Bytes × S)

  abbrev pub set_item : String → S → Elem nvl.Nvl → Res S
  set_item name vars (nvl_elem items) = done (vars_merge nvl vars items)
  set_item name vars (str_elem s) = done (vars_set nvl vars name (of_str s))
  set_item name vars other_elem = crashed

  -- One round of the loop, up to vars_scope_pop.
  unfoldable pub foreach_item : Renderer → String → String → Elem nvl.Nvl → S → Res (Bytes × S)
  foreach_item render name tmpl e vars =
      of_option (vars_scope_push nvl max_scopes vars)
      >>= (λ pushed. set_item name pushed e)
      >>= (λ inner. render tmpl inner)
      >>= λ r. done (r.0, vars_scope_pop nvl r.1)

  unfoldable pub foreach_loop :
      Renderer → String → String → List (Elem nvl.Nvl) → S → Res (Bytes × S)
  unfolding foreach_item
  foreach_loop render name tmpl [] vars = done ([], vars)
  foreach_loop render name tmpl (e ∷ es) vars = foreach_item render name tmpl e vars >>= λ r.
      foreach_loop render name tmpl es r.1 >>= λ rest. done (r.0 ++ rest.0, rest.1)

  -- __foreach
  abbrev pub foreach_kind : Renderer → String → String → S → Option (Kind nvl.Nvl) → Res (Bytes × S)
  foreach_kind render name tmpl vars none = done ([], vars)
  foreach_kind render name tmpl vars (some (array_kind items)) =
      foreach_loop render name tmpl items vars
  foreach_kind render name tmpl vars (some (str_kind s)) = crashed
  foreach_kind render name tmpl vars (some (int_kind n)) = crashed
  foreach_kind render name tmpl vars (some other_kind) = crashed

  abbrev pub kind_of : Option V → Option (Kind nvl.Nvl)
  kind_of none = none
  kind_of (some v) = some (kind v)

  abbrev pub looked_up : String → S → Option (Kind nvl.Nvl)
  looked_up name vars = kind_of (vars_lookup nvl vars name)

  unfoldable pub foreach : Renderer → Stack → String → String → S → Res (Bytes × S)
  unfolding foreach_loop
  foreach render stack name tmpl vars =
      if cond_value stack
      then foreach_kind render name tmpl vars (looked_up name vars)
      else done ([], vars)

  -- print_var
  abbrev pub print_var : Renderer → String → S → Option (Kind nvl.Nvl) → Res (Bytes × S)
  print_var render name vars none = render name vars
  print_var render name vars (some (str_kind s)) = done (s, vars)
  print_var render name vars (some (int_kind n)) = done (decimal n, vars)
  print_var render name vars (some (array_kind items)) = crashed
  print_var render name vars (some other_kind) = crashed

  unfoldable pub variable : Renderer → Stack → String → S → Res (Bytes × S)
  variable render stack name vars =
      if cond_value stack then print_var render name vars (looked_up name vars) else done ([], vars)

  -- The value that a pipeline takes.
  abbrev pub val_of : Kind nvl.Nvl → Val
  val_of (str_kind s) = str s
  val_of (int_kind n) = int n
  val_of (array_kind items) = Val.array
  val_of other_kind = Val.null

  abbrev pub val_of_var : Option (Kind nvl.Nvl) → Option Val
  val_of_var none = none
  val_of_var (some k) = some (val_of k)

  abbrev pub out_of : S → Option Bytes → Res (Bytes × S)
  out_of vars o = of_option o >>= λ out. done (out, vars)

  unfoldable pub pipeline : Stack → String → List Stage → S → Res (Bytes × S)
  pipeline stack name line vars =
      if cond_value stack
      then out_of vars
          (Stages.pipeline env.memory env.strftime (val_of_var (looked_up name vars)) line)
      else done ([], vars)

  -- __function_get_arg
  abbrev pub int_arg : Option (Kind nvl.Nvl) → Res ℕ
  int_arg none = done 0
  int_arg (some (int_kind n)) = done n
  int_arg (some (str_kind s)) = crashed
  int_arg (some (array_kind items)) = crashed
  int_arg (some other_kind) = crashed

  unfoldable pub function_get_arg : S → Option String → Res ℕ
  function_get_arg vars none = crashed
  function_get_arg vars (some arg) = elim (str2u64 arg) [
    | some val ↦ done val
    | none ↦ int_arg (looked_up arg vars)
  ]

  -- __function
  unfoldable pub compared : (ℕ → ℕ → Bool) → Option String → Option String → Stack → S → Res Stack
  unfolding function_get_arg
  compared fxn sa1 sa2 stack vars = function_get_arg vars sa1 >>= λ ia1.
      function_get_arg vars sa2 >>= λ ia2. of_cond (cond_if depth stack (fxn ia1 ia2))

  abbrev pub is_set : Option (Kind nvl.Nvl) → Bool
  is_set none = false
  is_set (some k) = true

  -- __function_ifset
  unfoldable pub function_ifset : Option String → Stack → S → Res Stack
  function_ifset none stack vars = crashed
  function_ifset (some arg) stack vars = of_cond (cond_if depth stack (is_set (looked_up arg vars)))

  unfoldable pub function : String → Option String → Option String → Stack → S → Res Stack
  unfolding compared function_ifset
  function fxn sa1 sa2 stack vars =
      if str_eq fxn "ifgt"
      then compared (λ x y. ltb y x) sa1 sa2 stack vars
      else if str_eq fxn "iflt"
      then compared ltb sa1 sa2 stack vars
      else if str_eq fxn "ifeq"
      then compared ◌==◌ sa1 sa2 stack vars
      else if str_eq fxn "ifset"
      then function_ifset sa1 stack vars
      else if str_eq fxn "endif"
      then of_cond (cond_endif stack)
      else if str_eq fxn "else"
      then of_cond (cond_else stack)
      else crashed

  -- What a parse has put out, with the state that it leaves.
  pub record Output : Type 0 where
    pub out : Bytes
    pub stack : Stack
    pub vars : S

  abbrev pub printed : Bytes → Stack → Res (Bytes × S) → Res Output
  printed out stack r = r >>= λ p. done (record { out = out ++ p.0; stack = stack; vars = p.1 })

  -- The actions of `words` and `cmd`; a word goes through condconcat.
  unfoldable pub item : Renderer → Item → Output → Res Output
  unfolding foreach variable pipeline function
  item render (word s) o = done (if cond_value o.stack then record o { out = o.out ++ s } else o)
  item render (pipeline_cmd name line) o = printed o.out o.stack (pipeline o.stack name line o.vars)
  item render (foreach_cmd name tmpl) o =
      printed o.out o.stack (foreach render o.stack name tmpl o.vars)
  item render (function_cmd fxn sa1 sa2) o =
      function fxn sa1 sa2 o.stack o.vars >>= λ stack. done (record o { stack = stack })
  item render (variable_cmd name) o = printed o.out o.stack (variable render o.stack name o.vars)

  unfoldable pub items : Renderer → List Item → Output → Res Output
  unfolding item
  items render [] o = done o
  items render (i ∷ l) o = item render i o >>= items render l

  abbrev pub no_conditions : Stack
  no_conditions = record { cells = λ i. true; used = 0 }

  unfoldable pub render_page : Renderer → Bytes → S → Res (Bytes × S)
  unfolding items
  render_page render input vars = of_option (env.parse input) >>= λ l.
      items render l (record { out = []; stack = no_conditions; vars = vars }) >>= λ o.
      done (o.out, o.vars)

  abbrev pub tmpl_path : String → Bytes
  tmpl_path tmpl =
      take 4095 (
        env.template_dir
        ++ (codes "/" ++ (env.fmt ++ (codes "/" ++ (codes tmpl ++ codes ".tmpl")))))

  abbrev pub render_raw : (Bytes → S → Res (Bytes × S)) → S → Option Bytes → Res (Bytes × S)
  render_raw page vars none = done ([], vars)
  render_raw page vars (some raw) = page raw vars

  -- Templates that include one another are rendered up to a depth of `fuel`.
  unfoldable pub render_template : ℕ → Renderer
  unfolding render_page
  render_template zero tmpl vars = no_fuel
  render_template (suc fuel) tmpl vars =
      render_raw (render_page (render_template fuel)) vars (env.file_cache_get (tmpl_path tmpl))
