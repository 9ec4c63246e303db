-- ===== src/Template/Foreach.antt =====
-- A foreach pops the scopes that it pushes, and no command changes the variables otherwise.
use blahgd.Prelude.{
  ◌≡◌, refl, ap, ◌∙◌, Bool, true, false, String, List, [], ◌∷◌, ◌++◌, Option, none, some, Bytes,
  if◌then◌else◌,
}
use blahgd.Extern.Nvl.{NvlApi}
use blahgd.Vars.{vars_scope_push, vars_scope_pop, vars_set, vars_merge}
use blahgd.Vars.Laws.{set_var, merge_vars, vars_scope_pop-changes}
use blahgd.Template.{
  Elem, nvl_elem, str_elem, other_elem, Kind, str_kind, int_kind, array_kind, other_kind, Res, done,
  crashed, no_fuel, ◌>>=◌, Env, S, Renderer, foreach_item, foreach_loop, foreach_kind, print_var,
  out_of, of_option, set_item,
}

module _ {V : Type 0} (nvl : NvlApi V) (env : Env V nvl.Nvl) where
  abbrev Sc : Type 0
  Sc = S nvl env

  -- If there is a result, it comes with these variables.
  abbrev pub Leaves : Sc → Res (Bytes × Sc) → Type 0
  Leaves vars (done p) = p.1 ≡ vars
  Leaves vars crashed = Unit
  Leaves vars no_fuel = Unit

  abbrev pub LeavesAll : Renderer nvl env → Type 0
  LeavesAll render = (tmpl : String) (vars : Sc) → Leaves vars (render tmpl vars)

  pop-Leaves :
      (vars inner : Sc) (r : Res (Bytes × Sc))
      → Leaves inner r
      → vars_scope_pop nvl inner ≡ vars
      → Leaves vars (r >>= λ p. done (p.0, vars_scope_pop nvl p.1))
  pop-Leaves vars inner (done p) h k = ap (vars_scope_pop nvl) h ∙ k
  pop-Leaves vars inner crashed h k = tt
  pop-Leaves vars inner no_fuel h k = tt

  seq-Leaves :
      (vars : Sc) (r : Res (Bytes × Sc)) (k : Sc → Res (Bytes × Sc))
      → Leaves vars r
      → ((v : Sc) → Leaves v (k v))
      → Leaves vars (r >>= λ p. k p.1 >>= λ rest. done (p.0 ++ rest.0, rest.1))
  seq-Leaves vars crashed k h g = tt
  seq-Leaves vars no_fuel k h g = tt
  seq-Leaves vars (done p) k h g = go (k p.1) (g p.1)
    where
      go :
          (q : Res (Bytes × Sc))
          → Leaves p.1 q
          → Leaves vars (q >>= λ rest. done (p.0 ++ rest.0, rest.1))
      go (done rest) e = e ∙ h
      go crashed e = tt
      go no_fuel e = tt

  set_item-Leaves :
      (render : Renderer nvl env) (name tmpl : String) (e : Elem nvl.Nvl) (vars pushed : Sc)
      → LeavesAll render
      → vars_scope_push nvl env.max_scopes vars ≡ some pushed
      → Leaves vars (
          set_item nvl env name pushed e >>= (λ inner. render tmpl inner) >>= λ p.
          done (p.0, vars_scope_pop nvl p.1))
  set_item-Leaves render name tmpl (nvl_elem l) vars pushed h e =
      pop-Leaves vars _ (render tmpl (vars_merge nvl pushed l)) (h tmpl (vars_merge nvl pushed l))
        (vars_scope_pop-changes nvl env.max_scopes vars pushed (merge_vars l ∷ []) e)
  set_item-Leaves render name tmpl (str_elem s) vars pushed h e =
      pop-Leaves vars _ (render tmpl (vars_set nvl pushed name (env.of_str s)))
        (h tmpl (vars_set nvl pushed name (env.of_str s)))
        (vars_scope_pop-changes nvl env.max_scopes vars pushed (set_var name (env.of_str s) ∷ []) e)
  set_item-Leaves render name tmpl other_elem vars pushed h e = tt

  foreach_item-Leaves :
      (render : Renderer nvl env) (name tmpl : String) (e : Elem nvl.Nvl) (vars : Sc)
      → LeavesAll render
      → Leaves vars (foreach_item nvl env render name tmpl e vars)
  unfolding foreach_item
  foreach_item-Leaves render name tmpl e vars h = go (vars_scope_push nvl env.max_scopes vars) refl
    where
      go :
          (o : Option Sc)
          → vars_scope_push nvl env.max_scopes vars ≡ o
          → Leaves vars (
              of_option o
              >>= (λ pushed. set_item nvl env name pushed e)
              >>= (λ inner. render tmpl inner)
              >>= λ p. done (p.0, vars_scope_pop nvl p.1))
      go none q = tt
      go (some pushed) q = set_item-Leaves render name tmpl e vars pushed h q

  foreach_loop-Leaves :
      (render : Renderer nvl env) (name tmpl : String) (l : List (Elem nvl.Nvl)) (vars : Sc)
      → LeavesAll render
      → Leaves vars (foreach_loop nvl env render name tmpl l vars)
  unfolding foreach_loop
  foreach_loop-Leaves render name tmpl [] vars h = refl
  foreach_loop-Leaves render name tmpl (e ∷ l) vars h =
      seq-Leaves vars (foreach_item nvl env render name tmpl e vars)
        (foreach_loop nvl env render name tmpl l) (foreach_item-Leaves render name tmpl e vars h)
        (λ v. foreach_loop-Leaves render name tmpl l v h)

  pub foreach_kind-Leaves :
      (render : Renderer nvl env) (name tmpl : String) (vars : Sc) (o : Option (Kind nvl.Nvl))
      → LeavesAll render
      → Leaves vars (foreach_kind nvl env render name tmpl vars o)
  foreach_kind-Leaves render name tmpl vars none h = refl
  foreach_kind-Leaves render name tmpl vars (some (array_kind l)) h =
      foreach_loop-Leaves render name tmpl l vars h
  foreach_kind-Leaves render name tmpl vars (some (str_kind s)) h = tt
  foreach_kind-Leaves render name tmpl vars (some (int_kind n)) h = tt
  foreach_kind-Leaves render name tmpl vars (some other_kind) h = tt

  pub print_var-Leaves :
      (render : Renderer nvl env) (name : String) (vars : Sc) (o : Option (Kind nvl.Nvl))
      → LeavesAll render
      → Leaves vars (print_var nvl env render name vars o)
  print_var-Leaves render name vars none h = h name vars
  print_var-Leaves render name vars (some (array_kind l)) h = tt
  print_var-Leaves render name vars (some (str_kind s)) h = refl
  print_var-Leaves render name vars (some (int_kind n)) h = refl
  print_var-Leaves render name vars (some other_kind) h = tt

  -- A command that only acts under a condition.
  pub guarded-Leaves :
      (vars : Sc) (c : Bool) (r : Res (Bytes × Sc))
      → Leaves vars r
      → Leaves vars (if c then r else done ([], vars))
  guarded-Leaves vars true r h = h
  guarded-Leaves vars false r h = refl

  pub out_of-Leaves : (vars : Sc) (o : Option Bytes) → Leaves vars (out_of nvl env vars o)
  out_of-Leaves vars none = tt
  out_of-Leaves vars (some out) = refl
