-- ===== src/Template/Scopes.antt =====
-- A template leaves the variables as it finds them.
use blahgd.Prelude.{
  ℕ, zero, suc, ◌≡◌, refl, ◌∙◌, Bool, true, false, String, List, [], ◌∷◌, ◌++◌, Option, none, some,
  Bytes, if◌then◌else◌,
}
use blahgd.Extern.Nvl.{NvlApi}
use blahgd.Cond.{Stack, cond_value}
use blahgd.Template.{
  Item, word, pipeline_cmd, foreach_cmd, function_cmd, variable_cmd, Res, done, crashed, no_fuel,
  ◌>>=◌, Env, S, Renderer, looked_up, foreach, variable, pipeline, Output, printed, function, item,
  items, no_conditions, of_option, render_page, render_raw, tmpl_path, render_template,
}
use blahgd.Template.Foreach.{
  Leaves, LeavesAll, foreach_kind-Leaves, print_var-Leaves, guarded-Leaves, out_of-Leaves,
}

module _ {V : Type 0} (nvl : NvlApi V) (env : Env V nvl.Nvl) where
  abbrev Sc : Type 0
  Sc = S nvl env

  abbrev pub LeavesVars : Sc → Res (Output nvl env) → Type 0
  LeavesVars vars (done o) = o.vars ≡ vars
  LeavesVars vars crashed = Unit
  LeavesVars vars no_fuel = Unit

  printed-LeavesVars :
      (out : Bytes) (stack : Stack) (vars : Sc) (r : Res (Bytes × Sc))
      → Leaves nvl env vars r
      → LeavesVars vars (printed nvl env out stack r)
  printed-LeavesVars out stack vars (done p) h = h
  printed-LeavesVars out stack vars crashed h = tt
  printed-LeavesVars out stack vars no_fuel h = tt

  word-LeavesVars :
      (c : Bool) (out : Bytes) (o : Output nvl env)
      → (if c then record o { out = out } else o).vars ≡ o.vars
  word-LeavesVars true out o = refl
  word-LeavesVars false out o = refl

  restack-LeavesVars :
      (o : Output nvl env) (r : Res Stack)
      → LeavesVars o.vars (r >>= λ stack. done (record o { stack = stack }))
  restack-LeavesVars o (done stack) = refl
  restack-LeavesVars o crashed = tt
  restack-LeavesVars o no_fuel = tt

  item-LeavesVars :
      (render : Renderer nvl env) (i : Item) (o : Output nvl env)
      → LeavesAll nvl env render
      → LeavesVars o.vars (item nvl env render i o)
  unfolding item foreach variable pipeline
  item-LeavesVars render (word s) o h = word-LeavesVars (cond_value o.stack) (o.out ++ s) o
  item-LeavesVars render (pipeline_cmd name line) o h =
      printed-LeavesVars o.out o.stack o.vars _
        (guarded-Leaves nvl env o.vars (cond_value o.stack) _ (out_of-Leaves nvl env o.vars _))
  item-LeavesVars render (foreach_cmd name tmpl) o h = printed-LeavesVars o.out o.stack o.vars _ (
      guarded-Leaves nvl env o.vars (cond_value o.stack) _
        (foreach_kind-Leaves nvl env render name tmpl o.vars (looked_up nvl env name o.vars) h))
  item-LeavesVars render (function_cmd fxn sa1 sa2) o h =
      restack-LeavesVars o (function nvl env fxn sa1 sa2 o.stack o.vars)
  item-LeavesVars render (variable_cmd name) o h = printed-LeavesVars o.out o.stack o.vars _ (
      guarded-Leaves nvl env o.vars (cond_value o.stack) _
        (print_var-Leaves nvl env render name o.vars (looked_up nvl env name o.vars) h))

  items-LeavesVars :
      (render : Renderer nvl env) (l : List Item) (o : Output nvl env)
      → LeavesAll nvl env render
      → LeavesVars o.vars (items nvl env render l o)
  unfolding items
  items-LeavesVars render [] o h = refl
  items-LeavesVars render (i ∷ l) o h =
      go (λ o1. items-LeavesVars render l o1 h) (item nvl env render i o)
        (item-LeavesVars render i o h)
    where
      after :
          (vars : Sc) (o1 : Output nvl env) (r : Res (Output nvl env))
          → o1.vars ≡ vars
          → LeavesVars o1.vars r
          → LeavesVars vars r
      after vars o1 (done o2) e k = k ∙ e
      after vars o1 crashed e k = tt
      after vars o1 no_fuel e k = tt

      go :
          ((o1 : Output nvl env) → LeavesVars o1.vars (items nvl env render l o1))
          → (r : Res (Output nvl env)) → LeavesVars o.vars r
          → LeavesVars o.vars (r >>= items nvl env render l)
      go rest (done o1) e = after o.vars o1 (items nvl env render l o1) e (rest o1)
      go rest crashed e = tt
      go rest no_fuel e = tt

  page_end-Leaves :
      (vars : Sc) (r : Res (Output nvl env))
      → LeavesVars vars r
      → Leaves nvl env vars (r >>= λ o. done (o.out, o.vars))
  page_end-Leaves vars (done o) h = h
  page_end-Leaves vars crashed h = tt
  page_end-Leaves vars no_fuel h = tt

  render_page-Leaves :
      (render : Renderer nvl env) (input : Bytes) (vars : Sc)
      → LeavesAll nvl env render
      → Leaves nvl env vars (render_page nvl env render input vars)
  unfolding render_page
  render_page-Leaves render input vars h = go (env.parse input)
    where
      go :
          (p : Option (List Item))
          → Leaves nvl env vars (
              of_option p >>= λ l.
              items nvl env render l
                (record { out = []; stack = no_conditions nvl env; vars = vars })
              >>= λ o. done (o.out, o.vars))
      go none = tt
      go (some l) = page_end-Leaves vars _ (items-LeavesVars render l _ h)

  -- Whatever a template includes, repeats or tests, when it has been rendered the variables and their
  -- scopes are what they were before.
  pub render_template-Leaves :
      (fuel : ℕ) (tmpl : String) (vars : Sc)
      → Leaves nvl env vars (render_template nvl env fuel tmpl vars)
  unfolding render_template
  render_template-Leaves zero tmpl vars = tt
  render_template-Leaves (suc fuel) tmpl vars =
      go (render_template-Leaves fuel) (env.file_cache_get (tmpl_path nvl env tmpl))
    where
      go :
          LeavesAll nvl env (render_template nvl env fuel)
          → (o : Option Bytes)
          → Leaves nvl env vars
              (render_raw nvl env (render_page nvl env (render_template nvl env fuel)) vars o)
      go h none = refl
      go h (some raw) = render_page-Leaves (render_template nvl env fuel) raw vars h
