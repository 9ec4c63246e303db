-- ===== src/Template/Ends.antt =====
-- Templates that do not include themselves, directly or not, are rendered to the end.
use blahgd.Prelude.{
  ℕ, zero, suc, ◌<◌, ◌≡◌, refl, Bool, true, false, String, List, [], ◌∷◌, Option, none, some, arith,
  All, Bytes, if◌then◌else◌, str_eq, ltb, ◌==◌,
}
use blahgd.Extern.Nvl.{NvlApi}
use blahgd.Vars.{vars_scope_push}
use blahgd.Cond
use blahgd.Cond.{Stack, cond_value, cond_if, cond_else, cond_endif}
use blahgd.Template.{
  Item, word, pipeline_cmd, foreach_cmd, function_cmd, variable_cmd, Elem, nvl_elem, str_elem,
  other_elem, Kind, str_kind, int_kind, array_kind, other_kind, Res, done, crashed, no_fuel, ◌>>=◌,
  of_option, of_cond, Env, S, Renderer, set_item, foreach_item, foreach_loop, foreach_kind,
  looked_up, foreach, print_var, variable, out_of, pipeline, int_arg, function_get_arg, compared,
  function_ifset, function, Output, printed, item, items, no_conditions, render_page, tmpl_path,
  render_raw, render_template,
}

-- The call comes to an end.
abbrev pub Ends : {A : Type 0} → Res A → Type 0
Ends (done a) = Unit
Ends crashed = Unit
Ends no_fuel = ⊥

bind-Ends :
    {A B : Type 0} (r : Res A) (k : A → Res B) → Ends r → ((a : A) → Ends (k a)) → Ends (r >>= k)
bind-Ends (done a) k h g = g a
bind-Ends crashed k h g = tt
bind-Ends no_fuel k h g = absurd h

if-Ends : {A : Type 0} (c : Bool) (r s : Res A) → Ends r → Ends s → Ends (if c then r else s)
if-Ends true r s h g = h
if-Ends false r s h g = g

of_option-Ends : {A : Type 0} (o : Option A) → Ends (of_option o)
of_option-Ends none = tt
of_option-Ends (some a) = tt

of_cond-Ends : (o : Cond.Outcome) → Ends (of_cond o)
of_cond-Ends Cond.panic = tt
of_cond-Ends Cond.overrun = tt
of_cond-Ends (Cond.done s) = tt

-- The templates that an item may include have a smaller rank.
abbrev pub IsBelow : (String → ℕ) → ℕ → Item → Type 0
IsBelow rank k (word s) = Unit
IsBelow rank k (pipeline_cmd name line) = Unit
IsBelow rank k (foreach_cmd name tmpl) = rank tmpl < k
IsBelow rank k (function_cmd fxn sa1 sa2) = Unit
IsBelow rank k (variable_cmd name) = rank name < k

module _ {V : Type 0} (nvl : NvlApi V) (env : Env V nvl.Nvl) (rank : String → ℕ) where
  abbrev Sc : Type 0
  Sc = S nvl env

  -- Every template only includes templates with a smaller rank.
  abbrev pub IsRanked : Type 0
  IsRanked =
      (tmpl : String) (raw : Bytes) (l : List Item)
      → env.file_cache_get (tmpl_path nvl env tmpl) ≡ some raw
      → env.parse raw ≡ some l
      → All (IsBelow rank (rank tmpl)) l

  module _ (render : Renderer nvl env) (k : ℕ)
      (ends : (tmpl : String) (vars : Sc) → rank tmpl < k → Ends (render tmpl vars)) where
    set_item-Ends :
        (name : String) (vars : Sc) (e : Elem nvl.Nvl) → Ends (set_item nvl env name vars e)
    set_item-Ends name vars (nvl_elem l) = tt
    set_item-Ends name vars (str_elem s) = tt
    set_item-Ends name vars other_elem = tt

    foreach_item-Ends :
        (name tmpl : String) (e : Elem nvl.Nvl) (vars : Sc)
        → rank tmpl < k
        → Ends (foreach_item nvl env render name tmpl e vars)
    unfolding foreach_item
    foreach_item-Ends name tmpl e vars h =
        bind-Ends _ _
          (bind-Ends _ _
            (bind-Ends _ _ (of_option-Ends (vars_scope_push nvl env.max_scopes vars))
              (λ v. set_item-Ends name v e))
            (λ v. ends tmpl v h))
          (λ r. tt)

    foreach_loop-Ends :
        (name tmpl : String) (l : List (Elem nvl.Nvl)) (vars : Sc)
        → rank tmpl < k
        → Ends (foreach_loop nvl env render name tmpl l vars)
    unfolding foreach_loop
    foreach_loop-Ends name tmpl [] vars h = tt
    foreach_loop-Ends name tmpl (e ∷ l) vars h =
        bind-Ends _ _ (foreach_item-Ends name tmpl e vars h)
          (λ r. bind-Ends _ _ (foreach_loop-Ends name tmpl l r.1 h) (λ rest. tt))

    foreach_kind-Ends :
        (name tmpl : String) (vars : Sc) (o : Option (Kind nvl.Nvl))
        → rank tmpl < k
        → Ends (foreach_kind nvl env render name tmpl vars o)
    foreach_kind-Ends name tmpl vars none h = tt
    foreach_kind-Ends name tmpl vars (some (array_kind l)) h = foreach_loop-Ends name tmpl l vars h
    foreach_kind-Ends name tmpl vars (some (str_kind s)) h = tt
    foreach_kind-Ends name tmpl vars (some (int_kind n)) h = tt
    foreach_kind-Ends name tmpl vars (some other_kind) h = tt

    print_var-Ends :
        (name : String) (vars : Sc) (o : Option (Kind nvl.Nvl))
        → rank name < k
        → Ends (print_var nvl env render name vars o)
    print_var-Ends name vars none h = ends name vars h
    print_var-Ends name vars (some (array_kind l)) h = tt
    print_var-Ends name vars (some (str_kind s)) h = tt
    print_var-Ends name vars (some (int_kind n)) h = tt
    print_var-Ends name vars (some other_kind) h = tt

    int_arg-Ends : (o : Option (Kind nvl.Nvl)) → Ends (int_arg nvl env o)
    int_arg-Ends none = tt
    int_arg-Ends (some (array_kind l)) = tt
    int_arg-Ends (some (str_kind s)) = tt
    int_arg-Ends (some (int_kind n)) = tt
    int_arg-Ends (some other_kind) = tt

    function_get_arg-Ends : (vars : Sc) (a : Option String) → Ends (function_get_arg nvl env vars a)
    unfolding function_get_arg
    function_get_arg-Ends vars none = tt
    function_get_arg-Ends vars (some arg) = go (env.str2u64 arg)
      where
        go :
            (o : Option ℕ)
            → Ends (elim o [
              | some val ↦ done val
              | none ↦ int_arg nvl env (looked_up nvl env arg vars)
            ])
        go none = int_arg-Ends (looked_up nvl env arg vars)
        go (some val) = tt

    compared-Ends :
        (f : ℕ → ℕ → Bool) (a b : Option String) (stack : Stack) (vars : Sc)
        → Ends (compared nvl env f a b stack vars)
    unfolding compared
    compared-Ends f a b stack vars = bind-Ends _ _ (function_get_arg-Ends vars a) (λ x.
        bind-Ends _ _ (function_get_arg-Ends vars b)
          (λ y. of_cond-Ends (cond_if env.depth stack (f x y))))

    function_ifset-Ends :
        (a : Option String) (stack : Stack) (vars : Sc) → Ends (function_ifset nvl env a stack vars)
    unfolding function_ifset
    function_ifset-Ends none stack vars = tt
    function_ifset-Ends (some arg) stack vars = of_cond-Ends _

    function-Ends :
        (fxn : String) (a b : Option String) (stack : Stack) (vars : Sc)
        → Ends (function nvl env fxn a b stack vars)
    unfolding function
    function-Ends fxn a b stack vars =
        if-Ends (str_eq fxn "ifgt") _ _ (compared-Ends (λ x y. ltb y x) a b stack vars) (
          if-Ends (str_eq fxn "iflt") _ _ (compared-Ends ltb a b stack vars) (
            if-Ends (str_eq fxn "ifeq") _ _ (compared-Ends ◌==◌ a b stack vars) (
              if-Ends (str_eq fxn "ifset") _ _ (function_ifset-Ends a stack vars) (
                if-Ends (str_eq fxn "endif") _ _ (of_cond-Ends (cond_endif stack))
                  (if-Ends (str_eq fxn "else") _ crashed (of_cond-Ends (cond_else stack)) tt)))))

    out_of-Ends : (vars : Sc) (o : Option Bytes) → Ends (out_of nvl env vars o)
    out_of-Ends vars none = tt
    out_of-Ends vars (some out) = tt

    printed-Ends :
        (out : Bytes) (stack : Stack) (r : Res (Bytes × Sc))
        → Ends r
        → Ends (printed nvl env out stack r)
    printed-Ends out stack r h = bind-Ends r _ h (λ p. tt)

    item-Ends : (i : Item) (o : Output nvl env) → IsBelow rank k i → Ends (item nvl env render i o)
    unfolding item foreach variable pipeline
    item-Ends (word s) o h = tt
    item-Ends (pipeline_cmd name line) o h =
        printed-Ends o.out o.stack _
          (if-Ends (cond_value o.stack) _ (done ([], o.vars)) (out_of-Ends o.vars _) tt)
    item-Ends (foreach_cmd name tmpl) o h = printed-Ends o.out o.stack _ (
        if-Ends (cond_value o.stack) _ (done ([], o.vars))
          (foreach_kind-Ends name tmpl o.vars (looked_up nvl env name o.vars) h) tt)
    item-Ends (function_cmd fxn a b) o h =
        bind-Ends _ _ (function-Ends fxn a b o.stack o.vars) (λ s. tt)
    item-Ends (variable_cmd name) o h = printed-Ends o.out o.stack _ (
        if-Ends (cond_value o.stack) _ (done ([], o.vars))
          (print_var-Ends name o.vars (looked_up nvl env name o.vars) h) tt)

    items-Ends :
        (l : List Item) (o : Output nvl env)
        → All (IsBelow rank k) l
        → Ends (items nvl env render l o)
    unfolding items
    items-Ends [] o h = tt
    items-Ends (i ∷ l) o h = bind-Ends _ _ (item-Ends i o h.0) (λ o1. items-Ends l o1 h.1)

  -- If templates can be ranked so that each one only includes templates with a smaller rank, then
  -- rendering a template with more fuel than its rank comes to an end.
  pub render_template-Ends :
      (fuel : ℕ) (tmpl : String) (vars : Sc)
      → IsRanked
      → rank tmpl < fuel
      → Ends (render_template nvl env fuel tmpl vars)
  unfolding render_template render_page
  render_template-Ends zero tmpl vars ranked h = absurd (omega (arith, h))
  render_template-Ends (suc fuel) tmpl vars ranked h =
      go (λ t v k. render_template-Ends fuel t v ranked (omega (arith, h, k)))
        (env.file_cache_get (tmpl_path nvl env tmpl)) refl
    where
      page :
          ((t : String) (v : Sc) → rank t < rank tmpl → Ends (render_template nvl env fuel t v))
          → (p : Option (List Item))
          → ((l : List Item) → p ≡ some l → All (IsBelow rank (rank tmpl)) l)
          → Ends {A = Bytes × Sc} (
              of_option p >>= λ l.
              items nvl env
                (render_template nvl env fuel)
                l
                (record { out = []; stack = no_conditions nvl env; vars = vars })
              >>= λ o. done (o.out, o.vars))
      page ih none below = tt
      page ih (some l) below =
          bind-Ends _ _
            (items-Ends (render_template nvl env fuel) (rank tmpl) ih l _ (below l refl)) (λ o. tt)

      go :
          ((t : String) (v : Sc) → rank t < rank tmpl → Ends (render_template nvl env fuel t v))
          → (o : Option Bytes) → env.file_cache_get (tmpl_path nvl env tmpl) ≡ o
          → Ends (render_raw nvl env (render_page nvl env (render_template nvl env fuel)) vars o)
      go ih none e = tt
      go ih (some raw) e = page ih (env.parse raw) (λ l q. ranked tmpl raw l e q)
