-- ===== src/Template/Tests.antt =====
-- Examples for the templates: a page that repeats a template for two values.
use blahgd.Prelude.{
  sym, ap, ◌∙◌, Bool, false, String, List, Option, Bytes, All, subst, arith, ℕ, ◌≡◌, refl, true, [],
  ◌∷◌, none, some, ◌==◌, if◌then◌else◌, codes, bytes_eq,
}
use blahgd.Extern.Nvl.{NvlApi, name_functions}
use blahgd.Vars.{Vars, vars_scope_push, vars_scope_pop, vars_set, vars_lookup}
use blahgd.Cond.{Stack, cond_value}
use blahgd.Cond.Laws.{SameConds}
use blahgd.Template.Blocks.{ifset_block, items-ifset_block}
use blahgd.Template.Flat.{plains}
use blahgd.Template.{
  word, foreach_cmd, variable_cmd, str_elem, str_kind, array_kind, done, Env, foreach, variable,
  render_template, items, Output, printed, no_conditions, looked_up, is_set,
}
use blahgd.Template.{Item, tmpl_path}
use blahgd.Template.Ends.{Ends, IsBelow, IsRanked, render_template-Ends}
use blahgd.Template.Foreach.{Leaves}
use blahgd.Template.Scopes.{render_template-Leaves}

some_inj : {A : Type 0} {x y : A} → some x ≡ some y → x ≡ y
some_inj h = cc

abbrev api : NvlApi ℕ
api = name_functions ℕ

abbrev env : Env ℕ api.Nvl
env = record {
  max_scopes = 10;
  depth = 32;
  kind = λ v.
      if v == 0
      then array_kind (str_elem (codes "a") ∷ str_elem (codes "b") ∷ [])
      else str_kind (codes "-");
  of_str = λ s. 1;
  str2u64 = λ s. none;
  parse = λ s.
      if bytes_eq s (codes "t/html/page.tmpl")
      then some (word (codes "<") ∷ foreach_cmd "list" "one" ∷ word (codes ">") ∷ [])
      else some (variable_cmd "list" ∷ []);
  file_cache_get = λ path. some path;
  template_dir = codes "t";
  fmt = codes "html";
  memory = true;
  strftime = λ fmt ts. [];
}

abbrev vars : Vars api.Nvl
vars = record { current = (λ name. some 0); outer = [] }

page_test : render_template api env 2 "page" vars ≡ done (codes "<-->", vars)
unfolding render_template foreach variable vars_scope_push vars_scope_pop vars_set vars_lookup
    bytes_eq cond_value
page_test = refl

render_template-Leaves_example : Leaves api env vars (render_template api env 2 "page" vars)
render_template-Leaves_example = render_template-Leaves api env 2 "page" vars

abbrev empty_page : Output api env
empty_page = record { out = []; stack = no_conditions api env; vars = vars }

items-ifset_block_example :
    (s : Stack) × SameConds s (no_conditions api env)
    × (items api env
          (render_template api env 2)
          (ifset_block api env
            (render_template api env 2)
            "list"
            (variable_cmd "list" ∷ [])
            (word (codes "none") ∷ []))
          empty_page
        ≡ printed api env [] s (
            plains api env
              (render_template api env 2)
              (if is_set api env (looked_up api env "list" vars)
                then variable_cmd "list" ∷ []
                else word (codes "none") ∷ [])
              vars))
unfolding cond_value
items-ifset_block_example =
    items-ifset_block api env (render_template api env 2) (variable_cmd "list" ∷ [])
      (word (codes "none") ∷ []) (tt, tt) (tt, tt) empty_page refl "list" (omega arith)

-- Two templates, of which one includes the other.
abbrev cache : Bytes → Option Bytes
cache path =
    if bytes_eq path (codes "t/html/page.tmpl")
    then some (codes "p")
    else if bytes_eq path (codes "t/html/one.tmpl")
    then some (codes "o")
    else none

abbrev parsed : Bytes → Option (List Item)
parsed s =
    if bytes_eq s (codes "p")
    then some (foreach_cmd "list" "one" ∷ [])
    else some (variable_cmd "list" ∷ [])

abbrev two_templates : Env ℕ api.Nvl
two_templates = record env { file_cache_get = cache; parse = parsed }

abbrev rank_of : Bool → Bool → ℕ
rank_of true b = 2
rank_of false true = 1
rank_of false false = 0

abbrev rank : String → ℕ
rank tmpl =
    rank_of (bytes_eq (tmpl_path api two_templates tmpl) (codes "t/html/page.tmpl"))
      (bytes_eq (tmpl_path api two_templates tmpl) (codes "t/html/one.tmpl"))

ranked : IsRanked api two_templates rank
unfolding bytes_eq
ranked tmpl raw l h k =
    go (bytes_eq (tmpl_path api two_templates tmpl) (codes "t/html/page.tmpl"))
      (bytes_eq (tmpl_path api two_templates tmpl) (codes "t/html/one.tmpl")) h
  where
    below :
        (n : ℕ) (m : List Item)
        → All (IsBelow rank n) m
        → parsed raw ≡ some m
        → All (IsBelow rank n) l
    below n m a e = let same : m ≡ l = some_inj (sym e ∙ k) in subst (All (IsBelow rank n)) same a

    go :
        (a b : Bool)
        → (if a then some (codes "p") else if b then some (codes "o") else none) ≡ some raw
        → All (IsBelow rank (rank_of a b)) l
    go true b e =
        let same : codes "p" ≡ raw = some_inj e in
        below 2 (foreach_cmd "list" "one" ∷ []) (omega arith, tt) (ap parsed (sym same))
    go false true e =
        let same : codes "o" ≡ raw = some_inj e in
        below 1 (variable_cmd "list" ∷ []) (omega arith, tt) (ap parsed (sym same))
    go false false e = cc

render_template-Ends_example : Ends (render_template api two_templates 3 "page" vars)
unfolding bytes_eq
render_template-Ends_example =
    render_template-Ends api two_templates rank 3 "page" vars ranked (omega arith)
