-- ===== src/Pages/Answers.antt =====
-- What the handlers answer.
use blahgd.Prelude.{
  ℕ, suc, ◌≡◌, refl, true, List, ◌∷◌, ◌++◌, Option, none, some, ltb, length, Bytes, codes,
}
use blahgd.Extern.Nvl.{NvlApi}
use blahgd.Extern.Query.{QueryApi, Found, found, noent, error}
use blahgd.Vars.{Vars, vars_scope_push, vars_lookup}
use blahgd.Vars.Laws.{vars_lookup-vars_set}
use blahgd.Sidebar.{TagVars}
use blahgd.Pages.{
  PageVal, str_val, status_notfound, status_redirect, rendered, R, pushed, r404, r301,
  blahg_category,
}

module _ (nvl : NvlApi PageVal) (max_scopes : ℕ) where
  -- There is room for one more scope.
  abbrev pub HasScope : R nvl max_scopes → Type 0
  HasScope r = ltb (suc (length r.vars.outer)) max_scopes ≡ true

  abbrev pub inner : Vars nvl.Nvl → Vars nvl.Nvl
  inner vars = record { current = nvl.empty; outer = vars.current ∷ vars.outer }

  pub pushed_lem :
      (r : R nvl max_scopes)
      → HasScope r
      → pushed nvl max_scopes r ≡ some (record r { vars = inner r.vars })
  unfolding vars_scope_push
  pushed_lem r h = rw h refl

  module _ (base_url : Bytes) where
    -- A 404 page, or a redirection to a tag's page.
    abbrev pub SentTo : Option Bytes → Option (R nvl max_scopes) → Type 0
    SentTo tag none = ⊥
    SentTo none (some r) = (r.status ≡ status_notfound) × (r.body ≡ rendered (codes "{404}") r.vars)
    SentTo (some tag) (some r) =
        (r.status ≡ status_redirect)
        × (vars_lookup nvl r.vars "redirect" ≡ some (str_val (base_url ++ (codes "/?tag=" ++ tag))))
        × (r.body ≡ rendered (codes "{301}") r.vars)

    r404_lem :
        (cloud : List TagVars) (r : R nvl max_scopes)
        → HasScope r
        → SentTo none (r404 nvl max_scopes cloud none r)
    unfolding r404 vars_scope_push
    r404_lem cloud r h = rw h (refl, refl)

    r301_lem :
        (tag : Bytes) (r : R nvl max_scopes)
        → HasScope r
        → SentTo (some tag) (r301 nvl max_scopes (base_url ++ (codes "/?tag=" ++ tag)) r)
    unfolding r301 vars_scope_push
    r301_lem tag r h =
        rw h (refl, vars_lookup-vars_set nvl (inner r.vars) "redirect" "redirect" _, refl)

    abbrev pub tag_for : (Bytes → Option Bytes) → Found Bytes → Option Bytes
    tag_for category_to_tag (found cat) = category_to_tag cat
    tag_for category_to_tag noent = none
    tag_for category_to_tag error = none

    -- With room for one more scope, blahg_category sends a redirection to the page of the tag that
    -- the configuration has for the category, and a 404 page where the query names no category or
    -- there is no tag for it.
    pub blahg_category-SentTo :
        (api : QueryApi) (category_to_tag : Bytes → Option Bytes) (cloud : List TagVars)
        (query : api.Query) (r : R nvl max_scopes)
        → HasScope r
        → SentTo
            (tag_for category_to_tag (api.lookup_str query "cat"))
            (blahg_category nvl max_scopes api base_url category_to_tag cloud query r)
    unfolding blahg_category
    blahg_category-SentTo api category_to_tag cloud query r h = go (api.lookup_str query "cat")
      where
        mapped :
            (o : Option Bytes)
            → SentTo o (elim o [
              | none ↦ r404 nvl max_scopes cloud none r
              | some tag ↦ r301 nvl max_scopes (base_url ++ (codes "/?tag=" ++ tag)) r
            ])
        mapped none = r404_lem cloud r h
        mapped (some tag) = r301_lem tag r h

        go :
            (f : Found Bytes)
            → SentTo (tag_for category_to_tag f) (elim f [
              | found cat ↦ elim (category_to_tag cat) [
                | none ↦ r404 nvl max_scopes cloud none r
                | some tag ↦ r301 nvl max_scopes (base_url ++ (codes "/?tag=" ++ tag)) r
              ]
              | noent ↦ r404 nvl max_scopes cloud none r
              | error ↦ r404 nvl max_scopes cloud none r
            ])
        go (found cat) = mapped (category_to_tag cat)
        go noent = r404_lem cloud r h
        go error = r404_lem cloud r h
