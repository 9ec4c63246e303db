-- ===== src/Pipeline/Escaped.antt =====
-- What comes out of a pipeline that ends with the HTML escape.
use blahgd.Prelude.{
  ℕ, ◌≡◌, refl, Bool, String, List, [], ◌∷◌, ◌++◌, Option, none, some, All, Bytes, Bool-cases, inl,
  inr, Option-cases,
}
use blahgd.Extern.Alist.{Val, int, str, bool, null, blob, sym as symbol, cons, char, array, nvl}
use blahgd.Mangle.{Buffer, mangle_htmlescape}
use blahgd.Mangle.Laws.{IsInert, mangle_htmlescape-IsInert}
use blahgd.Pipeline.Stages.{
  Stage, escape_fxn, urlescape_fxn, val_of, text_of, pipeline_append, print_val, is_printable,
  apply, run, printed, pipeline,
}

-- No character of what is printed has a meaning in HTML but for entities.
abbrev pub PrintsInert : Option Bytes → Type 0
PrintsInert none = Unit
PrintsInert (some out) = All IsInert out

module _ (memory : Bool) (strftime : String → ℕ → Bytes) where
  abbrev run_then : Option Val → List Stage → Option Val
  run_then none line = none
  run_then (some val) line = run memory strftime line val

  run-append :
      (line rest : List Stage) (val : Val)
      → run memory strftime (line ++ rest) val ≡ run_then (run memory strftime line val) rest
  unfolding run
  run-append [] rest val = refl
  run-append (t ∷ line) rest val = elim (Option-cases (apply memory strftime t val)) [
    | inl e ↦ rw (e, run) refl
    | inr (v, e) ↦ rw (e, run) (run-append line rest v)
  ]

  abbrev escape_last : List Stage
  escape_last = escape_fxn ∷ []

  escape-PrintsInert :
      (val : Val) → PrintsInert (printed memory strftime (run memory strftime escape_last val))
  unfolding run print_val
  escape-PrintsInert (str s) = escaped (mangle_htmlescape memory s) refl
    where
      escaped :
          (o : Option Buffer)
          → mangle_htmlescape memory s ≡ o
          → PrintsInert (
              printed memory strftime
                (elim (val_of (text_of o)) [ none ↦ none | some val' ↦ some val' ]))
      escaped none e = tt
      escaped (some b) e = mangle_htmlescape-IsInert memory s b e
  escape-PrintsInert null = tt
  escape-PrintsInert (int n) = tt
  escape-PrintsInert (bool b) = tt
  escape-PrintsInert blob = tt
  escape-PrintsInert symbol = tt
  escape-PrintsInert cons = tt
  escape-PrintsInert char = tt
  escape-PrintsInert array = tt
  escape-PrintsInert nvl = tt

  last_stage : (o : Option Val) → PrintsInert (printed memory strftime (run_then o escape_last))
  last_stage none = tt
  last_stage (some val) = escape-PrintsInert val

  -- Whatever a template puts through a pipeline whose last stage is `escape`, what is printed holds
  -- no `<`, no `>` and no double quote.
  pub pipeline-PrintsInert :
      (line : List Stage) (var : Option Val)
      → PrintsInert (pipeline memory strftime var (pipeline_append line escape_fxn))
  unfolding pipeline pipeline_append
  pipeline-PrintsInert line none = tt
  pipeline-PrintsInert line (some val) = elim (Bool-cases (is_printable val)) [
    | inl e ↦ rw (e, run-append line escape_last val) (last_stage (run memory strftime line val))
    | inr e ↦ rw e tt
  ]

  -- A number that a template puts through `escape` or `urlescape` stops the program, since
  -- str_of_int returns NULL, wherever the stage stands among stages that leave numbers alone.
  pub pipeline_int_panics :
      (before after : List Stage) (n : ℕ)
      → run memory strftime before (int n) ≡ some (int n)
      → (pipeline memory strftime (some (int n)) (before ++ escape_fxn ∷ after) ≡ none)
        × (pipeline memory strftime (some (int n)) (before ++ urlescape_fxn ∷ after) ≡ none)
  unfolding pipeline
  pipeline_int_panics before after n h = (
    rw (run-append before (escape_fxn ∷ after) (int n), h) refl,
    rw (run-append before (urlescape_fxn ∷ after) (int n), h) refl,
  )
