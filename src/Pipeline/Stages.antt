-- ===== src/Pipeline/Stages.antt =====
-- pipeline.c: the stages, and template.y, pipeline: a variable goes through them in order. The
-- calendar (gmtime_r and strftime) is the C library's; `memory` says whether malloc succeeds. `none`
-- is a failed assertion or a panic.
use blahgd.Prelude.{
  ℕ, Bool, true, String, List, [], ◌∷◌, ◌++◌, Option, none, some, if◌then◌else◌, Bytes, codes,
  bytes_eq, decimal,
}
use blahgd.Extern.Alist.{Val, int, str, null}
use blahgd.Mangle.{Buffer, mangle_htmlescape}
use blahgd.Pipeline.UrlEscape.{urlescape_str}

-- struct pipestageinfo, by the function that it points to.
pub data Stage : Type 0 where
  nop_fxn urlescape_fxn escape_fxn time_fxn date_fxn zulu_fxn rfc822_fxn : Stage

abbrev pub str_of_int : ℕ → Option Bytes
str_of_int v = none

abbrev pub val_of : Option Bytes → Option Val
val_of none = none
val_of (some out) = some (str out)

-- __escape
unfoldable pub escape : (Bytes → Option Bytes) → Val → Option Val
escape cvt (int n) = val_of (str_of_int n)
escape cvt (str s) = val_of (cvt s)
escape cvt null = some (str [])
escape cvt val = none

-- The two conversions, by the strings that they return.
abbrev pub urlescaped : Bytes → Option Bytes
urlescaped s = some (urlescape_str s).text

abbrev pub text_of : Option Buffer → Option Bytes
text_of none = none
text_of (some b) = some b.text

abbrev pub htmlescaped : Bool → Bytes → Option Bytes
htmlescaped memory s = text_of (mangle_htmlescape memory s)

-- The table up to its terminator.
abbrev pub stages : List (Bytes × Stage)
stages =
    (codes "urlescape", urlescape_fxn)
    ∷ (codes "escape", escape_fxn)
    ∷ (codes "time", time_fxn)
    ∷ (codes "date", date_fxn)
    ∷ (codes "zulu", zulu_fxn)
    ∷ (codes "rfc822", rfc822_fxn)
    ∷ []

abbrev pub find_stage : Bytes → List (Bytes × Stage) → Stage
find_stage name [] = nop_fxn
find_stage name ((n, f) ∷ l) = if bytes_eq name n then f else find_stage name l

unfoldable pub pipestage_alloc : Bytes → Stage
pipestage_alloc name = find_stage name stages

unfoldable pub pipestage_to_pipeline : Stage → List Stage
pipestage_to_pipeline stage = stage ∷ []

unfoldable pub pipeline_append : List Stage → Stage → List Stage
pipeline_append line stage = line ++ stage ∷ []

-- print_val, of template.y
unfoldable pub print_val : Val → Option Bytes
print_val (str s) = some s
print_val (int n) = some (decimal n)
print_val val = none

-- The variables that a pipeline takes.
abbrev pub is_printable : Val → Bool
is_printable (str s) = true
is_printable (int n) = true
is_printable _ = Bool.false

module _ (memory : Bool) (strftime : String → ℕ → Bytes) where
  -- __datetime
  unfoldable pub datetime : String → Val → Option Val
  datetime fmt (int ts) = some (str (strftime fmt ts))
  datetime fmt val = none

  unfoldable pub apply : Stage → Val → Option Val
  unfolding escape datetime
  apply nop_fxn val = some val
  apply urlescape_fxn val = escape urlescaped val
  apply escape_fxn val = escape (htmlescaped memory) val
  apply time_fxn val = datetime "%H:%M" val
  apply date_fxn val = datetime "%B %e, %Y" val
  apply zulu_fxn val = datetime "%Y-%m-%dT%H:%M:%SZ" val
  apply rfc822_fxn val = datetime "%a, %d %b %Y %H:%M:%S +0000" val

  -- The loop over the stages.
  unfoldable pub run : List Stage → Val → Option Val
  unfolding apply
  run [] val = some val
  run (s ∷ line) val = elim (apply s val) [ none ↦ none | some val' ↦ run line val' ]

  abbrev pub printed : Option Val → Option Bytes
  printed none = none
  printed (some val) = print_val val

  -- pipeline, where the conditions hold; a variable that is not set prints nothing.
  unfoldable pub pipeline : Option Val → List Stage → Option Bytes
  unfolding run print_val
  pipeline none line = some []
  pipeline (some val) line = if is_printable val then printed (run line val) else none
