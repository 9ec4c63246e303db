-- ===== src/Pipeline/Tests.antt =====
-- Examples for the pipelines.
use blahgd.Prelude.{ℕ, String, [], ◌∷◌, some, true, Bytes, ◌≡◌, codes, arith}
use blahgd.Extern.Alist.{str}
use blahgd.Pipeline.Stages.{nop_fxn, escape_fxn, pipeline_append, pipeline}
use blahgd.Pipeline.Escaped.{PrintsInert, pipeline-PrintsInert}
use blahgd.Pipeline.UrlEscape.{plain, url_read, urlescape_str, url_read-urlescape_str}

url_read-urlescape_str_example : url_read plain (urlescape_str (codes "a b/c")).text ≡ codes "a b/c"
url_read-urlescape_str_example = url_read-urlescape_str (codes "a b/c") (omega arith)

abbrev no_calendar : String → ℕ → Bytes
no_calendar fmt ts = []

pipeline-PrintsInert_example : PrintsInert (
    pipeline true no_calendar
      (some (str (codes "a<b")))
      (pipeline_append (nop_fxn ∷ []) escape_fxn))
pipeline-PrintsInert_example =
    pipeline-PrintsInert true no_calendar (nop_fxn ∷ []) (some (str (codes "a<b")))
