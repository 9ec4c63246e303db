-- ===== src/Commands/Process.antt =====
-- The environments, and process_cmd.
use blahgd.Prelude.{[], ◌∷◌, Option, none, some, ◌==◌, if◌then◌else◌, Bytes, codes, bytes_eq, ◌&&◌}
use blahgd.Commands.Text.{
  lit, cstr, process_listing, process_link, process_photolink, process_img, process_photo,
  process_emph, process_texttt, process_textbf, process_textit, process_item, process_abbrev,
  process_section, process_subsection, process_subsubsection, process_wiki, process_bug,
  process_post, process_taglink, process_degree, process_trow, process_leftarrow,
  process_rightarrow, process_leftrightarrow, process_tm, process_nop,
}
use blahgd.Commands.{StrApi, Urls, Parser, incr, decr, Fxn, find_cmd, check_arg}

-- The environments of begin and end.
pub data Environ : Type 0 where
  texttt enumerate itemize description quote tabular : Environ
  invalid : Environ

unfoldable pub environ_of : Bytes → Environ
environ_of txt =
    if bytes_eq txt (codes "texttt")
    then texttt
    else if bytes_eq txt (codes "enumerate")
    then enumerate
    else if bytes_eq txt (codes "itemize")
    then itemize
    else if bytes_eq txt (codes "description")
    then description
    else if bytes_eq txt (codes "quote")
    then quote
    else if bytes_eq txt (codes "tabular")
    then tabular
    else invalid

-- How process_cmd ends: an assertion on the arguments fails, or it returns a string.
pub data Done : Type 0 where
  panic : Done
  output : Parser → Bytes → Done

abbrev pub output_of : Parser × Bytes → Done
output_of (data', s) = output data' s

module _ (api : StrApi) (urls : Urls) where
  open api use {str_cat}

  abbrev pub inval_environ : Bytes → Bytes
  inval_environ txt = str_cat (lit (codes "[INVAL ENVIRON '") ∷ some txt ∷ lit (codes "']") ∷ [])

  abbrev pub begin_of : Parser → Bytes → Environ → Parser × Bytes
  begin_of data' txt texttt =
      (record data' { texttt_nesting = incr data'.texttt_nesting }, codes "</p><pre>")
  begin_of data' txt enumerate = (data', codes "</p><ol>")
  begin_of data' txt itemize = (data', codes "</p><ul>")
  begin_of data' txt description = (data', codes "</p><dl>")
  begin_of data' txt quote = (data', codes "</p><blockquote><p>")
  begin_of data' txt tabular = (
    record data' { table_nesting = incr data'.table_nesting },
    if data'.table_nesting == 0 then codes "</p><table>" else codes "<table>",
  )
  begin_of data' txt invalid = (data', inval_environ txt)

  abbrev pub end_of : Parser → Bytes → Environ → Parser × Bytes
  end_of data' txt texttt =
      (record data' { texttt_nesting = decr data'.texttt_nesting }, codes "</pre><p>")
  end_of data' txt enumerate = (data', codes "</ol><p>")
  end_of data' txt itemize = (data', codes "</ul><p>")
  end_of data' txt description = (data', codes "</dl><p>")
  end_of data' txt quote = (data', codes "</p></blockquote><p>")
  end_of data' txt tabular = (
    record data' { table_nesting = decr data'.table_nesting },
    if decr data'.table_nesting == 0 then codes "</table><p>" else codes "</table>",
  )
  end_of data' txt invalid = (data', inval_environ txt)

  unfoldable pub process_begin : Parser → Bytes → Parser × Bytes
  unfolding environ_of
  process_begin data' txt = begin_of data' txt (environ_of txt)

  unfoldable pub process_end : Parser → Bytes → Parser × Bytes
  unfolding environ_of
  process_end data' txt = end_of data' txt (environ_of txt)

  unfoldable pub run : Parser → Fxn → Option Bytes → Option Bytes → Parser × Bytes
  unfolding process_begin process_end process_listing process_post process_taglink
  run data' Fxn.process_begin txt opt = process_begin data' (cstr txt)
  run data' Fxn.process_end txt opt = process_end data' (cstr txt)
  run data' Fxn.process_listing txt opt = process_listing api urls data' txt opt
  run data' Fxn.process_link txt opt = (data', process_link api urls txt opt)
  run data' Fxn.process_photolink txt opt = (data', process_photolink api urls txt opt)
  run data' Fxn.process_img txt opt = (data', process_img api urls txt opt)
  run data' Fxn.process_photo txt opt = (data', process_photo api urls txt opt)
  run data' Fxn.process_emph txt opt = (data', process_emph api urls txt opt)
  run data' Fxn.process_texttt txt opt = (data', process_texttt api urls txt opt)
  run data' Fxn.process_textbf txt opt = (data', process_textbf api urls txt opt)
  run data' Fxn.process_textit txt opt = (data', process_textit api urls txt opt)
  run data' Fxn.process_item txt opt = (data', process_item api urls txt opt)
  run data' Fxn.process_abbrev txt opt = (data', process_abbrev api urls txt opt)
  run data' Fxn.process_section txt opt = (data', process_section api urls txt opt)
  run data' Fxn.process_subsection txt opt = (data', process_subsection api urls txt opt)
  run data' Fxn.process_subsubsection txt opt = (data', process_subsubsection api urls txt opt)
  run data' Fxn.process_wiki txt opt = (data', process_wiki api urls txt opt)
  run data' Fxn.process_bug txt opt = (data', process_bug api urls txt opt)
  run data' Fxn.process_post txt opt = (data', process_post api urls txt opt)
  run data' Fxn.process_taglink txt opt = (data', process_taglink api urls txt opt)
  run data' Fxn.process_degree txt opt = (data', process_degree api urls txt opt)
  run data' Fxn.process_trow txt opt = (data', process_trow api urls txt opt)
  run data' Fxn.process_leftarrow txt opt = (data', process_leftarrow api urls txt opt)
  run data' Fxn.process_rightarrow txt opt = (data', process_rightarrow api urls txt opt)
  run data' Fxn.process_leftrightarrow txt opt = (data', process_leftrightarrow api urls txt opt)
  run data' Fxn.process_tm txt opt = (data', process_tm api urls txt opt)
  run data' Fxn.process_nop txt opt = (data', process_nop api urls txt opt)

  unfoldable pub process_cmd : Parser → Bytes → Option Bytes → Option Bytes → Done
  process_cmd data' cmd txt opt = elim (find_cmd cmd) [
    | none ↦ output data' (str_cat (lit (codes "[INVAL CMD '") ∷ some cmd ∷ lit (codes "']") ∷ []))
    | some c ↦
        if check_arg c.square opt && check_arg c.curly txt
        then output_of (run data' c.fxn txt opt)
        else panic
  ]
