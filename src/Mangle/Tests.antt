-- ===== src/Mangle/Tests.antt =====
-- Examples for the HTML escape.
use blahgd.Prelude.{◌≡◌, refl, true, none, codes}
use blahgd.Mangle.{Buffer, mangle_htmlescape}
use blahgd.Mangle.Laws.{html_read, html_read-mangle_htmlescape}

abbrev escaped : Buffer
escaped = record { size = 19; text = codes "a &lt;b&gt; &amp;c" }

html_read-mangle_htmlescape_example : html_read none (codes "a &lt;b&gt; &amp;c") ≡ codes "a <b> &c"
unfolding mangle_htmlescape
html_read-mangle_htmlescape_example =
    html_read-mangle_htmlescape true (codes "a <b> &c") escaped refl
