-- ===== src/Commands/Text.antt =====
-- The functions __process_* that leave the parser's state alone, and listing.c.
use blahgd.Prelude.{ℕ, ◌-◌, [], ◌∷◌, ◌++◌, Option, none, some, take, Bytes, codes, signed}
use blahgd.Commands.{StrApi, Urls, Parser}

-- A literal of the program as an argument of str_cat, and `opt ? opt : txt`.
abbrev pub lit : Bytes → Option Bytes
lit s = some s

abbrev pub or_txt : Option Bytes → Option Bytes → Option Bytes
or_txt none txt = txt
or_txt (some opt) txt = some opt

-- str_cstr of a string that is not NULL
abbrev pub cstr : Option Bytes → Bytes
cstr none = []
cstr (some s) = s

-- snprintf into a buffer of `size` bytes
abbrev pub snprintf : ℕ → Bytes → Bytes
snprintf size s = take (size - 1) s

module _ (api : StrApi) (urls : Urls) where
  open api use {str_cat}

  abbrev pub listing_path : ℕ → Bytes → Bytes
  listing_path post_id fname =
      snprintf 4096 (urls.data_dir ++ (codes "/posts/" ++ (signed post_id ++ (b'/' ∷ fname))))

  -- post_get_cached_file, which is told to the post
  abbrev pub asked : Bytes → Parser → Parser
  asked path data' = record data' { cached = data'.cached ++ path ∷ [] }

  -- listing.c: the file of a post, or a message where it cannot be read
  unfoldable pub listing : Parser → Bytes → Parser × Bytes
  unfolding signed
  listing data' fname =
      let path = listing_path data'.post_id fname in
      (
        asked path data',
        elim (api.cached_file path) [
          | none ↦ snprintf 4096 (
              codes "Failed to read in listing '"
              ++ (signed data'.post_id ++ (b'/' ∷ (fname ++ (codes "': " ++ api.strerror path)))))
          | some text ↦ api.listing_str text
        ],
      )

  -- The link that __process_post and __process_taglink print into a buffer of 1024 bytes.
  unfoldable pub query_link : Bytes → Option Bytes → Option Bytes → Bytes
  query_link query txt opt = snprintf 1024 (
      codes "<a href=\""
      ++ (urls.base_url
          ++ (query ++ (cstr txt ++ (codes "\">" ++ (cstr (or_txt opt txt) ++ codes "</a>"))))))

  -- A string around the text.
  abbrev pub around : Bytes → Option Bytes → Bytes → Bytes
  around a txt b = str_cat (lit a ∷ txt ∷ lit b ∷ [])

  unfoldable pub process_listing : Parser → Option Bytes → Option Bytes → Parser × Bytes
  unfolding listing
  process_listing data' txt opt =
      let (after, str) = listing data' (cstr txt) in
      (after, around (codes "</p><pre>") (some str) (codes "</pre><p>"))

  abbrev pub process_link : Option Bytes → Option Bytes → Bytes
  process_link txt opt = str_cat (
      lit (codes "<a href=\"") ∷ txt ∷ lit (codes "\">") ∷ or_txt opt txt ∷ lit (codes "</a>") ∷ [])

  abbrev pub process_photolink : Option Bytes → Option Bytes → Bytes
  process_photolink txt opt = str_cat (
      lit (codes "<a href=\"")
      ∷ some urls.photo_base_url
      ∷ lit (codes "/")
      ∷ txt
      ∷ lit (codes "\">")
      ∷ or_txt opt txt
      ∷ lit (codes "</a>")
      ∷ [])

  abbrev pub process_img : Option Bytes → Option Bytes → Bytes
  process_img txt opt =
      str_cat
        (lit (codes "<img src=\"") ∷ txt ∷ lit (codes "\" alt=\"") ∷ opt ∷ lit (codes "\" />") ∷ [])

  abbrev pub process_photo : Option Bytes → Option Bytes → Bytes
  process_photo txt opt = str_cat (
      lit (codes "<img src=\"")
      ∷ some urls.photo_base_url
      ∷ lit (codes "/")
      ∷ txt
      ∷ lit (codes "\" alt=\"")
      ∷ opt
      ∷ lit (codes "\" />")
      ∷ [])

  abbrev pub process_emph : Option Bytes → Option Bytes → Bytes
  process_emph txt opt = around (codes "<em>") txt (codes "</em>")

  abbrev pub process_texttt : Option Bytes → Option Bytes → Bytes
  process_texttt txt opt = around (codes "<span class=\"tt\">") txt (codes "</span>")

  abbrev pub process_textbf : Option Bytes → Option Bytes → Bytes
  process_textbf txt opt = around (codes "<strong>") txt (codes "</strong>")

  abbrev pub process_textit : Option Bytes → Option Bytes → Bytes
  process_textit txt opt = around (codes "<i>") txt (codes "</i>")

  abbrev pub process_item : Option Bytes → Option Bytes → Bytes
  process_item txt none = around (codes "<li>") txt (codes "</li>")
  process_item txt (some opt) =
      str_cat
        (lit (codes "<dt>") ∷ some opt ∷ lit (codes "</dt><dd>") ∷ txt ∷ lit (codes "</dd>") ∷ [])

  abbrev pub process_abbrev : Option Bytes → Option Bytes → Bytes
  process_abbrev txt opt = str_cat (
      lit (codes "<abbr title=\"")
      ∷ or_txt opt txt
      ∷ lit (codes "\">")
      ∷ txt
      ∷ lit (codes "</abbr>")
      ∷ [])

  abbrev pub process_section : Option Bytes → Option Bytes → Bytes
  process_section txt opt = around (codes "</p><h3>") txt (codes "</h3><p>")

  abbrev pub process_subsection : Option Bytes → Option Bytes → Bytes
  process_subsection txt opt = around (codes "</p><h4>") txt (codes "</h4><p>")

  abbrev pub process_subsubsection : Option Bytes → Option Bytes → Bytes
  process_subsubsection txt opt = around (codes "</p><h5>") txt (codes "</h5><p>")

  abbrev pub process_wiki : Option Bytes → Option Bytes → Bytes
  process_wiki txt opt = str_cat (
      lit (codes "<a href=\"")
      ∷ some urls.wiki_base_url
      ∷ lit (codes "/")
      ∷ txt
      ∷ lit (codes "\"><img src=\"")
      ∷ some urls.base_url
      ∷ lit (codes "/wiki.png\" alt=\"Wikipedia article:\" />&nbsp;")
      ∷ or_txt opt txt
      ∷ lit (codes "</a>")
      ∷ [])

  abbrev pub process_bug : Option Bytes → Option Bytes → Bytes
  process_bug txt opt = str_cat (
      lit (codes "<a href=\"")
      ∷ some urls.bug_base_url
      ∷ lit (codes "/")
      ∷ txt
      ∷ lit (codes "\"><img src=\"")
      ∷ some urls.base_url
      ∷ lit (codes "/bug.png\" alt=\"bug #\" />&nbsp;")
      ∷ txt
      ∷ lit (codes "</a>")
      ∷ [])

  unfoldable pub process_post : Option Bytes → Option Bytes → Bytes
  unfolding query_link
  process_post txt opt = query_link (codes "/?p=") txt opt

  unfoldable pub process_taglink : Option Bytes → Option Bytes → Bytes
  unfolding query_link
  process_taglink txt opt = query_link (codes "/?tag=") txt opt

  abbrev pub process_degree : Option Bytes → Option Bytes → Bytes
  process_degree txt opt = str_cat (lit (0xc2 ∷ 0xb0 ∷ []) ∷ txt ∷ [])

  abbrev pub process_trow : Option Bytes → Option Bytes → Bytes
  process_trow txt opt = around (codes "<tr><td>") txt (codes "</td></tr>")

  abbrev pub process_leftarrow : Option Bytes → Option Bytes → Bytes
  process_leftarrow txt opt = codes "&larr;"

  abbrev pub process_rightarrow : Option Bytes → Option Bytes → Bytes
  process_rightarrow txt opt = codes "&rarr;"

  abbrev pub process_leftrightarrow : Option Bytes → Option Bytes → Bytes
  process_leftrightarrow txt opt = codes "&harr;"

  abbrev pub process_tm : Option Bytes → Option Bytes → Bytes
  process_tm txt opt = codes "&trade;"

  abbrev pub process_nop : Option Bytes → Option Bytes → Bytes
  process_nop txt opt = []
