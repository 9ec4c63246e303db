-- ===== src/Commands.antt =====
-- post_fmt3_cmds.c: the commands of the post format. The strings are libjeffpc's; `str_cat` is its
-- concatenation, of which only the behaviour on strings that are not NULL is known.
pub mod Text
pub mod Process
pub mod Table
pub mod Nesting
mod Tests
use blahgd.Prelude.{
  ℕ, zero, suc, ◌+◌, ◌-◌, ◌/◌, ◌%◌, ◌^◌, Bool, true, false, List, [], ◌∷◌, Option, none, some,
  Ordering, ltb, if◌then◌else◌, length, get_elem?, map, Bytes, codes, strcmp, concat_all, ◌≡◌,
}

-- Strings, and the files a post is read from.
pub record StrApi : Type 0 where
  pub str_cat : List (Option Bytes) → Bytes
  pub cached_file : Bytes → Option Bytes
  pub listing_str : Bytes → Bytes
  pub strerror : Bytes → Bytes
  pub str_cat-some : (l : List Bytes) → str_cat (map some l) ≡ concat_all l

pub record Urls : Type 0 where
  pub data_dir : Bytes
  pub base_url : Bytes
  pub bug_base_url : Bytes
  pub wiki_base_url : Bytes
  pub photo_base_url : Bytes

-- The part of struct parser_output that the commands change, the id of the post, and the paths that
-- post_get_cached_file has been called with, in order: it records the files among them that are
-- there in post->files. The counters are 32-bit ints, by their bit patterns.
pub record Parser : Type 0 where
  pub post_id : ℕ
  pub table_nesting : ℕ
  pub texttt_nesting : ℕ
  pub cached : List Bytes

abbrev pub incr : ℕ → ℕ
incr n = (n + 1) % 2 ^ 32

abbrev pub decr : ℕ → ℕ
decr n = (n + (2 ^ 32 - 1)) % 2 ^ 32

-- The functions that the table of commands points to.
pub data Fxn : Type 0 where
  process_listing process_link process_photolink process_img process_photo process_emph : Fxn
  process_texttt process_textbf process_textit process_begin process_end process_item : Fxn
  process_abbrev process_section process_subsection process_subsubsection process_wiki : Fxn
  process_bug process_post process_taglink process_degree process_trow process_leftarrow : Fxn
  process_rightarrow process_leftrightarrow process_tm process_nop : Fxn

pub data Tri : Type 0 where
  prohibited allowed required : Tri

pub record Cmd : Type 0 where
  pub name : Bytes
  pub fxn : Fxn
  pub square : Tri
  pub curly : Tri

abbrev cmd_opt : Bytes → Fxn → Cmd
cmd_opt n f = record { name = n; fxn = f; square = allowed; curly = required }

abbrev cmd_req : Bytes → Fxn → Cmd
cmd_req n f = record { name = n; fxn = f; square = prohibited; curly = required }

abbrev cmd_non : Bytes → Fxn → Cmd
cmd_non n f = record { name = n; fxn = f; square = prohibited; curly = prohibited }

abbrev cmd_nop : Bytes → Cmd
cmd_nop n = record { name = n; fxn = process_nop; square = prohibited; curly = required }

-- In the order of enum cmd_idx, where the designated initialisers put the entries.
unfoldable pub cmds : List Cmd
cmds =
    cmd_opt (codes "abbrev") process_abbrev
    ∷ cmd_req (codes "begin") process_begin
    ∷ cmd_req (codes "bug") process_bug
    ∷ cmd_nop (codes "category")
    ∷ cmd_req (codes "degree") process_degree
    ∷ cmd_req (codes "emph") process_emph
    ∷ cmd_req (codes "end") process_end
    ∷ cmd_opt (codes "img") process_img
    ∷ cmd_opt (codes "item") process_item
    ∷ cmd_non (codes "leftarrow") process_leftarrow
    ∷ cmd_non (codes "leftrightarrow") process_leftrightarrow
    ∷ cmd_opt (codes "link") process_link
    ∷ cmd_opt (codes "listing") process_listing
    ∷ cmd_opt (codes "photo") process_photo
    ∷ cmd_opt (codes "photolink") process_photolink
    ∷ cmd_opt (codes "post") process_post
    ∷ cmd_nop (codes "published")
    ∷ cmd_non (codes "rightarrow") process_rightarrow
    ∷ cmd_req (codes "section") process_section
    ∷ cmd_req (codes "subsection") process_subsection
    ∷ cmd_req (codes "subsubsection") process_subsubsection
    ∷ cmd_nop (codes "tag")
    ∷ cmd_opt (codes "taglink") process_taglink
    ∷ cmd_req (codes "textbf") process_textbf
    ∷ cmd_req (codes "textit") process_textit
    ∷ cmd_req (codes "texttt") process_texttt
    ∷ cmd_nop (codes "title")
    ∷ cmd_non (codes "tm") process_tm
    ∷ cmd_req (codes "trow") process_trow
    ∷ cmd_opt (codes "wiki") process_wiki
    ∷ []

-- cmd_cmp with a key
abbrev pub cmd_cmp : Bytes → Cmd → Ordering
cmd_cmp key c = strcmp key c.name

abbrev pub verdict_at : Option Cmd → Bytes → Option (Cmd × Ordering)
verdict_at none key = none
verdict_at (some c) key = some (c, cmd_cmp key c)

-- The C library's bsearch, over the indices from `lo` below `hi`; every round halves the range.
unfoldable pub bsearch : ℕ → Bytes → List Cmd → ℕ → ℕ → Option Cmd
unfolding strcmp
bsearch zero key table lo hi = none
bsearch (suc fuel) key table lo hi =
    let idx = (lo + hi) / 2 in
    let left = bsearch fuel key table lo idx in
    let right = bsearch fuel key table (idx + 1) hi in
    if ltb lo hi
    then elim (verdict_at (get_elem? table idx) key) [
      | none ↦ none
      | some (c, o) ↦ elim o [ Ordering.lt ↦ left | Ordering.gt ↦ right | Ordering.eq ↦ some c ]
    ]
    else none

-- The table has 30 entries; a range of at most 2 ^ 5 is empty after 6 rounds.
unfoldable pub find_cmd : Bytes → Option Cmd
unfolding bsearch cmds
find_cmd key = bsearch 6 key cmds 0 (length cmds)

abbrev pub check_arg : Tri → Option Bytes → Bool
check_arg required none = false
check_arg required (some s) = true
check_arg prohibited none = true
check_arg prohibited (some s) = false
check_arg allowed p = true
