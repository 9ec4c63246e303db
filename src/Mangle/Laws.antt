-- ===== src/Mangle/Laws.antt =====
-- The HTML escape fits its buffer, leaves no special character, and can be undone.
use blahgd.Prelude.{
  ℕ, suc, ◌+◌, ◌≡◌, ◌≢◌, refl, ap, ◌∙◌, Bool, true, false, [], ◌∷◌, ◌++◌, Option, none, some, arith,
  ◌==◌, if◌then◌else◌, length, length-append, All, All-append, Bytes, codes, bytes_eq, append_assoc,
  append-nil,
}
use blahgd.Mangle.{Buffer, html_extra, html_piece, html_outlen, html_write, mangle_htmlescape}

escaped : Bytes → Bytes
escaped [] = []
escaped (c ∷ s) = html_piece c ++ escaped s

html_write-escaped : (out s : Bytes) → html_write out s ≡ out ++ escaped s
unfolding html_write escaped
html_write-escaped out [] = rw append-nil
html_write-escaped out (c ∷ s) =
    html_write-escaped (out ++ html_piece c) s ∙ append_assoc out (html_piece c) (escaped s)

length-html_piece : (c : ℕ) → length (html_piece c) ≡ html_extra c + 1
length-html_piece c = ground arith

html_outlen-escaped : (n : ℕ) (s : Bytes) → html_outlen (n + length s) s ≡ n + length (escaped s)
unfolding html_outlen escaped
html_outlen-escaped n [] = refl
html_outlen-escaped n (c ∷ s) =
    let step : n + suc (length s) + html_extra c ≡ n + html_extra c + 1 + length s = omega arith in
    rw step (
      omega (
        arith,
        html_outlen-escaped (n + html_extra c + 1) s,
        length-html_piece c,
        length-append (html_piece c) (escaped s),
      ))

-- The buffer that mangle_htmlescape returns is filled to its last byte by the text and its
-- terminator, whatever the input.
pub mangle_htmlescape-size :
    (memory : Bool) (s : Bytes) (r : Buffer)
    → mangle_htmlescape memory s ≡ some r
    → r.size ≡ length r.text + 1
unfolding mangle_htmlescape
mangle_htmlescape-size memory s r h =
    ground (arith, html_outlen-escaped 0 s, html_write-escaped [] s)

-- No byte that HTML gives a meaning to, but the `&` of an entity.
abbrev pub IsInert : ℕ → Type 0
IsInert c = (c ≢ b'<') × (c ≢ b'>') × (c ≢ b'"')

html_piece-IsInert : (c : ℕ) → All IsInert (html_piece c)
html_piece-IsInert c = ground arith

escaped-IsInert : (s : Bytes) → All IsInert (escaped s)
unfolding escaped
escaped-IsInert [] = tt
escaped-IsInert (c ∷ s) =
    All-append IsInert (html_piece c) (escaped s) (html_piece-IsInert c) (escaped-IsInert s)

-- The escaped text holds no `<`, no `>` and no double quote.
pub mangle_htmlescape-IsInert :
    (memory : Bool) (s : Bytes) (r : Buffer)
    → mangle_htmlescape memory s ≡ some r
    → All IsInert r.text
unfolding mangle_htmlescape
mangle_htmlescape-IsInert true s r h =
    let e : html_write [] s ≡ r.text = ground arith in
    rw (← e) (rw (html_write-escaped [] s) (escaped-IsInert s))
mangle_htmlescape-IsInert false s r h = cc

-- A reader of HTML text: `none` outside an entity, the name read so far inside one.
abbrev pub entity : Bytes → Bytes
entity name =
    if bytes_eq name (codes "lt")
    then b'<' ∷ []
    else if bytes_eq name (codes "gt")
    then b'>' ∷ []
    else if bytes_eq name (codes "amp")
    then b'&' ∷ []
    else if bytes_eq name (codes "quot")
    then b'"' ∷ []
    else []

abbrev pub html_next : Option Bytes → ℕ → Option Bytes
html_next none c = if c == b'&' then some [] else none
html_next (some name) c = if c == b';' then none else some (name ++ c ∷ [])

abbrev pub html_emit : Option Bytes → ℕ → Bytes
html_emit none c = if c == b'&' then [] else c ∷ []
html_emit (some name) c = if c == b';' then entity name else []

unfoldable pub html_read : Option Bytes → Bytes → Bytes
html_read mode [] = []
html_read mode (c ∷ s) = html_emit mode c ++ html_read (html_next mode c) s

html_read-piece : (c : ℕ) (s : Bytes) → html_read none (html_piece c ++ s) ≡ c ∷ html_read none s
unfolding html_read bytes_eq
html_read-piece c s = ground arith

html_read-escaped : (s : Bytes) → html_read none (escaped s) ≡ s
unfolding escaped html_read
html_read-escaped [] = refl
html_read-escaped (c ∷ s) = html_read-piece c (escaped s) ∙ ap (◌∷◌ c) (html_read-escaped s)

-- Reading the escaped text as HTML gives the input back, so nothing is lost and no two inputs have
-- one escape.
pub html_read-mangle_htmlescape :
    (memory : Bool) (s : Bytes) (r : Buffer)
    → mangle_htmlescape memory s ≡ some r
    → html_read none r.text ≡ s
unfolding mangle_htmlescape
html_read-mangle_htmlescape true s r h =
    let e : html_write [] s ≡ r.text = ground arith in
    rw (← e) (rw (html_write-escaped [] s) (html_read-escaped s))
html_read-mangle_htmlescape false s r h = cc
