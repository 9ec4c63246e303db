-- ===== src/Mangle.antt =====
-- mangle.c: mangle_htmlescape, which escapes text for HTML in two passes over its input: the first
-- finds the size of the buffer, the second fills it.
pub mod Laws
mod Tests
use blahgd.Prelude.{
  ℕ, ◌+◌, Bool, ◌||◌, [], ◌∷◌, ◌++◌, Option, none, some, ◌==◌, if◌then◌else◌, length, Bytes, codes,
}

-- A new buffer: its size in bytes, and the string in it before the terminator.
pub record Buffer : Type 0 where
  pub size : ℕ
  pub text : Bytes

abbrev pub html_extra : ℕ → ℕ
html_extra c =
    if c == b'<' || c == b'>' then 3 else if c == b'&' then 4 else if c == b'"' then 5 else 0

abbrev pub html_piece : ℕ → Bytes
html_piece c =
    if c == b'<'
    then codes "&lt;"
    else if c == b'>'
    then codes "&gt;"
    else if c == b'&'
    then codes "&amp;"
    else if c == b'"'
    then codes "&quot;"
    else c ∷ []

unfoldable pub html_outlen : ℕ → Bytes → ℕ
html_outlen outlen [] = outlen
html_outlen outlen (c ∷ s) = html_outlen (outlen + html_extra c) s

unfoldable pub html_write : Bytes → Bytes → Bytes
html_write out [] = out
html_write out (c ∷ s) = html_write (out ++ html_piece c) s

-- `memory` says whether malloc succeeds; `none` is the NULL that is returned.
unfoldable pub mangle_htmlescape : Bool → Bytes → Option Buffer
unfolding html_outlen html_write
mangle_htmlescape memory s =
    let outlen = html_outlen (length s) s in
    if memory then some (record { size = outlen + 1; text = html_write [] s }) else none
