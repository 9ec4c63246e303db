-- ===== src/Pipeline/UrlEscape.antt =====
-- pipeline.c, __urlescape_str: percent encoding in two passes, as in mangle.c.
use blahgd.Prelude.{
  ℕ, ◌+◌, ◌*◌, ◌-◌, ◌/◌, ◌%◌, ◌<◌, ◌≡◌, refl, ap, ◌∙◌, Bool, true, ◌||◌, ◌&&◌, zero, suc, [], ◌∷◌,
  ◌++◌, none, some, arith, ◌==◌, ==_iff, leb, if◌then◌else◌, length, length-append, All, get_elem?,
  Bytes, codes, is_alnum, append_assoc, append-nil,
}
use blahgd.Mangle.{Buffer}

-- The characters of the two switches that stand for themselves.
abbrev pub is_mark : ℕ → Bool
is_mark c = c == b'-' || (c == b'_' || (c == b'.' || c == b'~'))

abbrev pub url_extra : ℕ → ℕ
url_extra c = if is_alnum c then 0 else if c == b' ' || is_mark c then 0 else 2

abbrev pub hd : ℕ → ℕ
hd n = elim (get_elem? (codes "0123456789ABCDEF") n) [ none ↦ 0 | some d ↦ d ]

abbrev pub url_piece : ℕ → Bytes
url_piece c =
    if is_alnum c
    then c ∷ []
    else if c == b' '
    then b'+' ∷ []
    else if is_mark c
    then c ∷ []
    else b'%' ∷ hd (c / 16) ∷ hd (c % 16) ∷ []

unfoldable pub url_outlen : ℕ → Bytes → ℕ
url_outlen outlen [] = outlen
url_outlen outlen (c ∷ s) = url_outlen (outlen + url_extra c) s

unfoldable pub url_write : Bytes → Bytes → Bytes
url_write out [] = out
url_write out (c ∷ s) = url_write (out ++ url_piece c) s

unfoldable pub urlescape_str : Bytes → Buffer
unfolding url_outlen url_write
urlescape_str s = record { size = url_outlen (length s) s + 1; text = url_write [] s }

url_escaped : Bytes → Bytes
url_escaped [] = []
url_escaped (c ∷ s) = url_piece c ++ url_escaped s

url_write-escaped : (out s : Bytes) → url_write out s ≡ out ++ url_escaped s
unfolding url_write url_escaped
url_write-escaped out [] = rw append-nil
url_write-escaped out (c ∷ s) =
    url_write-escaped (out ++ url_piece c) s ∙ append_assoc out (url_piece c) (url_escaped s)

length-url_piece : (c : ℕ) → length (url_piece c) ≡ url_extra c + 1
length-url_piece c = ground arith

url_outlen-escaped : (n : ℕ) (s : Bytes) → url_outlen (n + length s) s ≡ n + length (url_escaped s)
unfolding url_outlen url_escaped
url_outlen-escaped n [] = refl
url_outlen-escaped n (c ∷ s) =
    let step : n + suc (length s) + url_extra c ≡ n + url_extra c + 1 + length s = omega arith in
    rw step (
      omega (
        arith,
        url_outlen-escaped (n + url_extra c + 1) s,
        length-url_piece c,
        length-append (url_piece c) (url_escaped s),
      ))

-- The percent encoding fills the buffer allocated for it to the last byte.
pub urlescape_str-size : (s : Bytes) → (urlescape_str s).size ≡ length (urlescape_str s).text + 1
unfolding urlescape_str
urlescape_str-size s =
    let start : 0 + length s ≡ length s = omega arith in
    omega (arith, rw start at (url_outlen-escaped 0 s), ap length (url_write-escaped [] s))

-- A reader of query strings.
pub data UrlMode : Type 0 where
  plain percent : UrlMode
  digit : ℕ → UrlMode

abbrev pub hex_value : ℕ → ℕ
hex_value c = if leb c b'9' then c - b'0' else c - 55

abbrev pub url_next : UrlMode → ℕ → UrlMode
url_next plain c = if c == b'%' then percent else plain
url_next percent c = digit (hex_value c)
url_next (digit h) c = plain

abbrev pub url_emit : UrlMode → ℕ → Bytes
url_emit plain c = if c == b'%' then [] else if c == b'+' then b' ' ∷ [] else c ∷ []
url_emit percent c = []
url_emit (digit h) c = (h * 16 + hex_value c) ∷ []

unfoldable pub url_read : UrlMode → Bytes → Bytes
url_read mode [] = []
url_read mode (c ∷ s) = url_emit mode c ++ url_read (url_next mode c) s

true_under : ℕ → (ℕ → Bool) → Bool
true_under zero test = true
true_under (suc m) test = true_under m test && test m

true_under_sound :
    (m : ℕ) (test : ℕ → Bool) (c : ℕ) → true_under m test ≡ true → c < m → test c ≡ true
unfolding true_under
true_under_sound zero test c all below = absurd (omega arith)
true_under_sound (suc m) test c all below = ground (arith, true_under_sound m test c)

hex_table : true_under 16 (λ n. hex_value (hd n) == n) ≡ true
unfolding true_under
hex_table = refl

hex_value-hd : (n : ℕ) → n < 16 → hex_value (hd n) ≡ n
hex_value-hd n h = (==_iff _ n).0 (true_under_sound 16 _ n hex_table h)

url_read-piece :
    (c : ℕ) (s : Bytes) → c < 256 → url_read plain (url_piece c ++ s) ≡ c ∷ url_read plain s
unfolding url_read is_alnum
url_read-piece c s h =
    ground (arith, hex_value-hd (c / 16) (omega arith), hex_value-hd (c % 16) (omega arith))

url_read-escaped : (s : Bytes) → All (λ c. c < 256) s → url_read plain (url_escaped s) ≡ s
unfolding url_escaped url_read
url_read-escaped [] h = refl
url_read-escaped (c ∷ s) h =
    url_read-piece c (url_escaped s) h.0 ∙ ap (◌∷◌ c) (url_read-escaped s h.1)

-- Decoding the percent encoding of a string of bytes gives the string back.
pub url_read-urlescape_str :
    (s : Bytes) → All (λ c. c < 256) s → url_read plain (urlescape_str s).text ≡ s
unfolding urlescape_str
url_read-urlescape_str s h = rw (url_write-escaped [] s) (url_read-escaped s h)
