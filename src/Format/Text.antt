-- ===== src/Format/Text.antt =====
-- post_fmt3.y: posts of plain text.
use blahgd.Prelude.{
  ℕ, ◌≡◌, refl, sym, ap, ◌∙◌, arith, ◌≤◌, ◌⊎◌, inl, inr, List, [], ◌∷◌, ◌++◌, Option, none, some,
  map, All, All-append, length, length-append, get_elem?, append-nil, append_assoc, Bytes, codes,
  concat_all, ◌+◌, ◌==◌, Bool-cases, ◌<◌, zero, suc,
}
use blahgd.Mangle.Laws.{IsInert}
use blahgd.Commands.{StrApi, Urls}
use blahgd.Format
use blahgd.Format.{
  Thing, Paragraph, Post, Data, Seq, one, more, word, utf8char, wspace, char, dash, oquot, cquot,
  schar, newline, ellipsis, nbsp, amp, dollar, percent, cmd_opt, cmd_arg, cmd, symbol, math,
  verbatim, listing, special, backslash, open_brace, close_brace, open_bracket, close_bracket,
  ampersand, underscore, caret, tilde, first, next, paragraphs, empty, thing, paragraph,
  paragraphs_text, post, char_cvt, special_char, symbol_text, dashes, oquotes, cquotes, return,
  newline_text, of_option,
}

abbrev pub IsRun : ℕ → Bytes → Type 0
IsRun n s = (1 ≤ length s) × (length s ≤ n)

-- Text, quotes, dashes and escaped characters, with a token's text as its rule of the scanner has it.
abbrev pub IsPlain : Thing → Type 0
IsPlain (word s) = All IsInert s
IsPlain (utf8char s) = All IsInert s
IsPlain (wspace s) = All IsInert s
IsPlain (char s) = All IsInert s
IsPlain (dash s) = IsRun 3 s
IsPlain (oquot s) = IsRun 2 s
IsPlain (cquot s) = IsRun 2 s
IsPlain (schar s) = (s ≡ codes "\"") ⊎ ((s ≡ codes "<") ⊎ (s ≡ codes ">"))
IsPlain newline = Unit
IsPlain ellipsis = Unit
IsPlain nbsp = Unit
IsPlain amp = ⊥
IsPlain dollar = Unit
IsPlain percent = Unit
IsPlain (cmd_opt c o a) = ⊥
IsPlain (cmd_arg c a) = ⊥
IsPlain (cmd c) = ⊥
IsPlain (symbol backslash) = ⊥
IsPlain (symbol s) = Unit
IsPlain (math l) = ⊥
IsPlain (verbatim l) = ⊥
IsPlain (listing l) = ⊥
IsPlain (special s l) = ⊥

abbrev pub AllThings : (Thing → Type 0) → Paragraph → Type 0
AllThings P (first t) = P t
AllThings P (next p t) = AllThings P p × P t

abbrev pub AllSeq : {A : Type 0} → (A → Type 0) → Seq A → Type 0
AllSeq P (one a) = P a
AllSeq P (more l a) = AllSeq P l × P a

abbrev pub IsPlainPost : Post → Type 0
IsPlainPost (paragraphs l) = AllSeq (AllThings IsPlain) l
IsPlainPost empty = Unit

abbrev pub seq_length : {A : Type 0} → Seq A → ℕ
seq_length (one a) = 1
seq_length (more l a) = seq_length l + 1

abbrev pub paragraph_count : Post → ℕ
paragraph_count (paragraphs l) = seq_length l
paragraph_count empty = 0

abbrev pub wrapped : Bytes → Bytes
wrapped s = codes "<p>" ++ s ++ codes "</p>\n"

-- An inert text, with the state as it was.
abbrev pub Reads : Option (Option Bytes × Data) → Data → Type 0
Reads r d = (s : Bytes) × (r ≡ some (some s, d)) × All IsInert s

entry_of :
    (l : List Bytes) (i : ℕ)
    → i < length l
    → All (All IsInert) l
    → (t : Bytes) × (get_elem? (map some l) i ≡ some (some t)) × All IsInert t
entry_of [] i h k = absurd (omega arith)
entry_of (t ∷ l) zero h k = (t, refl, k.0)
entry_of (t ∷ l) (suc i) h k = entry_of l i (omega arith) k.1

pub run-Reads :
    (l : List Bytes) (d : Data) (s : Bytes)
    → All (All IsInert) l
    → IsRun (length l) s
    → Reads (of_option (char_cvt s (none ∷ map some l)) d) d
unfolding char_cvt
run-Reads l d [] k h = absurd (omega arith)
run-Reads l d (c ∷ s) k h =
    let (t, e, i) = entry_of l (length s) (omega arith) k in (t, ap (λ r. of_option r d) e, i)

pub schar-text :
    (d : Data) (s : Bytes)
    → (s ≡ codes "\"") ⊎ ((s ≡ codes "<") ⊎ (s ≡ codes ">"))
    → (t : Bytes) × (special_char s ≡ some t) × All IsInert t
unfolding special_char
schar-text d s (inl h) = (codes "&quot;", ap special_char h, ground arith)
schar-text d s (inr (inl h)) = (codes "&lt;", ap special_char h, ground arith)
schar-text d s (inr (inr h)) = (codes "&gt;", ap special_char h, ground arith)

module _ (api : StrApi) (urls : Urls) (d : Data) where
  thing-Reads : (t : Thing) → IsPlain t → Reads (thing api urls t d) d
  unfolding thing
  thing-Reads (word s) h = (s, refl, h)
  thing-Reads (utf8char s) h = (s, refl, h)
  thing-Reads (wspace s) h = (s, refl, h)
  thing-Reads (char s) h = (s, refl, h)
  thing-Reads (dash s) h =
      run-Reads (codes "-" ∷ codes "&ndash;" ∷ codes "&mdash;" ∷ []) d s (ground arith) h
  thing-Reads (oquot s) h = run-Reads (codes "&lsquo;" ∷ codes "&ldquo;" ∷ []) d s (ground arith) h
  thing-Reads (cquot s) h = run-Reads (codes "&rsquo;" ∷ codes "&rdquo;" ∷ []) d s (ground arith) h
  thing-Reads (schar s) h =
      let (t, e, i) = schar-text d s h in
      (t, ap (λ r. Format.bound (of_option r d) (λ u. return (some u))) e, i)
  thing-Reads newline h =
      let n = d.parser.texttt_nesting in
      (
        newline_text n,
        refl,
        elim (Bool-cases (n == 0)) [ inl e ↦ ground arith | inr e ↦ ground arith ],
      )
  thing-Reads ellipsis h = (codes "&hellip;", refl, ground arith)
  thing-Reads nbsp h = (codes "&nbsp;", refl, ground arith)
  thing-Reads dollar h = (codes "$", refl, ground arith)
  thing-Reads percent h = (codes "%", refl, ground arith)
  thing-Reads (symbol open_brace) h = (codes "{", refl, ground arith)
  thing-Reads (symbol close_brace) h = (codes "}", refl, ground arith)
  thing-Reads (symbol open_bracket) h = (codes "[", refl, ground arith)
  thing-Reads (symbol close_bracket) h = (codes "]", refl, ground arith)
  thing-Reads (symbol ampersand) h = (codes "&amp;", refl, ground arith)
  thing-Reads (symbol underscore) h = (codes "_", refl, ground arith)
  thing-Reads (symbol caret) h = (codes "^", refl, ground arith)
  thing-Reads (symbol tilde) h = (codes "~", refl, ground arith)
  thing-Reads amp h = absurd h
  thing-Reads (cmd_opt c o a) h = absurd h
  thing-Reads (cmd_arg c a) h = absurd h
  thing-Reads (cmd c) h = absurd h
  thing-Reads (symbol backslash) h = absurd h
  thing-Reads (math l) h = absurd h
  thing-Reads (verbatim l) h = absurd h
  thing-Reads (listing l) h = absurd h
  thing-Reads (special s l) h = absurd h

  cat_two : (a b : Bytes) → api.str_cat (some a ∷ some b ∷ []) ≡ a ++ b
  cat_two a b = api.str_cat-some (a ∷ b ∷ []) ∙ ap (λ t. a ++ t) (append-nil b)

  cat_three : (a : Bytes) → api.str_cat (Format.in_paragraph (some a)) ≡ wrapped a
  cat_three a = api.str_cat-some (codes "<p>" ∷ a ∷ codes "</p>\n" ∷ [])

  paragraph-Reads : (p : Paragraph) → AllThings IsPlain p → Reads (paragraph api urls p d) d
  unfolding thing
  paragraph-Reads (first t) h = thing-Reads t h
  paragraph-Reads (next p t) h =
      let (a, e, i) = paragraph-Reads p h.0 in
      let (b, f, j) = thing-Reads t h.1 in
      (a ++ b, rw (e, f, cat_two a b) refl, All-append IsInert a b i j)

  cat_paragraph :
      (a b : Bytes) → api.str_cat (some a ∷ Format.in_paragraph (some b)) ≡ a ++ wrapped b
  cat_paragraph a b = api.str_cat-some (a ∷ codes "<p>" ∷ b ∷ codes "</p>\n" ∷ [])

  abbrev pub Prints : ℕ → Option (Option Bytes × Data) → Type 0
  Prints n r =
      (texts : List Bytes) × (r ≡ some (some (concat_all (map wrapped texts)), d))
      × All (All IsInert) texts
      × (length texts ≡ n)

  wrapped_snoc :
      (l : List Bytes) (b : Bytes)
      → concat_all (map wrapped (l ++ b ∷ [])) ≡ concat_all (map wrapped l) ++ wrapped b
  wrapped_snoc [] b = append-nil (wrapped b)
  wrapped_snoc (a ∷ l) b =
      rw (wrapped_snoc l b)
        (sym (append_assoc (wrapped a) (concat_all (map wrapped l)) (wrapped b)))

  paragraphs-Prints :
      (l : Seq Paragraph)
      → AllSeq (AllThings IsPlain) l
      → Prints (seq_length l) (paragraphs_text api urls l d)
  unfolding paragraphs_text
  paragraphs-Prints (one p) h =
      let (b, f, j) = paragraph-Reads p h in
      (
        b ∷ [],
        rw (f, cat_three b) (ap (λ s. some (some s, d)) (sym (append-nil (wrapped b)))),
        (j, tt),
        refl,
      )
  paragraphs-Prints (more l p) h =
      let (texts, e, i, n) = paragraphs-Prints l h.0 in
      let (b, f, j) = paragraph-Reads p h.1 in
      (
        texts ++ b ∷ [],
        rw (e, f, cat_paragraph (concat_all (map wrapped texts)) b, wrapped_snoc texts b) refl,
        All-append (All IsInert) texts (b ∷ []) i (j, tt),
        rw (length-append texts (b ∷ []), n) refl,
      )

  -- A post of words, spaces, dashes, quotes, escapes and entities always becomes output and changes
  -- nothing of the parser: one `<p>` element for each paragraph, whose text holds no `<`, no `>` and
  -- no double quote.
  pub post-Prints : (p : Post) → IsPlainPost p → Prints (paragraph_count p) (post api urls p d)
  unfolding post
  post-Prints (paragraphs l) h = paragraphs-Prints l h
  post-Prints empty h = ([], refl, tt, refl)
