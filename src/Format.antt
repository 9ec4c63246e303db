-- ===== src/Format.antt =====
-- post_fmt3.y: what the actions of the grammar of posts do. The scanner and the parser that are
-- generated are not modelled: a post is the tree that they go through, with the tokens' texts, and
-- the actions run from left to right, a command after its arguments. `none` as a text is NULL.
pub mod Text
pub mod Meaning
pub mod Samples
pub mod Specials
mod Tests
use blahgd.Prelude.{
  ℕ, Bool, true, false, List, [], ◌∷◌, Option, none, some, ◌==◌, ltb, if◌then◌else◌, length,
  get_elem?, Bytes, codes,
}
use blahgd.Commands.{StrApi, Urls, Parser}
use blahgd.Commands.Process
use blahgd.Commands.Process.{process_cmd}

-- \\, \{ and the like, after the backslash.
pub data Symbol : Type 0 where
  backslash open_brace close_brace open_bracket close_bracket ampersand underscore caret tilde :
      Symbol

pub data MathOp : Type 0 where
  plus minus times divide equals less greater superscript subscript juxtapose : MathOp

pub data Mexpr : Type 0 where
  op : MathOp → Mexpr → Mexpr → Mexpr
  parens braces : Mexpr → Mexpr
  frac : Mexpr → Mexpr → Mexpr
  sqrt : Mexpr → Mexpr
  propto : Mexpr
  number name : Bytes → Mexpr
  frac_name sqrt_name propto_name : Mexpr

-- A nonempty sequence, from the left, as the grammar builds it.
pub data Seq (A : Type 0) : Type 0 where
  one : A → Seq A
  more : Seq A → A → Seq A

-- The commands whose text is taken as it is.
pub data Special : Type 0 where
  title published tag twitterimg twitterphoto : Special

mutual
  pub data Thing : Type 0 where
    word utf8char wspace char : Bytes → Thing
    dash oquot cquot schar : Bytes → Thing
    newline ellipsis nbsp amp dollar percent : Thing
    cmd_opt : Bytes → Paragraph → Paragraph → Thing
    cmd_arg : Bytes → Paragraph → Thing
    cmd : Bytes → Thing
    symbol : Symbol → Thing
    math : Seq Mexpr → Thing
    verbatim listing : Seq Bytes → Thing
    special : Special → Seq Bytes → Thing

  pub data Paragraph : Type 0 where
    first : Thing → Paragraph
    next : Paragraph → Thing → Paragraph

pub data Post : Type 0 where
  paragraphs : Seq Paragraph → Post
  empty : Post

-- struct parser_output as far as the actions change it.
pub record Data : Type 0 where
  pub parser : Parser
  pub sc_title : Option Bytes
  pub sc_pub : Option Bytes
  pub sc_tags : List Bytes
  pub sc_twitter_img : Option Bytes

-- An action with the state before and after it; `none` is a failed assertion, a panic or a read
-- past a table.
abbrev pub M : Type 0 → Type 0
M A = Data → Option (A × Data)

abbrev pub return : {A : Type 0} → A → M A
return a d = some (a, d)

abbrev pub bound : {A B : Type 0} → Option (A × Data) → (A → M B) → Option (B × Data)
bound none k = none
bound (some (a, d)) k = k a d

infixl 5 ◌>>=◌
abbrev pub ◌>>=◌ : {A B : Type 0} → M A → (A → M B) → M B
◌>>=◌ m k d = bound (m d) k

abbrev pub of_option : {A : Type 0} → Option A → M A
of_option none d = none
of_option (some a) d = some (a, d)

abbrev pub lit : Bytes → Option Bytes
lit s = some s

-- The tables of __char_cvt, whose first entry is NULL.
abbrev pub dashes : List (Option Bytes)
dashes = none ∷ lit (codes "-") ∷ lit (codes "&ndash;") ∷ lit (codes "&mdash;") ∷ []

abbrev pub oquotes : List (Option Bytes)
oquotes = none ∷ lit (codes "&lsquo;") ∷ lit (codes "&ldquo;") ∷ []

abbrev pub cquotes : List (Option Bytes)
cquotes = none ∷ lit (codes "&rsquo;") ∷ lit (codes "&rdquo;") ∷ []

-- __char_cvt; its assertion allows one index too many, which is a read past the table.
unfoldable pub char_cvt : Bytes → List (Option Bytes) → Option (Option Bytes)
char_cvt val outstr = get_elem? outstr (length val)

unfoldable pub special_char : Bytes → Option Bytes
special_char [] = none
special_char (c ∷ d ∷ s) = none
special_char (c ∷ []) =
    if c == b'"'
    then some (codes "&quot;")
    else if c == b'<'
    then some (codes "&lt;")
    else if c == b'>'
    then some (codes "&gt;")
    else none

abbrev pub symbol_text : Symbol → Bytes
symbol_text backslash = codes "<br/>"
symbol_text open_brace = codes "{"
symbol_text close_brace = codes "}"
symbol_text open_bracket = codes "["
symbol_text close_bracket = codes "]"
symbol_text ampersand = codes "&amp;"
symbol_text underscore = codes "_"
symbol_text caret = codes "^"
symbol_text tilde = codes "~"

abbrev pub newline_text : ℕ → Bytes
newline_text n = if n == 0 then codes " " else codes "\n"

abbrev pub in_paragraph : Option Bytes → List (Option Bytes)
in_paragraph p = lit (codes "<p>") ∷ p ∷ lit (codes "</p>\n") ∷ []

abbrev pub or_empty : Option Bytes → Bytes
or_empty none = []
or_empty (some s) = s

abbrev pub of_done : Data → Process.Done → Option (Option Bytes × Data)
of_done d Process.panic = none
of_done d (Process.output p s) = some (some s, record d { parser = p })

module _ (api : StrApi) (urls : Urls) where
  open api use {str_cat}

  abbrev pub cat : List (Option Bytes) → Option Bytes
  cat l = some (str_cat l)

  unfoldable pub math_apply : Bytes → Option Bytes → Option (Option Bytes) → Option Bytes
  math_apply el a (some b) = cat (
      lit (codes "<")
      ∷ some el
      ∷ lit (codes "><mrow>")
      ∷ a
      ∷ lit (codes "</mrow><mrow>")
      ∷ b
      ∷ lit (codes "</mrow></")
      ∷ some el
      ∷ lit (codes ">")
      ∷ [])
  math_apply el a none = cat (
      lit (codes "<")
      ∷ some el
      ∷ lit (codes "><mrow>")
      ∷ a
      ∷ lit (codes "</mrow></")
      ∷ some el
      ∷ lit (codes ">")
      ∷ [])

  abbrev pub op_text : MathOp → Option Bytes → Option Bytes → Option Bytes
  op_text plus a b = cat (a ∷ lit (codes "<mo>+</mo>") ∷ b ∷ [])
  op_text minus a b = cat (a ∷ lit (codes "<mo>-</mo>") ∷ b ∷ [])
  op_text times a b = cat (a ∷ lit (codes "<mo>*</mo>") ∷ b ∷ [])
  op_text divide a b = cat (a ∷ lit (codes "<mo>/</mo>") ∷ b ∷ [])
  op_text equals a b = cat (a ∷ lit (codes "<mo>=</mo>") ∷ b ∷ [])
  op_text less a b = cat (a ∷ lit (codes "<mo>&lt;</mo>") ∷ b ∷ [])
  op_text greater a b = cat (a ∷ lit (codes "<mo>&gt;</mo>") ∷ b ∷ [])
  op_text superscript a b = math_apply (codes "msup") a (some b)
  op_text subscript a b = math_apply (codes "msub") a (some b)
  op_text juxtapose a b = cat (a ∷ b ∷ [])

  unfoldable pub mexpr : Mexpr → Option Bytes
  unfolding math_apply
  mexpr (op o a b) = op_text o (mexpr a) (mexpr b)
  mexpr (parens a) =
      cat (
        lit (codes "<mrow><mo>(</mo><mrow>")
        ∷ mexpr a
        ∷ lit (codes "</mrow><mo>)</mo></mrow>")
        ∷ [])
  mexpr (braces a) = mexpr a
  mexpr (frac a b) = math_apply (codes "mfrac") (mexpr a) (some (mexpr b))
  mexpr (sqrt a) = math_apply (codes "msqrt") (mexpr a) none
  mexpr propto = lit (codes "<mo>&prop;</mo>")
  mexpr (number s) = cat (lit (codes "<mn>") ∷ some s ∷ lit (codes "</mn>") ∷ [])
  mexpr (name s) = cat (lit (codes "<mi>") ∷ some s ∷ lit (codes "</mi>") ∷ [])
  mexpr frac_name = lit (codes "<mi>frac</mi>")
  mexpr sqrt_name = lit (codes "<mi>sqrt</mi>")
  mexpr propto_name = lit (codes "<mi>propto</mi>")

  -- math
  unfoldable pub math_text : Seq Mexpr → Option Bytes
  unfolding mexpr
  math_text (one e) = mexpr e
  math_text (more l e) = cat (math_text l ∷ mexpr e ∷ [])

  unfoldable pub verb : Seq Bytes → Option Bytes
  verb (one s) = some s
  verb (more l s) = cat (verb l ∷ some s ∷ [])

  -- special_cmd and special_cmd_list
  unfoldable pub special_cmd : Special → Option Bytes → Data → Data
  special_cmd title value d = record d { sc_title = value }
  special_cmd published value d = record d { sc_pub = value }
  special_cmd tag value d = record d { sc_tags = or_empty value ∷ d.sc_tags }
  special_cmd twitterimg value d = record d { sc_twitter_img = value }
  special_cmd twitterphoto value d = record d {
    sc_twitter_img = cat (some urls.photo_base_url ∷ lit (codes "/") ∷ value ∷ []);
  }

  -- process_cmd with the name, the text and the option
  abbrev pub command : Bytes → Option Bytes → Option Bytes → M (Option Bytes)
  command c txt opt d = of_done d (process_cmd api urls d.parser c txt opt)

  unfoldable mutual
    unfolding char_cvt special_char special_cmd math_text verb

    pub thing : Thing → M (Option Bytes)
    thing (word s) = return (some s)
    thing (utf8char s) = return (some s)
    thing (wspace s) = return (some s)
    thing (char s) = return (some s)
    thing (dash s) = of_option (char_cvt s dashes)
    thing (oquot s) = of_option (char_cvt s oquotes)
    thing (cquot s) = of_option (char_cvt s cquotes)
    thing (schar s) = of_option (special_char s) >>= λ t. return (some t)
    thing newline = λ d. some (some (newline_text d.parser.texttt_nesting), d)
    thing ellipsis = return (lit (codes "&hellip;"))
    thing nbsp = return (lit (codes "&nbsp;"))
    thing amp = return (lit (codes "</td><td>"))
    thing dollar = return (lit (codes "$"))
    thing percent = return (lit (codes "%"))
    thing (cmd_opt c opt arg) = paragraph opt >>= λ o. paragraph arg >>= λ a. command c a o
    thing (cmd_arg c arg) = paragraph arg >>= λ a. command c a none
    thing (cmd c) = command c none none
    thing (symbol s) = return (some (symbol_text s))
    thing (math l) = return (cat (lit (codes "<math>") ∷ math_text l ∷ lit (codes "</math>") ∷ []))
    thing (verbatim l) = return (cat (lit (codes "</p>") ∷ verb l ∷ lit (codes "<p>") ∷ []))
    thing (listing l) = return (
        cat (
          lit (codes "</p><pre>")
          ∷ some (api.listing_str (or_empty (verb l)))
          ∷ lit (codes "</pre><p>")
          ∷ []))
    thing (special s l) = λ d. some (none, special_cmd s (verb l) d)

    pub paragraph : Paragraph → M (Option Bytes)
    paragraph (first t) = thing t
    paragraph (next p t) = paragraph p >>= λ a. thing t >>= λ b. return (cat (a ∷ b ∷ []))

  unfoldable pub paragraphs_text : Seq Paragraph → M (Option Bytes)
  unfolding paragraph
  paragraphs_text (one p) = paragraph p >>= λ a. return (cat (in_paragraph a))
  paragraphs_text (more l p) =
      paragraphs_text l >>= λ a. paragraph p >>= λ b. return (cat (a ∷ in_paragraph b))

  -- data->stroutput
  unfoldable pub post : Post → M (Option Bytes)
  unfolding paragraphs_text
  post (paragraphs l) = paragraphs_text l
  post empty = return (some [])
