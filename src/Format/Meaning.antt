-- ===== src/Format/Meaning.antt =====
-- post_fmt3.y: the special commands of a post in the order that they are written, and what the
-- scanner and the table of commands ask of a post.
use blahgd.Prelude.{
  ◌≡◌, ◌⊎◌, Bool, true, false, ◌&&◌, List, [], ◌∷◌, ◌++◌, Option, none, some, Bytes, codes,
}
use blahgd.Commands.{StrApi, Urls, Cmd, Tri, required, prohibited, allowed, find_cmd}
use blahgd.Format.Text.{IsRun, AllSeq}
use blahgd.Format.{
  Thing, Paragraph, Post, Seq, one, more, dash, oquot, cquot, schar, cmd_opt, cmd_arg, cmd, special,
  first, next, paragraphs, empty, Special, title, published, tag, twitterimg, twitterphoto, verb,
  or_empty,
}

-- The special commands of a text in the order they are written, a command's option before its text.
abbrev mutual
  pub of_thing : Thing → List (Special × Seq Bytes)
  of_thing (special s l) = (s, l) ∷ []
  of_thing (cmd_opt c o a) = of_paragraph o ++ of_paragraph a
  of_thing (cmd_arg c a) = of_paragraph a
  of_thing t = []

  pub of_paragraph : Paragraph → List (Special × Seq Bytes)
  of_paragraph (first t) = of_thing t
  of_paragraph (next p t) = of_paragraph p ++ of_thing t

abbrev pub of_paragraphs : Seq Paragraph → List (Special × Seq Bytes)
of_paragraphs (one p) = of_paragraph p
of_paragraphs (more l p) = of_paragraphs l ++ of_paragraph p

abbrev pub of_post : Post → List (Special × Seq Bytes)
of_post (paragraphs l) = of_paragraphs l
of_post empty = []

module _ (api : StrApi) (urls : Urls) where
  abbrev pub title_of : Special × Seq Bytes → Option (Option Bytes)
  title_of (title, v) = some (verb api urls v)
  title_of (s, v) = none

  abbrev pub published_of : Special × Seq Bytes → Option (Option Bytes)
  published_of (published, v) = some (verb api urls v)
  published_of (s, v) = none

  -- A photo of \twitterphoto is under the configured address.
  abbrev pub twitter_of : Special × Seq Bytes → Option (Option Bytes)
  twitter_of (twitterimg, v) = some (verb api urls v)
  twitter_of (twitterphoto, v) =
      some (some (api.str_cat (some urls.photo_base_url ∷ some (codes "/") ∷ verb api urls v ∷ [])))
  twitter_of (s, v) = none

  -- The values of the \tag commands, the last first.
  abbrev pub tags_back : List (Special × Seq Bytes) → List Bytes
  tags_back [] = []
  tags_back ((tag, v) ∷ l) = tags_back l ++ or_empty (verb api urls v) ∷ []
  tags_back ((s, v) ∷ l) = tags_back l

-- The last value that `f` has in a list, or the default.
abbrev pub last_or :
    Option Bytes
    → (Special × Seq Bytes → Option (Option Bytes))
    → List (Special × Seq Bytes)
    → Option Bytes
last_or dflt f [] = dflt
last_or dflt f (x ∷ l) = last_or (elim (f x) [ none ↦ dflt | some v ↦ v ]) f l

abbrev pub is_some : Option Bytes → Bool
is_some none = false
is_some (some s) = true

abbrev pub accepts : Tri → Bool → Bool
accepts required b = b
accepts prohibited true = false
accepts prohibited false = true
accepts allowed b = true

-- Whether the table lets a command have the option and the text that it has; an unknown command
-- may have both.
abbrev pub takes : Option Cmd → Bool → Bool → Bool
takes none o a = true
takes (some c) o a = accepts c.square o && accepts c.curly a

-- Only a paragraph that is one special command is without text.
abbrev pub thing_text : Thing → Bool
thing_text (special s l) = false
thing_text t = true

abbrev pub has_text : Paragraph → Bool
has_text (first t) = thing_text t
has_text (next p t) = true

abbrev mutual
  pub IsMeant : Thing → Type 0
  IsMeant (dash s) = IsRun 3 s
  IsMeant (oquot s) = IsRun 2 s
  IsMeant (cquot s) = IsRun 2 s
  IsMeant (schar s) = (s ≡ codes "\"") ⊎ ((s ≡ codes "<") ⊎ (s ≡ codes ">"))
  IsMeant (cmd_opt c o a) =
      IsMeantAll o × IsMeantAll a × (takes (find_cmd c) (has_text o) (has_text a) ≡ true)
  IsMeant (cmd_arg c a) = IsMeantAll a × (takes (find_cmd c) false (has_text a) ≡ true)
  IsMeant (cmd c) = takes (find_cmd c) false false ≡ true
  IsMeant t = Unit

  -- The tokens' texts are the scanner's, and every command has what the table asks for.
  pub IsMeantAll : Paragraph → Type 0
  IsMeantAll (first t) = IsMeant t
  IsMeantAll (next p t) = IsMeantAll p × IsMeant t

abbrev pub IsMeantPost : Post → Type 0
IsMeantPost (paragraphs l) = AllSeq IsMeantAll l
IsMeantPost empty = Unit
