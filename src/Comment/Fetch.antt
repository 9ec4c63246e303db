-- ===== src/Comment/Fetch.antt =====
-- comment.c: the error strings, and get_strings with the references to the strings that it fetches.
use blahgd.Prelude.{Bool, true, false, List, [], ◌∷◌, Option, none, some, if◌then◌else◌, Bytes}
use blahgd.Extern.Query.{Found, found, noent, error}

-- The error strings.
pub data Message : Type 0 where
  internal_err generic_err useragent_missing captcha_fail : Message
  missing_email missing_name missing_content : Message

-- The result of a function that returns an error string or NULL, with what it stores on NULL.
pub data Result (A : Type 0) : Type 0 where
  ok : A → Result A
  err : Message → Result A

infixl 5 ◌>>=◌
abbrev pub ◌>>=◌ : {A B : Type 0} → Result A → (A → Result B) → Result B
ok a >>= k = k a
err m >>= k = err m

abbrev pub require : Bool → Message → Result (Unit {0})
require true m = ok tt
require false m = err m

infixl 5 ◌>>◌
abbrev pub ◌>>◌ : {B : Type 0} → Result (Unit {0}) → Result B → Result B
m >> k = m >>= λ _. k

-- The strings that are fetched, by the variable that holds the reference.
pub data Ref : Type 0 where
  email author comment url : Ref

-- A string with the references held so far, newest first.
pub record Held (A : Type 0) : Type 0 where
  pub value : A
  pub refs : List Ref

-- get_str: an empty string is put and becomes an error or NULL; any other is held.
abbrev pub fetched : Ref → Option Message → List Ref → Found Bytes → Held (Result (Option Bytes))
fetched r e refs (found (c ∷ s)) = record { value = ok (some (c ∷ s)); refs = r ∷ refs }
fetched r none refs (found []) = record { value = ok none; refs = refs }
fetched r (some m) refs (found []) = record { value = err m; refs = refs }
fetched r e refs noent = record { value = err generic_err; refs = refs }
fetched r e refs error = record { value = err generic_err; refs = refs }

-- The strings of a comment. The first three are never NULL where this is returned.
pub record Strings : Type 0 where
  pub email : Option Bytes
  pub author : Option Bytes
  pub comment : Option Bytes
  pub url : Option Bytes

-- str_putref drops one reference.
abbrev pub is_ref : Ref → Ref → Bool
is_ref email email = true
is_ref author author = true
is_ref comment comment = true
is_ref url url = true
is_ref _ _ = false

abbrev pub put : Ref → List Ref → List Ref
put r [] = []
put r (q ∷ refs) = if is_ref r q then refs else q ∷ put r refs

-- get_strings on what the four lookups return, with the labels err_comment, err_author, err_email.
abbrev pub with_url :
    Option Bytes
    → Option Bytes
    → Option Bytes
    → Held (Result (Option Bytes))
    → Held (Result Strings)
with_url e a c h = elim h.value [
  | err m ↦ record { value = err m; refs = put email (put author (put comment h.refs)) }
  | ok u ↦ record {
    value = ok (record { email = e; author = a; comment = c; url = u });
    refs = h.refs;
  }
]

abbrev pub with_comment :
    Found Bytes → Option Bytes → Option Bytes → Held (Result (Option Bytes)) → Held (Result Strings)
with_comment u e a h = elim h.value [
  | err m ↦ record { value = err m; refs = put email (put author h.refs) }
  | ok c ↦ with_url e a c (fetched url none h.refs u)
]

abbrev pub with_author :
    Found Bytes → Found Bytes → Option Bytes → Held (Result (Option Bytes)) → Held (Result Strings)
with_author c u e h = elim h.value [
  | err m ↦ record { value = err m; refs = put email h.refs }
  | ok a ↦ with_comment u e a (fetched comment (some missing_content) h.refs c)
]

abbrev pub with_email :
    Found Bytes → Found Bytes → Found Bytes → Held (Result (Option Bytes)) → Held (Result Strings)
with_email a c u h = elim h.value [
  | err m ↦ record { value = err m; refs = h.refs }
  | ok e ↦ with_author c u e (fetched author (some missing_name) h.refs a)
]

unfoldable pub strings_of :
    Found Bytes → Found Bytes → Found Bytes → Found Bytes → Held (Result Strings)
strings_of e a c u = with_email a c u (fetched email (some missing_email) [] e)
