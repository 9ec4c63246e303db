-- ===== src/Comment/Write.antt =====
-- comment.c, write_out_comment: the files of a comment are written to a directory, which is then renamed.
use blahgd.Prelude.{
  ℕ, zero, suc, ◌+◌, ◌-◌, ◌/◌, ◌%◌, ◌^◌, leb, signed, String, false, Bool, not, ◌&&◌, List, [], ◌∷◌,
  ◌++◌, Option, none, some, ltb, if◌then◌else◌, length, take, Bytes, codes,
}
use blahgd.Extern.Query.{Found}
use blahgd.Comment.Fetch.{
  Strings, Message, internal_err, generic_err, Result, ok, err, Ref, email, author, comment, url,
}

-- A value of the list of the meta data. `remote` is what the lookup in the request's headers returns.
pub data MetaVal : Type 0 where
  meta_str : Option Bytes → MetaVal
  remote : Found Bytes → MetaVal
  flag : Bool → MetaVal

-- What the world answers while a comment is written: whether get_post finds the post of an id, the
-- time in nanoseconds, the number that atomic_inc returns, the formatted date of a time in seconds
-- unless gmtime fails, the serialised list of the meta data, and whether the calls on the file system
-- succeed. That get_post may load the post is left out.
pub record World : Type 0 where
  pub post_exists : ℕ → Bool
  pub data_dir : Bytes
  pub now : ℕ
  pub nonce : ℕ
  pub curdate : ℕ → Option Bytes
  pub sexpr_dump : List (String × MetaVal) → Option Bytes
  pub mkdir_ok : Bool
  pub text_ok : Bool
  pub lisp_ok : Bool
  pub rename_ok : Bool

pub data FsOp : Type 0 where
  mkdir : Bytes → FsOp
  write_file : Bytes → Bytes → FsOp
  rename : Bytes → Bytes → FsOp

-- How write_out_comment ends: by a failed assertion or a return, with the operations on the file
-- system that succeeded and the references that were put, in order.
pub data Written : Type 0 where
  panic : Written
  returned : Result (Unit {0}) → List FsOp → List Ref → Written

abbrev pub hex_digit : ℕ → ℕ
hex_digit n = if leb n 9 then b'0' + n else b'a' + (n - 10)

-- "%x": sixteen digits are enough for 64 bits.
unfoldable pub hex_digits : ℕ → ℕ → Bytes
hex_digits zero n = []
hex_digits (suc fuel) n =
    let more = hex_digits fuel (n / 16) ++ hex_digit (n % 16) ∷ [] in
    if leb n 15 then hex_digit n ∷ [] else more

abbrev pub zeros : ℕ → Bytes → Bytes
zeros zero s = s
zeros (suc n) s = b'0' ∷ zeros n s

-- "%08lx" for a width of eight, "%05x" for one of five.
unfoldable pub hex : ℕ → ℕ → Bytes
unfolding hex_digits
hex width n = let s = hex_digits 16 n in zeros (width - length s) s

abbrev pub now_sec : World → ℕ
now_sec w = w.now / 1000000000

abbrev pub now_nsec : World → ℕ
now_nsec w = w.now % 1000000000

-- The format of `basepath`.
abbrev pub base_name : World → ℕ → Bytes
base_name w id =
    w.data_dir
    ++ codes "/pending-comments/"
    ++ signed id
    ++ codes "-"
    ++ hex 8 (now_sec w)
    ++ codes "."
    ++ hex 8 (now_nsec w)
    ++ codes "."
    ++ hex 5 (w.nonce % 2 ^ 32)

-- prep_meta_sexpr, of the strings, the date and the remote address.
abbrev pub prep_meta_sexpr : World → Strings → Bytes → Found Bytes → Option Bytes
prep_meta_sexpr w s curdate ip = w.sexpr_dump (
    ("author", meta_str s.author)
    ∷ ("email", meta_str s.email)
    ∷ ("time", meta_str (some curdate))
    ∷ ("ip", remote ip)
    ∷ ("url", meta_str s.url)
    ∷ ("moderated", flag false)
    ∷ [])

-- snprintf into FILENAME_MAX bytes.
abbrev pub filename_max : ℕ
filename_max = 4096

abbrev pub snprintf : Bytes → Bytes
snprintf s = take (filename_max - 1) s

abbrev pub all_refs : List Ref
all_refs = author ∷ email ∷ url ∷ comment ∷ []

abbrev pub fail : Message → List FsOp → List Ref → Written
fail m ops puts = returned (err m) ops (puts ++ all_refs)

-- val_putref of the meta data's list puts the strings that it was made of.
abbrev pub meta_refs : List Ref
meta_refs = author ∷ email ∷ url ∷ []

-- The content of the comment's file, where `comment` is a string.
abbrev pub content : Option Bytes → Bytes
content none = []
content (some s) = s

abbrev pub fits : Bytes → Bool
fits path = ltb (length path) (filename_max - 1)

-- The three asserted path names, for the directory to be renamed to `basepath`.
pub record Paths : Type 0 where
  pub basepath : Bytes
  pub dirpath : Bytes
  pub textpath : Bytes
  pub lisppath : Bytes

abbrev pub paths_of : Bytes → Paths
paths_of base_name =
    let basepath = snprintf base_name in
    let dirpath = snprintf (basepath ++ codes "W") in
    record {
      basepath = basepath;
      dirpath = dirpath;
      textpath = snprintf (dirpath ++ codes "/text.txt");
      lisppath = snprintf (dirpath ++ codes "/meta.lisp");
    }

abbrev pub paths_fit : Paths → Bool
paths_fit p = fits p.dirpath && (fits p.textpath && fits p.lisppath)

abbrev pub texted : Paths → Bytes → List FsOp
texted p text = mkdir p.dirpath ∷ write_file p.textpath text ∷ []

-- From the meta data on; the results are those of sexpr_dump, write_file and xrename.
abbrev pub write_meta : Option Bytes → Bool → Bool → Paths → Bytes → Written
write_meta none lisp_ok rename_ok p text = fail internal_err (texted p text) meta_refs
write_meta (some meta) lisp_ok rename_ok p text =
    if not lisp_ok
    then fail internal_err (texted p text) meta_refs
    else if not rename_ok
    then fail internal_err (texted p text ++ write_file p.lisppath meta ∷ []) meta_refs
    else returned (ok tt)
        (texted p text ++ (write_file p.lisppath meta ∷ rename p.dirpath p.basepath ∷ [])) meta_refs

-- From the asserted lengths on; `meta` is the result of prep_meta_sexpr.
abbrev pub write_text : Bool → World → Option Bytes → Paths → Bytes → Written
write_text fit w meta p text =
    if not fit
    then panic
    else if not w.mkdir_ok
    then fail internal_err [] []
    else if not w.text_ok
    then fail internal_err (mkdir p.dirpath ∷ []) []
    else write_meta meta w.lisp_ok w.rename_ok p text

-- `ip` is the remote address that is looked up in the request's headers.
unfoldable pub write_out_comment : World → Found Bytes → ℕ → Strings → Written
unfolding signed hex
write_out_comment w ip id s =
    let p = paths_of (base_name w id) in
    if not (w.post_exists id) then fail generic_err [] [] else elim (w.curdate (now_sec w)) [
      | none ↦ fail internal_err [] []
      | some curdate ↦
          write_text (paths_fit p) w (prep_meta_sexpr w s curdate ip) p (content s.comment)
    ]
