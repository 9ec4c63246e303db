-- ===== src/Comment.antt =====
-- comment.c: a submitted comment is checked and written to the directory of pending comments.
mod Fetch
mod Write
pub mod Spam
pub mod Store
pub mod Save
mod Tests
use blahgd.Prelude.{
  ℕ, ◌+◌, ◌-◌, ◌*◌, ◌/◌, ◌%◌, ◌^◌, Bool, true, false, not, ◌&&◌, ◌||◌, List, [], ◌∷◌, ◌++◌, Option,
  none, some, ltb, ◌==◌, if◌then◌else◌, length, take, Bytes, codes,
}
use blahgd.Extern.Query.{QueryApi, Found, found, noent, error}
use blahgd.Comment.Fetch.{
  Message, generic_err, captcha_fail, useragent_missing, internal_err, missing_name, Result, ok,
  err, require, ◌>>=◌, ◌>>◌, Held, Strings, strings_of,
}
unfoldable pub use Fetch.*
unfoldable pub use Write.*

pub record Config : Type 0 where
  pub comment_max_think : ℕ
  pub comment_min_think : ℕ
  pub comment_captcha_a : ℕ
  pub comment_captcha_b : ℕ

abbrev pub int_max : ℕ
int_max = 2 ^ 31 - 1

-- 1000000000ull * think, in 64 bits.
abbrev pub nanoseconds : ℕ → ℕ
nanoseconds think = (1000000000 * think) % 2 ^ 64

abbrev pub or_generic {ℓ} : {A : Type ℓ} → Option A → (A → Result (Unit {0})) → Result (Unit {0})
or_generic none k = err generic_err
or_generic (some a) k = k a

abbrev pub check_empty : Found Bytes → Result (Unit {0})
check_empty (found []) = ok tt
check_empty (found (c ∷ s)) = err generic_err
check_empty noent = err generic_err
check_empty error = err generic_err

abbrev pub check_think : Config → ℕ → ℕ → Result (Unit {0})
check_think config now date =
    let deltat = (now + 2 ^ 64 - date) % 2 ^ 64 in
    if ltb (nanoseconds config.comment_max_think) deltat
      || ltb deltat (nanoseconds config.comment_min_think)
    then err generic_err
    else ok tt

abbrev pub check_captcha : Config → ℕ → Result (Unit {0})
check_captcha config captcha =
    if captcha == (config.comment_captcha_a + config.comment_captcha_b) % 2 ^ 64
    then ok tt
    else err captcha_fail

-- A request as far as save_comment reads it; `body` is the parsed query string of its body, `none`
-- where qstring_parse fails.
pub record Request (Q : Type 0) : Type 0 where
  pub headers : Q
  pub body : Option Bytes

-- How save_comment ends: an assertion fails, or it returns with the operations that succeeded.
pub data Saved : Type 0 where
  panicked : Saved
  saved : Result (Unit {0}) → List FsOp → Saved

abbrev pub saved_of : Written → Saved
saved_of panic = panicked
saved_of (returned r ops puts) = saved r ops

-- The rest of save_comment, after a step that may fail.
abbrev pub then_save : {A : Type 0} → Result A → (A → Saved) → Saved
then_save (err m) k = saved (err m) []
then_save (ok a) k = k a

module _ (api : QueryApi) where
  open api use {
    Query, lookup_str, lookup_int, exists_type, convert, scgi_http_user_agent, scgi_remote_addr,
  }

  unfoldable pub get_postid : Query → Result ℕ
  get_postid qs = elim (lookup_int qs "i") [
    | none ↦ err generic_err
    | some id ↦ if ltb int_max id then err generic_err else ok id
  ]

  unfoldable pub spam_check : Config → ℕ → Query → Result (Unit {0})
  spam_check config now qs = do
    check_empty (lookup_str qs "x")
    or_generic (lookup_int qs "d") (check_think config now)
    or_generic (lookup_int qs "v") (check_captcha config)

  unfoldable pub get_strings : Query → Held (Result Strings)
  unfolding strings_of
  get_strings qs =
      strings_of (lookup_str qs "e") (lookup_str qs "a") (lookup_str qs "c") (lookup_str qs "u")

  -- qstring_parse and nvl_convert
  abbrev pub parsed : (Bytes → Option Query) → Option Bytes → Result Query
  parsed qstring_parse none = err internal_err
  parsed qstring_parse (some body) = elim (qstring_parse body) [
    | none ↦ err generic_err
    | some qs ↦ elim (convert ("d" ∷ "i" ∷ "v" ∷ []) qs) [
      | none ↦ err generic_err
      | some qs' ↦ ok qs'
    ]
  ]

  -- The checks of save_comment, up to the strings, with the id of the post: every error is returned before anything is
  -- written.
  unfoldable pub checked :
      Config → ℕ → (Bytes → Option Query) → Request Query → Result (ℕ × Strings)
  unfolding get_postid spam_check get_strings
  checked config now qstring_parse req = do
    require (not (exists_type req.headers scgi_http_user_agent)) useragent_missing
    require (not (exists_type req.headers scgi_remote_addr)) internal_err
    qs ← parsed qstring_parse req.body
    id ← get_postid qs
    spam_check config now qs
    s ← (get_strings qs).value
    ok (id, s)

  unfoldable pub save_comment : Config → ℕ → (Bytes → Option Query) → World → Request Query → Saved
  unfolding checked write_out_comment
  save_comment config now qstring_parse w req =
      then_save (checked config now qstring_parse req)
        λ (id, s). saved_of (write_out_comment w (lookup_str req.headers scgi_remote_addr) id s)
