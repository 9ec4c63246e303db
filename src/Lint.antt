-- ===== src/Lint.antt =====
-- lisplint.c: the checks of a post's, a comment's and the configuration's meta data.
pub mod Laws
pub mod Main
mod Tests
use blahgd.Prelude.{
  ℕ, Bool, true, false, not, ◌&&◌, ◌||◌, String, Option, none, some, ◌==◌, if◌then◌else◌, List, [],
  ◌∷◌,
}
use blahgd.Extern.Alist.{Alist, Val, int, str, bool, cons}

-- enum val_type, as far as it is expected
pub data ValType : Type 0 where
  vt_int vt_str vt_bool vt_cons vt_other : ValType

abbrev pub type_of : Val → ValType
type_of (int n) = vt_int
type_of (str s) = vt_str
type_of (bool b) = vt_bool
type_of cons = vt_cons
type_of _ = vt_other

abbrev pub same_type : ValType → ValType → Bool
same_type vt_int vt_int = true
same_type vt_str vt_str = true
same_type vt_bool vt_bool = true
same_type vt_cons vt_cons = true
same_type vt_other vt_other = true
same_type _ _ = false

abbrev pub typed : Option Val → ValType → Bool → Bool
typed none type mandatory = not mandatory
typed (some v) type mandatory = same_type (type_of v) type

unfoldable pub check_type : Alist → String → ValType → Bool → Bool
check_type lv varname type mandatory = typed (lv varname) type mandatory

-- `ret = check_type(...) && ret`, for a row of checks.
abbrev pub published_checks : Alist → Bool
published_checks lv =
    check_type lv "listed" vt_bool false
    && (check_type lv "comments" vt_cons false
        && (check_type lv "cats" vt_cons false
            && (check_type lv "tags" vt_cons false
                && (check_type lv "title" vt_str true && check_type lv "time" vt_str true))))

abbrev pub check_fmt : Alist → ℕ → Bool
check_fmt lv fmt =
    if fmt == 1 || (fmt == 2 || fmt == 3)
    then published_checks lv
    else if fmt == 4
    then true
    else false

abbrev pub check_fmtval : Alist → Option Val → Bool
check_fmtval lv none = false
check_fmtval lv (some (int fmt)) = check_fmt lv fmt
check_fmtval lv (some _) = false

unfoldable pub check_post : Alist → Bool
unfolding check_type
check_post lv = check_fmtval lv (lv "fmt")

unfoldable pub check_comment : Alist → Bool
unfolding check_type
check_comment lv =
    check_type lv "moderated" vt_bool true
    && (check_type lv "url" vt_str false
        && (check_type lv "ip" vt_str false
            && (check_type lv "time" vt_str true
                && (check_type lv "email" vt_str true && check_type lv "author" vt_str true))))

abbrev pub all_optional : Alist → ValType → List String → Bool
all_optional lv type [] = true
all_optional lv type (name ∷ names) = check_type lv name type false && all_optional lv type names

abbrev pub config_ints : List String
config_ints =
    "scgi-port" ∷ "scgi-threads" ∷ "html-index-stories" ∷ "feed-index-stories" ∷ "comment-max-think"
    ∷ "comment-min-think" ∷ "comment-captcha-a" ∷ "comment-captcha-b" ∷ "tagcloud-min-size"
    ∷ "tagcloud-max-size" ∷ []

abbrev pub config_strs : List String
config_strs =
    "data-dir" ∷ "web-dir" ∷ "template-dir" ∷ "base-url" ∷ "bug-base-url" ∷ "wiki-base-url"
    ∷ "photo-base-url" ∷ []

-- The checks of one type stand together here; their order decides only that of the messages.
unfoldable pub check_config : Alist → Bool
unfolding check_type
check_config lv =
    all_optional lv vt_int config_ints
    && (all_optional lv vt_str config_strs && check_type lv "category-to-tag" vt_cons false)
