-- ===== src/Pages/Submit.antt =====
-- comment.c, blahg_comment: the answer to a submitted comment; req.c, req_init: the variables that a
-- request begins with. Where a string of the configuration is NULL, `none` stands for it.
use blahgd.Prelude.{
  ℕ, ◌≡◌, refl, sym, String, List, [], ◌++◌, Option, none, some, Bytes, codes, subst,
}
use blahgd.Extern.Nvl.{NvlApi}
use blahgd.Extern.Query.{QueryApi}
use blahgd.Comment
use blahgd.Comment.{
  Message, internal_err, generic_err, useragent_missing, captcha_fail, missing_email, missing_name,
  missing_content, Result, ok, err, FsOp, Saved, panicked, saved, Config, save_comment,
}
use blahgd.Vars.{Vars, vars_init, vars_set, vars_lookup}
use blahgd.Vars.Laws.{vars_lookup-vars_set}
use blahgd.Sidebar.{TagVars}
use blahgd.Pages.{
  PageVal, str_val, int_val, posts_val, R, status_ok, no_body, rendered, req_head, set_var, sidebar,
  pushed, render,
}
use blahgd.Pages.Answers.{HasScope, inner, pushed_lem}

abbrev pub req_fields : Bytes
req_fields =
    codes "The required fields are: name, email address, the math field, and of course the content."

abbrev pub message_text : Message → Bytes
message_text internal_err =
    codes "Ouch!  Encountered an internal error.  Please contact me to resolve this issue."
message_text generic_err =
    codes
      "Somehow, your post is getting rejected. If your issues persist, contact me to resolve this issue."
message_text useragent_missing = codes "You need to send a user-agent."
message_text captcha_fail = codes "You need to get better at math."
message_text missing_email = codes "You need to supply a valid email address. " ++ req_fields
message_text missing_name = codes "You do have a name, right? " ++ req_fields
message_text missing_content = codes "No content? " ++ req_fields

-- What req_init reads of the configuration, and the time.
pub record Site : Type 0 where
  pub version_string : Bytes
  pub base_url : Bytes
  pub now : ℕ
  pub captcha_a : ℕ
  pub captcha_b : ℕ
  pub twitter_username : Option Bytes
  pub twitter_description : Option Bytes

module _ (nvl : NvlApi PageVal) (max_scopes : ℕ) where
  abbrev pub Rq : Type 0
  Rq = R nvl max_scopes

  abbrev pub set_opt : String → Option Bytes → Vars nvl.Nvl → Vars nvl.Nvl
  set_opt name none vars = vars
  set_opt name (some s) vars = vars_set nvl vars name (str_val s)

  -- __vars_set_social
  unfoldable pub vars_set_social : Site → Vars nvl.Nvl → Vars nvl.Nvl
  vars_set_social site vars =
      set_opt "twitterdesc" site.twitter_description
        (set_opt "twitteruser" site.twitter_username vars)

  abbrev pub set_in : String → PageVal → Vars nvl.Nvl → Vars nvl.Nvl
  set_in name v vars = vars_set nvl vars name v

  -- req_init; memset clears the options, and the response is as scgi has set it up.
  unfoldable pub req_init : Site → Rq
  unfolding vars_set_social
  req_init site = record {
    vars = vars_set_social site (
        set_in "posts" (posts_val []) (
          set_in "captcha_b" (int_val site.captcha_b) (
            set_in "captcha_a" (int_val site.captcha_a) (
              set_in "now" (int_val site.now) (
                set_in "baseurl" (str_val site.base_url)
                  (set_in "generatorversion" (str_val site.version_string) (vars_init nvl)))))));
    fmt = none;
    index_stories = 0;
    status = status_ok;
    headers = [];
    body = no_body;
  }

  -- How blahg_comment ends: an assertion fails, or it answers, with the operations on the file system.
  pub data Submitted : Type 0 where
    crashed : Submitted
    answered : List FsOp → Rq → Submitted

  abbrev pub comment_page : Rq → Saved → Submitted
  comment_page r panicked = crashed
  comment_page r (saved (ok u) ops) =
      answered ops (render nvl max_scopes (codes "{comment_saved}") r)
  comment_page r (saved (err m) ops) = answered ops (
      render nvl max_scopes (codes "{comment_error}")
        (set_var nvl max_scopes "comment_error_str" (str_val (message_text m)) r))

  abbrev pub with_page : Option Rq → Saved → Submitted
  with_page none s = crashed
  with_page (some r) s = comment_page r s

  module _ (api : QueryApi) (config : Config) (now : ℕ) (qstring_parse : Bytes → Option api.Query)
      (w : Comment.World) (req : Comment.Request api.Query) where
    unfoldable pub blahg_comment : List TagVars → Rq → Submitted
    unfolding req_head sidebar
    blahg_comment cloud r =
        with_page
          (pushed nvl max_scopes (
            sidebar nvl max_scopes cloud
              (req_head nvl max_scopes (codes "Content-Type") (codes "text/html") r)))
          (save_comment api config now qstring_parse w req)

    -- What the visitor is told agrees with what save_comment returns.
    abbrev pub Tells : Saved → Submitted → Type 0
    Tells panicked crashed = Unit
    Tells panicked (answered ops r) = ⊥
    Tells (saved x ops) crashed = ⊥
    Tells (saved (ok u) ops) (answered done r) =
        (done ≡ ops) × (r.body ≡ rendered (codes "{comment_saved}") r.vars)
    Tells (saved (err m) ops) (answered done r) =
        (done ≡ ops)
        × (r.body ≡ rendered (codes "{comment_error}") r.vars)
        × (vars_lookup nvl r.vars "comment_error_str" ≡ some (str_val (message_text m)))

    comment_page-Tells : (r : Rq) (s : Saved) → Tells s (comment_page r s)
    comment_page-Tells r panicked = tt
    comment_page-Tells r (saved (ok u) ops) = (refl, refl)
    comment_page-Tells r (saved (err m) ops) =
        (refl, refl, vars_lookup-vars_set nvl r.vars "comment_error_str" "comment_error_str" _)

    -- Where there is room for one more scope, blahg_comment answers with the page that says so if
    -- save_comment has saved the comment, and else with the page of errors, whose variable
    -- `comment_error_str` is the error; it stops where an assertion of save_comment fails.
    pub blahg_comment-Tells :
        (cloud : List TagVars) (r : Rq)
        → HasScope nvl max_scopes r
        → Tells (save_comment api config now qstring_parse w req) (blahg_comment cloud r)
    unfolding blahg_comment vars_set
    blahg_comment-Tells cloud r room =
        let s = save_comment api config now qstring_parse w req in
        let page : R nvl max_scopes =
          sidebar nvl max_scopes cloud
            (req_head nvl max_scopes (codes "Content-Type") (codes "text/html") r) in
        subst (λ o. Tells s (with_page o s)) (sym (pushed_lem nvl max_scopes page room))
          (comment_page-Tells (record page { vars = inner nvl max_scopes page.vars }) s)
