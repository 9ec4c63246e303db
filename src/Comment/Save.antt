-- ===== src/Comment/Save.antt =====
-- get_strings and save_comment as a whole.
use blahgd.Prelude.{
  subst, true, false, ℕ, ◌≡◌, refl, not, [], ◌∷◌, ◌++◌, List, Option, none, some, Bytes, All,
}
use blahgd.Extern.Query.{QueryApi, Found, found, noent, error}
use blahgd.Comment.{
  base_name, now_sec, prep_meta_sexpr, paths_fit, paths_of, Result, ok, err, ◌>>=◌, require, Ref,
  email, author, comment, url, Held, Strings, strings_of, Config, World, write_out_comment, Written,
  panic, returned, Saved, panicked, saved, saved_of, then_save, Request, get_postid, spam_check,
  get_strings, parsed, checked, save_comment, content, useragent_missing, internal_err,
}
use blahgd.Comment.Store.{publication, IsRename, Publishes, write_out_comment-Publishes}

abbrev pub IsFilled : Option Bytes → Type 0
IsFilled none = ⊥
IsFilled (some []) = ⊥
IsFilled (some (c ∷ s)) = Unit

abbrev pub url_refs : Option Bytes → List Ref
url_refs none = []
url_refs (some s) = url ∷ []

-- What get_strings leaves behind.
abbrev pub IsBalanced : Held (Result Strings) → Type 0
IsBalanced h = elim h.value [
  | err m ↦ h.refs ≡ []
  | ok s ↦
      IsFilled s.email
      × IsFilled s.author
      × IsFilled s.comment
      × (h.refs ≡ url_refs s.url ++ comment ∷ author ∷ email ∷ [])
]

-- When get_strings returns an error, it holds none of the strings that it has fetched; when it
-- returns NULL, the email, the author and the comment are not empty, and it holds one reference to
-- each of them, and one to the url if that is not empty.
pub strings_of-IsBalanced : (e a c u : Found Bytes) → IsBalanced (strings_of e a c u)
unfolding strings_of
strings_of-IsBalanced noent a c u = refl
strings_of-IsBalanced error a c u = refl
strings_of-IsBalanced (found []) a c u = refl
strings_of-IsBalanced (found (x ∷ e)) noent c u = refl
strings_of-IsBalanced (found (x ∷ e)) error c u = refl
strings_of-IsBalanced (found (x ∷ e)) (found []) c u = refl
strings_of-IsBalanced (found (x ∷ e)) (found (y ∷ a)) noent u = refl
strings_of-IsBalanced (found (x ∷ e)) (found (y ∷ a)) error u = refl
strings_of-IsBalanced (found (x ∷ e)) (found (y ∷ a)) (found []) u = refl
strings_of-IsBalanced (found (x ∷ e)) (found (y ∷ a)) (found (z ∷ c)) noent = refl
strings_of-IsBalanced (found (x ∷ e)) (found (y ∷ a)) (found (z ∷ c)) error = refl
strings_of-IsBalanced (found (x ∷ e)) (found (y ∷ a)) (found (z ∷ c)) (found []) =
    (tt, tt, tt, refl)
strings_of-IsBalanced (found (x ∷ e)) (found (y ∷ a)) (found (z ∷ c)) (found (v ∷ u)) =
    (tt, tt, tt, refl)

-- A successful chain has succeeded at each link.
bind_ok :
    {A B : Type 0} (m : Result A) (k : A → Result B) {b : B}
    → (m >>= k) ≡ ok b
    → (a : A) × (m ≡ ok a) × (k a ≡ ok b)
bind_ok (ok a) k h = (a, refl, h)
bind_ok (err m) k h = cc

ok_injective : {A : Type 0} {a b : A} → ok a ≡ ok b → a ≡ b
ok_injective h = cc

module _ (api : QueryApi) (config : Config) (now : ℕ) (qstring_parse : Bytes → Option api.Query)
    (req : Request api.Query) where
  -- All the checks that come before anything is written have been passed.
  pub record Passed (id : ℕ) (s : Strings) : Type 0 where
    pub agent :
        require (not (api.exists_type req.headers api.scgi_http_user_agent)) useragent_missing
        ≡ ok tt
    pub remote :
        require (not (api.exists_type req.headers api.scgi_remote_addr)) internal_err ≡ ok tt
    pub qs : api.Query
    pub parses : parsed api qstring_parse req.body ≡ ok qs
    pub postid : get_postid api qs ≡ ok id
    pub no_spam : spam_check api config now qs ≡ ok tt
    pub strings : (get_strings api qs).value ≡ ok s

  checked-Passed :
      (r : ℕ × Strings) → checked api config now qstring_parse req ≡ ok r → Passed r.0 r.1
  unfolding checked
  checked-Passed r h =
      let (a, ea, h1) = bind_ok _ _ h in
      let (b, eb, h2) = bind_ok _ _ h1 in
      let (qs, eq, h3) = bind_ok _ _ h2 in
      let (id, ei, h4) = bind_ok _ _ h3 in
      let (c, ec, h5) = bind_ok _ _ h4 in
      let (t, et, h6) = bind_ok _ _ h5 in
      let same : ◌≡◌ {A = ℕ × Strings} (id, t) r = ok_injective h6 in
      subst (λ q. Passed q.0 q.1) same
        (record {
          agent = ea;
          remote = eb;
          qs = qs;
          parses = eq;
          postid = ei;
          no_spam = ec;
          strings = et;
        })

  -- The remote address of the request.
  abbrev pub address : Found Bytes
  address = api.lookup_str req.headers api.scgi_remote_addr

  -- What holds of each way in which save_comment ends.
  abbrev pub Saves : World → Saved → Type 0
  Saves w panicked =
      (id : ℕ) × (s : Strings) × Passed id s × (paths_fit (paths_of (base_name w id)) ≡ false)
  Saves w (saved (ok _) ops) =
      (id : ℕ) × (s : Strings) × (date : Bytes) × (meta : Bytes) × Passed id s
      × (w.post_exists id ≡ true)
      × (w.curdate (now_sec w) ≡ some date)
      × (prep_meta_sexpr w s date address ≡ some meta)
      × (ops ≡ publication (base_name w id) (content s.comment) meta)
  Saves w (saved (err m) ops) = All (λ o. ¬ IsRename o) ops

  saved_of-Saves :
      (w : World) (id : ℕ) (s : Strings) (r : Written)
      → Passed id s
      → Publishes w address id s r
      → Saves w (saved_of r)
  saved_of-Saves w id s panic h k = (id, s, h, k)
  saved_of-Saves w id s (returned (ok _) ops puts) h k = (id, s, k.0, k.1, h, k.2, k.3, k.4, k.5)
  saved_of-Saves w id s (returned (err m) ops puts) h k = k

  then_save-Saves :
      (w : World) (r : Result (ℕ × Strings))
      → ((q : ℕ × Strings) → r ≡ ok q → Passed q.0 q.1)
      → Saves w (then_save r λ (id, s). saved_of (write_out_comment w address id s))
  then_save-Saves w (err m) h = tt
  then_save-Saves w (ok (id, s)) h =
      saved_of-Saves w id s (write_out_comment w address id s) (h (id, s) refl)
        (write_out_comment-Publishes w address id s)

  -- When save_comment returns NULL, the request has passed every check, the post that it names exists,
  -- and its comment has been published with its text, under a name of the post's id and with meta data
  -- of its strings, the date and the remote address; when it returns an error, nothing has been
  -- renamed to its place; and an assertion fails only in a request that has passed the checks before
  -- the post is looked up, and only where a name of its files does not fit into FILENAME_MAX - 1
  -- bytes.
  pub save_comment-Saves : (w : World) → Saves w (save_comment api config now qstring_parse w req)
  unfolding save_comment
  save_comment-Saves w = then_save-Saves w (checked api config now qstring_parse req) checked-Passed
