-- ===== src/Post/Refresh.antt =====
-- What holds of a post that has been read from its files, and when it is read again.
use blahgd.Prelude.{
  ℕ, ◌≡◌, refl, sym, ap, subst, ◌∙◌, append_assoc, Bool, true, false, List, [], ◌∷◌, ◌++◌, Option,
  none, some, ◌==◌, if◌then◌else◌, length, Bytes, codes, strcasecmp,
}
use blahgd.Extern.Rb.{RbApi}
use blahgd.Extern.Alist.{Alist}
use blahgd.Post.{
  record_file, record_files, Post, World, Outcome, done, failed, panic, ◌>>=◌, with_file, is_nil,
  with_tags, post_add_tags, post_add_comments, load_post_body_fmt3, load_post_body,
  refresh_published, must_refresh, post_refresh, post_dir, path_of, refresh_published_prop, Parsed,
  keep_or, time_or,
}
use blahgd.Post.Sources.{
  record_files-Records, tex_path, lisp_path, meta_of, comments_files, comments_of, cached_of,
  listings_of, files_of,
}
use blahgd.Post.Fresh.{
  Done, Done-bind, IsFresh, with_file_lem, set_file-nonempty, post_add_comments-IsFresh,
}

module _ (tags : RbApi Bytes strcasecmp) (w : World) where
  abbrev pub P : Type 0
  P = Post tags.Tree

  -- What the post is after its body has been read, too.
  pub record IsReadOf (i : ℕ) (seen : List Bytes) (p : P) : Type 0 where
    pub fresh : IsFresh tags w i seen p
    pub nonempty : is_nil p.files ≡ false
    pub has_body : (text : Bytes) × (p.body ≡ some text)

  abbrev pub IsRead : ℕ → P → Type 0
  IsRead i = IsReadOf i (files_of tags w i)

  record_file-nonempty :
      (o : Option (Bytes × ℕ)) (path : Bytes) (files : List (Bytes × ℕ))
      → is_nil files ≡ false
      → is_nil (record_file tags w o path files) ≡ false
  record_file-nonempty none path files n = n
  record_file-nonempty (some (text, rev)) path files n = set_file-nonempty tags w path rev files

  record_files-nonempty :
      (asked : List Bytes) (files : List (Bytes × ℕ))
      → is_nil files ≡ false
      → is_nil (record_files tags w asked files) ≡ false
  record_files-nonempty [] files n = n
  record_files-nonempty (path ∷ asked) files n =
      record_files-nonempty asked _ (record_file-nonempty (w.file path) path files n)

  load_post_body_fmt3-IsRead :
      (i : ℕ) (seen : List Bytes) (p : P) (input : Bytes)
      → IsFresh tags w i seen p
      → is_nil p.files ≡ false
      → Done
          (IsReadOf i (seen ++ cached_of tags w (w.fmt3_parse i input)))
          (load_post_body_fmt3 tags w p input)
  unfolding load_post_body_fmt3
  load_post_body_fmt3-IsRead i seen p input h n =
      subst
        (λ j.
          Done (IsReadOf i (seen ++ cached_of tags w (w.fmt3_parse j input)))
            (load_post_body_fmt3 tags w p input))
        h.same_id (go (w.fmt3_parse p.id input))
    where
      titled : Parsed → P
      titled x = record p {
        title = keep_or tags w x.sc_title p.title;
        time = time_or tags w x.sc_pub p.time;
        twitter_img = keep_or tags w x.sc_twitter_img p.twitter_img;
        files = record_files tags w x.cached p.files;
      }

      tagged :
          (x : Parsed) (o : Option tags.Tree)
          → Done
              (IsReadOf i (seen ++ x.cached))
              (with_tags tags w (titled x) o >>= λ p'. done (record p' { body = some x.output }))
      tagged x none = tt
      tagged x (some t) =
          let r = record_files-Records tags w seen x.cached p.files h.recorded h.records in
          record {
            fresh = record {
              same_id = h.same_id;
              counted = h.counted;
              recorded = r.0;
              records = r.1;
              kept = h.kept;
            };
            nonempty = record_files-nonempty x.cached p.files n;
            has_body = (x.output, refl);
          }

      go :
          (o : Option Parsed)
          → Done (IsReadOf i (seen ++ cached_of tags w o)) (elim o [
            | none ↦ panic
            | some x ↦ with_tags tags w (titled x) (post_add_tags tags w p.tags x.sc_tags) >>= λ p'.
                done (record p' { body = some x.output })
          ])
      go none = tt
      go (some x) = tagged x (post_add_tags tags w p.tags x.sc_tags)

  load_post_body-IsRead :
      (i : ℕ) (seen : List Bytes) (p : P)
      → IsFresh tags w i seen p
      → Done
          (IsReadOf i
            (seen ++ tex_path tags w i ∷ listings_of tags w i (w.file (tex_path tags w i))))
          (load_post_body tags w p)
  unfolding load_post_body
  load_post_body-IsRead i seen p h = go (p.fmt == 3)
    where
      Wanted : P → Type 0
      Wanted =
          IsReadOf i (seen ++ tex_path tags w i ∷ listings_of tags w i (w.file (tex_path tags w i)))

      go :
          (b : Bool)
          → Done Wanted (
              if b
              then with_file tags w p
                  (path_of (post_dir tags w p ++ codes "/post.tex"))
                  (load_post_body_fmt3 tags w)
                  (failed p)
              else panic)
      go false = tt
      go true =
          with_file_lem tags w (Done Wanted) i seen p _ (tex_path tags w i)
            (load_post_body_fmt3 tags w) (failed p) (ap (tex_path tags w) h.same_id)
            (λ p' text rev e h' n.
              subst (λ l. Done (IsReadOf i l) (load_post_body_fmt3 tags w p' text))
                (append_assoc seen (tex_path tags w i ∷ []) (cached_of tags w (w.fmt3_parse i text))
                  ∙ ap (λ o. seen ++ tex_path tags w i ∷ listings_of tags w i o) (sym e))
                (load_post_body_fmt3-IsRead i (seen ++ tex_path tags w i ∷ []) p' text h' n))
            (λ e. tt) h

  meta_files : ℕ → List Bytes
  meta_files i =
      lisp_path tags w i ∷ comments_of tags w i (meta_of tags w (w.file (lisp_path tags w i)))

  after_lisp : P → Option Alist → Outcome P
  after_lisp p' none = failed p'
  after_lisp p' (some lv) =
      with_tags tags w (refresh_published_prop tags w p' lv)
        (post_add_tags tags w tags.create (w.list_of lv "tags"))
      >>= λ p''. post_add_comments tags w p'' (w.list_of lv "comments")

  after_lisp-IsFresh :
      (i : ℕ) (p' : P)
      → IsFresh tags w i (lisp_path tags w i ∷ []) p'
      → (o : Option Alist)
      → Done (IsFresh tags w i (lisp_path tags w i ∷ comments_of tags w i o)) (after_lisp p' o)
  unfolding after_lisp
  after_lisp-IsFresh i p' h' o = go o
    where
      tagged :
          (lv : Alist) (o : Option tags.Tree)
          → Done
              (IsFresh tags w i
                (lisp_path tags w i ∷ comments_files tags w i (w.list_of lv "comments")))
              (with_tags tags w (refresh_published_prop tags w p' lv) o >>= λ p''.
                post_add_comments tags w p'' (w.list_of lv "comments"))
      tagged lv none = tt
      tagged lv (some t) =
          post_add_comments-IsFresh tags w i (lisp_path tags w i ∷ []) _ (w.list_of lv "comments")
            (record {
              same_id = h'.same_id;
              counted = refl;
              recorded = h'.recorded;
              records = h'.records;
              kept = h'.kept;
            })

      go :
          (o : Option Alist)
          → Done (IsFresh tags w i (lisp_path tags w i ∷ comments_of tags w i o)) (after_lisp p' o)
      go none = tt
      go (some lv) = tagged lv (post_add_tags tags w tags.create (w.list_of lv "tags"))

  refresh_published-IsFresh :
      (i : ℕ) (p : P)
      → IsFresh tags w i [] p
      → Done (IsFresh tags w i (meta_files i)) (refresh_published tags w p)
  unfolding refresh_published meta_files after_lisp
  refresh_published-IsFresh i p h =
      with_file_lem tags w (Done (IsFresh tags w i (meta_files i))) i [] p _ (lisp_path tags w i)
        (λ p' meta. after_lisp p' (w.parse meta)) (failed p) (ap (lisp_path tags w) h.same_id)
        (λ p' text rev e h' n.
          subst
            (λ o.
              Done (IsFresh tags w i (lisp_path tags w i ∷ comments_of tags w i (meta_of tags w o)))
                (after_lisp p' (w.parse text)))
            (sym e) (after_lisp-IsFresh i p' h' (w.parse text)))
        (λ e. tt) h

  refreshed :
      (i : ℕ) (p : P)
      → IsFresh tags w i [] p
      → Done (IsRead i) (refresh_published tags w p >>= load_post_body tags w)
  unfolding meta_files
  refreshed i p h =
      Done-bind (IsFresh tags w i (meta_files i)) (IsRead i) (refresh_published tags w p)
        (load_post_body tags w) (refresh_published-IsFresh i p h)
        (load_post_body-IsRead i (meta_files i))

  -- A published post that counts its comments and is due to be read again keeps its number and counts
  -- its comments after a successful refresh, too, has a body, and records, each with the revision that
  -- it has read, exactly those of its files that can be read: its meta data, the meta data of each
  -- comment that these list, the text of each comment that is moderated, the text of the post and
  -- the files that the text's parser has read. Any test of a file and its revision holds of one of
  -- its records if and only if it holds of one of these files as it is now.
  pub post_refresh-IsRead :
      (p : P)
      → p.preview ≡ false
      → p.numcom ≡ length p.comments
      → must_refresh tags w p ≡ true
      → Done (IsRead p.id) (post_refresh tags w p)
  unfolding post_refresh
  post_refresh-IsRead p published counted due =
      rw (due, published)
        (refreshed p.id (record p { preview = false; files = []; title = none })
          (record {
            same_id = refl;
            counted = counted;
            recorded = tt;
            records = λ f. refl;
            kept = refl;
          }))
