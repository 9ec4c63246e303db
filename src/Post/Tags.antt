-- ===== src/Post/Tags.antt =====
-- The set of a post's tags stays in strictly ascending order, so that no tag is in it twice.
use blahgd.Prelude.{
  ℕ, ◌≡◌, refl, sym, ◌∙◌, Bool, true, false, List, [], ◌∷◌, Option, none, some, if◌then◌else◌, ◌==◌,
  ◌++◌, not, Bytes, codes, strcasecmp, subst,
}
use blahgd.Extern.Rb.{RbApi}
use blahgd.Extern.Alist.{
  Alist, Val, int, str, bool, null, blob, sym as symbol, cons, char, array, nvl,
}
use blahgd.Post.{
  record_files, Post, World, Parsed, done, failed, panic, ◌>>=◌, set_file, with_file, add_tag,
  with_tags, post_add_tags, post_add_comment, post_add_comments, load_comment, append_comment,
  load_post_body_fmt3, load_post_body, refresh_published, post_refresh, is_moderated,
  refresh_published_prop, keep_or, time_or, must_refresh, path_of, post_dir,
}
use blahgd.Post.Fresh.{Done, Done-bind}
use blahgd.Post.TagOrder.{IsAscending, insert_sorted-IsAscending}

module _ (tags : RbApi Bytes strcasecmp) (w : World) where
  open tags use {Tree, find, insert, create, to_list}

  abbrev P : Type 0
  P = Post Tree

  -- A post has an id, and its tags are in strictly ascending order, whatever the case of their
  -- letters.
  pub record HasTagSet (i : ℕ) (p : P) : Type 0 where
    pub same_id : p.id ≡ i
    pub ascending : IsAscending (to_list p.tags)

  record SameTags (p q : P) : Type 0 where
    same : q.tags ≡ p.tags
    kept : q.id ≡ p.id

  add_tag-IsAscending :
      (t : Tree) (tag : Bytes)
      → IsAscending (to_list t)
      → IsAscending (to_list (add_tag tags w t tag))
  add_tag-IsAscending t tag a =
      elim (find t tag)
          as (λ o.
            find t tag ≡ o → IsAscending (to_list (elim o [ none ↦ insert t tag | some _ ↦ t ]))) [
              | none ↦ λ e.
                  rw (tags.to_list-insert t tag e)
                    (insert_sorted-IsAscending tag (to_list t) (sym (tags.find_lem t tag) ∙ e) a)
              | some x ↦ λ e. a
            ]
        refl

  abbrev IsTagSet : Option Tree → Type 0
  IsTagSet none = Unit
  IsTagSet (some t) = IsAscending (to_list t)

  post_add_tags-IsTagSet :
      (t : Tree) (l : List Val) → IsAscending (to_list t) → IsTagSet (post_add_tags tags w t l)
  unfolding post_add_tags
  post_add_tags-IsTagSet t [] a = a
  post_add_tags-IsTagSet t (str tag ∷ l) a =
      post_add_tags-IsTagSet (add_tag tags w t tag) l (add_tag-IsAscending t tag a)
  post_add_tags-IsTagSet t (int n ∷ l) a = tt
  post_add_tags-IsTagSet t (bool b ∷ l) a = tt
  post_add_tags-IsTagSet t (null ∷ l) a = tt
  post_add_tags-IsTagSet t (blob ∷ l) a = tt
  post_add_tags-IsTagSet t (symbol ∷ l) a = tt
  post_add_tags-IsTagSet t (cons ∷ l) a = tt
  post_add_tags-IsTagSet t (char ∷ l) a = tt
  post_add_tags-IsTagSet t (array ∷ l) a = tt
  post_add_tags-IsTagSet t (nvl ∷ l) a = tt

  -- Of the post that a file is read into, only the list of files changes.
  with_file_cases :
      {A : Type 0} (Q : A → Type 0) (p : P) (path : Bytes) (k : P → Bytes → A) (otherwise : A)
      → ((q : P) (text : Bytes) → SameTags p q → Q (k q text))
      → Q otherwise
      → Q (with_file tags w p path k otherwise)
  with_file_cases Q p path k otherwise f g =
      elim (w.file path)
        as (λ o. Q (elim o [
          | none ↦ otherwise
          | some (text, rev) ↦ k (record p { files = set_file path rev p.files }) text
        ])) [
          | none ↦ g
          | some (text, rev) ↦
              f (record p { files = set_file path rev p.files }) text
                (record { same = refl; kept = refl })
        ]

  SameTags-HasTagSet : (i : ℕ) (p q : P) → SameTags p q → HasTagSet i p → HasTagSet i q
  SameTags-HasTagSet i p q e h = record {
    same_id = e.kept ∙ h.same_id;
    ascending = subst (λ t. IsAscending (to_list t)) (sym e.same) h.ascending;
  }

  load_comment-SameTags :
      (p : P) (commid : ℕ) (lv : Alist) → SameTags p (load_comment tags w p commid lv)
  load_comment-SameTags p commid lv =
      with_file_cases (SameTags p) p _ (λ q text. append_comment tags w q commid lv text)
        (append_comment tags w p commid lv (codes "Error: could not load comment text."))
        (λ q text e. record { same = e.same; kept = e.kept }) (record { same = refl; kept = refl })

  post_add_comment-SameTags :
      (p : P) (commid : ℕ) → Done (SameTags p) (post_add_comment tags w p commid)
  unfolding post_add_comment
  post_add_comment-SameTags p commid =
      with_file_cases (Done (SameTags p)) p _ _ _ (λ q meta e. parsed q e (w.parse meta)) tt
    where
      moderated :
          (p' : P) (lv : Alist)
          → SameTags p p'
          → (b : Bool)
          → Done (SameTags p) (if b then done (load_comment tags w p' commid lv) else done p')
      moderated p' lv e true =
          let l : SameTags p' (load_comment tags w p' commid lv) =
            load_comment-SameTags p' commid lv in
          record { same = l.same ∙ e.same; kept = l.kept ∙ e.kept }
      moderated p' lv e false = e

      parsed :
          (p' : P)
          → SameTags p p'
          → (o : Option Alist)
          → Done (SameTags p) (elim o [
            | none ↦ panic
            | some lv ↦
                if is_moderated tags w (lv "moderated")
                then done (load_comment tags w p' commid lv)
                else done p'
          ])
      parsed p' e none = tt
      parsed p' e (some lv) = moderated p' lv e (is_moderated tags w (lv "moderated"))

  post_add_comments-HasTagSet :
      (i : ℕ) (p : P) (l : List Val)
      → HasTagSet i p
      → Done (HasTagSet i) (post_add_comments tags w p l)
  unfolding post_add_comments
  post_add_comments-HasTagSet i p [] h = h
  post_add_comments-HasTagSet i p (int commid ∷ l) h =
      Done-bind (SameTags p) (HasTagSet i) (post_add_comment tags w p commid) _
        (post_add_comment-SameTags p commid)
        (λ q e. post_add_comments-HasTagSet i q l (SameTags-HasTagSet i p q e h))
  post_add_comments-HasTagSet i p (str s ∷ l) h = tt
  post_add_comments-HasTagSet i p (bool b ∷ l) h = tt
  post_add_comments-HasTagSet i p (null ∷ l) h = tt
  post_add_comments-HasTagSet i p (blob ∷ l) h = tt
  post_add_comments-HasTagSet i p (symbol ∷ l) h = tt
  post_add_comments-HasTagSet i p (cons ∷ l) h = tt
  post_add_comments-HasTagSet i p (char ∷ l) h = tt
  post_add_comments-HasTagSet i p (array ∷ l) h = tt
  post_add_comments-HasTagSet i p (nvl ∷ l) h = tt

  load_post_body_fmt3-HasTagSet :
      (i : ℕ) (p : P) (input : Bytes)
      → HasTagSet i p
      → Done (HasTagSet i) (load_post_body_fmt3 tags w p input)
  unfolding load_post_body_fmt3
  load_post_body_fmt3-HasTagSet i p input h = go (w.fmt3_parse p.id input)
    where
      titled : Parsed → P
      titled x = record p {
        title = keep_or tags w x.sc_title p.title;
        time = time_or tags w x.sc_pub p.time;
        twitter_img = keep_or tags w x.sc_twitter_img p.twitter_img;
        files = record_files tags w x.cached p.files;
      }

      tagged :
          (p' : P) (output : Bytes) (o : Option Tree)
          → p'.id ≡ i
          → IsTagSet o
          → Done
              (HasTagSet i)
              (with_tags tags w p' o >>= λ q. done (record q { body = some output }))
      tagged p' output none e a = tt
      tagged p' output (some t) e a = record { same_id = e; ascending = a }

      go :
          (o : Option Parsed)
          → Done (HasTagSet i) (elim o [
            | none ↦ panic
            | some x ↦ with_tags tags w (titled x) (post_add_tags tags w p.tags x.sc_tags) >>= λ q.
                done (record q { body = some x.output })
          ])
      go none = tt
      go (some x) =
          tagged (titled x) x.output (post_add_tags tags w p.tags x.sc_tags) h.same_id
            (post_add_tags-IsTagSet p.tags x.sc_tags h.ascending)

  load_post_body-HasTagSet :
      (i : ℕ) (p : P) → HasTagSet i p → Done (HasTagSet i) (load_post_body tags w p)
  unfolding load_post_body
  load_post_body-HasTagSet i p h = go (p.fmt == 3)
    where
      go :
          (b : Bool)
          → Done (HasTagSet i) (
              if b
              then with_file tags w p
                  (path_of (post_dir tags w p ++ codes "/post.tex"))
                  (load_post_body_fmt3 tags w)
                  (failed p)
              else panic)
      go false = tt
      go true =
          with_file_cases (Done (HasTagSet i)) p (path_of (post_dir tags w p ++ codes "/post.tex"))
            (load_post_body_fmt3 tags w) (failed p)
            (λ q text e. load_post_body_fmt3-HasTagSet i q text (SameTags-HasTagSet i p q e h)) tt

  create-IsAscending : IsAscending (to_list create)
  create-IsAscending = rw tags.to_list-create tt

  refresh_published-HasTagSet :
      (i : ℕ) (p : P) → p.id ≡ i → Done (HasTagSet i) (refresh_published tags w p)
  unfolding refresh_published
  refresh_published-HasTagSet i p h =
      with_file_cases (Done (HasTagSet i)) p _ _ _ (λ q meta e. go q (e.kept ∙ h) (w.parse meta)) tt
    where
      tagged :
          (p' : P) (lv : Alist) (o : Option Tree)
          → p'.id ≡ i
          → IsTagSet o
          → Done (HasTagSet i) (
              with_tags tags w (refresh_published_prop tags w p' lv) o >>= λ q.
              post_add_comments tags w q (w.list_of lv "comments"))
      tagged p' lv none e a = tt
      tagged p' lv (some t) e a =
          post_add_comments-HasTagSet i _ (w.list_of lv "comments")
            (record { same_id = e; ascending = a })

      go :
          (p' : P)
          → p'.id ≡ i
          → (o : Option Alist)
          → Done (HasTagSet i) (elim o [
            | none ↦ failed p'
            | some lv ↦
                with_tags tags w
                  (refresh_published_prop tags w p' lv)
                  (post_add_tags tags w create (w.list_of lv "tags"))
                >>= λ q. post_add_comments tags w q (w.list_of lv "comments")
          ])
      go p' e none = tt
      go p' e (some lv) =
          tagged p' lv (post_add_tags tags w create (w.list_of lv "tags")) e
            (post_add_tags-IsTagSet create (w.list_of lv "tags") create-IsAscending)

  -- A successful refresh keeps a post's id, and its tags in strictly ascending order, whatever the case of their
  -- letters and however often the meta data and the text name one, so that none is there twice.
  pub post_refresh-HasTagSet :
      (i : ℕ) (p : P) → HasTagSet i p → Done (HasTagSet i) (post_refresh tags w p)
  unfolding post_refresh
  post_refresh-HasTagSet i p h = go (must_refresh tags w p) p.preview
    where
      go :
          (due preview : Bool)
          → Done (HasTagSet i) (
              if not due
              then done p
              else if preview
              then load_post_body tags w
                  (record p { files = []; title = some (codes "PREVIEW"); time = w.now; fmt = 3 })
              else refresh_published tags w (record p { files = []; title = none })
                >>= load_post_body tags w)
      go false b = h
      go true true =
          load_post_body-HasTagSet i _ (record { same_id = h.same_id; ascending = h.ascending })
      go true false =
          Done-bind (HasTagSet i) (HasTagSet i)
            (refresh_published tags w (record p { files = []; title = none })) _
            (refresh_published-HasTagSet i (record p { files = []; title = none }) h.same_id)
            (load_post_body-HasTagSet i)
