-- ===== src/Post/Fresh.antt =====
-- What holds of a post while it is read from its files: the meta data and the comments.
use blahgd.Prelude.{
  ℕ, ◌≡◌, refl, sym, ap, subst, append_assoc, append-nil, Bool, true, false, List, [], ◌∷◌, ◌++◌,
  Option, none, some, arith, if◌then◌else◌, length, length-append, Bytes, strcasecmp, bytes_eq,
  Bool-cases, inl, inr,
}
use blahgd.Extern.Rb.{RbApi}
use blahgd.Extern.Alist.{
  Alist, Val, int, str, bool, null, blob, sym as symbol, cons, char, array, nvl,
}
use blahgd.Post.{
  Post, World, Outcome, done, failed, panic, ◌>>=◌, set_file, with_file, is_nil, post_add_comment,
  post_add_comments, load_comment, is_moderated, append_comment,
}
use blahgd.Post.Sources.{
  IsRecorded, Records, record_file-Records, text_path, meta_path, meta_of, if_moderated,
  comment_files, comments_files,
}

-- What is claimed of a post where the outcome is one.
abbrev pub Done : {P : Type 0} → (P → Type 0) → Outcome P → Type 0
Done Q (done p) = Q p
Done Q (failed p) = Unit
Done Q panic = Unit

pub Done-bind :
    {P : Type 0} (Q R : P → Type 0) (o : Outcome P) (k : P → Outcome P)
    → Done Q o
    → ((p : P) → Q p → Done R (k p))
    → Done R (o >>= k)
Done-bind Q R (done p) k h f = f p h
Done-bind Q R (failed p) k h f = tt
Done-bind Q R panic k h f = tt

module _ (tags : RbApi Bytes strcasecmp) (w : World) where
  abbrev P : Type 0
  P = Post tags.Tree

  -- The post is number `i` and no preview, counts its comments, and records the files `seen`.
  pub record IsFresh (i : ℕ) (seen : List Bytes) (p : P) : Type 0 where
    pub same_id : p.id ≡ i
    pub counted : p.numcom ≡ length p.comments
    pub recorded : IsRecorded tags w p.files
    pub records : Records tags w seen p.files
    pub kept : p.preview ≡ false

  with_files :
      (i : ℕ) (seen seen' : List Bytes) (p : P) (files : List (Bytes × ℕ))
      → IsFresh i seen p
      → IsRecorded tags w files × Records tags w seen' files
      → IsFresh i seen' (record p { files = files })
  with_files i seen seen' p files h r = record {
    same_id = h.same_id;
    counted = h.counted;
    recorded = r.0;
    records = r.1;
    kept = h.kept;
  }

  pub set_file-nonempty :
      (path : Bytes) (rev : ℕ) (files : List (Bytes × ℕ)) → is_nil (set_file path rev files) ≡ false
  unfolding set_file
  set_file-nonempty path rev [] = refl
  set_file-nonempty path rev ((q, r) ∷ files) = elim (Bool-cases (bytes_eq q path)) [
    | inl same ↦ rw (set_file, same) refl
    | inr other ↦ rw (set_file, other) refl
  ]

  -- A file that is there is recorded before it is used; one that is not has its own result.
  pub with_file_lem :
      {A : Type 0} (Q : A → Type 0) (i : ℕ) (seen : List Bytes) (p : P) (path src : Bytes)
      (k : P → Bytes → A) (otherwise : A)
      → path ≡ src
      → ((p' : P) (text : Bytes) (rev : ℕ)
          → w.file src ≡ some (text, rev)
          → IsFresh i (seen ++ src ∷ []) p'
          → is_nil p'.files ≡ false
          → Q (k p' text))
      → (w.file src ≡ none → Q otherwise)
      → IsFresh i seen p
      → Q (with_file tags w p path k otherwise)
  with_file_lem Q i seen p path src k otherwise same f g h =
      subst (λ x. Q (with_file tags w p x k otherwise)) (sym same) (go (w.file src) refl)
    where
      go :
          (o : Option (Bytes × ℕ))
          → w.file src ≡ o
          → Q (elim o [
            | none ↦ otherwise
            | some (text, rev) ↦ k (record p { files = set_file src rev p.files }) text
          ])
      go none e = g e
      go (some (text, rev)) e =
          f (record p { files = set_file src rev p.files }) text rev e
            (with_files i seen (seen ++ src ∷ []) p (set_file src rev p.files) h (
              record_file-Records tags w seen src (some (text, rev)) p.files e h.recorded
                h.records))
            (set_file-nonempty src rev p.files)

  append_comment-IsFresh :
      (i : ℕ) (seen : List Bytes) (p : P) (commid : ℕ) (lv : Alist) (text : Bytes)
      → IsFresh i seen p
      → IsFresh i seen (append_comment tags w p commid lv text)
  append_comment-IsFresh i seen p commid lv text h = record {
    same_id = h.same_id;
    counted = omega (arith, h.counted, length-append p.comments);
    recorded = h.recorded;
    records = h.records;
    kept = h.kept;
  }

  -- A file that is not there adds nothing.
  unread :
      (i : ℕ) (seen : List Bytes) (p : P) (src : Bytes)
      → w.file src ≡ none
      → IsFresh i seen p
      → IsFresh i (seen ++ src ∷ []) p
  unread i seen p src e h =
      with_files i seen (seen ++ src ∷ []) p p.files h
        (record_file-Records tags w seen src none p.files e h.recorded h.records)

  load_comment-IsFresh :
      (i : ℕ) (seen : List Bytes) (p : P) (c : ℕ) (lv : Alist)
      → IsFresh i seen p
      → IsFresh i (seen ++ text_path tags w i c ∷ []) (load_comment tags w p c lv)
  load_comment-IsFresh i seen p c lv h =
      with_file_lem (IsFresh i (seen ++ text_path tags w i c ∷ [])) i seen p _
        (text_path tags w i c) _ _ (ap (λ j. text_path tags w j c) h.same_id)
        (λ p' text rev e h' n. append_comment-IsFresh i _ p' c lv text h')
        (λ e. append_comment-IsFresh i _ p c lv _ (unread i seen p (text_path tags w i c) e h)) h

  after_meta : ℕ → P → Option Alist → Outcome P
  after_meta c p none = panic
  after_meta c p (some lv) =
      if is_moderated tags w (lv "moderated") then done (load_comment tags w p c lv) else done p

  after_meta-IsFresh :
      (i : ℕ) (seen : List Bytes) (c : ℕ) (p' : P)
      → IsFresh i (seen ++ meta_path tags w i c ∷ []) p'
      → (o : Option Alist)
      → Done
          (IsFresh i (seen ++ meta_path tags w i c ∷ if_moderated tags w (text_path tags w i c) o))
          (after_meta c p' o)
  unfolding after_meta
  after_meta-IsFresh i seen c p' h' o = parsed o
    where
      moderated :
          (lv : Alist) (b : Bool)
          → Done
              (IsFresh i
                (seen ++ meta_path tags w i c ∷ (if b then text_path tags w i c ∷ [] else [])))
              (if b then done (load_comment tags w p' c lv) else done p')
      moderated lv true =
          subst (λ l. IsFresh i l (load_comment tags w p' c lv))
            (append_assoc seen (meta_path tags w i c ∷ []) (text_path tags w i c ∷ []))
            (load_comment-IsFresh i (seen ++ meta_path tags w i c ∷ []) p' c lv h')
      moderated lv false = h'

      parsed :
          (o : Option Alist)
          → Done
              (IsFresh i
                (seen ++ meta_path tags w i c ∷ if_moderated tags w (text_path tags w i c) o))
              (after_meta c p' o)
      parsed none = tt
      parsed (some lv) = moderated lv (is_moderated tags w (lv "moderated"))

  post_add_comment-IsFresh :
      (i : ℕ) (seen : List Bytes) (p : P) (c : ℕ)
      → IsFresh i seen p
      → Done (IsFresh i (seen ++ comment_files tags w i c)) (post_add_comment tags w p c)
  unfolding post_add_comment after_meta
  post_add_comment-IsFresh i seen p c h =
      with_file_lem (Done (IsFresh i (seen ++ comment_files tags w i c))) i seen p _
        (meta_path tags w i c) (λ p' text. after_meta c p' (w.parse text)) panic
        (ap (λ j. meta_path tags w j c) h.same_id)
        (λ p' text rev e h' n.
          subst
            (λ o.
              Done
                (IsFresh i (
                  seen
                  ++ meta_path tags w i c
                    ∷ if_moderated tags w (text_path tags w i c) (meta_of tags w o)))
                (after_meta c p' (w.parse text)))
            (sym e) (after_meta-IsFresh i seen c p' h' (w.parse text)))
        (λ e. tt) h

  pub post_add_comments-IsFresh :
      (i : ℕ) (seen : List Bytes) (p : P) (l : List Val)
      → IsFresh i seen p
      → Done (IsFresh i (seen ++ comments_files tags w i l)) (post_add_comments tags w p l)
  unfolding post_add_comments
  post_add_comments-IsFresh i seen p [] h = subst (λ l. IsFresh i l p) (sym (append-nil seen)) h
  post_add_comments-IsFresh i seen p (int c ∷ l) h =
      subst (λ s. Done (IsFresh i s) (post_add_comments tags w p (int c ∷ l)))
        (append_assoc seen (comment_files tags w i c) (comments_files tags w i l))
        (Done-bind (IsFresh i (seen ++ comment_files tags w i c)) _ (post_add_comment tags w p c)
          (λ p'. post_add_comments tags w p' l) (post_add_comment-IsFresh i seen p c h)
          (λ p' h'. post_add_comments-IsFresh i (seen ++ comment_files tags w i c) p' l h'))
  post_add_comments-IsFresh i seen p (str s ∷ l) h = tt
  post_add_comments-IsFresh i seen p (bool b ∷ l) h = tt
  post_add_comments-IsFresh i seen p (null ∷ l) h = tt
  post_add_comments-IsFresh i seen p (blob ∷ l) h = tt
  post_add_comments-IsFresh i seen p (symbol ∷ l) h = tt
  post_add_comments-IsFresh i seen p (cons ∷ l) h = tt
  post_add_comments-IsFresh i seen p (char ∷ l) h = tt
  post_add_comments-IsFresh i seen p (array ∷ l) h = tt
  post_add_comments-IsFresh i seen p (nvl ∷ l) h = tt
