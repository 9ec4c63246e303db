-- ===== src/Post/Sources.antt =====
-- The files that a post is read from, and the records that it keeps of files.
use blahgd.Prelude.{
  ℕ, ◌≡◌, refl, sym, ap, ◌∙◌, Bool, false, ◌||◌, List, [], ◌∷◌, ◌++◌, Option, none, some, arith,
  if◌then◌else◌, Bytes, codes, strcasecmp, bytes_eq, bytes_eq_sound, signed, All, any, Bool-cases,
  inl, inr, append_assoc, append-nil, subst,
}
use blahgd.Extern.Rb.{RbApi}
use blahgd.Extern.Alist.{Alist, Val, int}
use blahgd.Post.{World, Parsed, set_file, is_moderated, path_of, record_file, record_files}

any-append : {A : Type 0} (p : A → Bool) (l m : List A) → any p (l ++ m) ≡ (any p l || any p m)
any-append p [] m = refl
any-append p (x ∷ l) m = ground (arith, any-append p l m)

module _ (tags : RbApi Bytes strcasecmp) (w : World) where
  abbrev pub dir_of : ℕ → Bytes
  dir_of i = w.data_dir ++ (codes "/posts/" ++ signed i)

  abbrev pub lisp_path : ℕ → Bytes
  lisp_path i = path_of (dir_of i ++ codes "/post.lisp")

  abbrev pub tex_path : ℕ → Bytes
  tex_path i = path_of (dir_of i ++ codes "/post.tex")

  abbrev pub comment_file : ℕ → ℕ → Bytes → Bytes
  comment_file i c name = path_of (dir_of i ++ (codes "/comments/" ++ (signed c ++ name)))

  abbrev pub meta_path : ℕ → ℕ → Bytes
  meta_path i c = comment_file i c (codes "/meta.lisp")

  abbrev pub text_path : ℕ → ℕ → Bytes
  text_path i c = comment_file i c (codes "/text.txt")

  abbrev pub meta_of : Option (Bytes × ℕ) → Option Alist
  meta_of none = none
  meta_of (some (text, rev)) = w.parse text

  -- The text of a comment is read if the comment is moderated.
  abbrev pub if_moderated : Bytes → Option Alist → List Bytes
  if_moderated path none = []
  if_moderated path (some lv) = if is_moderated tags w (lv "moderated") then path ∷ [] else []

  abbrev pub comment_files : ℕ → ℕ → List Bytes
  comment_files i c =
      meta_path i c ∷ if_moderated (text_path i c) (meta_of (w.file (meta_path i c)))

  abbrev pub comments_files : ℕ → List Val → List Bytes
  comments_files i [] = []
  comments_files i (int c ∷ l) = comment_files i c ++ comments_files i l
  comments_files i (v ∷ l) = []

  abbrev pub comments_of : ℕ → Option Alist → List Bytes
  comments_of i none = []
  comments_of i (some lv) = comments_files i (w.list_of lv "comments")

  abbrev pub cached_of : Option Parsed → List Bytes
  cached_of none = []
  cached_of (some x) = x.cached

  abbrev pub listings_of : ℕ → Option (Bytes × ℕ) → List Bytes
  listings_of i none = []
  listings_of i (some (text, rev)) = cached_of (w.fmt3_parse i text)

  -- The files of a post: the meta data, those of the comments that the meta data list, the text, and
  -- those that the text includes by \listing.
  abbrev pub files_of : ℕ → List Bytes
  files_of i =
      (lisp_path i ∷ comments_of i (meta_of (w.file (lisp_path i))))
      ++ (tex_path i ∷ listings_of i (w.file (tex_path i)))

  -- A test of a file and its revision, on a file that can be read.
  abbrev pub read_at : (Bytes → ℕ → Bool) → Bytes → Option (Bytes × ℕ) → Bool
  read_at f path none = false
  read_at f path (some (text, rev)) = f path rev

  abbrev pub test : (Bytes → ℕ → Bool) → Bytes → Bool
  test f path = read_at f path (w.file path)

  abbrev pub test_pair : (Bytes → ℕ → Bool) → Bytes × ℕ → Bool
  test_pair f (path, rev) = f path rev

  -- The revision that the post keeps of each file is the one that it has read.
  abbrev pub IsRecorded : List (Bytes × ℕ) → Type 0
  IsRecorded files = All (λ f. (text : Bytes) × (w.file f.0 ≡ some (text, f.1))) files

  -- The files of a list that can be read are recorded, and no other: whatever a test of a file and
  -- its revision is, it holds of one that is recorded if and only if of one of the list.
  abbrev pub Records : List Bytes → List (Bytes × ℕ) → Type 0
  Records paths files = (f : Bytes → ℕ → Bool) → any (test_pair f) files ≡ any (test f) paths

  pub set_file-IsRecorded :
      (path text : Bytes) (rev : ℕ) (files : List (Bytes × ℕ))
      → w.file path ≡ some (text, rev)
      → IsRecorded files
      → IsRecorded (set_file path rev files)
  unfolding set_file
  set_file-IsRecorded path text rev [] e h = ((text, e), tt)
  set_file-IsRecorded path text rev ((q, r) ∷ files) e h = elim (Bool-cases (bytes_eq q path)) [
    | inl same ↦ rw (set_file, same) ((text, e), h.1)
    | inr other ↦ rw (set_file, other) (h.0, set_file-IsRecorded path text rev files e h.1)
  ]

  same_rev :
      (text text' : Bytes) (r rev : ℕ) (q path : Bytes)
      → w.file q ≡ some (text', r)
      → w.file path ≡ some (text, rev)
      → q ≡ path
      → r ≡ rev
  same_rev text text' r rev q path a b e =
      let c : w.file q ≡ some (text, rev) = ap w.file e ∙ b in
      let d : ◌≡◌ {A = Option (Bytes × ℕ)} (some (text', r)) (some (text, rev)) = sym a ∙ c in cc

  any-set_file :
      (f : Bytes → ℕ → Bool) (path text : Bytes) (rev : ℕ) (files : List (Bytes × ℕ))
      → w.file path ≡ some (text, rev)
      → IsRecorded files
      → any (test_pair f) (set_file path rev files) ≡ (any (test_pair f) files || f path rev)
  unfolding set_file
  any-set_file f path text rev [] e h = ground arith
  any-set_file f path text rev ((q, r) ∷ files) e h = elim (Bool-cases (bytes_eq q path)) [
    | inl same ↦
        let s : q ≡ path = bytes_eq_sound q path same in
        let t : r ≡ rev = same_rev text h.0.0 r rev q path h.0.1 e s in
        let u : f q r ≡ f path rev = cc in rw (set_file, same) (ground (arith, u))
    | inr other ↦ rw (set_file, other) (ground (arith, any-set_file f path text rev files e h.1))
  ]

  -- A file that is asked for, whether it is there or not.
  pub record_file-Records :
      (paths : List Bytes) (path : Bytes) (o : Option (Bytes × ℕ)) (files : List (Bytes × ℕ))
      → w.file path ≡ o
      → IsRecorded files
      → Records paths files
      → IsRecorded (record_file tags w o path files)
        × Records (paths ++ path ∷ []) (record_file tags w o path files)
  record_file-Records paths path none files e h k = (
    h,
    λ f.
        let t : test f path ≡ false = ap (read_at f path) e in
        k f ∙ (ground arith ∙ sym (any-append (test f) paths (path ∷ []))),
  )
  record_file-Records paths path (some (text, rev)) files e h k = (
    set_file-IsRecorded path text rev files e h,
    λ f.
        let t : test f path ≡ f path rev = ap (read_at f path) e in
        any-set_file f path text rev files e h
        ∙ (ground (arith, k f) ∙ sym (any-append (test f) paths (path ∷ []))),
  )

  pub record_files-Records :
      (paths asked : List Bytes) (files : List (Bytes × ℕ))
      → IsRecorded files
      → Records paths files
      → IsRecorded (record_files tags w asked files)
        × Records (paths ++ asked) (record_files tags w asked files)
  record_files-Records paths [] files h k =
      (h, subst (λ l. Records l files) (sym (append-nil paths)) k)
  record_files-Records paths (path ∷ asked) files h k =
      let o = w.file path in
      let one = record_file-Records paths path o files refl h k in
      let rest =
        record_files-Records (paths ++ path ∷ []) asked (record_file tags w o path files) one.0
          one.1 in
      (
        rest.0,
        subst (λ l. Records l (record_files tags w asked (record_file tags w o path files)))
            (append_assoc paths (path ∷ []) asked) rest.1,
      )
