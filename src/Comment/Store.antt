-- ===== src/Comment/Store.antt =====
-- write_out_comment: what it leaves in the file system, and the references that it puts.
use blahgd.Prelude.{
  ℕ, zero, suc, ◌+◌, ◌<◌, ◌≡◌, refl, ap, ◌∙◌, Bool, true, false, not, [], ◌∷◌, ◌++◌, List, Option,
  none, some, arith, Bytes, codes, take, length, length-append, All, if◌then◌else◌,
}
use blahgd.Extern.Query.{Found}
use blahgd.Comment.{
  Strings, base_name, now_sec, prep_meta_sexpr, ok, err, Ref, email, author, url, World, FsOp,
  mkdir, write_file, rename, Written, panic, returned, content, fits, write_out_comment, fail,
  is_ref, internal_err, generic_err, Paths, paths_of, paths_fit, write_meta, write_text,
}

take_short : (n : ℕ) (s : Bytes) → length (take n s) < n → take n s ≡ s
take_short zero s h = absurd (omega arith)
take_short (suc n) [] h = refl
take_short (suc n) (c ∷ s) h = ap (◌∷◌ c) (take_short n s (omega arith))

abbrev pub dir_of : Bytes → Bytes
dir_of base = base ++ codes "W"

-- What a comment's directory is built from, in order.
abbrev pub publication : Bytes → Bytes → Bytes → List FsOp
publication base text meta =
    mkdir (dir_of base)
    ∷ write_file (dir_of base ++ codes "/text.txt") text
    ∷ write_file (dir_of base ++ codes "/meta.lisp") meta
    ∷ rename (dir_of base) base
    ∷ []

abbrev pub IsRename : FsOp → Type 0
IsRename (mkdir p) = ⊥
IsRename (write_file p s) = ⊥
IsRename (rename p q) = Unit

-- The names are not cut off.
abbrev AreWhole : Paths → Bytes → Type 0
AreWhole p base =
    (p.basepath ≡ base)
    × (p.dirpath ≡ dir_of base)
    × (p.textpath ≡ dir_of base ++ codes "/text.txt")
    × (p.lisppath ≡ dir_of base ++ codes "/meta.lisp")

fits_lt : (s : Bytes) → fits s ≡ true → length s < 4095
fits_lt s h = ground arith

paths-AreWhole : (base : Bytes) → paths_fit (paths_of base) ≡ true → AreWhole (paths_of base) base
paths-AreWhole base h =
    let p = paths_of base in
    let fit_dir : length p.dirpath < 4095 = fits_lt p.dirpath (ground arith) in
    let fit_text : length p.textpath < 4095 = fits_lt p.textpath (ground arith) in
    let fit_lisp : length p.lisppath < 4095 = fits_lt p.lisppath (ground arith) in
    let dir : p.dirpath ≡ p.basepath ++ codes "W" =
      take_short 4095 (p.basepath ++ codes "W") fit_dir in
    let whole : p.basepath ≡ base =
      take_short 4095 base (omega (arith, ap length dir, length-append p.basepath (codes "W"))) in
    let dir' : p.dirpath ≡ dir_of base = dir ∙ ap dir_of whole in
    (
      whole,
      dir',
      take_short 4095 (p.dirpath ++ codes "/text.txt") fit_text
          ∙ ap (λ d. d ++ codes "/text.txt") dir',
      take_short 4095 (p.dirpath ++ codes "/meta.lisp") fit_lisp
          ∙ ap (λ d. d ++ codes "/meta.lisp") dir',
    )

-- What holds of each way in which write_out_comment ends.
abbrev pub Publishes : World → Found Bytes → ℕ → Strings → Written → Type 0
Publishes w ip id s panic = paths_fit (paths_of (base_name w id)) ≡ false
Publishes w ip id s (returned (ok _) ops puts) =
    (date : Bytes) × (meta : Bytes) × (w.post_exists id ≡ true)
    × (w.curdate (now_sec w) ≡ some date)
    × (prep_meta_sexpr w s date ip ≡ some meta)
    × (ops ≡ publication (base_name w id) (content s.comment) meta)
Publishes w ip id s (returned (err m) ops puts) = All (λ o. ¬ IsRename o) ops

module _ (w : World) (ip : Found Bytes) (id : ℕ) (s : Strings) (date : Bytes)
    (exists : w.post_exists id ≡ true) (dated : w.curdate (now_sec w) ≡ some date) where
  write_meta-Publishes :
      (p : Paths) (meta : Option Bytes) (lisp_ok rename_ok : Bool)
      → prep_meta_sexpr w s date ip ≡ meta
      → AreWhole p (base_name w id)
      → Publishes w ip id s (write_meta meta lisp_ok rename_ok p (content s.comment))
  write_meta-Publishes p none l r e h = (λ b. b, (λ b. b, tt))
  write_meta-Publishes p (some meta) false r e h = (λ b. b, (λ b. b, tt))
  write_meta-Publishes p (some meta) true false e h = (λ b. b, (λ b. b, (λ b. b, tt)))
  write_meta-Publishes p (some meta) true true e h =
      (date, meta, exists, dated, e, simp (h.0, h.1, h.2, h.3))

  write_text-Publishes :
      (p : Paths) (fit : Bool)
      → paths_fit (paths_of (base_name w id)) ≡ fit
      → (fit ≡ true → AreWhole p (base_name w id))
      → Publishes w ip id s (write_text fit w (prep_meta_sexpr w s date ip) p (content s.comment))
  write_text-Publishes p false e h = e
  write_text-Publishes p true e h = go w.mkdir_ok w.text_ok
    where
      go :
          (m t : Bool)
          → Publishes w ip id s (
              if not m
              then fail internal_err [] []
              else if not t
              then fail internal_err (mkdir p.dirpath ∷ []) []
              else write_meta
                  (prep_meta_sexpr w s date ip)
                  w.lisp_ok
                  w.rename_ok
                  p
                  (content s.comment))
      go false t = tt
      go true false = (λ b. b, tt)
      go true true =
          write_meta-Publishes p (prep_meta_sexpr w s date ip) w.lisp_ok w.rename_ok refl (h refl)

-- When write_out_comment returns NULL, the post exists, and it has made the directory with the suffix
-- W, whose name is built from the post's id, the time and the nonce, written the comment and its
-- meta data into it, these of the author, the email, the date, the remote address and the url, and
-- renamed it to the comment's name, in this order and under names that are not cut off; when it
-- returns an error, nothing has been renamed; and an assertion fails only where a name does not fit
-- into FILENAME_MAX - 1 bytes.
pub write_out_comment-Publishes :
    (w : World) (ip : Found Bytes) (id : ℕ) (s : Strings)
    → Publishes w ip id s (write_out_comment w ip id s)
unfolding write_out_comment
write_out_comment-Publishes w ip id s = go (w.post_exists id) (w.curdate (now_sec w)) refl refl
  where
    go :
        (b : Bool) (d : Option Bytes)
        → w.post_exists id ≡ b
        → w.curdate (now_sec w) ≡ d
        → Publishes w ip id s (
            if not b then fail generic_err [] [] else elim d [
              | none ↦ fail internal_err [] []
              | some curdate ↦
                  write_text
                    (paths_fit (paths_of (base_name w id)))
                    w
                    (prep_meta_sexpr w s curdate ip)
                    (paths_of (base_name w id))
                    (content s.comment)
            ])
    go false d x y = tt
    go true none x y = tt
    go true (some date) x y =
        write_text-Publishes w ip id s date x y (paths_of (base_name w id))
          (paths_fit (paths_of (base_name w id))) refl (paths-AreWhole (base_name w id))

-- How often a reference is put.
abbrev pub times : Ref → List Ref → ℕ
times r [] = 0
times r (q ∷ refs) = (if is_ref r q then 1 else 0) + times r refs

-- The reference to a string is put `n` times by a call that returns.
abbrev pub PutsTimes : Ref → ℕ → Written → Type 0
PutsTimes r n panic = ⊥
PutsTimes r n (returned x ops puts) = times r puts ≡ n

-- When the meta data has been built and cannot be written, the references to the author, the email
-- and the url are each put twice: they are dropped with the meta data and dropped again.
pub write_out_comment_double_put :
    (w : World) (ip : Found Bytes) (id : ℕ) (s : Strings) (date meta : Bytes)
    → w.post_exists id ≡ true
    → w.curdate (now_sec w) ≡ some date
    → paths_fit (paths_of (base_name w id)) ≡ true
    → w.mkdir_ok ≡ true
    → w.text_ok ≡ true
    → prep_meta_sexpr w s date ip ≡ some meta
    → w.lisp_ok ≡ false
    → PutsTimes author 2 (write_out_comment w ip id s)
      × PutsTimes email 2 (write_out_comment w ip id s)
      × PutsTimes url 2 (write_out_comment w ip id s)
unfolding write_out_comment
write_out_comment_double_put w ip id s date meta a b c d e f g =
    simp (a, b, c, d, e, f, g) (refl, refl, refl)
