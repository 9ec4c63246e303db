-- ===== src/Post/Settled.antt =====
-- A post that has been read is read again if and only if one of its files is newer.
use blahgd.Prelude.{
  ℕ, ◌≡◌, refl, ap, ◌∙◌, Bool, false, true, ◌||◌, if◌then◌else◌, List, [], ◌∷◌, none, length, Bytes,
  strcasecmp, any,
}
use blahgd.Extern.Rb.{RbApi}
use blahgd.Post.{
  World, Outcome, done, failed, panic, ◌>>=◌, any_newer, must_refresh, post_refresh,
  refresh_published, load_post_body,
}
use blahgd.Post.Sources.{test, test_pair, files_of}
use blahgd.Post.Fresh.{Done}
use blahgd.Post.Refresh.{P, IsRead, post_refresh-IsRead}

module _ (tags : RbApi Bytes strcasecmp) (w w' : World) where
  any_newer-any :
      (files : List (Bytes × ℕ))
      → any_newer tags w' files ≡ any (test_pair tags w w'.has_newer) files
  any_newer-any [] = refl
  any_newer-any ((path, rev) ∷ files) = ap (λ b. w'.has_newer path rev || b) (any_newer-any files)

  -- Whether the cache has, later, a newer revision of one of the files of a post than the one read.
  abbrev pub outdated : ℕ → Bool
  outdated i = any (test tags w w'.has_newer) (files_of tags w i)

  -- What a later refresh does.
  abbrev pub reread : P tags w → Bool → Outcome (P tags w)
  reread p newer =
      if newer
      then refresh_published tags w' (record p { files = []; title = none })
        >>= load_post_body tags w'
      else done p

  pub record IsSettled (i : ℕ) (p : P tags w) : Type 0 where
    pub due : must_refresh tags w' p ≡ outdated i
    pub refresh : post_refresh tags w' p ≡ reread p (outdated i)

  IsRead-due : (i : ℕ) (p : P tags w) → IsRead tags w i p → must_refresh tags w' p ≡ outdated i
  unfolding must_refresh
  IsRead-due i p h =
      rw (h.fresh.kept, h.nonempty) (any_newer-any p.files ∙ h.fresh.records w'.has_newer)

  refresh_due :
      (p : P tags w) (b : Bool)
      → p.preview ≡ false
      → must_refresh tags w' p ≡ b
      → post_refresh tags w' p ≡ reread p b
  unfolding post_refresh
  refresh_due p true kept due = rw (due, kept) refl
  refresh_due p false kept due = rw (due) refl

  IsRead-IsSettled : (i : ℕ) (p : P tags w) → IsRead tags w i p → IsSettled i p
  IsRead-IsSettled i p h =
      let due = IsRead-due i p h in
      record { due = due; refresh = refresh_due p (outdated i) h.fresh.kept due }

  Done-map :
      {Q R : P tags w → Type 0} (o : Outcome (P tags w))
      → ((p : P tags w) → Q p → R p)
      → Done Q o
      → Done R o
  Done-map (done p) f h = f p h
  Done-map (failed p) f h = tt
  Done-map panic f h = tt

  -- After a published post that counts its comments has been due and has been read with success, it is
  -- due again at any later time if and only if the cache then has a newer revision of one of the
  -- files that it has read, \listing's among them, than the one that it has read of it. If so, the
  -- next refresh drops the records and the title and reads the meta data and the body again; if
  -- not, it leaves the post as it is.
  pub post_refresh-IsSettled :
      (p : P tags w)
      → p.preview ≡ false
      → p.numcom ≡ length p.comments
      → must_refresh tags w p ≡ true
      → Done (IsSettled p.id) (post_refresh tags w p)
  post_refresh-IsSettled p published counted due =
      Done-map (post_refresh tags w p) (IsRead-IsSettled p.id)
        (post_refresh-IsRead tags w p published counted due)
