-- ===== src/Lint/Main.antt =====
-- lisplint.c: the command line and the exit status. What getopt returns is an argument, and so are
-- the files and the parser of S-expressions; the messages are left out. The counter of files that
-- fail is an int, but so is argc, the number of all arguments.
use blahgd.Prelude.{
  ℕ, ◌+◌, ◌≡◌, ◌≢◌, ◌↔◌, refl, sym, ap, ◌∙◌, arith, Bool, true, false, false≢true, ◌==◌, List, [],
  ◌∷◌, Option, none, some, if◌then◌else◌, take, strlen, Bytes, All, Bool-cases, inl, inr,
}
use blahgd.Extern.Alist.{Alist}
use blahgd.Lint.{check_post, check_comment, check_config}

pub data Checker : Type 0 where
  post comment config : Checker

pub record Args : Type 0 where
  pub options : List ℕ
  pub files : List Bytes

pub data Parsed : Type 0 where
  wrong : Parsed
  chosen : Option Checker → Parsed

-- The loop over the options; the last of -p, -c and -C counts. Each result of getopt before the -1
-- that ends the loop is an ASCII character, one of the options or '?', which a char keeps as it is.
unfoldable pub parse_options : Option Checker → List ℕ → Parsed
parse_options checker [] = chosen checker
parse_options checker (opt ∷ l) =
    let as_post = parse_options (some post) l in
    let as_comment = parse_options (some comment) l in
    let as_config = parse_options (some config) l in
    let same = parse_options checker l in
    if opt == b'p'
    then as_post
    else if opt == b'c'
    then as_comment
    else if opt == b'C'
    then as_config
    else if opt == b'v'
    then same
    else wrong

unfoldable pub check : Checker → Alist → Bool
check post lv = check_post lv
check comment lv = check_comment lv
check config lv = check_config lv

module _ (read_file : Bytes → Option Bytes) (sexpr_parse : Bytes → Option Alist) where
  unfoldable pub onefile : Checker → Bytes → Bool
  onefile checker text = elim (sexpr_parse text) [ none ↦ false | some lv ↦ check checker lv ]

  -- A file that is read counts up to its first NUL.
  abbrev pub passes : Checker → Option Bytes → Bool
  passes checker none = false
  passes checker (some text) = onefile checker (take (strlen text) text)

  -- The number of files that fail.
  unfoldable pub failed_files : Checker → List Bytes → ℕ
  unfolding onefile
  failed_files checker [] = 0
  failed_files checker (file ∷ l) =
      let rest = failed_files checker l in
      if passes checker (read_file file) then rest else 1 + rest

  abbrev pub status_of : ℕ → ℕ
  status_of n = if n == 0 then 0 else 1

  -- usage exits with 2.
  abbrev pub run : List Bytes → Parsed → ℕ
  run files wrong = 2
  run [] (chosen checker) = 2
  run (file ∷ l) (chosen none) = 2
  run (file ∷ l) (chosen (some checker)) = status_of (failed_files checker (file ∷ l))

  -- The exit status.
  unfoldable pub main : Args → ℕ
  unfolding parse_options failed_files
  main args = run args.files (parse_options none args.options)

  -- A file that lisplint accepts.
  abbrev pub IsAccepted : Checker → Bytes → Type 0
  IsAccepted checker file =
      (text : Bytes) × (lv : Alist) × (read_file file ≡ some text)
      × (sexpr_parse (take (strlen text) text) ≡ some lv)
      × (check checker lv ≡ true)

  accepted :
      (checker : Checker) (file : Bytes) (o : Option Bytes)
      → read_file file ≡ o
      → passes checker o ≡ true
      → IsAccepted checker file
  unfolding onefile
  accepted checker file none e h = absurd (false≢true h)
  accepted checker file (some text) e h = go (sexpr_parse (take (strlen text) text)) refl h
    where
      go :
          (r : Option Alist)
          → sexpr_parse (take (strlen text) text) ≡ r
          → elim r [ none ↦ false | some lv ↦ check checker lv ] ≡ true
          → IsAccepted checker file
      go none k h = absurd (false≢true h)
      go (some lv) k h = (text, lv, e, k, h)

  accepted-passes :
      (checker : Checker) (file : Bytes)
      → IsAccepted checker file
      → passes checker (read_file file) ≡ true
  unfolding onefile
  accepted-passes checker file (text, lv, e, k, h) =
      ap (passes checker) e
      ∙ (ap (λ r. elim r [ none ↦ false | some lv' ↦ check checker lv' ]) k ∙ h)

  failed_files_sound :
      (checker : Checker) (l : List Bytes) → failed_files checker l ≡ 0 → All (IsAccepted checker) l
  unfolding failed_files
  failed_files_sound checker [] h = tt
  failed_files_sound checker (file ∷ l) h =
      let rest = failed_files checker l in
      elim (Bool-cases (passes checker (read_file file))) [
        | inl e ↦ (
          accepted checker file (read_file file) refl e,
          failed_files_sound checker l (ap (λ b. if b then rest else 1 + rest) (sym e) ∙ h),
        )
        | inr e ↦
            let one : 1 + rest ≡ 0 = ap (λ b. if b then rest else 1 + rest) (sym e) ∙ h in
            absurd (omega (arith, one))
      ]

  failed_files_complete :
      (checker : Checker) (l : List Bytes) → All (IsAccepted checker) l → failed_files checker l ≡ 0
  unfolding failed_files
  failed_files_complete checker [] h = refl
  failed_files_complete checker (file ∷ l) h =
      rw (accepted-passes checker file h.0) (failed_files_complete checker l h.1)

  -- What a successful run has found: a checker is chosen, by options that are all known, and there
  -- are files, each of which it accepts.
  abbrev pub AcceptsAll : Args → Type 0
  AcceptsAll args =
      (checker : Checker) × (parse_options none args.options ≡ chosen (some checker))
      × (args.files ≢ [])
      × All (IsAccepted checker) args.files

  run_sound :
      (files : List Bytes) (p : Parsed)
      → run files p ≡ 0
      → (checker : Checker) × (p ≡ chosen (some checker))
        × (files ≢ [])
        × All (IsAccepted checker) files
  run_sound files wrong h = absurd (omega (arith, h))
  run_sound [] (chosen c) h = absurd (omega (arith, h))
  run_sound (f ∷ l) (chosen none) h = absurd (omega (arith, h))
  run_sound (f ∷ l) (chosen (some c)) h =
      let zero : failed_files c (f ∷ l) ≡ 0 = ground (arith, h) in
      (c, refl, (λ e. cc), failed_files_sound c (f ∷ l) zero)

  run_complete :
      (files : List Bytes) (p : Parsed) (c : Checker)
      → p ≡ chosen (some c)
      → files ≢ []
      → All (IsAccepted c) files
      → run files p ≡ 0
  run_complete [] p c e n h = absurd (n refl)
  run_complete (f ∷ l) p c e n h =
      ap (run (f ∷ l)) e ∙ ap status_of (failed_files_complete c (f ∷ l) h)

  -- lisplint exits with 0 exactly if its options are known and choose a checker, there are files, and
  -- each file can be read, is an S-expression up to its first NUL and passes the checker.
  pub main_iff : (args : Args) → (main args ≡ 0) ↔ AcceptsAll args
  unfolding main
  main_iff args = (
    (λ h. run_sound args.files (parse_options none args.options) h),
    (λ (c, e, n, h). run_complete args.files (parse_options none args.options) c e n h),
  )
