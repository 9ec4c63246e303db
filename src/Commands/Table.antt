-- ===== src/Commands/Table.antt =====
-- The table of commands and bsearch on it, and what process_cmd does with each command.
use blahgd.Prelude.{
  ℕ, zero, suc, ◌+◌, ◌/◌, ◌≡◌, ◌≢◌, refl, ap, ◌∙◌, ◌↔◌, Bool, true, false, List, [], ◌∷◌, ◌++◌,
  Option, none, some, ◌&&◌, if◌then◌else◌, length, get_elem?, ltb, All, Bytes, codes, strcmp_eq,
  Ordering, Option-cases, ◌⊎◌, inl, inr,
}
use blahgd.Commands.{
  StrApi, Urls, Parser, Cmd, cmds, bsearch, find_cmd, check_arg, cmd_cmp, verdict_at,
}
use blahgd.Commands.Process.{panic, output, output_of, run, process_cmd}

-- An element is in a list.
abbrev pub IsIn : {A : Type 0} → A → List A → Type 0
IsIn x [] = ⊥
IsIn x (y ∷ l) = (x ≡ y) ⊎ IsIn x l

All-IsIn : {A : Type 0} (P : A → Type 0) (x : A) (l : List A) → All P l → IsIn x l → P x
All-IsIn P x [] h i = absurd i
All-IsIn P x (y ∷ l) h (inl e) = rw e h.0
All-IsIn P x (y ∷ l) h (inr i) = All-IsIn P x l h.1 i

get_elem?-IsIn : {A : Type 0} (l : List A) (i : ℕ) (x : A) → get_elem? l i ≡ some x → IsIn x l
get_elem?-IsIn [] i x h = cc
get_elem?-IsIn (y ∷ l) zero x h = inl cc
get_elem?-IsIn (y ∷ l) (suc i) x h = inr (get_elem?-IsIn l i x h)

-- bsearch finds each entry of the table under its name.
find_all : All (λ c. find_cmd c.name ≡ some c) cmds
unfolding find_cmd
find_all = (
  refl,
  (
    refl,
    (
      refl,
      (
        refl,
        (
          refl,
          (
            refl,
            (
              refl,
              (
                refl,
                (
                  refl,
                  (
                    refl,
                    (
                      refl,
                      (
                        refl,
                        (
                          refl,
                          (
                            refl,
                            (
                              refl,
                              (
                                refl,
                                (
                                  refl,
                                  (
                                    refl,
                                    (
                                      refl,
                                      (
                                        refl,
                                        (
                                          refl,
                                          (
                                            refl,
                                            (
                                              refl,
                                              (
                                                refl,
                                                (refl, (refl, (refl, (refl, (refl, (refl, tt)))))),
                                              ),
                                            ),
                                          ),
                                        ),
                                      ),
                                    ),
                                  ),
                                ),
                              ),
                            ),
                          ),
                        ),
                      ),
                    ),
                  ),
                ),
              ),
            ),
          ),
        ),
      ),
    ),
  ),
)

abbrev Hit : Bytes → List Cmd → Cmd → Type 0
Hit key table c = (key ≡ c.name) × IsIn c table

module _ (key : Bytes) (table : List Cmd) (c : Cmd) where
  compared :
      (d : Cmd) (o : Ordering) (left right : Option Cmd)
      → IsIn d table
      → cmd_cmp key d ≡ o
      → (left ≡ some c → Hit key table c)
      → (right ≡ some c → Hit key table c)
      → (elim o [ Ordering.lt ↦ left | Ordering.gt ↦ right | Ordering.eq ↦ some d ]) ≡ some c
      → Hit key table c
  compared d Ordering.lt left right i e l r h = l h
  compared d Ordering.gt left right i e l r h = r h
  compared d Ordering.eq left right i e l r h =
      let same : d ≡ c = cc in (strcmp_eq key d.name e ∙ ap (λ x. x.name) same, rw (← same) i)

  probed :
      (idx : ℕ) (x : Option Cmd) (left right : Option Cmd)
      → get_elem? table idx ≡ x
      → (left ≡ some c → Hit key table c)
      → (right ≡ some c → Hit key table c)
      → (elim (verdict_at x key) [
        | none ↦ none
        | some (d, o) ↦ elim o [ Ordering.lt ↦ left | Ordering.gt ↦ right | Ordering.eq ↦ some d ]
      ])
        ≡ some c
      → Hit key table c
  probed idx none left right e l r h = cc
  probed idx (some d) left right e l r h =
      compared d (cmd_cmp key d) left right (get_elem?-IsIn table idx d e) refl l r h

  bsearch_sound : (fuel lo hi : ℕ) → bsearch fuel key table lo hi ≡ some c → Hit key table c
  unfolding bsearch
  bsearch_sound zero lo hi h = cc
  bsearch_sound (suc fuel) lo hi h =
      go (ltb lo hi) (bsearch_sound fuel lo ((lo + hi) / 2))
        (bsearch_sound fuel ((lo + hi) / 2 + 1) hi) h
    where
      go :
          (b : Bool) {left right : Option Cmd}
          → (left ≡ some c → Hit key table c)
          → (right ≡ some c → Hit key table c)
          → (if b
              then elim (verdict_at (get_elem? table ((lo + hi) / 2)) key) [
                | none ↦ none
                | some (d, o) ↦ elim o [
                  | Ordering.lt ↦ left
                  | Ordering.gt ↦ right
                  | Ordering.eq ↦ some d
                ]
              ]
              else none)
            ≡ some c
          → Hit key table c
      go false l r q = cc
      go true l r q = probed ((lo + hi) / 2) (get_elem? table ((lo + hi) / 2)) _ _ refl l r q

find_cmd_sound : (key : Bytes) (c : Cmd) → find_cmd key ≡ some c → Hit key cmds c
unfolding find_cmd
find_cmd_sound key c = bsearch_sound key cmds c 6 0 (length cmds)

-- bsearch on the table of commands returns an entry exactly when it is in the table and has the
-- name that is looked for; so the order of the table is the one that bsearch needs.
pub find_cmd_iff :
    (key : Bytes) (c : Cmd) → (find_cmd key ≡ some c) ↔ ((key ≡ c.name) × IsIn c cmds)
find_cmd_iff key c = (
  find_cmd_sound key c,
  λ h. rw h.0 (All-IsIn (λ d. find_cmd d.name ≡ some d) c cmds find_all h.1),
)

find_cmd-none : (key : Bytes) → All (λ c. key ≢ c.name) cmds → find_cmd key ≡ none
find_cmd-none key h = elim (Option-cases (find_cmd key)) [
  | inl e ↦ e
  | inr (c, e) ↦ absurd (
      All-IsIn (λ d. key ≢ d.name) c cmds h ((find_cmd_iff key c).0 e).1
        ((find_cmd_iff key c).0 e).0)
]

module _ (api : StrApi) (urls : Urls) (st : Parser) where
  -- process_cmd with the name of a command of the table fails an assertion exactly when an argument
  -- is given that the command prohibits or is missing that it requires, and otherwise returns what
  -- the command's own function returns.
  pub process_cmd_known :
      (c : Cmd) (txt opt : Option Bytes)
      → IsIn c cmds
      → process_cmd api urls st c.name txt opt ≡ (
          if check_arg c.square opt && check_arg c.curly txt
          then output_of (run api urls st c.fxn txt opt)
          else panic)
  unfolding process_cmd
  process_cmd_known c txt opt i = rw ((find_cmd_iff c.name c).1 (refl, i), process_cmd) refl

  -- process_cmd with a name that no command has returns an error text with the name, whatever the
  -- arguments, and leaves the parser's state alone.
  pub process_cmd_unknown :
      (cmd : Bytes) (txt opt : Option Bytes)
      → All (λ c. cmd ≢ c.name) cmds
      → process_cmd api urls st cmd txt opt
        ≡ output st (codes "[INVAL CMD '" ++ (cmd ++ codes "']"))
  unfolding process_cmd
  process_cmd_unknown cmd txt opt h =
      rw (find_cmd-none cmd h, process_cmd)
        (ap (output st) (api.str_cat-some (codes "[INVAL CMD '" ∷ cmd ∷ codes "']" ∷ [])))
