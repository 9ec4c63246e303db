-- ===== src/PostVars/Tests.antt =====
-- Examples for the variables of posts.
use blahgd.Prelude.{true, false, [], ◌∷◌, none, codes}
use blahgd.Post.{Comment}
use blahgd.PostVars.{Lists, com_val}
use blahgd.PostVars.Comments.{ComVal, com_val-ComVal}

abbrev comment : Comment
comment = record {
  id = 1;
  author = codes "A";
  email = none;
  time = 3;
  ip = none;
  url = none;
  body = codes "hi";
}

-- The second call for the comment's values fails.
abbrev failing : Lists
failing = record { results = true ∷ true ∷ true ∷ false ∷ []; live = 4 }

com_val-ComVal_example : ComVal (comment ∷ []) failing (com_val (comment ∷ []) failing)
com_val-ComVal_example = com_val-ComVal (comment ∷ []) failing
