-- ===== src/Comment/Tests.antt =====
-- Examples for the comments.
use blahgd.Prelude.{ℕ, ◌*◌, ◌==◌, none, ◌≡◌, ◌↔◌, true, [], ◌∷◌, Option, some, Bytes, codes}
use blahgd.Extern.Query.{Found, found}
use blahgd.Extern.Samples.{Params, sample_api}
use blahgd.Comment.{
  Strings, Config, World, Request, ok, spam_check, write_out_comment, save_comment,
}
use blahgd.Comment.Spam.{HasThought, spam_check_iff}
use blahgd.Comment.Store.{Publishes, write_out_comment-Publishes}
use blahgd.Comment.Save.{Saves, save_comment-Saves}

abbrev config : Config
config = record {
  comment_max_think = 86400;
  comment_min_think = 10;
  comment_captcha_a = 3;
  comment_captcha_b = 4;
}

abbrev now : ℕ
now = 1000000000 * 1000

abbrev form : Params
form = record {
  strings =
      ("x", []) ∷ ("e", codes "e@x") ∷ ("a", codes "A") ∷ ("c", codes "hi") ∷ ("u", codes "") ∷ [];
  numbers = ("d", 1000000000 * 900) ∷ ("v", 7) ∷ ("i", 12) ∷ [];
}

abbrev headers : Params
headers = record { strings = []; numbers = [] }

abbrev world : World
world = record {
  post_exists = λ id. id == 12;
  data_dir = codes "data";
  now = 1000000001000000002;
  nonce = 1;
  curdate = λ sec. some (codes "2020-01-01 10:00");
  sexpr_dump = λ l. some (codes "((author . \"A\"))");
  mkdir_ok = true;
  text_ok = true;
  lisp_ok = true;
  rename_ok = true;
}

spam_check_iff_example : (spam_check sample_api config now form ≡ ok tt) ↔ (
    (sample_api.lookup_str form "x" ≡ found [])
    × HasThought config now (sample_api.lookup_int form "d")
    × (sample_api.lookup_int form "v" ≡ some 7))
spam_check_iff_example = spam_check_iff sample_api config now form

abbrev strings : Strings
strings = record {
  email = some (codes "e@x");
  author = some (codes "A");
  comment = some (codes "hi");
  url = none;
}

abbrev address : Found Bytes
address = found (codes "::1")

write_out_comment-Publishes_example :
    Publishes world address 12 strings (write_out_comment world address 12 strings)
write_out_comment-Publishes_example = write_out_comment-Publishes world address 12 strings

abbrev parse_form : Bytes → Option Params
parse_form s = some form

abbrev request : Request Params
request = record { headers = headers; body = some (codes "x=&d=") }

save_comment-Saves_example :
    Saves sample_api config now parse_form request world
      (save_comment sample_api config now parse_form world request)
save_comment-Saves_example = save_comment-Saves sample_api config now parse_form request world
