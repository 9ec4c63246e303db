-- ===== src/Extern/Alist.antt =====
-- libjeffpc's association lists as the program reads them: sexpr_alist_lookup_val and the versions
-- for one type. The values are struct val by its type tag.
use blahgd.Prelude.{ℕ, Bool, String, Option, none, some, Bytes}

pub data Val : Type 0 where
  int : ℕ → Val
  str : Bytes → Val
  bool : Bool → Val
  null blob sym cons char array nvl : Val

-- sexpr_alist_lookup_int, with `found`, and sexpr_alist_lookup_str, NULL as `none`.
abbrev pub int_of : Option Val → Option ℕ
int_of (some (int n)) = some n
int_of _ = none

abbrev pub str_of : Option Val → Option Bytes
str_of (some (str s)) = some s
str_of _ = none

-- A list, by what sexpr_alist_lookup_val returns for a name.
abbrev pub Alist : Type 0
Alist = String → Option Val
