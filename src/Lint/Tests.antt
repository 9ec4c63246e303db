-- ===== src/Lint/Tests.antt =====
-- Examples for the checks.
use blahgd.Prelude.{
  ◌≡◌, ◌↔◌, ◌∷◌, [], Option, Bytes, bytes_eq, refl, none, some, codes, if◌then◌else◌, str_eq,
}
use blahgd.Extern.Alist.{Alist, int, str}
use blahgd.Lint.{check_config}
use blahgd.Lint.Main.{main, main_iff, AcceptsAll}
use blahgd.Config.{Defaults, config_of}
use blahgd.Lint.Laws.{IsTaken, check_config-IsTaken}

abbrev config : Alist
config name =
    if str_eq name "scgi-port"
    then some (int 2014)
    else if str_eq name "data-dir"
    then some (str (codes "data"))
    else none

abbrev defaults : Defaults
defaults = record {
  scgi_port = 2014;
  html_index_stories = 10;
  feed_index_stories = 15;
  comment_max_think = 86400;
  comment_min_think = 10;
  data_dir = codes "data";
  web_dir = codes "web";
  template_dir = codes "templates";
  tagcloud_min_size = 6;
  tagcloud_max_size = 18;
}

check_config-IsTaken_example : IsTaken config defaults (config_of defaults (3, 4) config)
unfolding check_config
check_config-IsTaken_example = check_config-IsTaken config defaults (3, 4) refl

-- One readable file with a configuration.
abbrev read_file : Bytes → Option Bytes
read_file name = if bytes_eq name (codes "conf") then some (codes "(...)") else none

abbrev sexpr_parse : Bytes → Option Alist
sexpr_parse text = some config

main_iff_example :
    (main read_file sexpr_parse (record { options = b'C' ∷ b'v' ∷ []; files = codes "conf" ∷ [] })
      ≡ 0)
    ↔ AcceptsAll read_file sexpr_parse
        (record { options = b'C' ∷ b'v' ∷ []; files = codes "conf" ∷ [] })
main_iff_example =
    main_iff read_file sexpr_parse
      (record { options = b'C' ∷ b'v' ∷ []; files = codes "conf" ∷ [] })
