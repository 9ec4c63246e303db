-- ===== src/Config/Tests.antt =====
-- An example for the configuration.
use blahgd.Prelude.{none, some, [], codes, arith, if◌then◌else◌, str_eq}
use blahgd.Extern.Alist.{Alist, int}
use blahgd.Config.{Defaults, config_load}
use blahgd.Config.Laws.{IsRunnable, config_load-IsRunnable}

abbrev defaults : Defaults
defaults = record {
  scgi_port = 2014;
  html_index_stories = 10;
  feed_index_stories = 15;
  comment_max_think = 86400;
  comment_min_think = 10;
  data_dir = codes "data";
  web_dir = codes "web";
  template_dir = codes "templates";
  tagcloud_min_size = 6;
  tagcloud_max_size = 18;
}

-- A port that does not fit.
abbrev bad_port : Alist
bad_port name = if str_eq name "scgi-port" then some (int 70000) else none

config_load-IsRunnable_example :
    IsRunnable (config_load defaults (3, 4) (λ f. some []) (λ s. some bad_port) (some (codes "f")))
config_load-IsRunnable_example =
    config_load-IsRunnable defaults (3, 4) (λ f. some []) (λ s. some bad_port) (some (codes "f"))
      (omega arith)
