-- ===== src/Config.antt =====
-- config.c: the configuration is read from an association list, with defaults. `defaults` are the
-- values that config.cmake writes into config.h, and `random` the two results of rand().
pub mod Laws
mod Tests
use blahgd.Prelude.{ℕ, ◌-◌, ◌^◌, String, Option, none, some, ltb, ◌==◌, if◌then◌else◌, Bytes, codes}
use blahgd.Extern.Alist.{Alist, Val, int_of, str_of}

pub record Defaults : Type 0 where
  pub scgi_port : ℕ
  pub html_index_stories : ℕ
  pub feed_index_stories : ℕ
  pub comment_max_think : ℕ
  pub comment_min_think : ℕ
  pub data_dir : Bytes
  pub web_dir : Bytes
  pub template_dir : Bytes
  pub tagcloud_min_size : ℕ
  pub tagcloud_max_size : ℕ

-- The number of threads: -1 stands for one on each processor.
pub data Threads : Type 0 where
  per_cpu : Threads
  threads : ℕ → Threads

pub record Config : Type 0 where
  pub scgi_port : ℕ
  pub scgi_threads : Threads
  pub html_index_stories : ℕ
  pub feed_index_stories : ℕ
  pub comment_max_think : ℕ
  pub comment_min_think : ℕ
  pub comment_captcha_a : ℕ
  pub comment_captcha_b : ℕ
  pub data_dir : Bytes
  pub web_dir : Bytes
  pub template_dir : Bytes
  pub base_url : Bytes
  pub bug_base_url : Bytes
  pub wiki_base_url : Bytes
  pub photo_base_url : Bytes
  pub tagcloud_min_size : ℕ
  pub tagcloud_max_size : ℕ
  pub twitter_username : Option Bytes
  pub twitter_description : Option Bytes
  pub category_to_tag : Option Val

abbrev pub get_or {ℓ} : {A : Type ℓ} → Option A → A → A
get_or none d = d
get_or (some a) d = a

abbrev pub or_default {ℓ} : {A : Type ℓ} → Option A → Option A → Option A
or_default none d = d
or_default (some a) d = some a

abbrev pub config_load_u64 : Alist → String → ℕ → ℕ
config_load_u64 lv vname def = get_or (int_of (lv vname)) def

abbrev pub config_load_url : Alist → String → Bytes
config_load_url lv vname = get_or (str_of (lv vname)) (codes "example.com")

-- `none` is NULL, for the default and for the result.
abbrev pub config_load_str : Alist → String → Option Bytes → Option Bytes
config_load_str lv vname def = or_default (str_of (lv vname)) def

-- With a default that is not NULL the result is not NULL.
abbrev pub config_load_dir : Alist → String → Bytes → Bytes
config_load_dir lv vname def = get_or (config_load_str lv vname (some def)) def

abbrev pub port_of : ℕ → ℕ → ℕ
port_of def tmp = if ltb tmp 65536 then tmp else def

unfoldable pub config_load_scgi_port : Alist → ℕ → ℕ
config_load_scgi_port lv def = port_of def (config_load_u64 lv "scgi-port" def)

abbrev pub int_max : ℕ
int_max = 2 ^ 31 - 1

abbrev pub threads_of : ℕ → Threads
threads_of tmp =
    if tmp == 0 then per_cpu else if ltb int_max tmp then threads int_max else threads tmp

unfoldable pub config_load_scgi_threads : Alist → Threads
config_load_scgi_threads lv = threads_of (config_load_u64 lv "scgi-threads" 0)

-- A NULL list, for a NULL file name, has no values.
abbrev pub no_list : Alist
no_list name = none

unfoldable pub config_of : Defaults → ℕ × ℕ → Alist → Config
unfolding config_load_scgi_port config_load_scgi_threads
config_of defaults random lv = record {
  scgi_port = config_load_scgi_port lv defaults.scgi_port;
  scgi_threads = config_load_scgi_threads lv;
  html_index_stories = config_load_u64 lv "html-index-stories" defaults.html_index_stories;
  feed_index_stories = config_load_u64 lv "feed-index-stories" defaults.feed_index_stories;
  comment_max_think = config_load_u64 lv "comment-max-think" defaults.comment_max_think;
  comment_min_think = config_load_u64 lv "comment-min-think" defaults.comment_min_think;
  comment_captcha_a = config_load_u64 lv "comment-captcha-a" random.0;
  comment_captcha_b = config_load_u64 lv "comment-captcha-b" random.1;
  data_dir = config_load_dir lv "data-dir" defaults.data_dir;
  web_dir = config_load_dir lv "web-dir" defaults.web_dir;
  template_dir = config_load_dir lv "template-dir" defaults.template_dir;
  base_url = config_load_url lv "base-url";
  bug_base_url = config_load_url lv "bug-base-url";
  wiki_base_url = config_load_url lv "wiki-base-url";
  photo_base_url = config_load_url lv "photo-base-url";
  tagcloud_min_size = config_load_u64 lv "tagcloud-min-size" defaults.tagcloud_min_size;
  tagcloud_max_size = config_load_u64 lv "tagcloud-max-size" defaults.tagcloud_max_size;
  twitter_username = config_load_str lv "twitter-username" none;
  twitter_description = config_load_str lv "twitter-description" none;
  category_to_tag = lv "category-to-tag";
}

-- read_file and sexpr_parse_cstr: `none` is an error, which config_load returns.
unfoldable pub config_load :
    Defaults
    → ℕ × ℕ
    → (Bytes → Option Bytes)
    → (Bytes → Option Alist)
    → Option Bytes
    → Option Config
unfolding config_of
config_load defaults random read_file parse none = some (config_of defaults random no_list)
config_load defaults random read_file parse (some fname) = elim (read_file fname) [
  | none ↦ none
  | some raw ↦ elim (parse raw) [ none ↦ none | some lv ↦ some (config_of defaults random lv) ]
]
