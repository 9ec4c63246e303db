-- ===== src/Static.antt =====
-- static.c: which URIs are served, and from which files.
pub mod Laws
mod Tests
use blahgd.Prelude.{
  List, [], ◌∷◌, ◌++◌, Option, none, some, if◌then◌else◌, take, Bytes, codes, bytes_eq,
}
use blahgd.Utils.DotDot.{hasdotdot}

pub data UriType : Type 0 where
  uri_dynamic uri_static uri_bad : UriType

pub record UriInfo : Type 0 where
  pub uri : Bytes
  pub content_type : Option Bytes
  pub type : UriType

-- The table up to its terminator.
unfoldable pub safe_uris : List UriInfo
safe_uris =
    record { uri = codes "/"; content_type = none; type = uri_dynamic }
    ∷ record { uri = codes "/bug.png"; content_type = some (codes "image/png"); type = uri_static }
    ∷ record {
      uri = codes "/favicon.ico";
      content_type = some (codes "image/png");
      type = uri_static;
    }
    ∷ record { uri = codes "/style.css"; content_type = some (codes "text/css"); type = uri_static }
    ∷ record { uri = codes "/wiki.png"; content_type = some (codes "image/png"); type = uri_static }
    ∷ []

unfoldable pub find_uri : Bytes → List UriInfo → Option UriInfo
find_uri path [] = none
find_uri path (u ∷ uris) = if bytes_eq u.uri path then some u else find_uri path uris

-- `none` is NULL, for the path and for the result.
unfoldable pub get_uri_info : Option Bytes → Option UriInfo
unfolding find_uri safe_uris
get_uri_info none = none
get_uri_info (some path) = if hasdotdot path then none else find_uri path safe_uris

unfoldable pub get_uri_type : Option Bytes → UriType
unfolding get_uri_info
get_uri_type path = elim (get_uri_info path) [ none ↦ uri_bad | some info ↦ info.type ]

-- uri++ on a C string
abbrev pub skip_first : Bytes → Bytes
skip_first [] = []
skip_first (c ∷ uri) = uri

-- How blahg_static ends: ASSERT(info) fails, the file cannot be read and the answer is a 404, or
-- the file's bytes are sent with the content type of the table.
pub data Served : Type 0 where
  panic : Served
  not_found : Served
  file : Bytes → Bytes → Option Bytes → Served

-- snprintf into FILENAME_MAX bytes
abbrev pub static_path : Bytes → Bytes → Bytes
static_path web_dir uri = take 4095 (web_dir ++ (codes "/" ++ skip_first uri))

-- `read_file` is the file system.
unfoldable pub blahg_static : Bytes → (Bytes → Option Bytes) → Bytes → Served
unfolding get_uri_info
blahg_static web_dir read_file uri = elim (get_uri_info (some uri)) [
  | none ↦ panic
  | some info ↦ elim (read_file (static_path web_dir uri)) [
    | none ↦ not_found
    | some body ↦ file (static_path web_dir uri) body info.content_type
  ]
]
