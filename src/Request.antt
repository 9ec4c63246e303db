-- ===== src/Request.antt =====
-- req.c: which page a request asks for, in which format, and which handler answers it.
pub mod Laws
pub mod Numerals
pub mod Log
pub mod Logging
pub mod Output
mod Tests
use blahgd.Prelude.{
  ℕ, ◌-◌, ◌^◌, Bool, true, false, [], ◌∷◌, Option, none, some, ltb, if◌then◌else◌, Bytes, codes,
  bytes_eq,
}
use blahgd.Extern.Query.{QueryApi, Found, found, noent, error}
use blahgd.Static.{UriType, uri_dynamic, uri_static, uri_bad, get_uri_type}

pub data Page : Type 0 where
  page_archive page_category page_tag page_comment page_index page_story page_admin page_static :
      Page

-- The page, if the URI is not bad, and the query with its numbers converted.
pub record Selected (Q : Type 0) : Type 0 where
  pub page : Page
  pub query : Q

pub record Config : Type 0 where
  pub html_index_stories : ℕ
  pub feed_index_stories : ℕ

-- What switch_content_type sets in the request.
pub record Format : Type 0 where
  pub fmt : Bytes
  pub content_type : Bytes
  pub index_stories : ℕ

-- The handler that req_dispatch calls, with the page number that it is given.
pub data Action : Type 0 where
  r404 : Option Bytes → Action
  static_file story comment admin : Action
  archive category tag index : ℕ → Action

pub record Dispatched : Type 0 where
  pub action : Action
  pub format : Option Format

abbrev pub html : Bytes
html = codes "html"

-- The three cases of the request's feed format; `none` is an unsupported one or an internal error.
unfoldable pub format_of : Config → Found Bytes → Option Format
format_of config error = none
format_of config noent = some (record {
  fmt = html;
  content_type = codes "text/html";
  index_stories = config.html_index_stories;
})
format_of config (found feed) =
    if bytes_eq feed (codes "atom")
    then some (record {
      fmt = feed;
      content_type = codes "application/atom+xml";
      index_stories = config.feed_index_stories;
    })
    else if bytes_eq feed (codes "rss2")
    then some (record {
      fmt = feed;
      content_type = codes "application/rss+xml";
      index_stories = config.feed_index_stories;
    })
    else none

-- Feeds are for the index and for stories.
abbrev pub has_feed : Page → Bool
has_feed page_index = true
has_feed page_story = true
has_feed _ = false

unfoldable pub checked_format : Page → Option Format → Option Format
checked_format page none = none
checked_format page (some f) =
    if has_feed page then some f else if bytes_eq f.fmt html then some f else none

abbrev pub int_max : ℕ
int_max = 2 ^ 31 - 1

abbrev pub page_number : Option ℕ → ℕ
page_number none = 0
page_number (some tmp) = if ltb int_max tmp then 0 else tmp

abbrev pub action_of : Page → ℕ → Action
action_of page_static n = static_file
action_of page_archive n = archive n
action_of page_category n = category n
action_of page_tag n = tag n
action_of page_comment n = comment
action_of page_index n = index n
action_of page_story n = story
action_of page_admin n = admin

module _ (api : QueryApi) where
  open api use {Query, lookup_str, lookup_int, exists, convert, scgi_document_uri}

  -- (void) nvl_convert: on an error the query stays as it is.
  abbrev pub converted : Query → Query
  converted q = elim (convert ("p" ∷ "paged" ∷ "m" ∷ "preview" ∷ []) q) [ none ↦ q | some q' ↦ q' ]

  unfoldable pub page_of : Query → Page
  page_of q =
      if exists q "comment"
      then page_comment
      else if exists q "tag"
      then page_tag
      else if exists q "cat"
      then page_category
      else if exists q "m"
      then page_archive
      else if exists q "p"
      then page_story
      else if exists q "admin"
      then page_admin
      else page_index

  abbrev pub selected_of : UriType → Query → Option (Selected Query)
  selected_of uri_static q = some (record { page = page_static; query = q })
  selected_of uri_dynamic q = some (record { page = page_of (converted q); query = converted q })
  selected_of uri_bad q = none

  -- `uri` is the request's document URI, which is there.
  unfoldable pub select_page : Bytes → Query → Option (Selected Query)
  unfolding page_of
  select_page uri q = selected_of (get_uri_type (some uri)) q

  unfoldable pub switch_content_type : Config → Selected Query → Option Format
  unfolding format_of checked_format
  switch_content_type config s =
      checked_format s.page (format_of config (lookup_str s.query "feed"))

  unfoldable pub get_page_number : Query → ℕ
  get_page_number q = page_number (lookup_int q "paged")

  abbrev pub dispatch_format : Selected Query → Option Format → Dispatched
  dispatch_format s none = record {
    action = r404 (some (codes "{error_unsupported_feed_fmt}"));
    format = none;
  }
  dispatch_format s (some f) = record {
    action = action_of s.page (get_page_number s.query);
    format = some f;
  }

  abbrev pub dispatch_selected : Config → Option (Selected Query) → Dispatched
  dispatch_selected config none = record { action = r404 none; format = none }
  dispatch_selected config (some s) = dispatch_format s (switch_content_type config s)

  unfoldable pub req_dispatch : Config → Bytes → Query → Dispatched
  unfolding select_page switch_content_type get_page_number
  req_dispatch config uri q = dispatch_selected config (select_page uri q)
