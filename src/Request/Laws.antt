-- ===== src/Request/Laws.antt =====
-- What req_dispatch answers.
use blahgd.Prelude.{
  ℕ, ◌≤◌, ◌≡◌, ◌≢◌, refl, sym, ap, ◌∙◌, false≢true, true, false, Option, none, some, arith, Bytes,
  bytes_eq_sound, Bool-cases, inl, inr,
}
use blahgd.Extern.Query.{QueryApi}
use blahgd.Request.{
  Page, page_archive, page_category, page_tag, page_comment, page_index, page_story, page_admin,
  page_static, Selected, Config, Format, Action, r404, static_file, story, comment, admin, archive,
  category, tag, index, html, format_of, has_feed, checked_format, int_max, page_number, action_of,
  select_page, switch_content_type, get_page_number, dispatch_format, dispatch_selected,
  req_dispatch,
}

-- The page number of an action fits an int.
abbrev pub IsInt : Action → Type 0
IsInt (r404 t) = Unit
IsInt static_file = Unit
IsInt story = Unit
IsInt comment = Unit
IsInt admin = Unit
IsInt (archive n) = n ≤ int_max
IsInt (category n) = n ≤ int_max
IsInt (tag n) = n ≤ int_max
IsInt (index n) = n ≤ int_max

page_number-le : (o : Option ℕ) → page_number o ≤ int_max
page_number-le none = omega arith
page_number-le (some n) = ground arith

action_of-IsInt : (p : Page) (n : ℕ) → n ≤ int_max → IsInt (action_of p n)
action_of-IsInt page_archive n h = h
action_of-IsInt page_category n h = h
action_of-IsInt page_tag n h = h
action_of-IsInt page_comment n h = tt
action_of-IsInt page_index n h = h
action_of-IsInt page_story n h = tt
action_of-IsInt page_admin n h = tt
action_of-IsInt page_static n h = tt

-- A feed's format is not html, and only pages that have a feed keep it.
checked-html :
    (p : Page) (f : Format) (o : Option Format)
    → has_feed p ≡ false
    → checked_format p o ≡ some f
    → f.fmt ≡ html
unfolding checked_format
checked-html p f none h e = cc
checked-html p f (some g) h e = ground (arith, bytes_eq_sound g.fmt html)

-- The pages that may be sent as a feed.
abbrev pub IsFeedAction : Action → Type 0
IsFeedAction (r404 t) = ⊥
IsFeedAction static_file = ⊥
IsFeedAction story = Unit
IsFeedAction comment = ⊥
IsFeedAction admin = ⊥
IsFeedAction (archive n) = ⊥
IsFeedAction (category n) = ⊥
IsFeedAction (tag n) = ⊥
IsFeedAction (index n) = Unit

action_of-IsFeedAction : (p : Page) (n : ℕ) → (has_feed p ≡ true) → IsFeedAction (action_of p n)
action_of-IsFeedAction page_archive n h = false≢true h
action_of-IsFeedAction page_category n h = false≢true h
action_of-IsFeedAction page_tag n h = false≢true h
action_of-IsFeedAction page_comment n h = false≢true h
action_of-IsFeedAction page_index n h = tt
action_of-IsFeedAction page_story n h = tt
action_of-IsFeedAction page_admin n h = false≢true h
action_of-IsFeedAction page_static n h = false≢true h

module _ (api : QueryApi) (config : Config) where
  selected-IsInt : (o : Option (Selected api.Query)) → IsInt (dispatch_selected api config o).action
  selected-IsInt none = tt
  selected-IsInt (some s) = go (switch_content_type api config s)
    where
      go : (f : Option Format) → IsInt (dispatch_format api s f).action
      go none = tt
      go (some f) = action_of-IsInt s.page (get_page_number api s.query) (number s.query)
        where
          number : (q : api.Query) → get_page_number api q ≤ int_max
          number q = unfold get_page_number in page_number-le (api.lookup_int q "paged")

  -- Every page number that req_dispatch hands to a page's function is at most INT_MAX.
  pub req_dispatch-IsInt :
      (uri : Bytes) (q : api.Query) → IsInt (req_dispatch api config uri q).action
  unfolding req_dispatch
  req_dispatch-IsInt uri q = selected-IsInt (select_page api uri q)

  format_selected :
      (s : Selected api.Query) (o : Option Format) (f : Format)
      → switch_content_type api config s ≡ o
      → (dispatch_format api s o).format ≡ some f
      → f.fmt ≢ html
      → IsFeedAction (dispatch_format api s o).action
  unfolding switch_content_type
  format_selected s none f e h n = cc
  format_selected s (some g) f e h n = elim (Bool-cases (has_feed s.page)) [
    | inl p ↦ action_of-IsFeedAction s.page (get_page_number api s.query) p
    | inr p ↦
        let same : g ≡ f = cc in
        absurd (
          n (
            sym (ap (λ (x : Format). x.fmt) same)
            ∙ checked-html s.page g (format_of config (api.lookup_str s.query "feed")) p e))
  ]

  feed_selected :
      (o : Option (Selected api.Query)) (f : Format)
      → (dispatch_selected api config o).format ≡ some f
      → f.fmt ≢ html
      → IsFeedAction (dispatch_selected api config o).action
  feed_selected none f h n = cc
  feed_selected (some s) f h n = format_selected s (switch_content_type api config s) f refl h n

  -- A request that is answered in another format than html is answered by the index or a story.
  pub req_dispatch-IsFeedAction :
      (uri : Bytes) (q : api.Query) (f : Format)
      → (req_dispatch api config uri q).format ≡ some f
      → f.fmt ≢ html
      → IsFeedAction (req_dispatch api config uri q).action
  unfolding req_dispatch
  req_dispatch-IsFeedAction uri q f = feed_selected (select_page api uri q) f
