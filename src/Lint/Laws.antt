-- ===== src/Lint/Laws.antt =====
-- What the checks of lisplint promise to the code that loads the same data.
use blahgd.Prelude.{
  ℕ, ap, ◌∙◌, sym, codes, ◌≡◌, refl, Bool, true, false, ◌&&◌, String, List, [], ◌∷◌, Option, none,
  some, All, Bytes, ◌⊎◌, inl, inr,
}
use blahgd.Extern.Alist.{
  Alist, Val, int, str, bool, null, blob, sym as symbol, cons, char, array, nvl, int_of, str_of,
}
use blahgd.Config.{
  Defaults, Config, get_or, or_default, config_load_u64, config_load_url, config_load_dir, port_of,
  threads_of, config_of,
}
use blahgd.Lint.{
  vt_int, vt_str, vt_bool, typed, check_type, check_comment, all_optional, config_ints, config_strs,
  check_config,
}

-- A value of the type is there, or none is.
abbrev pub IsRead : {A : Type 0} → (A → Val) → Option Val → Type 0
IsRead {A} make o = (o ≡ none) ⊎ ((a : A) × (o ≡ some (make a)))

typed_int : (o : Option Val) → typed o vt_int false ≡ true → IsRead int o
typed_int none h = inl refl
typed_int (some (int n)) h = inr (n, refl)
typed_int (some (str s)) h = cc
typed_int (some (bool b)) h = cc
typed_int (some null) h = cc
typed_int (some blob) h = cc
typed_int (some symbol) h = cc
typed_int (some cons) h = cc
typed_int (some char) h = cc
typed_int (some array) h = cc
typed_int (some nvl) h = cc

typed_str : (m : Bool) (o : Option Val) → typed o vt_str m ≡ true → IsRead str o
typed_str m none h = inl refl
typed_str m (some (str s)) h = inr (s, refl)
typed_str m (some (int n)) h = cc
typed_str m (some (bool b)) h = cc
typed_str m (some null) h = cc
typed_str m (some blob) h = cc
typed_str m (some symbol) h = cc
typed_str m (some cons) h = cc
typed_str m (some char) h = cc
typed_str m (some array) h = cc
typed_str m (some nvl) h = cc

-- A mandatory string is there.
typed_mandatory : (o : Option Val) → typed o vt_str true ≡ true → (s : Bytes) × (o ≡ some (str s))
typed_mandatory none h = cc
typed_mandatory (some (str s)) h = (s, refl)
typed_mandatory (some (int n)) h = cc
typed_mandatory (some (bool b)) h = cc
typed_mandatory (some null) h = cc
typed_mandatory (some blob) h = cc
typed_mandatory (some symbol) h = cc
typed_mandatory (some cons) h = cc
typed_mandatory (some char) h = cc
typed_mandatory (some array) h = cc
typed_mandatory (some nvl) h = cc

and_left : (a b : Bool) → (a && b) ≡ true → a ≡ true
and_left true b h = refl
and_left false b h = h

and_right : (a b : Bool) → (a && b) ≡ true → b ≡ true
and_right true b h = h
and_right false b h = cc

last_three :
    (a b c d e f : Bool)
    → (a && (b && (c && (d && (e && f))))) ≡ true
    → (d ≡ true) × (e ≡ true) × (f ≡ true)
last_three a b c d e f h = (and_left d _ def, and_left e f ef, and_right e f ef)
  where
    def : (d && (e && f)) ≡ true
    def = and_right c _ (and_right b _ (and_right a _ h))

    ef : (e && f) ≡ true
    ef = and_right d _ def

module _ (lv : Alist) where
  all_ints :
      (names : List String)
      → all_optional lv vt_int names ≡ true
      → All (λ name. IsRead int (lv name)) names
  unfolding check_type
  all_ints [] h = tt
  all_ints (name ∷ names) h =
      (typed_int (lv name) (and_left _ _ h), all_ints names (and_right _ _ h))

  all_strs :
      (names : List String)
      → all_optional lv vt_str names ≡ true
      → All (λ name. IsRead str (lv name)) names
  unfolding check_type
  all_strs [] h = tt
  all_strs (name ∷ names) h =
      (typed_str false (lv name) (and_left _ _ h), all_strs names (and_right _ _ h))

  -- In a configuration that lisplint accepts, every number and every string that it checks is
  -- either missing or has the type that config.c looks it up as.
  check_config-IsRead :
      check_config lv ≡ true
      → All (λ name. IsRead int (lv name)) config_ints
        × All (λ name. IsRead str (lv name)) config_strs
  unfolding check_config
  check_config-IsRead h = (
    all_ints config_ints (and_left _ _ h),
    all_strs config_strs (and_left _ _ (and_right (all_optional lv vt_int config_ints) _ h)),
  )

  -- A number and a string that config.c takes as they are.
  abbrev pub TakesInt : ℕ → String → Type 0
  TakesInt n name = (lv name ≡ none) ⊎ (lv name ≡ some (int n))

  abbrev pub TakesStr : Bytes → String → Type 0
  TakesStr s name = (lv name ≡ none) ⊎ (lv name ≡ some (str s))

  -- A number that config.c takes with a change.
  abbrev pub TakesAs : {A : Type 0} → (ℕ → A) → A → String → Type 0
  TakesAs change a name = (lv name ≡ none) ⊎ ((n : ℕ) × (lv name ≡ some (int n)) × (a ≡ change n))

  takes_int :
      (name : String) (d : ℕ) → IsRead int (lv name) → TakesInt (config_load_u64 lv name d) name
  takes_int name d (inl h) = inl h
  takes_int name d (inr (n, e)) =
      let t : config_load_u64 lv name d ≡ n = ap (λ o. get_or (int_of o) d) e in
      inr (e ∙ ap (λ k. some (int k)) (sym t))

  takes_as :
      {A : Type 0} (change : ℕ → A) (name : String) (d : ℕ)
      → IsRead int (lv name)
      → TakesAs change (change (config_load_u64 lv name d)) name
  takes_as change name d (inl h) = inl h
  takes_as change name d (inr (n, e)) = inr (n, e, ap (λ o. change (get_or (int_of o) d)) e)

  takes_url : (name : String) → IsRead str (lv name) → TakesStr (config_load_url lv name) name
  takes_url name (inl h) = inl h
  takes_url name (inr (s, e)) =
      let t : config_load_url lv name ≡ s = ap (λ o. get_or (str_of o) (codes "example.com")) e in
      inr (e ∙ ap (λ k. some (str k)) (sym t))

  takes_dir :
      (name : String) (d : Bytes) → IsRead str (lv name) → TakesStr (config_load_dir lv name d) name
  takes_dir name d (inl h) = inl h
  takes_dir name d (inr (s, e)) =
      let t : config_load_dir lv name d ≡ s =
        ap (λ o. get_or (or_default (str_of o) (some d)) d) e in
      inr (e ∙ ap (λ k. some (str k)) (sym t))

  -- What becomes of the values of a configuration.
  pub record IsTaken (defaults : Defaults) (c : Config) : Type 0 where
    pub port : TakesAs (port_of defaults.scgi_port) c.scgi_port "scgi-port"
    pub threads : TakesAs threads_of c.scgi_threads "scgi-threads"
    pub html_index_stories : TakesInt c.html_index_stories "html-index-stories"
    pub feed_index_stories : TakesInt c.feed_index_stories "feed-index-stories"
    pub comment_max_think : TakesInt c.comment_max_think "comment-max-think"
    pub comment_min_think : TakesInt c.comment_min_think "comment-min-think"
    pub comment_captcha_a : TakesInt c.comment_captcha_a "comment-captcha-a"
    pub comment_captcha_b : TakesInt c.comment_captcha_b "comment-captcha-b"
    pub tagcloud_min_size : TakesInt c.tagcloud_min_size "tagcloud-min-size"
    pub tagcloud_max_size : TakesInt c.tagcloud_max_size "tagcloud-max-size"
    pub data_dir : TakesStr c.data_dir "data-dir"
    pub web_dir : TakesStr c.web_dir "web-dir"
    pub template_dir : TakesStr c.template_dir "template-dir"
    pub base_url : TakesStr c.base_url "base-url"
    pub bug_base_url : TakesStr c.bug_base_url "bug-base-url"
    pub wiki_base_url : TakesStr c.wiki_base_url "wiki-base-url"
    pub photo_base_url : TakesStr c.photo_base_url "photo-base-url"

  -- Of a configuration that lisplint accepts, config_load takes every string that lisplint checks and
  -- every number but the port and the number of threads as it is, where it is not missing. Of these
  -- two it takes what it makes of the number: a port above 65535 becomes the default, no threads
  -- become one on each processor, and more threads than INT_MAX become INT_MAX.
  pub check_config-IsTaken :
      (defaults : Defaults) (random : ℕ × ℕ)
      → check_config lv ≡ true
      → IsTaken defaults (config_of defaults random lv)
  unfolding config_of
  check_config-IsTaken defaults random h =
      let (ints, strs) = check_config-IsRead h in
      let (port, (threads, (html, (feed, (max, (min, (a, (b, (smallest, (largest, end)))))))))) =
        ints in
      let (
        data_dir,
        (web_dir, (template_dir, (base_url, (bug_url, (wiki_url, (photo_url, end')))))),
      ) =
        strs in
      record {
        port = takes_as (port_of defaults.scgi_port) "scgi-port" defaults.scgi_port port;
        threads = takes_as threads_of "scgi-threads" 0 threads;
        html_index_stories = takes_int "html-index-stories" defaults.html_index_stories html;
        feed_index_stories = takes_int "feed-index-stories" defaults.feed_index_stories feed;
        comment_max_think = takes_int "comment-max-think" defaults.comment_max_think max;
        comment_min_think = takes_int "comment-min-think" defaults.comment_min_think min;
        comment_captcha_a = takes_int "comment-captcha-a" random.0 a;
        comment_captcha_b = takes_int "comment-captcha-b" random.1 b;
        tagcloud_min_size = takes_int "tagcloud-min-size" defaults.tagcloud_min_size smallest;
        tagcloud_max_size = takes_int "tagcloud-max-size" defaults.tagcloud_max_size largest;
        data_dir = takes_dir "data-dir" defaults.data_dir data_dir;
        web_dir = takes_dir "web-dir" defaults.web_dir web_dir;
        template_dir = takes_dir "template-dir" defaults.template_dir template_dir;
        base_url = takes_url "base-url" base_url;
        bug_base_url = takes_url "bug-base-url" bug_url;
        wiki_base_url = takes_url "wiki-base-url" wiki_url;
        photo_base_url = takes_url "photo-base-url" photo_url;
      }

  -- A comment that lisplint accepts has strings for its author, its email and its time.
  pub check_comment-mandatory :
      check_comment lv ≡ true
      → ((s : Bytes) × (lv "author" ≡ some (str s)))
        × ((s : Bytes) × (lv "email" ≡ some (str s)))
        × ((s : Bytes) × (lv "time" ≡ some (str s)))
  unfolding check_comment
  check_comment-mandatory h =
      let (time, email, author) =
        last_three (check_type lv "moderated" vt_bool true) (check_type lv "url" vt_str false)
          (check_type lv "ip" vt_str false) (check_type lv "time" vt_str true)
          (check_type lv "email" vt_str true) (check_type lv "author" vt_str true) h in
      (
        typed_mandatory (lv "author") author,
        typed_mandatory (lv "email") email,
        typed_mandatory (lv "time") time,
      )
