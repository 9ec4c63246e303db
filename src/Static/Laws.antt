-- ===== src/Static/Laws.antt =====
-- Only the files of the table are served.
use blahgd.Prelude.{
  ◌≡◌, ◌≢◌, refl, ◌++◌, Option, none, some, arith, Bytes, codes, bytes_eq, bytes_eq_sound, inl, inr,
  ◌⊎◌, ◌↔◌, take,
}
use blahgd.Utils.DotDot.{hasdotdot}
use blahgd.Static.{uri_static, get_uri_type, Served, panic, not_found, file, blahg_static}

-- The URIs of the static files.
abbrev pub IsStaticUri : Bytes → Type 0
IsStaticUri uri =
    (uri ≡ codes "/bug.png")
    ⊎ ((uri ≡ codes "/favicon.ico") ⊎ ((uri ≡ codes "/style.css") ⊎ (uri ≡ codes "/wiki.png")))

static_sound : (uri : Bytes) → get_uri_type (some uri) ≡ uri_static → IsStaticUri uri
unfolding get_uri_type
static_sound uri h = ground (
  arith,
  bytes_eq_sound (codes "/bug.png") uri,
  bytes_eq_sound (codes "/favicon.ico") uri,
  bytes_eq_sound (codes "/style.css") uri,
  bytes_eq_sound (codes "/wiki.png") uri,
)

static_complete : (uri : Bytes) → IsStaticUri uri → get_uri_type (some uri) ≡ uri_static
unfolding get_uri_type hasdotdot bytes_eq
static_complete uri (inl e) = rw e refl
static_complete uri (inr (inl e)) = rw e refl
static_complete uri (inr (inr (inl e))) = rw e refl
static_complete uri (inr (inr (inr e))) = rw e refl

-- A URI is static exactly when it is one of the four files of the table.
pub get_uri_type_static_iff :
    (uri : Bytes) → (get_uri_type (some uri) ≡ uri_static) ↔ IsStaticUri uri
get_uri_type_static_iff uri = (static_sound uri, static_complete uri)

-- What is sent for a URI.
abbrev pub IsServed : Bytes → (Bytes → Option Bytes) → Bytes → Served → Type 0
IsServed web_dir read_file uri panic = ⊥
IsServed web_dir read_file uri not_found = read_file (take 4095 (web_dir ++ uri)) ≡ none
IsServed web_dir read_file uri (file path body content_type) =
    (path ≡ take 4095 (web_dir ++ uri)) × (read_file path ≡ some body) × (content_type ≢ none)

module _ (web_dir : Bytes) (read_file : Bytes → Option Bytes) where
  sent :
      (uri path : Bytes) (t : Bytes)
      → path ≡ take 4095 (web_dir ++ uri)
      → (o : Option Bytes) → read_file path ≡ o
      → IsServed web_dir read_file uri
          (elim o [ none ↦ not_found | some body ↦ file path body (some t) ])
  sent uri path t e none r = rw (← e) r
  sent uri path t e (some body) r = (e, r, λ q. cc)

  -- For each URI that get_uri_type calls static, the assertion of blahg_static holds, the file that
  -- is read is the one with the URI's name under the web directory, cut off to FILENAME_MAX bytes,
  -- and it is sent with a content type, or a 404 is sent where it cannot be read.
  pub blahg_static-IsServed :
      (uri : Bytes)
      → get_uri_type (some uri) ≡ uri_static
      → IsServed web_dir read_file uri (blahg_static web_dir read_file uri)
  unfolding blahg_static hasdotdot bytes_eq
  blahg_static-IsServed uri h = go (static_sound uri h)
    where
      go : IsStaticUri uri → IsServed web_dir read_file uri (blahg_static web_dir read_file uri)
      go (inl e) = rw e (sent (codes "/bug.png") _ _ refl _ refl)
      go (inr (inl e)) = rw e (sent (codes "/favicon.ico") _ _ refl _ refl)
      go (inr (inr (inl e))) = rw e (sent (codes "/style.css") _ _ refl _ refl)
      go (inr (inr (inr e))) = rw e (sent (codes "/wiki.png") _ _ refl _ refl)
