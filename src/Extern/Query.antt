-- ===== src/Extern/Query.antt =====
-- libjeffpc's name-value lists, as far as a request's headers and query are read: nvl_lookup_str,
-- nvl_lookup_int, nvl_exists, nvl_exists_type and nvl_convert.
use blahgd.Prelude.{ℕ, Bool, String, Option, List, Bytes, ◌<◌, ◌^◌, ◌≡◌, some}

-- What nvl_lookup_str returns: a string, -ENOENT, or another error.
pub data Found (A : Type 0) : Type 0 where
  found : A → Found A
  noent : Found A
  error : Found A

-- The last fields name the headers that libjeffpc's constants stand for. `lookup_int` is `none` where nvl_lookup_int returns an error; `exists_type` says whether
-- nvl_exists_type returns something else than 0; `convert` is nvl_convert, `none` on its error.
pub record QueryApi : Type 1 where
  pub Query : Type 0
  pub lookup_str : Query → String → Found Bytes
  pub lookup_int : Query → String → Option ℕ
  pub exists : Query → String → Bool
  pub exists_type : Query → String → Bool
  pub convert : List String → Query → Option Query
  pub scgi_http_user_agent : String
  pub scgi_remote_addr : String
  pub scgi_document_uri : String
  pub lookup_int_u64 : (q : Query) (k : String) (n : ℕ) → lookup_int q k ≡ some n → n < 2 ^ 64
