-- ===== src/Extern/Samples.antt =====
-- Values of the interfaces to the libraries, for the examples.
use blahgd.Prelude.{
  ℕ, ◌%◌, ◌<◌, ◌^◌, ◌≡◌, Bool, true, String, List, [], ◌∷◌, Option, none, some, arith,
  if◌then◌else◌, str_eq, Bytes,
}
use blahgd.Extern.Query.{QueryApi, Found, found, noent}

-- A query by its strings and its numbers.
pub record Params : Type 0 where
  pub strings : List (String × Bytes)
  pub numbers : List (String × ℕ)

abbrev pub assoc : {A : Type 0} → String → List (String × A) → Option A
assoc k [] = none
assoc k ((j, a) ∷ l) = if str_eq j k then some a else assoc k l

abbrev pub found_of : Option Bytes → Found Bytes
found_of none = noent
found_of (some s) = found s

abbrev pub is_some : {A : Type 0} → Option A → Bool
is_some none = Bool.false
is_some (some a) = true

abbrev pub u64_of : Option ℕ → Option ℕ
u64_of none = none
u64_of (some n) = some (n % 2 ^ 64)

pub u64_of_lt : (o : Option ℕ) (n : ℕ) → u64_of o ≡ some n → n < 2 ^ 64
u64_of_lt none n h = cc
u64_of_lt (some m) n h = ground arith

abbrev pub sample_api : QueryApi
sample_api = record {
  Query = Params;
  lookup_str = λ q k. found_of (assoc k q.strings);
  lookup_int = λ q k. u64_of (assoc k q.numbers);
  exists = λ q k. is_some (assoc k q.strings);
  exists_type = λ q k. is_some (assoc k q.strings);
  convert = λ ks q. some q;
  scgi_http_user_agent = "HTTP_USER_AGENT";
  scgi_remote_addr = "REMOTE_ADDR";
  scgi_document_uri = "DOCUMENT_URI";
  lookup_int_u64 = λ q k n h. u64_of_lt (assoc k q.numbers) n h;
}
