-- ===== src/Request/Log.antt =====
-- req.c, log_request: the entry that is written for a request that has been answered. A name-value
-- list that is built is a list of its fields; the lists that the request holds are pointers. The
-- counts are of what the function has to give back: the lists and buffers that it has allocated and
-- the references that it has taken of the request's lists.
use blahgd.Prelude.{
  ℕ, ◌==◌, ◌+◌, ◌-◌, ◌/◌, ◌%◌, ◌^◌, Bool, true, false, List, [], ◌∷◌, ◌++◌, Option, none, some,
  if◌then◌else◌, take, total, Bytes, codes, decimal, String,
}
use blahgd.Request.Numerals.{padded}

pub data Leaf : Type 0 where
  int_leaf : ℕ → Leaf
  str_leaf : Bytes → Leaf
  null_leaf : Leaf
  shared : ℕ → Leaf

pub data Field : Type 0 where
  leaf : String → Leaf → Field
  sub : String → List (String × Leaf) → Field

pub record Stats : Type 0 where
  pub selected_time : ℕ
  pub accepted_time : ℕ
  pub dequeued_time : ℕ
  pub read_header_time : ℕ
  pub read_body_time : ℕ
  pub compute_time : ℕ
  pub write_header_time : ℕ
  pub write_body_time : ℕ

-- What is read of the request, of the process and of the versions.
pub record Logged : Type 0 where
  pub data_dir : Bytes
  pub now : ℕ
  pub pid : ℕ
  pub hostname : Bytes
  pub version_string : Bytes
  pub jeffpc_version : Bytes
  pub id : ℕ
  pub headers : ℕ
  pub query : ℕ
  pub body : Bytes
  pub fmt : Option Bytes
  pub fd : ℕ
  pub thread_id : ℕ
  pub status : ℕ
  pub response_headers : ℕ
  pub bodylen : ℕ
  pub stats : Stats
  pub index_stories : ℕ

pub record State : Type 0 where
  pub memory : List Bool
  pub nvls : ℕ
  pub buffers : ℕ
  pub refs : ℕ
  pub file : Option (Bytes × Bytes)

-- snprintf into FILENAME_MAX bytes
abbrev pub snprintf : Bytes → Bytes
snprintf s = take 4095 s

abbrev pub stamp : ℕ → Bytes
stamp t = decimal (t / 10 ^ 9) ++ b'.' ∷ padded 9 (t % 10 ^ 9)

unfoldable pub file_name : Bytes → ℕ → ℕ → Bytes
file_name data_dir now id =
    snprintf (data_dir ++ (codes "/requests/" ++ (stamp now ++ b'-' ∷ padded 11 id)))

-- nvl_set_time
unfoldable pub nvl_set_time : String → ℕ → String × Leaf
nvl_set_time name ts = (name, if ts == 0 then null_leaf else int_leaf ts)

abbrev pub fmt_leaf : Option Bytes → Leaf
fmt_leaf none = null_leaf
fmt_leaf (some s) = str_leaf s

-- The lists that are allocated one after the other for the parts of the entry.
unfoldable pub sections : Logged → List (String × List (String × Leaf))
unfolding nvl_set_time
sections req =
    (
      "version",
      ("blahgd", str_leaf req.version_string) ∷ ("libjeffpc", str_leaf req.jeffpc_version) ∷ [],
    )
    ∷ (
      "request",
      ("id", int_leaf req.id)
          ∷ ("headers", shared req.headers)
          ∷ ("query", shared req.query)
          ∷ ("body", str_leaf req.body)
          ∷ ("fmt", fmt_leaf req.fmt)
          ∷ ("file-descriptor", int_leaf req.fd)
          ∷ ("thread-id", int_leaf req.thread_id)
          ∷ [],
    )
    ∷ (
      "response",
      ("status", int_leaf req.status)
          ∷ ("headers", shared req.response_headers)
          ∷ ("body-length", int_leaf req.bodylen)
          ∷ [],
    )
    ∷ (
      "stats",
      nvl_set_time "conn-selected" req.stats.selected_time
          ∷ nvl_set_time "conn-accepted" req.stats.accepted_time
          ∷ nvl_set_time "conn-dequeued" req.stats.dequeued_time
          ∷ nvl_set_time "scgi-read-header" req.stats.read_header_time
          ∷ nvl_set_time "scgi-read-body" req.stats.read_body_time
          ∷ nvl_set_time "scgi-compute" req.stats.compute_time
          ∷ nvl_set_time "scgi-write-header" req.stats.write_header_time
          ∷ nvl_set_time "scgi-write-body" req.stats.write_body_time
          ∷ [],
    )
    ∷ ("options", ("index-stories", int_leaf req.index_stories) ∷ [])
    ∷ []

abbrev pub first_fields : Logged → List Field
first_fields req =
    leaf "time-stamp" (int_leaf req.now)
    ∷ leaf "pid" (int_leaf req.pid)
    ∷ leaf "hostname" (str_leaf req.hostname)
    ∷ []

abbrev pub leaf_refs : String × Leaf → ℕ
leaf_refs (name, shared p) = 1
leaf_refs (name, l) = 0

-- The lists inside an entry, and the references that they hold.
abbrev pub inner_lists : Field → ℕ
inner_lists (leaf name l) = 0
inner_lists (sub name l) = 1

abbrev pub inner_refs : Field → ℕ
inner_refs (leaf name l) = 0
inner_refs (sub name l) = total leaf_refs l

-- nvl_alloc: whether there was memory.
abbrev pub alloc_from : List Bool → State → Bool × State
alloc_from [] st = (true, record st { nvls = st.nvls + 1 })
alloc_from (true ∷ m) st = (true, record st { memory = m; nvls = st.nvls + 1 })
alloc_from (false ∷ m) st = (false, record st { memory = m })

abbrev pub nvl_alloc : State → Bool × State
nvl_alloc st = alloc_from st.memory st

-- nvl_putref of the entry frees it with the lists that it holds.
abbrev pub nvl_putref : List Field → State → State
nvl_putref entry st = record st {
  nvls = st.nvls - (1 + total inner_lists entry);
  refs = st.refs - total inner_refs entry;
}

-- The entry with all sections, or the entry so far if an allocation fails.
unfoldable pub add_sections :
    List (String × List (String × Leaf)) → List Field → State → Bool × (List Field × State)
add_sections [] entry st = (true, (entry, st))
add_sections ((name, fields) ∷ l) entry st =
    let (ok, st') = nvl_alloc st in
    let st'' : State = record st' { refs = st'.refs + total leaf_refs fields } in
    let rest = add_sections l (entry ++ sub name fields ∷ []) st'' in
    if ok then rest else (false, (entry, st'))

module _ (nvl_pack : List Field → Option Bytes) (write_file : Bytes → Bytes → Bool) where
  abbrev pub buffer_free : State → State
  buffer_free st = record st { buffers = st.buffers - 1 }

  -- The two ways to the end after nvl_pack has allocated a buffer, and the one without a buffer.
  abbrev pub pack_and_write : Bytes → List Field → Option Bytes → State → State
  pack_and_write fname entry none st = nvl_putref entry st
  pack_and_write fname entry (some buf) st =
      let st' : State = record st { buffers = st.buffers + 1 } in
      if write_file fname buf
      then nvl_putref entry (buffer_free (record st' { file = some (fname, buf) }))
      else nvl_putref entry (buffer_free st')

  abbrev pub packed : Bytes → Bool × (List Field × State) → State
  packed fname (false, (entry, st)) = nvl_putref entry st
  packed fname (true, (entry, st)) = pack_and_write fname entry (nvl_pack entry) st

  abbrev pub logged : Logged → Bool × State → State
  logged req (false, st) = st
  logged req (true, st) =
      packed (file_name req.data_dir req.now req.id)
        (add_sections (sections req) (first_fields req) st)

  unfoldable pub log_request : Logged → State → State
  unfolding add_sections sections file_name
  log_request req st = logged req (nvl_alloc st)
