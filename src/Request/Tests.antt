-- ===== src/Request/Tests.antt =====
-- Examples for the answers to requests.
use blahgd.Prelude.{
  decimal, ◌≡◌, refl, arith, Bytes, Bool, true, false, List, Option, none, some, [], ◌∷◌, codes,
}
use blahgd.Request.Output.{
  calculate_content_length, calculate_render_time, req_output, Response, read_name,
  read_name-file_name,
}
use blahgd.Request.Log.{Logged, Field, State, file_name, log_request}
use blahgd.Request.Logging.{Leaves, log_request-Leaves}

read_name-file_name_example :
    read_name (codes "/data") (file_name (codes "/data") 1500000000000000042 7)
    ≡ (1500000000000000042, 7)
read_name-file_name_example =
    read_name-file_name (codes "/data") 1500000000000000042 7 (omega arith) (omega arith)
      (omega arith)

abbrev response : Response
response = record { headers = []; body = codes "hello"; bodylen = 0 }

output_test :
    (req_output 2500000000 500000000 response).headers
    ≡ (codes "X-blahgd-render-time", codes "2.000000000") ∷ (codes "Content-Length", codes "5") ∷ []
unfolding req_output calculate_content_length calculate_render_time decimal
output_test = refl

abbrev logged_request : Logged
logged_request = record {
  data_dir = codes "/data";
  now = 1500000000000000042;
  pid = 5;
  hostname = codes "host";
  version_string = codes "1";
  jeffpc_version = codes "1";
  id = 7;
  headers = 1;
  query = 2;
  body = [];
  fmt = some (codes "html");
  fd = 4;
  thread_id = 9;
  status = 200;
  response_headers = 3;
  bodylen = 5;
  stats = record {
    selected_time = 1;
    accepted_time = 2;
    dequeued_time = 3;
    read_header_time = 4;
    read_body_time = 5;
    compute_time = 6;
    write_header_time = 0;
    write_body_time = 0;
  };
  index_stories = 10;
}

abbrev packer : List Field → Option Bytes
packer entry = some (codes "packed")

abbrev writer : Bytes → Bytes → Bool
writer path text = true

-- The fourth allocation fails.
abbrev short_memory : State
short_memory = record {
  memory = true ∷ true ∷ true ∷ false ∷ [];
  nvls = 0;
  buffers = 0;
  refs = 3;
  file = none;
}

log_request-Leaves_example :
    Leaves packer writer none short_memory (log_request packer writer logged_request short_memory)
log_request-Leaves_example = log_request-Leaves packer writer logged_request short_memory
