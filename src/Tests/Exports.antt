-- ===== src/Tests/Exports.antt =====
-- C strings, the conversion of C options and the exported functions.
use grpc_web_server.Base.{
  update, ℕ, List, ◌++◌, drop, ◌≢◌, ◌<◌, ◌≤◌, ◌+◌, ◌*◌, length, Str, ◌≡◌, refl, ◌↔◌, true, false,
  none, some, [], ◌∷◌, ok, err, arith,
}
use grpc_web_server.Config.{GrpcWebServerOptions, default_policy}
use grpc_web_server.Config.Validation.{IsValid}
use grpc_web_server.Server.{new_server}
use grpc_web_server.Utils.{Memory, utf8_error, required_c_string, collect_c_string_vector}
use grpc_web_server.Utils.Bounds.{AreInside, collect_c_string_vector-bounds}
use grpc_web_server.Utils.Reads.{HasNoNul, IsStringArray, collect_c_string_vector-ok_iff}
use grpc_web_server.Utils.Characters.{Decodes}
use grpc_web_server.Utils.Characters.Strings.{required_c_string-Decodes}
use grpc_web_server.Ffi.{GrpcWebCorsOptions, debug, trace, to_options}
use grpc_web_server.Ffi.Conversion.{IsConverted, to_options-ok_iff}
use grpc_web_server.Ffi.Exports.{
  Process, first_filter, init_tracing_once, allocate, created, create, start, stop, on_handle,
  is_running,
}
use grpc_web_server.Ffi.Changes.{creates, stops, perform}
use grpc_web_server.Ffi.Ownership.{
  IsSound, create-IsOwner, level_filter, runs, tracing_first, create_unvalidated,
}
use grpc_web_server.Handle.{new_handle}
use grpc_web_server.Tests.Fixtures.{crates, web, plain}

-- "up" at address 1, an array of one pointer to it at address 8, a byte that is no UTF-8 at 16.
abbrev pub memory : Memory
memory = 0 ∷ b'u' ∷ b'p' ∷ 0 ∷ 0 ∷ 0 ∷ 0 ∷ 0 ∷ 1 ∷ 0 ∷ 0 ∷ 0 ∷ 0 ∷ 0 ∷ 0 ∷ 0 ∷ 255 ∷ 0 ∷ []

abbrev pub up : Str
up = b'u' ∷ b'p' ∷ []

required_c_string-up : required_c_string memory 1 ≡ ok up
unfolding required_c_string
required_c_string-up = refl

required_c_string-bad : required_c_string memory 16 ≡ err utf8_error
unfolding required_c_string
required_c_string-bad = refl

collect_c_string_vector-up : collect_c_string_vector memory 8 1 ≡ ok (up ∷ [])
unfolding collect_c_string_vector
collect_c_string_vector-up = refl

required_c_string-Decodes_example : (required_c_string memory 1 ≡ ok up) ↔ (
    (◌≢◌ {A = ℕ} 1 0)
    × HasNoNul up
    × Decodes up
    × (rest : List ℕ) × (drop 1 memory ≡ up ++ (0 ∷ rest)))
required_c_string-Decodes_example = required_c_string-Decodes memory 1 up

collect_c_string_vector-ok_iff_example :
    (collect_c_string_vector memory 8 1 ≡ ok (up ∷ [])) ↔ IsStringArray memory 8 1 (up ∷ [])
collect_c_string_vector-ok_iff_example = collect_c_string_vector-ok_iff memory 8 1 (up ∷ [])

collect_c_string_vector-bounds_example :
    (0 < 8) × (8 + 8 * 1 ≤ length memory) × AreInside memory 8 (up ∷ [])
collect_c_string_vector-bounds_example =
    collect_c_string_vector-bounds memory 8 1 (up ∷ []) (ground arith) (omega arith)
      collect_c_string_vector-up

-- One allowed origin, and every method and header.
abbrev c_options : grpc_web_server.Ffi.GrpcWebServerOptions
c_options = record {
  http_address = 1;
  grpc_address = 1;
  static_dir = 0;
  grpc_ca_cert = 0;
  grpc_proxy_key = 0;
  grpc_proxy_cert = 0;
  http_key = 0;
  http_cert = 1;
  log_level = debug;
  cors_options = record {
    allowed_origins = 8;
    allowed_origins_count = 1;
    allow_any_origin = false;
    allowed_methods = 0;
    allowed_methods_count = 0;
    allow_any_method = true;
    allowed_headers = 0;
    allowed_headers_count = 0;
    allow_any_header = true;
    allow_credentials = false;
  };
}

-- A certificate without its key: the conversion takes it, validation does not.
abbrev lone_cert : GrpcWebServerOptions crates
lone_cert = record plain {
  http_address = up;
  grpc_address = up;
  static_dir = none;
  http_cert = some up;
  cors_policy = record default_policy {
    allowed_origins = some (up ∷ []);
    allow_any_origin = false;
  };
}

to_options-lone_cert : to_options memory c_options ≡ ok lone_cert
unfolding to_options required_c_string collect_c_string_vector
to_options-lone_cert = refl

to_options-ok_iff_example :
    (to_options memory c_options ≡ ok lone_cert) ↔ IsConverted memory c_options lone_cert
to_options-ok_iff_example = to_options-ok_iff memory c_options lone_cert

abbrev fresh_process : Process crates
fresh_process = record { tracing = none; handles = λ a. none; allocations = 0 }

fresh_process-IsSound : IsSound fresh_process
fresh_process-IsSound = record { null = refl; fresh = λ a beyond. refl }

-- With the handle that `create` makes at address 1.
abbrev with_handle : Process crates
with_handle = record {
  tracing = some (first_filter none debug);
  handles = update (λ a. none) 1 (some (new_handle lone_cert));
  allocations = 1;
}

create-lone_cert : create memory c_options fresh_process ≡ some (1, with_handle)
unfolding create created allocate init_tracing_once to_options required_c_string
    collect_c_string_vector
create-lone_cert = refl

create-IsOwner_example :
    (options : GrpcWebServerOptions crates) × IsConverted memory c_options options
    × (fresh_process.handles 1 ≡ none)
    × (with_handle.handles 1 ≡ some (new_handle options))
create-IsOwner_example =
    create-IsOwner memory c_options fresh_process fresh_process-IsSound 1 with_handle
      create-lone_cert (omega arith)

-- The first call fails, and its level stays.
abbrev no_address : grpc_web_server.Ffi.GrpcWebServerOptions
no_address = record c_options { http_address = 0; log_level = trace }

abbrev traced : Process crates
traced = record fresh_process { tracing = some (first_filter none trace) }

create-no_address : create memory no_address fresh_process ≡ some (0, traced)
unfolding create created init_tracing_once to_options required_c_string
create-no_address = refl

-- A second call of `create`, with another level, succeeds.
abbrev traced_later : Process crates
traced_later = record with_handle { tracing = some (first_filter none trace) }

runs-later : runs (creates memory c_options ∷ stops 0 ∷ []) traced ≡ some traced_later
unfolding runs perform create created allocate init_tracing_once to_options required_c_string
    collect_c_string_vector stop on_handle
runs-later = refl

tracing_first_example : traced_later.tracing ≡ some (level_filter trace)
tracing_first_example =
    tracing_first memory no_address fresh_process 0 traced (creates memory c_options ∷ stops 0 ∷ [])
      traced_later refl create-no_address runs-later

lone_cert_invalid : ¬ IsValid lone_cert
lone_cert_invalid valid = cc (valid.http)

create_unvalidated_example :
    (made : Process crates) × (started : Process crates) × (asked : Process crates) × (create memory
        c_options fresh_process
      ≡ some (1, made))
    × (start true 1 made ≡ some (true, started))
    × (is_running 1 started ≡ some (true, asked))
    × (e : Str) × (new_server web lone_cert ≡ err e)
create_unvalidated_example =
    create_unvalidated web memory c_options fresh_process lone_cert to_options-lone_cert
      lone_cert_invalid
