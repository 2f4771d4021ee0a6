-- ===== src/Tests/Api.antt =====
-- The server over a small store and the token library of the other tests; requests that are served,
-- that panic, and a preflight. A readiness check in which two probes share a name.
use synapse_platform.Prelude.{
  ℕ, ◌≡◌, refl, ◌⊎◌, true, false, ◌+◌, String, none, some, List, [], ◌∷◌, if◌then◌else◌, str_eq,
}
use synapse_platform.Prelude.Text.{Bytes, codes, bytes_eq, split, join}
use synapse_platform.Auth.{
  Identity, validate, text_items, parse_scopes, new_jwt_validator, key_for, has_scope,
  identity_from_context,
}
use synapse_platform.Auth.Trust.{IsTrusted}
use synapse_platform.Health.{Probe, set_check, record_check, check_probes, check_all}
use synapse_platform.Health.Verdicts.{check_of, last_verdict, verdicts, check_all_lem}
use synapse_platform.Sqllite.Store.{Event}
use synapse_platform.Api.Types.{to_response, to_responses}
use synapse_platform.Api.Response.{
  HttpRequest, HttpMethod, get, options, event, error_body, got, Exchange, returned, panicked,
  Reply, replied, failed, panics, encoded, Services, set_header, add_header, write_header,
  send_body, write_body, typed_json, write_error, write_request_error, encode_or_error, respond,
}
use synapse_platform.Api.Handlers.{with_read_scope, finish_get, get_event_for, handle_get_event}
use synapse_platform.Api.Middleware.{
  equal_fold, extract_bearer, authenticate, recovered, recover_panic, request_id, rate_limiter,
  allow_origin, cors, trace_request, log_returned, logger, chain,
}
use synapse_platform.Api.Routes.{routes, plain_error, serve_http}
use synapse_platform.Api.Guards.{ending}
use synapse_platform.Api.Guards.Callers.{IsQuiet, serve_http-IsTrusted}
use synapse_platform.Api.Answers.{Sent}
use synapse_platform.Api.Answers.Served.{serve_http-Sent}
use synapse_platform.Api.Answers.Statuses.{
  answer_status, handle_get_event_lem, recover_panic-request_id,
}
use synapse_platform.Api.Answers.Preflight.{header_of, serve_http_preflight}
use synapse_platform.Tests.Auth.{secret, facts, library, library-IsDocumented, validator, user}

program : Unit {0}
unfolding bytes_eq split join text_items parse_scopes new_jwt_validator key_for validate has_scope
    identity_from_context set_check record_check check_probes check_all to_response to_responses
    set_header add_header write_header send_body write_body typed_json write_error
    write_request_error encode_or_error respond with_read_scope finish_get get_event_for
    handle_get_event equal_fold extract_bearer authenticate recovered recover_panic request_id
    rate_limiter allow_origin cors trace_request log_returned logger chain routes plain_error
    serve_http
program = tt

abbrev charge : Event ℕ
charge = record {
  event_id = "a";
  domain = "energy";
  event_type = "ev_charger";
  entity_id = "d";
  entity_type = "device";
  occurred_at = 1;
  ingested_at = 2;
  source = "ev_charger";
  schema_version = "1.0.0";
  payload = 0;
}

abbrev find_charge : String → Reply (Event ℕ)
find_charge id =
    if str_eq id "a" then replied charge else if str_eq id "b" then panics else failed true

-- The world counts the ids that were made; a panic is what the id "b" brings about.
abbrev services : Services ℕ ℕ
services = record {
  list_events =
      λ page w. (replied (record { items = charge ∷ []; next_cursor = ""; has_more = false }), w);
  get_event = λ id w. (find_charge id, w);
  summarize = none;
  validate = validate validator library;
  allow = λ w. (true, w);
  new_uuid = λ w. (codes "id", w + 1);
  start_span = λ r w. w;
  end_span = λ w. w;
  log_request = λ r status w. w;
  now = λ w. 0;
  parse_time = λ t. none;
  encode = λ body. encoded;
  probes = [];
  redirect_status = 307;
  metrics_handler = none;
  allowed_origins = codes "o" ∷ [];
}

abbrev headers : String → Bytes
headers k =
    if str_eq k "Authorization"
    then codes "bearer t"
    else if str_eq k "Origin"
    then codes "o"
    else []

abbrev request : HttpMethod → String → HttpRequest
request how id = record {
  http_method = how;
  path = event id;
  header = headers;
  query = λ k. "";
  identity = none;
  request_id = none;
}

abbrev fresh : Exchange ℕ ℕ
fresh = record {
  writer = record { headers = []; sent = none; bodies = []; recorded = 200 };
  calls = [];
  world = 0;
}

-- A request with a valid token reads the event.
run_get : answer_status (serve_http services (request get "a") fresh) ≡ some 200
unfolding program
run_get = refl

run_get_calls : (ending (serve_http services (request get "a") fresh)).calls ≡ got "a" ∷ []
unfolding program
run_get_calls = refl

services-IsQuiet : IsQuiet services
services-IsQuiet = λ h e. cc

serve_http-IsTrusted_example :
    ((ending (serve_http services (request get "a") fresh)).calls ≡ [])
    ⊎ ((i : Identity) × IsTrusted facts secret
          (codes "iss")
          (codes "aud")
          (extract_bearer (request get "a"))
          i
        × (has_scope i (codes "read:events") ≡ true))
unfolding program
serve_http-IsTrusted_example =
    serve_http-IsTrusted services services-IsQuiet facts library library-IsDocumented secret
      (codes "iss") (codes "aud") validator refl (λ t. refl) (request get "a") fresh

serve_http-Sent_example :
    (y : Exchange ℕ ℕ) × (serve_http services (request get "b") fresh ≡ returned y) × Sent y
unfolding program
serve_http-Sent_example = serve_http-Sent services (λ report e. cc) (request get "b") fresh refl

handle_get_event_lem_example :
    answer_status
      (handle_get_event services "c" (record (request get "c") { identity = some user }) fresh)
    ≡ some 404
unfolding program
handle_get_event_lem_example =
    handle_get_event_lem services "c" (record (request get "c") { identity = some user }) fresh refl

abbrev stopped : Exchange ℕ ℕ
stopped = record fresh {
  writer = record fresh.writer { headers = ("X-Request-ID", codes "id") ∷ [] };
  world = 1;
}

recover_panic-request_id_example :
    (z : Exchange ℕ ℕ) × (recover_panic services
        (request_id services (λ r x. panicked x))
        (request get "b")
        fresh
      ≡ returned z)
    × (answer_status (returned z) ≡ some 500)
    × (z.writer.bodies
        ≡ error_body (record {
          status = 500;
          error = "Internal Server Error";
          message = "internal server error";
          request_id = [];
        })
          ∷ [])
unfolding program
recover_panic-request_id_example =
    recover_panic-request_id services (λ r x. panicked x) (request get "b") fresh stopped refl refl
      refl refl

serve_http_preflight_example :
    (y : Exchange ℕ ℕ) × (serve_http services (request options "a") fresh ≡ returned y)
    × (answer_status (returned y) ≡ some 405)
    × (y.world ≡ 0)
    × (header_of "Access-Control-Allow-Origin" y.writer.headers ≡ none)
unfolding program
serve_http_preflight_example = serve_http_preflight services (request options "a") fresh refl refl

abbrev consumers : List (Probe ℕ)
consumers =
    record { name = "kafka"; check = λ w. (some "consumer stale", w) }
    ∷ record { name = "kafka"; check = λ w. (none, w) }
    ∷ []

check_all_lem_example :
    ((check_all consumers 0).0 ≡ 503)
    × ((check_all consumers 0).1.status ≡ "unhealthy")
    × ((k : String)
        → check_of k (check_all consumers 0).1.checks ≡ last_verdict k (verdicts consumers 0))
unfolding program
check_all_lem_example = check_all_lem consumers 0
