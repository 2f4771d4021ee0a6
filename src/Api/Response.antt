-- ===== src/Api/Response.antt =====
-- What a handler of internal/api works on: the request, the response writer of net/http and the
-- services behind the server; `writeError` of error.go.
use synapse_platform.Prelude.{
  ℕ, Bool, String, Option, none, some, List, [], ◌∷◌, if◌then◌else◌, str_eq, ◌==◌,
}
use synapse_platform.Prelude.Text.{Bytes, codes}
use synapse_platform.Auth.{Identity, Result}
use synapse_platform.Health.{Probe}
use synapse_platform.Health as Health
use synapse_platform.Sqllite.Store.{Event}
use synapse_platform.Sqllite.Store.Pages.{PageRequest, PageResponse}
use synapse_platform.Api.Types.{
  Request, Report, EventResponse, ListResponse, ErrorResponse, RequestError, http_status,
}

pub data HttpMethod : Type 0 where
  get head options other_method : HttpMethod

-- The path of a request: `asterisk` if its request URI is `*` (of HTTP/1.1), `uncleaned` with the URL of
-- the clean path where net/http cleans one that holds `//`, `.` or `..` (it does not for CONNECT),
-- and else the pattern that it matches.
pub data UrlPath : Type 0 where
  livez readyz healthz metrics events summary other_path asterisk : UrlPath
  event uncleaned : String → UrlPath

-- `header` and `query` answer with the empty text where there is none; `identity` and `request_id`
-- are the two values of the context that the code uses.
pub record HttpRequest : Type 0 where
  pub http_method : HttpMethod
  pub path : UrlPath
  pub header : String → Bytes
  pub query : String → String
  pub identity : Option Identity
  pub request_id : Option Bytes

pub data Body (P : Type 0) : Type 0 where
  error_body : ErrorResponse → Body P
  list_body : ListResponse P → Body P
  event_body : EventResponse P → Body P
  report_body : Report → Body P
  health_body : Health.Result → Body P
  text_body : String → Body P

abbrev pub Headers : Type 0
Headers = List (String × Bytes)

-- `sent` is the status line with the headers of that moment, once it is sent; `bodies` holds the
-- latest part first; `recorded` is the status of the logger's `statusRecorder`.
pub record Writer (P : Type 0) : Type 0 where
  pub headers : Headers
  pub sent : Option (ℕ × Headers)
  pub bodies : List (Body P)
  pub recorded : ℕ

-- The calls that reach the store or the summary service.
pub data Call : Type 0 where
  listed : PageRequest → Call
  got : String → Call
  summarized : Request → Call

pub record Exchange (P W : Type 0) : Type 0 where
  pub writer : Writer P
  pub calls : List Call
  pub world : W

pub data Outcome (P W : Type 0) : Type 0 where
  returned panicked : Exchange P W → Outcome P W

abbrev pub Handler : Type 0 → Type 0 → Type 0
Handler P W = HttpRequest → Exchange P W → Outcome P W

-- What a service answers; `failed` says whether the error is `ErrEventNotFound`.
pub data Reply (A : Type 0) : Type 0 where
  replied : A → Reply A
  failed : Bool → Reply A
  panics : Reply A

-- A JSON encoder may refuse the value before it writes, or fail to write.
pub data Encoding : Type 0 where
  encoded refused_value failed_write : Encoding

-- `summarize` and `metrics_handler` are `none` if nil; `redirect_status` is the status of the redirects of
-- `http.ServeMux`, 301 or 307 by its version.
pub record Services (P W : Type 0) : Type 0 where
  pub list_events : PageRequest → W → Reply (PageResponse (Event P)) × W
  pub get_event : String → W → Reply (Event P) × W
  pub summarize : Option (Request → W → Reply Report × W)
  pub validate : Bytes → Result Identity
  pub allow : W → Bool × W
  pub new_uuid : W → Bytes × W
  pub start_span : HttpRequest → W → W
  pub end_span : W → W
  pub log_request : HttpRequest → ℕ → W → W
  pub now : W → ℕ
  pub parse_time : String → Option ℕ
  pub encode : Body P → Encoding
  pub probes : List (Probe W)
  pub redirect_status : ℕ
  pub metrics_handler : Option (Handler P W)
  pub allowed_origins : List Bytes

unfoldable pub set_header : String → Bytes → Headers → Headers
set_header k v [] = (k, v) ∷ []
set_header k v ((j, u) ∷ hs) =
    let rest = set_header k v hs in if str_eq j k then (k, v) ∷ hs else (j, u) ∷ rest

-- `http.StatusText` for the statuses in use.
abbrev pub status_text : ℕ → String
status_text n =
    if n == 401
    then "Unauthorized"
    else if n == 403
    then "Forbidden"
    else if n == 404
    then "Not Found"
    else if n == 400
    then "Bad Request"
    else if n == 429
    then "Too Many Requests"
    else if n == 503
    then "Service Unavailable"
    else "Internal Server Error"

abbrev pub request_id_from_context : Option Bytes → Bytes
request_id_from_context none = []
request_id_from_context (some id) = id

abbrev pub error_response : {P : Type 0} → HttpRequest → ℕ → String → Body P
error_response r status message = error_body (record {
  status = status;
  error = status_text status;
  message = message;
  request_id = request_id_from_context r.request_id;
})

module _ {P W : Type 0} where
  unfoldable pub add_header : String → Bytes → Exchange P W → Exchange P W
  unfolding set_header
  add_header k v x = record x {
    writer = record x.writer { headers = set_header k v x.writer.headers };
  }

  -- Only the first status is sent; the logger's recorder notes every one.
  unfoldable pub write_header : ℕ → Exchange P W → Exchange P W
  write_header code x = elim x.writer.sent [
    | none ↦ record x {
      writer = record x.writer { sent = some (code, x.writer.headers); recorded = code };
    }
    | some line ↦ record x { writer = record x.writer { recorded = code } }
  ]

  -- The status 200 of a first write is not seen by the recorder.
  unfoldable pub send_body : Body P → Exchange P W → Exchange P W
  send_body b x = elim x.writer.sent [
    | none ↦ record x {
      writer = record x.writer {
        sent = some (200, x.writer.headers);
        bodies = b ∷ x.writer.bodies;
      };
    }
    | some line ↦ record x { writer = record x.writer { bodies = b ∷ x.writer.bodies } }
  ]

  -- `json.NewEncoder(w).Encode`; a write that fails leaves the status sent.
  unfoldable pub write_body : Encoding → Body P → Exchange P W → Exchange P W
  unfolding send_body
  write_body refused_value b x = x
  write_body encoded b x = send_body b x
  write_body failed_write b x = send_body b x

  unfoldable pub typed_json : Exchange P W → Exchange P W
  unfolding add_header
  typed_json x = add_header "Content-Type" (codes "application/json") x

  module _ (s : Services P W) where
    unfoldable pub write_error : HttpRequest → ℕ → String → Exchange P W → Exchange P W
    unfolding write_header write_body typed_json
    write_error r status message x =
        let body = error_response r status message in
        write_body (s.encode body) body (write_header status (typed_json x))

    -- `writeError` with the status and the reason of a request error.
    unfoldable pub write_request_error : HttpRequest → RequestError → Exchange P W → Exchange P W
    unfolding write_error
    write_request_error r e x = write_error r (http_status e) e.because x

    -- The body, and the error that follows if it cannot be encoded.
    unfoldable pub encode_or_error :
        HttpRequest → Encoding → Body P → RequestError → Exchange P W → Exchange P W
    unfolding write_body write_request_error
    encode_or_error r encoded body e x = write_body encoded body x
    encode_or_error r refused_value body e x =
        write_request_error r e (write_body refused_value body x)
    encode_or_error r failed_write body e x =
        write_request_error r e (write_body failed_write body x)

    -- The JSON answer of a handler.
    unfoldable pub respond : HttpRequest → Body P → RequestError → Exchange P W → Exchange P W
    unfolding encode_or_error typed_json
    respond r body e x = encode_or_error r (s.encode body) body e (typed_json x)
