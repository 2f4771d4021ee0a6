-- ===== src/Api/Types.antt =====
-- internal/api/server.go, responses.go and error.go: the records of the API. A time is a number of
-- nanoseconds since the zero time.
use synapse_platform.Prelude.{ℕ, ℤ, Bool, Option, String, List, [], ◌∷◌}
use synapse_platform.Prelude.Text.{Bytes}
use synapse_platform.Sqllite.Store.{Event}

-- The request for a summary.
pub record Request : Type 0 where
  pub domain : String
  pub since : ℕ

pub record Report : Type 0 where
  pub domain : String
  pub window_from : ℕ
  pub model : String
  pub content : String
  pub structured_content : String
  pub provider : String
  pub prompt_version : String
  pub input_hash : String
  pub created_at : ℕ

pub record DomainStat : Type 0 where
  pub domain : String
  pub event_type : String
  pub count : ℕ
  pub first_seen : ℕ
  pub last_seen : ℕ

-- The key under which a summary is looked up; `F` is the type of floating-point numbers.
pub record SummaryLookup (F : Type 0) : Type 0 where
  pub domain : String
  pub window_from : ℕ
  pub provider : String
  pub model : String
  pub prompt_version : String
  pub temperature : F
  pub max_tokens : ℤ
  pub input_hash : String

-- `until` is `none` for the zero time.
pub record EvidenceRequest : Type 0 where
  pub domain : String
  pub since : ℕ
  pub until : Option ℕ
  pub max_results : ℤ

abbrev pub default_max_evidence_events : ℕ
default_max_evidence_events = 30

pub record SummaryEvidenceLink : Type 0 where
  pub summary_id : ℕ
  pub event_id : String
  pub relationship : String

abbrev pub evidence_relationship_evidence : String
evidence_relationship_evidence = "evidence"

pub record EventResponse (P : Type 0) : Type 0 where
  pub event_id : String
  pub domain : String
  pub event_type : String
  pub entity_id : String
  pub occurred_at : ℕ
  pub source : String
  pub schema_version : String
  pub data_ : P

pub record ListResponse (P : Type 0) : Type 0 where
  pub data_ : List (EventResponse P)
  pub next_cursor : String
  pub has_more : Bool

unfoldable pub to_response : {P : Type 0} → Event P → EventResponse P
to_response e = record {
  event_id = e.event_id;
  domain = e.domain;
  event_type = e.event_type;
  entity_id = e.entity_id;
  occurred_at = e.occurred_at;
  source = e.source;
  schema_version = e.schema_version;
  data_ = e.payload;
}

unfoldable pub to_responses : {P : Type 0} → List (Event P) → List (EventResponse P)
unfolding to_response
to_responses [] = []
to_responses (e ∷ es) = to_response e ∷ to_responses es

-- The constants `ErrType…` and `ErrorOccurredBecauseOf`.
pub data TypeOfError : Type 0 where
  not_found bad_request internal encoding : TypeOfError

abbrev pub err_failed_to_get_event : String
err_failed_to_get_event = "failed to get event"

abbrev pub err_failed_to_list_events : String
err_failed_to_list_events = "failed to list events"

abbrev pub err_failed_to_encode_response : String
err_failed_to_encode_response = "failed to encode response"

-- The cause is left out: no caller reads it.
pub record RequestError : Type 0 where
  pub type_of_error : TypeOfError
  pub because : String
  pub resource : String
  pub resource_id : String

pub record ErrorResponse : Type 0 where
  pub status : ℕ
  pub error : String
  pub message : String
  pub request_id : Bytes

abbrev pub http_status : RequestError → ℕ
http_status e = elim e.type_of_error [
  | TypeOfError.not_found ↦ 404
  | TypeOfError.bad_request ↦ 400
  | _ ↦ 500
]
