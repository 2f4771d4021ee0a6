-- ===== src/Api/Answers.antt =====
-- The handlers of the API answer: if one returns, a status is sent.
pub mod Served
pub mod Statuses
pub mod Preflight
use synapse_platform.Prelude.{
  ℕ, ◌≡◌, ◌≢◌, refl, ap, ◌∙◌, sym, subst, ◌⊎◌, inl, inr, Bool, true, false, String, Option, none,
  some, Option-cases, Bool-cases, List, [], ◌∷◌, if◌then◌else◌, arith,
}
use synapse_platform.Prelude.Text.{Bytes, codes, is_empty_bytes}
use synapse_platform.Auth.{
  Identity, Result, ok, refused, identity_from_context, has_scope, contains,
}
use synapse_platform.Sqllite.Store.{Event}
use synapse_platform.Sqllite.Store.Pages.{PageResponse}
use synapse_platform.Api.Types.{Request, RequestError, Report, http_status}
use synapse_platform.Api.Response.{
  HttpRequest, Headers, UrlPath, livez, readyz, healthz, metrics, events, event, summary,
  other_path, Body, report_body, Exchange, Outcome, returned, panicked, Handler, Reply, replied,
  failed, panics, Services, Encoding, encoded, refused_value, failed_write, add_header,
  write_header, send_body, write_body, write_error, write_request_error, encode_or_error, respond,
  error_response, typed_json,
}
use synapse_platform.Api.Handlers.{
  with_read_scope, finish_list, finish_get, finish_summary, list_events_for, get_event_for,
  summarize_with, summary_request, handle_list_events, handle_get_event, handle_get_summary,
}
use synapse_platform.Api.Middleware.{
  extract_bearer, is_token_expired, is_options, deferred, authenticate, recovered, recover_panic,
  request_id, rate_limiter, allow_origin, cors, trace_request, log_returned, logger, chain,
}
use synapse_platform.Api.Routes.{is_get, routes, plain_error, serve_http}
use synapse_platform.Api.Guards.{Auth_cases}

abbrev pub Sent : {P W : Type 0} → Exchange P W → Type 0
Sent x = (line : ℕ × Headers) × (x.writer.sent ≡ some line)

-- If the handler returns, a status was sent.
abbrev pub Replies : {P W : Type 0} → Outcome P W → Type 0
Replies (returned x) = Sent x
Replies (panicked x) = Unit

abbrev pub Answers : {P W : Type 0} → Handler P W → Type 0
Answers {P = P} {W = W} h = (r : HttpRequest) (x : Exchange P W) → Replies (h r x)

module _ {P W : Type 0} where
  pub write_header-Sent : (n : ℕ) (x : Exchange P W) → Sent (write_header n x)
  unfolding write_header
  write_header-Sent n x = elim (Option-cases x.writer.sent) [
    | inl e ↦ ((n, x.writer.headers), rw (write_header, e) refl)
    | inr (l, e) ↦ (l, rw (write_header, e) e)
  ]

  send_body-Sent : (b : Body P) (x : Exchange P W) → Sent (send_body b x)
  unfolding send_body
  send_body-Sent b x = elim (Option-cases x.writer.sent) [
    | inl e ↦ ((200, x.writer.headers), rw (send_body, e) refl)
    | inr (l, e) ↦ (l, rw (send_body, e) e)
  ]

  pub write_body-Sent :
      (n : Encoding) (b : Body P) (x : Exchange P W) → Sent x → Sent (write_body n b x)
  unfolding write_body
  write_body-Sent refused_value b x h = h
  write_body-Sent encoded b x h = send_body-Sent b x
  write_body-Sent failed_write b x h = send_body-Sent b x

module _ {P W : Type 0} (s : Services P W) where
  pub write_error-Sent :
      (r : HttpRequest) (n : ℕ) (m : String) (x : Exchange P W) → Sent (write_error s r n m x)
  unfolding write_error
  write_error-Sent r n m x =
      write_body-Sent (s.encode (error_response r n m)) (error_response r n m)
        (write_header n (typed_json x)) (write_header-Sent n (typed_json x))

  encode_or_error-Sent :
      (r : HttpRequest) (n : Encoding) (b : Body P) (e : RequestError) (x : Exchange P W)
      → Sent (encode_or_error s r n b e x)
  unfolding encode_or_error write_request_error write_body
  encode_or_error-Sent r encoded b e x = send_body-Sent b x
  encode_or_error-Sent r refused_value b e x = write_error-Sent r (http_status e) e.because x
  encode_or_error-Sent r failed_write b e x =
      write_error-Sent r (http_status e) e.because (send_body b x)

  respond-Sent :
      (r : HttpRequest) (b : Body P) (e : RequestError) (x : Exchange P W)
      → Sent (respond s r b e x)
  unfolding respond
  respond-Sent r b e x = encode_or_error-Sent r (s.encode b) b e (typed_json x)

  pub with_read_scope-Answers :
      (next : Handler P W) → Answers next → Answers (λ r x. with_read_scope s (next r) r x)
  unfolding with_read_scope identity_from_context
  with_read_scope-Answers next good r x = elim (Option-cases r.identity) [
    | inl e ↦
        rw (with_read_scope, identity_from_context, Replies, e)
          (write_error-Sent r 401 "unauthorized" x)
    | inr (i, e) ↦ elim (Bool-cases (has_scope i (codes "read:events"))) [
      | inl t ↦ rw (with_read_scope, identity_from_context, Replies, e, t) (good r x)
      | inr f ↦
          rw (with_read_scope, identity_from_context, Replies, e, f)
            (write_error-Sent r 403 "forbidden" x)
    ]
  ]

  finish_list-Replies :
      (r : HttpRequest) (a : Reply (PageResponse (Event P))) (x : Exchange P W)
      → Replies (finish_list s r a x)
  unfolding finish_list write_request_error
  finish_list-Replies r panics x = tt
  finish_list-Replies r (failed b) x = write_error-Sent r 500 "failed to list events" x
  finish_list-Replies r (replied page) x = respond-Sent r _ _ x

  finish_get-Replies :
      (r : HttpRequest) (id : String) (a : Reply (Event P)) (x : Exchange P W)
      → Replies (finish_get s r id a x)
  unfolding finish_get write_request_error
  finish_get-Replies r id panics x = tt
  finish_get-Replies r id (failed b) x = write_error-Sent r _ "failed to get event" x
  finish_get-Replies r id (replied e) x = respond-Sent r _ _ x

  -- Every report can be encoded, though its bytes may fail to be written.
  abbrev pub IsEncodable : Type 0
  IsEncodable = (report : Report) → s.encode (report_body report) ≢ refused_value

  written :
      (n : Encoding) (b : Body P) (x : Exchange P W) → n ≢ refused_value → Sent (write_body n b x)
  unfolding write_body
  written refused_value b x h = absurd (h refl)
  written encoded b x h = send_body-Sent b x
  written failed_write b x h = send_body-Sent b x

  finish_summary-Replies :
      IsEncodable
      → (r : HttpRequest) (a : Reply Report) (x : Exchange P W) → Replies (finish_summary s r a x)
  unfolding finish_summary write_request_error
  finish_summary-Replies can r panics x = tt
  finish_summary-Replies can r (failed b) x = write_error-Sent r 500 "failed to get event" x
  finish_summary-Replies can r (replied report) x =
      written (s.encode (report_body report)) (report_body report) (typed_json x) (can report)

  pub list_events-Answers : Answers (list_events_for s)
  unfolding list_events_for
  list_events-Answers r x = finish_list-Replies r _ _

  pub get_event-Answers : (id : String) → Answers (get_event_for s id)
  unfolding get_event_for
  get_event-Answers id r x = finish_get-Replies r id _ _

  pub summarize-Answers :
      IsEncodable → (o : Option (Request → W → Reply Report × W)) → Answers (summarize_with s o)
  unfolding summarize_with
  summarize-Answers can none r x = write_error-Sent r 503 "summarizer_disabled" x
  summarize-Answers can (some f) r x = finish_summary-Replies can r _ _
