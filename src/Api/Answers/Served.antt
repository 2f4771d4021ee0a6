-- ===== src/Api/Answers/Served.antt =====
-- Every request to the API is answered: no panic leaves the server, and a status is sent.
use synapse_platform.Prelude.{
  none, ℕ, ◌≡◌, refl, ◌∙◌, inl, inr, Bool, true, false, String, some, Bool-cases,
}
use synapse_platform.Prelude.Text.{codes, is_empty_bytes}
use synapse_platform.Api.Response.{
  HttpMethod, HttpRequest, UrlPath, asterisk, uncleaned, livez, readyz, healthz, metrics, events,
  event, summary, other_path, Exchange, Outcome, returned, panicked, Handler, Services, encoded,
  add_header,
}
use synapse_platform.Api.Handlers.{
  list_events_for, get_event_for, summarize_with, handle_list_events, handle_get_event,
  handle_get_summary,
}
use synapse_platform.Api.Middleware.{
  extract_bearer, is_token_expired, is_options, deferred, authenticate, recovered, recover_panic,
  request_id, rate_limiter, cors, trace_request, log_returned, logger, chain,
}
use synapse_platform.Api.Routes.{is_get, routes, plain_error, answered_first, serve_http}
use synapse_platform.Api.Guards.{Auth_cases}
use synapse_platform.Api.Answers.{
  Sent, Replies, write_header-Sent, write_body-Sent, write_error-Sent, Answers,
  with_read_scope-Answers, list_events-Answers, get_event-Answers, IsEncodable, summarize-Answers,
}

module _ {P W : Type 0} (s : Services P W) where
  authenticate-Answers : (h : Handler P W) → Answers h → Answers (authenticate s h)
  unfolding authenticate
  authenticate-Answers h good r x = elim (Bool-cases (is_empty_bytes (extract_bearer r))) [
    | inl e ↦ rw (e) (write_error-Sent s r 401 "unauthorized" _)
    | inr full ↦ elim (Auth_cases (s.validate (extract_bearer r))) [
      | inl (i, v) ↦ rw (full, v) (good (record r { identity = some i }) x)
      | inr (e, v) ↦ elim (Bool-cases (is_token_expired e.type_of_error)) [
        | inl t ↦ rw (full, v, t) (write_error-Sent s r 401 "token expired" _)
        | inr f ↦ rw (full, v, f) (write_error-Sent s r 401 "unauthorized" _)
      ]
    ]
  ]

  logged : (r : HttpRequest) (o : Outcome P W) → Replies o → Replies (log_returned s r o)
  unfolding log_returned
  logged r (returned x) h = h
  logged r (panicked x) h = tt

  still :
      (f : Exchange P W → Exchange P W) (o : Outcome P W)
      → ((x : Exchange P W) → (f x).writer.sent ≡ x.writer.sent)
      → Replies o
      → Replies (deferred f o)
  still f (returned x) same h = (h.0, same x ∙ h.1)
  still f (panicked x) same h = tt

  cors-Answers : (h : Handler P W) → Answers h → Answers (cors s h)
  unfolding cors
  cors-Answers h good r x = elim (Bool-cases (is_options r.http_method)) [
    | inl t ↦ rw (t) (write_header-Sent 204 _)
    | inr f ↦ rw (f) (good r _)
  ]

  rate_limiter-Answers : (h : Handler P W) → Answers h → Answers (rate_limiter s h)
  unfolding rate_limiter
  rate_limiter-Answers h good r x = elim (Bool-cases (s.allow x.world).0) [
    | inl t ↦ rw (t) (good r _)
    | inr f ↦ rw (f) (write_error-Sent s r 429 "rate limit exceeded" _)
  ]

  inner-Answers :
      (h : Handler P W)
      → Answers h
      → Answers
          (request_id s (trace_request s (rate_limiter s (cors s (logger s (authenticate s h))))))
  unfolding request_id trace_request logger
  inner-Answers h good r x =
      still (λ z. record z { world = s.end_span z.world })
        (rate_limiter s (cors s (logger s (authenticate s h))) _ _) (λ y. refl)
        (rate_limiter-Answers (cors s (logger s (authenticate s h)))
          (cors-Answers (logger s (authenticate s h))
            (λ q y. logged q _ (authenticate-Answers h good q _)))
          _ _)

  recovers :
      (r : HttpRequest) (o : Outcome P W)
      → Replies o
      → (y : Exchange P W) × (recovered s r o ≡ returned y) × Sent y
  unfolding recovered
  recovers r (returned x) h = (x, refl, h)
  recovers r (panicked x) h = (_, refl, write_error-Sent s r 500 "internal server error" x)

  chain-Sent :
      (h : Handler P W)
      → Answers h
      → (r : HttpRequest) (x : Exchange P W)
      → (y : Exchange P W) × (chain s h r x ≡ returned y) × Sent y
  unfolding chain recover_panic
  chain-Sent h good r x = recovers r _ (inner-Answers h good r x)

  -- The paths of the API.
  abbrev pub is_api : UrlPath → Bool
  is_api events = true
  is_api (event id) = true
  is_api summary = true
  is_api _ = false

  api-Sent :
      IsEncodable s
      → (p : UrlPath) → is_api p ≡ true
      → (h : Handler P W) × (routes s p ≡ some h)
        × ((r : HttpRequest) (x : Exchange P W)
            → (y : Exchange P W) × (h r x ≡ returned y) × Sent y)
  unfolding routes handle_list_events handle_get_event handle_get_summary
  api-Sent can events e = (
    chain s (handle_list_events s),
    refl,
    chain-Sent (handle_list_events s)
        (with_read_scope-Answers s (list_events_for s) (list_events-Answers s)),
  )
  api-Sent can (event id) e = (
    chain s (handle_get_event s id),
    refl,
    chain-Sent (handle_get_event s id)
        (with_read_scope-Answers s (get_event_for s id) (get_event-Answers s id)),
  )
  api-Sent can summary e = (
    chain s (handle_get_summary s),
    refl,
    chain-Sent (handle_get_summary s) (
        with_read_scope-Answers s (summarize_with s s.summarize)
          (summarize-Answers s can s.summarize)),
  )
  api-Sent can livez e = cc
  api-Sent can readyz e = cc
  api-Sent can healthz e = cc
  api-Sent can metrics e = cc
  api-Sent can other_path e = cc
  api-Sent can asterisk e = cc
  api-Sent can (uncleaned to) e = cc

  api_dispatched :
      (p : UrlPath)
      → is_api p ≡ true
      → (m : HttpMethod) (x : Exchange P W) → answered_first s p m x ≡ none
  unfolding answered_first
  api_dispatched events e m x = refl
  api_dispatched (event id) e m x = refl
  api_dispatched summary e m x = refl
  api_dispatched livez e m x = refl
  api_dispatched readyz e m x = refl
  api_dispatched healthz e m x = refl
  api_dispatched metrics e m x = refl
  api_dispatched other_path e m x = refl
  api_dispatched asterisk e m x = cc
  api_dispatched (uncleaned to) e m x = cc

  plain_error-Sent : (n : ℕ) (t : String) (x : Exchange P W) → Sent (plain_error s n t x)
  unfolding plain_error
  plain_error-Sent n t x = write_body-Sent encoded _ _ (write_header-Sent n _)

  -- If every report can be encoded, each request to a path of the API, of any method, is answered:
  -- whatever the services do, and also if they panic, the server returns and a status line is sent.
  pub serve_http-Sent :
      IsEncodable s
      → (r : HttpRequest) (x : Exchange P W) → is_api r.path ≡ true
      → (y : Exchange P W) × (serve_http s r x ≡ returned y) × Sent y
  unfolding serve_http
  serve_http-Sent can r x api =
      let (h, e, answered) = api-Sent can r.path api in
      let (y, same, line) = answered r x in
      let refusal =
        plain_error s 405 "Method Not Allowed" (add_header "Allow" (codes "GET, HEAD") x) in
      elim (Bool-cases (is_get r.http_method)) [
        | inl t ↦ (y, rw (serve_http, api_dispatched r.path api r.http_method x, e, t) same, line)
        | inr f ↦ (
          refusal,
          rw (serve_http, api_dispatched r.path api r.http_method x, e, f) refl,
          plain_error-Sent 405 "Method Not Allowed" (add_header "Allow" (codes "GET, HEAD") x),
        )
      ]
