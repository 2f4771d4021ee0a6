-- ===== src/Api/Middleware.antt =====
-- internal/api/middleware.go and internal/log/http.go: the middleware that wraps the handlers.
use synapse_platform.Prelude.{
  ℕ, Bool, true, false, ◌&&◌, ◌||◌, not, some, [], ◌∷◌, if◌then◌else◌, ltb, leb, ◌==◌, ◌+◌, length,
  take, drop,
}
use synapse_platform.Prelude.Text.{Bytes, codes, is_empty_bytes}
use synapse_platform.Auth.{TypeOfError, ok, refused, contains}
use synapse_platform.Api.Response.{
  HttpRequest, HttpMethod, options, Exchange, Outcome, returned, panicked, Handler, Services,
  add_header, write_header, write_error,
}

-- `strings.EqualFold` with an ASCII text; no other letter folds to one of "bearer".
abbrev pub lower : ℕ → ℕ
lower c = if leb 65 c && leb c 90 then c + 32 else c

unfoldable pub equal_fold : Bytes → Bytes → Bool
equal_fold [] [] = true
equal_fold [] (d ∷ ds) = false
equal_fold (c ∷ cs) [] = false
equal_fold (c ∷ cs) (d ∷ ds) = lower c == lower d && equal_fold cs ds

unfoldable pub extract_bearer : HttpRequest → Bytes
unfolding equal_fold
extract_bearer r =
    let h = r.header "Authorization" in
    if ltb (length h) 7 || not (equal_fold (take 7 h) (codes "bearer ")) then [] else drop 7 h

abbrev pub is_token_expired : TypeOfError → Bool
is_token_expired TypeOfError.token_expired = true
is_token_expired _ = false

abbrev pub is_options : HttpMethod → Bool
is_options options = true
is_options _ = false

-- Both ways in which a handler ends go on with the same change: a deferred call.
abbrev pub deferred : {P W : Type 0} → (Exchange P W → Exchange P W) → Outcome P W → Outcome P W
deferred f (returned x) = returned (f x)
deferred f (panicked x) = panicked (f x)

module _ {P W : Type 0} (s : Services P W) where
  unfoldable pub authenticate : Handler P W → Handler P W
  authenticate next r x =
      let token = extract_bearer r in
      if is_empty_bytes token
      then returned (
          write_error s r 401 "unauthorized"
            (add_header "WWW-Authenticate" (codes "Bearer realm=\"api\"") x))
      else elim (s.validate token) [
        | ok identity ↦ next (record r { identity = some identity }) x
        | refused e ↦
            if is_token_expired e.type_of_error
            then returned (
                write_error s r 401 "token expired"
                  (add_header "WWW-Authenticate" (codes "Bearer error=\"token_expired\"") x))
            else returned (
                write_error s r 401 "unauthorized"
                  (add_header "WWW-Authenticate" (codes "Bearer error=\"invalid_token\"") x))
      ]

  unfoldable pub recovered : HttpRequest → Outcome P W → Outcome P W
  recovered r (returned x) = returned x
  recovered r (panicked x) = returned (write_error s r 500 "internal server error" x)

  -- The answer to a panic is written for the request as this middleware got it.
  unfoldable pub recover_panic : Handler P W → Handler P W
  unfolding recovered
  recover_panic next r x = recovered r (next r x)

  -- The id from the request, or a new one.
  unfoldable pub request_id : Handler P W → Handler P W
  request_id next r x =
      let given = r.header "X-Request-ID" in
      let made = s.new_uuid x.world in
      let id = if is_empty_bytes given then made.0 else given in
      let world = if is_empty_bytes given then made.1 else x.world in
      next (record r { request_id = some id })
        (add_header "X-Request-ID" id (record x { world = world }))

  unfoldable pub rate_limiter : Handler P W → Handler P W
  rate_limiter next r x =
      let asked = s.allow x.world in
      let y = record x { world = asked.1 } in
      if asked.0
      then next r y
      else returned
          (write_error s r 429 "rate limit exceeded" (add_header "Retry-After" (codes "1") y))

  unfoldable pub allow_origin : Bytes → Exchange P W → Exchange P W
  allow_origin origin x = add_header "Access-Control-Max-Age" (codes "86400") (
      add_header "Access-Control-Expose-Headers" (codes "X-Request-ID") (
        add_header "Access-Control-Allow-Headers"
          (codes "Authorization, Content-Type, X-Request-ID")
          (add_header "Access-Control-Allow-Origin" origin x)))

  unfoldable pub cors : Handler P W → Handler P W
  unfolding allow_origin
  cors next r x =
      let origin = r.header "Origin" in
      let y = if contains s.allowed_origins origin then allow_origin origin x else x in
      if is_options r.http_method
      then returned
          (write_header 204 (add_header "Access-Control-Allow-Methods" (codes "GET, OPTIONS") y))
      else next r y

  unfoldable pub trace_request : Handler P W → Handler P W
  trace_request next r x =
      deferred (λ y. record y { world = s.end_span y.world })
        (next r (record x { world = s.start_span r x.world }))

  unfoldable pub log_returned : HttpRequest → Outcome P W → Outcome P W
  log_returned r (panicked x) = panicked x
  log_returned r (returned x) =
      returned (record x { world = s.log_request r x.writer.recorded x.world })

  -- `NewHTTPHandlerLogger`; a panic is not logged.
  unfoldable pub logger : Handler P W → Handler P W
  unfolding log_returned
  logger next r x =
      log_returned r (next r (record x { writer = record x.writer { recorded = 200 } }))

  unfoldable pub chain : Handler P W → Handler P W
  unfolding recover_panic request_id trace_request rate_limiter cors logger authenticate
  chain h =
      recover_panic (request_id (trace_request (rate_limiter (cors (logger (authenticate h))))))
