-- ===== src/Api/Routes.antt =====
-- internal/api/server.go: the routes, and the health handlers of internal/health/health.go. A
-- pattern "GET p" of net/http serves GET and HEAD.
use synapse_platform.Prelude.{ℕ, Bool, true, false, String, Option, none, some, [], if◌then◌else◌}
use synapse_platform.Prelude.Text.{codes}
use synapse_platform.Health.{check_all}
use synapse_platform.Api.Response.{
  HttpMethod, get, head, options, other_method, UrlPath, asterisk, uncleaned, livez, readyz,
  healthz, metrics, events, summary, other_path, event, health_body, text_body, encoded, Exchange,
  returned, Handler, Services, add_header, write_header, write_body,
}
use synapse_platform.Api.Handlers.{handle_list_events, handle_get_event, handle_get_summary}
use synapse_platform.Api.Middleware.{chain}

abbrev pub is_get : HttpMethod → Bool
is_get get = true
is_get head = true
is_get _ = false

module _ {P W : Type 0} (s : Services P W) where
  unfoldable pub readyz_handler : Handler P W
  readyz_handler r x =
      let checked = check_all s.probes x.world in
      let y = record x { world = checked.2 } in
      let body = health_body checked.1 in
      returned (
        write_body (s.encode body) body
          (write_header checked.0 (add_header "Content-Type" (codes "application/json") y)))

  unfoldable pub livez_handler : Handler P W
  livez_handler r x =
      let body = health_body (record { status = "alive"; checks = [] }) in
      returned (
        write_body (s.encode body) body
          (write_header 200 (add_header "Content-Type" (codes "application/json") x)))

  -- The handler that `routes` registers for a path.
  unfoldable pub routes : UrlPath → Option (Handler P W)
  unfolding readyz_handler livez_handler chain
  routes livez = some livez_handler
  routes readyz = some readyz_handler
  routes healthz = some readyz_handler
  routes metrics = s.metrics_handler
  routes events = some (chain s (handle_list_events s))
  routes (event id) = some (chain s (handle_get_event s id))
  routes summary = some (chain s (handle_get_summary s))
  routes other_path = none
  routes asterisk = none
  routes (uncleaned to) = none

  -- `http.Error`
  unfoldable pub plain_error : ℕ → String → Exchange P W → Exchange P W
  plain_error status text x = write_body encoded (text_body text) (
      write_header status (
        add_header "X-Content-Type-Options" (codes "nosniff")
          (add_header "Content-Type" (codes "text/plain; charset=utf-8") x)))

  -- `http.Redirect` for a response without a content type: a GET gets a link too.
  unfoldable pub redirect : String → HttpMethod → Exchange P W → Exchange P W
  redirect to get x = write_body encoded (text_body to) (
      write_header s.redirect_status (
        add_header "Content-Type" (codes "text/html; charset=utf-8")
          (add_header "Location" (codes to) x)))
  redirect to head x = write_header s.redirect_status (
      add_header "Content-Type" (codes "text/html; charset=utf-8")
        (add_header "Location" (codes to) x))
  redirect to options x = write_header s.redirect_status (add_header "Location" (codes to) x)
  redirect to other_method x = write_header s.redirect_status (add_header "Location" (codes to) x)

  -- What `http.ServeMux` answers before it looks for a pattern.
  unfoldable pub answered_first : UrlPath → HttpMethod → Exchange P W → Option (Exchange P W)
  unfolding redirect
  answered_first asterisk method x =
      some (write_header 400 (add_header "Connection" (codes "close") x))
  answered_first (uncleaned to) method x = some (redirect to method x)
  answered_first _ method x = none

  -- The dispatch of `http.ServeMux` over these routes.
  unfoldable pub serve_http : Handler P W
  unfolding routes plain_error answered_first
  serve_http r x = elim (answered_first r.path r.http_method x) [
    | some y ↦ returned y
    | none ↦ elim (routes r.path) [
      | none ↦ returned (plain_error 404 "404 page not found" x)
      | some h ↦
          if is_get r.http_method
          then h r x
          else returned
              (plain_error 405 "Method Not Allowed" (add_header "Allow" (codes "GET, HEAD") x))
    ]
  ]
