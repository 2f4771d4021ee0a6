-- ===== src/Api/Guards/Callers.antt =====
-- Who reaches the store through the server.
use synapse_platform.Prelude.{
  injected, ℕ, ◌≡◌, refl, ap, ◌∙◌, sym, ◌⊎◌, inl, inr, true, String, some, Option-cases, Bool-cases,
  subst,
}
use synapse_platform.Prelude.Text.{Bytes, codes}
use synapse_platform.Auth.{
  Identity, ok, has_scope, Parser, JwtValidator, new_jwt_validator, validate,
}
use synapse_platform.Auth.Trust.{Facts, IsDocumented, IsTrusted, validate-IsTrusted}
use synapse_platform.Api.Response.{
  HttpMethod, get, head, options, other_method, asterisk, uncleaned, HttpRequest, UrlPath, livez,
  readyz, healthz, metrics, events, summary, other_path, event, Exchange, Handler, Services,
  add_header,
}
use synapse_platform.Api.Handlers.{
  list_events_for, get_event_for, summarize_with, handle_list_events, handle_get_event,
  handle_get_summary,
}
use synapse_platform.Api.Middleware.{extract_bearer}
use synapse_platform.Api.Routes.{
  is_get, livez_handler, readyz_handler, routes, redirect, answered_first, plain_error, serve_http,
}
use synapse_platform.Api.Guards.{
  ending, add_header_calls, write_header_calls, write_body_calls, Guarded, Scoped, Permitted,
  with_read_scope_guarded, chain-Guarded,
}

module _ {P W : Type 0} (s : Services P W) where
  handle_list_events-Guarded : Guarded s (Scoped s) (handle_list_events s)
  unfolding handle_list_events
  handle_list_events-Guarded r x = with_read_scope_guarded s (list_events_for s r) r x

  handle_get_event-Guarded : (id : String) → Guarded s (Scoped s) (handle_get_event s id)
  unfolding handle_get_event
  handle_get_event-Guarded id r x = with_read_scope_guarded s (get_event_for s id r) r x

  handle_get_summary-Guarded : Guarded s (Scoped s) (handle_get_summary s)
  unfolding handle_get_summary
  handle_get_summary-Guarded r x = with_read_scope_guarded s (summarize_with s s.summarize r) r x

  plain_error_calls :
      (n : ℕ) (t : String) (x : Exchange P W) → (plain_error s n t x).calls ≡ x.calls
  unfolding plain_error add_header
  plain_error_calls n t x = rw (write_body_calls, write_header_calls, add_header_calls) refl

  livez-Guarded : Guarded s (Permitted s) (livez_handler s)
  unfolding livez_handler
  livez-Guarded r x = inl (rw (write_body_calls, write_header_calls, add_header_calls) refl)

  readyz-Guarded : Guarded s (Permitted s) (readyz_handler s)
  unfolding readyz_handler
  readyz-Guarded r x = inl (rw (write_body_calls, write_header_calls, add_header_calls) refl)

  -- The handler for metrics calls neither the store nor the summary service.
  abbrev pub IsQuiet : Type 0
  IsQuiet =
      (h : Handler P W)
      → s.metrics_handler ≡ some h
      → (r : HttpRequest) (x : Exchange P W) → (ending (h r x)).calls ≡ x.calls

  routes-Guarded :
      IsQuiet → (p : UrlPath) (h : Handler P W) → routes s p ≡ some h → Guarded s (Permitted s) h
  unfolding routes
  routes-Guarded quiet livez h e = subst (λ g. Guarded s (Permitted s) g) (injected e) livez-Guarded
  routes-Guarded quiet readyz h e =
      subst (λ g. Guarded s (Permitted s) g) (injected e) readyz-Guarded
  routes-Guarded quiet healthz h e =
      subst (λ g. Guarded s (Permitted s) g) (injected e) readyz-Guarded
  routes-Guarded quiet metrics h e = λ r x. inl (quiet h e r x)
  routes-Guarded quiet events h e =
      subst (λ g. Guarded s (Permitted s) g) (injected e)
        (chain-Guarded s (handle_list_events s) handle_list_events-Guarded)
  routes-Guarded quiet (event id) h e =
      subst (λ g. Guarded s (Permitted s) g) (injected e)
        (chain-Guarded s (handle_get_event s id) (handle_get_event-Guarded id))
  routes-Guarded quiet summary h e =
      subst (λ g. Guarded s (Permitted s) g) (injected e)
        (chain-Guarded s (handle_get_summary s) handle_get_summary-Guarded)
  routes-Guarded quiet other_path h e = cc
  routes-Guarded quiet asterisk h e = cc
  routes-Guarded quiet (uncleaned to) h e = cc

  redirect_calls :
      (to : String) (m : HttpMethod) (x : Exchange P W) → (redirect s to m x).calls ≡ x.calls
  unfolding redirect add_header
  redirect_calls to get x = rw (write_body_calls, write_header_calls) refl
  redirect_calls to head x = rw (write_header_calls) refl
  redirect_calls to options x = rw (write_header_calls) refl
  redirect_calls to other_method x = rw (write_header_calls) refl

  answered_first_calls :
      (p : UrlPath) (m : HttpMethod) (x : Exchange P W) {y : Exchange P W}
      → answered_first s p m x ≡ some y
      → y.calls ≡ x.calls
  unfolding answered_first
  answered_first_calls asterisk m x e =
      let closing = add_header "Connection" (codes "close") x in
      ap (λ y. y.calls) (sym (injected e))
      ∙ (write_header_calls 400 closing ∙ add_header_calls "Connection" (codes "close") x)
  answered_first_calls (uncleaned to) m x e =
      ap (λ y. y.calls) (sym (injected e)) ∙ redirect_calls to m x
  answered_first_calls livez m x e = cc
  answered_first_calls readyz m x e = cc
  answered_first_calls healthz m x e = cc
  answered_first_calls metrics m x e = cc
  answered_first_calls events m x e = cc
  answered_first_calls summary m x e = cc
  answered_first_calls other_path m x e = cc
  answered_first_calls (event id) m x e = cc

  -- Whatever the services do, and also if they panic: a request calls neither the store nor the
  -- summary service unless its method is GET or HEAD and its bearer token is one that the validator
  -- accepts, for an identity with the scope read:events. The handler for metrics, which is not part of the program,
  -- is taken to make no such call.
  pub serve_http-Permitted :
      IsQuiet
      → (r : HttpRequest) (x : Exchange P W)
      → ((ending (serve_http s r x)).calls ≡ x.calls)
        ⊎ ((is_get r.http_method ≡ true) × Permitted s r)
  unfolding serve_http
  serve_http-Permitted quiet r x = elim (Option-cases (answered_first s r.path r.http_method x)) [
    | inr (y, first) ↦
        inl (rw (serve_http, ending, first) (answered_first_calls r.path r.http_method x first))
    | inl later ↦ elim (Option-cases (routes s r.path)) [
      | inl e ↦
          inl (rw (serve_http, ending, later, e) (plain_error_calls 404 "404 page not found" x))
      | inr (h, e) ↦ elim (Bool-cases (is_get r.http_method)) [
        | inr f ↦
            inl (rw (serve_http, ending, later, e, f, plain_error_calls, add_header_calls) refl)
        | inl t ↦ elim (routes-Guarded quiet r.path h e r x) [
          | inl same ↦ inl (rw (serve_http, ending, later, e, t) same)
          | inr p ↦ inr (t, p)
        ]
      ]
    ]
  ]

-- With the validator of the program, a request that calls the store or the summary service carries a
-- token that is trusted, for an identity with the scope read:events.
pub serve_http-IsTrusted :
    {P W : Type 0} (s : Services P W)
    → IsQuiet s
    → (f : Facts) (parse : Parser) → IsDocumented f parse
    → (key issuer audience : Bytes) (v : JwtValidator)
    → new_jwt_validator key issuer audience ≡ ok v
    → ((t : Bytes) → s.validate t ≡ validate v parse t)
    → (r : HttpRequest) (x : Exchange P W)
    → ((ending (serve_http s r x)).calls ≡ x.calls)
      ⊎ ((i : Identity) × IsTrusted f key issuer audience (extract_bearer r) i
          × (has_scope i (codes "read:events") ≡ true))
serve_http-IsTrusted s quiet f parse doc key issuer audience v made same r x =
    elim (serve_http-Permitted s quiet r x) [
      | inl unchanged ↦ inl unchanged
      | inr (read_only, (i, full, valid, scoped)) ↦ inr (
        i,
        validate-IsTrusted f parse key issuer audience (extract_bearer r) v i doc made
            (sym (same (extract_bearer r)) ∙ valid),
        scoped,
      )
    ]
