-- ===== src/Api/Answers/Preflight.antt =====
-- What a preflight request of a browser gets.
use synapse_platform.Prelude.{
  injected, ℕ, sym, subst, ◌≡◌, refl, ap, ◌∙◌, inl, inr, false, String, Option, none, some,
  Option-cases, Bool-cases, [], ◌∷◌, if◌then◌else◌, str_eq, str_eq_iff,
}
use synapse_platform.Prelude.Text.{Bytes, codes}
use synapse_platform.Api.Response.{
  HttpMethod, Handler, UrlPath, livez, readyz, healthz, metrics, events, event, summary, other_path,
  asterisk, uncleaned, HttpRequest, options, Headers, Exchange, returned, Services, add_header,
  set_header, write_header, send_body, write_body, text_body, encoded,
}
use synapse_platform.Api.Routes.{is_get, routes, redirect, answered_first, plain_error, serve_http}
use synapse_platform.Api.Answers.Statuses.{answer_status, sent_body, unsent_header}

abbrev pub header_of : String → Headers → Option Bytes
header_of k [] = none
header_of k ((j, v) ∷ hs) = if str_eq j k then some v else header_of k hs

-- Setting another header.
header_of-set_header :
    (k j : String) (v : Bytes) (hs : Headers)
    → str_eq k j ≡ false
    → header_of j (set_header k v hs) ≡ header_of j hs
unfolding set_header
header_of-set_header k j v [] d = rw (d) refl
header_of-set_header k j v ((i, u) ∷ hs) d = elim (Bool-cases (str_eq i k)) [
  | inl same ↦
      let i_is_k : i ≡ k = (str_eq_iff i k).0 same in
      let e : str_eq i j ≡ false = cc in rw (set_header, same, e, d) refl
  | inr other ↦ elim (Bool-cases (str_eq i j)) [
    | inl t ↦ rw (set_header, other, t) refl
    | inr f ↦ rw (set_header, other, f) (header_of-set_header k j v hs d)
  ]
]

module _ {P W : Type 0} (s : Services P W) where
  abbrev Allowed : Exchange P W → Exchange P W → Type 0
  Allowed x y =
      header_of "Access-Control-Allow-Origin" y.writer.headers
      ≡ header_of "Access-Control-Allow-Origin" x.writer.headers

  plain_error_line :
      (n : ℕ) (t : String) (x : Exchange P W)
      → x.writer.sent ≡ none
      → (hs : Headers) × ((plain_error s n t x).writer.sent ≡ some (n, hs))
  unfolding plain_error add_header
  plain_error_line n t x h =
      let y =
        add_header "X-Content-Type-Options" (codes "nosniff")
          (add_header "Content-Type" (codes "text/plain; charset=utf-8") x) in
      (
        y.writer.headers,
        sent_body encoded (text_body t) (write_header n y) (n, y.writer.headers)
            (unsent_header n y h),
      )

  plain_error_facts :
      (n : ℕ) (t : String) (x : Exchange P W)
      → x.writer.sent ≡ none
      → (answer_status (returned (plain_error s n t x)) ≡ some n)
        × ((plain_error s n t x).world ≡ x.world)
        × Allowed x (plain_error s n t x)
  unfolding plain_error write_body send_body write_header add_header
  plain_error_facts n t x h =
      let hs = set_header "Content-Type" (codes "text/plain; charset=utf-8") x.writer.headers in
      let typed =
        header_of-set_header "Content-Type" "Access-Control-Allow-Origin"
          (codes "text/plain; charset=utf-8") x.writer.headers refl in
      let sniffed =
        header_of-set_header "X-Content-Type-Options" "Access-Control-Allow-Origin"
          (codes "nosniff") hs refl in
      (
        rw (answer_status, (plain_error_line n t x h).1) refl,
        rw (plain_error, write_header, h) refl,
        rw (plain_error, write_header, h) (sniffed ∙ typed),
      )

  -- The status of an OPTIONS request.
  abbrev pub preflight_status : UrlPath → ℕ
  preflight_status asterisk = 400
  preflight_status (uncleaned to) = s.redirect_status
  preflight_status other_path = 404
  preflight_status metrics = elim s.metrics_handler [ none ↦ 404 | some _ ↦ 405 ]
  preflight_status _ = 405

  abbrev pub Answered : Exchange P W → Exchange P W → ℕ → Type 0
  Answered x y n = (answer_status (returned y) ≡ some n) × (y.world ≡ x.world) × Allowed x y

  header-Answered :
      (n : ℕ) (k : String) (v : Bytes) (x : Exchange P W)
      → str_eq k "Access-Control-Allow-Origin" ≡ false
      → x.writer.sent ≡ none
      → Answered x (write_header n (add_header k v x)) n
  unfolding write_header add_header
  header-Answered n k v x other unsent = (
    rw (answer_status, unsent_header n (add_header k v x) unsent) refl,
    rw (write_header, unsent) refl,
    rw (write_header, unsent)
        (header_of-set_header k "Access-Control-Allow-Origin" v x.writer.headers other),
  )

  first-Answered :
      (p : UrlPath) (x : Exchange P W) {y : Exchange P W}
      → x.writer.sent ≡ none
      → answered_first s p options x ≡ some y
      → Answered x y (preflight_status p)
  unfolding answered_first redirect
  first-Answered asterisk x unsent e =
      subst (λ y. Answered x y 400) (injected e)
        (header-Answered 400 "Connection" (codes "close") x refl unsent)
  first-Answered (uncleaned to) x unsent e =
      subst (λ y. Answered x y s.redirect_status) (injected e)
        (header-Answered s.redirect_status "Location" (codes to) x refl unsent)
  first-Answered livez x unsent e = cc
  first-Answered readyz x unsent e = cc
  first-Answered healthz x unsent e = cc
  first-Answered metrics x unsent e = cc
  first-Answered events x unsent e = cc
  first-Answered summary x unsent e = cc
  first-Answered other_path x unsent e = cc
  first-Answered (event id) x unsent e = cc

  unrouted_status :
      (p : UrlPath) (x : Exchange P W)
      → answered_first s p options x ≡ none
      → routes s p ≡ none
      → preflight_status p ≡ 404
  unfolding routes answered_first
  unrouted_status asterisk x first e = cc
  unrouted_status (uncleaned to) x first e = cc
  unrouted_status livez x first e = cc
  unrouted_status readyz x first e = cc
  unrouted_status healthz x first e = cc
  unrouted_status metrics x first e = rw e refl
  unrouted_status events x first e = cc
  unrouted_status summary x first e = cc
  unrouted_status other_path x first e = refl
  unrouted_status (event id) x first e = cc

  routed_status : (p : UrlPath) {h : Handler P W} → routes s p ≡ some h → preflight_status p ≡ 405
  unfolding routes
  routed_status asterisk e = cc
  routed_status (uncleaned to) e = cc
  routed_status livez e = refl
  routed_status readyz e = refl
  routed_status healthz e = refl
  routed_status metrics e = rw e refl
  routed_status events e = refl
  routed_status summary e = refl
  routed_status other_path e = cc
  routed_status (event id) e = refl

  -- An OPTIONS request that reaches `Server.ServeHTTP`, on a response not yet begun, is answered by the
  -- router: with 400 for `*`, with a redirect for a path that is not clean, with 404 for one that has
  -- no pattern, the one for metrics included if there is no handler for it, and with 405 for all
  -- others. No middleware runs, so that the services are left as they were and no origin is allowed.
  pub serve_http_preflight :
      (r : HttpRequest) (x : Exchange P W)
      → r.http_method ≡ options
      → x.writer.sent ≡ none
      → (y : Exchange P W) × (serve_http s r x ≡ returned y)
        × (answer_status (returned y) ≡ some (preflight_status r.path))
        × (y.world ≡ x.world)
        × (header_of "Access-Control-Allow-Origin" y.writer.headers
            ≡ header_of "Access-Control-Allow-Origin" x.writer.headers)
  unfolding serve_http add_header
  serve_http_preflight r x preflight unsent =
      let at : (m : HttpMethod) → Option (Exchange P W) = λ m. answered_first s r.path m x in
      let not_get : is_get r.http_method ≡ false = ap is_get preflight in
      let z = add_header "Allow" (codes "GET, HEAD") x in
      let other =
        header_of-set_header "Allow" "Access-Control-Allow-Origin" (codes "GET, HEAD")
          x.writer.headers refl in
      elim (Option-cases (at r.http_method)) [
        | inr (y, first) ↦
            let (status, world, headers) =
              first-Answered r.path x unsent (ap at (sym preflight) ∙ first) in
            (y, rw (serve_http, first) refl, status, world, headers)
        | inl later ↦
            let passed = ap at (sym preflight) ∙ later in
            elim (Option-cases (routes s r.path)) [
              | inl e ↦
                  let (status, world, headers) =
                    plain_error_facts 404 "404 page not found" x unsent in
                  (
                    plain_error s 404 "404 page not found" x,
                    rw (serve_http, later, e) refl,
                    status ∙ ap (λ n. some n) (sym (unrouted_status r.path x passed e)),
                    world,
                    headers,
                  )
              | inr (h, e) ↦
                  let (status, world, headers) =
                    plain_error_facts 405 "Method Not Allowed" z unsent in
                  (
                    plain_error s 405 "Method Not Allowed" z,
                    rw (serve_http, later, e, not_get) refl,
                    status ∙ ap (λ n. some n) (sym (routed_status r.path e)),
                    world,
                    headers ∙ other,
                  )
            ]
      ]
