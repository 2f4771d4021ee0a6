-- ===== src/Api/Guards.antt =====
-- Which requests reach the store: the calls that each part of the chain makes.
pub mod Callers
use synapse_platform.Prelude.{
  ℕ, ◌≡◌, refl, ap, ◌∙◌, sym, ◌⊎◌, inl, inr, Bool, true, false, String, Option, none, some,
  Option-cases, Bool-cases, List, [], ◌∷◌, if◌then◌else◌, arith,
}
use synapse_platform.Prelude.Text.{Bytes, codes, is_empty_bytes}
use synapse_platform.Auth.{
  Identity, Result, ok, refused, identity_from_context, has_scope, contains,
}
use synapse_platform.Api.Types.{RequestError}
use synapse_platform.Api.Response.{
  HttpRequest, Body, Exchange, Outcome, returned, panicked, Handler, Services, Encoding, encoded,
  refused_value, failed_write, add_header, write_header, send_body, write_body, write_error,
  typed_json,
}
use synapse_platform.Api.Handlers.{with_read_scope}
use synapse_platform.Api.Middleware.{
  extract_bearer, is_token_expired, is_options, deferred, authenticate, recovered, recover_panic,
  request_id, rate_limiter, allow_origin, cors, trace_request, log_returned, logger, chain,
}

abbrev pub ending : {P W : Type 0} → Outcome P W → Exchange P W
ending (returned x) = x
ending (panicked x) = x

pub Auth_cases :
    {A : Type 0} (r : Result A)
    → ((a : A) × (r ≡ ok a)) ⊎ ((e : synapse_platform.Auth.ValidationError) × (r ≡ refused e))
Auth_cases (ok a) = inl (a, refl)
Auth_cases (refused e) = inr (e, refl)

module _ {P W : Type 0} where
  pub add_header_calls :
      (k : String) (v : Bytes) (x : Exchange P W) → (add_header k v x).calls ≡ x.calls
  unfolding add_header
  add_header_calls k v x = refl

  pub write_header_calls : (n : ℕ) (x : Exchange P W) → (write_header n x).calls ≡ x.calls
  unfolding write_header
  write_header_calls n x = elim (Option-cases x.writer.sent) [
    | inl e ↦ rw (e) refl
    | inr (l, e) ↦ rw (e) refl
  ]

  send_body_calls : (b : Body P) (x : Exchange P W) → (send_body b x).calls ≡ x.calls
  unfolding send_body
  send_body_calls b x = elim (Option-cases x.writer.sent) [
    | inl e ↦ rw (e) refl
    | inr (l, e) ↦ rw (e) refl
  ]

  pub write_body_calls :
      (n : Encoding) (b : Body P) (x : Exchange P W) → (write_body n b x).calls ≡ x.calls
  unfolding write_body
  write_body_calls refused_value b x = refl
  write_body_calls encoded b x = send_body_calls b x
  write_body_calls failed_write b x = send_body_calls b x

module _ {P W : Type 0} (s : Services P W) where
  pub write_error_calls :
      (r : HttpRequest) (n : ℕ) (m : String) (x : Exchange P W)
      → (write_error s r n m x).calls ≡ x.calls
  unfolding write_error typed_json
  write_error_calls r n m x =
      rw (write_body_calls, write_header_calls)
        (add_header_calls "Content-Type" (codes "application/json") x)

  -- Whatever the handler does, it makes no call, or the request has the property `Q`.
  abbrev pub Guarded : (HttpRequest → Type 0) → Handler P W → Type 0
  Guarded Q h = (r : HttpRequest) (x : Exchange P W) → ((ending (h r x)).calls ≡ x.calls) ⊎ Q r

  -- The context has an identity with the scope.
  abbrev pub Scoped : HttpRequest → Type 0
  Scoped r = (i : Identity) × (r.identity ≡ some i) × (has_scope i (codes "read:events") ≡ true)

  -- The bearer token is accepted, for an identity with the scope.
  abbrev pub Permitted : HttpRequest → Type 0
  Permitted r =
      (i : Identity) × (is_empty_bytes (extract_bearer r) ≡ false)
      × (s.validate (extract_bearer r) ≡ ok i)
      × (has_scope i (codes "read:events") ≡ true)

  pub with_read_scope_guarded :
      (next : Exchange P W → Outcome P W) (r : HttpRequest) (x : Exchange P W)
      → ((ending (with_read_scope s next r x)).calls ≡ x.calls) ⊎ Scoped r
  unfolding with_read_scope identity_from_context
  with_read_scope_guarded next r x = elim (Option-cases r.identity) [
    | inl e ↦
        inl (
          rw (with_read_scope, identity_from_context, e) (write_error_calls r 401 "unauthorized" x))
    | inr (i, e) ↦ elim (Bool-cases (has_scope i (codes "read:events"))) [
      | inl t ↦ inr (i, e, t)
      | inr f ↦ inl (
          rw (with_read_scope, identity_from_context, e, f) (write_error_calls r 403 "forbidden" x))
    ]
  ]

  authenticate-Guarded : (h : Handler P W) → Guarded Scoped h → Guarded Permitted (authenticate s h)
  unfolding authenticate
  authenticate-Guarded h guarded r x = elim (Bool-cases (is_empty_bytes (extract_bearer r))) [
    | inl e ↦ inl (rw (e, write_error_calls, add_header_calls) refl)
    | inr full ↦ elim (Auth_cases (s.validate (extract_bearer r))) [
      | inl (i, v) ↦ elim (guarded (record r { identity = some i }) x) [
        | inl same ↦ inl (rw (full, v) same)
        | inr (j, e, scoped) ↦ inr (i, full, v, let k : i ≡ j = cc in rw (k) scoped)
      ]
      | inr (e, v) ↦ elim (Bool-cases (is_token_expired e.type_of_error)) [
        | inl t ↦ inl (rw (full, v, t, write_error_calls, add_header_calls) refl)
        | inr f ↦ inl (rw (full, v, f, write_error_calls, add_header_calls) refl)
      ]
    ]
  ]

  recovered_calls :
      (r : HttpRequest) (o : Outcome P W) → (ending (recovered s r o)).calls ≡ (ending o).calls
  unfolding recovered
  recovered_calls r (returned y) = refl
  recovered_calls r (panicked y) = write_error_calls r 500 "internal server error" y

  deferred_calls :
      (f : Exchange P W → Exchange P W) (o : Outcome P W)
      → ((y : Exchange P W) → (f y).calls ≡ y.calls)
      → (ending (deferred f o)).calls ≡ (ending o).calls
  deferred_calls f (returned y) same = same y
  deferred_calls f (panicked y) same = same y

  logged_calls :
      (r : HttpRequest) (o : Outcome P W) → (ending (log_returned s r o)).calls ≡ (ending o).calls
  unfolding log_returned
  logged_calls r (returned y) = refl
  logged_calls r (panicked y) = refl

  -- The calls of a handler that ends with those of another one, started on a state with the same calls.
  passed :
      {A : Type 0} {a b c d : List synapse_platform.Api.Response.Call}
      → a ≡ b
      → c ≡ d
      → (b ≡ c) ⊎ A
      → (a ≡ d) ⊎ A
  passed first last (inl same) = inl (first ∙ (same ∙ last))
  passed first last (inr q) = inr q

  allow_origin_calls : (o : Bytes) (x : Exchange P W) → (allow_origin s o x).calls ≡ x.calls
  unfolding allow_origin add_header
  allow_origin_calls o x = refl

  request_id-Guarded : (h : Handler P W) → Guarded Permitted h → Guarded Permitted (request_id s h)
  unfolding request_id extract_bearer
  request_id-Guarded h guarded r x =
      let given = r.header "X-Request-ID" in
      let made = s.new_uuid x.world in
      let id = if is_empty_bytes given then made.0 else given in
      let world = if is_empty_bytes given then made.1 else x.world in
      passed refl (add_header_calls "X-Request-ID" id (record x { world = world })) (
        guarded (record r { request_id = some id })
          (add_header "X-Request-ID" id (record x { world = world })))

  rate_limiter-Guarded :
      (h : Handler P W) → Guarded Permitted h → Guarded Permitted (rate_limiter s h)
  unfolding rate_limiter
  rate_limiter-Guarded h guarded r x = elim (Bool-cases (s.allow x.world).0) [
    | inl t ↦ passed (rw (t) refl) refl (guarded r (record x { world = (s.allow x.world).1 }))
    | inr f ↦ inl (rw (f, write_error_calls, add_header_calls) refl)
  ]

  cors-Guarded : (h : Handler P W) → Guarded Permitted h → Guarded Permitted (cors s h)
  unfolding cors
  cors-Guarded h guarded r x =
      let origin = r.header "Origin" in
      let y = if contains s.allowed_origins origin then allow_origin s origin x else x in
      let same : y.calls ≡ x.calls = elim (Bool-cases (contains s.allowed_origins origin)) [
        | inl t ↦ rw (t) (allow_origin_calls origin x)
        | inr f ↦ rw (f) refl
      ] in
      elim (Bool-cases (is_options r.http_method)) [
        | inl t ↦ inl (rw (t, write_header_calls, add_header_calls) same)
        | inr f ↦ passed (rw (f) refl) same (guarded r y)
      ]

  trace_request-Guarded :
      (h : Handler P W) → Guarded Permitted h → Guarded Permitted (trace_request s h)
  unfolding trace_request
  trace_request-Guarded h guarded r x =
      let y = record x { world = s.start_span r x.world } in
      passed (deferred_calls (λ z. record z { world = s.end_span z.world }) (h r y) (λ z. refl))
        refl (guarded r y)

  logger-Guarded : (h : Handler P W) → Guarded Permitted h → Guarded Permitted (logger s h)
  unfolding logger
  logger-Guarded h guarded r x =
      let y = record x { writer = record x.writer { recorded = 200 } } in
      passed (logged_calls r (h r y)) refl (guarded r y)

  recover_panic-Guarded :
      (h : Handler P W) → Guarded Permitted h → Guarded Permitted (recover_panic s h)
  unfolding recover_panic
  recover_panic-Guarded h guarded r x = passed (recovered_calls r (h r x)) refl (guarded r x)

  pub chain-Guarded : (h : Handler P W) → Guarded Scoped h → Guarded Permitted (chain s h)
  unfolding chain
  chain-Guarded h guarded =
      recover_panic-Guarded
        (request_id s (trace_request s (rate_limiter s (cors s (logger s (authenticate s h))))))
        (request_id-Guarded
          (trace_request s (rate_limiter s (cors s (logger s (authenticate s h)))))
          (trace_request-Guarded (rate_limiter s (cors s (logger s (authenticate s h)))) (
            rate_limiter-Guarded (cors s (logger s (authenticate s h))) (
              cors-Guarded (logger s (authenticate s h))
                (logger-Guarded (authenticate s h) (authenticate-Guarded h guarded))))))
