-- ===== src/Api/Answers/Statuses.antt =====
-- The status of `handleGetEvent` on each of its branches, the answer to a panic, and to a preflight.
use synapse_platform.Prelude.{
  ℕ, ◌≡◌, refl, ap, ◌∙◌, inl, inr, true, false, String, Option, none, some, Option-cases,
  Bool-cases, [], ◌∷◌, if◌then◌else◌,
}
use synapse_platform.Prelude.Text.{codes}
use synapse_platform.Auth.{Identity, identity_from_context, has_scope}
use synapse_platform.Sqllite.Store.{Event}
use synapse_platform.Api.Types.{RequestError, to_response, http_status}
use synapse_platform.Api.Response.{
  HttpRequest, Headers, Body, error_body, event_body, got, request_id_from_context, Exchange,
  Outcome, returned, panicked, Handler, Reply, replied, failed, panics, Services, Encoding, encoded,
  refused_value, failed_write, add_header, write_header, send_body, write_body, typed_json,
  error_response, write_error, write_request_error, encode_or_error, respond,
}
use synapse_platform.Api.Handlers.{with_read_scope, finish_get, get_event_for, handle_get_event}
use synapse_platform.Api.Middleware.{recovered, recover_panic, request_id}

-- The status that was sent, if the handler returned.
abbrev pub answer_status : {P W : Type 0} → Outcome P W → Option ℕ
answer_status (panicked x) = none
answer_status (returned x) = elim x.writer.sent [ none ↦ none | some line ↦ some line.0 ]

abbrev pub encoding_status : Encoding → ℕ
encoding_status encoded = 200
encoding_status refused_value = 500
encoding_status failed_write = 200

module _ {P : Type 0} where
  abbrev pub reply_status : (Event P → Encoding) → Reply (Event P) → Option ℕ
  reply_status encode panics = none
  reply_status encode (failed is_event_not_found) = some (if is_event_not_found then 404 else 500)
  reply_status encode (replied e) = some (encoding_status (encode e))

  abbrev pub event_status : Option Identity → (Event P → Encoding) → Reply (Event P) → Option ℕ
  event_status none encode a = some 401
  event_status (some i) encode a =
      if has_scope i (codes "read:events") then reply_status encode a else some 403

module _ {P W : Type 0} where
  -- A status that is sent stays, whatever is written later.
  pub sent_body :
      (n : Encoding) (b : Body P) (x : Exchange P W) (l : ℕ × Headers)
      → x.writer.sent ≡ some l
      → (write_body n b x).writer.sent ≡ some l
  unfolding write_body send_body
  sent_body refused_value b x l h = h
  sent_body encoded b x l h = rw (h) refl
  sent_body failed_write b x l h = rw (h) refl

  pub unsent_header :
      (n : ℕ) (x : Exchange P W)
      → x.writer.sent ≡ none
      → (write_header n x).writer.sent ≡ some (n, x.writer.headers)
  unfolding write_header
  unsent_header n x h = rw (write_header, h) refl

  sent_header :
      (n : ℕ) (x : Exchange P W) (l : ℕ × Headers)
      → x.writer.sent ≡ some l
      → (write_header n x).writer.sent ≡ some l
  unfolding write_header
  sent_header n x l h = rw (write_header, h) h

  unsent_body :
      (b : Body P) (x : Exchange P W)
      → x.writer.sent ≡ none
      → (send_body b x).writer.sent ≡ some (200, x.writer.headers)
  unfolding send_body
  unsent_body b x h = rw (send_body, h) refl

  body_added : (b : Body P) (x : Exchange P W) → (send_body b x).writer.bodies ≡ b ∷ x.writer.bodies
  unfolding send_body
  body_added b x = elim (Option-cases x.writer.sent) [
    | inl e ↦ rw (send_body, e) refl
    | inr (l, e) ↦ rw (send_body, e) refl
  ]

  header_bodies : (n : ℕ) (x : Exchange P W) → (write_header n x).writer.bodies ≡ x.writer.bodies
  unfolding write_header
  header_bodies n x = elim (Option-cases x.writer.sent) [
    | inl e ↦ rw (write_header, e) refl
    | inr (l, e) ↦ rw (write_header, e) refl
  ]

module _ {P W : Type 0} (s : Services P W) where
  error_bodies :
      (r : HttpRequest) (n : ℕ) (m : String) (x : Exchange P W)
      → s.encode (error_response r n m) ≡ encoded
      → (write_error s r n m x).writer.bodies ≡ error_response r n m ∷ x.writer.bodies
  unfolding write_error write_body typed_json add_header
  error_bodies r n m x good =
      rw (write_error, good)
        (body_added (error_response r n m) (write_header n (typed_json x))
          ∙ ap (λ bs. error_response r n m ∷ bs) (header_bodies n (typed_json x)))

  error_line :
      (r : HttpRequest) (n : ℕ) (m : String) (x : Exchange P W)
      → x.writer.sent ≡ none
      → (write_error s r n m x).writer.sent ≡ some (n, (typed_json x).writer.headers)
  unfolding write_error typed_json add_header
  error_line r n m x h =
      sent_body (s.encode (error_response r n m)) (error_response r n m)
        (write_header n (typed_json x)) _ (unsent_header n (typed_json x) h)

  late_error :
      (r : HttpRequest) (n : ℕ) (m : String) (x : Exchange P W) (l : ℕ × Headers)
      → x.writer.sent ≡ some l
      → (write_error s r n m x).writer.sent ≡ some l
  unfolding write_error typed_json add_header
  late_error r n m x l h =
      sent_body (s.encode (error_response r n m)) (error_response r n m)
        (write_header n (typed_json x)) l (sent_header n (typed_json x) l h)

  refused_answer :
      (r : HttpRequest) (n : ℕ) (m : String) (x : Exchange P W)
      → x.writer.sent ≡ none
      → answer_status (returned (write_error s r n m x)) ≡ some n
  refused_answer r n m x h = rw (answer_status, error_line r n m x h) refl

  answer_line :
      (r : HttpRequest) (n : Encoding) (b : Body P) (e : RequestError) (x : Exchange P W)
      → http_status e ≡ 500
      → x.writer.sent ≡ none
      → answer_status (returned (encode_or_error s r n b e x)) ≡ some (encoding_status n)
  unfolding encode_or_error write_request_error write_body
  answer_line r encoded b e x internal h = rw (answer_status, unsent_body b x h) refl
  answer_line r refused_value b e x internal h =
      rw (answer_status, error_line r (http_status e) e.because x h) (ap (λ n. some n) internal)
  answer_line r failed_write b e x internal h =
      rw
        (
          answer_status,
          late_error r (http_status e) e.because (send_body b x) _ (unsent_body b x h),
        )
        refl

  finish_status :
      (r : HttpRequest) (id : String) (a : Reply (Event P)) (x : Exchange P W)
      → x.writer.sent ≡ none
      → answer_status (finish_get s r id a x)
        ≡ reply_status (λ e. s.encode (event_body (to_response e))) a
  unfolding finish_get respond write_request_error typed_json add_header
  finish_status r id panics x h = refl
  finish_status r id (failed true) x h = refused_answer r 404 "failed to get event" x h
  finish_status r id (failed false) x h = refused_answer r 500 "failed to get event" x h
  finish_status r id (replied e) x h =
      answer_line r (s.encode (event_body (to_response e))) _ _ (typed_json x) refl h

  -- The status of handleGetEvent: 401 without an identity, 403 without the scope read:events, and then 404
  -- exactly for ErrEventNotFound, 500 for any other error of the store and for an event that cannot be
  -- encoded, and otherwise 200. If the store panics there is no status.
  pub handle_get_event_lem :
      (id : String) (r : HttpRequest) (x : Exchange P W)
      → x.writer.sent ≡ none
      → answer_status (handle_get_event s id r x)
        ≡ event_status r.identity
            (λ e. s.encode (event_body (to_response e)))
            (s.get_event id x.world).0
  unfolding handle_get_event with_read_scope identity_from_context get_event_for
  handle_get_event_lem id r x h = by_identity r.identity refl
    where
      by_identity :
          (i : Option Identity)
          → (r.identity ≡ i)
          → answer_status (handle_get_event s id r x)
            ≡ event_status i (λ e. s.encode (event_body (to_response e))) (s.get_event id x.world).0
      by_identity none e =
          rw (handle_get_event, with_read_scope, identity_from_context, e)
            (refused_answer r 401 "unauthorized" x h)
      by_identity (some i) e = elim (Bool-cases (has_scope i (codes "read:events"))) [
        | inl t ↦
            rw (handle_get_event, with_read_scope, identity_from_context, e, t)
              (finish_status r id (s.get_event id x.world).0
                (record x { world = (s.get_event id x.world).1; calls = got id ∷ x.calls }) h)
        | inr f ↦
            rw (handle_get_event, with_read_scope, identity_from_context, e, f)
              (refused_answer r 403 "forbidden" x h)
      ]

  -- If a handler behind the middleware for request ids panics before a status is sent, the client
  -- gets the status 500 and a body without a request id: the request that the recovery looks at does not have it.
  pub recover_panic-request_id :
      (next : Handler P W) (r : HttpRequest) (x y : Exchange P W)
      → r.request_id ≡ none
      → s.encode (error_response r 500 "internal server error") ≡ encoded
      → request_id s next r x ≡ panicked y
      → y.writer.sent ≡ none
      → (z : Exchange P W) × (recover_panic s (request_id s next) r x ≡ returned z)
        × (answer_status (returned z) ≡ some 500)
        × (z.writer.bodies
            ≡ error_body (record {
              status = 500;
              error = "Internal Server Error";
              message = "internal server error";
              request_id = [];
            })
              ∷ y.writer.bodies)
  unfolding recover_panic recovered
  recover_panic-request_id next r x y no_id good panic unsent = (
    write_error s r 500 "internal server error" y,
    rw (recover_panic, panic) refl,
    refused_answer r 500 "internal server error" y unsent,
    error_bodies r 500 "internal server error" y good
        ∙ ap
            (λ id.
              error_body (record {
                status = 500;
                error = "Internal Server Error";
                message = "internal server error";
                request_id = request_id_from_context id;
              })
              ∷ y.writer.bodies)
            no_id,
  )
