-- ===== src/Api/Handlers.antt =====
-- internal/api/handler.go: the handlers of the three routes, and `parseIntOrDefault` of responses.go.
use synapse_platform.Prelude.{
  ℕ, zero, suc, ◌+◌, ◌-◌, ◌*◌, ◌%◌, ◌&&◌, String, Option, none, some, [], ◌∷◌, if◌then◌else◌,
  str_eq, ltb, leb, ◌==◌, ℤ, pos, negsuc,
}
use synapse_platform.Prelude.Text.{Bytes, codes}
use synapse_platform.Auth.{ok, refused, identity_from_context, has_scope}
use synapse_platform.Sqllite.Store.{Event}
use synapse_platform.Sqllite.Store.Pages.{PageRequest, PageResponse}
use synapse_platform.Api.Types.{
  Request, Report, to_response, to_responses, TypeOfError, err_failed_to_get_event,
  err_failed_to_list_events, err_failed_to_encode_response,
}
use synapse_platform.Api.Response.{
  HttpRequest, list_body, event_body, report_body, listed, got, summarized, Exchange, Outcome,
  returned, panicked, Handler, Reply, replied, failed, panics, Services, add_header, write_body,
  write_error, write_request_error, respond,
}

-- The digits of a number before which `n` was read; `none` at another byte.
unfoldable pub read_digits : ℕ → Bytes → Option ℕ
read_digits n [] = some n
read_digits n (c ∷ cs) =
    let rest = read_digits (10 * n + (c - 48)) cs in if leb 48 c && leb c 57 then rest else none

-- A number without its sign; `none` for no digit.
abbrev pub read_number : Bytes → Option ℕ
unfolding read_digits
read_number [] = none
read_number (c ∷ cs) = read_digits 0 (c ∷ cs)

-- `strconv.Atoi` on the 64-bit integers.
abbrev pub in_range_pos : Option ℕ → Option ℤ
in_range_pos none = none
in_range_pos (some n) = if ltb n 9223372036854775808 then some (pos n) else none

abbrev pub in_range_neg : Option ℕ → Option ℤ
in_range_neg none = none
in_range_neg (some zero) = some (pos 0)
in_range_neg (some (suc n)) = if ltb n 9223372036854775808 then some (negsuc n) else none

unfoldable pub atoi : Bytes → Option ℤ
atoi [] = none
atoi (c ∷ cs) =
    if c == 45
    then in_range_neg (read_number cs)
    else if c == 43
    then in_range_pos (read_number cs)
    else in_range_pos (read_number (c ∷ cs))

abbrev pub positive_or : Option ℤ → ℤ → ℤ
positive_or none fallback = fallback
positive_or (some (pos zero)) fallback = fallback
positive_or (some (pos (suc n))) fallback = pos (suc n)
positive_or (some (negsuc n)) fallback = fallback

unfoldable pub parse_int_or_default : Bytes → ℤ → ℤ
parse_int_or_default s fallback = positive_or (atoi s) fallback

abbrev pub hour : ℕ
hour = 3600000000000

module _ {P W : Type 0} (s : Services P W) where
  -- The guards at the start of each handler.
  unfoldable pub with_read_scope : (Exchange P W → Outcome P W) → Handler P W
  with_read_scope next r x = elim (identity_from_context r.identity) [
    | refused e ↦ returned (write_error s r 401 "unauthorized" x)
    | ok i ↦
        if has_scope i (codes "read:events")
        then next x
        else returned (write_error s r 403 "forbidden" x)
  ]

  -- The end of `handleListEvents`, once the service has answered.
  unfoldable pub finish_list :
      HttpRequest → Reply (PageResponse (Event P)) → Exchange P W → Outcome P W
  finish_list r panics x = panicked x
  finish_list r (failed b) x = returned (
      write_request_error s r
        (record {
          type_of_error = TypeOfError.internal;
          because = err_failed_to_list_events;
          resource = "events";
          resource_id = "";
        })
        x)
  finish_list r (replied page) x = returned (
      respond s r
        (list_body (record {
          data_ = to_responses page.items;
          next_cursor = page.next_cursor;
          has_more = page.has_more;
        }))
        (record {
          type_of_error = TypeOfError.encoding;
          because = err_failed_to_encode_response;
          resource = "events";
          resource_id = "";
        })
        x)

  abbrev pub page_request : HttpRequest → PageRequest
  page_request r = record {
    cursor = r.query "cursor";
    limit = parse_int_or_default (codes (r.query "limit")) (pos 20);
  }

  unfoldable pub list_events_for : Handler P W
  unfolding finish_list
  list_events_for r x =
      let answer = s.list_events (page_request r) x.world in
      finish_list r answer.0
        (record x { world = answer.1; calls = listed (page_request r) ∷ x.calls })

  unfoldable pub handle_list_events : Handler P W
  unfolding list_events_for with_read_scope
  handle_list_events r x = with_read_scope (list_events_for r) r x

  unfoldable pub finish_get : HttpRequest → String → Reply (Event P) → Exchange P W → Outcome P W
  finish_get r id panics x = panicked x
  finish_get r id (failed is_event_not_found) x = returned (
      write_request_error s r
        (record {
          type_of_error =
              if is_event_not_found then TypeOfError.not_found else TypeOfError.internal;
          because = err_failed_to_get_event;
          resource = "event";
          resource_id = id;
        })
        x)
  finish_get r id (replied e) x = returned (
      respond s r (event_body (to_response e))
        (record {
          type_of_error = TypeOfError.encoding;
          because = err_failed_to_encode_response;
          resource = "event";
          resource_id = id;
        })
        x)

  unfoldable pub get_event_for : String → Handler P W
  unfolding finish_get
  get_event_for id r x =
      let answer = s.get_event id x.world in
      finish_get r id answer.0 (record x { world = answer.1; calls = got id ∷ x.calls })

  unfoldable pub handle_get_event : String → Handler P W
  unfolding get_event_for with_read_scope
  handle_get_event id r x = with_read_scope (get_event_for id r) r x

  unfoldable pub finish_summary : HttpRequest → Reply Report → Exchange P W → Outcome P W
  finish_summary r panics x = panicked x
  finish_summary r (failed b) x = returned (
      write_request_error s r
        (record {
          type_of_error = TypeOfError.internal;
          because = err_failed_to_get_event;
          resource = "summary";
          resource_id = "";
        })
        x)
  finish_summary r (replied report) x = returned (
      write_body (s.encode (report_body report)) (report_body report)
        (add_header "Content-Type" (codes "application/json") x))

  -- By default the start of the hour that has begun, less 24 hours; a text that is no time is ignored.
  since_or_default : String → ℕ → ℕ
  since_or_default raw now =
      let default = now - now % hour - 24 * hour in
      if str_eq raw "" then default else elim (s.parse_time raw) [ none ↦ default | some t ↦ t ]

  abbrev pub summary_request : HttpRequest → W → Request
  unfolding since_or_default
  summary_request r w = record {
    domain = r.query "domain";
    since = since_or_default (r.query "since") (s.now w);
  }

  unfoldable pub summarize_with : Option (Request → W → Reply Report × W) → Handler P W
  unfolding finish_summary since_or_default
  summarize_with none r x = returned (write_error s r 503 "summarizer_disabled" x)
  summarize_with (some summarize) r x =
      let request = summary_request r x.world in
      let answer = summarize request x.world in
      finish_summary r answer.0
        (record x { world = answer.1; calls = summarized request ∷ x.calls })

  unfoldable pub handle_get_summary : Handler P W
  unfolding summarize_with with_read_scope
  handle_get_summary r x = with_read_scope (summarize_with s.summarize r) r x
