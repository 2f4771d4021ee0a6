-- ===== src/Tests/Sqllite.antt =====
-- The event store: a batch with a duplicate, stored twice, and two pages where the last event of the
-- first page has the time of the next one.
use synapse_platform.Prelude.{
  ℕ, ◌≡◌, ◌≤◌, ◌<◌, refl, false, true, ◌||◌, List, [], ◌∷◌, none, some, String, All, length, ltb,
  pos,
}
use synapse_platform.Ingestor.Errors.{
  classify, class_terminal, new_terminal_error, new_transient_error, errors_as_classified,
}
use synapse_platform.Sqllite.Errors.{
  sqlite_error, primary_sqlite_code, classify_store_error, classify_store_error-terminal,
}
use synapse_platform.Sqllite.Store.{
  Event, Row, Database, Driver, has_id, insert_or_ignore, insert_rows, count_inserted,
  record_store_accounting, to_row, to_rows, insert_chunk, store_chunks, store_batch, store_data,
}
use synapse_platform.Sqllite.Store.Accounting.{IsAccounted, store_batch-IsAccounted}
use synapse_platform.Sqllite.Store.Accounting.Again.{
  in_batch, store_batch-Stores, store_batch-again,
}
use synapse_platform.Sqllite.Store.Accounting.Single.{Left, store_data-Left}
use synapse_platform.Sqllite.Store.Pages.{
  Reader, PageResponse, clamp, fetch_rows, list_events, order_rows, insert_ordered, select_after,
  list_events_first_page, list_events_after_cursor, to_base_event, to_base_events,
}
use synapse_platform.Sqllite.Store.Pages.Lookup.{
  found, select_event, get_event, store_data-get_event,
}
use synapse_platform.Ingestor.Domains.{parse_data_type}
use synapse_platform.Sqllite.Store.Pages.Bounds.{first_page-length, after_cursor-older}

program : Unit {0}
unfolding store_data select_event get_event parse_data_type classify new_terminal_error
    new_transient_error errors_as_classified primary_sqlite_code classify_store_error has_id
    insert_or_ignore insert_rows count_inserted record_store_accounting to_rows insert_chunk
    store_chunks store_batch clamp fetch_rows list_events order_rows insert_ordered select_after
    list_events_first_page list_events_after_cursor to_base_event to_base_events
program = tt

-- SQLITE_CONSTRAINT_PRIMARYKEY
classify_store_error-terminal_example :
    classify (classify_store_error "create event" (some (sqlite_error (pos 1555)))) ≡ class_terminal
unfolding program
classify_store_error-terminal_example =
    classify_store_error-terminal "create event" (sqlite_error (pos 1555))

abbrev event : String → ℕ → Event ℕ
event id time = record {
  event_id = id;
  domain = "energy";
  event_type = "ev_charger";
  entity_id = "d";
  entity_type = "device";
  occurred_at = 1;
  ingested_at = time;
  source = "ev_charger";
  schema_version = "1.0.0";
  payload = 0;
}

abbrev driver : Driver ℕ
driver = record {
  marshal = λ p. some "{}";
  begin_error = λ db. none;
  exec_error = λ db. none;
  rows_affected_error = λ db. none;
  accounting_error = λ db. none;
  commit_error = λ db. none;
}

abbrev empty : Database
empty = record { events = []; attempted_events = 0; inserted_events = 0; duplicate_events = 0 }

empty-IsAccounted : IsAccounted empty
empty-IsAccounted = record { unique = tt; inserted = refl; total = refl }

abbrev batch : List (Event ℕ)
batch = event "a" 5 ∷ event "b" 5 ∷ event "a" 5 ∷ []

abbrev row : Event ℕ → Row
row e = to_row driver e "{}"

abbrev filled : Database
filled = record {
  events = row (event "b" 5) ∷ row (event "a" 5) ∷ [];
  attempted_events = 3;
  inserted_events = 2;
  duplicate_events = 1;
}

batch_is_stored : store_batch driver batch empty ≡ (none, filled)
unfolding program
batch_is_stored = refl

store_batch-IsAccounted_example : IsAccounted filled
unfolding program
store_batch-IsAccounted_example = store_batch-IsAccounted driver batch empty empty-IsAccounted

store_batch-Stores_example :
    ((id : String) → has_id id filled.events ≡ (in_batch id batch || has_id id empty.events))
    × (filled.attempted_events ≡ 3)
unfolding program
store_batch-Stores_example = store_batch-Stores driver batch empty refl

store_batch-again_example : (store_batch driver batch filled).1.events ≡ filled.events
unfolding program
store_batch-again_example = store_batch-again driver driver batch batch empty refl (λ id h. h)

abbrev reader : Reader ℕ
reader = record {
  encode_cursor = λ c. "cursor";
  decode_cursor = λ s. some (record { ingested_at = 5; event_id = "b" });
  parse_uuid = λ s. some s;
  decode_payload = λ t s. some 0;
  is_registered = λ t. true;
  query_error = λ db. none;
  zero_time = "0001-01-01 00:00:00 +0000 UTC";
  reads_time = λ t. true;
}

abbrev first_page : PageResponse (Event ℕ)
first_page = record { items = event "b" 5 ∷ []; next_cursor = "cursor"; has_more = true }

first_page-length_example :
    (length first_page.items ≡ 1)
    × (first_page.has_more ≡ ltb 1 2)
    × (length first_page.items ≤ 100)
unfolding program
first_page-length_example =
    first_page-length reader (record { cursor = ""; limit = pos 1 }) filled first_page refl refl

-- Event `a` is on no page.
abbrev second_page : PageResponse (Event ℕ)
second_page = record { items = []; next_cursor = ""; has_more = false }

after_cursor-older_example : All (λ (e : Event ℕ). e.ingested_at < 5) []
unfolding program
after_cursor-older_example =
    after_cursor-older reader (record { cursor = "cursor"; limit = pos 1 }) filled second_page
      (record { ingested_at = 5; event_id = "b" }) refl refl (refl, (refl, tt)) refl

-- The accounting of a stored event fails.
abbrev broken : Driver ℕ
broken = record driver { accounting_error = λ db. some (sqlite_error (pos 5)) }

store_data-Left_example : Left broken (event "a" 5) empty (store_data broken (event "a" 5) empty)
store_data-Left_example = store_data-Left broken (event "a" 5) empty

store_data-get_event_example :
    get_event reader "a" (store_data driver (event "a" 5) empty).1 ≡ found (event "a" 5)
unfolding program
store_data-get_event_example =
    store_data-get_event driver reader (event "a" 5) empty refl refl refl (λ text encoded. refl)
      refl refl
