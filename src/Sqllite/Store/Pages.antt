-- ===== src/Sqllite/Store/Pages.antt =====
-- internal/sqllite/storer.go: ListEvents, the cursor and the reading of a row; the two queries of
-- internal/sqlc/generated/events.sql.go are written out.
pub mod Bounds
pub mod Lookup
use Prim.Native.String.{compare}
use Prim.Native.Nat.{Ordering}
use synapse_platform.Prelude.{
  ℕ, suc, ◌+◌, Bool, true, false, ◌&&◌, ◌||◌, String, Option, none, some, List, [], ◌∷◌,
  if◌then◌else◌, str_eq, ltb, ◌==◌, ℤ, pos, negsuc, length, take,
}
use synapse_platform.Ingestor.Domains.{parse_data_type, data_type_unknown}
use synapse_platform.Sqllite.Store.{Event, Row, Database}

pub record Cursor : Type 0 where
  pub ingested_at : ℕ
  pub event_id : String

-- The JSON and base64 codec of a cursor, `uuid.Parse`, the decoder of a payload of a type, the
-- registry's keys, a failure of a query, and the text that the driver makes of the zero time. The
-- driver keeps a time as a text: `reads_time` says for which times it reads that text back.
pub record Reader (P : Type 0) : Type 0 where
  pub encode_cursor : Cursor → String
  pub decode_cursor : String → Option Cursor
  pub parse_uuid : String → Option String
  pub decode_payload : String → String → Option P
  pub is_registered : String → Bool
  pub query_error : Database → Option String
  pub zero_time : String
  pub reads_time : ℕ → Bool

pub record PageRequest : Type 0 where
  pub cursor : String
  pub limit : ℤ

pub record PageResponse (A : Type 0) : Type 0 where
  pub items : List A
  pub next_cursor : String
  pub has_more : Bool

pub data Read (A : Type 0) : Type 0 where
  read : A → Read A
  read_error : String → Read A

abbrev pub max_page_size : ℕ
max_page_size = 100

abbrev pub default_page_size : ℕ
default_page_size = 20

unfoldable pub clamp : ℤ → ℕ → ℕ → ℕ → ℕ
clamp (negsuc n) lo hi fallback = fallback
clamp (pos n) lo hi fallback =
    if n == 0 then fallback else if ltb n lo then lo else if ltb hi n then hi else n

abbrev pub text_less : String → String → Bool
text_less s t = elim (compare s t) [ Ordering.lt ↦ true | _ ↦ false ]

-- `ORDER BY ingested_at DESC, event_id DESC`
abbrev pub comes_before : Row → Row → Bool
comes_before a b =
    ltb b.ingested_at a.ingested_at
    || ((a.ingested_at == b.ingested_at) && text_less b.event_id a.event_id)

unfoldable pub insert_ordered : Row → List Row → List Row
insert_ordered r [] = r ∷ []
insert_ordered r (x ∷ xs) =
    let rest = insert_ordered r xs in if comes_before r x then r ∷ x ∷ xs else x ∷ rest

unfoldable pub order_rows : List Row → List Row
unfolding insert_ordered
order_rows [] = []
order_rows (r ∷ rows) = insert_ordered r (order_rows rows)

-- `WHERE (ingested_at, event_id) < (?, ?)`
abbrev pub is_after : ℕ → String → Row → Bool
is_after t id r = ltb r.ingested_at t || ((r.ingested_at == t) && text_less r.event_id id)

unfoldable pub select_after : ℕ → String → List Row → List Row
select_after t id [] = []
select_after t id (r ∷ rows) =
    let rest = select_after t id rows in if is_after t id r then r ∷ rest else rest

unfoldable pub list_events_first_page : ℕ → Database → List Row
unfolding order_rows
list_events_first_page limit db = take limit (order_rows db.events)

-- The second parameter is a time too, `IngestedAt_2`; it is compared as its text.
unfoldable pub list_events_after_cursor : ℕ → String → ℕ → Database → List Row
unfolding order_rows select_after
list_events_after_cursor t t_2 limit db = take limit (order_rows (select_after t t_2 db.events))

abbrev pub last_cursor : List Row → Cursor
last_cursor [] = record { ingested_at = 0; event_id = "" }
last_cursor (r ∷ []) = record { ingested_at = r.ingested_at; event_id = r.event_id }
last_cursor (r ∷ x ∷ rows) = last_cursor (x ∷ rows)

module _ {P : Type 0} (d : Reader P) where
  to_base_event_value : String → String → Option P
  to_base_event_value text event_type =
      d.decode_payload (if d.is_registered event_type then event_type else data_type_unknown) text

  unfoldable pub to_base_event : Row → Read (Event P)
  unfolding to_base_event_value
  to_base_event r = elim (to_base_event_value r.data_json (parse_data_type r.event_type)) [
    | none ↦ read_error "payload"
    | some p ↦ elim (d.parse_uuid r.event_id) [
      | none ↦ read_error "invalid event UUID"
      | some id ↦ read (record {
        event_id = id;
        domain = r.domain;
        event_type = r.event_type;
        entity_id = r.entity_id;
        entity_type = r.entity_type;
        occurred_at = r.occurred_at;
        ingested_at = r.ingested_at;
        source = r.source;
        schema_version = r.schema_version;
        payload = p;
      })
    ]
  ]

  unfoldable pub to_base_events : List Row → Read (List (Event P))
  unfolding to_base_event
  to_base_events [] = read []
  to_base_events (r ∷ rows) = elim (to_base_event r) [
    | read_error e ↦ read_error e
    | read x ↦ elim (to_base_events rows) [ read xs ↦ read (x ∷ xs) | read_error e ↦ read_error e ]
  ]

  -- The scan of a row fails if one of its times cannot be read back.
  abbrev pub scans : Row → Bool
  scans r = d.reads_time r.occurred_at && d.reads_time r.ingested_at

  unfoldable pub scans_all : List Row → Bool
  scans_all [] = true
  scans_all (r ∷ rows) = scans r && scans_all rows

  unfoldable pub scan_rows : List Row → Read (List Row)
  unfolding scans_all
  scan_rows rows = if scans_all rows then read rows else read_error "scan"

  -- The rows that a request fetches; the call leaves `IngestedAt_2` at the zero time.
  unfoldable pub fetch_rows : PageRequest → ℕ → Database → Read (List Row)
  unfolding list_events_first_page list_events_after_cursor scan_rows
  fetch_rows page fetch_limit db =
      if str_eq page.cursor ""
      then elim (d.query_error db) [
        | some e ↦ read_error e
        | none ↦ scan_rows (list_events_first_page fetch_limit db)
      ]
      else elim (d.decode_cursor page.cursor) [
        | none ↦ read_error "invalid cursor"
        | some c ↦ elim (d.query_error db) [
          | some e ↦ read_error e
          | none ↦ scan_rows (list_events_after_cursor c.ingested_at d.zero_time fetch_limit db)
        ]
      ]

  make_page : ℕ → List Row → Read (PageResponse (Event P))
  unfolding to_base_events
  make_page limit rows =
      let has_more = ltb limit (length rows) in
      let kept = if has_more then take limit rows else rows in
      elim (to_base_events kept) [
        | read_error e ↦ read_error e
        | read events ↦ read (record {
          items = events;
          next_cursor = if has_more then d.encode_cursor (last_cursor kept) else "";
          has_more = has_more;
        })
      ]

  unfoldable pub list_events : PageRequest → Database → Read (PageResponse (Event P))
  unfolding make_page
  list_events page db =
      let limit = clamp page.limit 1 max_page_size default_page_size in
      elim (fetch_rows page (limit + 1) db) [
        | read_error e ↦ read_error e
        | read rows ↦ make_page limit rows
      ]
