-- ===== src/Sqllite/Store.antt =====
-- internal/sqllite/storer.go: StoreData, StoreBatch, insertChunk and the accounting. The tables are
-- lists of rows, and the statements do to them what their SQL says.
pub mod Accounting
pub mod Pages
use synapse_platform.Prelude.{
  ℕ, zero, suc, ◌+◌, ◌-◌, Bool, true, false, String, Option, none, some, List, [], ◌∷◌,
  if◌then◌else◌, str_eq, length, take, drop,
}
use synapse_platform.Ingestor.Errors.{GoError, wrapped, other, new_terminal_error}
use synapse_platform.Sqllite.Errors.{DriverError, classify_store_error}

-- An event to store; `payload` is of a type that the driver's encoder knows.
pub record Event (P : Type 0) : Type 0 where
  pub event_id : String
  pub domain : String
  pub event_type : String
  pub entity_id : String
  pub entity_type : String
  pub occurred_at : ℕ
  pub ingested_at : ℕ
  pub source : String
  pub schema_version : String
  pub payload : P

-- A row of `events`; `metadata` is always NULL.
pub record Row : Type 0 where
  pub event_id : String
  pub domain : String
  pub event_type : String
  pub entity_id : String
  pub entity_type : String
  pub occurred_at : ℕ
  pub ingested_at : ℕ
  pub source : String
  pub schema_version : String
  pub data_json : String

-- The tables `events` and `store_accounting`.
pub record Database : Type 0 where
  pub events : List Row
  pub attempted_events : ℕ
  pub inserted_events : ℕ
  pub duplicate_events : ℕ

-- What can fail: `json.Marshal`, and the calls of the driver, each by the tables it is made on.
pub record Driver (P : Type 0) : Type 0 where
  pub marshal : P → Option String
  pub begin_error : Database → Option DriverError
  pub exec_error : Database → Option DriverError
  pub rows_affected_error : Database → Option DriverError
  pub accounting_error : Database → Option DriverError
  pub commit_error : Database → Option DriverError

unfoldable pub has_id : String → List Row → Bool
has_id id [] = false
has_id id (r ∷ rows) = if str_eq id r.event_id then true else has_id id rows

-- `INSERT OR IGNORE` of one row: `event_id` is the primary key.
unfoldable pub insert_or_ignore : Row → List Row → List Row
unfolding has_id
insert_or_ignore r rows = if has_id r.event_id rows then rows else r ∷ rows

-- The same of several rows, and the number of rows inserted.
unfoldable pub insert_rows : List Row → List Row → List Row
unfolding insert_or_ignore
insert_rows [] rows = rows
insert_rows (r ∷ rs) rows = insert_rows rs (insert_or_ignore r rows)

unfoldable pub count_inserted : List Row → List Row → ℕ
unfolding insert_or_ignore has_id
count_inserted [] rows = 0
count_inserted (r ∷ rs) rows =
    let later = count_inserted rs (insert_or_ignore r rows) in
    if has_id r.event_id rows then later else 1 + later

-- `storeAccountingQuery`
unfoldable pub record_store_accounting : ℕ → ℕ → Database → Database
record_store_accounting attempted inserted db = record db {
  attempted_events = db.attempted_events + attempted;
  inserted_events = db.inserted_events + inserted;
  duplicate_events = db.duplicate_events + (attempted - inserted);
}

abbrev pub marshal_failed : Option GoError
marshal_failed = new_terminal_error (some (wrapped "marshal event data" (other "json")))

-- The error, if there was one, and the tables afterwards.
abbrev pub Stored : Type 0
Stored = Option GoError × Database

-- 999 variables at 11 for each event.
abbrev pub max_events_per_chunk : ℕ
max_events_per_chunk = 90

-- The rest of the loop is left out after a failure.
abbrev pub then_rest : Stored → Stored → Stored
then_rest (some x, db) rest = (some (wrapped "failed to insert chunk" x), db)
then_rest (none, db) rest = rest

module _ {P : Type 0} (d : Driver P) where
  abbrev pub to_row : Event P → String → Row
  to_row e text = record {
    event_id = e.event_id;
    domain = e.domain;
    event_type = e.event_type;
    entity_id = e.entity_id;
    entity_type = e.entity_type;
    occurred_at = e.occurred_at;
    ingested_at = e.ingested_at;
    source = e.source;
    schema_version = e.schema_version;
    data_json = text;
  }

  -- The rows of a chunk; `none` if a payload cannot be encoded.
  unfoldable pub to_rows : List (Event P) → Option (List Row)
  to_rows [] = some []
  to_rows (e ∷ es) = elim (d.marshal e.payload) [
    | none ↦ none
    | some text ↦ elim (to_rows es) [ none ↦ none | some rs ↦ some (to_row e text ∷ rs) ]
  ]

  abbrev insert_into : List Row → Database → Database
  insert_into rs db = record db { events = insert_rows rs db.events }

  -- After the insert of `StoreData`, outside a transaction.
  account_data : ℕ → Database → Stored
  account_data inserted db = elim (d.rows_affected_error db) [
    | some e ↦ (classify_store_error "read rows affected" (some e), db)
    | none ↦ elim (d.accounting_error db) [
      | some e ↦ (classify_store_error "record store accounting" (some e), db)
      | none ↦ (none, record_store_accounting 1 inserted db)
    ]
  ]

  unfoldable pub store_data : Event P → Database → Stored
  unfolding account_data insert_rows count_inserted
  store_data e db = elim (d.marshal e.payload) [
    | none ↦ (marshal_failed, db)
    | some text ↦ elim (d.exec_error db) [
      | some x ↦ (classify_store_error "create event" (some x), db)
      | none ↦
          let rows = to_row e text ∷ [] in
          account_data (count_inserted rows db.events) (insert_into rows db)
    ]
  ]

  -- A failure before the commit rolls back to `before`. One of the commit is taken to do so too: the
  -- deferred `Rollback` does nothing then, and whether the transaction ends is up to the driver.
  commit : Database → Database → Stored
  commit before db = elim (d.commit_error db) [
    | some e ↦ (classify_store_error "commit transaction" (some e), before)
    | none ↦ (none, db)
  ]

  account_chunk : ℕ → ℕ → Database → Database → Stored
  unfolding commit
  account_chunk attempted inserted before db = elim (d.rows_affected_error db) [
    | some e ↦ (classify_store_error "read rows affected" (some e), before)
    | none ↦ elim (d.accounting_error db) [
      | some e ↦ (classify_store_error "record store accounting" (some e), before)
      | none ↦ commit before (record_store_accounting attempted inserted db)
    ]
  ]

  execute_chunk : List Row → Database → Stored
  unfolding account_chunk
  execute_chunk rows db = elim (d.exec_error db) [
    | some e ↦ (classify_store_error "execute batch insert" (some e), db)
    | none ↦ account_chunk (length rows) (count_inserted rows db.events) db (insert_into rows db)
  ]

  unfoldable pub insert_chunk : List (Event P) → Database → Stored
  unfolding execute_chunk
  insert_chunk es db = elim (d.begin_error db) [
    | some e ↦ (classify_store_error "begin transaction" (some e), db)
    | none ↦ elim (to_rows es) [ none ↦ (marshal_failed, db) | some rows ↦ execute_chunk rows db ]
  ]

  -- The loop of `StoreBatch`; each round takes at least one event, so their number is enough fuel.
  unfoldable pub store_chunks : ℕ → List (Event P) → Database → Stored
  store_chunks fuel [] db = (none, db)
  store_chunks zero (e ∷ es) db = (none, db)
  store_chunks (suc fuel) (e ∷ es) db =
      let first = insert_chunk (take max_events_per_chunk (e ∷ es)) db in
      then_rest first (store_chunks fuel (drop max_events_per_chunk (e ∷ es)) first.1)

  unfoldable pub store_batch : List (Event P) → Database → Stored
  unfolding store_chunks
  store_batch es db = store_chunks (length es) es db
