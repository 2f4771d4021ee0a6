-- ===== src/Sqllite/Store/Pages/Lookup.antt =====
-- internal/sqllite/storer.go: GetEvent, and what it finds after StoreData.
use synapse_platform.Prelude.{
  ◌&&◌, ◌≡◌, refl, ap, ◌∙◌, true, false, String, Option, none, some, List, [], ◌∷◌, if◌then◌else◌,
  str_eq, str_eq_self,
}
use synapse_platform.Ingestor.Errors.{GoError}
use synapse_platform.Ingestor.Domains.{parse_data_type}
use synapse_platform.Sqllite.Store.{
  Event, Row, Database, Driver, has_id, insert_or_ignore, insert_rows, to_row, store_data,
  record_store_accounting,
}
use synapse_platform.Sqllite.Store.Accounting.{after_rows}
use synapse_platform.Sqllite.Store.Accounting.Single.{
  Left, untouched, uncounted, counted, store_data-Left,
}
use synapse_platform.Sqllite.Store.Pages.{
  Reader, Read, read, read_error, scans, to_base_event, to_base_event_value,
}

-- `GetEvent` returns an event, `ErrEventNotFound` or another error.
pub data Lookup (P : Type 0) : Type 0 where
  found : Event P → Lookup P
  event_not_found : Lookup P
  lookup_error : String → Lookup P

unfoldable pub select_event : String → List Row → Option Row
select_event id [] = none
select_event id (r ∷ rows) = if str_eq r.event_id id then some r else select_event id rows

module _ {P : Type 0} (r : Reader P) where
  to_lookup : Read (Event P) → Lookup P
  to_lookup (read e) = found e
  to_lookup (read_error m) = lookup_error m

  unfoldable pub get_event : String → Database → Lookup P
  unfolding to_lookup select_event
  get_event id db = elim (r.query_error db) [
    | some e ↦ lookup_error e
    | none ↦ elim (select_event id db.events) [
      | none ↦ event_not_found
      | some row ↦ if scans r row then to_lookup (to_base_event r row) else lookup_error "scan"
    ]
  ]

module _ {P : Type 0} (d : Driver P) where
  stored_row :
      {e : Event P} {db : Database} {o : Option GoError × Database}
      → Left d e db o
      → o.0 ≡ none
      → (text : String) × (d.marshal e.payload ≡ some text)
        × (o.1 ≡ after_rows (to_row d e text ∷ []) db)
  stored_row (untouched x) h = cc
  stored_row (uncounted x text m) h = cc
  stored_row (counted text m) h = (text, m, refl)

  first_selected :
      (e : Event P) (text : String) (db : Database)
      → has_id e.event_id db.events ≡ false
      → select_event e.event_id (after_rows (to_row d e text ∷ []) db).events
        ≡ some (to_row d e text)
  unfolding select_event insert_rows insert_or_ignore record_store_accounting
  first_selected e text db fresh = rw (fresh, str_eq_self e.event_id) refl

  -- Of an event that StoreData stored under a new id: if its type is registered, its payload is decoded
  -- from the JSON that it was encoded to, its id is the text of a UUID and the query does not fail,
  -- then GetEvent returns the same event for this id exactly if the driver reads back the texts that
  -- it wrote for its two times; else it returns the error of the scan, and the stored event cannot be
  -- read.
  pub store_data-get_event :
      (r : Reader P) (e : Event P) (db : Database)
      → (store_data d e db).0 ≡ none
      → has_id e.event_id db.events ≡ false
      → r.is_registered (parse_data_type e.event_type) ≡ true
      → ((text : String)
          → d.marshal e.payload ≡ some text
          → r.decode_payload (parse_data_type e.event_type) text ≡ some e.payload)
      → r.parse_uuid e.event_id ≡ some e.event_id
      → r.query_error (store_data d e db).1 ≡ none
      → get_event r e.event_id (store_data d e db).1 ≡ (
          if r.reads_time e.occurred_at && r.reads_time e.ingested_at
          then found e
          else lookup_error "scan")
  unfolding get_event to_base_event to_base_event_value
  store_data-get_event r e db stored fresh registered decodes uuid query =
      let (text, encoded, after) = stored_row (store_data-Left d e db) stored in
      let row = to_row d e text in
      let selected : select_event e.event_id (store_data d e db).1.events ≡ some row =
        ap (λ t. select_event e.event_id t.events) after ∙ first_selected e text db fresh in
      let payload = decodes text encoded in
      rw (get_event, query, selected, to_base_event, to_base_event_value, registered, payload, uuid)
        refl
