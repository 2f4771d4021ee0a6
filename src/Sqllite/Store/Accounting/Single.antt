-- ===== src/Sqllite/Store/Accounting/Single.antt =====
-- What StoreData leaves in the tables. It has no transaction.
use synapse_platform.Prelude.{
  ◌≡◌, refl, sym, subst, inl, inr, String, Option, none, some, [], ◌∷◌, Option-cases,
}
use synapse_platform.Ingestor.Errors.{GoError}
use synapse_platform.Sqllite.Errors.{classify_store_error-some}
use synapse_platform.Sqllite.Store.{
  Event, Database, Driver, insert_rows, count_inserted, to_row, account_data, store_data,
}
use synapse_platform.Sqllite.Store.Accounting.{after_rows, marshal_failed-some}

module _ {P : Type 0} (d : Driver P) where
  -- The event is not stored, or it is stored but not counted, or both.
  pub data Left (e : Event P) (db : Database) : Option GoError × Database → Type 0 where
    untouched : (x : GoError) → Left e db (some x, db)
    uncounted :
        (x : GoError) (text : String)
        → d.marshal e.payload ≡ some text
        → Left e db (some x, record db { events = insert_rows (to_row d e text ∷ []) db.events })
    counted :
        (text : String)
        → d.marshal e.payload ≡ some text
        → Left e db (none, after_rows (to_row d e text ∷ []) db)

  abbrev inserted : Event P → String → Database → Database
  inserted e text db = record db { events = insert_rows (to_row d e text ∷ []) db.events }

  account_Left :
      (e : Event P) (db : Database) (text : String)
      → d.marshal e.payload ≡ some text
      → Left e db
          (account_data d (count_inserted (to_row d e text ∷ []) db.events) (inserted e text db))
  unfolding account_data
  account_Left e db text m = elim (Option-cases (d.rows_affected_error (inserted e text db))) [
    | inr (y, f) ↦
        let (x, h) = classify_store_error-some "read rows affected" y in
        subst (Left e db) (rw (account_data, f, h) refl) (uncounted x text m)
    | inl f ↦ elim (Option-cases (d.accounting_error (inserted e text db))) [
      | inr (y, g) ↦
          let (x, h) = classify_store_error-some "record store accounting" y in
          subst (Left e db) (rw (account_data, f, g, h) refl) (uncounted x text m)
      | inl g ↦ subst (Left e db) (rw (account_data, f, g) refl) (counted text m)
    ]
  ]

  -- StoreData either changes nothing and fails, or stores the event and counts it, or stores the
  -- event without counting it and fails; it succeeds only in the second case.
  pub store_data-Left : (e : Event P) (db : Database) → Left e db (store_data d e db)
  unfolding store_data account_data insert_rows count_inserted
  store_data-Left e db = elim (Option-cases (d.marshal e.payload)) [
    | inl m ↦
        let (x, h) = marshal_failed-some in
        subst (Left e db) (rw (store_data, m, h) refl) (untouched x)
    | inr (text, m) ↦ elim (Option-cases (d.exec_error db)) [
      | inr (y, f) ↦
          let (x, h) = classify_store_error-some "create event" y in
          subst (Left e db) (rw (store_data, m, f, h) refl) (untouched x)
      | inl f ↦
          let db' : Database = record db {
            events = insert_rows (to_row d e text ∷ []) db.events;
          } in
          let rest : store_data d e db
              ≡ account_data d (count_inserted (to_row d e text ∷ []) db.events) db' =
            rw (store_data, m, f) refl in
          subst (Left e db) (sym rest) (account_Left e db text m)
    ]
  ]
