-- ===== src/Sqllite/Store/Accounting.antt =====
-- What StoreBatch and StoreData leave in the tables.
pub mod Again
pub mod Single
use synapse_platform.Prelude.{
  ℕ, zero, suc, ◌+◌, ◌-◌, ◌≤◌, ◌≡◌, refl, sym, ap, subst, ◌∙◌, Bool, true, false, ◌||◌, String,
  Option, none, some, List, [], ◌∷◌, if◌then◌else◌, str_eq, str_eq_iff, length, take, drop,
  length-append, take-append-drop, length-drop, Bool-cases, Option-cases, ◌⊎◌, inl, inr, arith,
  ◌++◌,
}
use synapse_platform.Ingestor.Errors.{GoError, new_terminal_error}
use synapse_platform.Sqllite.Errors.{DriverError, classify_store_error, classify_store_error-some}
use synapse_platform.Sqllite.Store.{
  Event, Row, Database, Driver, has_id, insert_or_ignore, insert_rows, count_inserted,
  record_store_accounting, to_row, to_rows, marshal_failed, Stored, account_data, store_data,
  commit, account_chunk, execute_chunk, insert_chunk, max_events_per_chunk, store_chunks, then_rest,
  store_batch,
}

abbrev pub Unique : List Row → Type 0
Unique [] = Unit
Unique (r ∷ rows) = (has_id r.event_id rows ≡ false) × Unique rows

-- Event ids are unique, every row was counted once, and every attempt is one or the other.
pub record IsAccounted (db : Database) : Type 0 where
  pub unique : Unique db.events
  pub inserted : db.inserted_events ≡ length db.events
  pub total : db.attempted_events ≡ db.inserted_events + db.duplicate_events

insert_or_ignore-Unique :
    (r : Row) (rows : List Row) → Unique rows → Unique (insert_or_ignore r rows)
unfolding insert_or_ignore
insert_or_ignore-Unique r rows u = elim (Bool-cases (has_id r.event_id rows)) [
  | inl e ↦ rw (insert_or_ignore, e) u
  | inr e ↦ rw (insert_or_ignore, e) (e, u)
]

insert_rows-Unique : (rs rows : List Row) → Unique rows → Unique (insert_rows rs rows)
unfolding insert_rows
insert_rows-Unique [] rows u = u
insert_rows-Unique (r ∷ rs) rows u =
    insert_rows-Unique rs (insert_or_ignore r rows) (insert_or_ignore-Unique r rows u)

length-insert_or_ignore :
    (r : Row) (rows : List Row)
    → length (insert_or_ignore r rows)
      ≡ (if has_id r.event_id rows then length rows else 1 + length rows)
unfolding insert_or_ignore
length-insert_or_ignore r rows = ground arith

length-insert_rows :
    (rs rows : List Row) → length (insert_rows rs rows) ≡ count_inserted rs rows + length rows
unfolding insert_rows count_inserted
length-insert_rows [] rows = omega arith
length-insert_rows (r ∷ rs) rows =
    ground (arith, length-insert_rows rs (insert_or_ignore r rows), length-insert_or_ignore r rows)

count_inserted-le : (rs rows : List Row) → count_inserted rs rows ≤ length rs
unfolding count_inserted
count_inserted-le [] rows = omega arith
count_inserted-le (r ∷ rs) rows = ground (arith, count_inserted-le rs (insert_or_ignore r rows))

-- The tables after the insert and the accounting of these rows.
abbrev pub after_rows : List Row → Database → Database
after_rows rs db =
    record_store_accounting (length rs) (count_inserted rs db.events)
      (record db { events = insert_rows rs db.events })

after_rows-IsAccounted :
    (rs : List Row) (db : Database) → IsAccounted db → IsAccounted (after_rows rs db)
unfolding record_store_accounting
after_rows-IsAccounted rs db a = record {
  unique = insert_rows-Unique rs db.events a.unique;
  inserted = omega (arith, length-insert_rows rs db.events, a.inserted);
  total = omega (arith, count_inserted-le rs db.events, a.total);
}

marshal_failed-some : (x : GoError) × (marshal_failed ≡ some x)
unfolding new_terminal_error
marshal_failed-some = (_, refl)

module _ {P : Type 0} (d : Driver P) where
  -- A chunk is stored whole or not at all.
  abbrev pub StoredWhole : List (Event P) → Database → Type 0
  StoredWhole es db =
      ((e : GoError) × (insert_chunk d es db ≡ (some e, db)))
      ⊎ ((rs : List Row) × (to_rows d es ≡ some rs)
          × (insert_chunk d es db ≡ (none, after_rows rs db)))

  abbrev FailsWith : Database → Stored → Type 0
  FailsWith before s = (e : GoError) × (s ≡ (some e, before))

  commit_cases :
      (before db : Database)
      → FailsWith before (commit d before db) ⊎ (commit d before db ≡ (none, db))
  unfolding commit
  commit_cases before db = elim (Option-cases (d.commit_error db)) [
    | inl e ↦ inr (rw (commit, e) refl)
    | inr (x, e) ↦
        let (y, h) = classify_store_error-some "commit transaction" x in
        inl (y, rw (commit, e, h) refl)
  ]

  account_cases :
      (attempted inserted : ℕ) (before db : Database)
      → FailsWith before (account_chunk d attempted inserted before db)
        ⊎ (account_chunk d attempted inserted before db
            ≡ (none, record_store_accounting attempted inserted db))
  unfolding account_chunk
  account_cases attempted inserted before db = elim (Option-cases (d.rows_affected_error db)) [
    | inr (x, e) ↦
        let (y, h) = classify_store_error-some "read rows affected" x in
        inl (y, rw (account_chunk, e, h) refl)
    | inl e ↦ elim (Option-cases (d.accounting_error db)) [
      | inr (x, f) ↦
          let (y, h) = classify_store_error-some "record store accounting" x in
          inl (y, rw (account_chunk, e, f, h) refl)
      | inl f ↦
          let same : account_chunk d attempted inserted before db
              ≡ commit d before (record_store_accounting attempted inserted db) =
            rw (account_chunk, e, f) refl in
          rw same (commit_cases before (record_store_accounting attempted inserted db))
    ]
  ]

  execute_cases :
      (rows : List Row) (db : Database)
      → FailsWith db (execute_chunk d rows db)
        ⊎ (execute_chunk d rows db ≡ (none, after_rows rows db))
  unfolding execute_chunk
  execute_cases rows db = elim (Option-cases (d.exec_error db)) [
    | inr (x, e) ↦
        let (y, h) = classify_store_error-some "execute batch insert" x in
        inl (y, rw (execute_chunk, e, h) refl)
    | inl e ↦
        let counted = count_inserted rows db.events in
        let inserted : Database = record db { events = insert_rows rows db.events } in
        let same : execute_chunk d rows db ≡ account_chunk d (length rows) counted db inserted =
          rw (execute_chunk, e) refl in
        rw same (account_cases (length rows) counted db inserted)
  ]

  insert_chunk-StoredWhole : (es : List (Event P)) (db : Database) → StoredWhole es db
  unfolding insert_chunk
  insert_chunk-StoredWhole es db = elim (Option-cases (d.begin_error db)) [
    | inr (x, e) ↦
        let (y, h) = classify_store_error-some "begin transaction" x in
        inl (y, rw (insert_chunk, e, h) refl)
    | inl e ↦ elim (Option-cases (to_rows d es)) [
      | inl f ↦ let (x, h) = marshal_failed-some in inl (x, rw (insert_chunk, e, f, h) refl)
      | inr (rows, f) ↦
          let same : insert_chunk d es db ≡ execute_chunk d rows db =
            rw (insert_chunk, e, f) refl in
          elim (execute_cases rows db) [
            | inl (x, g) ↦ inl (x, same ∙ g)
            | inr g ↦ inr (rows, f, same ∙ g)
          ]
    ]
  ]

  chunks-IsAccounted :
      (fuel : ℕ) (es : List (Event P)) (db : Database)
      → IsAccounted db
      → IsAccounted (store_chunks d fuel es db).1
  unfolding store_chunks
  chunks-IsAccounted fuel [] db a = a
  chunks-IsAccounted zero (e ∷ es) db a = a
  chunks-IsAccounted (suc fuel) (e ∷ es) db a =
      let later = drop max_events_per_chunk (e ∷ es) in
      let Kept : Stored → Type 0 =
        λ s. IsAccounted (then_rest s (store_chunks d fuel later s.1)).1 in
      elim (insert_chunk-StoredWhole (take max_events_per_chunk (e ∷ es)) db) [
        | inl (x, h) ↦ subst Kept (sym h) a
        | inr (rs, f, h) ↦
            subst Kept (sym h)
              (chunks-IsAccounted fuel later (after_rows rs db) (after_rows-IsAccounted rs db a))
      ]

  -- StoreBatch keeps event ids unique and the accounting exact, whether it succeeds or fails at any
  -- of its steps.
  pub store_batch-IsAccounted :
      (es : List (Event P)) (db : Database) → IsAccounted db → IsAccounted (store_batch d es db).1
  unfolding store_batch
  store_batch-IsAccounted es db a = chunks-IsAccounted (length es) es db a
