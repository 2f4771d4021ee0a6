-- ===== src/Sqllite/Store/Accounting/Again.antt =====
-- Which events StoreBatch stores, and what storing them again does.
use synapse_platform.Prelude.{
  ℕ, zero, suc, ◌+◌, ◌≤◌, ◌≡◌, refl, sym, ap, subst, ◌∙◌, Bool, true, false, ◌||◌, String, none,
  some, List, [], ◌∷◌, str_eq, str_eq_iff, str_eq_self, length, take, drop, length-append,
  take-append-drop, length-drop, Bool-cases, Option-cases, inl, inr, arith, ◌++◌,
}
use synapse_platform.Sqllite.Store.{
  Event, Row, Database, Driver, has_id, insert_or_ignore, insert_rows, record_store_accounting,
  to_row, to_rows, Stored, max_events_per_chunk, store_chunks, then_rest, store_batch,
}
use synapse_platform.Sqllite.Store.Accounting.{after_rows, insert_chunk-StoredWhole}

abbrev pub in_batch : {P : Type 0} → String → List (Event P) → Bool
in_batch id [] = false
in_batch id (e ∷ es) = str_eq id e.event_id || in_batch id es

in_batch-append :
    {P : Type 0} (id : String) (xs ys : List (Event P))
    → in_batch id (xs ++ ys) ≡ (in_batch id xs || in_batch id ys)
in_batch-append id [] ys = refl
in_batch-append id (x ∷ xs) ys = ground (arith, in_batch-append id xs ys)

split_batch :
    {P : Type 0} (n : ℕ) (id : String) (es : List (Event P))
    → in_batch id es ≡ (in_batch id (take n es) || in_batch id (drop n es))
split_batch n id es =
    subst (λ l. in_batch id l ≡ (in_batch id (take n es) || in_batch id (drop n es)))
      (take-append-drop n es) (in_batch-append id (take n es) (drop n es))

has_id-insert_or_ignore :
    (id : String) (r : Row) (rows : List Row)
    → has_id id (insert_or_ignore r rows) ≡ (str_eq id r.event_id || has_id id rows)
unfolding insert_or_ignore has_id
has_id-insert_or_ignore id r rows = elim (Bool-cases (str_eq id r.event_id)) [
  | inr e ↦ ground arith
  | inl e ↦
      let same : has_id id rows ≡ has_id r.event_id rows =
        ap (λ i. has_id i rows) ((str_eq_iff id r.event_id).0 e) in
      ground (arith, same)
]

in_rows : String → List Row → Bool
in_rows id [] = false
in_rows id (r ∷ rs) = str_eq id r.event_id || in_rows id rs

has_id-insert_rows :
    (id : String) (rs rows : List Row)
    → has_id id (insert_rows rs rows) ≡ (in_rows id rs || has_id id rows)
unfolding insert_rows in_rows
has_id-insert_rows id [] rows = refl
has_id-insert_rows id (r ∷ rs) rows =
    ground
      (arith, has_id-insert_rows id rs (insert_or_ignore r rows), has_id-insert_or_ignore id r rows)

module _ {P : Type 0} (d : Driver P) where
  to_rows-ids :
      (es : List (Event P)) {rs : List Row} (id : String)
      → to_rows d es ≡ some rs
      → (in_rows id rs ≡ in_batch id es) × (length rs ≡ length es)
  unfolding to_rows in_rows
  to_rows-ids [] {rs} id h =
      let empty : [] ≡ rs = cc in
      subst (λ u. (in_rows id u ≡ false) × (length u ≡ 0)) empty (refl, refl)
  to_rows-ids (e ∷ es) {rs} id h = elim (Option-cases (d.marshal e.payload)) [
    | inl f ↦ absurd (ground arith)
    | inr (text, f) ↦ elim (Option-cases (to_rows d es)) [
      | inl g ↦ absurd (ground arith)
      | inr (us, g) ↦
          let (ids, count) = to_rows-ids es id g in
          let whole : to_row d e text ∷ us ≡ rs = ground arith in
          subst (λ u. (in_rows id u ≡ in_batch id (e ∷ es)) × (length u ≡ suc (length es))) whole
            (ap (λ b. str_eq id e.event_id || b) ids, ap (λ n. suc n) count)
    ]
  ]

  abbrev Stores : List (Event P) → Database → Database → Type 0
  Stores es db db' =
      ((id : String) → has_id id db'.events ≡ (in_batch id es || has_id id db.events))
      × (db'.attempted_events ≡ db.attempted_events + length es)

  after_rows-Stores :
      (es : List (Event P)) (rs : List Row) (db : Database)
      → to_rows d es ≡ some rs
      → Stores es db (after_rows rs db)
  unfolding record_store_accounting
  after_rows-Stores es rs db h = (
    λ id.
        has_id-insert_rows id rs db.events
        ∙ ap (λ b. b || has_id id db.events) (to_rows-ids es id h).0,
    ap (λ n. db.attempted_events + n) (to_rows-ids es "" h).1,
  )

  Stores-append :
      (xs ys : List (Event P)) (a b c : Database)
      → Stores xs a b
      → Stores ys b c
      → Stores (xs ++ ys) a c
  Stores-append xs ys a b c (f, m) (g, n) = (
    λ id. ground (arith, f id, g id, in_batch-append id xs ys),
    omega (arith, m, n, length-append xs ys),
  )

  chunks-Stores :
      (fuel : ℕ) (es : List (Event P)) (db : Database)
      → length es ≤ fuel
      → (store_chunks d fuel es db).0 ≡ none
      → Stores es db (store_chunks d fuel es db).1
  unfolding store_chunks
  chunks-Stores fuel [] db f h = (λ id. refl, omega arith)
  chunks-Stores zero (e ∷ es) db f h = absurd (omega arith)
  chunks-Stores (suc fuel) (e ∷ es) db f h =
      let chunk = take max_events_per_chunk (e ∷ es) in
      let later = drop max_events_per_chunk (e ∷ es) in
      let Good : Stored → Type 0 = λ s.
        (then_rest s (store_chunks d fuel later s.1)).0 ≡ none
        → Stores (e ∷ es) db (then_rest s (store_chunks d fuel later s.1)).1 in
      let enough : length later ≤ fuel =
        omega (arith, length-drop max_events_per_chunk (e ∷ es), f) in
      elim (insert_chunk-StoredWhole d chunk db) [
        | inl (x, failure) ↦ subst Good (sym failure) (λ k. cc) h
        | inr (rs, rows, success) ↦
            let db' = after_rows rs db in
            subst Good (sym success)
              (λ k.
                subst (λ l. Stores l db (store_chunks d fuel later db').1)
                  (take-append-drop max_events_per_chunk (e ∷ es))
                  (Stores-append chunk later db db' (store_chunks d fuel later db').1
                    (after_rows-Stores chunk rs db rows) (chunks-Stores fuel later db' enough k)))
              h
      ]

  -- When StoreBatch succeeds, exactly the events of the batch have been added to those stored
  -- before, and as many attempts have been counted as the batch has events.
  pub store_batch-Stores :
      (es : List (Event P)) (db : Database)
      → (store_batch d es db).0 ≡ none
      → ((id : String)
          → has_id id (store_batch d es db).1.events ≡ (in_batch id es || has_id id db.events))
        × ((store_batch d es db).1.attempted_events ≡ db.attempted_events + length es)
  unfolding store_batch
  store_batch-Stores es db h = chunks-Stores (length es) es db (omega arith) h

or_left : {a : Bool} (b : Bool) → a ≡ true → (a || b) ≡ true
or_left b h = rw h refl

or_right : (a : Bool) {b : Bool} → b ≡ true → (a || b) ≡ true
or_right true h = refl
or_right false h = h

insert_rows_known :
    (rs rows : List Row)
    → ((id : String) → in_rows id rs ≡ true → has_id id rows ≡ true)
    → insert_rows rs rows ≡ rows
unfolding insert_rows insert_or_ignore in_rows
insert_rows_known [] rows known = refl
insert_rows_known (r ∷ rs) rows known =
    let here : has_id r.event_id rows ≡ true =
      known r.event_id (ground (arith, str_eq_self r.event_id)) in
    let ignored : insert_or_ignore r rows ≡ rows = rw (insert_or_ignore, here) refl in
    rw ignored (insert_rows_known rs rows (λ id h. known id (ground arith)))

module _ {P : Type 0} (d : Driver P) where
  chunks_known :
      (fuel : ℕ) (es : List (Event P)) (db : Database)
      → ((id : String) → in_batch id es ≡ true → has_id id db.events ≡ true)
      → (store_chunks d fuel es db).1.events ≡ db.events
  unfolding store_chunks record_store_accounting
  chunks_known fuel [] db known = refl
  chunks_known zero (e ∷ es) db known = refl
  chunks_known (suc fuel) (e ∷ es) db known =
      let chunk = take max_events_per_chunk (e ∷ es) in
      let later = drop max_events_per_chunk (e ∷ es) in
      let Same : Stored → Type 0 =
        λ s. (then_rest s (store_chunks d fuel later s.1)).1.events ≡ db.events in
      elim (insert_chunk-StoredWhole d chunk db) [
        | inl (x, failure) ↦ subst Same (sym failure) refl
        | inr (rs, rows, success) ↦
            let db' = after_rows rs db in
            let same : db'.events ≡ db.events = insert_rows_known rs db.events (λ id here.
              known id (
                split_batch max_events_per_chunk id (e ∷ es)
                ∙ or_left (in_batch id later) (sym (to_rows-ids d chunk id rows).0 ∙ here))) in
            let known_later : (id : String)
                → in_batch id later ≡ true
                → has_id id db'.events ≡ true =
              λ id there. rw same (
                known id (
                  split_batch max_events_per_chunk id (e ∷ es)
                  ∙ or_right (in_batch id chunk) there)) in
            subst Same (sym success) (chunks_known fuel later db' known_later ∙ same)
      ]

-- Once StoreBatch has stored a batch, storing any part of it again, in any order and whatever the
-- driver does then, leaves the stored events as they are.
pub store_batch-again :
    {P : Type 0} (d d' : Driver P) (es again : List (Event P)) (db : Database)
    → (store_batch d es db).0 ≡ none
    → ((id : String) → in_batch id again ≡ true → in_batch id es ≡ true)
    → (store_batch d' again (store_batch d es db).1).1.events ≡ (store_batch d es db).1.events
unfolding store_batch
store_batch-again d d' es again db h part =
    let (stored, _) = store_batch-Stores d es db h in
    chunks_known d' (length again) again (store_batch d es db).1
      (λ id there. stored id ∙ rw (part id there) refl)
