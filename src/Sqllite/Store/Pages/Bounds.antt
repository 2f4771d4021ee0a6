-- ===== src/Sqllite/Store/Pages/Bounds.antt =====
-- How long a page is, and which events follow a cursor.
use synapse_platform.Prelude.{
  ℕ, zero, suc, ◌+◌, ◌≤◌, ◌<◌, ◌≡◌, refl, sym, ap, subst, ◌∙◌, true, false, String, some, List, [],
  ◌∷◌, str_eq, ltb, ℤ, pos, negsuc, length, take, length-take, Bool-cases, Option-cases, ◌⊎◌, inl,
  inr, arith, All,
}
use Prim.Native.Nat.{min}
use synapse_platform.Ingestor.Domains.{parse_data_type}
use synapse_platform.Sqllite.Store.{Event, Row, Database}
use synapse_platform.Sqllite.Store.Pages.{
  Cursor, Reader, PageRequest, PageResponse, Read, read, read_error, clamp, max_page_size,
  default_page_size, text_less, comes_before, insert_ordered, order_rows, is_after, select_after,
  list_events_after_cursor, to_base_event_value, to_base_event, list_events_first_page, scan_rows,
  to_base_events, fetch_rows, make_page, list_events,
}

clamp_bounds :
    (v : ℤ)
    → (1 ≤ clamp v 1 max_page_size default_page_size)
      × (clamp v 1 max_page_size default_page_size ≤ 100)
unfolding clamp
clamp_bounds (negsuc n) = ground arith
clamp_bounds (pos n) = ground arith

All-take : (P : Row → Type 0) (n : ℕ) (rows : List Row) → All P rows → All P (take n rows)
All-take P zero rows a = tt
All-take P (suc n) [] a = tt
All-take P (suc n) (r ∷ rows) (x, a) = (x, All-take P n rows a)

All-insert_ordered :
    (P : Row → Type 0) (r : Row) (rows : List Row)
    → P r
    → All P rows
    → All P (insert_ordered r rows)
unfolding insert_ordered
All-insert_ordered P r [] x a = (x, tt)
All-insert_ordered P r (y ∷ rows) x (b, a) = elim (Bool-cases (comes_before r y)) [
  | inl e ↦ rw (insert_ordered, e) (x, (b, a))
  | inr e ↦ rw (insert_ordered, e) (b, All-insert_ordered P r rows x a)
]

All-order_rows : (P : Row → Type 0) (rows : List Row) → All P rows → All P (order_rows rows)
unfolding order_rows
All-order_rows P [] a = tt
All-order_rows P (r ∷ rows) (x, a) =
    All-insert_ordered P r (order_rows rows) x (All-order_rows P rows a)

All-select_after :
    (t : ℕ) (id : String) (rows : List Row)
    → All (λ r. is_after t id r ≡ true) (select_after t id rows)
unfolding select_after
All-select_after t id [] = tt
All-select_after t id (r ∷ rows) = elim (Bool-cases (is_after t id r)) [
  | inl e ↦ rw (select_after, e) (e, All-select_after t id rows)
  | inr e ↦ rw (select_after, e) (All-select_after t id rows)
]

length-insert_ordered :
    (r : Row) (rows : List Row) → length (insert_ordered r rows) ≡ suc (length rows)
unfolding insert_ordered
length-insert_ordered r [] = refl
length-insert_ordered r (x ∷ rows) = ground (arith, length-insert_ordered r rows)

length-order_rows : (rows : List Row) → length (order_rows rows) ≡ length rows
unfolding order_rows
length-order_rows [] = refl
length-order_rows (r ∷ rows) =
    length-insert_ordered r (order_rows rows) ∙ ap (λ n. suc n) (length-order_rows rows)

select_older :
    (t : ℕ) (id : String) (rows : List Row)
    → All (λ r. text_less r.event_id id ≡ false) rows
    → All (λ r. r.ingested_at < t) (select_after t id rows)
unfolding select_after
select_older t id [] a = tt
select_older t id (r ∷ rows) (x, a) = elim (Bool-cases (is_after t id r)) [
  | inl e ↦ rw (select_after, e) (ground arith, select_older t id rows a)
  | inr e ↦ rw (select_after, e) (select_older t id rows a)
]

Read-cases :
    {A : Type 0} (r : Read A) → ((e : String) × (r ≡ read_error e)) ⊎ ((a : A) × (r ≡ read a))
Read-cases (read a) = inr (a, refl)
Read-cases (read_error e) = inl (e, refl)

take_all : {A : Type 0} (n : ℕ) (xs : List A) → length xs ≤ n → take n xs ≡ xs
take_all zero [] h = refl
take_all zero (x ∷ xs) h = absurd (omega arith)
take_all (suc n) [] h = refl
take_all (suc n) (x ∷ xs) h = ap (λ l. x ∷ l) (take_all n xs (omega arith))

module _ {P : Type 0} (d : Reader P) where
  read_time : (r : Row) {x : Event P} → to_base_event d r ≡ read x → x.ingested_at ≡ r.ingested_at
  unfolding to_base_event
  read_time r h =
      elim (Option-cases (to_base_event_value d r.data_json (parse_data_type r.event_type))) [
        | inl e ↦ absurd (ground arith)
        | inr (p, e) ↦ elim (Option-cases (d.parse_uuid r.event_id)) [
          | inl f ↦ absurd (ground arith)
          | inr (id, f) ↦ ground arith
        ]
      ]

  read_cons :
      (r : Row) (rows : List Row) {es : List (Event P)}
      → to_base_events d (r ∷ rows) ≡ read es
      → (x : Event P) × (xs : List (Event P)) × (x.ingested_at ≡ r.ingested_at)
        × (to_base_events d rows ≡ read xs)
        × (es ≡ x ∷ xs)
  unfolding to_base_events
  read_cons r rows {es} h = elim (Read-cases (to_base_event d r)) [
    | inl (e, f) ↦ absurd (ground arith)
    | inr (x, f) ↦ elim (Read-cases (to_base_events d rows)) [
      | inl (e, g) ↦ absurd (ground arith)
      | inr (xs, g) ↦ let whole : es ≡ x ∷ xs = ground arith in (x, xs, read_time r f, g, whole)
    ]
  ]

  length-read :
      (rows : List Row) {es : List (Event P)}
      → to_base_events d rows ≡ read es
      → length es ≡ length rows
  unfolding to_base_events
  length-read [] {es} h = let empty : [] ≡ es = cc in subst (λ l. length l ≡ 0) empty refl
  length-read (r ∷ rows) h =
      let (x, xs, _, later, whole) = read_cons r rows h in
      ap (λ l. length l) whole ∙ ap (λ n. suc n) (length-read rows later)

  read_older :
      (t : ℕ) (rows : List Row) {es : List (Event P)}
      → to_base_events d rows ≡ read es
      → All (λ r. r.ingested_at < t) rows
      → All (λ e. e.ingested_at < t) es
  unfolding to_base_events
  read_older t [] {es} h a =
      let empty : [] ≡ es = cc in subst (All (λ e. e.ingested_at < t)) empty tt
  read_older t (r ∷ rows) h (b, a) =
      let (x, xs, same, later, whole) = read_cons r rows h in
      let older : x.ingested_at < t = omega (arith, same, b) in
      subst (All (λ e. e.ingested_at < t)) (sym whole) (older, read_older t rows later a)

  -- What a page is made from.
  page_of :
      (limit : ℕ) (rows : List Row) {resp : PageResponse (Event P)}
      → make_page d limit rows ≡ read resp
      → (to_base_events d (take limit rows) ≡ read resp.items)
        × (resp.has_more ≡ ltb limit (length rows))
  unfolding make_page
  page_of limit rows {resp} h = elim (Bool-cases (ltb limit (length rows))) [
    | inl e ↦ elim (Read-cases (to_base_events d (take limit rows))) [
      | inl (x, f) ↦ absurd (ground arith)
      | inr (xs, f) ↦
          let same : xs ≡ resp.items = ground arith in (f ∙ ap (λ l. read l) same, ground arith)
    ]
    | inr e ↦ elim (Read-cases (to_base_events d rows)) [
      | inl (x, f) ↦ absurd (ground arith)
      | inr (xs, f) ↦
          let same : xs ≡ resp.items = ground arith in
          let short : length rows ≤ limit = ground arith in
          (rw (take_all limit rows short) (f ∙ ap (λ l. read l) same), ground arith)
    ]
  ]

  abbrev limit_of : PageRequest → ℕ
  limit_of page = clamp page.limit 1 max_page_size default_page_size

  -- The first page has as many events as the store has, up to the limit, which is the one asked for
  -- within 1 to 100, or 20 if that is not positive; it says that there are more exactly if there are.
  pub first_page-length :
      (page : PageRequest) (db : Database) (resp : PageResponse (Event P))
      → str_eq page.cursor "" ≡ true
      → list_events d page db ≡ read resp
      → (length resp.items ≡ min (limit_of page) (length db.events))
        × (resp.has_more ≡ ltb (limit_of page) (length db.events))
        × (length resp.items ≤ 100)
  unfolding list_events fetch_rows scan_rows list_events_first_page
  first_page-length page db resp first h =
      let limit = limit_of page in
      let rows = take (limit + 1) (order_rows db.events) in
      let made : make_page d limit rows ≡ read resp = ground arith in
      let (got, more) = page_of limit rows made in
      let rows_count : length rows ≡ min (limit + 1) (length db.events) =
        length-take (limit + 1) (order_rows db.events)
        ∙ ap (λ n. min (limit + 1) n) (length-order_rows db.events) in
      let count : length resp.items ≡ min limit (length rows) =
        length-read (take limit rows) got ∙ length-take limit rows in
      let (_, upper) = clamp_bounds page.limit in
      let items_count : length resp.items ≡ min limit (length db.events) =
        omega (arith, rows_count, count) in
      let whole : ltb limit (length rows) ≡ ltb limit (length db.events) =
        ground (arith, rows_count) in
      (items_count, more ∙ whole, omega (arith, items_count, upper))

  -- If no stored event's id comes before the text of the zero time, a page after a cursor has only
  -- events that were ingested strictly before the cursor's event: those of the same instant are
  -- left out, also if the page before did not show them.
  pub after_cursor-older :
      (page : PageRequest) (db : Database) (resp : PageResponse (Event P)) (c : Cursor)
      → str_eq page.cursor "" ≡ false
      → d.decode_cursor page.cursor ≡ some c
      → All (λ r. text_less r.event_id d.zero_time ≡ false) db.events
      → list_events d page db ≡ read resp
      → All (λ e. e.ingested_at < c.ingested_at) resp.items
  unfolding list_events fetch_rows scan_rows list_events_after_cursor
  after_cursor-older page db resp c later decoded ids h =
      let limit = limit_of page in
      let selected = order_rows (select_after c.ingested_at d.zero_time db.events) in
      let rows = take (limit + 1) selected in
      let made : make_page d limit rows ≡ read resp = ground arith in
      let (got, _) = page_of limit rows made in
      let Older : Row → Type 0 = λ r. r.ingested_at < c.ingested_at in
      let all_older : All Older selected =
        All-order_rows Older (select_after c.ingested_at d.zero_time db.events)
          (select_older c.ingested_at d.zero_time db.events ids) in
      read_older c.ingested_at (take limit rows) got
        (All-take Older limit rows (All-take Older (limit + 1) selected all_older))
