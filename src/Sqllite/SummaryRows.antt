-- ===== src/Sqllite/SummaryRows.antt =====
-- internal/sqllite/summary.sql and storer.go: the tables of the summaries, and what the statements on them
-- select and make of a row. A table lists its rows, newest first.
use synapse_platform.Prelude.{
  ℕ, ◌+◌, Bool, true, false, ◌&&◌, ◌||◌, String, Option, none, some, List, [], ◌∷◌, if◌then◌else◌,
  str_eq, ltb, leb, ◌==◌, ℤ, pos, negsuc,
}
use synapse_platform.Prelude.Sorting.{sort_stable}
use synapse_platform.Sqllite.Store.{Row}
use synapse_platform.Api.Types.{
  Report, DomainStat, SummaryLookup, default_max_evidence_events, SummaryEvidenceLink,
}
use synapse_platform.Intelligence.Summary.{SummaryEvidenceEvent}

-- A row of `summaries`; NULL is `none`.
pub record SummaryRow : Type 0 where
  pub id : ℕ
  pub domain : String
  pub window_from : ℕ
  pub model : String
  pub content : String
  pub structured_content : Option String
  pub provider : Option String
  pub prompt_version : Option String
  pub input_hash : Option String
  pub created_at : ℕ

-- The tables `events`, `summaries` and `intelligence_summary_events`, and the last id that was given.
pub record Tables : Type 0 where
  pub events : List Row
  pub summaries : List SummaryRow
  pub links : List SummaryEvidenceLink
  pub last_id : ℕ

abbrev pub smaller : ℕ → ℕ → ℕ
smaller a b = if ltb a b then a else b

abbrev pub larger : ℕ → ℕ → ℕ
larger a b = if ltb a b then b else a

-- `GROUP BY domain, event_type` with COUNT, MIN and MAX: the groups once a row is added.
unfoldable pub add_to_group : Row → List DomainStat → List DomainStat
add_to_group r [] =
    record {
      domain = r.domain;
      event_type = r.event_type;
      count = 1;
      first_seen = r.occurred_at;
      last_seen = r.occurred_at;
    }
    ∷ []
add_to_group r (g ∷ gs) =
    let rest = add_to_group r gs in
    if str_eq g.domain r.domain && str_eq g.event_type r.event_type
    then record g {
      count = g.count + 1;
      first_seen = smaller g.first_seen r.occurred_at;
      last_seen = larger g.last_seen r.occurred_at;
    }
      ∷ gs
    else g ∷ rest

unfoldable pub group_rows : ℕ → List Row → List DomainStat
unfolding add_to_group
group_rows since [] = []
group_rows since (r ∷ rows) =
    let rest = group_rows since rows in
    if leb since r.occurred_at then add_to_group r rest else rest

-- `ORDER BY cnt DESC`; the statement leaves the order of equal counts open.
abbrev pub by_count : DomainStat → DomainStat → Bool
by_count a b = ltb b.count a.count

unfoldable pub summarize_by_domain : ℕ → List Row → List DomainStat
unfolding group_rows sort_stable
summarize_by_domain since rows = sort_stable by_count (group_rows since rows)

unfoldable pub select_evidence : String → ℕ → ℕ → List Row → List Row
select_evidence domain since until [] = []
select_evidence domain since until (r ∷ rows) =
    let rest = select_evidence domain since until rows in
    if (str_eq domain "" || str_eq r.domain domain)
      && leb since r.occurred_at
      && leb r.occurred_at until
    then r ∷ rest
    else rest

-- `ORDER BY occurred_at DESC`
abbrev pub by_time : Row → Row → Bool
by_time a b = ltb b.occurred_at a.occurred_at

unfoldable pub evidence_of : List Row → List SummaryEvidenceEvent
evidence_of [] = []
evidence_of (r ∷ rows) =
    record {
      event_id = r.event_id;
      domain = r.domain;
      event_type = r.event_type;
      entity_id = r.entity_id;
      occurred_at = r.occurred_at;
    }
    ∷ evidence_of rows

abbrev pub evidence_limit : ℤ → ℕ
evidence_limit (negsuc n) = default_max_evidence_events
evidence_limit (pos n) = if n == 0 then default_max_evidence_events else n

abbrev pub until_or : ℕ → Option ℕ → ℕ
until_or now none = now
until_or now (some t) = t

unfoldable pub nullable_string : String → Option String
nullable_string s = if str_eq s "" then none else some s

-- The text of a column, the empty one for NULL.
abbrev pub column_text : Option String → String
column_text none = ""
column_text (some s) = s

-- `column IS ? OR column = ?`, for a nullable text and the text.
abbrev pub is_or_equals : Option String → Option String → String → Bool
is_or_equals none none s = true
is_or_equals none (some t) s = false
is_or_equals (some c) none s = str_eq c s
is_or_equals (some c) (some t) s = str_eq c t || str_eq c s

-- `ORDER BY created_at DESC LIMIT 1`
abbrev pub later_row : SummaryRow → Option SummaryRow → SummaryRow
later_row r none = r
later_row r (some q) = if ltb r.created_at q.created_at then q else r

module _ {F : Type 0} where
  -- The condition of the query of LatestSummary.
  unfoldable pub is_looked_up : SummaryLookup F → SummaryRow → Bool
  unfolding nullable_string
  is_looked_up l r =
      str_eq r.domain l.domain
      && (r.window_from == l.window_from)
      && is_or_equals r.provider (nullable_string l.provider) l.provider
      && str_eq r.model l.model
      && is_or_equals r.prompt_version (nullable_string l.prompt_version) l.prompt_version
      && is_or_equals r.input_hash (nullable_string l.input_hash) l.input_hash

  unfoldable pub latest_row : SummaryLookup F → List SummaryRow → Option SummaryRow
  unfolding is_looked_up
  latest_row l [] = none
  latest_row l (r ∷ rows) =
      let rest = latest_row l rows in if is_looked_up l r then some (later_row r rest) else rest

unfoldable pub to_report : SummaryRow → Report
to_report r = record {
  domain = r.domain;
  window_from = r.window_from;
  model = r.model;
  content = r.content;
  structured_content = column_text r.structured_content;
  provider = column_text r.provider;
  prompt_version = column_text r.prompt_version;
  input_hash = column_text r.input_hash;
  created_at = r.created_at;
}

unfoldable pub to_summary_row : ℕ → Report → SummaryRow
unfolding nullable_string
to_summary_row id r = record {
  id = id;
  domain = r.domain;
  window_from = r.window_from;
  model = r.model;
  content = r.content;
  structured_content = nullable_string r.structured_content;
  provider = nullable_string r.provider;
  prompt_version = nullable_string r.prompt_version;
  input_hash = nullable_string r.input_hash;
  created_at = r.created_at;
}

-- The primary key of the links.
abbrev pub same_link : SummaryEvidenceLink → SummaryEvidenceLink → Bool
same_link a b =
    (a.summary_id == b.summary_id)
    && str_eq a.event_id b.event_id
    && str_eq a.relationship b.relationship

unfoldable pub has_link : SummaryEvidenceLink → List SummaryEvidenceLink → Bool
has_link l [] = false
has_link l (k ∷ ks) = if same_link k l then true else has_link l ks
