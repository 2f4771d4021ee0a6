-- ===== src/Sqllite/Summaries.antt =====
-- internal/sqllite/storer.go: AggregateByDomain, ListSummaryEvidence, LatestSummary, SaveSummary and
-- SaveSummaryEvidenceLinks, with the query SummarizeByDomain of internal/sqlc/generated/events.sql.go and
-- the tables of summary.sql. A statement is a function on lists of rows, newest first.
pub mod Cache
use Prim.Native.String.{◌++◌}
use synapse_platform.Prelude.{
  ℕ, ◌+◌, Bool, true, false, ◌&&◌, ◌||◌, String, Option, none, some, List, [], ◌∷◌, if◌then◌else◌,
  str_eq, ltb, leb, ◌==◌, ℤ, pos, negsuc, take,
}
use synapse_platform.Prelude.Sorting.{sort_stable}
use synapse_platform.Sqllite.SummaryRows.{
  SummaryRow, Tables, smaller, larger, add_to_group, group_rows, by_count, summarize_by_domain,
  select_evidence, by_time, evidence_of, evidence_limit, until_or, nullable_string, column_text,
  is_or_equals, later_row, is_looked_up, latest_row, to_report, to_summary_row, same_link, has_link,
}
use synapse_platform.Api.Types.{
  Report, DomainStat, SummaryLookup, EvidenceRequest, default_max_evidence_events,
  SummaryEvidenceLink,
}
use synapse_platform.Intelligence.Summary.{SummaryEvidenceEvent}
use synapse_platform.Intelligence.Summary.Service.{Answer, answer, fault}

-- What can fail, by the tables that the call is made on; the clock.
pub record SummaryDriver : Type 0 where
  pub query_error : Tables → Option String
  pub insert_error : Tables → Option String
  pub last_id_error : Tables → Option String
  pub begin_error : Tables → Option String
  pub link_error : SummaryEvidenceLink → Tables → Option String
  pub commit_error : Tables → Option String
  pub now : Tables → ℕ

module _ (d : SummaryDriver) where
  unfoldable pub aggregate_by_domain : ℕ → Tables → Answer (List DomainStat)
  unfolding summarize_by_domain
  aggregate_by_domain since t = elim (d.query_error t) [
    | some e ↦ fault ("summarize by domain: " ++ e)
    | none ↦ answer (summarize_by_domain since t.events)
  ]

  unfoldable pub list_summary_evidence :
      EvidenceRequest → Tables → Answer (List SummaryEvidenceEvent)
  unfolding select_evidence sort_stable evidence_of
  list_summary_evidence req t = elim (d.query_error t) [
    | some e ↦ fault ("query summary evidence: " ++ e)
    | none ↦ answer (
        evidence_of (
          take (evidence_limit req.max_results) (
            sort_stable by_time
              (select_evidence req.domain req.since (until_or (d.now t) req.until) t.events))))
  ]

  unfoldable pub latest_summary : {F : Type 0} → SummaryLookup F → Tables → Answer (Option Report)
  unfolding latest_row to_report
  latest_summary l t = elim (d.query_error t) [
    | some e ↦ fault e
    | none ↦ elim (latest_row l t.summaries) [
      | none ↦ answer none
      | some r ↦ answer (some (to_report r))
    ]
  ]

  unfoldable pub save_summary : Report → Tables → Answer ℕ × Tables
  unfolding to_summary_row
  save_summary r t = elim (d.insert_error t) [
    | some e ↦ (fault e, t)
    | none ↦
        let id = t.last_id + 1 in
        let saved = record t { summaries = to_summary_row id r ∷ t.summaries; last_id = id } in
        elim (d.last_id_error saved) [
          | some e ↦ (fault ("get summary last insert id: " ++ e), saved)
          | none ↦ (answer id, saved)
        ]
  ]

  -- The loop over the links, in the transaction; `INSERT OR IGNORE`.
  unfoldable pub insert_links : List SummaryEvidenceLink → Tables → Option String × Tables
  unfolding has_link
  insert_links [] t = (none, t)
  insert_links (l ∷ ls) t =
      let rest =
        insert_links ls (if has_link l t.links then t else record t { links = l ∷ t.links }) in
      elim (d.link_error l t) [ some e ↦ (some ("insert evidence link: " ++ e), t) | none ↦ rest ]

  -- The end of the transaction: a failure rolls it back to `before`.
  unfoldable pub finish_links : Tables → Option String × Tables → Option String × Tables
  finish_links before (some e, t) = (some e, before)
  finish_links before (none, t) = elim (d.commit_error t) [
    | some e ↦ (some ("commit evidence links: " ++ e), before)
    | none ↦ (none, t)
  ]

  unfoldable pub save_summary_evidence_links :
      List SummaryEvidenceLink → Tables → Option String × Tables
  unfolding finish_links insert_links
  save_summary_evidence_links [] t = (none, t)
  save_summary_evidence_links (l ∷ ls) t = elim (d.begin_error t) [
    | some e ↦ (some ("begin evidence links transaction: " ++ e), t)
    | none ↦ finish_links t (insert_links (l ∷ ls) t)
  ]
