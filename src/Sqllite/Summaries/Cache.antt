-- ===== src/Sqllite/Summaries/Cache.antt =====
-- The store keeps the summaries as the summary service needs it.
use synapse_platform.Prelude.{
  ℕ, ◌≡◌, refl, ap, ◌∙◌, sym, inl, inr, true, false, String, Option, none, some, Option-cases,
  Bool-cases, List, [], ◌∷◌, if◌then◌else◌, str_eq, str_eq_iff, arith, ◌+◌,
}
use synapse_platform.Api.Types.{Report, SummaryLookup, SummaryEvidenceLink}
use synapse_platform.Intelligence.Provider.{
  CompletionRequest, CompletionResponse, ProviderError, Result,
}
use synapse_platform.Intelligence.Summary.Service.{Answer, answer, fault, Interfaces}
use synapse_platform.Intelligence.Summary.Service.Cached.{has_key, IsCache}
use synapse_platform.Sqllite.SummaryRows.{
  SummaryRow, Tables, nullable_string, column_text, is_or_equals, is_looked_up, latest_row,
  to_report, to_summary_row, has_link, summarize_by_domain,
}
use synapse_platform.Sqllite.Summaries.{
  SummaryDriver, aggregate_by_domain, list_summary_evidence, latest_summary, save_summary,
  insert_links, finish_links, save_summary_evidence_links,
}

text_kept : (s : String) → column_text (nullable_string s) ≡ s
unfolding nullable_string
text_kept s = elim (Bool-cases (str_eq s "")) [
  | inl e ↦ rw (nullable_string, e) (sym ((str_eq_iff s "").0 e))
  | inr f ↦ rw (nullable_string, f) refl
]

-- A text column holds the text that is looked up exactly if the texts are the same.
found_text : (s t : String) → is_or_equals (nullable_string s) (nullable_string t) t ≡ str_eq s t
unfolding nullable_string
found_text s t = elim (Bool-cases (str_eq s "")) [
  | inl e ↦
      let s_empty : s ≡ "" = (str_eq_iff s "").0 e in
      elim (Bool-cases (str_eq t "")) [
        | inl f ↦
            let same : str_eq s t ≡ true =
              (str_eq_iff s t).1 (s_empty ∙ sym ((str_eq_iff t "").0 f)) in
            rw (e, f, same) refl
        | inr f ↦
            let differ : str_eq s t ≡ false = elim (Bool-cases (str_eq s t)) [
              | inr g ↦ g
              | inl g ↦
                  let t_empty : str_eq t "" ≡ true =
                    (str_eq_iff t "").1 (sym ((str_eq_iff s t).0 g) ∙ s_empty) in
                  absurd (ground arith)
            ] in
            rw (e, f, differ) refl
      ]
  | inr e ↦ elim (Bool-cases (str_eq t "")) [
    | inl f ↦ rw (e, f) refl
    | inr f ↦ elim (Bool-cases (str_eq s t)) [
      | inl g ↦ rw (e, f, g) refl
      | inr g ↦ rw (e, f, g) refl
    ]
  ]
]

report_kept : (id : ℕ) (r : Report) → to_report (to_summary_row id r) ≡ r
unfolding to_report to_summary_row
report_kept id r =
    rw
      (
        text_kept r.structured_content,
        text_kept r.provider,
        text_kept r.prompt_version,
        text_kept r.input_hash,
      )
      refl

module _ {F : Type 0} where
  row_found :
      (l : SummaryLookup F) (id : ℕ) (r : Report)
      → is_looked_up l (to_summary_row id r) ≡ has_key l r
  unfolding is_looked_up to_summary_row
  row_found l id r =
      rw
        (
          found_text r.provider l.provider,
          found_text r.prompt_version l.prompt_version,
          found_text r.input_hash l.input_hash,
        )
        refl

  none_looked_up :
      (d : SummaryDriver) (l : SummaryLookup F) (t : Tables)
      → latest_summary d l t ≡ answer none
      → latest_row l t.summaries ≡ none
  unfolding latest_summary
  none_looked_up d l t h = elim (Option-cases (d.query_error t)) [
    | inr (e, q) ↦
        let k : latest_summary d l t ≡ fault e = rw (latest_summary, q) refl in absurd (cc)
    | inl q ↦ elim (Option-cases (latest_row l t.summaries)) [
      | inl n ↦ n
      | inr (r, q2) ↦
          let k : latest_summary d l t ≡ answer (some (to_report r)) =
            rw (latest_summary, q, q2) refl in
          absurd (cc)
    ]
  ]

-- The model, the metrics and the clock, on a world of their own.
pub record Outside (F C : Type 0) : Type 0 where
  pub complete : CompletionRequest F → C → Result CompletionResponse × C
  pub cache_hit : String → C → C
  pub cache_miss : String → C → C
  pub now : C → ℕ
  pub error_text : ProviderError → String

-- The interfaces of the summary service over the store, as the program puts them together.
unfoldable pub over_store : {F C : Type 0} → SummaryDriver → Outside F C → Interfaces F (Tables × C)
unfolding aggregate_by_domain list_summary_evidence latest_summary save_summary
    save_summary_evidence_links
over_store d o = record {
  aggregate_by_domain = λ since w. aggregate_by_domain d since w.0;
  latest_summary = λ l w. latest_summary d l w.0;
  save_summary = λ r w. let saved = save_summary d r w.0 in (saved.0, (saved.1, w.1));
  save_summary_evidence_links =
      λ ls w. let saved = save_summary_evidence_links d ls w.0 in (saved.0, (saved.1, w.1));
  list_summary_evidence = λ req w. list_summary_evidence d req w.0;
  complete = λ c w. let reply = o.complete c w.1 in (reply.0, (w.0, reply.1));
  cache_hit = λ domain w. (w.0, o.cache_hit domain w.1);
  cache_miss = λ domain w. (w.0, o.cache_miss domain w.1);
  now = λ w. o.now w.1;
  error_text = o.error_text;
}

-- The tables that the reads of the service look at are the same.
record SameTables (t u : Tables) : Type 0 where
  same_events : u.events ≡ t.events
  same_summaries : u.summaries ≡ t.summaries

module _ (d : SummaryDriver) where
  abbrev pub IsReadable : Type 0
  IsReadable = (t : Tables) → d.query_error t ≡ none

  insert_links-SameTables :
      (ls : List SummaryEvidenceLink) (t : Tables) → SameTables t (insert_links d ls t).1
  unfolding insert_links
  insert_links-SameTables [] t = record { same_events = refl; same_summaries = refl }
  insert_links-SameTables (l ∷ ls) t = elim (Option-cases (d.link_error l t)) [
    | inr (e, q) ↦ record {
      same_events = rw (insert_links, q) refl;
      same_summaries = rw (insert_links, q) refl;
    }
    | inl q ↦
        let u = if has_link l t.links then t else record t { links = l ∷ t.links } in
        let events : u.events ≡ t.events = elim (Bool-cases (has_link l t.links)) [
          | inl b ↦ rw (b) refl
          | inr b ↦ rw (b) refl
        ] in
        let summaries : u.summaries ≡ t.summaries = elim (Bool-cases (has_link l t.links)) [
          | inl b ↦ rw (b) refl
          | inr b ↦ rw (b) refl
        ] in
        let rest = insert_links-SameTables ls u in
        record {
          same_events = rw (insert_links, q) (rest.same_events ∙ events);
          same_summaries = rw (insert_links, q) (rest.same_summaries ∙ summaries);
        }
  ]

  finish_links-SameTables :
      (t : Tables) (p : Option String × Tables)
      → SameTables t p.1
      → SameTables t (finish_links d t p).1
  unfolding finish_links
  finish_links-SameTables t (some e, u) same = record { same_events = refl; same_summaries = refl }
  finish_links-SameTables t (none, u) same = elim (Option-cases (d.commit_error u)) [
    | inr (e, q) ↦ record {
      same_events = rw (finish_links, q) refl;
      same_summaries = rw (finish_links, q) refl;
    }
    | inl q ↦ record {
      same_events = rw (finish_links, q) same.same_events;
      same_summaries = rw (finish_links, q) same.same_summaries;
    }
  ]

  links-SameTables :
      (ls : List SummaryEvidenceLink) (t : Tables)
      → SameTables t (save_summary_evidence_links d ls t).1
  unfolding save_summary_evidence_links
  links-SameTables [] t = record { same_events = refl; same_summaries = refl }
  links-SameTables (l ∷ ls) t = elim (Option-cases (d.begin_error t)) [
    | inr (e, q) ↦ record {
      same_events = rw (save_summary_evidence_links, q) refl;
      same_summaries = rw (save_summary_evidence_links, q) refl;
    }
    | inl q ↦
        let same =
          finish_links-SameTables t (insert_links d (l ∷ ls) t)
            (insert_links-SameTables (l ∷ ls) t) in
        record {
          same_events = rw (save_summary_evidence_links, q) same.same_events;
          same_summaries = rw (save_summary_evidence_links, q) same.same_summaries;
        }
  ]

  same_aggregates :
      IsReadable
      → (since : ℕ) (t u : Tables) → u.events ≡ t.events
      → aggregate_by_domain d since u ≡ aggregate_by_domain d since t
  unfolding aggregate_by_domain
  same_aggregates readable since t u same =
      rw (aggregate_by_domain, readable u, readable t)
        (ap (λ rows. answer (summarize_by_domain since rows)) same)

  abbrev found_report : Option SummaryRow → Answer (Option Report)
  found_report none = answer none
  found_report (some r) = answer (some (to_report r))

  looked_up_report :
      {F : Type 0}
      → IsReadable
      → (l : SummaryLookup F) (t : Tables)
      → latest_summary d l t ≡ found_report (latest_row l t.summaries)
  unfolding latest_summary
  looked_up_report readable l t = elim (Option-cases (latest_row l t.summaries)) [
    | inl n ↦ rw (latest_summary, readable t, n) refl
    | inr (r, q) ↦ rw (latest_summary, readable t, q) refl
  ]

  save_events : (r : Report) (t : Tables) → (save_summary d r t).1.events ≡ t.events
  unfolding save_summary
  save_events r t = elim (Option-cases (d.insert_error t)) [
    | inr (e, q) ↦ rw (save_summary, q) refl
    | inl q ↦
        let saved = record t {
          summaries = to_summary_row (t.last_id + 1) r ∷ t.summaries;
          last_id = t.last_id + 1;
        } in
        elim (Option-cases (d.last_id_error saved)) [
          | inr (e, p) ↦ rw (save_summary, q, p) refl
          | inl p ↦ rw (save_summary, q, p) refl
        ]
  ]

  save_rows :
      (r : Report) (t : Tables) (id : ℕ)
      → (save_summary d r t).0 ≡ answer id
      → (save_summary d r t).1.summaries ≡ to_summary_row (t.last_id + 1) r ∷ t.summaries
  unfolding save_summary
  save_rows r t id h = elim (Option-cases (d.insert_error t)) [
    | inr (e, q) ↦
        let k : (save_summary d r t).0 ≡ fault e = rw (save_summary, q) refl in absurd (cc)
    | inl q ↦
        let saved = record t {
          summaries = to_summary_row (t.last_id + 1) r ∷ t.summaries;
          last_id = t.last_id + 1;
        } in
        elim (Option-cases (d.last_id_error saved)) [
          | inr (e, p) ↦ rw (save_summary, q, p) refl
          | inl p ↦ rw (save_summary, q, p) refl
        ]
  ]

  first_row :
      {F : Type 0} (l : SummaryLookup F) (id : ℕ) (r : Report) (rows : List SummaryRow)
      → latest_row l rows ≡ none
      → found_report (latest_row l (to_summary_row id r ∷ rows))
        ≡ answer (if has_key l r then some r else none)
  unfolding latest_row
  first_row l id r rows h = elim (Bool-cases (has_key l r)) [
    | inl t ↦ rw (latest_row, row_found l id r, t, h) (ap (λ x. answer (some x)) (report_kept id r))
    | inr f ↦ rw (latest_row, row_found l id r, f, h) refl
  ]

  saved_latest :
      {F : Type 0}
      → IsReadable
      → (r : Report) (t : Tables) (id : ℕ) (l : SummaryLookup F)
      → (save_summary d r t).0 ≡ answer id
      → latest_summary d l t ≡ answer none
      → latest_summary d l (save_summary d r t).1 ≡ answer (if has_key l r then some r else none)
  saved_latest readable r t id l done h =
      looked_up_report readable l (save_summary d r t).1
      ∙ (ap (λ rows. found_report (latest_row l rows)) (save_rows r t id done)
          ∙ first_row l (t.last_id + 1) r t.summaries (none_looked_up d l t h))

  -- If no query fails, the store is such a cache as Summarize relies on: a summary that was saved is
  -- found under its key, NULL columns included, whatever becomes of its evidence links.
  pub over_store-IsCache :
      {F C : Type 0} → IsReadable → (o : Outside F C) → IsCache (over_store d o)
  unfolding over_store
  over_store-IsCache readable o = record {
    saved_stats = λ r w since.
        same_aggregates readable since w.0 (save_summary d r w.0).1 (save_events r w.0);
    saved_latest = λ r w id l done h. saved_latest readable r w.0 id l done h;
    after_links = λ ls w.
        let same = links-SameTables ls w.0 in
        record {
          same_stats = λ since.
              same_aggregates readable since w.0 (save_summary_evidence_links d ls w.0).1
                same.same_events;
          same_latest = λ l.
              looked_up_report readable l (save_summary_evidence_links d ls w.0).1
              ∙ (ap (λ rows. found_report (latest_row l rows)) same.same_summaries
                  ∙ sym (looked_up_report readable l w.0));
        };
    after_completion = λ c w. record { same_stats = λ since. refl; same_latest = λ l. refl };
    after_hit = λ domain w. record { same_stats = λ since. refl; same_latest = λ l. refl };
    after_miss = λ domain w. record { same_stats = λ since. refl; same_latest = λ l. refl };
  }
