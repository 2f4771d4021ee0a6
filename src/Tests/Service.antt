-- ===== src/Tests/Service.antt =====
-- A summary that is made once and served from the cache, over the tables of the store.
use mathlib.Core.List.{Permᴰ}
use synapse_platform.Prelude.{ℕ, ◌≡◌, refl, ◌+◌, none, some, [], ◌∷◌, if◌then◌else◌, pos}
use synapse_platform.Prelude.Sorting.{bytes_less, insert_sorted, sort_stable}
use synapse_platform.Api.Types.{Request, Report, DomainStat}
use synapse_platform.Intelligence.Provider.{CompletionResponse, ok}
use synapse_platform.Intelligence.Summary.Prompt.{
  Formats, stat_before, hash_lines, compute_input_hash, build_cache_key, build_summary_prompt,
}
use synapse_platform.Intelligence.Summary.Service.{
  Service, new_service, trim_left, trim_right, for_domain, evidence_links, save_links, after_save,
  save_report, empty_report, report_of, completed, with_evidence, after_miss, cache_key, looked_up,
  aggregated, summarize,
}
use synapse_platform.Intelligence.Summary.Service.Cached.{IsCache, is_own, summarize-again}
use synapse_platform.Intelligence.Summary.Service.Order.{compute_input_hash-Perm}
use synapse_platform.Sqllite.Store.{Row}
use synapse_platform.Sqllite.SummaryRows.{
  Tables, add_to_group, group_rows, summarize_by_domain, select_evidence, evidence_of,
  nullable_string, is_looked_up, latest_row, to_report, to_summary_row, has_link,
}
use synapse_platform.Sqllite.Summaries.{
  SummaryDriver, aggregate_by_domain, list_summary_evidence, latest_summary, save_summary,
  insert_links, finish_links, save_summary_evidence_links,
}
use synapse_platform.Sqllite.Summaries.Cache.{Outside, over_store, over_store-IsCache}

program : Unit {0}
unfolding bytes_less insert_sorted sort_stable stat_before hash_lines compute_input_hash
    build_cache_key build_summary_prompt trim_left trim_right for_domain evidence_links save_links
    after_save save_report empty_report report_of completed with_evidence after_miss cache_key
    looked_up aggregated summarize add_to_group group_rows summarize_by_domain select_evidence
    evidence_of nullable_string is_looked_up latest_row to_report to_summary_row has_link
    aggregate_by_domain list_summary_evidence latest_summary save_summary insert_links finish_links
    save_summary_evidence_links over_store
program = tt

abbrev formats : Formats ℕ
formats = record {
  format_float = λ x. "0.2";
  format_int = λ n. "1";
  rfc3339 = λ t. "t";
  rfc3339_nano = λ t. "t";
  sha256_hex = λ t. t;
}

abbrev driver : SummaryDriver
driver = record {
  query_error = λ t. none;
  insert_error = λ t. none;
  last_id_error = λ t. none;
  begin_error = λ t. none;
  link_error = λ l t. none;
  commit_error = λ t. none;
  now = λ t. 9;
}

abbrev reply : CompletionResponse
reply = record {
  content = " calm ";
  model = "m";
  token_usage = record { prompt_tokens = pos 1; completion_tokens = pos 1; total_tokens = pos 2 };
  latency_ms = 1;
  provider = "openai";
  raw = "";
}

-- The world of the model counts the completions.
abbrev outside : Outside ℕ ℕ
outside = record {
  complete = λ request asked. (ok reply, asked + 1);
  cache_hit = λ domain asked. asked;
  cache_miss = λ domain asked. asked;
  now = λ asked. 7;
  error_text = λ e. "";
}

abbrev service : Service ℕ (Tables × ℕ)
service = new_service (over_store driver outside) formats "openai" "m" (pos 100) 0

abbrev charge : Row
charge = record {
  event_id = "a";
  domain = "energy";
  event_type = "ev_charger";
  entity_id = "d";
  entity_type = "device";
  occurred_at = 5;
  ingested_at = 6;
  source = "ev_charger";
  schema_version = "1.0.0";
  data_json = "{}";
}

abbrev tables : Tables
tables = record { events = charge ∷ []; summaries = []; links = []; last_id = 0 }

abbrev request : Request
request = record { domain = "energy"; since = 1 }

abbrev energy : DomainStat
energy = record {
  domain = "energy";
  event_type = "ev_charger";
  count = 1;
  first_seen = 5;
  last_seen = 5;
}

abbrev finance : DomainStat
finance = record {
  domain = "finance";
  event_type = "transaction";
  count = 2;
  first_seen = 3;
  last_seen = 4;
}

over_store-IsCache_example : IsCache (over_store driver outside)
over_store-IsCache_example = over_store-IsCache driver (λ t. refl) outside

run_content : (summarize service request (tables, 0)).world.1 ≡ 1
unfolding program
run_content = refl

summarize-again_example :
    (r : Report) × ((summarize service request (tables, 0)).report ≡ some r)
    × (summarize service request (summarize service request (tables, 0)).world ≡ (
        if is_own service r
        then record {
          report = some r;
          error = none;
          world =
              service.interfaces.cache_hit "energy" (summarize service request (tables, 0)).world;
        }
        else after_miss service request
            (cache_key service request (energy ∷ []))
            (energy ∷ [])
            (service.interfaces.cache_miss "energy" (summarize service request (tables, 0)).world)))
unfolding program
summarize-again_example =
    summarize-again service (over_store-IsCache driver (λ t. refl) outside) request (energy ∷ [])
      (tables, 0) refl refl refl

compute_input_hash-Perm_example :
    compute_input_hash formats (finance ∷ energy ∷ []) 0 (pos 100)
    ≡ compute_input_hash formats (energy ∷ finance ∷ []) 0 (pos 100)
unfolding program
compute_input_hash-Perm_example =
    compute_input_hash-Perm formats 0 (pos 100) {xs = finance ∷ energy ∷ []}
      {ys = energy ∷ finance ∷ []} (Permᴰ.swap refl refl) ((refl, tt), (tt, tt))
