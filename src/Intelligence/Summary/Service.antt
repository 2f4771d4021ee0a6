-- ===== src/Intelligence/Summary/Service.antt =====
-- internal/intelligence/summary/service.go: `Summarize`. The reader, the evidence and the model are
-- interfaces; they act on a world `W`.
pub mod Order
pub mod Cached
use Prim.Native.String.{◌++◌}
use Prim.Native.Char.{code}
use synapse_platform.Prelude.{
  ℕ, Bool, true, false, ◌||◌, ◌&&◌, String, Option, none, some, List, [], ◌∷◌, if◌then◌else◌,
  str_eq, leb, ◌==◌, ℤ, pos,
}
use synapse_platform.Api.Types.{
  Request, Report, DomainStat, SummaryLookup, EvidenceRequest, default_max_evidence_events,
  SummaryEvidenceLink, evidence_relationship_evidence,
}
use synapse_platform.Intelligence.Provider.{
  CompletionRequest, CompletionResponse, ProviderError, Result, ok, failed,
}
use synapse_platform.Intelligence.Summary.{SummaryEvidenceEvent}
use synapse_platform.Intelligence.Summary.Prompt.{
  Formats, summary_prompt_version, build_summary_prompt, build_cache_key,
}

-- What a call answers: a value or the text of an error.
pub data Answer (A : Type 0) : Type 0 where
  answer : A → Answer A
  fault : String → Answer A

-- `AggregateReader`, `SummaryEvidenceReader`, `Completer`, `CacheMetrics` and the clock. What only reads
-- leaves the world as it is.
pub record Interfaces (F W : Type 0) : Type 0 where
  pub aggregate_by_domain : ℕ → W → Answer (List DomainStat)
  pub latest_summary : SummaryLookup F → W → Answer (Option Report)
  pub save_summary : Report → W → Answer ℕ × W
  pub save_summary_evidence_links : List SummaryEvidenceLink → W → Option String × W
  pub list_summary_evidence : EvidenceRequest → W → Answer (List SummaryEvidenceEvent)
  pub complete : CompletionRequest F → W → Result CompletionResponse × W
  pub cache_hit : String → W → W
  pub cache_miss : String → W → W
  pub now : W → ℕ
  pub error_text : ProviderError → String

pub record Service (F W : Type 0) : Type 0 where
  pub interfaces : Interfaces F W
  pub formats : Formats F
  pub provider_name : String
  pub model : String
  pub max_tokens : ℤ
  pub temperature : F
  pub prompt_version : String

-- The report and the error that `Summarize` returns, each nil as `none`, and the world that it leaves.
pub record Outcome (W : Type 0) : Type 0 where
  pub report : Option Report
  pub error : Option String
  pub world : W

-- `unicode.IsSpace`
abbrev pub is_space : ℕ → Bool
is_space c =
    (leb 9 c && leb c 13)
    || c == 32
    || c == 133
    || c == 160
    || c == 5760
    || (leb 8192 c && leb c 8202)
    || c == 8232
    || c == 8233
    || c == 8239
    || c == 8287
    || c == 12288

unfoldable pub trim_left : String → String
trim_left String.[] = ""
trim_left (String.◌∷◌ c s) =
    let rest = trim_left s in if is_space (code c) then rest else String.◌∷◌ c s

unfoldable pub trim_right : String → String
trim_right String.[] = ""
trim_right (String.◌∷◌ c s) =
    let rest = trim_right s in if is_space (code c) && str_eq rest "" then "" else String.◌∷◌ c rest

-- `strings.TrimSpace`
abbrev pub trim_space : String → String
unfolding trim_left trim_right
trim_space s = trim_right (trim_left s)

unfoldable pub for_domain : String → List DomainStat → List DomainStat
for_domain domain [] = []
for_domain domain (st ∷ rest) =
    let kept = for_domain domain rest in
    if str_eq domain "" || str_eq st.domain domain then st ∷ kept else kept

unfoldable pub evidence_links : ℕ → List SummaryEvidenceEvent → List SummaryEvidenceLink
evidence_links id [] = []
evidence_links id (e ∷ es) =
    record { summary_id = id; event_id = e.event_id; relationship = evidence_relationship_evidence }
    ∷ evidence_links id es

abbrev pub or_default : String → String → String
or_default given default = if str_eq given "" then default else given

module _ {F W : Type 0} where
  -- `New`; the options put other interfaces in place of those that do nothing.
  abbrev pub new_service : Interfaces F W → Formats F → String → String → ℤ → F → Service F W
  new_service interfaces formats provider_name model max_tokens temperature = record {
    interfaces = interfaces;
    formats = formats;
    provider_name = provider_name;
    model = model;
    max_tokens = max_tokens;
    temperature = temperature;
    prompt_version = summary_prompt_version;
  }

  module _ (s : Service F W) where
    unfoldable pub save_links : Report → ℕ → List SummaryEvidenceEvent → W → Outcome W
    unfolding evidence_links
    save_links report id [] w = record { report = some report; error = none; world = w }
    save_links report id (e ∷ es) w =
        let saved = s.interfaces.save_summary_evidence_links (evidence_links id (e ∷ es)) w in
        record {
          report = some report;
          error = elim saved.0 [
            | none ↦ none
            | some t ↦ some ("save summary evidence links: " ++ t)
          ];
          world = saved.1;
        }

    unfoldable pub after_save : Report → List SummaryEvidenceEvent → Answer ℕ → W → Outcome W
    unfolding save_links
    after_save report evidence (fault e) w = record {
      report = some report;
      error = some ("save summary: " ++ e);
      world = w;
    }
    after_save report evidence (answer id) w = save_links report id evidence w

    unfoldable pub save_report : Report → List SummaryEvidenceEvent → W → Outcome W
    unfolding after_save
    save_report report evidence w =
        let saved = s.interfaces.save_summary report w in after_save report evidence saved.0 saved.1

    -- The report for a period without events.
    unfoldable pub empty_report : Request → SummaryLookup F → W → Report
    empty_report req key w = record {
      domain = req.domain;
      window_from = req.since;
      model = s.model;
      content = "No events found for the requested period.";
      structured_content = "";
      provider = s.provider_name;
      prompt_version = s.prompt_version;
      input_hash = key.input_hash;
      created_at = s.interfaces.now w;
    }

    unfoldable pub report_of : Request → SummaryLookup F → CompletionResponse → W → Report
    report_of req key resp w = record {
      domain = req.domain;
      window_from = req.since;
      model = or_default resp.model s.model;
      content = trim_space resp.content;
      structured_content = "";
      provider = or_default resp.provider s.provider_name;
      prompt_version = s.prompt_version;
      input_hash = key.input_hash;
      created_at = s.interfaces.now w;
    }

    abbrev pub completion_request :
        Request → List DomainStat → List SummaryEvidenceEvent → CompletionRequest F
    unfolding build_summary_prompt
    completion_request req stats evidence = record {
      model = s.model;
      prompt = build_summary_prompt s.formats req.domain stats evidence;
      max_tokens = s.max_tokens;
      temperature = s.temperature;
      metadata =
          ("purpose", "summary")
          ∷ ("prompt_version", s.prompt_version)
          ∷ ("domain", req.domain)
          ∷ [];
    }

    unfoldable pub completed :
        Request
        → SummaryLookup F
        → List SummaryEvidenceEvent
        → Result CompletionResponse
        → W
        → Outcome W
    unfolding report_of save_report
    completed req key evidence (failed e) w = record {
      report = none;
      error = some ("llm completion: " ++ s.interfaces.error_text e);
      world = w;
    }
    completed req key evidence (ok resp) w = save_report (report_of req key resp w) evidence w

    unfoldable pub with_evidence :
        Request
        → SummaryLookup F
        → List DomainStat
        → Answer (List SummaryEvidenceEvent)
        → W
        → Outcome W
    unfolding completed
    with_evidence req key stats (fault e) w = record {
      report = none;
      error = some ("load summary evidence: " ++ e);
      world = w;
    }
    with_evidence req key stats (answer evidence) w =
        let reply = s.interfaces.complete (completion_request req stats evidence) w in
        completed req key evidence reply.0 reply.1

    -- The rest of `Summarize`, once the cache had no summary.
    unfoldable pub after_miss : Request → SummaryLookup F → List DomainStat → W → Outcome W
    unfolding save_report empty_report with_evidence
    after_miss req key [] w = save_report (empty_report req key w) [] w
    after_miss req key (st ∷ sts) w =
        with_evidence req key (st ∷ sts)
          (s.interfaces.list_summary_evidence
            (record {
              domain = req.domain;
              since = req.since;
              until = none;
              max_results = pos default_max_evidence_events;
            })
            w)
          w

    unfoldable pub cache_key : Request → List DomainStat → SummaryLookup F
    unfolding build_cache_key
    cache_key req stats =
        build_cache_key s.formats req.domain req.since s.provider_name s.model s.prompt_version
          s.temperature s.max_tokens stats

    unfoldable pub looked_up : Request → List DomainStat → Answer (Option Report) → W → Outcome W
    unfolding after_miss cache_key
    looked_up req stats (fault e) w = record {
      report = none;
      error = some ("check summary cache: " ++ e);
      world = w;
    }
    looked_up req stats (answer (some cached)) w = record {
      report = some cached;
      error = none;
      world = s.interfaces.cache_hit req.domain w;
    }
    looked_up req stats (answer none) w =
        after_miss req (cache_key req stats) stats (s.interfaces.cache_miss req.domain w)

    unfoldable pub aggregated : Request → Answer (List DomainStat) → W → Outcome W
    unfolding looked_up for_domain cache_key
    aggregated req (fault e) w = record {
      report = none;
      error = some ("aggregate events: " ++ e);
      world = w;
    }
    aggregated req (answer stats) w =
        let mine = for_domain req.domain stats in
        looked_up req mine (s.interfaces.latest_summary (cache_key req mine) w) w

    unfoldable pub summarize : Request → W → Outcome W
    unfolding aggregated
    summarize req w = aggregated req (s.interfaces.aggregate_by_domain req.since w) w
