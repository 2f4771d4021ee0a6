-- ===== src/Intelligence/Summary/Prompt.antt =====
-- internal/intelligence/summary/prompt.go and cache_key.go: the prompt of a summary and the key under
-- which a summary is kept.
use Prim.Native.String.{◌++◌}
use synapse_platform.Prelude.{ℕ, Bool, String, List, [], ◌∷◌, if◌then◌else◌, str_eq, ℤ, pos}
use synapse_platform.Prelude.Text.{codes}
use synapse_platform.Prelude.Sorting.{bytes_less, sort_stable}
use synapse_platform.Api.Types.{DomainStat, SummaryLookup}
use synapse_platform.Intelligence.Summary.{SummaryEvidenceEvent}

-- What strconv, time and crypto/sha256 make of a value: `strconv.FormatFloat`, decimal numbers, the two
-- formats of a time, and the hash of a text in hexadecimal digits.
pub record Formats (F : Type 0) : Type 0 where
  pub format_float : F → String
  pub format_int : ℤ → String
  pub rfc3339 : ℕ → String
  pub rfc3339_nano : ℕ → String
  pub sha256_hex : String → String

abbrev pub summary_prompt_version : String
summary_prompt_version = "summary.v1"

abbrev pub summary_system_preamble : String
summary_system_preamble =
    "You are an operational event analyst. Produce a structured summary of the event statistics and evidence provided below.\n"
    ++ "\n"

abbrev pub summary_json_schema : String
summary_json_schema =
    "Respond with a single JSON object matching this schema (field names are exact):\n" ++ "\n"
    ++ "{\n" ++ "  \"summary\": string,\n" ++ "  \"risk_level\": \"low\" | \"medium\" | \"high\",\n"
    ++ "  \"notable_events\": [\n" ++ "    {\n" ++ "      \"event_id\": string,\n"
    ++ "      \"domain\": string,\n" ++ "      \"event_type\": string,\n"
    ++ "      \"entity_id\": string,\n" ++ "      \"occurred_at\": RFC3339 timestamp,\n"
    ++ "      \"reason\": string\n" ++ "    }\n" ++ "  ],\n" ++ "  \"recommended_actions\": [\n"
    ++ "    {\n" ++ "      \"action\": string,\n" ++ "      \"rationale\": string,\n"
    ++ "      \"related_event_ids\": [string]\n" ++ "    }\n" ++ "  ]\n" ++ "}\n" ++ "\n"

abbrev pub summary_rules : String
summary_rules =
    "Rules:\n"
    ++ "- Output JSON only. No markdown, no code fences, no prose before or after the JSON.\n"
    ++ "- \"risk_level\" must be one of: low, medium, high.\n"
    ++ "- \"notable_events\" must reference event IDs from the allowed list below ONLY. Do not invent event IDs.\n"
    ++ "- Each \"notable_event\" must include event_id, domain, event_type, occurred_at, and a reason.\n"
    ++ "- \"recommended_actions\" should include \"related_event_ids\" when the action is based on specific events, and those IDs must come from the allowed list.\n"
    ++ "- If no allowed event IDs are provided, return an empty \"notable_events\" array and only recommendations not tied to specific events.\n"
    ++ "- Use only the data provided. Do not assume values not present in the statistics or evidence.\n"

-- `sorted[i]` comes before `sorted[j]`.
unfoldable pub stat_before : DomainStat → DomainStat → Bool
unfolding bytes_less
stat_before a b =
    if str_eq a.domain b.domain
    then bytes_less (codes a.event_type) (codes b.event_type)
    else bytes_less (codes a.domain) (codes b.domain)

module _ {F : Type 0} (f : Formats F) where
  stat_line : DomainStat → String
  stat_line s =
      "- domain="
      ++ s.domain
      ++ " event_type="
      ++ s.event_type
      ++ " count="
      ++ f.format_int (pos s.count)
      ++ " first_seen="
      ++ f.rfc3339 s.first_seen
      ++ " last_seen="
      ++ f.rfc3339 s.last_seen
      ++ "\n"

  stat_lines : List DomainStat → String
  unfolding stat_line
  stat_lines [] = ""
  stat_lines (s ∷ ss) = stat_line s ++ stat_lines ss

  evidence_line : SummaryEvidenceEvent → String
  evidence_line e =
      "- "
      ++ e.event_id
      ++ " domain="
      ++ e.domain
      ++ " event_type="
      ++ e.event_type
      ++ " entity_id="
      ++ e.entity_id
      ++ " occurred_at="
      ++ f.rfc3339 e.occurred_at
      ++ "\n"

  evidence_lines : List SummaryEvidenceEvent → String
  unfolding evidence_line
  evidence_lines [] = ""
  evidence_lines (e ∷ es) = evidence_line e ++ evidence_lines es

  stats_or_none : List DomainStat → String
  unfolding stat_lines
  stats_or_none [] = "(none)\n"
  stats_or_none (s ∷ ss) = stat_lines (s ∷ ss)

  evidence_or_none : List SummaryEvidenceEvent → String
  unfolding evidence_lines
  evidence_or_none [] =
      "(none — return an empty notable_events array and only recommendations not tied to specific events)\n"
  evidence_or_none (e ∷ es) = evidence_lines (e ∷ es)

  unfoldable pub build_summary_prompt :
      String → List DomainStat → List SummaryEvidenceEvent → String
  unfolding stats_or_none evidence_or_none
  build_summary_prompt domain stats evidence =
      summary_system_preamble
      ++ summary_json_schema
      ++ summary_rules
      ++ "\nDomain: "
      ++ (if str_eq domain "" then "(all domains)" else domain)
      ++ "\n\nEvent statistics for the requested window:\n"
      ++ stats_or_none stats
      ++ "\nAllowed event IDs you may cite in notable_events[].event_id and recommended_actions[].related_event_ids:\n"
      ++ evidence_or_none evidence
      ++ "\nReturn ONLY the JSON object. No markdown, no code fences, no commentary."

  unfoldable pub hash_lines : List DomainStat → String
  hash_lines [] = ""
  hash_lines (s ∷ ss) =
      s.domain
      ++ "|"
      ++ s.event_type
      ++ "|"
      ++ f.format_int (pos s.count)
      ++ "|"
      ++ f.rfc3339_nano s.first_seen
      ++ "|"
      ++ f.rfc3339_nano s.last_seen
      ++ "\n"
      ++ hash_lines ss

  -- Without statistics the early return hashes the same text as the loop over none.
  unfoldable pub compute_input_hash : List DomainStat → F → ℤ → String
  unfolding hash_lines sort_stable stat_before
  compute_input_hash stats temperature max_tokens = f.sha256_hex (
      f.format_float temperature
      ++ "|"
      ++ f.format_int max_tokens
      ++ "\n"
      ++ hash_lines (sort_stable stat_before stats))

  -- `BuildCacheKey`, as the lookup that `Summarize` makes of the key's fields.
  unfoldable pub build_cache_key :
      String → ℕ → String → String → String → F → ℤ → List DomainStat → SummaryLookup F
  unfolding compute_input_hash
  build_cache_key domain window_from provider model prompt_version temperature max_tokens stats =
      record {
        domain = domain;
        window_from = window_from;
        provider = provider;
        model = model;
        prompt_version = prompt_version;
        temperature = temperature;
        max_tokens = max_tokens;
        input_hash = compute_input_hash stats temperature max_tokens;
      }
