-- ===== src/Tests/Summary.antt =====
-- A summary that cites an event of the evidence and one that is not there.
use synapse_platform.Prelude.{◌≡◌, false, List, [], ◌∷◌, none, some}
use synapse_platform.Intelligence.Summary.{
  EventSummary, SummaryEvidenceEvent, is_allowed, allowed_event_ids, validate_against_evidence,
}
use synapse_platform.Intelligence.Summary.Citations.{accepts, validate_against_evidence-cited}

program : Unit {0}
unfolding is_allowed allowed_event_ids validate_against_evidence
program = tt

abbrev evidence : List SummaryEvidenceEvent
evidence =
    record {
      event_id = "e1";
      domain = "energy";
      event_type = "battery";
      entity_id = "d";
      occurred_at = 3;
    }
    ∷ []

abbrev summary : EventSummary
summary = record {
  summary = "s";
  risk_level = "low";
  notable_events =
      record {
        event_id = "e1";
        domain = "energy";
        event_type = "battery";
        entity_id = "d";
        occurred_at = 3;
        reason = "r";
      }
      ∷ [];
  recommended_actions =
      record { action = "a"; rationale = "r"; related_event_ids = "e1" ∷ "e2" ∷ [] } ∷ [];
}

validate_against_evidence-cited_example :
    (accepts (validate_against_evidence (some summary) (allowed_event_ids evidence)) ≡ false)
    × (accepts (validate_against_evidence none (allowed_event_ids evidence)) ≡ false)
unfolding program
validate_against_evidence-cited_example = validate_against_evidence-cited evidence summary
