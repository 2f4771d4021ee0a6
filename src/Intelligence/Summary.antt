-- ===== src/Intelligence/Summary.antt =====
-- internal/intelligence/summary/types.go and prompt.go: a structured summary, the events that it may
-- cite, and the check of its citations. A set of ids is the list of its members.
pub mod Citations
pub mod Prompt
pub mod Service
use synapse_platform.Prelude.{
  ℕ, Bool, true, false, String, Option, none, some, List, [], ◌∷◌, if◌then◌else◌, str_eq,
}

pub record NotableEvent : Type 0 where
  pub event_id : String
  pub domain : String
  pub event_type : String
  pub entity_id : String
  pub occurred_at : ℕ
  pub reason : String

pub record RecommendedAction : Type 0 where
  pub action : String
  pub rationale : String
  pub related_event_ids : List String

pub record EventSummary : Type 0 where
  pub summary : String
  pub risk_level : String
  pub notable_events : List NotableEvent
  pub recommended_actions : List RecommendedAction

pub record SummaryEvidenceEvent : Type 0 where
  pub event_id : String
  pub domain : String
  pub event_type : String
  pub entity_id : String
  pub occurred_at : ℕ

-- Whether a key is in the set.
unfoldable pub is_allowed : String → List String → Bool
is_allowed id [] = false
is_allowed id (x ∷ xs) = if str_eq id x then true else is_allowed id xs

-- `AllowedEventIDs`
unfoldable pub allowed_event_ids : List SummaryEvidenceEvent → List String
allowed_event_ids [] = []
allowed_event_ids (e ∷ es) = e.event_id ∷ allowed_event_ids es

-- The loop over the actions when there is no evidence.
pub check_unsupported : List RecommendedAction → Option String
check_unsupported [] = none
check_unsupported (a ∷ rest) = elim a.related_event_ids [
  | [] ↦ check_unsupported rest
  | _ ∷ _ ↦ some "recommended action references event IDs but no evidence was provided"
]

pub check_notable_events : List NotableEvent → List String → Option String
check_notable_events [] allowed = none
check_notable_events (ne ∷ rest) allowed =
    let later = check_notable_events rest allowed in
    if is_allowed ne.event_id allowed
    then later
    else some "notable event references unknown event_id"

pub check_ids : List String → List String → Option String
check_ids [] allowed = none
check_ids (id ∷ ids) allowed =
    let later = check_ids ids allowed in
    if is_allowed id allowed then later else some "recommended action references unknown event_id"

pub check_actions : List RecommendedAction → List String → Option String
unfolding check_ids
check_actions [] allowed = none
check_actions (a ∷ rest) allowed = elim (check_ids a.related_event_ids allowed) [
  | some e ↦ some e
  | none ↦ check_actions rest allowed
]

unsupported : EventSummary → Option String
unfolding check_unsupported
unsupported es = elim es.notable_events [
  | _ ∷ _ ↦ some "notable events reference event IDs but no evidence was provided"
  | [] ↦ check_unsupported es.recommended_actions
]

supported : EventSummary → List String → Option String
unfolding check_notable_events check_actions
supported es allowed = elim (check_notable_events es.notable_events allowed) [
  | some e ↦ some e
  | none ↦ check_actions es.recommended_actions allowed
]

-- `ValidateAgainstEvidence`; `none` is the nil summary.
unfoldable pub validate_against_evidence : Option EventSummary → List String → Option String
unfolding unsupported supported
validate_against_evidence none allowed = some "event summary is nil"
validate_against_evidence (some es) [] = unsupported es
validate_against_evidence (some es) (x ∷ xs) = supported es (x ∷ xs)
