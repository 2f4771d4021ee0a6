-- ===== src/Intelligence/Summary/Citations.antt =====
-- What the check of the citations accepts.
use synapse_platform.Prelude.{
  ◌≡◌, refl, ◌∙◌, Bool, true, false, ◌&&◌, ◌||◌, String, Option, none, some, List, [], ◌∷◌, ◌++◌,
  str_eq, ◌⊎◌, inl, inr, arith,
}
use synapse_platform.Intelligence.Summary.{
  NotableEvent, RecommendedAction, EventSummary, SummaryEvidenceEvent, is_allowed,
  allowed_event_ids, check_unsupported, check_notable_events, check_ids, check_actions, unsupported,
  supported, validate_against_evidence,
}

abbrev pub accepts : Option String → Bool
accepts none = true
accepts (some e) = false

-- Every id that a summary cites, in order.
abbrev pub notable_ids : List NotableEvent → List String
notable_ids [] = []
notable_ids (ne ∷ rest) = ne.event_id ∷ notable_ids rest

abbrev pub action_ids : List RecommendedAction → List String
action_ids [] = []
action_ids (a ∷ rest) = a.related_event_ids ++ action_ids rest

abbrev pub cited_ids : EventSummary → List String
cited_ids es = notable_ids es.notable_events ++ action_ids es.recommended_actions

-- Whether an event of the evidence has this id, and whether all ids have one.
abbrev pub is_evidence : List SummaryEvidenceEvent → String → Bool
is_evidence [] id = false
is_evidence (e ∷ es) id = str_eq id e.event_id || is_evidence es id

abbrev pub all_of : (String → Bool) → List String → Bool
all_of f [] = true
all_of f (id ∷ ids) = f id && all_of f ids

all_of-append :
    (f : String → Bool) (xs ys : List String) → all_of f (xs ++ ys) ≡ (all_of f xs && all_of f ys)
all_of-append f [] ys = refl
all_of-append f (x ∷ xs) ys = ground (arith, all_of-append f xs ys)

notable_lem :
    (nes : List NotableEvent) (allowed : List String)
    → accepts (check_notable_events nes allowed)
      ≡ all_of (λ id. is_allowed id allowed) (notable_ids nes)
unfolding check_notable_events
notable_lem [] allowed = refl
notable_lem (ne ∷ rest) allowed = ground (arith, notable_lem rest allowed)

ids_lem :
    (ids allowed : List String)
    → accepts (check_ids ids allowed) ≡ all_of (λ id. is_allowed id allowed) ids
unfolding check_ids
ids_lem [] allowed = refl
ids_lem (id ∷ ids) allowed = ground (arith, ids_lem ids allowed)

actions_lem :
    (xs : List RecommendedAction) (allowed : List String)
    → accepts (check_actions xs allowed) ≡ all_of (λ id. is_allowed id allowed) (action_ids xs)
unfolding check_actions
actions_lem [] allowed = refl
actions_lem (a ∷ rest) allowed = ground (
  arith,
  ids_lem a.related_event_ids allowed,
  actions_lem rest allowed,
  all_of-append (λ id. is_allowed id allowed) a.related_event_ids (action_ids rest),
)

supported_lem :
    (es : EventSummary) (allowed : List String)
    → accepts (supported es allowed) ≡ all_of (λ id. is_allowed id allowed) (cited_ids es)
unfolding supported
supported_lem es allowed = ground (
  arith,
  notable_lem es.notable_events allowed,
  actions_lem es.recommended_actions allowed,
  all_of-append (λ id. is_allowed id allowed) (notable_ids es.notable_events)
      (action_ids es.recommended_actions),
)

allowed_lem :
    (id : String) (evidence : List SummaryEvidenceEvent)
    → is_allowed id (allowed_event_ids evidence) ≡ is_evidence evidence id
unfolding is_allowed allowed_event_ids
allowed_lem id [] = refl
allowed_lem id (e ∷ es) = ground (arith, allowed_lem id es)

all_of_same :
    (f g : String → Bool) (ids : List String)
    → ((id : String) → f id ≡ g id)
    → all_of f ids ≡ all_of g ids
all_of_same f g [] same = refl
all_of_same f g (id ∷ ids) same = ground (arith, same id, all_of_same f g ids same)

List-cases : {A : Type 0} (xs : List A) → (xs ≡ []) ⊎ ((x : A) × (ys : List A) × (xs ≡ x ∷ ys))
List-cases [] = inl refl
List-cases (x ∷ xs) = inr (x, xs, refl)

unsupported_actions :
    (xs : List RecommendedAction)
    → accepts (check_unsupported xs) ≡ all_of (λ id. is_allowed id []) (action_ids xs)
unfolding check_unsupported is_allowed
unsupported_actions [] = refl
unsupported_actions (a ∷ rest) = elim (List-cases a.related_event_ids) [
  | inl e ↦ rw (check_unsupported, e) (unsupported_actions rest)
  | inr (id, ids, e) ↦ rw (check_unsupported, e) refl
]

unsupported_lem :
    (es : EventSummary) → accepts (unsupported es) ≡ all_of (λ id. is_allowed id []) (cited_ids es)
unfolding unsupported is_allowed
unsupported_lem es = elim (List-cases es.notable_events) [
  | inl e ↦ rw (unsupported, e) (unsupported_actions es.recommended_actions)
  | inr (ne, nes, e) ↦ rw (unsupported, e) refl
]

-- `ValidateAgainstEvidence` with the ids of the evidence accepts a summary exactly if every event id
-- that it cites, in a notable event or in a recommended action, is that of an event of the evidence;
-- with no evidence, exactly if it cites none. It refuses a nil summary.
pub validate_against_evidence-cited :
    (evidence : List SummaryEvidenceEvent) (es : EventSummary)
    → (accepts (validate_against_evidence (some es) (allowed_event_ids evidence))
        ≡ all_of (is_evidence evidence) (cited_ids es))
      × (accepts (validate_against_evidence none (allowed_event_ids evidence)) ≡ false)
unfolding validate_against_evidence allowed_event_ids
validate_against_evidence-cited [] es = (
  unsupported_lem es ∙ all_of_same _ (is_evidence []) (cited_ids es) (λ id. allowed_lem id []),
  refl,
)
validate_against_evidence-cited (e ∷ evidence) es = (
  supported_lem es (allowed_event_ids (e ∷ evidence))
      ∙ all_of_same _ (is_evidence (e ∷ evidence)) (cited_ids es)
          (λ id. allowed_lem id (e ∷ evidence)),
  refl,
)
