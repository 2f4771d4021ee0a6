-- ===== src/Tests/Payload.antt =====
-- Events: three readings that the struct tags refuse, and messages that are refused, that panic and
-- that become an event.
use synapse_platform.Prelude.{
  ℕ, ◌≡◌, refl, false, true, List, [], ◌∷◌, Option, none, some, String, inl, inr, if◌then◌else◌,
  str_eq, ◌==◌, ltb, arith,
}
use synapse_platform.Ingestor.Errors.{
  GoError, other, classify, class_terminal, errors_is, errors_as_classified, is_terminal_sentinel,
}
use synapse_platform.Ingestor.Domains.{parse_data_type, parse_domain_type, is_valid, type_to_domain}
use synapse_platform.Ingestor.Message.{DeviceMessage}
use synapse_platform.Ingestor.Payload.{
  Numbers, IsOrdered, GoStrings, Validator, Payload, energy, EnergyReading, EnvironmentalSensor,
  normalize, validate, check_energy, check_environmental, normalize_energy, normalize_environmental,
}
use synapse_platform.Ingestor.Payload.Checked.{
  IsDocumented, meets_all, is_none, environmental_accepted, negative_energy_refused,
}
use synapse_platform.Ingestor.Transformer.{
  returned, returned_error, panicked, DomainDescriptor, Registry, Codec, BaseEvent,
  MessageTransformer, lookup_domain, register_domain, init_registry, new_message_transformer,
  is_domain_supported, event_id, filter_per_domain, unmarshal_event, checked_payload, transform,
}
use synapse_platform.Ingestor.Transformer.Events.{
  MadeFrom, transform-MadeFrom, missing_metrics-panicked, unregistered_devices-refused,
}

program : Unit {0}
unfolding parse_data_type parse_domain_type is_valid type_to_domain normalize normalize_energy
    normalize_environmental validate lookup_domain register_domain init_registry
    new_message_transformer is_domain_supported event_id filter_per_domain unmarshal_event
    checked_payload transform classify errors_is errors_as_classified is_terminal_sentinel
program = tt

-- Numbers with an offset of 1000: 1000 stands for 0.
abbrev numbers : Numbers
numbers = record {
  F = ℕ;
  lt = ltb;
  eq = λ a b. a == b;
  mul = λ a b. a;
  div = λ a b. a;
  zero = 1000;
  minus_fifty = 950;
  ten = 1010;
  hundred = 1100;
  five_hundred = 1500;
  thousand = 2000;
}

numbers-IsOrdered : IsOrdered numbers
numbers-IsOrdered = record {
  lt_irrefl = λ x. ground arith;
  eq_refl = λ x. ground arith;
  hundred_fifty = refl;
  hundred_zero = refl;
  five_hundred_zero = refl;
}

abbrev validator : Validator numbers
validator = record {
  check_number = λ ts x. if meets_all numbers ts x then none else some (other "tag");
  check_text = λ ts x. none;
}

validator-IsDocumented : IsDocumented numbers validator
validator-IsDocumented ts x = ground arith

abbrev freezing : EnvironmentalSensor numbers
freezing = record { temperature_c = 1000; humidity_percent = 1040; air_quality_index = 1020 }

environmental_accepted_example :
    is_none (check_environmental numbers validator (normalize_environmental numbers freezing))
    ≡ false
unfolding program
environmental_accepted_example =
    environmental_accepted numbers numbers-IsOrdered validator validator-IsDocumented freezing

abbrev negative : EnergyReading numbers
negative = record { power_w = 1005; energy_wh = 990; voltage_v = 1230; current_ma = 1100 }

negative_energy_refused_example :
    is_none (check_energy numbers validator (normalize_energy numbers negative)) ≡ false
negative_energy_refused_example =
    negative_energy_refused numbers numbers-IsOrdered validator validator-IsDocumented negative
      (inl refl)

abbrev strings : GoStrings
strings = record { to_lower = λ s. s; to_upper = λ s. s; trim_space = λ s. s }

-- The decoder gives back a charger's reading, or nil for the text `null`.
abbrev reading : Payload numbers
reading = energy (record { power_w = 1100; energy_wh = 1200; voltage_v = 1230; current_ma = 1100 })

abbrev codec : Codec numbers
codec = record {
  marshal = λ o. elim o [ none ↦ returned "null" | some m ↦ returned "{}" ];
  unmarshal = λ s p. (if str_eq s "null" then returned none else returned (some reading));
  new_sha1 = λ s. s;
  format_time = λ t. "t";
  now = 9;
}

abbrev entry : String → DomainDescriptor numbers
entry source = record { entity_type = "device"; source = source; new_payload = reading }

abbrev registry : Registry numbers
registry = ("ev_charger", entry "ev_charger") ∷ []

abbrev transformer : MessageTransformer
transformer = record { data_types_supported = []; domains_supported = [] }

abbrev message : String → Option (List (String × String)) → DeviceMessage
message type metrics = record {
  device_id = "d";
  type = type;
  timestamp = 4;
  metrics = metrics;
  headers = [];
}

abbrev charged : BaseEvent numbers
charged = record {
  event_id = "d|ev_charger|t";
  domain = "energy";
  event_type = "ev_charger";
  entity_id = "d";
  entity_type = "device";
  occurred_at = 4;
  ingested_at = 9;
  source = "ev_charger";
  schema_version = "1.0.0";
  payload = reading;
}

transform-MadeFrom_example :
    MadeFrom strings validator codec registry transformer (message "ev_charger" (some [])) charged
unfolding program
transform-MadeFrom_example =
    transform-MadeFrom strings validator codec registry transformer (message "ev_charger" (some []))
      charged refl

missing_metrics-panicked_example :
    transform strings validator codec registry transformer (message "ev_charger" none) ≡ panicked
unfolding program
missing_metrics-panicked_example =
    missing_metrics-panicked strings validator codec registry transformer
      (message "ev_charger" none) (entry "ev_charger") refl refl (λ p. refl) refl refl

abbrev made : Registry numbers
unfolding program
made = elim (init_registry numbers) [ returned r ↦ r | returned_error e ↦ [] | panicked ↦ [] ]

unregistered_devices-refused_example :
    (is_valid "battery" ≡ true)
    × (e : GoError) × (transform strings validator codec made transformer (message "battery" none)
        ≡ returned_error e)
    × (classify (some e) ≡ class_terminal)
unfolding program
unregistered_devices-refused_example =
    unregistered_devices-refused strings validator codec made transformer (message "battery" none)
      refl (inr (inr refl))
