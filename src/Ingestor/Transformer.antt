-- ===== src/Ingestor/Transformer.antt =====
-- internal/ingestor/registry.go and transformer.go: from a device message to an event.
pub mod Events
use Prim.Native.String.{◌++◌ as join}
use synapse_platform.Prelude.{
  ℕ, ◌≡◌, Bool, true, false, ◌||◌, String, Option, none, some, List, [], ◌∷◌, if◌then◌else◌, str_eq,
}
use synapse_platform.Ingestor.Errors.{
  GoError, sentinel, wrapped, processor_error, unknown_data_type, validating_data, marshaling_msg,
  unmarshalling_msg,
}
use synapse_platform.Ingestor.Domains.{
  DataTypes, Domains, data_type_unknown, parse_data_type, parse_domain_type, type_to_domain,
}
use synapse_platform.Ingestor.Message.{DeviceMessage, Labels}
use synapse_platform.Ingestor.Payload.{
  Numbers, GoStrings, Validator, Payload, energy, financial, environmental, unknown_event,
  normalize, validate,
}

-- A call returns a value or an error, or panics.
pub data Outcome {ℓ} (A : Type ℓ) : Type ℓ where
  returned : A → Outcome A
  returned_error : GoError → Outcome A
  panicked : Outcome A

infixl 5 ◌>>=◌
abbrev pub ◌>>=◌ {ℓ κ} : {A : Type ℓ} {B : Type κ} → Outcome A → (A → Outcome B) → Outcome B
returned a >>= f = f a
returned_error e >>= f = returned_error e
panicked >>= f = panicked

-- `NewPayload` is the value that it returns.
pub record DomainDescriptor (n : Numbers) : Type 0 where
  pub entity_type : String
  pub source : String
  pub new_payload : Payload n

abbrev pub Registry : Numbers → Type 0
Registry n = List (DataTypes × DomainDescriptor n)

-- What the code takes from other packages: the JSON encoder of a map, the JSON decoder into an
-- interface value (which may leave nil there), `uuid.NewSHA1`, `Time.Format`, and the time.
pub record Codec (n : Numbers) : Type 0 where
  pub marshal : Option Labels → Outcome String
  pub unmarshal : String → Payload n → Outcome (Option (Payload n))
  pub new_sha1 : String → String
  pub format_time : ℕ → String
  pub now : ℕ

pub record BaseEvent (n : Numbers) : Type 0 where
  pub event_id : String
  pub domain : Domains
  pub event_type : String
  pub entity_id : String
  pub entity_type : String
  pub occurred_at : ℕ
  pub ingested_at : ℕ
  pub source : String
  pub schema_version : String
  pub payload : Payload n

module _ {n : Numbers} where
  unfoldable pub lookup_domain : DataTypes → Registry n → Option (DomainDescriptor n)
  lookup_domain dt [] = none
  lookup_domain dt ((k, d) ∷ rest) = if str_eq dt k then some d else lookup_domain dt rest

  unfoldable pub register_domain :
      DataTypes → DomainDescriptor n → Registry n → Outcome (Registry n)
  register_domain dt d r = elim (lookup_domain dt r) [
    | some _ ↦ panicked
    | none ↦ returned ((dt, d) ∷ r)
  ]

module _ (n : Numbers) where
  abbrev descriptor : String → DataTypes → Payload n → DomainDescriptor n
  descriptor entity_type source p = record {
    entity_type = entity_type;
    source = source;
    new_payload = p;
  }

  abbrev empty_energy : Payload n
  empty_energy =
      energy
        (record { power_w = n.zero; energy_wh = n.zero; voltage_v = n.zero; current_ma = n.zero })

  abbrev empty_environmental : Payload n
  empty_environmental =
      environmental
        (record { temperature_c = n.zero; humidity_percent = n.zero; air_quality_index = n.zero })

  abbrev empty_financial : Payload n
  empty_financial =
      financial (record { amount_minor = n.zero; currency = ""; merchant = ""; status = "" })

  -- The `init` function of the package.
  unfoldable pub init_registry : Outcome (Registry n)
  unfolding register_domain lookup_domain
  init_registry = do
    r ←
        register_domain "financial_stream" (descriptor "device" "financial_stream" empty_financial)
          []
    r ← register_domain "energy_meter" (descriptor "sensor" "energy_meter" empty_energy) r
    r ←
        register_domain "temperature_sensor"
          (descriptor "sensor" "temperature_sensor" empty_environmental) r
    r ←
        register_domain "climate_sensor" (descriptor "sensor" "climate_sensor" empty_environmental)
          r
    r ← register_domain "ev_charger" (descriptor "device" "ev_charger" empty_energy) r
    r ← register_domain "grid_meter" (descriptor "sensor" "grid_meter" empty_energy) r
    register_domain "unknown" (descriptor "unknown" "unknown" (unknown_event none)) r

pub record MessageTransformer : Type 0 where
  pub data_types_supported : List DataTypes
  pub domains_supported : List Domains

pub contains : String → List String → Bool
contains a [] = false
contains a (x ∷ xs) = str_eq a x || contains a xs

add_domain : Option Domains → List Domains → List Domains
unfolding contains
add_domain none ds = ds
add_domain (some d) ds = if contains d ds then ds else d ∷ ds

domains_of : List DataTypes → List Domains
unfolding add_domain
domains_of [] = []
domains_of (dt ∷ dts) = add_domain (type_to_domain dt) (domains_of dts)

-- The order of the domains, which Go takes from a map, is not read.
unfoldable pub new_message_transformer : List DataTypes → MessageTransformer
unfolding domains_of
new_message_transformer dts = record {
  data_types_supported = dts;
  domains_supported = domains_of dts;
}

no_types : List DataTypes → Bool
no_types [] = true
no_types (_ ∷ _) = false

unfoldable pub is_domain_supported : MessageTransformer → Domains → Bool
unfolding contains no_types
is_domain_supported t d =
    if no_types t.data_types_supported then true else contains d t.domains_supported

module _ {n : Numbers} (s : GoStrings) (v : Validator n) (c : Codec n) where
  unfoldable pub filter_per_domain : Registry n → DeviceMessage → Outcome (DomainDescriptor n)
  filter_per_domain r m = elim (lookup_domain (parse_data_type m.type) r) [
    | none ↦ returned_error (sentinel unknown_data_type)
    | some d ↦ returned d
  ]

  abbrev pub wrap : {A : Type 0} → (GoError → GoError) → Outcome A → Outcome A
  wrap f (returned a) = returned a
  wrap f (returned_error e) = returned_error (f e)
  wrap f panicked = panicked

  unfoldable pub unmarshal_event : Option Labels → Payload n → Outcome (Option (Payload n))
  unmarshal_event metrics target = do
    bytes ← wrap (processor_error marshaling_msg "msg" "jsonBytes") (c.marshal metrics)
    wrap (processor_error unmarshalling_msg "target" "NormalizedData") (c.unmarshal bytes target)

  -- The calls of `Normalize` and `Validate`; a method of a nil interface panics.
  unfoldable pub checked_payload : Option (Payload n) → Outcome (Payload n)
  checked_payload none = panicked
  checked_payload (some p) =
      let normal = normalize n s p in
      elim (validate n v normal) [ none ↦ returned normal | some e ↦ returned_error e ]

  -- The UUID of the business key.
  unfoldable pub event_id : DeviceMessage → String
  event_id m =
      c.new_sha1 (join m.device_id (join "|" (join m.type (join "|" (c.format_time m.timestamp)))))

  transform_supported : Registry n → DeviceMessage → Outcome (BaseEvent n)
  transform_supported r m = do
    mapping ← filter_per_domain r m
    target ← unmarshal_event m.metrics mapping.new_payload
    payload ← checked_payload target
    returned (record {
      event_id = event_id m;
      domain = parse_domain_type m.type;
      event_type = m.type;
      entity_id = m.device_id;
      entity_type = mapping.entity_type;
      occurred_at = m.timestamp;
      ingested_at = c.now;
      source = mapping.source;
      schema_version = "1.0.0";
      payload = payload;
    })

  unfoldable pub transform : Registry n → MessageTransformer → DeviceMessage → Outcome (BaseEvent n)
  unfolding transform_supported
  transform r t m =
      if is_domain_supported t (parse_domain_type m.type)
      then transform_supported r m
      else returned_error (
          processor_error validating_data "domain" "DataTypes"
            (wrapped "unsupported domain" (sentinel unknown_data_type)))
