-- ===== src/Ingestor/Transformer/Events.antt =====
-- What `Transform` returns, and when it fails.
use synapse_platform.Prelude.{
  ◌≡◌, refl, ◌⊎◌, inl, inr, true, Bool-cases, Option-cases, Option, none, some, [], ◌∷◌,
  if◌then◌else◌, subst, ap, sym, ◌∙◌, String, str_eq, arith,
}
use synapse_platform.Ingestor.Errors.{
  GoError, sentinel, wrapped, processor_error, validating_data, unknown_data_type, classify,
  class_terminal, errors_is, errors_as_classified, is_terminal_sentinel,
}
use synapse_platform.Ingestor.Domains.{DataTypes, is_valid, parse_data_type, parse_domain_type}
use synapse_platform.Ingestor.Message.{DeviceMessage, Labels}
use synapse_platform.Ingestor.Payload.{Numbers, GoStrings, Validator, Payload, validate, normalize}
use synapse_platform.Ingestor.Transformer.{
  Outcome, returned, returned_error, panicked, ◌>>=◌, DomainDescriptor, Registry, Codec, BaseEvent,
  lookup_domain, register_domain, init_registry, MessageTransformer, is_domain_supported,
  filter_per_domain, wrap, unmarshal_event, checked_payload, event_id, transform_supported,
  transform,
}

-- A registered type is found with its descriptor, and the others are found as before; a type that is
-- registered already panics.
register_domain-lookup :
    {n : Numbers} (dt : DataTypes) (d : DomainDescriptor n) (r : Registry n)
    → ((lookup_domain dt r ≡ none)
        × (r' : Registry n) × (register_domain dt d r ≡ returned r')
        × ((k : DataTypes)
            → lookup_domain k r' ≡ (if str_eq k dt then some d else lookup_domain k r)))
      ⊎ ((e : DomainDescriptor n) × (lookup_domain dt r ≡ some e)
          × (register_domain dt d r ≡ panicked))
unfolding register_domain lookup_domain
register_domain-lookup dt d r = elim (Option-cases (lookup_domain dt r)) [
  | inl p ↦ inl (p, (dt, d) ∷ r, rw (p, register_domain) refl, λ k. refl)
  | inr (e, p) ↦ inr (e, p, rw (p, register_domain) refl)
]

value_or : {A : Type 0} → A → Outcome A → A
value_or a (returned b) = b
value_or a (returned_error e) = a
value_or a panicked = a

standard_registry : (n : Numbers) → Registry n
unfolding init_registry
standard_registry n = value_or [] (init_registry n)

module _ {n : Numbers} (s : GoStrings) (v : Validator n) (c : Codec n) where
  -- What is known of an event that `Transform` returned for message `m`.
  pub record MadeFrom (r : Registry n) (t : MessageTransformer) (m : DeviceMessage)
      (ev : BaseEvent n) : Type 0 where
    pub descriptor : DomainDescriptor n
    pub supported : is_domain_supported t (parse_domain_type m.type) ≡ true
    pub registered : lookup_domain (parse_data_type m.type) r ≡ some descriptor
    pub same_id : ev.event_id ≡ event_id s v c m
    pub same_domain : ev.domain ≡ parse_domain_type m.type
    pub same_type : ev.event_type ≡ m.type
    pub same_entity : ev.entity_id ≡ m.device_id
    pub same_entity_type : ev.entity_type ≡ descriptor.entity_type
    pub same_source : ev.source ≡ descriptor.source
    pub same_time : ev.occurred_at ≡ m.timestamp
    pub time_of_call : ev.ingested_at ≡ c.now
    pub first_version : ev.schema_version ≡ "1.0.0"
    pub bytes : String
    pub reading : Payload n
    pub encoded : c.marshal m.metrics ≡ returned bytes
    pub decoded : c.unmarshal bytes descriptor.new_payload ≡ returned (some reading)
    pub normalized : ev.payload ≡ normalize n s reading
    pub valid : validate n v ev.payload ≡ none

  bind_returned :
      {A B : Type 0} (o : Outcome A) (f : A → Outcome B) {b : B}
      → (o >>= f) ≡ returned b
      → (a : A) × (o ≡ returned a) × (f a ≡ returned b)
  bind_returned (returned a) f h = (a, refl, h)
  bind_returned (returned_error e) f h = cc
  bind_returned panicked f h = cc

  filter_returned :
      (r : Registry n) (m : DeviceMessage) {d : DomainDescriptor n}
      → filter_per_domain s v c r m ≡ returned d
      → lookup_domain (parse_data_type m.type) r ≡ some d
  unfolding filter_per_domain
  filter_returned r m h = ground arith

  wrap_returned :
      {A : Type 0} (f : GoError → GoError) (o : Outcome A) {a : A}
      → wrap s v c f o ≡ returned a
      → o ≡ returned a
  wrap_returned f (returned a) h = h
  wrap_returned f (returned_error e) h = cc
  wrap_returned f panicked h = cc

  unmarshal_returned :
      (metrics : Option Labels) (target : Payload n) {o : Option (Payload n)}
      → unmarshal_event s v c metrics target ≡ returned o
      → (bytes : String) × (c.marshal metrics ≡ returned bytes)
        × (c.unmarshal bytes target ≡ returned o)
  unfolding unmarshal_event
  unmarshal_returned metrics target h =
      let (bytes, first, second) = bind_returned (wrap s v c _ (c.marshal metrics)) _ h in
      (bytes, wrap_returned _ (c.marshal metrics) first, wrap_returned _ _ second)

  checked_returned :
      (o : Option (Payload n)) {p : Payload n}
      → checked_payload s v c o ≡ returned p
      → (q : Payload n) × (o ≡ some q) × (p ≡ normalize n s q) × (validate n v p ≡ none)
  unfolding checked_payload
  checked_returned none h = cc
  checked_returned (some q) {p} h = (q, refl, ground arith, ground arith)

  supported_cases :
      (r : Registry n) (t : MessageTransformer) (m : DeviceMessage) {ev : BaseEvent n}
      → transform s v c r t m ≡ returned ev
      → (is_domain_supported t (parse_domain_type m.type) ≡ true)
        × (transform_supported s v c r m ≡ returned ev)
  unfolding transform
  supported_cases r t m h = ground arith

  -- Every event that `Transform` returns carries the fields of its message, its domain, and the
  -- entity type and source registered for its type. Its payload is what the decoder read from the
  -- encoded metrics into the payload registered for the type, normalized, and it is valid.
  -- The time it was ingested is that of the call, and its version is 1.0.0.
  pub transform-MadeFrom :
      (r : Registry n) (t : MessageTransformer) (m : DeviceMessage) (ev : BaseEvent n)
      → transform s v c r t m ≡ returned ev
      → MadeFrom r t m ev
  unfolding transform_supported
  transform-MadeFrom r t m ev h =
      let (is_supported, made) = supported_cases r t m h in
      let (d, found, h1) = bind_returned (filter_per_domain s v c r m) _ made in
      let (o, decoded, h2) = bind_returned (unmarshal_event s v c m.metrics d.new_payload) _ h1 in
      let (p, checked, h3) = bind_returned (checked_payload s v c o) _ h2 in
      let (q, there, normal, accepted) = checked_returned o checked in
      let (bytes, text, read) = unmarshal_returned m.metrics d.new_payload decoded in
      let same_payload : p ≡ ev.payload = cc in
      record {
        descriptor = d;
        supported = is_supported;
        registered = filter_returned r m found;
        same_id = cc;
        same_domain = cc;
        same_type = cc;
        same_entity = cc;
        same_entity_type = cc;
        same_source = cc;
        same_time = cc;
        time_of_call = cc;
        first_version = cc;
        bytes = bytes;
        reading = q;
        encoded = text;
        decoded = read ∙ ap returned there;
        normalized = sym same_payload ∙ normal;
        valid = subst (λ x. validate n v x ≡ none) same_payload accepted;
      }

  -- A message without metrics makes `Transform` panic when its domain is supported and its type is
  -- registered: the nil map is encoded as `null`, and the decoder sets the payload to nil.
  pub missing_metrics-panicked :
      (r : Registry n) (t : MessageTransformer) (m : DeviceMessage) (d : DomainDescriptor n)
      → m.metrics ≡ none
      → c.marshal none ≡ returned "null"
      → ((p : Payload n) → c.unmarshal "null" p ≡ returned none)
      → is_domain_supported t (parse_domain_type m.type) ≡ true
      → lookup_domain (parse_data_type m.type) r ≡ some d
      → transform s v c r t m ≡ panicked
  unfolding transform transform_supported filter_per_domain unmarshal_event checked_payload
  missing_metrics-panicked r t m d empty encoded decoded supported found =
      rw
        (
          supported,
          transform_supported,
          filter_per_domain,
          found,
          unmarshal_event,
          empty,
          encoded,
          decoded d.new_payload,
        )
        refl

  -- Whatever `Transform` returns as an error for a message whose type is not registered is terminal.
  pub unregistered-terminal :
      (r : Registry n) (t : MessageTransformer) (m : DeviceMessage)
      → lookup_domain (parse_data_type m.type) r ≡ none
      → (e : GoError) × (transform s v c r t m ≡ returned_error e)
        × (classify (some e) ≡ class_terminal)
  unfolding transform transform_supported filter_per_domain classify errors_as_classified errors_is
      is_terminal_sentinel
  unregistered-terminal r t m missing =
      elim (Bool-cases (is_domain_supported t (parse_domain_type m.type))) [
        | inl e ↦ (
          sentinel unknown_data_type,
          rw (e, transform_supported, filter_per_domain, missing) refl,
          refl,
        )
        | inr e ↦ (
          processor_error validating_data "domain" "DataTypes"
              (wrapped "unsupported domain" (sentinel unknown_data_type)),
          rw e refl,
          refl,
        )
      ]

-- `motion_sensor`, `solar_panel` and `battery` are valid data types, and `Transform` refuses each of
-- them with a terminal error.
pub unregistered_devices-refused :
    {n : Numbers} (s : GoStrings) (v : Validator n) (c : Codec n) (r : Registry n)
    (t : MessageTransformer) (m : DeviceMessage)
    → init_registry n ≡ returned r
    → (m.type ≡ "motion_sensor") ⊎ ((m.type ≡ "solar_panel") ⊎ (m.type ≡ "battery"))
    → (is_valid m.type ≡ true)
      × (e : GoError) × (transform s v c r t m ≡ returned_error e)
      × (classify (some e) ≡ class_terminal)
unfolding init_registry lookup_domain is_valid parse_data_type standard_registry value_or
unregistered_devices-refused {n} s v c r t m h w =
    let same : r ≡ standard_registry n = cc in
    let missing : lookup_domain (parse_data_type m.type) (standard_registry n) ≡ none = elim w [
      | inl k ↦ rw k refl
      | inr (inl k) ↦ rw k refl
      | inr (inr k) ↦ rw k refl
    ] in
    let valid : is_valid m.type ≡ true = elim w [
      | inl k ↦ rw k refl
      | inr (inl k) ↦ rw k refl
      | inr (inr k) ↦ rw k refl
    ] in
    let (e, result, terminal) = unregistered-terminal s v c r t m (rw same missing) in
    (valid, e, result, terminal)
