-- ===== src/Ingestor/Errors.antt =====
-- internal/ingestor/error.go. An `error` value is its chain of wrappers down to a root.
use synapse_platform.Prelude.{
  Bool, true, false, ◌||◌, ◌≡◌, refl, Option, none, some, String, if◌then◌else◌,
}

-- The `errors.New` values of the package.
pub data Sentinel : Type 0 where
  unknown_data_type nil_message missing_field_device_id missing_field_type : Sentinel
  missing_field_timestamp event_not_found : Sentinel

pub data TypeOfError : Type 0 where
  validating_msg storing_msg processing_msg polling_msg validating_data : TypeOfError
  marshaling_msg unmarshalling_msg : TypeOfError

pub data ErrorClass : Type 0 where
  class_transient class_terminal : ErrorClass

-- `other` is a root made elsewhere, `wrapped` is `fmt.Errorf` with `%w`, `processor_error` and
-- `classified_error` are the two error structs of the package.
pub data GoError : Type 0 where
  sentinel : Sentinel → GoError
  other : String → GoError
  wrapped : String → GoError → GoError
  processor_error : TypeOfError → String → String → GoError → GoError
  classified_error : ErrorClass → GoError → GoError

abbrev pub sentinel_eq : Sentinel → Sentinel → Bool
sentinel_eq unknown_data_type unknown_data_type = true
sentinel_eq nil_message nil_message = true
sentinel_eq missing_field_device_id missing_field_device_id = true
sentinel_eq missing_field_type missing_field_type = true
sentinel_eq missing_field_timestamp missing_field_timestamp = true
sentinel_eq event_not_found event_not_found = true
sentinel_eq _ _ = false

-- `errors.Is` at a sentinel.
unfoldable pub errors_is : GoError → Sentinel → Bool
errors_is (sentinel s) t = sentinel_eq s t
errors_is (other m) t = false
errors_is (wrapped m e) t = errors_is e t
errors_is (processor_error k f x e) t = errors_is e t
errors_is (classified_error c e) t = errors_is e t

-- `errors.As` at the interface `ClassifiedError`: the outermost error that has a class.
unfoldable pub errors_as_classified : GoError → Option ErrorClass
errors_as_classified (sentinel s) = none
errors_as_classified (other m) = none
errors_as_classified (wrapped m e) = errors_as_classified e
errors_as_classified (processor_error k f x e) = errors_as_classified e
errors_as_classified (classified_error c e) = some c

unfoldable pub new_transient_error : Option GoError → Option GoError
new_transient_error none = none
new_transient_error (some e) = some (classified_error class_transient e)

unfoldable pub new_terminal_error : Option GoError → Option GoError
new_terminal_error none = none
new_terminal_error (some e) = some (classified_error class_terminal e)

-- The four sentinels that `Classify` knows as terminal.
unfoldable pub is_terminal_sentinel : GoError → Bool
unfolding errors_is
is_terminal_sentinel e =
    errors_is e missing_field_device_id
    || errors_is e missing_field_type
    || errors_is e missing_field_timestamp
    || errors_is e unknown_data_type

unfoldable pub classify : Option GoError → ErrorClass
unfolding errors_as_classified is_terminal_sentinel
classify none = class_transient
classify (some e) = elim (errors_as_classified e) [
  | some c ↦ c
  | none ↦ if is_terminal_sentinel e then class_terminal else class_transient
]

abbrev pub is_terminal : ErrorClass → Bool
is_terminal class_terminal = true
is_terminal class_transient = false

-- `ErrorClass.String`
unfoldable pub class_string : ErrorClass → String
class_string class_terminal = "terminal"
class_string class_transient = "transient"

-- Wrapping an error, by `fmt.Errorf` or in a `ProcessorError`, leaves its class; marking it decides
-- the class, whatever stands below the mark.
classify-wrap :
    (e : GoError)
    → ((m : String) → classify (some (wrapped m e)) ≡ classify (some e))
      × ((k : TypeOfError) (f x : String)
          → classify (some (processor_error k f x e)) ≡ classify (some e))
      × (classify (new_terminal_error (some e)) ≡ class_terminal)
      × (classify (new_transient_error (some e)) ≡ class_transient)
unfolding classify new_terminal_error new_transient_error errors_is
classify-wrap e = (λ m. refl, λ k f x. refl, refl, refl)
